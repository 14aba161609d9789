-- ===== src/Reactor.antt =====
-- What a connection asks of the event loop about its own channel (`enableReading` and its like, Channel::remove).
-- `EPoll` fills it in `EPoll/AsReactor`.
use muduo.Base.{true, false, ◌≡◌, Option, none, Gives}
use muduo.Channel.{Flags, Change, changed, nonzero}

pub record Reactor : Type 1 where
  pub World : Type 0
  -- The channel may be updated.
  pub IsGood : World → Type 0
  -- It has been updated since it was made or removed.
  pub IsKnown : World → Type 0
  -- It is not among the channels that are still to be handled.
  pub IsIdle : World → Type 0
  pub events : World → Flags
  pub change : Change → World → Option World
  pub remove : World → Option World
  pub change_good :
      (ch : Change) (w : World)
      → IsGood w
      → Gives (change ch w) (λ w'.
        IsGood w' × IsKnown w' × (events w' ≡ changed ch (events w)) × (IsIdle w → IsIdle w'))
  pub remove_good :
      (w : World)
      → IsGood w
      → IsKnown w
      → IsIdle w
      → nonzero (events w) ≡ false
      → Gives (remove w) (λ w'. IsGood w' × (events w' ≡ events w))
  -- `Channel::remove` asserts that the channel has no events.
  pub remove_busy : (w : World) → nonzero (events w) ≡ true → remove w ≡ none
