-- ===== src/Connector/TooEarly.antt =====
-- `start` while a retry is still to come.
use muduo.Base.{true, ℕ, none, some, List, [], ◌∷◌, ◌++◌, ◌≡◌, refl, ap, ◌∙◌}
use muduo.Connector.{
  Connector, disconnected, connecting, Answer, begin_connecting, after_connect, start_in_loop,
  start_here, Errno, einprogress,
}
use muduo.Connector.Invariant.{run_timer}
use muduo.Connector.Steps.{start_in_loop-connect}

begin_connecting-run :
    (k : Answer) (c : Connector)
    → c.channel ≡ none
    → begin_connecting k.sockfd c ≡ some (record c { state = connecting; channel = some k.sockfd })
unfolding begin_connecting
begin_connecting-run k c h = rw h refl

after_connect-einprogress :
    (e : Errno) (sockfd : ℕ) (c : Connector)
    → e ≡ einprogress
    → after_connect e sockfd c ≡ begin_connecting sockfd c
unfolding after_connect
after_connect-einprogress e sockfd c h = rw h refl

start_in_loop-connecting :
    (k : Answer) (c : Connector) → c.state ≡ connecting → start_in_loop k c ≡ none
unfolding start_in_loop
start_in_loop-connecting k c h = rw h refl

-- When a connector without a channel that has the timer of a retry set, stopped or not, is started, and
-- the kernel answers EINPROGRESS, the start runs through, and then the timer fails the assertion of
-- startInLoop.
pub start_here-run_timer :
    (k k' : Answer) (c : Connector) (delay : ℕ) (delays : List ℕ)
    → c.state ≡ disconnected
    → c.channel ≡ none
    → c.timers ≡ delay ∷ delays
    → k.errno ≡ einprogress
    → (c' : Connector) × (start_here k c ≡ some c') × (run_timer c'.timers k' c' ≡ none)
start_here-run_timer k k' c delay delays st ch t e =
    let c₁ : Connector = record c { connect_ = true; opened = c.opened ++ k.sockfd ∷ [] } in
    let c' : Connector = record c₁ { state = connecting; channel = some k.sockfd } in
    (
      c',
      start_in_loop-connect k (record c { connect_ = true }) st refl
          ∙ (after_connect-einprogress k.errno k.sockfd c₁ e ∙ begin_connecting-run k c₁ ch),
      ap (λ ts. run_timer ts k' c') t
          ∙ start_in_loop-connecting k' (record c' { timers = delays }) refl,
    )
