-- ===== src/EPoll/AsReactor.antt =====
-- The epoll poller, seen by the owner of one channel of the loop.
use muduo.Base.{true, false, not, ℕ, ◌≡◌, ◌≢◌, ◌∙◌, ap, subst, Option, none, some, arith, Gives}
use muduo.Channel.{Flags, Channel, nonzero, Change, changed}
use muduo.EPoll.{Epoll, World, k_new, change, remove}
use muduo.EPoll.Invariant.{Registered, Entry, Inv, inactive}
use muduo.EPoll.Updates.{change-Told}
use muduo.EPoll.Remove.{remove-Forgotten, remove_busy}
use muduo.Reactor.{Reactor}

module _ (k : Epoll) (p : ℕ) where
  -- The invariant holds and the channel may be updated; if it was removed, its descriptor is free.
  pub record IsGood (w : World k) : Type 0 where
    pub inv : Inv w
    pub addable : (w.heap p).index ≡ k_new → w.channels (w.heap p).fd ≡ none

  pub change-IsGood :
      (ch : Change) (w : World k)
      → IsGood w
      → Gives (change ch p w) (λ w'.
        IsGood w'
        × ((w'.heap p).index ≢ k_new)
        × ((w'.heap p).events ≡ changed ch (w.heap p).events)
        × (inactive p w ≡ true → inactive p w' ≡ true))
  change-IsGood ch w g =
      let (w', e, t) = change-Told ch p w g.inv g.addable in
      let old = known w' t.inv (ap w'.channels t.same_fd ∙ t.mapped) in
      (
        w',
        e,
        (
          record { inv = t.inv; addable = λ n. absurd (old n) },
          old,
          t.events,
          λ i. t.same_loop ∙ i,
        ),
      )
    where
      indexed : (c : Channel) (i : Option (Flags × ℕ)) → Registered c p i → c.index ≢ k_new
      indexed c i h n = ground arith

      known :
          (w' : World k) → Inv w' → w'.channels (w'.heap p).fd ≡ some p → (w'.heap p).index ≢ k_new
      known w' v e =
          indexed (w'.heap p) _ (subst (Entry w' (w'.heap p).fd) e (v.entries (w'.heap p).fd)).1

  pub remove-IsGood :
      (w : World k)
      → IsGood w
      → (w.heap p).index ≢ k_new
      → inactive p w ≡ true
      → nonzero (w.heap p).events ≡ false
      → Gives (remove p w) (λ w'. IsGood w' × ((w'.heap p).events ≡ (w.heap p).events))
  remove-IsGood w g known idle silent =
      let (w', e, f) =
        remove-Forgotten p w g.inv (record { known = known; quiet = ap not silent; idle = idle }) in
      (
        w',
        e,
        (record { inv = f.inv; addable = λ _. ap w'.channels f.same_fd ∙ f.unmapped }, f.events),
      )

  -- The poller and the channel give a connection what it asks for.
  abbrev pub epoll_reactor : Reactor
  epoll_reactor = record {
    World = World k;
    IsGood = IsGood;
    IsKnown = λ w. (w.heap p).index ≢ k_new;
    IsIdle = λ w. inactive p w ≡ true;
    events = λ w. (w.heap p).events;
    change = λ ch. change ch p;
    remove = remove p;
    change_good = change-IsGood;
    remove_good = remove-IsGood;
    remove_busy = λ w h. remove_busy p w (ap not h);
  }
