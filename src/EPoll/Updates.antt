-- ===== src/EPoll/Updates.antt =====
-- `enableReading`, `disableAll` and the like: the kernel is told of every change.
use muduo.Base.{
  true, false, ℕ, ◌≡◌, ◌≢◌, inl, inr, refl, subst, none, some, arith, Gives, Bool-cases, eq→==,
}
use muduo.Base.Int.{ℤ, int_discrete}
use muduo.Channel.{Flags, Channel, is_none_event, Change, changed}
use muduo.EPoll.{
  Epoll, World, k_new, k_added, k_deleted, update_at, update, enter, update_channel, change,
}
use muduo.EPoll.Invariant.{Registered, Entry, Inv, Inv-local, inactive}

module _ {k : Epoll} (ch : Change) (p : ℕ) (w : World k) where
  -- The channel's mask after the change.
  abbrev target : Flags
  target = changed ch (w.heap p).events

  abbrev pub marked : ℤ → Channel
  marked i = record (w.heap p) { events = target; added_to_loop = true; index = i }

  abbrev pub self : Channel
  self = record (w.heap p) { events = target; added_to_loop = true }

  change_new :
      (t : k.State)
      → (w.heap p).index ≡ k_new
      → w.channels (w.heap p).fd ≡ none
      → k.ctl_add w.kernel (w.heap p).fd target p ≡ some t
      → change ch p w
        ≡ some (record w {
          heap = update_at (update_at w.heap p self) p (marked k_added);
          channels = update_at w.channels (w.heap p).fd (some p);
          kernel = t;
        })
  unfolding change update_channel enter update
  change_new t i c e = rw (eq→== p p refl, i, c, e)

  change_deleted :
      (t : k.State)
      → (w.heap p).index ≡ k_deleted
      → w.channels (w.heap p).fd ≡ some p
      → k.ctl_add w.kernel (w.heap p).fd target p ≡ some t
      → change ch p w
        ≡ some
            (record w { heap = update_at (update_at w.heap p self) p (marked k_added); kernel = t })
  unfolding change update_channel enter update
  change_deleted t i c e = rw (eq→== p p refl, i, c, eq→== p p refl, e)

  change_mod :
      (t : k.State)
      → (w.heap p).index ≡ k_added
      → w.channels (w.heap p).fd ≡ some p
      → is_none_event self ≡ false
      → k.ctl_mod w.kernel (w.heap p).fd target p ≡ some t
      → change ch p w ≡ some (record w { heap = update_at w.heap p self; kernel = t })
  unfolding change update_channel update
  change_mod t i c n e = rw (eq→== p p refl, i, c, eq→== p p refl, n, e)

  change_del :
      (t : k.State)
      → (w.heap p).index ≡ k_added
      → w.channels (w.heap p).fd ≡ some p
      → is_none_event self ≡ true
      → k.ctl_del w.kernel (w.heap p).fd ≡ some t
      → change ch p w
        ≡ some (record w {
          heap = update_at (update_at w.heap p self) p (marked k_deleted);
          kernel = t;
        })
  unfolding change update_channel update
  change_del t i c n e = rw (eq→== p p refl, i, c, eq→== p p refl, n, e)

  -- After the change: the channel has its new events and is in the map; no other channel changed.
  pub record Told (w' : World k) : Type 0 where
    pub inv : Inv w'
    pub events : (w'.heap p).events ≡ target
    pub same_fd : (w'.heap p).fd ≡ (w.heap p).fd
    pub added : (w'.heap p).added_to_loop ≡ true
    pub mapped : w'.channels (w.heap p).fd ≡ some p
    pub others : (q : ℕ) → p ≢ q → w'.heap q ≡ w.heap q
    pub same_loop : inactive p w' ≡ inactive p w

  Told-at :
      (w' : World k) (i : ℤ)
      → Inv w
      → ((q : ℕ) → w'.heap q ≡ update_at w.heap p (marked i) q)
      → ((q : ℕ) → w.channels (w.heap p).fd ≡ some q → q ≡ p)
      → ((g : ℕ) → (w.heap p).fd ≢ g → w'.channels g ≡ w.channels g)
      → ((g : ℕ) → (w.heap p).fd ≢ g → k.interest w'.kernel g ≡ k.interest w.kernel g)
      → w'.channels (w.heap p).fd ≡ some p
      → inactive p w' ≡ inactive p w
      → Registered (marked i) p (k.interest w'.kernel (w.heap p).fd)
      → Told w'
  Told-at w' i v heaps only chans ints mapped loop reg = record {
    inv =
        Inv-local w w' p (marked i) v heaps refl only chans ints (rw (mapped, at_p) (refl, reg))
          (λ _. mapped);
    events = rw at_p;
    same_fd = rw at_p;
    added = rw at_p;
    mapped = mapped;
    others = λ q n. ground (arith, heaps q);
    same_loop = loop;
  }
    where
      at_p : w'.heap p ≡ marked i
      at_p = ground (arith, heaps p)

  -- A new channel is added where its descriptor is not in the map yet.
  abbrev pub IsAddable : Type 0
  IsAddable = (w.heap p).index ≡ k_new → w.channels (w.heap p).fd ≡ none

  known :
      Inv w → (w.heap p).index ≢ k_new → Registered (w.heap p) p (k.interest w.kernel (w.heap p).fd)
  known v i = (subst (Entry w (w.heap p).fd) (v.listed p i) (v.entries (w.heap p).fd)).1

  Told-new :
      Inv w
      → (w.heap p).index ≡ k_new
      → w.channels (w.heap p).fd ≡ none
      → Gives (change ch p w) Told
  Told-new v i c =
      let (t, e, ints) =
        k.add_fresh w.kernel (w.heap p).fd target p
          (subst (Entry w (w.heap p).fd) c (v.entries (w.heap p).fd)) in
      (
        _,
        change_new t i c e,
        Told-at _ k_added v (λ q. ground arith) (λ q h. cc) (λ g n. ground arith)
            (λ g n. ground (arith, ints g)) (ground arith) refl
            (inl (refl, ground (arith, ints (w.heap p).fd))),
      )

  Told-deleted :
      Inv w
      → (w.heap p).index ≡ k_deleted
      → k.interest w.kernel (w.heap p).fd ≡ none
      → Gives (change ch p w) Told
  Told-deleted v i none_yet =
      let (t, e, ints) = k.add_fresh w.kernel (w.heap p).fd target p none_yet in
      let c = v.listed p (λ new. cc) in
      (
        _,
        change_deleted t i c e,
        Told-at _ k_added v (λ q. ground arith) (λ q h. cc) (λ g n. refl)
            (λ g n. ground (arith, ints g)) c refl (inl (refl, ground (arith, ints (w.heap p).fd))),
      )

  Told-mod :
      Inv w
      → (w.heap p).index ≡ k_added
      → k.interest w.kernel (w.heap p).fd ≡ some ((w.heap p).events, p)
      → is_none_event self ≡ false
      → Gives (change ch p w) Told
  Told-mod v i old n =
      let (t, e, ints) = k.mod_known w.kernel (w.heap p).fd target p _ old in
      let c = v.listed p (λ new. cc) in
      (
        _,
        change_mod t i c n e,
        Told-at _ k_added v (λ q. rw (← i)) (λ q h. cc) (λ g n. refl)
            (λ g n. ground (arith, ints g)) c refl (inl (refl, ground (arith, ints (w.heap p).fd))),
      )

  Told-del :
      Inv w
      → (w.heap p).index ≡ k_added
      → k.interest w.kernel (w.heap p).fd ≡ some ((w.heap p).events, p)
      → is_none_event self ≡ true
      → Gives (change ch p w) Told
  Told-del v i old n =
      let (t, e, ints) = k.del_known w.kernel (w.heap p).fd _ old in
      let c = v.listed p (λ new. cc) in
      (
        _,
        change_del t i c n e,
        Told-at _ k_deleted v (λ q. ground arith) (λ q h. cc) (λ g n. refl)
            (λ g n. ground (arith, ints g)) c refl
            (inr (refl, n, ground (arith, ints (w.heap p).fd))),
      )

  Told-known :
      Inv w
      → Registered (w.heap p) p (k.interest w.kernel (w.heap p).fd)
      → Gives (change ch p w) Told
  Told-known v (inr (i, _, none_yet)) = Told-deleted v i none_yet
  Told-known v (inl (i, old)) = elim (Bool-cases (is_none_event self)) [
    | inl n ↦ Told-del v i old n
    | inr n ↦ Told-mod v i old n
  ]

  -- `enableReading`, `disableAll` and the others run through on every channel that may be added or
  -- is known. Afterwards the channel has the new mask and is in the map, the map, the channels and
  -- the kernel's interest list agree, and no other channel has changed.
  pub change-Told : Inv w → IsAddable → Gives (change ch p w) Told
  change-Told v a = elim (int_discrete (w.heap p).index k_new) [
    | yes new ↦ Told-new v new (a new)
    | no old ↦ Told-known v (known v old)
  ]
