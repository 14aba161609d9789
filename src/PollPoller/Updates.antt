-- ===== src/PollPoller/Updates.antt =====
-- The two worlds that `updateChannel` may leave, and that the map, the indices and the vector agree in them.
use muduo.Base.{
  false, ℕ, ◌-◌, ◌<◌, none, some, [], ◌∷◌, ◌++◌, length, length-append, set, get_elem?, eq→==, ◌≡◌,
  ◌≢◌, refl, sym, ap, subst, ◌∙◌, inl, inr, arith,
}
use native.Mathlib.Decide.{ℕ_discrete}
use muduo.Base.Int.{pos}
use muduo.Base.Indexed.{
  get_elem?-lt, get_elem?-set_self, get_elem?-set_ne, get_elem?-append, get_elem?-append_last,
  get_elem?-snoc-cases,
}
use muduo.Channel.{Flags, Channel, is_none_event, none_event}
use muduo.EPoll.{update_at}
use muduo.PollPoller.{PollFd, World, store, fd_of}
use muduo.PollPoller.Invariant.{slot_fd, fd_of-slot_fd, IsSlot, Placed, Inv, one_slot, some_same}

pub update_at_self : {A : Type 0} (f : ℕ → A) (i : ℕ) (a : A) → update_at f i a i ≡ a
update_at_self f i a = rw (eq→== i i refl)

pub update_at_ne : {A : Type 0} (f : ℕ → A) (i j : ℕ) (a : A) → i ≢ j → update_at f i a j ≡ f j
update_at_ne f i j a n = ground arith

-- A channel whose record and slot are as they were is placed as it was.
pub moved :
    (w w' : World) (fd q : ℕ)
    → ((c : Channel) × (w'.heap q ≡ c) × (j : ℕ) × (c.fd ≡ fd) × IsSlot w'.pollfds c j)
    → Placed w' fd q
moved w w' fd q (c, e, j, f, s) =
    subst (λ (x : Channel). (j : ℕ) × (x.fd ≡ fd) × IsSlot w'.pollfds x j) (sym e) (j, f, s)

-- The channel is in the map, and has the slot `i`.
module _ (p : ℕ) (e : Flags) (w : World) (v : Inv w) where
  abbrev pub self : Channel
  self = record (w.heap p) { events = e }

  -- The world when `update` is called: the channel has its new events.
  abbrev pub with_events : World
  with_events = store p self w

  module _ (i : ℕ) (known : w.channels (w.heap p).fd ≡ some p)
      (s : IsSlot w.pollfds (w.heap p) i) where
    abbrev new_slot : PollFd
    new_slot = record { fd = slot_fd self; events = e; revents = none_event }

    abbrev pub updated : World
    updated = record with_events { pollfds = set w.pollfds i new_slot }

    updated-index : (q : ℕ) → (updated.heap q).index ≡ (w.heap q).index
    updated-index q = elim (ℕ_discrete p q) [
      | yes m ↦
          subst (λ x. (updated.heap x).index ≡ (w.heap x).index) m
            (ap (λ (c : Channel). c.index) (update_at_self w.heap p self))
      | no n ↦ ap (λ (c : Channel). c.index) (update_at_ne w.heap p q self n)
    ]

    i_lt : i < length w.pollfds
    i_lt = get_elem?-lt w.pollfds i s.here

    updated_self : (fd : ℕ) → w.channels fd ≡ some p → Placed updated fd p
    updated_self fd h =
        let (_, f, _) = v.mapped fd p h in
        moved w updated fd p (
          self,
          update_at_self w.heap p self,
          i,
          f,
          record {
            slot = new_slot;
            index = s.index;
            here = get_elem?-set_self w.pollfds i new_slot i_lt;
            fd = refl;
            events = refl;
          },
        )

    updated_other : (fd q : ℕ) → p ≢ q → w.channels fd ≡ some q → Placed updated fd q
    updated_other fd q n h =
        let (j, f, t) = v.mapped fd q h in
        let apart : i ≢ j =
          λ m. n (one_slot v (w.heap p).fd fd p q i known h s.index (t.index ∙ ap pos (sym m))) in
        moved w updated fd q (
          w.heap q,
          update_at_ne w.heap p q self n,
          j,
          f,
          record {
            slot = t.slot;
            index = t.index;
            here = get_elem?-set_ne w.pollfds i j new_slot apart ∙ t.here;
            fd = t.fd;
            events = t.events;
          },
        )

    updated-mapped : (fd q : ℕ) → w.channels fd ≡ some q → Placed updated fd q
    updated-mapped fd q h = elim (ℕ_discrete p q) [
      | yes m ↦ subst (λ x. Placed updated fd x) m (updated_self fd (h ∙ ap some (sym m)))
      | no n ↦ updated_other fd q n h
    ]

    updated-slots :
        (j : ℕ) (pfd : PollFd)
        → get_elem? updated.pollfds j ≡ some pfd
        → (q : ℕ) × (w.channels (fd_of pfd.fd) ≡ some q) × ((updated.heap q).index ≡ pos j)
    updated-slots j pfd h = elim (ℕ_discrete i j) [
      | yes m ↦
          (let same : new_slot ≡ pfd = some_same (
              sym (get_elem?-set_self w.pollfds i new_slot i_lt)
              ∙ (ap (get_elem? updated.pollfds) m ∙ h)) in
            let at : fd_of pfd.fd ≡ (w.heap p).fd =
              ap (λ (x : PollFd). fd_of x.fd) (sym same) ∙ fd_of-slot_fd self in
            (p, ap w.channels at ∙ known, updated-index p ∙ (s.index ∙ ap pos m)))
      | no n ↦
          (let (q, f, k) = v.slots j pfd (sym (get_elem?-set_ne w.pollfds i j new_slot n) ∙ h) in
            (q, f, updated-index q ∙ k))
    ]

    pub updated-Inv : Inv updated
    updated-Inv = record { mapped = updated-mapped; slots = updated-slots }

  -- The channel is new: it gets a slot behind the others.
  module _ (free : w.channels (w.heap p).fd ≡ none) (wanted : is_none_event self ≡ false) where
    abbrev first_slot : PollFd
    first_slot = record { fd = pos self.fd; events = e; revents = none_event }

    abbrev placed : Channel
    placed = record self { index = pos (length (w.pollfds ++ first_slot ∷ []) - 1) }

    abbrev pub added : World
    added = record (store p placed with_events) {
      channels = update_at w.channels (w.heap p).fd (some p);
      pollfds = w.pollfds ++ first_slot ∷ [];
    }

    last : length (w.pollfds ++ first_slot ∷ []) - 1 ≡ length w.pollfds
    last = omega (arith, length-append w.pollfds (first_slot ∷ []))

    pub heap_self : added.heap p ≡ placed
    heap_self = update_at_self with_events.heap p placed

    pub heap_ne : (q : ℕ) → p ≢ q → added.heap q ≡ w.heap q
    heap_ne q n = update_at_ne with_events.heap p q placed n ∙ update_at_ne w.heap p q self n

    -- No descriptor is mapped to a channel that is new.
    unmapped : (fd q : ℕ) → w.channels fd ≡ some q → p ≢ q
    unmapped fd q h m =
        let (_, f, _) = v.mapped fd q h in
        let at : w.channels (w.heap p).fd ≡ some q =
          ap (λ x. w.channels (w.heap x).fd) m ∙ (ap w.channels f ∙ h) in
        absurd (cc (free, at))

    added_other : (fd q : ℕ) → w.channels fd ≡ some q → Placed added fd q
    added_other fd q h =
        let (j, f, t) = v.mapped fd q h in
        moved w added fd q (
          w.heap q,
          heap_ne q (unmapped fd q h),
          j,
          f,
          record {
            slot = t.slot;
            index = t.index;
            here = get_elem?-append w.pollfds (first_slot ∷ []) j t.here;
            fd = t.fd;
            events = t.events;
          },
        )

    added_self : Placed added (w.heap p).fd p
    added_self = moved w added (w.heap p).fd p (
      placed,
      heap_self,
      length w.pollfds,
      refl,
      record {
        slot = first_slot;
        index = ap pos last;
        here = get_elem?-append_last w.pollfds first_slot;
        fd = sym (rw (wanted));
        events = refl;
      },
    )

    added-mapped : (fd q : ℕ) → added.channels fd ≡ some q → Placed added fd q
    added-mapped fd q h = elim (ℕ_discrete (w.heap p).fd fd) [
      | yes m ↦
          (let same : p ≡ q = some_same (
              sym (update_at_self w.channels (w.heap p).fd (some p)) ∙ (ap added.channels m ∙ h)) in
            subst (λ x. Placed added fd x) same (subst (λ x. Placed added x p) m added_self))
      | no n ↦ added_other fd q (sym (update_at_ne w.channels (w.heap p).fd fd (some p) n) ∙ h)
    ]

    added-slots :
        (j : ℕ) (pfd : PollFd)
        → get_elem? added.pollfds j ≡ some pfd
        → (q : ℕ) × (added.channels (fd_of pfd.fd) ≡ some q) × ((added.heap q).index ≡ pos j)
    added-slots j pfd h = elim (get_elem?-snoc-cases w.pollfds first_slot j h) [
      | inl old ↦
          (let (q, f, k) = v.slots j pfd old in
            let apart : (w.heap p).fd ≢ fd_of pfd.fd =
              λ m. absurd (cc (free, ap w.channels m ∙ f)) in
            (
              q,
              update_at_ne w.channels (w.heap p).fd (fd_of pfd.fd) (some p) apart ∙ f,
              ap (λ (c : Channel). c.index) (heap_ne q (unmapped (fd_of pfd.fd) q f)) ∙ k,
            ))
      | inr (m, same) ↦ (
        p,
        ap (λ (x : PollFd). added.channels (fd_of x.fd)) same
            ∙ update_at_self w.channels (w.heap p).fd (some p),
        ap (λ (c : Channel). c.index) (heap_self) ∙ ap pos (last ∙ sym m),
      )
    ]

    pub added-Inv : Inv added
    added-Inv = record { mapped = added-mapped; slots = added-slots }
