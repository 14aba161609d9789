-- ===== src/PollPoller/Remove.antt =====
-- `removeChannel` keeps the map, the indices and the vector in agreement.
use muduo.Base.{
  ℕ, ◌-◌, ◌<◌, Option, none, some, List, length, length-take, set, get_elem?, ◌≡◌, ◌≢◌, refl, sym,
  ap, subst, ◌∙◌, arith,
}
use native.Mathlib.Decide.{ℕ_discrete}
use muduo.Base.Int.{pos}
use muduo.Base.Indexed.{
  get_elem?-lt, get_elem?-take, length-set, get_elem?-set_self, get_elem?-set_ne,
}
use muduo.Channel.{Channel}
use muduo.EPoll.{update_at}
use muduo.PollPoller.{PollFd, World, store, fd_of, pop_back}
use muduo.PollPoller.Invariant.{Placed, Inv, slot_of, one_slot, some_same, pos_same}
use muduo.PollPoller.Updates.{update_at_self, update_at_ne, moved}

-- What `pop_back` leaves.
get_elem?-pop_back :
    (xs : List PollFd) (j : ℕ) {x : PollFd}
    → get_elem? (pop_back xs) j ≡ some x
    → (j < length xs - 1) × (get_elem? xs j ≡ some x)
get_elem?-pop_back xs j h =
    let small : j < length xs - 1 =
      omega (arith, get_elem?-lt (pop_back xs) j h, length-take (length xs - 1) xs) in
    (small, sym (get_elem?-take (length xs - 1) xs j small) ∙ h)

module _ (p : ℕ) (w : World) (v : Inv w) (known : w.channels (w.heap p).fd ≡ some p) (i : ℕ)
    (at : (w.heap p).index ≡ pos i) where
  abbrev pub erased : ℕ → Option ℕ
  erased = update_at w.channels (w.heap p).fd none

  -- The channels that stay.
  erased-cases :
      (fd q : ℕ) → erased fd ≡ some q → (p ≢ q) × ((w.heap p).fd ≢ fd) × (w.channels fd ≡ some q)
  erased-cases fd q h = elim (ℕ_discrete (w.heap p).fd fd) [
    | yes m ↦ absurd (cc (sym (update_at_self w.channels (w.heap p).fd none) ∙ (ap erased m ∙ h)))
    | no n ↦
        (let old : w.channels fd ≡ some q =
            sym (update_at_ne w.channels (w.heap p).fd fd none n) ∙ h in
          let (_, f, _) = v.mapped fd q old in ((λ m. n (ap (λ x. (w.heap x).fd) m ∙ f)), n, old))
  ]

  -- The slots of the others are not the channel's.
  pub kept_slot :
      (j : ℕ) (pfd : PollFd)
      → i ≢ j
      → get_elem? w.pollfds j ≡ some pfd
      → (q : ℕ) × (erased (fd_of pfd.fd) ≡ some q) × ((w.heap q).index ≡ pos j) × (p ≢ q)
  kept_slot j pfd n h =
      let (q, f, k) = v.slots j pfd h in
      let apart : p ≢ q = λ m. n (pos_same (sym at ∙ (ap (λ x. (w.heap x).index) m ∙ k))) in
      let fds : (w.heap p).fd ≢ fd_of pfd.fd =
        λ m. apart (some_same (sym known ∙ (ap w.channels m ∙ f))) in
      (q, update_at_ne w.channels (w.heap p).fd (fd_of pfd.fd) none fds ∙ f, k, apart)

  -- The index of another channel.
  kept_index : (fd q j : ℕ) → w.channels fd ≡ some q → (w.heap q).index ≡ pos j → p ≢ q → i ≢ j
  kept_index fd q j f k n m = n (one_slot v (w.heap p).fd fd p q i known f at (k ∙ ap pos (sym m)))

  -- The channel has the last slot.
  module _ (is_last : i ≡ length w.pollfds - 1) where
    abbrev pub popped : World
    popped = record w { channels = erased; pollfds = pop_back w.pollfds }

    popped-mapped : (fd q : ℕ) → erased fd ≡ some q → Placed popped fd q
    popped-mapped fd q h =
        let (n, _, old) = erased-cases fd q h in
        let (j, f, t) = v.mapped fd q old in
        let apart = kept_index fd q j old t.index n in
        let small : j < length w.pollfds - 1 = ground (arith, get_elem?-lt w.pollfds j t.here) in
        (
          j,
          f,
          record {
            slot = t.slot;
            index = t.index;
            here = get_elem?-take (length w.pollfds - 1) w.pollfds j small ∙ t.here;
            fd = t.fd;
            events = t.events;
          },
        )

    pub popped-Inv : Inv popped
    popped-Inv = record {
      mapped = popped-mapped;
      slots = λ j pfd h.
          let (small, old) = get_elem?-pop_back w.pollfds j h in
          let (q, f, k, _) = kept_slot j pfd (λ m. absurd (omega arith)) old in (q, f, k);
    }

  -- The last slot is another channel's, and takes the place of the channel's.
  module _ (pfd back : PollFd) (here : get_elem? w.pollfds i ≡ some pfd)
      (end : get_elem? w.pollfds (length w.pollfds - 1) ≡ some back)
      (inner : i ≢ length w.pollfds - 1) (q : ℕ) (found : erased (fd_of back.fd) ≡ some q) where
    abbrev swapped : List PollFd
    swapped = set (set w.pollfds i back) (length w.pollfds - 1) pfd

    abbrev placed_at : Channel
    placed_at = record (w.heap q) { index = pos i }

    abbrev pub exchanged : World
    exchanged = record (store q placed_at w) { channels = erased; pollfds = pop_back swapped }

    length-swapped : length swapped ≡ length w.pollfds
    length-swapped =
        length-set (set w.pollfds i back) (length w.pollfds - 1) pfd ∙ length-set w.pollfds i back

    -- The slot of the channel that moves, before it does.
    pub back_slot :
        (q ≢ p)
        × (w.channels (fd_of back.fd) ≡ some q)
        × ((w.heap q).index ≡ pos (length w.pollfds - 1))
    back_slot =
        let (n, _, old) = erased-cases (fd_of back.fd) q found in
        let (r, f, k) = v.slots (length w.pollfds - 1) back end in
        let same : r ≡ q = some_same (sym f ∙ old) in
        ((λ m. n (sym m)), old, subst (λ x. (w.heap x).index ≡ pos (length w.pollfds - 1)) same k)

    exchanged-here :
        (j : ℕ)
        → i ≢ j
        → j < length w.pollfds - 1
        → get_elem? exchanged.pollfds j ≡ get_elem? w.pollfds j
    exchanged-here j n small =
        get_elem?-take (length swapped - 1) swapped j (omega (arith, length-swapped))
        ∙ (get_elem?-set_ne (set w.pollfds i back) (length w.pollfds - 1) j pfd
              (λ m. absurd (omega arith))
            ∙ get_elem?-set_ne w.pollfds i j back n)

    i_small : i < length w.pollfds - 1
    i_small = ground (arith, get_elem?-lt w.pollfds i here)

    exchanged-at : get_elem? exchanged.pollfds i ≡ some back
    exchanged-at =
        get_elem?-take (length swapped - 1) swapped i (omega (arith, length-swapped, i_small))
        ∙ (get_elem?-set_ne (set w.pollfds i back) (length w.pollfds - 1) i pfd (λ m. inner (sym m))
            ∙ get_elem?-set_self w.pollfds i back (get_elem?-lt w.pollfds i here))

    exchanged_self : (fd : ℕ) → w.channels fd ≡ some q → Placed exchanged fd q
    exchanged_self fd h =
        let (_, f, _) = v.mapped fd q h in
        let (a, _, b) = slot_of v fd q (length w.pollfds - 1) back h back_slot.2 end in
        moved w exchanged fd q (
          placed_at,
          update_at_self w.heap q placed_at,
          i,
          f,
          record { slot = back; index = refl; here = exchanged-at; fd = a; events = b },
        )

    exchanged-other : (fd r : ℕ) → q ≢ r → p ≢ r → w.channels fd ≡ some r → Placed exchanged fd r
    exchanged-other fd r n away h =
        let (j, f, t) = v.mapped fd r h in
        let apart = kept_index fd r j h t.index away in
        let before : j ≢ length w.pollfds - 1 = λ m. n (
          one_slot v (fd_of back.fd) fd q r j back_slot.1 h (back_slot.2 ∙ ap pos (sym m))
            t.index) in
        let small : j < length w.pollfds - 1 = ground (arith, get_elem?-lt w.pollfds j t.here) in
        moved w exchanged fd r (
          w.heap r,
          update_at_ne w.heap q r placed_at n,
          j,
          f,
          record {
            slot = t.slot;
            index = t.index;
            here = exchanged-here j apart small ∙ t.here;
            fd = t.fd;
            events = t.events;
          },
        )

    exchanged-mapped : (fd r : ℕ) → erased fd ≡ some r → Placed exchanged fd r
    exchanged-mapped fd r h =
        let (away, _, old) = erased-cases fd r h in
        elim (ℕ_discrete q r) [
          | yes m ↦ subst (λ x. Placed exchanged fd x) m (exchanged_self fd (old ∙ ap some (sym m)))
          | no n ↦ exchanged-other fd r n away old
        ]

    exchanged-slots :
        (j : ℕ) (slot : PollFd)
        → get_elem? exchanged.pollfds j ≡ some slot
        → (r : ℕ) × (erased (fd_of slot.fd) ≡ some r) × ((exchanged.heap r).index ≡ pos j)
    exchanged-slots j slot h =
        let (small, _) = get_elem?-pop_back swapped j h in
        elim (ℕ_discrete i j) [
          | yes m ↦
              (let same : back ≡ slot =
                  some_same (sym exchanged-at ∙ (ap (get_elem? exchanged.pollfds) m ∙ h)) in
                (
                  q,
                  ap (λ (x : PollFd). erased (fd_of x.fd)) (sym same) ∙ found,
                  ap (λ (c : Channel). c.index) (update_at_self w.heap q placed_at) ∙ ap pos m,
                ))
          | no n ↦
              (let low : j < length w.pollfds - 1 = omega (arith, length-swapped) in
                let (r, f, k, _) = kept_slot j slot n (sym (exchanged-here j n low) ∙ h) in
                let apart : q ≢ r = λ m. absurd (
                  omega (arith, pos_same (sym back_slot.2 ∙ (ap (λ x. (w.heap x).index) m ∙ k)))) in
                (r, f, ap (λ (c : Channel). c.index) (update_at_ne w.heap q r placed_at apart) ∙ k))
        ]

    pub exchanged-Inv : Inv exchanged
    exchanged-Inv = record { mapped = exchanged-mapped; slots = exchanged-slots }
