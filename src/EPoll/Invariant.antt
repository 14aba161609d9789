-- ===== src/EPoll/Invariant.antt =====
-- What the poller keeps: the map, the channels' indices and the kernel's interest list agree.
use muduo.Base.{
  Bool, true, ◌||◌, not, ℕ, ◌≡◌, ◌≢◌, ◌⊎◌, sym, ◌∙◌, ap, subst, Option, none, some, arith,
}
use native.Mathlib.Decide.{ℕ_discrete}
use muduo.Channel.{Flags, Channel, is_none_event}
use muduo.EPoll.{Epoll, World, k_new, k_added, k_deleted, update_at, maps_to, contains}

-- An added channel is registered with its events; a deleted one has none and is not registered.
abbrev pub Registered : Channel → ℕ → Option (Flags × ℕ) → Type 0
Registered c p i =
    ((c.index ≡ k_added) × (i ≡ some (c.events, p)))
    ⊎ ((c.index ≡ k_deleted) × (is_none_event c ≡ true) × (i ≡ none))

module _ {k : Epoll} where
  abbrev pub Entry : World k → ℕ → Option ℕ → Type 0
  Entry w fd none = k.interest w.kernel fd ≡ none
  Entry w fd (some p) = ((w.heap p).fd ≡ fd) × Registered (w.heap p) p (k.interest w.kernel fd)

  pub record Inv (w : World k) : Type 0 where
    pub entries : (fd : ℕ) → Entry w fd (w.channels fd)
    pub listed : (p : ℕ) → (w.heap p).index ≢ k_new → w.channels (w.heap p).fd ≡ some p

  -- The channel is being handled, or is not among those that the loop handles now.
  abbrev pub inactive : ℕ → World k → Bool
  inactive p w =
      not w.event_handling
      || (maps_to w.current_active_channel p || not (contains w.active_channels p))

  -- An operation on one channel keeps the invariant if it keeps it at that channel's descriptor.
  module _ (w w' : World k) (p : ℕ) (c : Channel) (v : Inv w)
      (heaps : (q : ℕ) → w'.heap q ≡ update_at w.heap p c q) (same_fd : c.fd ≡ (w.heap p).fd)
      (only : (q : ℕ) → w.channels (w.heap p).fd ≡ some q → q ≡ p)
      (chans : (g : ℕ) → (w.heap p).fd ≢ g → w'.channels g ≡ w.channels g)
      (ints : (g : ℕ) → (w.heap p).fd ≢ g → k.interest w'.kernel g ≡ k.interest w.kernel g) where
    heap_ne : (q : ℕ) → p ≢ q → w'.heap q ≡ w.heap q
    heap_ne q n = ground (arith, heaps q)

    heap_self : w'.heap p ≡ c
    heap_self = ground (arith, heaps p)

    Entry-far : (fd : ℕ) (o : Option ℕ) → (w.heap p).fd ≢ fd → Entry w fd o → Entry w' fd o
    Entry-far fd none n h = ints fd n ∙ h
    Entry-far fd (some q) n h = elim (ℕ_discrete p q) [
      | yes e ↦ absurd (n (subst (λ r. (w.heap r).fd ≡ fd) (sym e) h.0))
      | no m ↦ rw (heap_ne q m, ints fd n) h
    ]

    listed_far : (q : ℕ) → p ≢ q → (w'.heap q).index ≢ k_new → w'.channels (w'.heap q).fd ≡ some q
    listed_far q n i =
        rw (heap_ne q n)
          (chans (w.heap q).fd (λ e. n (sym (only q (ap w.channels e ∙ there)))) ∙ there)
      where
        there : w.channels (w.heap q).fd ≡ some q
        there = v.listed q (λ e. i (rw (heap_ne q n) e))

    pub Inv-local :
        Entry w' (w.heap p).fd (w'.channels (w.heap p).fd)
        → (c.index ≢ k_new → w'.channels (w.heap p).fd ≡ some p)
        → Inv w'
    Inv-local here there = record {
      entries = λ fd. elim (ℕ_discrete (w.heap p).fd fd) [
        | yes e ↦ subst (λ g. Entry w' g (w'.channels g)) e here
        | no n ↦ rw (chans fd n) (Entry-far fd (w.channels fd) n (v.entries fd))
      ];
      listed = λ q. elim (ℕ_discrete p q) [
        | yes e ↦
            subst (λ r. (w'.heap r).index ≢ k_new → w'.channels (w'.heap r).fd ≡ some r) e
              (rw (heap_self, same_fd) there)
        | no n ↦ listed_far q n
      ];
    }
