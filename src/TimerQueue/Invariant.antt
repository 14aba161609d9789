-- ===== src/TimerQueue/Invariant.antt =====
-- The two sets of a timer queue hold the same timers, all of them alive.
use muduo.Base.{
  Bool, true, false, ◌||◌, ℕ, ◌<◌, Option, none, some, List, [], ◌∷◌, length, ◌==◌, eq→==, ◌≡◌,
  refl, sym, ap, ◌∙◌, subst, ◌⊎◌, inl, inr, arith, ==_iff,
}
use muduo.Base.PairSet.{Pair, contains, insert, Sorted}
use muduo.Base.PairSet.Laws.{
  Sorted-insert, contains-insert, length-insert, inserted_here, inserted_there, inserted-cases,
}
use muduo.TimerQueue.{Timer, TimerQueue, update_at, is_earliest, insert_timer, uintptr_max}

abbrev pub has_address : ℕ → List Pair → Bool
has_address a [] = false
has_address a ((t, b) ∷ ts) = a == b || has_address a ts

abbrev pub Distinct : List Pair → Type 0
Distinct [] = Unit {0}
Distinct ((t, a) ∷ ts) = (has_address a ts ≡ false) × Distinct ts

-- Alive, and in no set.
abbrev pub IsIdle : TimerQueue → ℕ → Type 0
IsIdle q a =
    (tm : Timer) × (q.heap a ≡ some tm) × (contains (a, tm.sequence) q.active_timers ≡ false)

abbrev pub AllIdle : TimerQueue → List Pair → Type 0
AllIdle q [] = Unit {0}
AllIdle q ((t, a) ∷ ts) = IsIdle q a × AllIdle q ts

-- `timers_` and `activeTimers_` hold the same timers: each under its expiration, and under its sequence.
-- Their expirations are valid. The timers of `out` have expired and wait for `reset`.
pub record Inv (out : List Pair) (q : TimerQueue) : Type 0 where
  pub sizes : length q.timers ≡ length q.active_timers
  pub sorted_timers : Sorted q.timers
  pub sorted_active : Sorted q.active_timers
  pub in_timers :
      (t a : ℕ)
      → contains (t, a) q.timers ≡ true
      → (tm : Timer) × (q.heap a ≡ some tm)
        × (tm.expiration ≡ t)
        × (contains (a, tm.sequence) q.active_timers ≡ true)
  pub in_active :
      (a s : ℕ)
      → contains (a, s) q.active_timers ≡ true
      → (tm : Timer) × (q.heap a ≡ some tm)
        × (tm.sequence ≡ s)
        × (contains (tm.expiration, a) q.timers ≡ true)
  pub valid : (t a : ℕ) → contains (t, a) q.timers ≡ true → 0 < t
  pub small : (a : ℕ) → (q.heap a ≡ none) ⊎ (a < uintptr_max)
  pub distinct : Distinct out
  pub idle : AllIdle q out

-- An address in no set.
pub record IsAbsent (q : TimerQueue) (a : ℕ) : Type 0 where
  pub not_timer : (t : ℕ) → contains (t, a) q.timers ≡ false
  pub not_active : (s : ℕ) → contains (a, s) q.active_timers ≡ false

pub not_true : (b : Bool) → (b ≡ true → ⊥) → b ≡ false
not_true true h = absurd (h refl)
not_true false h = refl

pub some-injective : {x y : Timer} → some x ≡ some y → x ≡ y
some-injective h = cc

module _ {out : List Pair} {q : TimerQueue} (v : Inv out q) where
  pub IsAbsent-free : (a : ℕ) → q.heap a ≡ none → IsAbsent q a
  IsAbsent-free a e = record {
    not_timer =
        λ t. not_true (contains (t, a) q.timers) (λ h. let (tm, f, _, _) = v.in_timers t a h in cc);
    not_active = λ s.
        not_true (contains (a, s) q.active_timers)
          (λ h. let (tm, f, _, _) = v.in_active a s h in cc);
  }

  pub IsAbsent-idle : (a : ℕ) → IsIdle q a → IsAbsent q a
  IsAbsent-idle a (tm, e, n) = record {
    not_timer = λ t.
        not_true (contains (t, a) q.timers)
          (λ h. let (tm', f, _, k) = v.in_timers t a h in cc (some-injective (sym e ∙ f)));
    not_active = λ s.
        not_true (contains (a, s) q.active_timers)
          (λ h. let (tm', f, g, _) = v.in_active a s h in cc (some-injective (sym e ∙ f)));
  }

-- What a change leaves idle, because it does not touch the addresses in the list.
pub AllIdle-keep :
    (q q' : TimerQueue) (out : List Pair)
    → ((b : ℕ) → has_address b out ≡ true → q'.heap b ≡ q.heap b)
    → ((b s : ℕ)
        → has_address b out ≡ true
        → contains (b, s) q.active_timers ≡ false
        → contains (b, s) q'.active_timers ≡ false)
    → AllIdle q out
    → AllIdle q' out
AllIdle-keep q q' [] h k i = tt
AllIdle-keep q q' ((t, a) ∷ ts) h k ((tm, e, n), i) = (
  (tm, h a (ground arith) ∙ e, k a tm.sequence (ground arith) n),
  AllIdle-keep q q' ts (λ b m. h b (ground arith)) (λ b s m. k b s (ground arith)) i,
)

pub update_far :
    (h : ℕ → Option Timer) (a : ℕ) (o : Option Timer) (b : ℕ)
    → (a == b) ≡ false
    → update_at h a o b ≡ h b
update_far h a o b n = rw n

pub update_here : (h : ℕ → Option Timer) (a : ℕ) (o : Option Timer) → update_at h a o a ≡ o
update_here h a o = rw (eq→== a a refl)

pub listed_far :
    (a b : ℕ) (out : List Pair)
    → has_address a out ≡ false
    → has_address b out ≡ true
    → (a == b) ≡ false
listed_far a b out n m = not_true (a == b) (λ e. let f : a ≡ b = (==_iff a b).0 e in cc (f))

module _ {out : List Pair} {q : TimerQueue} (v : Inv out q) (a : ℕ) (gone : IsAbsent q a)
    (not_out : has_address a out ≡ false) where
  far_timer : (t b : ℕ) → contains (t, b) q.timers ≡ true → (a == b) ≡ false
  far_timer t b h =
      not_true (a == b) (λ e. let f : a ≡ b = (==_iff a b).0 e in cc (f, gone.not_timer t))

  far_active : (b s : ℕ) → contains (b, s) q.active_timers ≡ true → (a == b) ≡ false
  far_active b s h =
      not_true (a == b) (λ e. let f : a ≡ b = (==_iff a b).0 e in cc (f, gone.not_active s))

  small_update :
      {o : Option Timer} (b : ℕ)
      → (o ≡ none) ⊎ (a < uintptr_max)
      → (update_at q.heap a o b ≡ none) ⊎ (b < uintptr_max)
  small_update b h = ground (arith, v.small b)

  -- A timer in no set may be made, changed or deleted.
  pub heap-Inv :
      (o : Option Timer)
      → (o ≡ none) ⊎ (a < uintptr_max)
      → Inv out (record q { heap = update_at q.heap a o })
  heap-Inv o h = record {
    sizes = v.sizes;
    sorted_timers = v.sorted_timers;
    sorted_active = v.sorted_active;
    in_timers = λ t b m.
        let (tm, e, f, g) = v.in_timers t b m in
        (tm, update_far q.heap a o b (far_timer t b m) ∙ e, f, g);
    in_active = λ b s m.
        let (tm, e, f, g) = v.in_active b s m in
        (tm, update_far q.heap a o b (far_active b s m) ∙ e, f, g);
    valid = v.valid;
    small = λ b. small_update b h;
    distinct = v.distinct;
    idle =
        AllIdle-keep q (record q { heap = update_at q.heap a o }) out
          (λ b m. update_far q.heap a o b (listed_far a b out not_out m)) (λ b s m n. n) v.idle;
  }

  -- What `insert` makes of the queue.
  abbrev pub inserted : Timer → TimerQueue
  inserted tm = record q {
    timers = insert (tm.expiration, a) q.timers;
    active_timers = insert (a, tm.sequence) q.active_timers;
  }

  module _ (tm : Timer) (here : q.heap a ≡ some tm) (valid : 0 < tm.expiration) where
    inserted_timer :
        (t b : ℕ)
        → contains (t, b) (inserted tm).timers ≡ true
        → (x : Timer) × (q.heap b ≡ some x)
          × (x.expiration ≡ t)
          × (contains (b, x.sequence) (inserted tm).active_timers ≡ true)
    inserted_timer t b m = elim (inserted-cases (t, b) (tm.expiration, a) q.timers m) [
      | inl e ↦ (
        tm,
        ap q.heap (ap (λ p. p.1) e) ∙ here,
        sym (ap (λ p. p.0) e),
        subst (λ c. contains (c, tm.sequence) (inserted tm).active_timers ≡ true)
            (sym (ap (λ p. p.1) e)) (inserted_here (a, tm.sequence) q.active_timers),
      )
      | inr h ↦
          let (x, e, f, g) = v.in_timers t b h in
          (x, e, f, inserted_there (b, x.sequence) (a, tm.sequence) q.active_timers g)
    ]

    inserted_active :
        (b s : ℕ)
        → contains (b, s) (inserted tm).active_timers ≡ true
        → (x : Timer) × (q.heap b ≡ some x)
          × (x.sequence ≡ s)
          × (contains (x.expiration, b) (inserted tm).timers ≡ true)
    inserted_active b s m = elim (inserted-cases (b, s) (a, tm.sequence) q.active_timers m) [
      | inl e ↦ (
        tm,
        ap q.heap (ap (λ p. p.0) e) ∙ here,
        sym (ap (λ p. p.1) e),
        subst (λ c. contains (tm.expiration, c) (inserted tm).timers ≡ true) (sym (ap (λ p. p.0) e))
            (inserted_here (tm.expiration, a) q.timers),
      )
      | inr h ↦
          let (x, e, f, g) = v.in_active b s h in
          (x, e, f, inserted_there (x.expiration, b) (tm.expiration, a) q.timers g)
    ]

    idle_active :
        (b s : ℕ)
        → has_address b out ≡ true
        → contains (b, s) q.active_timers ≡ false
        → contains (b, s) (inserted tm).active_timers ≡ false
    idle_active b s m n =
        rw (contains-insert (b, s) (a, tm.sequence) q.active_timers, n)
          (ground (arith, listed_far a b out not_out m))

    pub inserted-Inv : Inv out (inserted tm)
    inserted-Inv = record {
      sizes = omega (
        arith,
        length-insert (tm.expiration, a) q.timers (gone.not_timer tm.expiration),
        length-insert (a, tm.sequence) q.active_timers (gone.not_active tm.sequence),
        v.sizes,
      );
      sorted_timers = Sorted-insert (tm.expiration, a) q.timers v.sorted_timers;
      sorted_active = Sorted-insert (a, tm.sequence) q.active_timers v.sorted_active;
      in_timers = inserted_timer;
      in_active = inserted_active;
      valid = λ t b m. elim (inserted-cases (t, b) (tm.expiration, a) q.timers m) [
        | inl e ↦ let f : t ≡ tm.expiration = ap (λ p. p.0) e in omega arith
        | inr h ↦ v.valid t b h
      ];
      small = v.small;
      distinct = v.distinct;
      idle = AllIdle-keep q (inserted tm) out (λ b m. refl) idle_active v.idle;
    }

    pub insert_timer-eq : insert_timer a q ≡ some (is_earliest tm.expiration q.timers, inserted tm)
    unfolding insert_timer
    insert_timer-eq =
        rw
          (
            here,
            eq→== (length q.timers) (length q.active_timers) v.sizes,
            gone.not_timer tm.expiration,
            gone.not_active tm.sequence,
            eq→== (length (insert (tm.expiration, a) q.timers))
                (length (insert (a, tm.sequence) q.active_timers)) inserted-Inv.sizes,
          )
          refl
