-- ===== src/TimerQueue/Expired.antt =====
-- `getExpired` takes the timers that are due out of both sets.
use muduo.Base.{
  Bool, true, false, not, ◌&&◌, Bool-cases, ℕ, ◌+◌, ◌<◌, some, List, [], ◌∷◌, length, length-append,
  leb, ◌==◌, eq→==, ◌≡◌, refl, sym, ap, ◌∙◌, subst, inl, inr, arith, ==_iff, and_right,
}
use muduo.Base.PairSet.{
  Pair, contains, erase, below, lower_bound, pair_lt, pair_eq_refl, Sorted, Above-contains,
}
use muduo.Base.PairSet.Laws.{
  Sorted-erase, length-erase, erased-cases, erased_keep, below-append, contains-below,
  contains-lower_bound, Sorted-below, Sorted-lower_bound,
}
use muduo.TimerQueue.{Timer, TimerQueue, uintptr_max, starts_after, deactivate, get_expired}
use muduo.TimerQueue.Invariant.{
  has_address, Distinct, IsIdle, AllIdle, Inv, not_true, some-injective,
}

-- Every timer of the list is alive and active.
abbrev AllActive : TimerQueue → List Pair → Type 0
AllActive q [] = Unit {0}
AllActive q ((t, a) ∷ ts) =
    ((tm : Timer) × (q.heap a ≡ some tm) × (contains (a, tm.sequence) q.active_timers ≡ true))
    × AllActive q ts

-- `actives` is what is left of the active timers without those of the list.
record Without (q : TimerQueue) (es : List Pair) (actives : List Pair) : Type 0 where
  sorted : Sorted actives
  counted : length actives + length es ≡ length q.active_timers
  sub : (b s : ℕ) → contains (b, s) actives ≡ true → contains (b, s) q.active_timers ≡ true
  keep :
      (b s : ℕ)
      → has_address b es ≡ false
      → contains (b, s) q.active_timers ≡ true
      → contains (b, s) actives ≡ true
  gone : AllIdle (record q { active_timers = actives }) es

without : TimerQueue → ℕ → Timer → TimerQueue
without q a tm = record q { active_timers = erase (a, tm.sequence) q.active_timers }

AllActive-without :
    (q : TimerQueue) (a : ℕ) (tm : Timer) (ts : List Pair)
    → Sorted q.active_timers
    → has_address a ts ≡ false
    → AllActive q ts
    → AllActive (without q a tm) ts
unfolding without
AllActive-without q a tm [] s n h = tt
AllActive-without q a tm ((t, b) ∷ ts) s n ((x, e, f), h) = (
  (x, e, erased_keep (b, x.sequence) (a, tm.sequence) q.active_timers s (ground arith) f),
  AllActive-without q a tm ts s (ground arith) h,
)

deactivate-Without :
    (es : List Pair) (q : TimerQueue)
    → Sorted q.active_timers
    → Distinct es
    → AllActive q es
    → (actives : List Pair) × (deactivate es q ≡ some (record q { active_timers = actives }))
      × Without q es actives
unfolding deactivate without
deactivate-Without [] q s d h = (
  q.active_timers,
  refl,
  record { sorted = s; counted = omega arith; sub = λ b n k. k; keep = λ b n k l. l; gone = tt },
)
deactivate-Without ((t, a) ∷ ts) q s (n, d) ((tm, e, f), h) =
    let (actives, g, w) =
      deactivate-Without ts (without q a tm) (Sorted-erase (a, tm.sequence) q.active_timers s) d
        (AllActive-without q a tm ts s n h) in
    (
      actives,
      rw (e, f) g,
      record {
        sorted = w.sorted;
        counted = omega (arith, w.counted, length-erase (a, tm.sequence) q.active_timers f);
        sub = λ b k m. (erased-cases (b, k) (a, tm.sequence) q.active_timers s (w.sub b k m)).1;
        keep = λ b k m l.
            w.keep b k (ground arith)
              (erased_keep (b, k) (a, tm.sequence) q.active_timers s (ground arith) l);
        gone = (
          (
            tm,
            e,
            not_true (contains (a, tm.sequence) actives) (λ m.
                let (k, _) =
                  erased-cases (a, tm.sequence) (a, tm.sequence) q.active_timers s
                    (w.sub a tm.sequence m) in
                absurd (cc (k, pair_eq_refl (a, tm.sequence)))),
          ),
          w.gone,
        );
      },
    )

has_address-contains :
    (a : ℕ) (es : List Pair) → has_address a es ≡ true → (t : ℕ) × (contains (t, a) es ≡ true)
has_address-contains a [] h = absurd (cc (h))
has_address-contains a ((t, b) ∷ es) h = elim (Bool-cases (a == b)) [
  | inl e ↦ (t, ground arith)
  | inr n ↦ let (u, k) = has_address-contains a es (rw n at h) in (u, ground arith)
]

pub contains-has_address :
    (t a : ℕ) (es : List Pair) → contains (t, a) es ≡ true → has_address a es ≡ true
contains-has_address t a [] h = absurd (cc (h))
contains-has_address t a ((u, b) ∷ es) h = ground (arith, contains-has_address t a es)

pub AllIdle-lookup :
    (q : TimerQueue) (out : List Pair) (a : ℕ)
    → AllIdle q out
    → has_address a out ≡ true
    → IsIdle q a
AllIdle-lookup q [] a i h = absurd (cc (h))
AllIdle-lookup q ((t, b) ∷ ts) a (j, i) h = elim (Bool-cases (a == b)) [
  | inl e ↦ subst (IsIdle q) (sym ((==_iff a b).0 e)) j
  | inr n ↦ AllIdle-lookup q ts a i (rw n at h)
]

-- The timers that are due, and the others.
abbrev pub due : ℕ → TimerQueue → List Pair
due now q = below (now, uintptr_max) q.timers

abbrev pub later : ℕ → TimerQueue → List Pair
later now q = lower_bound (now, uintptr_max) q.timers

module _ (now : ℕ) {q : TimerQueue} (v : Inv [] q) where
  listed_small : (t a : ℕ) → contains (t, a) q.timers ≡ true → a < uintptr_max
  listed_small t a h = let (x, e, _, _) = v.in_timers t a h in ground (arith, v.small a)

  due_timer : (t a : ℕ) → contains (t, a) (due now q) ≡ true → contains (t, a) q.timers ≡ true
  due_timer t a h =
      and_right (pair_lt (t, a) (now, uintptr_max)) _
        (sym (contains-below (t, a) (now, uintptr_max) q.timers v.sorted_timers) ∙ h)

  later_timer : (t a : ℕ) → contains (t, a) (later now q) ≡ true → contains (t, a) q.timers ≡ true
  later_timer t a h =
      and_right (not (pair_lt (t, a) (now, uintptr_max))) _
        (sym (contains-lower_bound (t, a) (now, uintptr_max) q.timers v.sorted_timers) ∙ h)

  pair_lt-now :
      (t a : ℕ) → contains (t, a) q.timers ≡ true → pair_lt (t, a) (now, uintptr_max) ≡ leb t now
  pair_lt-now t a h = ground (arith, listed_small t a h)

  -- The expired timers are exactly those whose expiration is not after `now`.
  due-eq : (t a : ℕ) → contains (t, a) (due now q) ≡ (leb t now && contains (t, a) q.timers)
  due-eq t a =
      contains-below (t, a) (now, uintptr_max) q.timers v.sorted_timers
      ∙ go (contains (t, a) q.timers) refl
    where
      go :
          (b : Bool)
          → b ≡ contains (t, a) q.timers
          → (pair_lt (t, a) (now, uintptr_max) && b) ≡ (leb t now && b)
      go true e = rw (pair_lt-now t a (sym e)) refl
      go false e = ground arith

  later-after : (t a : ℕ) → contains (t, a) (later now q) ≡ true → now < t
  later-after t a h = ground (
    arith,
    listed_small t a (later_timer t a h),
    contains-lower_bound (t, a) (now, uintptr_max) q.timers v.sorted_timers,
    h,
  )

  starts_after-later : (ts : List Pair) → ts ≡ (later now q) → starts_after now ts ≡ true
  starts_after-later [] e = refl
  starts_after-later ((t, a) ∷ ts) e = ground (
    arith,
    later-after t a (subst (λ us. contains (t, a) us ≡ true) e (rw (pair_eq_refl (t, a)) refl)),
  )

  one_expiration :
      (t u a : ℕ) → contains (t, a) q.timers ≡ true → contains (u, a) q.timers ≡ true → t ≡ u
  one_expiration t u a h k =
      let (x, e, f, _) = v.in_timers t a h in
      let (y, g, i, _) = v.in_timers u a k in
      sym f ∙ (ap (λ (z : Timer). z.expiration) (some-injective (sym e ∙ g)) ∙ i)

  Distinct-due :
      (es : List Pair)
      → Sorted es
      → ((t a : ℕ) → contains (t, a) es ≡ true → contains (t, a) q.timers ≡ true)
      → Distinct es
  Distinct-due [] s h = tt
  Distinct-due ((t, a) ∷ es) (b, s) h = (
    not_true (has_address a es) (λ m.
        let (u, k) = has_address-contains a es m in
        let e : t ≡ u =
          one_expiration t u a (h t a (rw (pair_eq_refl (t, a)) refl))
            (h u a (ground (arith, k))) in
        absurd (cc (Above-contains (t, a) es b, e, k))),
    Distinct-due es s (λ u c k. h u c (ground (arith, k))),
  )

  AllActive-due :
      (es : List Pair)
      → ((t a : ℕ) → contains (t, a) es ≡ true → contains (t, a) q.timers ≡ true)
      → AllActive (record q { timers = (later now q) }) es
  AllActive-due [] h = tt
  AllActive-due ((t, a) ∷ es) h =
      let (x, e, f, g) = v.in_timers t a (h t a (rw (pair_eq_refl (t, a)) refl)) in
      ((x, e, g), AllActive-due es (λ u c k. h u c (ground (arith, k))))

  not_due : (t a : ℕ) → contains (t, a) (later now q) ≡ true → has_address a (due now q) ≡ false
  not_due t a h = not_true (has_address a (due now q)) (λ m.
      let (u, k) = has_address-contains a (due now q) m in
      let e : t ≡ u = one_expiration t u a (later_timer t a h) (due_timer u a k) in
      let l : now < t = later-after t a h in
      let d : (leb u now && contains (u, a) q.timers) ≡ true = sym (due-eq u a) ∙ k in
      ground (arith, l, e, d))

  module _ {actives : List Pair}
      (w : Without (record q { timers = (later now q) }) (due now q) actives) where
    -- An active timer that is left was not due.
    still_later :
        (a s : ℕ) (x : Timer)
        → q.heap a ≡ some x
        → x.sequence ≡ s
        → contains (x.expiration, a) q.timers ≡ true
        → contains (a, s) actives ≡ true
        → contains (x.expiration, a) (later now q) ≡ true
    still_later a s x e f g h = elim (Bool-cases (pair_lt (x.expiration, a) (now, uintptr_max))) [
      | inl l ↦
          let d : contains (x.expiration, a) (due now q) ≡ true =
            contains-below (x.expiration, a) (now, uintptr_max) q.timers v.sorted_timers
            ∙ rw (l, g) refl in
          let (y, i, n) =
            AllIdle-lookup (record q { timers = (later now q); active_timers = actives })
              (due now q) a w.gone (contains-has_address x.expiration a (due now q) d) in
          let k : x ≡ y = some-injective (sym e ∙ i) in absurd (cc (h, n, f, k))
      | inr l ↦
          contains-lower_bound (x.expiration, a) (now, uintptr_max) q.timers v.sorted_timers
          ∙ rw (l, g) refl
    ]

  taken-Inv :
      (actives : List Pair)
      → Without (record q { timers = (later now q) }) (due now q) actives
      → Inv (due now q) (record q { timers = (later now q); active_timers = actives })
  taken-Inv actives w = record {
    sizes = omega (
      arith,
      ap length (below-append (now, uintptr_max) q.timers),
      length-append (due now q) (later now q),
      w.counted,
      v.sizes,
    );
    sorted_timers = Sorted-lower_bound (now, uintptr_max) q.timers v.sorted_timers;
    sorted_active = w.sorted;
    in_timers = λ t a h.
        let (x, e, f, g) = v.in_timers t a (later_timer t a h) in
        (x, e, f, w.keep a x.sequence (not_due t a h) g);
    in_active = λ a s h.
        let (x, e, f, g) = v.in_active a s (w.sub a s h) in (x, e, f, still_later w a s x e f g h);
    valid = λ t a h. v.valid t a (later_timer t a h);
    small = v.small;
    distinct =
        Distinct-due (due now q) (Sorted-below (now, uintptr_max) q.timers v.sorted_timers)
          due_timer;
    idle = w.gone;
  }

  -- `getExpired` runs through: it returns exactly the timers whose expiration is not after `now`, in
  -- their order, leaves exactly the others in both sets, and keeps the invariant.
  pub get_expired-Inv :
      (q' : TimerQueue) × (get_expired now q ≡ some ((due now q), q'))
      × Inv (due now q) q'
      × ((t a : ℕ) → contains (t, a) (due now q) ≡ (leb t now && contains (t, a) q.timers))
      × (q'.timers ≡ (later now q))
  unfolding get_expired
  get_expired-Inv =
      let (actives, e, w) =
        deactivate-Without (due now q) (record q { timers = (later now q) }) v.sorted_active
          (Distinct-due (due now q) (Sorted-below (now, uintptr_max) q.timers v.sorted_timers)
            due_timer)
          (AllActive-due (due now q) due_timer) in
      (
        record q { timers = (later now q); active_timers = actives },
        rw
            (
              eq→== (length q.timers) (length q.active_timers) v.sizes,
              starts_after-later (later now q) refl,
              e,
              eq→== (length (later now q)) (length actives) (taken-Inv actives w).sizes,
            )
            refl,
        taken-Inv actives w,
        due-eq,
        refl,
      )
