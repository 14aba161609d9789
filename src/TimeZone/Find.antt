-- ===== src/TimeZone/Find.antt =====
-- `findLocaltime` against the last transition that is not later.
use muduo.Base.{
  Bool, true, false, ℕ, zero, suc, ◌-◌, Option, none, some, List, [], ◌∷◌, length, get_elem?, ltb,
  ltb→lt, ltb→ge, lt→ltb, ge→ltb, if◌then◌else◌, ◌>>=◌, ◌>>◌, assert, Bool-cases, inl, inr, ◌≡◌,
  refl, sym, ap, ◌∙◌, arith,
}
use muduo.Base.Int.{ℤ, pos, negsuc, ◌<ℤ◌, ◌≤ℤ◌, int_eq}
use muduo.TimeZone.Zone.{
  Transition, Localtime, Data, key, comp, comp_equal, lower_bound, starts_later, transition_at,
  find_localtime,
}

-- The transitions are ordered by their time, one after another.
abbrev pub IsOrdered : Bool → List Transition → Type 0
IsOrdered gmt [] = Unit
IsOrdered gmt (t ∷ []) = Unit
IsOrdered gmt (t ∷ u ∷ ts) = (_ : key gmt t <ℤ key gmt u) × IsOrdered gmt (u ∷ ts)

-- The last transition that is not later than the sentry, wherever it stands.
abbrev pub last_at : Bool → Transition → List Transition → Option Transition
last_at gmt sentry [] = none
last_at gmt sentry (t ∷ ts) = elim (last_at gmt sentry ts) [
  | some u ↦ some u
  | none ↦ if comp gmt sentry t then none else some t
]

-- The local time in force: the one of that transition, or the first one before all transitions.
abbrev pub localtime_of : List Localtime → Option Transition → Option Localtime
localtime_of localtimes none = get_elem? localtimes 0
localtime_of localtimes (some t) = get_elem? localtimes t.localtime_idx

abbrev pub localtime_at : Data → Transition → Bool → Option Localtime
localtime_at data_ sentry gmt = localtime_of data_.localtimes (last_at gmt sentry data_.transitions)

less_one : (n : ℕ) → suc n - 1 ≡ n
less_one n = omega arith

int_eq_refl : (a b : ℤ) → a ≤ℤ b → b ≤ℤ a → int_eq a b ≡ true
int_eq_refl (pos a) (pos b) h k = ground arith
int_eq_refl (negsuc a) (negsuc b) h k = ground arith
int_eq_refl (pos a) (negsuc b) h k = absurd (omega arith)
int_eq_refl (negsuc a) (pos b) h k = absurd (omega arith)

int_eq-lt : (a b : ℤ) → a <ℤ b → int_eq a b ≡ false
int_eq-lt (pos a) (pos b) h = ground arith
int_eq-lt (negsuc a) (negsuc b) h = ground arith
int_eq-lt (pos a) (negsuc b) h = refl
int_eq-lt (negsuc a) (pos b) h = refl

module _ (gmt : Bool) (sentry : Transition) where
  -- Later transitions than the first are later too.
  none_at :
      (t : Transition) (ts : List Transition)
      → IsOrdered gmt (t ∷ ts)
      → key gmt sentry <ℤ key gmt t
      → last_at gmt sentry (t ∷ ts) ≡ none
  none_at t [] o h = rw (lt→ltb _ _ h) refl
  none_at t (u ∷ ts) (l, o) h = rw (none_at u ts o (omega arith), lt→ltb _ _ h) refl

  -- The transition at an index where `lower_bound` stops.
  abbrev at_found : Option Transition → List Transition → ℕ → Option Transition
  at_found none ts i = get_elem? ts (length ts - 1)
  at_found (some t) ts i =
      if comp_equal gmt sentry t then some t else (do assert (ltb 0 i); get_elem? ts (i - 1))

  abbrev at_index : List Transition → ℕ → Option Transition
  at_index ts i = at_found (get_elem? ts i) ts i

  shift_found :
      (o : Option Transition) (t u : Transition) (ts : List Transition) (i : ℕ)
      → at_found o (t ∷ u ∷ ts) (suc (suc i)) ≡ at_found o (u ∷ ts) (suc i)
  shift_found none t u ts i = rw (less_one (suc (length ts)), less_one (length ts)) refl
  shift_found (some v) t u ts i =
      rw
        (
          less_one (suc i),
          less_one i,
          lt→ltb 0 (suc (suc i)) (omega arith),
          lt→ltb 0 (suc i) (omega arith),
        )
        refl

  -- One more transition before a first one that is not later changes nothing.
  shift :
      (t u : Transition) (ts : List Transition) (i : ℕ)
      → key gmt u ≤ℤ key gmt sentry
      → (i ≡ 0 → key gmt sentry ≤ℤ key gmt u)
      → at_index (t ∷ u ∷ ts) (suc i) ≡ at_index (u ∷ ts) i
  shift t u ts zero low first = rw (int_eq_refl _ _ (first refl) low) refl
  shift t u ts (suc i) low first = shift_found (get_elem? ts i) t u ts i

  later_le : (u : Transition) → comp gmt sentry u ≡ true → key gmt sentry ≤ℤ key gmt u
  later_le u h = omega (arith, ltb→lt _ _ h)

  -- `lower_bound` stops at the first element only where that is not before the sentry.
  first :
      (u : Transition) (ts : List Transition)
      → lower_bound gmt sentry (u ∷ ts) ≡ 0
      → key gmt sentry ≤ℤ key gmt u
  unfolding lower_bound
  first u ts h = elim (Bool-cases (comp gmt u sentry)) [
    | inl e ↦ absurd (cc (sym (ap (λ b. if b then suc (lower_bound gmt sentry ts) else 0) e) ∙ h))
    | inr e ↦ ltb→ge _ _ e
  ]

  step :
      (t u : Transition) (ts : List Transition)
      → comp gmt t sentry ≡ true
      → lower_bound gmt sentry (t ∷ u ∷ ts) ≡ suc (lower_bound gmt sentry (u ∷ ts))
  unfolding lower_bound
  step t u ts h = rw h refl

  transition_at-last_at :
      (t : Transition) (ts : List Transition)
      → IsOrdered gmt (t ∷ ts)
      → key gmt t ≤ℤ key gmt sentry
      → (u : Transition) × (at_index (t ∷ ts) (lower_bound gmt sentry (t ∷ ts)) ≡ some u)
        × (last_at gmt sentry (t ∷ ts) ≡ some u)
  unfolding lower_bound
  transition_at-last_at t [] o low = elim (Bool-cases (comp gmt t sentry)) [
    | inl less ↦ (t, rw less refl, rw (ge→ltb _ _ low) refl)
    | inr more ↦
        (t, rw (more, int_eq_refl _ _ (ltb→ge _ _ more) low) refl, rw (ge→ltb _ _ low) refl)
  ]
  transition_at-last_at t (u ∷ ts) (l, o) low = elim (Bool-cases (comp gmt t sentry)) [
    | inr more ↦ (
      t,
      rw (more, int_eq_refl _ _ (ltb→ge _ _ more) low) refl,
      rw (none_at u ts o (omega (arith, ltb→ge _ _ more)), ge→ltb _ _ low) refl,
    )
    | inl less ↦ elim (Bool-cases (comp gmt sentry u)) [
      | inl later ↦ (
        t,
        rw (less, ge→ltb _ _ (later_le u later), int_eq-lt _ _ (ltb→lt _ _ later)) refl,
        rw (none_at u ts o (ltb→lt _ _ later), ge→ltb _ _ low) refl,
      )
      | inr reached ↦
          (let (v, found, last) = transition_at-last_at u ts o (ltb→ge _ _ reached) in
            let i = lower_bound gmt sentry (u ∷ ts) in
            (
              v,
              ap (at_index (t ∷ u ∷ ts)) (step t u ts less)
                  ∙ (shift t u ts i (ltb→ge _ _ reached) (first u ts) ∙ found),
              rw last refl,
            ))
    ]
  ]

transition_at-eq :
    (gmt : Bool) (sentry : Transition) (ts : List Transition)
    → transition_at gmt sentry ts ≡ at_index gmt sentry ts (lower_bound gmt sentry ts)
unfolding transition_at
transition_at-eq gmt sentry ts = go (get_elem? ts (lower_bound gmt sentry ts))
  where
    go :
        (o : Option Transition)
        → (elim o [
          | some t ↦
              (if comp_equal gmt sentry t then some t else (do
                assert (ltb 0 (lower_bound gmt sentry ts))
                get_elem? ts (lower_bound gmt sentry ts - 1)))
          | none ↦ get_elem? ts (length ts - 1)
        ])
          ≡ at_found gmt sentry o ts (lower_bound gmt sentry ts)
    go none = refl
    go (some t) = refl

-- In a zone whose transitions are ordered by the time that is compared, `findLocaltime` fails no
-- assertion and gives the local time of the last transition that is not later than the time asked
-- for, and the first local time before all transitions.
pub find_localtime-localtime_at :
    (data_ : Data) (sentry : Transition) (gmt : Bool)
    → IsOrdered gmt data_.transitions
    → find_localtime data_ sentry gmt ≡ localtime_at data_ sentry gmt
unfolding find_localtime
find_localtime-localtime_at data_ sentry gmt o = on data_.transitions o
  where
    on :
        (ts : List Transition)
        → IsOrdered gmt ts
        → (if starts_later gmt sentry ts
            then get_elem? data_.localtimes 0
            else transition_at gmt sentry ts >>= λ t. get_elem? data_.localtimes t.localtime_idx)
          ≡ localtime_of data_.localtimes (last_at gmt sentry ts)
    on [] o = refl
    on (t ∷ ts) o = elim (Bool-cases (comp gmt sentry t)) [
      | inl e ↦ rw (e, none_at gmt sentry t ts o (ltb→lt _ _ e)) refl
      | inr e ↦
          (let (u, found, last) = transition_at-last_at gmt sentry t ts o (ltb→ge _ _ e) in
            rw (e, last, transition_at-eq gmt sentry (t ∷ ts), found) refl)
    ]
