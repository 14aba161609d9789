-- ===== src/Base/PairSet/Laws.antt =====
-- What insertion, removal and the lower bound do to the elements of a sorted set.
use Prim.Native.Nat.{suc}
use mathlib.Core.Path.{◌≡◌, refl, ap, ◌∙◌, sym}
use mathlib.Core.Bool.{Bool, true, false, ◌&&◌, ◌||◌, not}
use mathlib.Core.Logic.{◌⊎◌, inl, inr}
use mathlib.Core.List.{List, [], ◌∷◌, ◌++◌}
use native.Mathlib.Omega.{arith}
use muduo.Base.Tests.{Bool-cases}
use muduo.Base.Lists.{length}
use muduo.Base.PairSet.{
  Pair, pair_lt, pair_eq, contains, insert, erase, below, lower_bound, Above, Sorted, pair_eq_refl,
  pair_eq_sound, pair_lt_irrefl, pair_lt_total, pair_eq_comm, Above-trans, Above-contains,
}

or_absorb : (p c : Bool) → (p || c) ≡ (p || (p || c))
or_absorb p c = ground arith

or_swap : (p q c : Bool) → (p || (q || c)) ≡ (q || (p || c))
or_swap p q c = ground arith

and_false : (p : Bool) → (p && false) ≡ false
and_false p = ground arith

and_not_or : (p c : Bool) → (p ≡ true → c ≡ false) → c ≡ (not p && (p || c))
and_not_or true c h = h refl
and_not_or false c h = refl

or_and_swap : (p q c : Bool) → (p ≡ true → q ≡ true) → (p || (q && c)) ≡ (q && (p || c))
or_and_swap true q c h = rw (h refl) refl
or_and_swap false q c h = refl

and_none : (l c : Bool) → (l ≡ true → c ≡ false) → false ≡ (l && c)
and_none true c h = sym (h refl)
and_none false c h = refl

and_drop : (p l c : Bool) → (p ≡ true → l ≡ true) → (not l && c) ≡ (not l && (p || c))
and_drop true l c h = rw (h refl) refl
and_drop false l c h = refl

and_all : (l c : Bool) → (l ≡ true → c ≡ false) → c ≡ (not l && c)
and_all true c h = h refl
and_all false c h = refl

not_lt_trans : (x y z : Pair) → pair_lt y x ≡ false → pair_lt z x ≡ true → pair_lt z y ≡ true
not_lt_trans (a, b) (c, d) (e, f) h k = ground arith

not_below :
    (z x y : Pair) (ys : List Pair)
    → Above y ys
    → pair_lt y x ≡ false
    → pair_lt z x ≡ true
    → contains z (y ∷ ys) ≡ false
not_below z x y ys a h k =
    rw (pair_lt_irrefl z y (not_lt_trans x y z h k))
      (Above-contains z ys (Above-trans z y ys (not_lt_trans x y z h k) a))

pub Above-insert :
    (z x : Pair) (ys : List Pair) → pair_lt z x ≡ true → Above z ys → Above z (insert x ys)
unfolding insert
Above-insert z x [] h a = (h, tt)
Above-insert z x (y ∷ ys) h (l, a) = elim (Bool-cases (pair_lt x y)) [
  | inl e ↦ rw e (h, (l, a))
  | inr e ↦ elim (Bool-cases (pair_eq x y)) [
    | inl f ↦ rw (e, f) (l, a)
    | inr f ↦ rw (e, f) (l, Above-insert z x ys h a)
  ]
]

pub Sorted-insert : (x : Pair) (ys : List Pair) → Sorted ys → Sorted (insert x ys)
unfolding insert
Sorted-insert x [] s = (tt, tt)
Sorted-insert x (y ∷ ys) (a, s) = elim (Bool-cases (pair_lt x y)) [
  | inl e ↦ rw e ((e, Above-trans x y ys e a), (a, s))
  | inr e ↦ elim (Bool-cases (pair_eq x y)) [
    | inl f ↦ rw (e, f) (a, s)
    | inr f ↦ rw (e, f) (Above-insert y x ys (pair_lt_total x y e f) a, Sorted-insert x ys s)
  ]
]

pub contains-insert :
    (z x : Pair) (ys : List Pair) → contains z (insert x ys) ≡ (pair_eq z x || contains z ys)
unfolding insert
contains-insert z x [] = refl
contains-insert z x (y ∷ ys) = elim (Bool-cases (pair_lt x y)) [
  | inl e ↦ rw e refl
  | inr e ↦ elim (Bool-cases (pair_eq x y)) [
    | inl f ↦ rw (e, f, pair_eq_sound x y f) (or_absorb (pair_eq z y) (contains z ys))
    | inr f ↦
        rw (e, f, contains-insert z x ys) (or_swap (pair_eq z y) (pair_eq z x) (contains z ys))
  ]
]

pub length-insert :
    (x : Pair) (ys : List Pair) → contains x ys ≡ false → length (insert x ys) ≡ suc (length ys)
unfolding insert
length-insert x [] h = refl
length-insert x (y ∷ ys) h = ground (arith, length-insert x ys)

pub contains-erase :
    (z x : Pair) (ys : List Pair)
    → Sorted ys
    → contains z (erase x ys) ≡ (not (pair_eq z x) && contains z ys)
unfolding erase
contains-erase z x [] s = sym (and_false (not (pair_eq z x)))
contains-erase z x (y ∷ ys) (a, s) = elim (Bool-cases (pair_eq x y)) [
  | inl f ↦
      rw (f, pair_eq_sound x y f)
        (and_not_or (pair_eq z y) (contains z ys)
          (λ e. rw (pair_eq_sound z y e) (Above-contains y ys a)))
  | inr f ↦
      rw (f, contains-erase z x ys s)
        (or_and_swap (pair_eq z y) (not (pair_eq z x)) (contains z ys)
          (λ e. rw (pair_eq_sound z y e, pair_eq_comm y x, f) refl))
]

pub Above-erase : (z x : Pair) (ys : List Pair) → Above z ys → Above z (erase x ys)
unfolding erase
Above-erase z x [] a = tt
Above-erase z x (y ∷ ys) (l, a) = elim (Bool-cases (pair_eq x y)) [
  | inl f ↦ rw f a
  | inr f ↦ rw f (l, Above-erase z x ys a)
]

pub Sorted-erase : (x : Pair) (ys : List Pair) → Sorted ys → Sorted (erase x ys)
unfolding erase
Sorted-erase x [] s = tt
Sorted-erase x (y ∷ ys) (a, s) = elim (Bool-cases (pair_eq x y)) [
  | inl f ↦ rw f s
  | inr f ↦ rw f (Above-erase y x ys a, Sorted-erase x ys s)
]

pub length-erase :
    (x : Pair) (ys : List Pair) → contains x ys ≡ true → suc (length (erase x ys)) ≡ length ys
unfolding erase
length-erase x [] h = absurd cc
length-erase x (y ∷ ys) h = ground (arith, length-erase x ys)

pub below-append : (x : Pair) (ys : List Pair) → below x ys ++ lower_bound x ys ≡ ys
unfolding below lower_bound
below-append x [] = refl
below-append x (y ∷ ys) = elim (Bool-cases (pair_lt y x)) [
  | inl e ↦ rw e (ap (◌∷◌ y) (below-append x ys))
  | inr e ↦ rw e refl
]

-- The set splits at `x`.
pub contains-below :
    (z x : Pair) (ys : List Pair)
    → Sorted ys
    → contains z (below x ys) ≡ (pair_lt z x && contains z ys)
unfolding below
contains-below z x [] s = sym (and_false (pair_lt z x))
contains-below z x (y ∷ ys) (a, s) = elim (Bool-cases (pair_lt y x)) [
  | inl e ↦
      rw (e, contains-below z x ys s)
        (or_and_swap (pair_eq z y) (pair_lt z x) (contains z ys) (λ g. rw (pair_eq_sound z y g) e))
  | inr e ↦ rw e (and_none (pair_lt z x) (contains z (y ∷ ys)) (λ l. not_below z x y ys a e l))
]

pub contains-lower_bound :
    (z x : Pair) (ys : List Pair)
    → Sorted ys
    → contains z (lower_bound x ys) ≡ (not (pair_lt z x) && contains z ys)
unfolding lower_bound
contains-lower_bound z x [] s = sym (and_false (not (pair_lt z x)))
contains-lower_bound z x (y ∷ ys) (a, s) = elim (Bool-cases (pair_lt y x)) [
  | inl e ↦
      rw (e, contains-lower_bound z x ys s)
        (and_drop (pair_eq z y) (pair_lt z x) (contains z ys) (λ g. rw (pair_eq_sound z y g) e))
  | inr e ↦ rw e (and_all (pair_lt z x) (contains z (y ∷ ys)) (λ l. not_below z x y ys a e l))
]

pub inserted_here : (x : Pair) (ys : List Pair) → contains x (insert x ys) ≡ true
inserted_here x ys = rw (contains-insert x x ys, pair_eq_refl x) refl

pub inserted_there :
    (z x : Pair) (ys : List Pair) → contains z ys ≡ true → contains z (insert x ys) ≡ true
inserted_there z x ys h = rw (contains-insert z x ys, h) (or_true (pair_eq z x))
  where
    or_true : (p : Bool) → (p || true) ≡ true
    or_true p = ground arith

pub inserted-cases :
    (z x : Pair) (ys : List Pair)
    → contains z (insert x ys) ≡ true
    → (z ≡ x) ⊎ (contains z ys ≡ true)
inserted-cases z x ys h = elim (Bool-cases (pair_eq z x)) [
  | inl e ↦ inl (pair_eq_sound z x e)
  | inr n ↦ inr (rw n at (sym (contains-insert z x ys) ∙ h))
]

pub erased-cases :
    (z x : Pair) (ys : List Pair)
    → Sorted ys
    → contains z (erase x ys) ≡ true
    → (pair_eq z x ≡ false) × (contains z ys ≡ true)
erased-cases z x ys s h = elim (Bool-cases (pair_eq z x)) [
  | inl e ↦ let k : false ≡ true = rw e at (sym (contains-erase z x ys s) ∙ h) in absurd (cc k)
  | inr n ↦ (n, rw n at (sym (contains-erase z x ys s) ∙ h))
]

pub erased_keep :
    (z x : Pair) (ys : List Pair)
    → Sorted ys
    → pair_eq z x ≡ false
    → contains z ys ≡ true
    → contains z (erase x ys) ≡ true
erased_keep z x ys s n h = rw (contains-erase z x ys s, n) h

Above-below : (z x : Pair) (ys : List Pair) → Above z ys → Above z (below x ys)
unfolding below
Above-below z x [] a = tt
Above-below z x (y ∷ ys) (l, a) = elim (Bool-cases (pair_lt y x)) [
  | inl e ↦ rw e (l, Above-below z x ys a)
  | inr e ↦ rw e tt
]

pub Sorted-below : (x : Pair) (ys : List Pair) → Sorted ys → Sorted (below x ys)
unfolding below
Sorted-below x [] s = tt
Sorted-below x (y ∷ ys) (a, s) = elim (Bool-cases (pair_lt y x)) [
  | inl e ↦ rw e (Above-below y x ys a, Sorted-below x ys s)
  | inr e ↦ rw e tt
]

pub Sorted-lower_bound : (x : Pair) (ys : List Pair) → Sorted ys → Sorted (lower_bound x ys)
unfolding lower_bound
Sorted-lower_bound x [] s = tt
Sorted-lower_bound x (y ∷ ys) (a, s) = elim (Bool-cases (pair_lt y x)) [
  | inl e ↦ rw e (Sorted-lower_bound x ys s)
  | inr e ↦ rw e (a, s)
]
