-- ===== src/Base/PairSet.antt =====
-- `std::set` of pairs, as the sorted list of its elements. `erase` counts what it takes out by
-- `contains` before it; an iterator is the rest of the list.
pub mod Laws
use Prim.Native.Nat.{ℕ, zero, suc, ◌+◌, ◌≤◌, ◌<◌}
use mathlib.Core.Path.{◌≡◌, refl, ap, ◌∙◌}
use mathlib.Core.Bool.{Bool, true, false, ◌&&◌, ◌||◌, not}
use mathlib.Core.Logic.{◌⊎◌, inl, inr}
use mathlib.Core.List.{List, [], ◌∷◌, ◌++◌}
use native.Mathlib.Omega.{arith}
use muduo.Base.Tests.{◌==◌, ltb, if◌then◌else◌, Bool-cases}
use muduo.Base.Lists.{length}

abbrev pub Pair : Type 0
Pair = ℕ × ℕ

abbrev pub pair_lt : Pair → Pair → Bool
pair_lt (a, b) (c, d) = ltb a c || (a == c && ltb b d)

abbrev pub pair_eq : Pair → Pair → Bool
pair_eq (a, b) (c, d) = a == c && b == d

abbrev pub contains : Pair → List Pair → Bool
contains x [] = false
contains x (y ∷ ys) = pair_eq x y || contains x ys

unfoldable pub insert : Pair → List Pair → List Pair
insert x [] = x ∷ []
insert x (y ∷ ys) =
    let rest = insert x ys in
    if pair_lt x y then x ∷ y ∷ ys else if pair_eq x y then y ∷ ys else y ∷ rest

unfoldable pub erase : Pair → List Pair → List Pair
erase x [] = []
erase x (y ∷ ys) = let rest = erase x ys in if pair_eq x y then ys else y ∷ rest

-- The elements before `lower_bound(x)`, and those from there on.
unfoldable pub below : Pair → List Pair → List Pair
below x [] = []
below x (y ∷ ys) = let rest = below x ys in if pair_lt y x then y ∷ rest else []

unfoldable pub lower_bound : Pair → List Pair → List Pair
lower_bound x [] = []
lower_bound x (y ∷ ys) = let rest = lower_bound x ys in if pair_lt y x then rest else y ∷ ys

-- Every element lies behind `x`.
abbrev pub Above : Pair → List Pair → Type 0
Above x [] = Unit {0}
Above x (y ∷ ys) = (pair_lt x y ≡ true) × Above x ys

abbrev pub Sorted : List Pair → Type 0
Sorted [] = Unit {0}
Sorted (x ∷ xs) = Above x xs × Sorted xs

pub pair_eq_refl : (x : Pair) → pair_eq x x ≡ true
pair_eq_refl (a, b) = ground arith

pub pair_eq_sound : (x y : Pair) → pair_eq x y ≡ true → x ≡ y
pair_eq_sound (a, b) (c, d) h = ground arith

pub pair_lt_trans : (x y z : Pair) → pair_lt x y ≡ true → pair_lt y z ≡ true → pair_lt x z ≡ true
pair_lt_trans (a, b) (c, d) (e, f) h k = ground arith

pub pair_lt_irrefl : (x y : Pair) → pair_lt x y ≡ true → pair_eq x y ≡ false
pair_lt_irrefl (a, b) (c, d) h = ground arith

pub pair_lt_total : (x y : Pair) → pair_lt x y ≡ false → pair_eq x y ≡ false → pair_lt y x ≡ true
pair_lt_total (a, b) (c, d) h k = ground arith

pub pair_eq_comm : (x y : Pair) → pair_eq x y ≡ pair_eq y x
pair_eq_comm (a, b) (c, d) = ground arith

pub Above-trans : (x y : Pair) (ys : List Pair) → pair_lt x y ≡ true → Above y ys → Above x ys
Above-trans x y [] h a = tt
Above-trans x y (z ∷ zs) h (l, a) = (pair_lt_trans x y z h l, Above-trans x y zs h a)

pub Above-contains : (x : Pair) (ys : List Pair) → Above x ys → contains x ys ≡ false
Above-contains x [] a = refl
Above-contains x (y ∷ ys) (l, a) = rw (pair_lt_irrefl x y l) (Above-contains x ys a)

pub Above-element :
    (x z : Pair) (ys : List Pair) → Above x ys → contains z ys ≡ true → pair_lt x z ≡ true
Above-element x z [] a h = absurd cc
Above-element x z (y ∷ ys) (l, a) h = elim (Bool-cases (pair_eq z y)) [
  | inl e ↦ rw (pair_eq_sound z y e) l
  | inr n ↦ Above-element x z ys a (rw n at h)
]
