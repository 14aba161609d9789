-- ===== src/Base/Bytes.antt =====
-- Searches and comparisons of the standard library on byte strings.
use Prim.Native.Nat.{ℕ, suc, ◌+◌, ◌≤◌}
use mathlib.Core.Path.{◌≡◌, refl, ap, ◌∙◌}
use mathlib.Core.Bool.{Bool, true, false, ◌&&◌}
use mathlib.Core.List.{List, [], ◌∷◌, ◌++◌}
use native.Mathlib.Omega.{arith}
use muduo.Base.Tests.{◌==◌, if◌then◌else◌}
use muduo.Base.Lists.{length, length-append}

-- `std::find`: the offset of the first `c`, or the length where there is none.
abbrev pub find : ℕ → List ℕ → ℕ
find c [] = 0
find c (x ∷ xs) = let rest = find c xs in if x == c then 0 else suc rest

abbrev pub bytes_eq : List ℕ → List ℕ → Bool
bytes_eq [] [] = true
bytes_eq [] (y ∷ ys) = false
bytes_eq (x ∷ xs) [] = false
bytes_eq (x ∷ xs) (y ∷ ys) = x == y && bytes_eq xs ys

-- `c` does not occur.
abbrev pub Lacks : ℕ → List ℕ → Type 0
Lacks c xs = find c xs ≡ length xs

pub Lacks-head : (c x : ℕ) (xs : List ℕ) → Lacks c (x ∷ xs) → (x == c) ≡ false
Lacks-head c x xs h = ground arith

pub Lacks-tail : (c x : ℕ) (xs : List ℕ) → Lacks c (x ∷ xs) → Lacks c xs
Lacks-tail c x xs h = ground arith

pub find-append : (c : ℕ) (xs ys : List ℕ) → Lacks c xs → find c (xs ++ ys) ≡ length xs + find c ys
find-append c [] ys h = omega arith
find-append c (x ∷ xs) ys h =
    rw (Lacks-head c x xs h) (omega (arith, find-append c xs ys (Lacks-tail c x xs h)))

pub find_here : (c : ℕ) (xs ys : List ℕ) → Lacks c xs → find c (xs ++ c ∷ ys) ≡ length xs
find_here c xs ys h = find-append c xs (c ∷ ys) h ∙ ground arith

pub find-le : (c : ℕ) (xs : List ℕ) → find c xs ≤ length xs
find-le c [] = omega arith
find-le c (x ∷ xs) = ground (arith, find-le c xs)

pub bytes_eq_refl : (xs : List ℕ) → bytes_eq xs xs ≡ true
bytes_eq_refl [] = refl
bytes_eq_refl (x ∷ xs) = ground (arith, bytes_eq_refl xs)

pub Lacks-append : (c : ℕ) (xs ys : List ℕ) → Lacks c xs → Lacks c ys → Lacks c (xs ++ ys)
Lacks-append c xs ys h k = omega (arith, find-append c xs ys h, length-append xs ys)

pub Lacks-cons : (c x : ℕ) (xs : List ℕ) → (x == c) ≡ false → Lacks c xs → Lacks c (x ∷ xs)
Lacks-cons c x xs h k = rw h (ap suc k)
