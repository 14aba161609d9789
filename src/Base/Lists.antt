-- ===== src/Base/Lists.antt =====
-- Lists measured and indexed by native numbers, under the library's names.
use Prim.Native.Nat.{ℕ, zero, suc, ◌+◌, ◌-◌, ◌≤◌, min}
use mathlib.Core.Path.{◌≡◌, refl, ap, sym, ◌∙◌}
use mathlib.Core.List.{List, [], ◌∷◌, ◌++◌, append_assoc}
use mathlib.Core.Option.{Option, none, some}
use native.Mathlib.Omega.{arith}

module _ {ℓ} {A : Type ℓ} where
  abbrev pub length : List A → ℕ
  length [] = 0
  length (x ∷ xs) = suc (length xs)

  abbrev pub take : ℕ → List A → List A
  take zero xs = []
  take (suc n) [] = []
  take (suc n) (x ∷ xs) = x ∷ take n xs

  abbrev pub drop : ℕ → List A → List A
  drop zero xs = xs
  drop (suc n) [] = []
  drop (suc n) (x ∷ xs) = drop n xs

  abbrev pub replicate : ℕ → A → List A
  replicate zero a = []
  replicate (suc n) a = a ∷ replicate n a

  abbrev pub get_elem? : List A → ℕ → Option A
  get_elem? [] i = none
  get_elem? (x ∷ xs) zero = some x
  get_elem? (x ∷ xs) (suc i) = get_elem? xs i

  abbrev pub set : List A → ℕ → A → List A
  set [] i v = []
  set (x ∷ xs) zero v = v ∷ xs
  set (x ∷ xs) (suc i) v = x ∷ set xs i v

module _ {ℓ} {A : Type ℓ} where
  pub length-append : (xs ys : List A) → length (xs ++ ys) ≡ length xs + length ys
  length-append [] ys = omega arith
  length-append (x ∷ xs) ys = omega (arith, length-append xs ys)

  pub take-append-drop : (n : ℕ) (xs : List A) → take n xs ++ drop n xs ≡ xs
  take-append-drop zero xs = refl
  take-append-drop (suc n) [] = refl
  take-append-drop (suc n) (x ∷ xs) = rw (take-append-drop n xs)

  pub length-take : (n : ℕ) (xs : List A) → length (take n xs) ≡ min n (length xs)
  length-take zero xs = omega arith
  length-take (suc n) [] = omega arith
  length-take (suc n) (x ∷ xs) = omega (arith, length-take n xs)

  pub length-drop : (n : ℕ) (xs : List A) → length (drop n xs) ≡ length xs - n
  length-drop zero xs = omega arith
  length-drop (suc n) [] = omega arith
  length-drop (suc n) (x ∷ xs) = omega (arith, length-drop n xs)

  pub length-replicate : (n : ℕ) (a : A) → length (replicate n a) ≡ n
  length-replicate zero a = refl
  length-replicate (suc n) a = ap suc (length-replicate n a)

  pub take_all : (n : ℕ) (xs : List A) → length xs ≤ n → take n xs ≡ xs
  take_all zero [] h = refl
  take_all zero (x ∷ xs) h = absurd (omega arith)
  take_all (suc n) [] h = refl
  take_all (suc n) (x ∷ xs) h = ap (◌∷◌ x) (take_all n xs (omega arith))

  pub drop_all : (n : ℕ) (xs : List A) → length xs ≤ n → drop n xs ≡ []
  drop_all zero [] h = refl
  drop_all zero (x ∷ xs) h = absurd (omega arith)
  drop_all (suc n) [] h = refl
  drop_all (suc n) (x ∷ xs) h = drop_all n xs (omega arith)

  pub take-append_le : (n : ℕ) (xs ys : List A) → n ≤ length xs → take n (xs ++ ys) ≡ take n xs
  take-append_le zero xs ys h = refl
  take-append_le (suc n) [] ys h = absurd (omega arith)
  take-append_le (suc n) (x ∷ xs) ys h = ap (◌∷◌ x) (take-append_le n xs ys (omega arith))

  pub drop-append_le :
      (n : ℕ) (xs ys : List A) → n ≤ length xs → drop n (xs ++ ys) ≡ drop n xs ++ ys
  drop-append_le zero xs ys h = refl
  drop-append_le (suc n) [] ys h = absurd (omega arith)
  drop-append_le (suc n) (x ∷ xs) ys h = drop-append_le n xs ys (omega arith)

  pub take-append_ge :
      (n k : ℕ) (xs ys : List A) → k ≤ n → k ≡ length xs → take n (xs ++ ys) ≡ xs ++ take (n - k) ys
  take-append_ge n k [] ys h e = ap (λ m. take m ys) (omega arith)
  take-append_ge zero k (x ∷ xs) ys h e = absurd (omega arith)
  take-append_ge (suc n) zero (x ∷ xs) ys h e = absurd (omega arith)
  take-append_ge (suc n) (suc k) (x ∷ xs) ys h e = ap (◌∷◌ x) (
      take-append_ge n k xs ys (omega arith) (omega arith)
      ∙ ap (λ m. xs ++ take m ys) (omega arith))

  pub take-append_length : (n : ℕ) (xs ys : List A) → n ≡ length xs → take n (xs ++ ys) ≡ xs
  take-append_length n xs ys h = take-append_le n xs ys (omega arith) ∙ take_all n xs (omega arith)

  pub drop-append_length : (n : ℕ) (xs ys : List A) → n ≡ length xs → drop n (xs ++ ys) ≡ ys
  drop-append_length zero [] ys h = refl
  drop-append_length zero (x ∷ xs) ys h = absurd (omega arith)
  drop-append_length (suc n) [] ys h = absurd (omega arith)
  drop-append_length (suc n) (x ∷ xs) ys h = drop-append_length n xs ys (omega arith)

  pub drop-nil : (n : ℕ) → drop {A = A} n [] ≡ []
  drop-nil zero = refl
  drop-nil (suc n) = refl

  pub take-nil : (n : ℕ) → take {A = A} n [] ≡ []
  take-nil zero = refl
  take-nil (suc n) = refl

  pub drop-drop : (m n : ℕ) (xs : List A) → drop m (drop n xs) ≡ drop (n + m) xs
  drop-drop m zero xs = ap (λ k. drop k xs) (omega arith)
  drop-drop m (suc n) [] = drop-nil m ∙ sym (drop-nil (suc n + m))
  drop-drop m (suc n) (x ∷ xs) = drop-drop m n xs ∙ ap (λ k. drop k (x ∷ xs)) e
    where
      e : suc (n + m) ≡ suc n + m
      e = omega arith

  pub drop-take : (m n : ℕ) (xs : List A) → drop m (take n xs) ≡ take (n - m) (drop m xs)
  drop-take zero n xs = ap (λ k. take k xs) (omega arith)
  drop-take (suc m) zero xs = ap (λ k. take k (drop (suc m) xs)) e
    where
      e : 0 ≡ 0 - suc m
      e = omega arith
  drop-take (suc m) (suc n) [] = sym (take-nil (suc n - suc m))
  drop-take (suc m) (suc n) (x ∷ xs) = drop-take m n xs ∙ ap (λ k. take k (drop m xs)) (omega arith)

  -- The elements from index `i` up to index `j`.
  abbrev pub slice : ℕ → ℕ → List A → List A
  slice i j xs = take (j - i) (drop i xs)

  pub length-slice : (i j : ℕ) (xs : List A) → j ≤ length xs → length (slice i j xs) ≡ j - i
  length-slice i j xs h = omega (arith, length-take (j - i) (drop i xs), length-drop i xs)

  pub slice-append_le :
      (i j : ℕ) (xs ys : List A) → i ≤ j → j ≤ length xs → slice i j (xs ++ ys) ≡ slice i j xs
  slice-append_le i j xs ys h k =
      rw (drop-append_le i xs ys (omega arith))
        (take-append_le (j - i) (drop i xs) ys (omega (arith, length-drop i xs)))

  pub slice_extend :
      (i j k : ℕ) (xs ds ys : List A)
      → i ≤ j
      → j ≡ length xs
      → k ≡ length ds
      → slice i (j + k) (xs ++ (ds ++ ys)) ≡ slice i j xs ++ ds
  slice_extend i j k xs ds ys h e f = rw (drop-append_le i xs (ds ++ ys) (omega arith)) (
      rw (take_all (j - i) (drop i xs) (omega (arith, length-drop i xs))) (
        rw (← append_assoc (drop i xs) ds ys) (
          take-append_length (j + k - i) (drop i xs ++ ds) ys
            (omega (arith, length-append (drop i xs) ds, length-drop i xs)))))

  pub slice-take : (i j : ℕ) (xs : List A) → i ≤ j → slice i j (take j xs) ≡ slice i j xs
  slice-take i j xs h =
      rw (drop-take i j xs) (
        take_all (j - i) (take (j - i) (drop i xs))
          (omega (arith, length-take (j - i) (drop i xs))))

  pub slice_prefix :
      (i n : ℕ) (xs ds ys : List A)
      → i ≡ length xs
      → n ≡ length ds
      → slice i (i + n) (xs ++ (ds ++ ys)) ≡ ds
  slice_prefix i n xs ds ys e f =
      rw (drop-append_length i xs (ds ++ ys) e) (take-append_length (i + n - i) ds ys (omega arith))

  pub take_fewer : (m n : ℕ) (xs : List A) → m ≤ n → take m (take n xs) ≡ take m xs
  take_fewer zero n xs h = refl
  take_fewer (suc m) zero xs h = absurd (omega arith)
  take_fewer (suc m) (suc n) [] h = refl
  take_fewer (suc m) (suc n) (x ∷ xs) h = ap (◌∷◌ x) (take_fewer m n xs (omega arith))

  pub slice_prepend :
      (i k j : ℕ) (xs ds : List A)
      → i + k ≤ j
      → j ≤ length xs
      → k ≡ length ds
      → slice i j (take i xs ++ (ds ++ drop (i + k) xs)) ≡ ds ++ slice (i + k) j xs
  slice_prepend i k j xs ds h g e =
      rw
        (drop-append_length i (take i xs) (ds ++ drop (i + k) xs) (omega (arith, length-take i xs)))
        (take-append_ge (j - i) k ds (drop (i + k) xs) (omega arith) e
          ∙ ap (λ n. ds ++ take n (drop (i + k) xs)) (omega arith))

  pub length_zero : (xs : List A) → length xs ≤ 0 → xs ≡ []
  length_zero [] h = refl
  length_zero (x ∷ xs) h = absurd (omega arith)
