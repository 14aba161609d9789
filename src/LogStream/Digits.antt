-- ===== src/LogStream/Digits.antt =====
-- Numerals in a base: the digits of a number from the lowest on, and their value.
use muduo.Base.{
  true, false, ℕ, zero, suc, ◌+◌, ◌*◌, ◌/◌, ◌%◌, ◌^◌, ◌<◌, ◌≤◌, Option, some, List, [], ◌∷◌, ◌++◌,
  length, length-append, eq→==, ==_iff, ◌==◌, ◌≡◌, refl, sym, ap, ◌∙◌, if◌then◌else◌, ◌>>=◌,
  Bool-cases, Option-cases, subst, inl, inr, arith,
}
use native.Mathlib.Nat.{
  div-add-mod', div-lt_self, div-lt_iff_lt-mul, mod-lt, div-eq_of_lt, pow-suc, pow-zero, zero-div,
}
use native.Mathlib.Decide.{ℕ_discrete}
use muduo.LogStream.{reverse}

some_same : {x y : ℕ} → some x ≡ some y → x ≡ y
some_same h = cc

pow-one : (b : ℕ) → b ^ 1 ≡ b
pow-one b = pow-suc b 0 ∙ (ap (λ x. x * b) (pow-zero b) ∙ omega arith)

pub length-reverse : (xs : List ℕ) → length (reverse xs) ≡ length xs
length-reverse [] = refl
length-reverse (x ∷ xs) = omega (arith, length-append (reverse xs) (x ∷ []), length-reverse xs)

-- A base, and how a character is written for a digit and read.
pub record Numerals : Type 0 where
  pub base : ℕ
  pub char : ℕ → ℕ
  pub value : ℕ → Option ℕ
  pub base_large : 1 < base
  pub value-char : (d : ℕ) → d < base → value (char d) ≡ some d

module _ (num : Numerals) where
  open num use {base, char, value, base_large, value-char}

  -- The digits of `n`, the lowest first; at least one.
  abbrev pub render : ℕ → ℕ → List ℕ
  render zero n = []
  render (suc fuel) n =
      let rest = render fuel (n / base) in char (n % base) ∷ (if n / base == 0 then [] else rest)

  -- The number that the characters stand for, the highest first.
  abbrev pub read_from : ℕ → List ℕ → Option ℕ
  read_from acc [] = some acc
  read_from acc (c ∷ cs) = value c >>= λ d. read_from (acc * base + d) cs

  read_from-snoc :
      (cs : List ℕ) (acc n d : ℕ)
      → read_from acc cs ≡ some n
      → d < base
      → read_from acc (cs ++ char d ∷ []) ≡ some (n * base + d)
  read_from-snoc [] acc n d h small =
      rw (value-char d small) (ap (λ x. some (x * base + d)) (some_same h))
  read_from-snoc (c ∷ cs) acc n d h small = elim (Option-cases (value c)) [
    | inl e ↦ absurd (cc (sym (ap (λ v. v >>= λ x. read_from (acc * base + x) cs) e) ∙ h))
    | inr (x, e) ↦ rw e (
        read_from-snoc cs (acc * base + x) n d
          (sym (ap (λ v. v >>= λ y. read_from (acc * base + y) cs) e) ∙ h) small)
  ]

  quot_positive : (n : ℕ) → (n / base == 0) ≡ false → 0 < n
  quot_positive n e = elim (ℕ_discrete n 0) [
    | yes z ↦ absurd (cc (sym e ∙ (ap (λ x. x / base == 0) z ∙ eq→== (0 / base) 0 (zero-div base))))
    | no m ↦ omega arith
  ]

  pub read_from-render : (fuel n : ℕ) → n < fuel → read_from 0 (reverse (render fuel n)) ≡ some n
  read_from-render zero n h = absurd (omega arith)
  read_from-render (suc fuel) n h = elim (Bool-cases (n / base == 0)) [
    | inl e ↦ rw (e, value-char (n % base) digit) (ap some (lowest e))
    | inr e ↦ rw e (
        read_from-snoc (reverse (render fuel (n / base))) 0 (n / base) (n % base)
          (read_from-render fuel (n / base) (smaller e)) digit
        ∙ ap some (div-add-mod' n base))
  ]
    where
      digit : n % base < base
      digit = mod-lt n (omega arith)

      lowest : (n / base == 0) ≡ true → 0 * base + n % base ≡ n
      lowest e =
          ap (λ q. q * base + n % base) (sym ((==_iff (n / base) 0).0 e)) ∙ div-add-mod' n base

      smaller : (n / base == 0) ≡ false → n / base < fuel
      smaller e = omega (arith, div-lt_self (quot_positive n e) base_large)

  pub length-render : (fuel n k : ℕ) → n < base ^ suc k → length (render fuel n) ≤ suc k
  length-render zero n k h = omega arith
  length-render (suc fuel) n k h = elim (Bool-cases (n / base == 0)) [
    | inl e ↦ rw e (omega arith)
    | inr e ↦ rw e (go k h e (length-render fuel (n / base)))
  ]
    where
      go :
          (k : ℕ)
          → n < base ^ suc k
          → (n / base == 0) ≡ false
          → ((j : ℕ) → n / base < base ^ suc j → length (render fuel (n / base)) ≤ suc j)
          → suc (length (render fuel (n / base))) ≤ suc k
      go zero h e ih =
          absurd
            (cc (sym e ∙ eq→== (n / base) 0 (div-eq_of_lt (subst (λ x. n < x) (pow-one base) h))))
      go (suc k) h e ih = omega (
        arith,
        ih k ((div-lt_iff_lt-mul (omega arith)).1 (subst (λ x. n < x) (pow-suc base (suc k)) h)),
      )
