-- ===== src/LogStream/Convert.antt =====
-- `convert` and `convertHex` write the numeral of their argument.
use muduo.Base.{
  false, ℕ, zero, suc, ◌+◌, ◌/◌, ◌%◌, ◌<◌, Option, none, some, List, [], ◌∷◌, ◌++◌, append-nil,
  length, ◌==◌, ==_iff, ◌≡◌, refl, sym, ap, ◌∙◌, if◌then◌else◌, ◌>>=◌, Bool-cases, inl, inr, arith,
}
use muduo.Base.Int.{ℤ, pos, negsuc}
use muduo.LogStream.{
  at_zero, neg, rem_10, quot_10, is_zero, convert_loop, reverse, convert, convert_hex_loop,
  convert_hex,
}
use muduo.LogStream.Digits.{Numerals, render, read_from, read_from-render, length-reverse}
use muduo.LogStream.Characters.{decimal, hexadecimal, at_zero-pos, at_zero-neg, digits_hex-at}

-- The numbers of one sign.
record Sign : Type 0 where
  of : ℕ → ℤ
  rem : (n : ℕ) → rem_10 (of n) ≡ of (n % 10)
  quot : (n : ℕ) → quot_10 (of n) ≡ of (n / 10)
  zero_test : (n : ℕ) → is_zero (of n) ≡ (n == 0)
  at : (d : ℕ) → d < 10 → at_zero (of d) ≡ some (b'0' + d)

is_zero-neg : (n : ℕ) → is_zero (neg n) ≡ (n == 0)
is_zero-neg zero = refl
is_zero-neg (suc n) = ground arith

abbrev plus : Sign
plus = record {
  of = pos;
  rem = λ n. refl;
  quot = λ n. refl;
  zero_test = λ n. refl;
  at = at_zero-pos;
}

abbrev minus : Sign
minus = record { of = neg; rem = rems; quot = quots; zero_test = is_zero-neg; at = at_zero-neg }
  where
    rems : (n : ℕ) → rem_10 (neg n) ≡ neg (n % 10)
    rems zero = refl
    rems (suc n) = refl

    quots : (n : ℕ) → quot_10 (neg n) ≡ neg (n / 10)
    quots zero = refl
    quots (suc n) = refl

convert_loop-render :
    (s : Sign) (fuel n : ℕ) → n < fuel → convert_loop fuel (s.of n) ≡ some (render decimal fuel n)
unfolding convert_loop
convert_loop-render s zero n h = absurd (omega arith)
convert_loop-render s (suc fuel) n h =
    rw (s.rem n, s.at (n % 10) (omega arith), s.quot n, s.zero_test (n / 10))
      (elim (Bool-cases (n / 10 == 0)) [
        | inl e ↦ rw e refl
        | inr e ↦ rw (e, convert_loop-render s fuel (n / 10) (smaller e)) refl
      ])
  where
    smaller : (n / 10 == 0) ≡ false → n / 10 < fuel
    smaller e = ground arith

convert_hex_loop-render :
    (fuel n : ℕ) → n < fuel → convert_hex_loop fuel n ≡ some (render hexadecimal fuel n)
unfolding convert_hex_loop
convert_hex_loop-render zero n h = absurd (omega arith)
convert_hex_loop-render (suc fuel) n h =
    rw (digits_hex-at (n % 16) (omega arith)) (elim (Bool-cases (n / 16 == 0)) [
      | inl e ↦ rw e refl
      | inr e ↦ rw (e, convert_hex_loop-render fuel (n / 16) (smaller e)) refl
    ])
  where
    smaller : (n / 16 == 0) ≡ false → n / 16 < fuel
    smaller e = ground arith

-- The numeral of a number, the highest digit first.
abbrev pub numeral : Numerals → ℕ → List ℕ
numeral num n = reverse (render num (suc n) n)

reverse-snoc : (xs : List ℕ) (c : ℕ) → reverse (xs ++ c ∷ []) ≡ c ∷ reverse xs
reverse-snoc [] c = refl
reverse-snoc (x ∷ xs) c = ap (λ ys. ys ++ x ∷ []) (reverse-snoc xs c)

pub convert-pos : (n : ℕ) → convert (pos n) ≡ some (numeral decimal n)
unfolding convert
convert-pos n =
    rw (convert_loop-render plus (suc n) n (omega arith))
      (ap (λ cs. some (reverse cs)) (append-nil (render decimal (suc n) n)))

pub convert-negsuc : (n : ℕ) → convert (negsuc n) ≡ some (b'-' ∷ numeral decimal (suc n))
unfolding convert
convert-negsuc n =
    rw
      (
        convert_loop-render minus (suc (suc n)) (suc n) (omega arith),
        reverse-snoc (render decimal (suc (suc n)) (suc n)) b'-',
      )
      refl

pub convert_hex-numeral : (n : ℕ) → convert_hex n ≡ some (numeral hexadecimal n)
unfolding convert_hex
convert_hex-numeral n = rw (convert_hex_loop-render (suc n) n (omega arith)) refl

-- A decimal number as people write it, with a sign before it where it is negative.
abbrev pub read_int : List ℕ → Option ℤ
read_int [] = none
read_int (c ∷ cs) =
    if c == b'-'
    then (read_from decimal 0 cs >>= λ n. some (neg n))
    else (read_from decimal 0 (c ∷ cs) >>= λ n. some (pos n))

read_int-pos :
    (cs : List ℕ) (n : ℕ)
    → 0 < length cs
    → read_from decimal 0 cs ≡ some n
    → read_int cs ≡ some (pos n)
read_int-pos [] n h e = absurd (omega arith)
read_int-pos (c ∷ cs) n h e = elim (Bool-cases (c == b'-')) [
  | inl m ↦ absurd (cc (ap (λ x. read_from decimal 0 (x ∷ cs)) (sym ((==_iff c b'-').0 m)) ∙ e))
  | inr m ↦ rw (m, e) refl
]

length-numeral : (num : Numerals) (n : ℕ) → 0 < length (numeral num n)
length-numeral num n = omega (arith, length-reverse (render num (suc n) n))

-- Every integer, of whatever width, is written so that it reads as itself.
pub convert-read_int :
    (value : ℤ) → (cs : List ℕ) × (convert value ≡ some cs) × (read_int cs ≡ some value)
convert-read_int (pos n) = (
  numeral decimal n,
  convert-pos n,
  read_int-pos (numeral decimal n) n (length-numeral decimal n)
      (read_from-render decimal (suc n) n (omega arith)),
)
convert-read_int (negsuc n) = (
  b'-' ∷ numeral decimal (suc n),
  convert-negsuc n,
  rw (read_from-render decimal (suc (suc n)) (suc n) (omega arith)) refl,
)

pub convert_hex-read_from :
    (value : ℕ)
    → (cs : List ℕ) × (convert_hex value ≡ some cs) × (read_from hexadecimal 0 cs ≡ some value)
convert_hex-read_from value = (
  numeral hexadecimal value,
  convert_hex-numeral value,
  read_from-render hexadecimal (suc value) value (omega arith),
)
