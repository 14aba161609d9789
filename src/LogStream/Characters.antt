-- ===== src/LogStream/Characters.antt =====
-- The characters of digits, and the tables of the code.
use muduo.Base.{
  ◌&&◌, ℕ, zero, suc, ◌+◌, ◌-◌, ◌<◌, Option, none, some, get_elem?, ltb, leb, ◌≡◌, refl,
  if◌then◌else◌, arith,
}
use muduo.Base.Int.{pos}
use muduo.LogStream.{at_zero, neg, digits_hex}
use muduo.LogStream.Digits.{Numerals}

abbrev pub digit_value : ℕ → Option ℕ
digit_value c = if leb b'0' c && leb c b'9' then some (c - b'0') else none

abbrev pub hex_char : ℕ → ℕ
hex_char d = if ltb d 10 then b'0' + d else 55 + d

abbrev pub hex_value : ℕ → Option ℕ
hex_value c = if leb b'A' c && leb c b'F' then some (c - 55) else digit_value c

pub digit_value-char : (d : ℕ) → d < 10 → digit_value (b'0' + d) ≡ some d
digit_value-char d h = ground arith

pub hex_value-char : (d : ℕ) → d < 16 → hex_value (hex_char d) ≡ some d
hex_value-char d h = ground arith

abbrev pub decimal : Numerals
decimal = record {
  base = 10;
  char = λ d. b'0' + d;
  value = digit_value;
  base_large = omega arith;
  value-char = digit_value-char;
}

abbrev pub hexadecimal : Numerals
hexadecimal = record {
  base = 16;
  char = hex_char;
  value = hex_value;
  base_large = omega arith;
  value-char = hex_value-char;
}

-- Every number below `n`.
abbrev Below : ℕ → (ℕ → Type 0) → Type 0
Below zero P = Unit
Below (suc n) P = (_ : P 0) × Below n (λ d. P (suc d))

below : (n : ℕ) (P : ℕ → Type 0) → Below n P → (d : ℕ) → d < n → P d
below zero P all d h = absurd (omega arith)
below (suc n) P (first, rest) zero h = first
below (suc n) P (first, rest) (suc d) h = below n (λ x. P (suc x)) rest d (omega arith)

pub at_zero-pos : (d : ℕ) → d < 10 → at_zero (pos d) ≡ some (b'0' + d)
at_zero-pos =
    below 10 (λ d. at_zero (pos d) ≡ some (b'0' + d))
      (refl, (refl, (refl, (refl, (refl, (refl, (refl, (refl, (refl, (refl, tt))))))))))

pub at_zero-neg : (d : ℕ) → d < 10 → at_zero (neg d) ≡ some (b'0' + d)
at_zero-neg =
    below 10 (λ d. at_zero (neg d) ≡ some (b'0' + d))
      (refl, (refl, (refl, (refl, (refl, (refl, (refl, (refl, (refl, (refl, tt))))))))))

pub digits_hex-at : (d : ℕ) → d < 16 → get_elem? digits_hex d ≡ some (hex_char d)
digits_hex-at =
    below 16 (λ d. get_elem? digits_hex d ≡ some (hex_char d))
      (
        refl,
        (
          refl,
          (
            refl,
            (
              refl,
              (
                refl,
                (
                  refl,
                  (
                    refl,
                    (refl, (refl, (refl, (refl, (refl, (refl, (refl, (refl, (refl, tt))))))))),
                  ),
                ),
              ),
            ),
          ),
        ),
      )
