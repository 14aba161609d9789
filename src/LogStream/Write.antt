-- ===== src/LogStream/Write.antt =====
-- Writes at the end of the buffer, and the length of numerals.
use muduo.Base.{
  ℕ, suc, ◌+◌, ◌^◌, ◌<◌, ◌≤◌, some, List, ◌++◌, append_assoc, length, length-append, length-take,
  length-drop, take, drop, take-append_length, le→leb, ◌≡◌, refl, sym, ap, ◌∙◌, arith,
}
use muduo.LogStream.{FixedBuffer, content, add, write_current}
use muduo.LogStream.Digits.{Numerals, render, length-render, length-reverse}
use muduo.LogStream.Convert.{numeral}

-- One byte at least is free.
abbrev pub IsOpen : FixedBuffer → Type 0
IsOpen b = b.cur < length b.data_

-- The bytes `cs` have been added, and one byte at least is still free.
pub record IsExtended (b : FixedBuffer) (cs : List ℕ) (b' : FixedBuffer) : Type 0 where
  pub open_ : IsOpen b'
  pub same_size : length b'.data_ ≡ length b.data_
  pub content : content b' ≡ content b ++ cs

module _ (b : FixedBuffer) (cs tail : List ℕ)
    (room : b.cur + length (cs ++ tail) ≤ length b.data_) where
  abbrev pub written : FixedBuffer
  written = record b {
    data_ = take b.cur b.data_ ++ ((cs ++ tail) ++ drop (b.cur + length (cs ++ tail)) b.data_);
  }

  pub write_current-written : write_current (cs ++ tail) b ≡ some written
  write_current-written = rw (le→leb (b.cur + length (cs ++ tail)) (length b.data_) room) refl

  pub length-written : length written.data_ ≡ length b.data_
  length-written = omega (
    arith,
    length-append (take b.cur b.data_) ((cs ++ tail) ++ drop (b.cur + length (cs ++ tail)) b.data_),
    length-append (cs ++ tail) (drop (b.cur + length (cs ++ tail)) b.data_),
    length-take b.cur b.data_,
    length-drop (b.cur + length (cs ++ tail)) b.data_,
  )

  pub content-written : take (b.cur + length cs) written.data_ ≡ content b ++ cs
  content-written =
      let rest = drop (b.cur + length (cs ++ tail)) b.data_ in
      ap (take (b.cur + length cs)) (
        ap (λ xs. content b ++ xs) (append_assoc cs tail rest)
        ∙ sym (append_assoc (content b) cs (tail ++ rest)))
      ∙ take-append_length (b.cur + length cs) (content b ++ cs) (tail ++ rest) (
          omega
            (arith, length-append (content b) cs, length-take b.cur b.data_, length-append cs tail))

  -- A write at the end that stays in the array, and the step behind the bytes that count.
  pub written-IsExtended :
      (len : ℕ)
      → len ≡ length cs
      → b.cur + length cs < length b.data_
      → (b' : FixedBuffer) × (write_current (cs ++ tail) b ≡ some b') × IsExtended b cs (add len b')
  written-IsExtended len e small = (
    written,
    write_current-written,
    record {
      open_ = omega (arith, length-written);
      same_size = length-written;
      content = ap (λ n. take (b.cur + n) written.data_) e ∙ content-written;
    },
  )

pub length-numeral :
    (num : Numerals) (n k : ℕ) → n < num.base ^ suc k → length (numeral num n) ≤ suc k
length-numeral num n k h =
    omega (arith, length-reverse (render num (suc n) n), length-render num (suc n) n k h)
