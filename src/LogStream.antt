-- ===== src/LogStream.antt =====
-- muduo/base/LogStream.cc and LogStream.h: the conversions of integers to text, the buffer of fixed
-- size, and the operators. `none` is an access outside an array, or that fuel has run out.
pub mod Digits
pub mod Characters
pub mod Convert
pub mod Write
pub mod Stream
mod Tests
use muduo.Base.{
  Bool, true, false, ℕ, zero, suc, ◌+◌, ◌-◌, ◌/◌, ◌%◌, Option, none, some, List, [], ◌∷◌, ◌++◌,
  length, take, drop, get_elem?, ltb, leb, ◌==◌, if◌then◌else◌, ◌>>=◌,
}
use muduo.Base.Int.{ℤ, pos, negsuc}

abbrev pub digits : List ℕ
digits =
    b'9' ∷ b'8' ∷ b'7' ∷ b'6' ∷ b'5' ∷ b'4' ∷ b'3' ∷ b'2' ∷ b'1' ∷ b'0' ∷ b'1' ∷ b'2' ∷ b'3' ∷ b'4'
    ∷ b'5' ∷ b'6' ∷ b'7' ∷ b'8' ∷ b'9' ∷ []

abbrev pub digits_hex : List ℕ
digits_hex =
    b'0' ∷ b'1' ∷ b'2' ∷ b'3' ∷ b'4' ∷ b'5' ∷ b'6' ∷ b'7' ∷ b'8' ∷ b'9' ∷ b'A' ∷ b'B' ∷ b'C' ∷ b'D'
    ∷ b'E' ∷ b'F' ∷ []

-- `zero[lsd]`, where `zero` points to the element 9 of `digits`
abbrev pub at_zero : ℤ → Option ℕ
at_zero (pos n) = get_elem? digits (9 + n)
at_zero (negsuc n) = if ltb n 9 then get_elem? digits (9 - suc n) else none

-- The negative of a number.
abbrev pub neg : ℕ → ℤ
neg zero = pos 0
neg (suc n) = negsuc n

-- `i % 10` and `i / 10`, which C++ rounds towards 0
abbrev pub rem_10 : ℤ → ℤ
rem_10 (pos n) = pos (n % 10)
rem_10 (negsuc n) = neg (suc n % 10)

abbrev pub quot_10 : ℤ → ℤ
quot_10 (pos n) = pos (n / 10)
quot_10 (negsuc n) = neg (suc n / 10)

abbrev pub is_zero : ℤ → Bool
is_zero (pos n) = n == 0
is_zero (negsuc n) = false

abbrev pub is_negative : ℤ → Bool
is_negative (pos n) = false
is_negative (negsuc n) = true

abbrev pub magnitude : ℤ → ℕ
magnitude (pos n) = n
magnitude (negsuc n) = suc n

-- The loop of `convert`: the characters in the order in which it writes them.
unfoldable pub convert_loop : ℕ → ℤ → Option (List ℕ)
convert_loop zero i = none
convert_loop (suc fuel) i =
    let rest = convert_loop fuel (quot_10 i) in
    do c ← at_zero (rem_10 i); cs ← if is_zero (quot_10 i) then some [] else rest; some (c ∷ cs)

-- `std::reverse`
abbrev pub reverse : List ℕ → List ℕ
reverse [] = []
reverse (c ∷ cs) = reverse cs ++ c ∷ []

-- The bytes before the '\0' that `convert` leaves in its buffer.
unfoldable pub convert : ℤ → Option (List ℕ)
unfolding convert_loop
convert value = do
  cs ← convert_loop (suc (magnitude value)) value
  some (reverse (cs ++ (if is_negative value then b'-' ∷ [] else [])))

unfoldable pub convert_hex_loop : ℕ → ℕ → Option (List ℕ)
convert_hex_loop zero i = none
convert_hex_loop (suc fuel) i =
    let rest = convert_hex_loop fuel (i / 16) in
    do c ← get_elem? digits_hex (i % 16); cs ← if i / 16 == 0 then some [] else rest; some (c ∷ cs)

unfoldable pub convert_hex : ℕ → Option (List ℕ)
unfolding convert_hex_loop
convert_hex value = do cs ← convert_hex_loop (suc value) value; some (reverse cs)

-- `FixedBuffer<SIZE>`: `cur` is the offset `cur_ - data_`.
pub record FixedBuffer : Type 0 where
  pub data_ : List ℕ
  pub cur : ℕ

-- Bytes written at an offset of the array: `none` outside it.
abbrev pub write_at : ℕ → List ℕ → List ℕ → Option (List ℕ)
write_at i bytes xs =
    if leb (i + length bytes) (length xs)
    then some (take i xs ++ (bytes ++ drop (i + length bytes) xs))
    else none

abbrev pub k_small_buffer : ℕ
k_small_buffer = 4000

abbrev pub k_max_numeric_size : ℕ
k_max_numeric_size = 32

abbrev pub avail : FixedBuffer → ℕ
avail b = length b.data_ - b.cur

abbrev pub content : FixedBuffer → List ℕ
content b = take b.cur b.data_

abbrev pub add : ℕ → FixedBuffer → FixedBuffer
add len b = record b { cur = b.cur + len }

-- The bytes stand in memory from `current()` on.
abbrev pub write_current : List ℕ → FixedBuffer → Option FixedBuffer
write_current bytes b = do xs ← write_at b.cur bytes b.data_; some (record b { data_ = xs })

unfoldable pub append : List ℕ → FixedBuffer → Option FixedBuffer
append buf b =
    if ltb (length buf) (avail b)
    then (do b' ← write_current buf b; some (add (length buf) b'))
    else some b

abbrev pub reset : FixedBuffer → FixedBuffer
reset b = record b { cur = 0 }

-- `debugString`
unfoldable pub debug_string : FixedBuffer → Option FixedBuffer
debug_string b = write_current (0 ∷ []) b

unfoldable pub format_integer : ℤ → FixedBuffer → Option FixedBuffer
unfolding convert
format_integer v b =
    if leb k_max_numeric_size (avail b)
    then (do cs ← convert v; b' ← write_current (cs ++ 0 ∷ []) b; some (add (length cs) b'))
    else some b

-- `operator<<(const void*)`
unfoldable pub put_pointer : ℕ → FixedBuffer → Option FixedBuffer
unfolding convert_hex
put_pointer v b =
    if leb k_max_numeric_size (avail b)
    then (do
      cs ← convert_hex v
      b' ← write_current (b'0' ∷ b'x' ∷ (cs ++ 0 ∷ [])) b
      some (add (length cs + 2) b'))
    else some b

-- `operator<<(bool)`
abbrev pub put_bool : Bool → FixedBuffer → Option FixedBuffer
put_bool v b = append (if v then b'1' ∷ [] else b'0' ∷ []) b

-- `operator<<(const char*)`: `none` is the null pointer.
abbrev pub put_string : Option (List ℕ) → FixedBuffer → Option FixedBuffer
put_string (some str) b = append str b
put_string none b = append (b'(' ∷ b'n' ∷ b'u' ∷ b'l' ∷ b'l' ∷ b')' ∷ []) b

-- What a program writes to a stream.
pub data Item : Type 0 where
  integer : ℤ → Item
  pointer : ℕ → Item
  boolean : Bool → Item
  text : Option (List ℕ) → Item

abbrev pub put : Item → FixedBuffer → Option FixedBuffer
put (integer v) b = format_integer v b
put (pointer v) b = put_pointer v b
put (boolean v) b = put_bool v b
put (text v) b = put_string v b

unfoldable pub put_all : List Item → FixedBuffer → Option FixedBuffer
put_all [] b = some b
put_all (item ∷ items) b = do b' ← put item b; put_all items b'

-- A new stream, over whatever the memory holds.
abbrev pub new_stream : List ℕ → FixedBuffer
new_stream memory = record { data_ = memory; cur = 0 }
