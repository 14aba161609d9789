-- ===== src/Buffer.antt =====
-- muduo/net/Buffer.h and Buffer.cc: the byte buffer of a connection. A `Buffer` is the vector
-- `buffer_` (every byte of it, prependable and writable space included) with its two indices.
-- A pointer into the buffer is its offset from `begin()`. `none` is a failed `assert`, the
-- exception of `vector::resize`, or a copy outside the vector.
pub mod Content
pub mod Room
pub mod Append
pub mod Retrieve
pub mod Prepend
pub mod ReadFd
pub mod Ints
pub mod Find
pub mod Tests
use muduo.Base.{
  ℕ, ◌+◌, ◌-◌, ◌%◌, ◌^◌, Option, some, List, ◌++◌, length, take, drop, replicate, ltb, leb, ◌==◌,
  if◌then◌else◌, ◌>>=◌, ◌>>◌, assert,
}
use muduo.Base.Size.{add_size, sub_size}

pub record Buffer : Type 0 where
  pub buffer : List ℕ
  pub reader_index : ℕ
  pub writer_index : ℕ

abbrev pub cheap_prepend : ℕ
cheap_prepend = 8

abbrev pub initial_size : ℕ
initial_size = 1024

-- `vector<char>::max_size()`
abbrev pub max_size : ℕ
max_size = 2 ^ 63 - 1

unfoldable pub readable_bytes : Buffer → ℕ
readable_bytes b = sub_size b.writer_index b.reader_index

unfoldable pub writable_bytes : Buffer → ℕ
writable_bytes b = sub_size (length b.buffer) b.writer_index

unfoldable pub prependable_bytes : Buffer → ℕ
prependable_bytes b = b.reader_index

-- The constructor, with its three assertions.
unfoldable pub new : ℕ → Option Buffer
new initial = do
  let b : Buffer = record {
    buffer = replicate (add_size cheap_prepend initial) 0;
    reader_index = cheap_prepend;
    writer_index = cheap_prepend;
  }
  assert (readable_bytes b == 0)
  assert (writable_bytes b == initial)
  assert (prependable_bytes b == cheap_prepend)
  some b

-- `buffer_.resize(n)`: new elements are 0; too large a size throws.
unfoldable pub resize : ℕ → List ℕ → Option (List ℕ)
resize n xs = do assert (leb n max_size); some (take n xs ++ replicate (n - length xs) 0)

-- `std::copy` of `ds` to the offset `i`, which must stay in the vector.
unfoldable pub copy_to : ℕ → List ℕ → List ℕ → Option (List ℕ)
copy_to i ds xs = do
  assert (leb (i + length ds) (length xs))
  some (take i xs ++ (ds ++ drop (i + length ds) xs))

unfoldable pub retrieve_all : Buffer → Buffer
retrieve_all b = record b { reader_index = cheap_prepend; writer_index = cheap_prepend }

unfoldable pub retrieve : ℕ → Buffer → Option Buffer
retrieve len b = do
  assert (leb len (readable_bytes b))
  some (
      if ltb len (readable_bytes b)
      then record b { reader_index = add_size b.reader_index len }
      else retrieve_all b)

-- `end` is the offset of the pointer from `begin()`.
unfoldable pub retrieve_until : ℕ → Buffer → Option Buffer
retrieve_until end b = do
  assert (leb b.reader_index end)
  assert (leb end b.writer_index)
  retrieve (end - b.reader_index) b

-- `string(peek(), len)`
unfoldable pub peek_bytes : ℕ → Buffer → List ℕ
peek_bytes len b = take len (drop b.reader_index b.buffer)

unfoldable pub retrieve_as_string : ℕ → Buffer → Option (List ℕ × Buffer)
retrieve_as_string len b = do
  assert (leb len (readable_bytes b))
  b' ← retrieve len b
  some (peek_bytes len b, b')

unfoldable pub retrieve_all_as_string : Buffer → Option (List ℕ × Buffer)
retrieve_all_as_string b = retrieve_as_string (readable_bytes b) b

-- Grow the vector, or move the readable bytes to the front of it.
unfoldable pub make_space : ℕ → Buffer → Option Buffer
make_space len b =
    if ltb (add_size (writable_bytes b) (prependable_bytes b)) (add_size len cheap_prepend)
    then (do
      grown ← resize (add_size b.writer_index len) b.buffer
      some (record b { buffer = grown }))
    else (do
      assert (ltb cheap_prepend b.reader_index)
      let readable = readable_bytes b
      moved ← copy_to cheap_prepend (peek_bytes readable b) b.buffer
      let b' : Buffer = record {
        buffer = moved;
        reader_index = cheap_prepend;
        writer_index = add_size cheap_prepend readable;
      }
      assert (readable == readable_bytes b')
      some b')

unfoldable pub ensure_writable_bytes : ℕ → Buffer → Option Buffer
ensure_writable_bytes len b = do
  b' ← if ltb (writable_bytes b) len then make_space len b else some b
  assert (leb len (writable_bytes b'))
  some b'

unfoldable pub has_written : ℕ → Buffer → Option Buffer
has_written len b = do
  assert (leb len (writable_bytes b))
  some (record b { writer_index = add_size b.writer_index len })

unfoldable pub unwrite : ℕ → Buffer → Option Buffer
unwrite len b = do
  assert (leb len (readable_bytes b))
  some (record b { writer_index = sub_size b.writer_index len })

unfoldable pub append : List ℕ → Buffer → Option Buffer
append ds b = do
  b₁ ← ensure_writable_bytes (length ds) b
  written ← copy_to b₁.writer_index ds b₁.buffer
  has_written (length ds) (record b₁ { buffer = written })

unfoldable pub prepend : List ℕ → Buffer → Option Buffer
prepend ds b = do
  assert (leb (length ds) (prependable_bytes b))
  let start = sub_size b.reader_index (length ds)
  written ← copy_to start ds b.buffer
  some (record b { buffer = written; reader_index = start })

-- `toStringPiece` casts the length to `int`. A negative one becomes, in the `append` that takes the
-- piece, a `size_t` above `max_size`, for which `resize` throws: `none`.
unfoldable pub to_string_piece : Buffer → Option (List ℕ)
to_string_piece b = do
  let len = readable_bytes b % 2 ^ 32
  assert (ltb len (2 ^ 31))
  some (peek_bytes len b)

unfoldable pub shrink : ℕ → Buffer → Option Buffer
shrink reserve b = do
  other ← new initial_size
  other' ← ensure_writable_bytes (add_size (readable_bytes b) reserve) other
  piece ← to_string_piece b
  append piece other'
