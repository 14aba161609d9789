-- ===== src/Buffer/Content.antt =====
-- What a buffer stands for: its readable bytes, and the order of its indices.
use muduo.Base.{
  ℕ, ◌-◌, ◌≤◌, ◌≡◌, sym, List, arith, length, take, drop, slice, length-slice, take_fewer,
}
use muduo.Base.Size.{sub_size}
use muduo.Buffer.{Buffer, max_size, cheap_prepend, readable_bytes, writable_bytes, peek_bytes}

-- 0 <= readerIndex <= writerIndex <= size, and the vector has the prependable bytes.
pub record IsValid (b : Buffer) : Type 0 where
  pub ordered : b.reader_index ≤ b.writer_index
  pub within : b.writer_index ≤ length b.buffer
  pub header : cheap_prepend ≤ length b.buffer
  pub sized : length b.buffer ≤ max_size

abbrev pub contents : Buffer → List ℕ
contents b = slice b.reader_index b.writer_index b.buffer

module _ {b : Buffer} (v : IsValid b) where
  pub readable_bytes-eq : readable_bytes b ≡ b.writer_index - b.reader_index
  unfolding readable_bytes sub_size
  readable_bytes-eq = omega arith

  pub writable_bytes-eq : writable_bytes b ≡ length b.buffer - b.writer_index
  unfolding writable_bytes sub_size
  writable_bytes-eq = omega arith

  pub length-contents : length (contents b) ≡ b.writer_index - b.reader_index
  length-contents = length-slice b.reader_index b.writer_index b.buffer v.within

  pub peek_bytes-contents : peek_bytes (readable_bytes b) b ≡ contents b
  unfolding peek_bytes
  peek_bytes-contents = rw readable_bytes-eq

  pub peek_bytes-take : (n : ℕ) → n ≤ length (contents b) → peek_bytes n b ≡ take n (contents b)
  unfolding peek_bytes
  peek_bytes-take n h = sym (
      take_fewer n (b.writer_index - b.reader_index) (drop b.reader_index b.buffer)
        (omega (arith, length-contents)))
