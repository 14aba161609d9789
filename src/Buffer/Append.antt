-- ===== src/Buffer/Append.antt =====
-- `append`.
use muduo.Base.{
  ℕ, ◌+◌, ◌-◌, ◌≤◌, ◌≡◌, refl, ap, ◌∙◌, some, List, ◌++◌, arith, length, take, drop, Gives,
  >>=-Gives, le→leb, subst, length-take, slice_extend, slice-take, ◌>>=◌,
}
use muduo.Base.Size.{add_size-eq}
use muduo.Buffer.{Buffer, max_size, cheap_prepend, copy_to, has_written, append}
use muduo.Buffer.Content.{IsValid, contents, writable_bytes-eq}
use muduo.Buffer.Room.{HasRoom, copy_to-Gives, length-copied, ensure_writable_bytes-Gives}

-- A buffer that holds these bytes.
pub record Holds (ds : List ℕ) (b : Buffer) : Type 0 where
  pub valid : IsValid b
  pub holds : contents b ≡ ds

abbrev pub overwrite : Buffer → List ℕ → Buffer
overwrite b ds = record b {
  buffer = take b.writer_index b.buffer ++ (ds ++ drop (b.writer_index + length ds) b.buffer);
}

module _ {b : Buffer} (v : IsValid b) (ds : List ℕ)
    (room : b.writer_index + length ds ≤ length b.buffer) where
  size : length (overwrite b ds).buffer ≡ length b.buffer
  size = length-copied b.writer_index ds b.buffer room

  written-IsValid : IsValid (overwrite b ds)
  written-IsValid = record {
    ordered = v.ordered;
    within = omega (arith, size, v.within);
    header = omega (arith, size, v.header);
    sized = omega (arith, size, v.sized);
  }

  pub extended-Holds :
      Holds
        (contents b ++ ds)
        (record (overwrite b ds) { writer_index = b.writer_index + length ds })
  extended-Holds = record {
    valid = record {
      ordered = omega (arith, v.ordered);
      within = omega (arith, size);
      header = omega (arith, size, v.header);
      sized = omega (arith, size, v.sized);
    };
    holds =
        slice_extend b.reader_index b.writer_index (length ds) (take b.writer_index b.buffer) ds
          (drop (b.writer_index + length ds) b.buffer) v.ordered
          (omega (arith, length-take b.writer_index b.buffer, v.within)) refl
        ∙ ap (λ c. c ++ ds) (slice-take b.reader_index b.writer_index b.buffer v.ordered);
  }

  -- `std::copy` to `beginWrite()`, then `hasWritten`.
  pub written-eq :
      (copy_to b.writer_index ds b.buffer >>= λ w.
      has_written (length ds) (record b { buffer = w }))
      ≡ some (record (overwrite b ds) { writer_index = b.writer_index + length ds })
  unfolding has_written
  written-eq = rw (
    copy_to-Gives b.writer_index ds b.buffer room,
    writable_bytes-eq written-IsValid,
    le→leb (length ds) (length (overwrite b ds).buffer - b.writer_index)
        (omega (arith, size, room)),
    add_size-eq b.writer_index (length ds) (omega (arith, v.sized)),
  )

-- `b'` holds these bytes, ends at most `n` bytes later, and keeps the prependable bytes.
pub record Extended (n : ℕ) (cs : List ℕ) (b b' : Buffer) : Type 0 where
  pub holds : Holds cs b'
  pub no_later : b'.writer_index ≤ b.writer_index + n
  pub front : cheap_prepend ≤ b.reader_index → cheap_prepend ≤ b'.reader_index

-- What is written behind a buffer to which `ensureWritableBytes` has given the room.
pub written-Extended :
    {b b₁ : Buffer} {m : ℕ} (ds : List ℕ)
    → HasRoom b m b₁
    → length ds ≤ m
    → Gives
        (copy_to b₁.writer_index ds b₁.buffer >>= λ w.
          has_written (length ds) (record b₁ { buffer = w }))
        (Extended (length ds) (contents b ++ ds) b)
written-Extended {b} {b₁} ds r few = (
  record (overwrite b₁ ds) { writer_index = b₁.writer_index + length ds },
  written-eq r.valid ds (omega (arith, r.room)),
  record {
    holds = rw (← r.same) (extended-Holds r.valid ds (omega (arith, r.room)));
    no_later = omega (arith, r.no_later);
    front = r.front;
  },
)

pub append-Extended :
    {b : Buffer} (v : IsValid b) (ds : List ℕ)
    → b.writer_index + length ds ≤ max_size
    → Gives (append ds b) (Extended (length ds) (contents b ++ ds) b)
unfolding append
append-Extended {b} v ds fits =
    >>=-Gives (HasRoom b (length ds)) (Extended (length ds) (contents b ++ ds) b) _
      (ensure_writable_bytes-Gives v (length ds) fits) (λ b' r. written-Extended ds r (omega arith))

-- `append` puts the bytes behind the readable ones. No assertion fails and no byte is written
-- outside the vector, as long as the vector may grow to that size.
pub append-Holds :
    {b : Buffer} (v : IsValid b) (ds : List ℕ)
    → b.writer_index + length ds ≤ max_size
    → Gives (append ds b) (Holds (contents b ++ ds))
append-Holds {b} v ds fits = (extended.0, extended.1, extended.2.holds)
  where
    extended : Gives (append ds b) (Extended (length ds) (contents b ++ ds) b)
    extended = append-Extended v ds fits

pub append-Holds_after :
    {b : Buffer} {cs : List ℕ} (ds : List ℕ)
    → Holds cs b
    → b.writer_index + length ds ≤ max_size
    → Gives (append ds b) (Holds (cs ++ ds))
append-Holds_after {b} {cs} ds h fits =
    subst (λ c. Gives (append ds b) (Holds (c ++ ds))) h.holds (append-Holds h.valid ds fits)
