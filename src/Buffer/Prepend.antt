-- ===== src/Buffer/Prepend.antt =====
-- `prepend` and `shrink`, and a new buffer.
use muduo.Base.{
  none, ℕ, ◌+◌, ◌-◌, ◌^◌, ◌%◌, ◌≤◌, ◌<◌, ◌≡◌, refl, ap, ◌∙◌, List, [], ◌++◌, arith, length, take,
  drop, replicate, slice, Gives, >>=-Gives, le→leb, lt→ltb, gt→leb, eq→==, length-replicate,
  slice_prepend, subst,
}
use muduo.Base.Size.{add_size, add_size-eq, sub_size-eq}
use muduo.Buffer.{
  Buffer, cheap_prepend, initial_size, max_size, readable_bytes, prependable_bytes, new, prepend,
  to_string_piece, shrink, ensure_writable_bytes, peek_bytes, append,
}
use muduo.Buffer.Content.{IsValid, contents, readable_bytes-eq, writable_bytes-eq, length-contents}
use muduo.Buffer.Append.{Holds, append-Holds}
use muduo.Buffer.Room.{HasRoom, copy_to-Gives, length-copied, ensure_writable_bytes-Gives}

module _ {b : Buffer} (v : IsValid b) where
  -- `prepend` puts the bytes before the readable ones, where there is space for them.
  pub prepend-Holds :
      (ds : List ℕ) → length ds ≤ b.reader_index → Gives (prepend ds b) (Holds (ds ++ contents b))
  unfolding prepend prependable_bytes
  prepend-Holds ds h = (
    record b {
      buffer = take start b.buffer ++ (ds ++ drop (start + length ds) b.buffer);
      reader_index = start;
    },
    rw (
      le→leb (length ds) b.reader_index h,
      sub_size-eq b.reader_index (length ds) h (omega (arith, v.ordered, v.within, v.sized)),
      copy_to-Gives start ds b.buffer (omega (arith, h, v.ordered, v.within)),
    ),
    record {
      valid = record {
        ordered = omega (arith, v.ordered);
        within = omega (arith, v.within, size);
        header = omega (arith, v.header, size);
        sized = omega (arith, v.sized, size);
      };
      holds =
          slice_prepend start (length ds) b.writer_index b.buffer ds (omega (arith, h, v.ordered))
            v.within refl
          ∙ ap (λ i. ds ++ slice i b.writer_index b.buffer) back;
    },
  )
    where
      start : ℕ
      start = b.reader_index - length ds

      back : b.reader_index - length ds + length ds ≡ b.reader_index
      back = omega arith

      size :
          length (take start b.buffer ++ (ds ++ drop (start + length ds) b.buffer))
          ≡ length b.buffer
      size = length-copied start ds b.buffer (omega (arith, h, v.ordered, v.within))

  -- It stops the program, by its assertion, where there is not.
  pub prepend_too_much : (ds : List ℕ) → b.reader_index < length ds → prepend ds b ≡ none
  unfolding prepend prependable_bytes
  prepend_too_much ds h = rw (gt→leb (length ds) b.reader_index h)

-- A new buffer is empty, with the prependable bytes before it.
pub new-Holds :
    (n : ℕ)
    → n + cheap_prepend ≤ max_size
    → Gives (new n) (λ b.
      Holds [] b
      × (b.reader_index ≡ cheap_prepend)
      × (b.writer_index ≡ cheap_prepend)
      × (length b.buffer ≡ cheap_prepend + n))
unfolding new prependable_bytes
new-Holds n h = (
  fresh,
  rw (
    add_size-eq cheap_prepend n (omega arith),
    readable_bytes-eq valid,
    writable_bytes-eq valid,
    eq→== (length fresh.buffer - cheap_prepend) n (omega (arith, size)),
  ),
  (record { valid = valid; holds = refl }, refl, refl, size),
)
  where
    fresh : Buffer
    fresh = record {
      buffer = replicate (cheap_prepend + n) 0;
      reader_index = cheap_prepend;
      writer_index = cheap_prepend;
    }

    size : length fresh.buffer ≡ cheap_prepend + n
    size = length-replicate {A = ℕ} (cheap_prepend + n) 0

    valid : IsValid fresh
    valid = record {
      ordered = omega arith;
      within = omega (arith, size);
      header = omega (arith, size);
      sized = omega (arith, size);
    }

-- `shrink` moves the bytes to a new buffer, with the space that was asked for. The cast to `int`
-- in `toStringPiece` bounds the readable bytes.
pub shrink-Holds :
    {b : Buffer} (v : IsValid b) (reserve : ℕ)
    → length (contents b) < 2 ^ 31
    → cheap_prepend + length (contents b) + reserve ≤ max_size
    → Gives (shrink reserve b) (Holds (contents b))
unfolding shrink to_string_piece peek_bytes
shrink-Holds {b} v reserve small fits =
    >>=-Gives _ (Holds (contents b)) _ (new-Holds initial_size (omega arith)) λ other h.
      >>=-Gives (HasRoom other total) (Holds (contents b))
        {m = ensure_writable_bytes (add_size (readable_bytes b) reserve) other} _
        (rw (readable_bytes-eq v, add_size-eq readable reserve few)
          (ensure_writable_bytes-Gives h.0.valid total (omega (arith, h.2, length-contents v))))
        λ other' r.
          rw
            (
              readable_bytes-eq v,
              narrow,
              lt→ltb readable (2 ^ 31) (omega (arith, length-contents v)),
            )
            (subst (λ ds. Gives (append (contents b) other') (Holds ds))
              (ap (λ ds. ds ++ contents b) (r.same ∙ h.0.holds))
              (append-Holds r.valid (contents b)
                (omega (arith, r.room, r.valid, length-contents v))))
  where
    readable : ℕ
    readable = b.writer_index - b.reader_index

    total : ℕ
    total = readable + reserve

    few : readable + reserve < 2 ^ 64
    few = omega (arith, length-contents v)

    narrow : readable % 2 ^ 32 ≡ readable
    narrow = omega (arith, length-contents v)
