-- ===== src/Buffer/Retrieve.antt =====
-- `retrieve` and its forms, and `unwrite`.
use muduo.Base.{
  none, ℕ, ◌+◌, ◌-◌, ◌≤◌, ◌<◌, ◌≡◌, refl, ap, sym, ◌∙◌, some, [], arith, inl, inr, length, take,
  drop, ltb, Gives, Bool-cases, le→leb, ltb→lt, ltb→ge, gt→leb, take_fewer, drop-drop, drop-take,
  drop_all, take_all,
}
use muduo.Base.Size.{add_size-eq, sub_size-eq}
use muduo.Buffer.{
  Buffer, peek_bytes, retrieve, retrieve_all, retrieve_until, retrieve_as_string,
  retrieve_all_as_string, unwrite,
}
use muduo.Buffer.Content.{IsValid, contents, readable_bytes-eq, length-contents}
use muduo.Buffer.Append.{Holds}

module _ {b : Buffer} (v : IsValid b) where
  -- An empty buffer takes its indices back to the start.
  pub retrieve_all-Holds : Holds [] (retrieve_all b)
  unfolding retrieve_all
  retrieve_all-Holds = record {
    valid = record { ordered = omega arith; within = v.header; header = v.header; sized = v.sized };
    holds = refl;
  }

  retrieve_some :
      (n : ℕ)
      → n < b.writer_index - b.reader_index
      → Holds (drop n (contents b)) (record b { reader_index = b.reader_index + n })
  retrieve_some n h = record {
    valid = record { ordered = omega arith; within = v.within; header = v.header; sized = v.sized };
    holds =
        ap (λ k. take k (drop (b.reader_index + n) b.buffer)) count
        ∙ ap (take (b.writer_index - b.reader_index - n))
            (sym (drop-drop n b.reader_index b.buffer))
        ∙ sym (drop-take n (b.writer_index - b.reader_index) (drop b.reader_index b.buffer));
  }
    where
      count : b.writer_index - (b.reader_index + n) ≡ b.writer_index - b.reader_index - n
      count = omega arith

  -- `retrieve` drops the bytes from the front.
  pub retrieve-Holds :
      (n : ℕ) → n ≤ length (contents b) → Gives (retrieve n b) (Holds (drop n (contents b)))
  unfolding retrieve
  retrieve-Holds n k = elim (Bool-cases (ltb n (b.writer_index - b.reader_index))) [
    | inl less ↦ (
      record b { reader_index = b.reader_index + n },
      rw (
        readable_bytes-eq v,
        less,
        le→leb n (b.writer_index - b.reader_index) (omega (arith, ltb→lt _ _ less)),
        add_size-eq b.reader_index n (omega (arith, ltb→lt _ _ less, v.within, v.sized)),
      ),
      retrieve_some n (ltb→lt _ _ less),
    )
    | inr all ↦ (
      retrieve_all b,
      rw (
        readable_bytes-eq v,
        all,
        le→leb n (b.writer_index - b.reader_index) (omega (arith, k, length-contents v)),
      ),
      rw (drop_all n (contents b) (omega (arith, ltb→ge _ _ all, length-contents v)))
          retrieve_all-Holds,
    )
  ]

  -- It stops the program, by its assertion, when there are fewer bytes than that.
  pub retrieve_too_much : (n : ℕ) → length (contents b) < n → retrieve n b ≡ none
  unfolding retrieve
  retrieve_too_much n h = rw (
    readable_bytes-eq v,
    gt→leb n (b.writer_index - b.reader_index) (omega (arith, h, length-contents v)),
  )

  -- `retrieveUntil` is given a pointer between `peek()` and `beginWrite()`.
  pub retrieve_until-Holds :
      (end : ℕ)
      → b.reader_index ≤ end
      → end ≤ b.writer_index
      → Gives (retrieve_until end b) (Holds (drop (end - b.reader_index) (contents b)))
  unfolding retrieve_until
  retrieve_until-Holds end lo hi =
      rw (le→leb b.reader_index end lo, le→leb end b.writer_index hi)
        (retrieve-Holds (end - b.reader_index) (omega (arith, length-contents v)))

  -- `retrieveAsString` hands out the bytes that it drops.
  pub retrieve_as_string-Holds :
      (n : ℕ)
      → n ≤ length (contents b)
      → (b' : Buffer) × (retrieve_as_string n b ≡ some (take n (contents b), b'))
        × Holds (drop n (contents b)) b'
  unfolding retrieve_as_string peek_bytes
  retrieve_as_string-Holds n h = out (retrieve-Holds n h)
    where
      out :
          Gives (retrieve n b) (Holds (drop n (contents b)))
          → (b' : Buffer) × (retrieve_as_string n b ≡ some (take n (contents b), b'))
            × Holds (drop n (contents b)) b'
      out (b', e, r) = (
        b',
        rw (
          readable_bytes-eq v,
          le→leb n (b.writer_index - b.reader_index) (omega (arith, h, length-contents v)),
          e,
          take_fewer n (b.writer_index - b.reader_index) (drop b.reader_index b.buffer)
              (omega (arith, h, length-contents v)),
        ),
        r,
      )

  pub retrieve_all_as_string-Holds :
      (b' : Buffer) × (retrieve_all_as_string b ≡ some (contents b, b')) × Holds [] b'
  unfolding retrieve_all_as_string
  retrieve_all_as_string-Holds =
      rw (readable_bytes-eq v)
        (whole (retrieve_as_string-Holds count (omega (arith, length-contents v))))
    where
      count : ℕ
      count = b.writer_index - b.reader_index

      whole :
          (b' : Buffer) × (retrieve_as_string count b ≡ some (take count (contents b), b'))
            × Holds (drop count (contents b)) b'
          → (b' : Buffer) × (retrieve_as_string count b ≡ some (contents b, b')) × Holds [] b'
      whole (b', e, r) = (
        b',
        rw (← take_all count (contents b) (omega (arith, length-contents v))) e,
        rw (← drop_all count (contents b) (omega (arith, length-contents v))) r,
      )

  -- `unwrite` drops bytes from the back.
  pub unwrite-Holds :
      (n : ℕ)
      → n ≤ length (contents b)
      → Gives (unwrite n b) (Holds (take (length (contents b) - n) (contents b)))
  unfolding unwrite
  unwrite-Holds n h = (
    record b { writer_index = b.writer_index - n },
    rw (
      readable_bytes-eq v,
      le→leb n (b.writer_index - b.reader_index) (omega (arith, h, length-contents v)),
      sub_size-eq b.writer_index n (omega (arith, h, length-contents v))
          (omega (arith, v.within, v.sized)),
    ),
    record {
      valid = record {
        ordered = omega (arith, h, length-contents v);
        within = omega (arith, v.within);
        header = v.header;
        sized = v.sized;
      };
      holds =
          ap (λ k. take k (drop b.reader_index b.buffer)) count
          ∙ sym (
              take_fewer (length (contents b) - n) (b.writer_index - b.reader_index)
                (drop b.reader_index b.buffer) (omega (arith, length-contents v)));
    },
  )
    where
      count : b.writer_index - n - b.reader_index ≡ length (contents b) - n
      count = omega (arith, h, length-contents v)
