-- ===== src/Buffer/Room.antt =====
-- `makeSpace` and `ensureWritableBytes`: room for more bytes.
use muduo.Base.{
  true, ℕ, ◌+◌, ◌-◌, ◌≤◌, ◌<◌, ◌≡◌, refl, some, List, ◌++◌, arith, inl, inr, length, take, drop,
  replicate, ltb, Gives, Bool-cases, le→leb, lt→ltb, ltb→lt, ltb→ge, ge→ltb, eq→==, length-append,
  length-take, length-drop, length-replicate, take_all, slice-append_le, slice_prefix,
}
use muduo.Base.Size.{add_size-eq}
use muduo.Buffer.{
  Buffer, max_size, cheap_prepend, prependable_bytes, resize, copy_to, make_space,
  ensure_writable_bytes,
}
use muduo.Buffer.Content.{
  IsValid, contents, readable_bytes-eq, writable_bytes-eq, length-contents, peek_bytes-contents,
}

pub resize-Gives :
    (n : ℕ) (xs : List ℕ)
    → length xs ≤ n
    → n ≤ max_size
    → resize n xs ≡ some (xs ++ replicate (n - length xs) 0)
unfolding resize
resize-Gives n xs h k = rw (le→leb n max_size k, take_all n xs h)

pub copy_to-Gives :
    (i : ℕ) (ds xs : List ℕ)
    → i + length ds ≤ length xs
    → copy_to i ds xs ≡ some (take i xs ++ (ds ++ drop (i + length ds) xs))
unfolding copy_to
copy_to-Gives i ds xs h = rw (le→leb (i + length ds) (length xs) h)

pub length-copied :
    (i : ℕ) (ds xs : List ℕ)
    → i + length ds ≤ length xs
    → length (take i xs ++ (ds ++ drop (i + length ds) xs)) ≡ length xs
length-copied i ds xs h = omega (
  arith,
  length-append (take i xs) (ds ++ drop (i + length ds) xs),
  length-append ds (drop (i + length ds) xs),
  length-take i xs,
  length-drop (i + length ds) xs,
)

-- Space for `n` more bytes, with the same contents.
pub record HasRoom (b : Buffer) (n : ℕ) (b' : Buffer) : Type 0 where
  pub valid : IsValid b'
  pub same : contents b' ≡ contents b
  pub room : b'.writer_index + n ≤ length b'.buffer
  pub no_later : b'.writer_index ≤ b.writer_index
  pub front : cheap_prepend ≤ b.reader_index → cheap_prepend ≤ b'.reader_index

module _ {b : Buffer} (v : IsValid b) (n : ℕ) (fits : b.writer_index + n ≤ max_size) where
  grow-HasRoom :
      length b.buffer ≤ b.writer_index + n
      → HasRoom b n
          (record b { buffer = b.buffer ++ replicate (b.writer_index + n - length b.buffer) 0 })
  grow-HasRoom h = record {
    valid = record {
      ordered = v.ordered;
      within = omega (arith, size);
      header = omega (arith, size, v.header);
      sized = omega (arith, size);
    };
    same = slice-append_le b.reader_index b.writer_index b.buffer _ v.ordered v.within;
    room = omega (arith, size);
    no_later = omega arith;
    front = λ h. h;
  }
    where
      size :
          length (b.buffer ++ replicate (b.writer_index + n - length b.buffer) 0)
          ≡ b.writer_index + n
      size = omega (
        arith,
        length-append b.buffer (replicate (b.writer_index + n - length b.buffer) 0),
        length-replicate {A = ℕ} (b.writer_index + n - length b.buffer) 0,
      )

  move-HasRoom :
      cheap_prepend ≤ b.reader_index
      → n + cheap_prepend ≤ length b.buffer - b.writer_index + b.reader_index
      → HasRoom b n (record b {
        buffer =
            take cheap_prepend b.buffer
            ++ (contents b ++ drop (cheap_prepend + length (contents b)) b.buffer);
        reader_index = cheap_prepend;
        writer_index = cheap_prepend + (b.writer_index - b.reader_index);
      })
  move-HasRoom early h = record {
    valid = record {
      ordered = omega arith;
      within = omega (arith, size, length-contents v, v.within, v.ordered);
      header = omega (arith, size, v.header);
      sized = omega (arith, size, v.sized);
    };
    same =
        slice_prefix cheap_prepend (b.writer_index - b.reader_index) (take cheap_prepend b.buffer)
          (contents b) (drop (cheap_prepend + length (contents b)) b.buffer)
          (omega (arith, length-take cheap_prepend b.buffer, v.within, v.ordered))
          (omega (arith, length-contents v));
    room = omega (arith, size, length-contents v, v.within, v.ordered);
    no_later = omega (arith, v.ordered);
    front = λ h. omega arith;
  }
    where
      size :
          length (
            take cheap_prepend b.buffer
            ++ (contents b ++ drop (cheap_prepend + length (contents b)) b.buffer))
          ≡ length b.buffer
      size =
          length-copied cheap_prepend (contents b) b.buffer
            (omega (arith, length-contents v, v.within, v.ordered))

  make_space_grows :
      length b.buffer - b.writer_index + b.reader_index < n + cheap_prepend
      → length b.buffer ≤ b.writer_index + n
      → make_space n b
        ≡ some
            (record b { buffer = b.buffer ++ replicate (b.writer_index + n - length b.buffer) 0 })
  unfolding make_space prependable_bytes
  make_space_grows little h = rw (
    writable_bytes-eq v,
    add_size-eq (length b.buffer - b.writer_index) b.reader_index
        (omega (arith, v.within, v.ordered, v.sized)),
    add_size-eq n cheap_prepend (omega arith),
    lt→ltb _ _ little,
    add_size-eq b.writer_index n (omega arith),
    resize-Gives (b.writer_index + n) b.buffer h fits,
  )

  make_space_moves :
      n + cheap_prepend ≤ length b.buffer - b.writer_index + b.reader_index
      → cheap_prepend < b.reader_index
      → make_space n b
        ≡ some (record b {
          buffer =
              take cheap_prepend b.buffer
              ++ (contents b ++ drop (cheap_prepend + length (contents b)) b.buffer);
          reader_index = cheap_prepend;
          writer_index = cheap_prepend + (b.writer_index - b.reader_index);
        })
  unfolding make_space prependable_bytes
  make_space_moves enough late =
      rw
        (
          writable_bytes-eq v,
          add_size-eq (length b.buffer - b.writer_index) b.reader_index
              (omega (arith, v.within, v.ordered, v.sized)),
          add_size-eq n cheap_prepend (omega arith),
          ge→ltb _ _ enough,
          lt→ltb _ _ late,
          peek_bytes-contents v,
          copy_to-Gives cheap_prepend (contents b) b.buffer
              (omega (arith, length-contents v, v.within, v.ordered)),
        )
        (rw (
          readable_bytes-eq v,
          add_size-eq cheap_prepend (b.writer_index - b.reader_index)
              (omega (arith, v.within, v.ordered, v.sized)),
          readable_bytes-eq (move-HasRoom (omega arith) enough).valid,
          eq→== (b.writer_index - b.reader_index)
              (cheap_prepend + (b.writer_index - b.reader_index) - cheap_prepend) (omega arith),
        ))

  -- Grown or moved, the buffer has the room, and no assertion of `makeSpace` fails.
  make_space-Gives : length b.buffer < b.writer_index + n → Gives (make_space n b) (HasRoom b n)
  make_space-Gives short =
      elim (Bool-cases
        (ltb (length b.buffer - b.writer_index + b.reader_index) (n + cheap_prepend))) [
          | inl little ↦
              (_, make_space_grows (ltb→lt _ _ little) (omega arith), grow-HasRoom (omega arith))
          | inr enough ↦ (
            _,
            make_space_moves (ltb→ge _ _ enough) (ground arith),
            move-HasRoom (ground arith) (ltb→ge _ _ enough),
          )
        ]

  made-Gives :
      ltb (length b.buffer - b.writer_index) n ≡ true
      → Gives (make_space n b) (HasRoom b n)
      → Gives (ensure_writable_bytes n b) (HasRoom b n)
  unfolding ensure_writable_bytes
  made-Gives short (b', e, r) = (
    b',
    rw (
      writable_bytes-eq v,
      short,
      e,
      writable_bytes-eq r.valid,
      le→leb n (length b'.buffer - b'.writer_index) (omega (arith, r.room)),
    ),
    r,
  )

  -- `ensureWritableBytes` makes the room and keeps the contents; none of its assertions fails.
  pub ensure_writable_bytes-Gives : Gives (ensure_writable_bytes n b) (HasRoom b n)
  unfolding ensure_writable_bytes
  ensure_writable_bytes-Gives = elim (Bool-cases (ltb (length b.buffer - b.writer_index) n)) [
    | inl short ↦ made-Gives short (make_space-Gives (omega (arith, ltb→lt _ _ short)))
    | inr enough ↦ (
      b,
      rw (writable_bytes-eq v, enough) (rw (writable_bytes-eq v, le→leb n _ (ltb→ge _ _ enough))),
      record {
        valid = v;
        same = refl;
        room = omega (arith, ltb→ge _ _ enough, v.within);
        no_later = omega arith;
        front = λ h. h;
      },
    )
  ]
