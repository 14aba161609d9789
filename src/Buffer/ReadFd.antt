-- ===== src/Buffer/ReadFd.antt =====
-- `Buffer::readFd`: a scattered read into the free space and a second array.
use muduo.Base.{
  false, ℕ, ◌+◌, ◌-◌, ◌≤◌, ◌<◌, ◌≡◌, refl, ap, ◌∙◌, some, Option, inl, inr, List, ◌++◌, arith,
  length, take, drop, ltb, leb, append_assoc, take-append-drop, subst, length-take, length-drop,
  leb→gt, leb→le, if◌then◌else◌, Gives, Bool-cases, le→leb, ◌>>=◌,
}
use muduo.Base.Size.{add_size, add_size-eq}
use muduo.Buffer.{Buffer, max_size, writable_bytes, copy_to, append}
use muduo.Buffer.Content.{IsValid, contents, writable_bytes-eq}
use muduo.Buffer.Append.{Holds, extended-Holds, overwrite, append-Holds_after}
use muduo.Buffer.Room.{copy_to-Gives}

-- What `readv(2)` returns: an `errno`, or the bytes that it put into the arrays, in order.
pub data ReadResult : Type 0 where
  failed : ℕ → ReadResult
  received : List ℕ → ReadResult

abbrev pub extrabuf_size : ℕ
extrabuf_size = 65536

-- What `readFd` does with the result: `n` is the length of the bytes received, `writable` of which
-- are in the vector already and the others in `extrabuf`. The result pairs it with the buffer.
unfoldable pub take_in : ℕ → ReadResult → Buffer → Option (ReadResult × Buffer)
take_in writable (failed errno) b = some (failed errno, b)
take_in writable (received ds) b =
    if leb (length ds) writable
    then (do
      filled ← copy_to b.writer_index ds b.buffer
      some (
        received ds,
        record b { buffer = filled; writer_index = add_size b.writer_index (length ds) },
      ))
    else (do
      filled ← copy_to b.writer_index (take writable ds) b.buffer
      b' ← append (drop writable ds) (record b { buffer = filled; writer_index = length b.buffer })
      some (received ds, b'))

-- The call of `readv` is given the total length of the arrays.
unfoldable pub read_fd : (ℕ → ReadResult) → Buffer → Option (ReadResult × Buffer)
unfolding take_in
read_fd readv b =
    let writable = writable_bytes b in
    let total = if ltb writable extrabuf_size then writable + extrabuf_size else writable in
    take_in writable (readv total) b

-- What a read leaves: the bytes received stand behind those that were there. A read that fails
-- leaves the buffer as it was.
abbrev pub AfterRead : Buffer → ReadResult → ReadResult × Buffer → Type 0
AfterRead b (failed errno) out = out ≡ (failed errno, b)
AfterRead b (received ds) (r, b') = (r ≡ received ds) × Holds (contents b ++ ds) b'

module _ {b : Buffer} (v : IsValid b) where
  abbrev free : ℕ
  free = length b.buffer - b.writer_index

  take_in_first :
      (ds : List ℕ)
      → length ds ≤ free
      → Gives (take_in free (received ds) b) (AfterRead b (received ds))
  unfolding take_in
  take_in_first ds h = (
    (received ds, record (overwrite b ds) { writer_index = b.writer_index + length ds }),
    rw (
      le→leb (length ds) free h,
      copy_to-Gives b.writer_index ds b.buffer room,
      add_size-eq b.writer_index (length ds) (omega (arith, v.sized)),
    ),
    (refl, extended-Holds v ds room),
  )
    where
      room : b.writer_index + length ds ≤ length b.buffer
      room = omega (arith, v.within)

  -- The vector is full: its part of the bytes is in place, and `append` takes the others.
  full-Holds :
      (ds : List ℕ)
      → free < length ds
      → length b.buffer + extrabuf_size ≤ max_size
      → length ds ≤ free + extrabuf_size
      → (filled : List ℕ) × (copy_to b.writer_index (take free ds) b.buffer ≡ some filled)
        × Gives
            (append (drop free ds) (record b { buffer = filled; writer_index = length b.buffer }))
            (Holds (contents b ++ ds))
  full-Holds ds h fits bounded = (
    filled,
    copy_to-Gives b.writer_index (take free ds) b.buffer room,
    subst
        (λ c.
          Gives
            (append (drop free ds) (record b { buffer = filled; writer_index = length b.buffer }))
            (Holds c))
        all (append-Holds_after (drop free ds) full (omega (arith, length-drop free ds))),
  )
    where
      room : b.writer_index + length (take free ds) ≤ length b.buffer
      room = omega (arith, v.within, length-take free ds)

      filled : List ℕ
      filled = (overwrite b (take free ds)).buffer

      full :
          Holds
            (contents b ++ take free ds)
            (record b { buffer = filled; writer_index = length b.buffer })
      full =
          subst
            (λ k.
              Holds (contents b ++ take free ds) (record b { buffer = filled; writer_index = k }))
            (omega (arith, v.within, length-take free ds)) (extended-Holds v (take free ds) room)

      all : (contents b ++ take free ds) ++ drop free ds ≡ contents b ++ ds
      all =
          append_assoc (contents b) (take free ds) (drop free ds)
          ∙ ap (◌++◌ (contents b)) (take-append-drop free ds)

  take_in-AfterRead :
      (r : ReadResult)
      → ((ds : List ℕ) → r ≡ received ds → length ds ≤ free + extrabuf_size)
      → length b.buffer + extrabuf_size ≤ max_size
      → Gives (take_in free r b) (AfterRead b r)
  unfolding take_in
  take_in-AfterRead (failed errno) bounded fits = ((failed errno, b), refl, refl)
  take_in-AfterRead (received ds) bounded fits = elim (Bool-cases (leb (length ds) free)) [
    | inl few ↦ take_in_first ds (leb→le _ _ few)
    | inr many ↦ over many (full-Holds ds (leb→gt _ _ many) fits (bounded ds refl))
  ]
    where
      over :
          leb (length ds) free ≡ false
          → (filled : List ℕ) × (copy_to b.writer_index (take free ds) b.buffer ≡ some filled)
            × Gives
                (append
                  (drop free ds)
                  (record b { buffer = filled; writer_index = length b.buffer }))
                (Holds (contents b ++ ds))
          → Gives (take_in free (received ds) b) (AfterRead b (received ds))
      over many (filled, e, (b', f, r)) = ((received ds, b'), rw (many, e, f), (refl, r))

-- `readFd` adds just the bytes that `readv` received, also where they run over into the second
-- array, and changes nothing if `readv` fails. `readv` receives no more bytes than the arrays have,
-- and the vector may grow by 65536 bytes.
pub read_fd-AfterRead :
    {b : Buffer} (v : IsValid b) (readv : ℕ → ReadResult)
    → ((n : ℕ) (ds : List ℕ) → readv n ≡ received ds → length ds ≤ n)
    → length b.buffer + extrabuf_size ≤ max_size
    → (n : ℕ) × Gives (read_fd readv b) (AfterRead b (readv n))
unfolding read_fd
read_fd-AfterRead {b} v readv bounded fits =
    (total, rw (writable_bytes-eq v) (take_in-AfterRead v (readv total) few fits))
  where
    room : ℕ
    room = length b.buffer - b.writer_index

    total : ℕ
    total = if ltb room extrabuf_size then room + extrabuf_size else room

    few : (ds : List ℕ) → readv total ≡ received ds → length ds ≤ room + extrabuf_size
    few ds e = ground (arith, bounded total ds e)
