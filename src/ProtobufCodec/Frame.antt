-- ===== src/ProtobufCodec/Frame.antt =====
-- `fillEmptyBuffer`: the bytes of one message.
use muduo.Base.{
  true, ℕ, ◌+◌, ◌-◌, ◌^◌, ◌%◌, ◌*◌, ◌≤◌, ◌<◌, ◌≡◌, ◌∙◌, ap, subst, List, [], ◌++◌, arith, length,
  Gives, >>=-Gives, >>=-eq-some, eq→==, length-append, some, ◌>>=◌, ◌>>◌, assert, ◌==◌,
}
use muduo.Buffer.{
  Buffer, max_size, cheap_prepend, readable_bytes, peek_bytes, ensure_writable_bytes, copy_to,
  has_written,
}
use muduo.Buffer.Content.{
  IsValid, contents, readable_bytes-eq, peek_bytes-contents, length-contents,
}
use muduo.Buffer.Append.{Holds, Extended, append-Extended, written-Extended}
use muduo.Buffer.Room.{HasRoom, ensure_writable_bytes-Gives}
use muduo.Buffer.Ints.{Host, be_bytes, append_int, prepend_int}
use muduo.Buffer.Ints.RoundTrip.{length-be_bytes, append_int-Extended, prepend_int-Holds}
use muduo.ProtobufCodec.{
  Libraries, Codec, max_message_len, checksum_len, checksum, serialize_to_buffer, fill_empty_buffer,
}

module _ {M W : Type 0} (host : Host) (p : Libraries M) (c : Codec M W) where
  -- Tag and payload.
  abbrev pub tagged : M → List ℕ
  tagged m = c.tag ++ p.serialize m

  abbrev pub framed : List ℕ → List ℕ
  framed body = be_bytes 4 (length body) ++ body

  abbrev pub summed : List ℕ → List ℕ
  summed ds = ds ++ be_bytes 4 (checksum host p c ds)

  -- The wire format of a message: the size, the tag, the payload, the checksum.
  abbrev pub frame : M → List ℕ
  frame m = framed (summed (tagged m))

  -- A message that is initialised, and not too long for the receiver.
  pub record IsSendable (m : M) : Type 0 where
    pub initialized : p.is_initialized m ≡ true
    pub small : length (tagged m) + checksum_len ≤ max_message_len

  pub checksum-bound : (ds : List ℕ) → checksum host p c ds < 256 ^ 4
  unfolding checksum
  checksum-bound ds = omega arith

  pub length-summed : (ds : List ℕ) → length (summed ds) ≡ length ds + 4
  length-summed ds = omega (
    arith,
    length-append ds (be_bytes 4 (checksum host p c ds)),
    length-be_bytes 4 (checksum host p c ds),
  )

  module _ (m : M) (ready : p.is_initialized m ≡ true) where
    serialize_to_buffer-Extended :
        {b : Buffer}
        → IsValid b
        → b.writer_index + length (p.serialize m) + 4 ≤ max_size
        → (b' : Buffer) × (serialize_to_buffer host p c m b ≡ some (p.byte_size m, b'))
          × Extended (length (p.serialize m)) (contents b ++ p.serialize m) b b'
    unfolding serialize_to_buffer
    serialize_to_buffer-Extended {b} v fits =
        (written.0, rw (ready, room.1, steps.1, eq→== _ _ size, last), written.2)
      where
        size : length (p.serialize m) ≡ p.byte_size m
        size = p.length-serialize m ready

        room :
            Gives
              (ensure_writable_bytes (p.byte_size m + checksum_len) b)
              (HasRoom b (p.byte_size m + checksum_len))
        room = ensure_writable_bytes-Gives v (p.byte_size m + checksum_len) (omega (arith, size))

        with_bytes : List ℕ → Buffer
        with_bytes w = record (room.0) { buffer = w }

        written :
            Gives
              (copy_to room.0.writer_index (p.serialize m) room.0.buffer >>= λ w.
                has_written (length (p.serialize m)) (with_bytes w))
              (Extended (length (p.serialize m)) (contents b ++ p.serialize m) b)
        written = written-Extended (p.serialize m) room.2 (omega (arith, size))

        steps :
            (w : List ℕ) × (copy_to room.0.writer_index (p.serialize m) room.0.buffer ≡ some w)
            × (has_written (length (p.serialize m)) (with_bytes w) ≡ some written.0)
        steps = >>=-eq-some (copy_to room.0.writer_index (p.serialize m) room.0.buffer) _ written.1

        last : has_written (p.byte_size m) (with_bytes steps.0) ≡ some written.0
        last = subst (λ k. has_written k (with_bytes steps.0) ≡ some written.0) size steps.2

  -- The checksum behind the bytes and the size before them.
  sealed-Holds :
      {b : Buffer} (ds : List ℕ) (size : ℕ)
      → Holds ds b
      → length ds ≡ length c.tag + size
      → length ds + checksum_len ≤ max_message_len
      → cheap_prepend ≤ b.reader_index
      → b.writer_index + checksum_len ≤ max_size
      → Gives
          (append_int host 4 (checksum host p c (peek_bytes (readable_bytes b) b)) b >>= λ b'.
            assert (readable_bytes b' == length c.tag + size + checksum_len)
            >> prepend_int host 4 (readable_bytes b' % 2 ^ 32) b')
          (Holds (framed (summed ds)))
  sealed-Holds {b} ds size h sum small early fits =
      rw (peek_bytes-contents h.valid, h.holds)
        (>>=-Gives (Extended 4 (contents b ++ be_bytes 4 (checksum host p c ds)) b)
          (Holds (framed (summed ds))) _
          (append_int-Extended host 4 (checksum host p c ds) (checksum-bound ds) h.valid fits)
          λ b' r. after r (
            omega (
              arith,
              length-contents r.holds.valid,
              ap length r.holds.holds,
              length-append (contents b) (be_bytes 4 (checksum host p c ds)),
              length-be_bytes 4 (checksum host p c ds),
              ap length h.holds,
            )))
    where
      after :
          {b' : Buffer}
          → Extended 4 (contents b ++ be_bytes 4 (checksum host p c ds)) b b'
          → b'.writer_index - b'.reader_index ≡ length ds + 4
          → Gives
              (assert (readable_bytes b' == length c.tag + size + checksum_len)
                >> prepend_int host 4 (readable_bytes b' % 2 ^ 32) b')
              (Holds (framed (summed ds)))
      after {b'} r count =
          rw
            (
              readable_bytes-eq r.holds.valid,
              eq→== (b'.writer_index - b'.reader_index) (length c.tag + size + checksum_len)
                  (omega arith),
            )
            (subst (λ n. Gives (prepend_int host 4 n b') (Holds (framed (summed ds))))
              (omega (arith, length-summed ds))
              (subst
                (λ cs.
                  Gives (prepend_int host 4 (length (summed ds)) b')
                    (Holds (be_bytes 4 (length (summed ds)) ++ cs)))
                (r.holds.holds ∙ ap (λ cs. cs ++ be_bytes 4 (checksum host p c ds)) h.holds)
                (prepend_int-Holds host 4 (length (summed ds)) (omega (arith, length-summed ds))
                  r.holds.valid (omega (arith, r.front early)))))

  -- The payload, and what follows it.
  payload-Holds :
      {b : Buffer} (m : M)
      → IsSendable m
      → Holds c.tag b
      → cheap_prepend ≤ b.reader_index
      → b.writer_index + length (p.serialize m) + 2 * checksum_len ≤ max_size
      → Gives
          (serialize_to_buffer host p c m b >>= λ sized.
            append_int host 4
              (checksum host p c (peek_bytes (readable_bytes sized.1) sized.1))
              sized.1
            >>= λ b'.
                assert (readable_bytes b' == length c.tag + sized.0 + checksum_len)
                >> prepend_int host 4 (readable_bytes b' % 2 ^ 32) b')
          (Holds (frame m))
  payload-Holds {b} m good h early fits =
      through (serialize_to_buffer-Extended m good.initialized h.valid (omega arith))
    where
      through :
          (b' : Buffer) × (serialize_to_buffer host p c m b ≡ some (p.byte_size m, b'))
            × Extended (length (p.serialize m)) (contents b ++ p.serialize m) b b'
          → Gives
              (serialize_to_buffer host p c m b >>= λ sized.
                append_int host 4
                  (checksum host p c (peek_bytes (readable_bytes sized.1) sized.1))
                  sized.1
                >>= λ b'.
                    assert (readable_bytes b' == length c.tag + sized.0 + checksum_len)
                    >> prepend_int host 4 (readable_bytes b' % 2 ^ 32) b')
              (Holds (frame m))
      through (b', e, r) = rw e (
          sealed-Holds (tagged m) (p.byte_size m)
            (subst (λ ds. Holds ds b') (ap (λ ds. ds ++ p.serialize m) h.holds) r.holds)
            (omega
              (arith, length-append c.tag (p.serialize m), p.length-serialize m good.initialized))
            good.small (r.front early) (omega (arith, r.no_later)))

  -- `fillEmptyBuffer` puts exactly the frame of the message into an empty buffer that still has its
  -- prependable bytes; no assertion fails.
  pub fill_empty_buffer-Holds :
      {b : Buffer} (m : M)
      → IsSendable m
      → Holds [] b
      → cheap_prepend ≤ b.reader_index
      → b.writer_index + max_message_len + 4 ≤ max_size
      → Gives (fill_empty_buffer host p c m b) (Holds (frame m))
  unfolding fill_empty_buffer
  fill_empty_buffer-Holds {b} m good h early fits =
      rw (readable_bytes-eq h.valid, eq→== (b.writer_index - b.reader_index) 0 none_yet)
        (>>=-Gives (Extended (length c.tag) (contents b ++ c.tag) b) (Holds (frame m)) _
          (append-Extended h.valid c.tag (omega (arith, good.small, size)))
          λ b₁ r.
            payload-Holds m good
              (subst (λ ds. Holds ds b₁) (ap (λ ds. ds ++ c.tag) h.holds) r.holds) (r.front early)
              (omega (arith, r.no_later, good.small, size)))
    where
      none_yet : b.writer_index - b.reader_index ≡ 0
      none_yet = omega (arith, length-contents h.valid, ap length h.holds)

      size : length (tagged m) ≡ length c.tag + length (p.serialize m)
      size = length-append c.tag (p.serialize m)
