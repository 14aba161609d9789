-- ===== src/ProtobufCodec/Returns.antt =====
-- `onMessage` on arbitrary bytes.
use muduo.Base.{
  Bool, true, false, ℕ, zero, suc, ◌+◌, ◌-◌, ◌≤◌, ◌<◌, ◌≡◌, inl, inr, ◌∙◌, ap, refl, some, List,
  arith, length, take, drop, if◌then◌else◌, ◌||◌, leb, le→leb, leb→le, length-drop, Gives,
  >>=-Gives, Bool-cases, ◌>>=◌,
}
use muduo.Base.Bytes.{bytes_eq}
use muduo.Base.Int.{ℤ, pos, negsuc, pos_part, ltb_ℤ}
use muduo.Buffer.{Buffer, readable_bytes, peek_bytes}
use muduo.Buffer.Content.{
  IsValid, contents, readable_bytes-eq, length-contents, peek_bytes-contents,
}
use muduo.Buffer.Append.{Holds}
use muduo.Buffer.Retrieve.{retrieve-Holds}
use muduo.Buffer.Ints.{Host, peek_int}
use muduo.ProtobufCodec.{
  Libraries, Codec, Parsed, parsed, failed, Round, break, continue, header_len, checksum_len,
  max_message_len, min_message_len, call_raw, as_int32, validate_checksum, parse_data, parse_tagged,
  parse, skip, handle, complete_message, sized_message, message_round, returned, on_message,
}
use muduo.ProtobufCodec.Messages.{on_message-continue, on_message-break}

module _ {M W : Type 0} (host : Host) (p : Libraries M) (c : Codec M W) where
  not_less :
      (n low : ℕ)
      → (ltb_ℤ (pos max_message_len) (pos n) || ltb_ℤ (pos n) (pos low)) ≡ false
      → low ≤ n
  not_less n low h = ground arith

  not_negative :
      (k n : ℕ)
      → ¬ ((ltb_ℤ (pos max_message_len) (negsuc k) || ltb_ℤ (negsuc k) (pos (n + 4))) ≡ false)
  not_negative k n h = ground arith

  -- A round that continues has dropped bytes.
  abbrev Progresses : Buffer → Round W → Type 0
  Progresses b (break b' w') = Unit {0}
  Progresses b (continue b' w') = IsValid b' × (length (contents b') < length (contents b))

  module _ (ds : List ℕ) (n : ℕ) (fits : n ≤ length ds)
      (enough : min_message_len host p c ≤ n) where
    validate_checksum-Gives : (valid : Bool) × (validate_checksum host p c ds n ≡ some valid)
    unfolding validate_checksum as_int32
    validate_checksum-Gives =
        rw
          (
            le→leb checksum_len n (omega arith),
            le→leb 4 (length (drop (n - checksum_len) ds))
                (omega (arith, length-drop (n - checksum_len) ds)),
          )
          (_, refl)

    parse_tagged-Gives : (r : Parsed M) × (parse_tagged host p c ds n ≡ some r)
    unfolding parse_tagged parse_data
    parse_tagged-Gives = elim (Bool-cases (bytes_eq (take (length c.tag) ds) c.tag)) [
      | inl same ↦
          rw
            (
              le→leb (length c.tag) (length ds) (omega arith),
              same,
              le→leb (length c.tag) (n - checksum_len) (omega arith),
            )
            (_, refl)
      | inr other ↦ rw (le→leb (length c.tag) (length ds) (omega arith), other) (_, refl)
    ]

    -- `parse` reads nothing outside the bytes of the message.
    parse-Gives : (r : Parsed M) × (parse host p c ds n ≡ some r)
    unfolding parse
    parse-Gives = after validate_checksum-Gives
      where
        after :
            (valid : Bool) × (validate_checksum host p c ds n ≡ some valid)
            → (r : Parsed M) × (parse host p c ds n ≡ some r)
        after (true, e) = rw e parse_tagged-Gives
        after (false, e) = rw e (_, refl)

  module _ {b : Buffer} (v : IsValid b) where
    skip-Gives :
        (n : ℕ) (w : W)
        → header_len + n ≤ length (contents b)
        → Gives (skip host p c n b w) (Progresses b)
    skip-Gives n w h =
        >>=-Gives (Holds (drop (header_len + n) (contents b))) (Progresses b) _
          (retrieve-Holds v (header_len + n) h)
          λ b' r. (
            _,
            refl,
            (r.valid, omega (arith, ap length r.holds, length-drop (header_len + n) (contents b))),
          )

    handle-Gives :
        (n : ℕ) (w : W) (r : Parsed M)
        → header_len + n ≤ length (contents b)
        → Gives (handle host p c n b w r) (Progresses b)
    handle-Gives n w (parsed m) h = skip-Gives n (c.message_callback m w) h
    handle-Gives n w (failed e) h = (_, refl, tt)

    complete_message-Gives :
        (n : ℕ) (w : W)
        → header_len + n ≤ length (contents b)
        → min_message_len host p c ≤ n
        → Gives (complete_message host p c n b w) (Progresses b)
    unfolding complete_message
    complete_message-Gives n w h enough =
        answered (call_raw c.raw_cb (peek_bytes (header_len + n) b) w)
      where
        answered :
            (raw : Bool × W)
            → Gives
                (if raw.0
                  then (parse host p c (drop header_len (peek_bytes (readable_bytes b) b)) n
                      >>= handle host p c n b raw.1)
                  else skip host p c n b raw.1)
                (Progresses b)
        answered (true, w') = rw (peek_bytes-contents v) (
            let r =
              parse-Gives (drop header_len (contents b)) n
                (omega (arith, length-drop header_len (contents b))) enough in
            rw r.1 (handle-Gives n w' r.0 h))
        answered (false, w') = skip-Gives n w' h

    sized_message-Gives : (z : ℤ) (w : W) → Gives (sized_message host p c z b w) (Progresses b)
    unfolding sized_message
    sized_message-Gives z w =
        elim (Bool-cases
          (ltb_ℤ (pos max_message_len) z || ltb_ℤ z (pos (min_message_len host p c)))) [
            | inl off ↦ rw off (_, refl, tt)
            | inr fine ↦ rw fine (fitting z fine)
          ]
      where
        fitting :
            (z : ℤ)
            → (ltb_ℤ (pos max_message_len) z || ltb_ℤ z (pos (min_message_len host p c))) ≡ false
            → Gives
                (if leb (header_len + pos_part z) (readable_bytes b)
                  then complete_message host p c (pos_part z) b w
                  else some (break b w))
                (Progresses b)
        fitting (negsuc k) fine = absurd (not_negative k (length c.tag) fine)
        fitting (pos k) fine =
            elim (Bool-cases (leb (header_len + k) (b.writer_index - b.reader_index))) [
              | inl all ↦
                  rw (readable_bytes-eq v, all)
                    (complete_message-Gives k w (omega (arith, leb→le _ _ all, length-contents v))
                      (not_less k (min_message_len host p c) fine))
              | inr part ↦ rw (readable_bytes-eq v, part) (_, refl, tt)
            ]

    message_round-Gives : (w : W) → Gives (message_round host p c b w) (Progresses b)
    unfolding message_round peek_int
    message_round-Gives w =
        elim (Bool-cases
          (leb (min_message_len host p c + header_len) (b.writer_index - b.reader_index))) [
            | inl enough ↦
                rw
                  (
                    readable_bytes-eq v,
                    enough,
                    le→leb 4 (b.writer_index - b.reader_index) (omega (arith, leb→le _ _ enough)),
                  )
                  (sized_message-Gives _ w)
            | inr few ↦ rw (readable_bytes-eq v, few) (_, refl, tt)
          ]

  -- Whatever bytes the buffer holds, `onMessage` returns: no assertion fails, nothing outside the bytes
  -- of the buffer is read, and as many rounds as there are bytes, and one, are enough.
  pub on_message-returns :
      (n : ℕ) {b : Buffer} (w : W)
      → IsValid b
      → length (contents b) < n
      → (b' : Buffer) × (w' : W) × (on_message host p c n b w ≡ returned b' w')
  on_message-returns zero w v h = absurd (omega arith)
  on_message-returns (suc n) {b} w v h =
      after (message_round-Gives v w) (λ b' w' v' l. on_message-returns n {b = b'} w' v' l)
    where
      after :
          Gives (message_round host p c b w) (Progresses b)
          → ((b' : Buffer) (w' : W)
              → IsValid b'
              → length (contents b') < n
              → (b₂ : Buffer) × (w₂ : W) × (on_message host p c n b' w' ≡ returned b₂ w₂))
          → (b' : Buffer) × (w' : W) × (on_message host p c (suc n) b w ≡ returned b' w')
      after (break b' w', e, q) others = (b', w', on_message-break host p c n b w e)
      after (continue b' w', e, (v', less)) others =
          let rest = others b' w' v' (omega arith) in
          (rest.0, rest.1, on_message-continue host p c n b w e ∙ rest.2)
