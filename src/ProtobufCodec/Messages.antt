-- ===== src/ProtobufCodec/Messages.antt =====
-- A round of the loop of `onMessage`.
use muduo.Base.{
  Bool, ℕ, suc, ◌+◌, ◌-◌, ◌^◌, ◌≤◌, ◌<◌, ◌≡◌, ◌∙◌, ap, refl, sym, subst, Option, some, List, ◌++◌,
  append_assoc, arith, length, take, drop, if◌then◌else◌, le→leb, lt→ltb, ge→ltb, Gives,
  length-append, take-append_length, drop-append_length,
}
use muduo.Base.Int.{pos, to_int32}
use muduo.Buffer.{Buffer, peek_bytes, retrieve}
use muduo.Buffer.Content.{
  contents, readable_bytes-eq, peek_bytes-contents, peek_bytes-take, length-contents,
}
use muduo.Buffer.Append.{Holds}
use muduo.Buffer.Retrieve.{retrieve-Holds}
use muduo.Buffer.Ints.{Host, be_bytes}
use muduo.Buffer.Ints.RoundTrip.{length-be_bytes, peek_int-Holds}
use muduo.ProtobufCodec.{
  Libraries, Codec, Round, break, continue, header_len, max_message_len, min_message_len, call_raw,
  skip, handle, complete_message, sized_message, message_round, returned, on_message,
}
use muduo.ProtobufCodec.Parse.{verdict, parse-verdict}

-- The bytes of a message whose checksum field is `s`.
abbrev pub wire : List ℕ → ℕ → List ℕ
wire ds s = be_bytes 4 (length ds + 4) ++ (ds ++ be_bytes 4 s)

pub length-wire : (ds : List ℕ) (s : ℕ) → length (wire ds s) ≡ length ds + 8
length-wire ds s = omega (
  arith,
  length-append (be_bytes 4 (length ds + 4)) (ds ++ be_bytes 4 s),
  length-be_bytes 4 (length ds + 4),
  length-append ds (be_bytes 4 s),
  length-be_bytes 4 s,
)

module _ {M W : Type 0} (host : Host) (p : Libraries M) (c : Codec M W) where
  pub on_message-continue :
      (n : ℕ) (b : Buffer) (w : W) {b' : Buffer} {w' : W}
      → message_round host p c b w ≡ some (continue b' w')
      → on_message host p c (suc n) b w ≡ on_message host p c n b' w'
  unfolding on_message
  on_message-continue n b w e = rw (on_message, e) refl

  pub on_message-break :
      (n : ℕ) (b : Buffer) (w : W) {b' : Buffer} {w' : W}
      → message_round host p c b w ≡ some (break b' w')
      → on_message host p c (suc n) b w ≡ returned b' w'
  unfolding on_message
  on_message-break n b w e = rw (on_message, e) refl

  -- The length field of what the buffer holds, when there are enough bytes to read it.
  pub message_round-sized :
      {b : Buffer} (n : ℕ) (ds : List ℕ) (w : W)
      → Holds (be_bytes 4 n ++ ds) b
      → n < 2 ^ 32
      → min_message_len host p c ≤ length ds
      → message_round host p c b w ≡ sized_message host p c (to_int32 n) b w
  unfolding message_round
  message_round-sized {b} n ds w h fits enough = rw (
    readable_bytes-eq h.valid,
    le→leb (min_message_len host p c + header_len) (b.writer_index - b.reader_index) (
        omega (
          arith,
          length-contents h.valid,
          ap length h.holds,
          length-append (be_bytes 4 n) ds,
          length-be_bytes 4 n,
        )),
    peek_int-Holds host 4 n (omega arith) ds h,
  )

  -- What follows when the raw callback has returned.
  abbrev pub answer : Buffer → List ℕ → ℕ → Bool × W → Option (Round W)
  answer b ds s raw =
      if raw.0
      then handle host p c (length ds + 4) b raw.1 (verdict host p c ds s)
      else skip host p c (length ds + 4) b raw.1

  module _ {b : Buffer} (ds : List ℕ) (s : ℕ) (rest : List ℕ) (w : W)
      (h : Holds (wire ds s ++ rest) b) where
    pub skip-Holds :
        (b' : Buffer) × (skip host p c (length ds + 4) b w ≡ some (continue b' w)) × Holds rest b'
    skip-Holds = after (
        retrieve-Holds h.valid (header_len + (length ds + 4))
          (omega (arith, ap length h.holds, length-append (wire ds s) rest, length-wire ds s)))
      where
        after :
            Gives
              (retrieve (header_len + (length ds + 4)) b)
              (Holds (drop (header_len + (length ds + 4)) (contents b)))
            → (b' : Buffer) × (skip host p c (length ds + 4) b w ≡ some (continue b' w))
              × Holds rest b'
        after (b', e, r) = (
          b',
          rw e,
          subst (λ cs. Holds cs b')
              (ap (drop (header_len + (length ds + 4))) h.holds
                ∙ drop-append_length (header_len + (length ds + 4)) (wire ds s) rest
                    (omega (arith, length-wire ds s)))
              r,
        )

    module _ (fits : s < 256 ^ 4) (tagged : length c.tag ≤ length ds)
        (small : length ds + 4 ≤ max_message_len) where
      complete_message-answer :
          complete_message host p c (length ds + 4) b w
          ≡ answer b ds s (call_raw c.raw_cb (wire ds s) w)
      unfolding complete_message
      complete_message-answer = rw (
        piece,
        peek_bytes-contents h.valid,
        h.holds,
        append_assoc (be_bytes 4 (length ds + 4)) (ds ++ be_bytes 4 s) rest,
        drop-append_length header_len (be_bytes 4 (length ds + 4)) ((ds ++ be_bytes 4 s) ++ rest)
            (sym (length-be_bytes 4 (length ds + 4))),
        append_assoc ds (be_bytes 4 s) rest,
        parse-verdict host p c ds s rest fits tagged,
      )
        where
          piece : peek_bytes (header_len + (length ds + 4)) b ≡ wire ds s
          piece =
              peek_bytes-take h.valid (header_len + (length ds + 4))
                (omega (arith, ap length h.holds, length-append (wire ds s) rest, length-wire ds s))
              ∙ ap (take (header_len + (length ds + 4))) h.holds
              ∙ take-append_length (header_len + (length ds + 4)) (wire ds s) rest
                  (omega (arith, length-wire ds s))

      sized_message-answer :
          sized_message host p c (pos (length ds + 4)) b w
          ≡ answer b ds s (call_raw c.raw_cb (wire ds s) w)
      unfolding sized_message
      sized_message-answer =
          rw
            (
              ge→ltb (max_message_len + 0) (length ds + 4 + 0) (omega arith),
              ge→ltb (length ds + 4 + 0) (min_message_len host p c + 0) (omega arith),
              readable_bytes-eq h.valid,
              le→leb (header_len + (length ds + 4)) (b.writer_index - b.reader_index) (
                  omega (
                    arith,
                    length-contents h.valid,
                    ap length h.holds,
                    length-append (wire ds s) rest,
                    length-wire ds s,
                  )),
            )
            complete_message-answer

      -- A whole message: the raw callback is asked, and then the message is parsed.
      pub message_round-answer :
          message_round host p c b w ≡ answer b ds s (call_raw c.raw_cb (wire ds s) w)
      message_round-answer =
          message_round-sized (length ds + 4) ((ds ++ be_bytes 4 s) ++ rest) w
            (subst (λ cs. Holds cs b)
              (append_assoc (be_bytes 4 (length ds + 4)) (ds ++ be_bytes 4 s) rest) h)
            (omega arith)
            (omega (
              arith,
              length-append (ds ++ be_bytes 4 s) rest,
              length-append ds (be_bytes 4 s),
              length-be_bytes 4 s,
            ))
          ∙ rw (lt→ltb (length ds + 4) (2 ^ 31) (omega arith)) sized_message-answer
