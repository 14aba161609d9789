-- ===== src/ProtobufCodec/Stream.antt =====
-- `onMessage` on a stream of messages.
use muduo.Base.{
  Bool, true, false, ℕ, suc, ◌+◌, ◌-◌, ◌^◌, ◌≤◌, ◌<◌, ◌≡◌, ◌⊎◌, inl, inr, ◌∙◌, ap, refl, subst,
  some, List, [], ◌∷◌, ◌++◌, arith, length, if◌then◌else◌, length-append, take-append_length,
  drop-append_length, eq→==, gt→leb, ge→ltb, lt→ltb,
}
use muduo.Base.Bytes.{bytes_eq_refl}
use muduo.Buffer.{Buffer}
use muduo.Buffer.Content.{readable_bytes-eq, length-contents}
use muduo.Buffer.Append.{Holds}
use muduo.Buffer.Ints.{Host, be_bytes}
use muduo.Buffer.Ints.RoundTrip.{length-be_bytes}
use muduo.ProtobufCodec.{
  Libraries, Codec, parsed, break, continue, header_len, max_message_len, min_message_len, checksum,
  call_raw, sized_message, message_round, returned, on_message,
}
use muduo.ProtobufCodec.Frame.{tagged, summed, frame, IsSendable, checksum-bound, length-summed}
use muduo.ProtobufCodec.Parse.{verdict}
use muduo.ProtobufCodec.Messages.{
  wire, message_round-sized, message_round-answer, on_message-continue, on_message-break,
  skip-Holds, answer,
}

module _ {M W : Type 0} (host : Host) (p : Libraries M) (c : Codec M W) where
  -- What one message does: the raw callback, when there is one, decides about the other.
  abbrev pub deliver : M → W → W
  deliver m w =
      let raw = call_raw c.raw_cb (frame host p c m) w in
      if raw.0 then c.message_callback m raw.1 else raw.1

  abbrev pub deliver_all : List M → W → W
  deliver_all [] w = w
  deliver_all (m ∷ ms) w = deliver_all ms (deliver m w)

  abbrev pub frames : List M → List ℕ → List ℕ
  frames [] rest = rest
  frames (m ∷ ms) rest = frame host p c m ++ frames ms rest

  abbrev pub AllSendable : List M → Type 0
  AllSendable [] = Unit {0}
  AllSendable (m ∷ ms) = IsSendable host p c m × AllSendable ms

  -- The beginning of a message: too few bytes to look at it, or fewer than its length says.
  abbrev pub IsPartial : List ℕ → Type 0
  IsPartial rest =
      (length rest < min_message_len host p c + header_len)
      ⊎ ((n : ℕ) × (ds : List ℕ) × (rest ≡ be_bytes 4 n ++ ds)
          × (min_message_len host p c ≤ length ds)
          × (length ds < n)
          × (n ≤ max_message_len))

  frame-wire :
      (m : M) → frame host p c m ≡ wire (tagged host p c m) (checksum host p c (tagged host p c m))
  frame-wire m =
      ap (λ n. be_bytes 4 n ++ summed host p c (tagged host p c m))
        (length-summed host p c (tagged host p c m))

  module _ (m : M) (good : IsSendable host p c m) where
    verdict-tagged :
        verdict host p c (tagged host p c m) (checksum host p c (tagged host p c m)) ≡ parsed m
    verdict-tagged = rw (
      eq→== (checksum host p c (tagged host p c m)) (checksum host p c (tagged host p c m)) refl,
      take-append_length (length c.tag) c.tag (p.serialize m) refl,
      bytes_eq_refl c.tag,
      drop-append_length (length c.tag) c.tag (p.serialize m) refl,
      p.parse-serialize m good.initialized,
    )

    module _ {b : Buffer} (rest : List ℕ) (w : W)
        (h : Holds
          (wire (tagged host p c m) (checksum host p c (tagged host p c m)) ++ rest)
          b) where
      answered :
          (raw : Bool × W)
          → (b' : Buffer) × (answer host p c b
                (tagged host p c m)
                (checksum host p c (tagged host p c m))
                raw
              ≡ some (continue b' (if raw.0 then c.message_callback m raw.1 else raw.1)))
            × Holds rest b'
      answered (true, w') = rw verdict-tagged (
          skip-Holds host p c (tagged host p c m) (checksum host p c (tagged host p c m)) rest
            (c.message_callback m w') h)
      answered (false, w') =
          skip-Holds host p c (tagged host p c m) (checksum host p c (tagged host p c m)) rest w' h

      delivered :
          (b' : Buffer) × (message_round host p c b w ≡ some (continue b' (deliver m w)))
          × Holds rest b'
      delivered =
          rw
            (
              message_round-answer host p c (tagged host p c m)
                  (checksum host p c (tagged host p c m)) rest w h
                  (checksum-bound host p c (tagged host p c m))
                  (omega (arith, length-append c.tag (p.serialize m))) good.small,
              ← frame-wire m,
            )
            (answered (call_raw c.raw_cb (frame host p c m) w))

    message_round-frame :
        {b : Buffer} (rest : List ℕ) (w : W)
        → Holds (frame host p c m ++ rest) b
        → (b' : Buffer) × (message_round host p c b w ≡ some (continue b' (deliver m w)))
          × Holds rest b'
    message_round-frame {b} rest w h =
        delivered rest w (subst (λ bs. Holds (bs ++ rest) b) (frame-wire m) h)

  -- The messages at the front of the buffer are delivered, one in each round, before what is behind
  -- them is looked at.
  pub on_message-frames :
      (ms : List M) {b : Buffer} (rest : List ℕ) (n : ℕ) (w : W)
      → AllSendable ms
      → Holds (frames ms rest) b
      → (b' : Buffer) × (on_message host p c (length ms + n) b w
          ≡ on_message host p c n b' (deliver_all ms w))
        × Holds rest b'
  on_message-frames [] {b} rest n w good h =
      (b, ap (λ k. on_message host p c k b w) (omega arith), h)
  on_message-frames (m ∷ ms) {b} rest n w (good, goods) h =
      let first = message_round-frame m good (frames ms rest) w h in
      let others = on_message-frames ms rest n (deliver m w) goods first.2 in
      (
        others.0,
        ap (λ k. on_message host p c k b w) (omega arith)
            ∙ on_message-continue host p c (length ms + n) b w first.1
            ∙ others.1,
        others.2,
      )

  message_round-partial :
      {b : Buffer} (rest : List ℕ) (w : W)
      → IsPartial rest
      → Holds rest b
      → message_round host p c b w ≡ some (break b w)
  unfolding message_round sized_message
  message_round-partial {b} rest w (inl short) h = rw (
    readable_bytes-eq h.valid,
    gt→leb (min_message_len host p c + header_len) (b.writer_index - b.reader_index)
        (omega (arith, length-contents h.valid, ap length h.holds)),
  )
  message_round-partial {b} rest w (inr (n, ds, e, enough, less, small)) h =
      message_round-sized host p c n ds w (subst (λ cs. Holds cs b) e h) (omega arith) enough
      ∙ rw (
        lt→ltb n (2 ^ 31) (omega arith),
        ge→ltb (max_message_len + 0) (n + 0) (omega arith),
        ge→ltb (n + 0) (min_message_len host p c + 0) (omega arith),
        readable_bytes-eq h.valid,
        gt→leb (header_len + n) (b.writer_index - b.reader_index) (
            omega (
              arith,
              length-contents h.valid,
              ap length h.holds,
              ap length e,
              length-append (be_bytes 4 n) ds,
              length-be_bytes 4 n,
            )),
      )

  -- When the buffer holds the frames of some messages, each initialised and of at most 64 MiB, and then
  -- the beginning of a message, `onMessage` with more rounds than messages delivers exactly these
  -- messages, in this order, and leaves exactly that beginning in the buffer.
  pub on_message-delivers :
      {b : Buffer} (ms : List M) (rest : List ℕ) (n : ℕ) (w : W)
      → AllSendable ms
      → IsPartial rest
      → Holds (frames ms rest) b
      → length ms < n
      → (b' : Buffer) × (on_message host p c n b w ≡ returned b' (deliver_all ms w)) × Holds rest b'
  on_message-delivers {b} ms rest n w good partial h few =
      after (on_message-frames ms rest (suc (n - length ms - 1)) w good h)
    where
      after :
          (b' : Buffer) × (on_message host p c (length ms + suc (n - length ms - 1)) b w
              ≡ on_message host p c (suc (n - length ms - 1)) b' (deliver_all ms w))
            × Holds rest b'
          → (b' : Buffer) × (on_message host p c n b w ≡ returned b' (deliver_all ms w))
            × Holds rest b'
      after (b', e, r) = (
        b',
        ap (λ k. on_message host p c k b w) (omega arith)
            ∙ e
            ∙ on_message-break host p c (n - length ms - 1) b' (deliver_all ms w)
                (message_round-partial rest (deliver_all ms w) partial r),
        r,
      )
