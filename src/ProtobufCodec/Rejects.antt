-- ===== src/ProtobufCodec/Rejects.antt =====
-- `onMessage` on bytes that are no message.
use muduo.Base.{
  true, false, ℕ, suc, ◌+◌, ◌^◌, ◌≤◌, ◌<◌, ◌≡◌, ◌≢◌, ◌⊎◌, ◌∙◌, none, some, List, ◌++◌, arith,
  length, take, drop, ne→==, eq→==, ◌||◌,
}
use muduo.Base.Bytes.{bytes_eq}
use muduo.Base.Int.{pos, ltb_ℤ, to_int32}
use muduo.Buffer.{Buffer}
use muduo.Buffer.Append.{Holds}
use muduo.Buffer.Ints.{Host, be_bytes}
use muduo.ProtobufCodec.{
  Libraries, Codec, ErrorCode, no_error, invalid_name_len, invalid_length, check_sum_error,
  unknown_message_type, parse_error, failed, max_message_len, min_message_len, checksum, report,
  call_raw, sized_message, message_round, returned, on_message,
}
use muduo.ProtobufCodec.Parse.{verdict}
use muduo.ProtobufCodec.Messages.{wire, message_round-sized, message_round-answer, on_message-break}
use muduo.ProtobufCodec.Stream.{deliver_all, frames, AllSendable, on_message-frames}

module _ {M W : Type 0} (host : Host) (p : Libraries M) (c : Codec M W) where
  -- What is wrong with a body of the bytes `ds` and the checksum `s`.
  abbrev pub IsWrong : ErrorCode → List ℕ → ℕ → Type 0
  IsWrong check_sum_error ds s = checksum host p c ds ≢ s
  IsWrong unknown_message_type ds s =
      (checksum host p c ds ≡ s) × (bytes_eq (take (length c.tag) ds) c.tag ≡ false)
  IsWrong parse_error ds s =
      (checksum host p c ds ≡ s)
      × (bytes_eq (take (length c.tag) ds) c.tag ≡ true)
      × (p.parse_from_array (drop (length c.tag) ds) ≡ none)
  IsWrong _ ds s = ⊥

  verdict-IsWrong :
      (e : ErrorCode) (ds : List ℕ) (s : ℕ) → IsWrong e ds s → verdict host p c ds s ≡ failed e
  verdict-IsWrong no_error ds s h = absurd h
  verdict-IsWrong invalid_length ds s h = absurd h
  verdict-IsWrong invalid_name_len ds s h = absurd h
  verdict-IsWrong check_sum_error ds s h = rw (ne→== (checksum host p c ds) s h)
  verdict-IsWrong unknown_message_type ds s (h, k) = rw (eq→== (checksum host p c ds) s h, k)
  verdict-IsWrong parse_error ds s (h, k, l) = rw (eq→== (checksum host p c ds) s h, k, l)

  -- `IsRejected bytes w e w'`: the bytes begin with something that is no message, with the error `e`;
  -- the raw callback takes `w` to `w'`. Their length is negative, too small or too large; or it is a
  -- whole message that the raw callback lets through and in which something is wrong.
  pub data IsRejected : List ℕ → W → ErrorCode → W → Type 0 where
    bad_length :
        (n : ℕ) (ds : List ℕ) (w : W)
        → n < 2 ^ 32
        → (n < min_message_len host p c) ⊎ (max_message_len < n)
        → min_message_len host p c ≤ length ds
        → IsRejected (be_bytes 4 n ++ ds) w invalid_length w
    bad_body :
        (e : ErrorCode) (ds : List ℕ) (s : ℕ) (rest : List ℕ) (w w' : W)
        → IsWrong e ds s
        → s < 256 ^ 4
        → length c.tag ≤ length ds
        → length ds + 4 ≤ max_message_len
        → call_raw c.raw_cb (wire ds s) w ≡ (true, w')
        → IsRejected (wire ds s ++ rest) w e w'

  invalid :
      (n low : ℕ)
      → n < 2 ^ 32
      → (n < low) ⊎ (max_message_len < n)
      → (ltb_ℤ (pos max_message_len) (to_int32 n) || ltb_ℤ (to_int32 n) (pos low)) ≡ true
  invalid n low fits h = ground arith

  message_round-IsRejected :
      {b : Buffer} {bytes : List ℕ} {w w' : W} {e : ErrorCode}
      → IsRejected bytes w e w'
      → Holds bytes b
      → message_round host p c b w ≡ some (report host p c b e w')
  unfolding sized_message
  message_round-IsRejected {b} (bad_length n ds w fits off enough) h =
      message_round-sized host p c n ds w h fits enough
      ∙ rw (invalid n (min_message_len host p c) fits off)
  message_round-IsRejected {b} (bad_body e ds s rest w w' wrong fits tagged small passed) h =
      message_round-answer host p c ds s rest w h fits tagged small
      ∙ rw (passed, verdict-IsWrong e ds s wrong)

  -- When the buffer holds the frames of some messages and then bytes that are rejected, `onMessage`
  -- delivers these messages and then hands the error callback the code of the error with a buffer that
  -- begins with the rejected bytes; it returns what that callback makes of the buffer.
  pub on_message-reports :
      {b : Buffer} (ms : List M) (bytes : List ℕ) (e : ErrorCode) (n : ℕ) (w w' : W)
      → AllSendable host p c ms
      → Holds (frames host p c ms bytes) b
      → IsRejected bytes (deliver_all host p c ms w) e w'
      → (b' : Buffer) × Holds bytes b'
        × (on_message host p c (length ms + suc n) b w
            ≡ returned (c.error_callback b' e w').0 (c.error_callback b' e w').1)
  on_message-reports {b} ms bytes e n w w' good h wrong =
      let before = on_message-frames host p c ms bytes (suc n) w good h in
      (
        before.0,
        before.2,
        before.1
            ∙ on_message-break host p c n before.0 (deliver_all host p c ms w)
                (message_round-IsRejected wrong before.2),
      )
