-- ===== src/ProtobufCodec/Tests.antt =====
-- The codec at concrete inputs: messages are byte strings, and a byte above 127 does not parse.
use muduo.Base.{
  Bool, true, false, ℕ, ◌+◌, ◌*◌, ◌/◌, ◌%◌, ◌≤◌, ◌≡◌, refl, inl, ◌≢◌, none, some, List, [], ◌∷◌,
  ◌++◌, arith, length, ltb, if◌then◌else◌, Gives, replicate, length-append, slice_prefix,
}
use muduo.Buffer.{Buffer, retrieve_all}
use muduo.Buffer.Append.{Holds}
use muduo.Buffer.Tests.{big_endian, blank, blank-IsValid}
use muduo.ProtobufCodec.{
  Libraries, Codec, check_sum_error, returned, on_message, fill_empty_buffer, checksum,
}
use muduo.ProtobufCodec.Frame.{frame, IsSendable, fill_empty_buffer-Holds}
use muduo.ProtobufCodec.Messages.{wire}
use muduo.ProtobufCodec.Stream.{frames, on_message-delivers}
use muduo.ProtobufCodec.Rejects.{bad_body, on_message-reports}
use muduo.ProtobufCodec.Returns.{on_message-returns}

-- zlib's sum, from its two halves.
abbrev adler : ℕ → ℕ → List ℕ → ℕ
adler a b [] = b * 65536 + a
adler a b (x ∷ xs) = adler ((a + x) % 65521) ((b + (a + x)) % 65521) xs

abbrev ascii : List ℕ → Bool
ascii [] = true
ascii (x ∷ xs) = if ltb x 128 then ascii xs else false

abbrev strings : Libraries (List ℕ)
strings = record {
  adler32 = λ s. adler (s % 65536) (s / 65536);
  is_initialized = ascii;
  byte_size = length;
  serialize = λ m. m;
  parse_from_array = λ ds. if ascii ds then some ds else none;
  length-serialize = λ m h. refl;
  parse-serialize = λ m h. rw h;
}

-- The state is the list of the messages that have come, the last one first; an error empties the buffer.
abbrev rpc : Codec (List ℕ) (List (List ℕ))
rpc = record {
  tag = 82 ∷ 80 ∷ 67 ∷ 48 ∷ [];
  message_callback = ◌∷◌;
  raw_cb = none;
  error_callback = λ b e w. (retrieve_all b, w);
}

abbrev hi : List ℕ
hi = 104 ∷ 105 ∷ []

hi-IsSendable : IsSendable big_endian strings rpc hi
hi-IsSendable = record { initialized = refl; small = omega arith }

-- A buffer that holds these bytes.
abbrev holding : List ℕ → Buffer
holding bytes = record {
  buffer = replicate 8 0 ++ (bytes ++ []);
  reader_index = 8;
  writer_index = 8 + length bytes;
}

holding-Holds : (bytes : List ℕ) → length bytes ≤ 1000 → Holds bytes (holding bytes)
holding-Holds bytes h = record {
  valid = omega (arith, length-append bytes []);
  holds = slice_prefix 8 (length bytes) (replicate 8 0) bytes [] refl refl;
}

-- The bytes of one message.
frame-hi :
    frame big_endian strings rpc hi
    ≡ 0 ∷ 0 ∷ 0 ∷ 10 ∷ 82 ∷ 80 ∷ 67 ∷ 48 ∷ 104 ∷ 105 ∷ 6 ∷ 87 ∷ 1 ∷ 231 ∷ []
unfolding checksum
frame-hi = refl

fill_empty_buffer-Holds_example :
    Gives
      (fill_empty_buffer big_endian strings rpc hi blank)
      (Holds (frame big_endian strings rpc hi))
fill_empty_buffer-Holds_example =
    fill_empty_buffer-Holds big_endian strings rpc {b = blank} hi hi-IsSendable
      (record { valid = blank-IsValid; holds = refl }) (omega arith) (omega arith)

-- Two messages and three bytes of a third.
abbrev stream : List ℕ
stream = frames big_endian strings rpc (hi ∷ hi ∷ []) (0 ∷ 0 ∷ 0 ∷ [])

on_message-delivers_example :
    (b : Buffer) × (on_message big_endian strings rpc 3 (holding stream) []
      ≡ returned b (hi ∷ hi ∷ []))
    × Holds (0 ∷ 0 ∷ 0 ∷ []) b
on_message-delivers_example =
    on_message-delivers big_endian strings rpc (hi ∷ hi ∷ []) (0 ∷ 0 ∷ 0 ∷ []) 3 []
      (hi-IsSendable, (hi-IsSendable, tt)) (inl (omega arith)) (holding-Holds stream (omega arith))
      (omega arith)

-- A message, and one with the checksum 1.
abbrev broken : List ℕ
broken = wire (82 ∷ 80 ∷ 67 ∷ 48 ∷ 104 ∷ []) 1

wrong_sum : checksum big_endian strings rpc (82 ∷ 80 ∷ 67 ∷ 48 ∷ 104 ∷ []) ≢ 1
unfolding checksum
wrong_sum = ground arith

on_message-reports_example :
    (b : Buffer) × Holds broken b
    × (on_message big_endian strings rpc 2
          (holding (frames big_endian strings rpc (hi ∷ []) broken))
          []
        ≡ returned (retrieve_all b) (hi ∷ []))
on_message-reports_example =
    on_message-reports big_endian strings rpc (hi ∷ []) broken check_sum_error 0 [] (hi ∷ [])
      (hi-IsSendable, tt)
      (holding-Holds (frames big_endian strings rpc (hi ∷ []) broken) (omega arith))
      (bad_body check_sum_error (82 ∷ 80 ∷ 67 ∷ 48 ∷ 104 ∷ []) 1 [] (hi ∷ []) (hi ∷ []) wrong_sum
        (omega arith) (omega arith) (omega arith) refl)

on_message-returns_example :
    (b : Buffer) × (w : List (List ℕ)) × (on_message big_endian strings rpc 40 (holding broken) []
      ≡ returned b w)
on_message-returns_example =
    on_message-returns big_endian strings rpc 40 [] (holding-Holds broken (omega arith)).valid
      (omega arith)
