-- ===== src/ProtobufCodec.antt =====
-- muduo/net/protobuf/ProtobufCodecLite.cc and .h: length-prefixed protobuf messages with a tag and a
-- checksum. zlib and protobuf are parameters. Bytes behind a pointer into the buffer are the list of the
-- readable bytes from it on. `none` is a failed assertion or a read outside that list.
pub mod Frame
pub mod Parse
pub mod Messages
pub mod Stream
pub mod Rejects
pub mod Returns
pub mod Tests
use muduo.Base.{
  Bool, true, false, not, ◌||◌, ℕ, zero, suc, ◌+◌, ◌-◌, ◌*◌, ◌%◌, ◌^◌, ◌≡◌, Option, none, some,
  List, ◌++◌, length, take, drop, ltb, leb, ◌==◌, if◌then◌else◌, ◌>>=◌, ◌>>◌, assert,
}
use muduo.Base.Bytes.{bytes_eq}
use muduo.Base.Int.{ℤ, pos, pos_part, ltb_ℤ, to_int32}
use muduo.Buffer.{
  Buffer, readable_bytes, peek_bytes, ensure_writable_bytes, copy_to, has_written, append, retrieve,
}
use muduo.Buffer.Ints.{Host, network_to_host, append_int, prepend_int, peek_int}

abbrev pub header_len : ℕ
header_len = 4

abbrev pub checksum_len : ℕ
checksum_len = 4

abbrev pub max_message_len : ℕ
max_message_len = 64 * 1024 * 1024

-- `kNoError` and the errors.
pub data ErrorCode : Type 0 where
  no_error invalid_length check_sum_error invalid_name_len unknown_message_type parse_error :
      ErrorCode

-- zlib's `adler32`, and the protobuf library for one type of message. Of these it is documented that an
-- initialised message is serialised to `ByteSize()` bytes, which parse to that message.
pub record Libraries (M : Type 0) : Type 0 where
  pub adler32 : ℕ → List ℕ → ℕ
  pub is_initialized : M → Bool
  pub byte_size : M → ℕ
  pub serialize : M → List ℕ
  pub parse_from_array : List ℕ → Option M
  pub length-serialize : (m : M) → is_initialized m ≡ true → length (serialize m) ≡ byte_size m
  pub parse-serialize : (m : M) → is_initialized m ≡ true → parse_from_array (serialize m) ≡ some m

-- The members of the codec. The callbacks act on the state `W` of the rest of the program; the error
-- callback is given the buffer too.
pub record Codec (M W : Type 0) : Type 0 where
  pub tag : List ℕ
  pub message_callback : M → W → W
  pub raw_cb : Option (List ℕ → W → Bool × W)
  pub error_callback : Buffer → ErrorCode → W → Buffer × W

-- `parse` with `kNoError` and the message it filled in, or with the other codes.
pub data Parsed (M : Type 0) : Type 0 where
  parsed : M → Parsed M
  failed : ErrorCode → Parsed M

-- A round of the loop of `onMessage` breaks or continues.
pub data Round (W : Type 0) : Type 0 where
  break continue : Buffer → W → Round W

pub data Outcome (W : Type 0) : Type 0 where
  aborted out_of_fuel : Outcome W
  returned : Buffer → W → Outcome W

abbrev pub call_raw : {W : Type 0} → Option (List ℕ → W → Bool × W) → List ℕ → W → Bool × W
call_raw none piece w = (true, w)
call_raw (some f) piece w = f piece w

module _ {M W : Type 0} (host : Host) (p : Libraries M) (c : Codec M W) where
  open host use {load}
  open p use {adler32, is_initialized, byte_size, serialize, parse_from_array}
  open c use {tag, message_callback, raw_cb, error_callback}

  abbrev pub min_message_len : ℕ
  min_message_len = length tag + checksum_len

  -- The 32 bits of the `int32_t`.
  unfoldable pub checksum : List ℕ → ℕ
  checksum ds = adler32 1 ds % 2 ^ 32

  unfoldable pub as_int32 : List ℕ → Option ℕ
  as_int32 ds = do assert (leb 4 (length ds)); some (network_to_host host 4 (load 4 (take 4 ds)))

  unfoldable pub validate_checksum : List ℕ → ℕ → Option Bool
  validate_checksum ds len = do
    assert (leb checksum_len len)
    expected ← as_int32 (drop (len - checksum_len) ds)
    some (checksum (take (len - checksum_len) ds) == expected)

  abbrev pub parsed_from : Option M → Parsed M
  parsed_from none = failed parse_error
  parsed_from (some m) = parsed m

  -- The length of the data must not be negative.
  unfoldable pub parse_data : List ℕ → ℕ → Option (Parsed M)
  parse_data ds len = do
    assert (leb (length tag) (len - checksum_len))
    some (
        parsed_from
          (parse_from_array (take (len - checksum_len - length tag) (drop (length tag) ds))))

  -- `memcmp` reads the size of the tag.
  unfoldable pub parse_tagged : List ℕ → ℕ → Option (Parsed M)
  parse_tagged ds len = do
    assert (leb (length tag) (length ds))
    if bytes_eq (take (length tag) ds) tag
        then parse_data ds len
        else some (failed unknown_message_type)

  unfoldable pub parse : List ℕ → ℕ → Option (Parsed M)
  parse ds len = do
    valid ← validate_checksum ds len
    if valid then parse_tagged ds len else some (failed check_sum_error)

  abbrev pub report : Buffer → ErrorCode → W → Round W
  report b e w = let after = error_callback b e w in break after.0 after.1

  abbrev pub skip : ℕ → Buffer → W → Option (Round W)
  skip len b w = do b' ← retrieve (header_len + len) b; some (continue b' w)

  abbrev pub handle : ℕ → Buffer → W → Parsed M → Option (Round W)
  handle len b w (parsed m) = skip len b (message_callback m w)
  handle len b w (failed e) = some (report b e w)

  -- The whole message is in the buffer.
  unfoldable pub complete_message : ℕ → Buffer → W → Option (Round W)
  complete_message len b w =
      let raw = call_raw raw_cb (peek_bytes (header_len + len) b) w in
      if raw.0
      then (do
        result ← parse (drop header_len (peek_bytes (readable_bytes b) b)) len
        handle len b raw.1 result)
      else skip len b raw.1

  -- The length has been read.
  unfoldable pub sized_message : ℤ → Buffer → W → Option (Round W)
  sized_message len b w =
      if ltb_ℤ (pos max_message_len) len || ltb_ℤ len (pos min_message_len)
      then some (report b invalid_length w)
      else if leb (header_len + pos_part len) (readable_bytes b)
      then complete_message (pos_part len) b w
      else some (break b w)

  unfoldable pub message_round : Buffer → W → Option (Round W)
  message_round b w =
      if leb (min_message_len + header_len) (readable_bytes b)
      then (do len ← peek_int host 4 b; sized_message (to_int32 len) b w)
      else some (break b w)

  -- `onMessage`; the first argument bounds the rounds of its loop.
  unfoldable pub on_message : ℕ → Buffer → W → Outcome W
  on_message zero b w = out_of_fuel
  on_message (suc n) b w = elim (message_round b w) [
    | none ↦ aborted
    | some (break b' w') ↦ returned b' w'
    | some (continue b' w') ↦ on_message n b' w'
  ]

  -- An `end - start` other than `byte_size` is a fatal error.
  unfoldable pub serialize_to_buffer : M → Buffer → Option (ℕ × Buffer)
  serialize_to_buffer m b = do
    assert (is_initialized m)
    b₁ ← ensure_writable_bytes (byte_size m + checksum_len) b
    written ← copy_to b₁.writer_index (serialize m) b₁.buffer
    assert (length (serialize m) == byte_size m)
    b₂ ← has_written (byte_size m) (record b₁ { buffer = written })
    some (byte_size m, b₂)

  unfoldable pub fill_empty_buffer : M → Buffer → Option Buffer
  fill_empty_buffer m b = do
    assert (readable_bytes b == 0)
    b₁ ← append tag b
    (size, b₂) ← serialize_to_buffer m b₁
    b₃ ← append_int host 4 (checksum (peek_bytes (readable_bytes b₂) b₂)) b₂
    assert (readable_bytes b₃ == length tag + size + checksum_len)
    prepend_int host 4 (readable_bytes b₃ % 2 ^ 32) b₃
