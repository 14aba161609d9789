-- ===== src/ProtobufCodec/Parse.antt =====
-- `parse`: the tests that a message has to pass.
use muduo.Base.{
  ℕ, ◌+◌, ◌-◌, ◌^◌, ◌≤◌, ◌<◌, ◌≡◌, sym, some, List, ◌++◌, arith, inl, inr, length, take, drop, ◌==◌,
  if◌then◌else◌, le→leb, length-append, take-append_length, drop-append_length, take-append_le,
  drop-append_le, length-drop, Bool-cases,
}
use muduo.Base.Bytes.{bytes_eq}
use muduo.Buffer.Ints.{Host, be_bytes, network_to_host}
use muduo.Buffer.Ints.RoundTrip.{length-be_bytes, be_value-be_bytes}
use muduo.ProtobufCodec.{
  Libraries, Codec, check_sum_error, unknown_message_type, Parsed, failed, checksum_len, checksum,
  as_int32, validate_checksum, parsed_from, parse_data, parse_tagged, parse,
}

module _ {M W : Type 0} (host : Host) (p : Libraries M) (c : Codec M W) where
  -- What a body of these bytes and this checksum should be found to be.
  abbrev pub verdict : List ℕ → ℕ → Parsed M
  verdict ds s =
      if checksum host p c ds == s
      then (if bytes_eq (take (length c.tag) ds) c.tag
          then parsed_from host p c (p.parse_from_array (drop (length c.tag) ds))
          else failed unknown_message_type)
      else failed check_sum_error

  as_int32-be_bytes :
      (s : ℕ) (rest : List ℕ) → s < 256 ^ 4 → as_int32 host p c (be_bytes 4 s ++ rest) ≡ some s
  unfolding as_int32 network_to_host
  as_int32-be_bytes s rest fits = rw (
    le→leb 4 (length (be_bytes 4 s ++ rest))
        (omega (arith, length-append (be_bytes 4 s) rest, length-be_bytes 4 s)),
    take-append_length 4 (be_bytes 4 s) rest (sym (length-be_bytes 4 s)),
    host.betoh-load 4 (be_bytes 4 s) (length-be_bytes 4 s),
    be_value-be_bytes 4 s fits,
  )

  module _ (ds : List ℕ) (s : ℕ) (rest : List ℕ) (fits : s < 256 ^ 4) where
    validate_checksum-summed :
        validate_checksum host p c (ds ++ (be_bytes 4 s ++ rest)) (length ds + 4)
        ≡ some (checksum host p c ds == s)
    unfolding validate_checksum
    validate_checksum-summed = rw (
      le→leb checksum_len (length ds + 4) (omega arith),
      drop-append_length (length ds + 4 - checksum_len) ds (be_bytes 4 s ++ rest) (omega arith),
      as_int32-be_bytes s rest fits,
      take-append_length (length ds + 4 - checksum_len) ds (be_bytes 4 s ++ rest) (omega arith),
    )

    module _ (tagged : length c.tag ≤ length ds) where
      parse_data-summed :
          parse_data host p c (ds ++ (be_bytes 4 s ++ rest)) (length ds + 4)
          ≡ some (parsed_from host p c (p.parse_from_array (drop (length c.tag) ds)))
      unfolding parse_data
      parse_data-summed = rw (
        le→leb (length c.tag) (length ds + 4 - checksum_len) (omega arith),
        drop-append_le (length c.tag) ds (be_bytes 4 s ++ rest) tagged,
        take-append_length (length ds + 4 - checksum_len - length c.tag) (drop (length c.tag) ds)
            (be_bytes 4 s ++ rest) (omega (arith, length-drop (length c.tag) ds)),
      )

      parse_tagged-summed :
          parse_tagged host p c (ds ++ (be_bytes 4 s ++ rest)) (length ds + 4)
          ≡ some (
              if bytes_eq (take (length c.tag) ds) c.tag
              then parsed_from host p c (p.parse_from_array (drop (length c.tag) ds))
              else failed unknown_message_type)
      unfolding parse_tagged
      parse_tagged-summed =
          rw
            (
              le→leb (length c.tag) (length (ds ++ (be_bytes 4 s ++ rest)))
                  (omega (arith, length-append ds (be_bytes 4 s ++ rest))),
              take-append_le (length c.tag) ds (be_bytes 4 s ++ rest) tagged,
            )
            (elim (Bool-cases (bytes_eq (take (length c.tag) ds) c.tag)) [
              | inl same ↦ rw (same, parse_data-summed)
              | inr other ↦ rw other
            ])

      -- `parse` accepts a body with the right checksum and tag and a payload that protobuf parses, and
      -- otherwise gives the error of the first test that fails.
      pub parse-verdict :
          parse host p c (ds ++ (be_bytes 4 s ++ rest)) (length ds + 4) ≡ some (verdict ds s)
      unfolding parse
      parse-verdict = rw validate_checksum-summed (elim (Bool-cases (checksum host p c ds == s)) [
        | inl same ↦ rw (same, parse_tagged-summed)
        | inr other ↦ rw other
      ])
