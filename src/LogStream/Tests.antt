-- ===== src/LogStream/Tests.antt =====
-- Small streams.
use muduo.Base.{true, ℕ, ◌≡◌, refl, none, some, List, [], ◌∷◌, replicate, Gives, arith}
use muduo.Base.Int.{pos, negsuc}
use muduo.LogStream.{convert, convert_hex, put, put_all, new_stream, Item, integer, boolean, text}
use muduo.LogStream.Convert.{read_int, convert-read_int}
use muduo.LogStream.Stream.{IsPut, put_text, put_texts, put-IsPut, put_all-new_stream}

convert_negative : convert (negsuc 41) ≡ some (b'-' ∷ b'4' ∷ b'2' ∷ [])
unfolding convert
convert_negative = refl

convert_zero : convert (pos 0) ≡ some (b'0' ∷ [])
unfolding convert
convert_zero = refl

convert_hex_255 : convert_hex 255 ≡ some (b'F' ∷ b'F' ∷ [])
unfolding convert_hex
convert_hex_255 = refl

convert-read_int_example :
    (cs : List ℕ) × (convert (negsuc 41) ≡ some cs) × (read_int cs ≡ some (negsuc 41))
convert-read_int_example = convert-read_int (negsuc 41)

put-IsPut_example :
    Gives
      (put (integer (negsuc 41)) (new_stream (replicate 33 0)))
      (IsPut 33 (put_text 33 (integer (negsuc 41)) []))
put-IsPut_example =
    put-IsPut (new_stream (replicate 33 0)) (omega arith) (integer (negsuc 41)) (omega arith)

-- The last number finds no room in 40 bytes.
abbrev items : List Item
items = integer (pos 2048) ∷ text none ∷ integer (negsuc 0) ∷ boolean true ∷ []

put_all-new_stream_example :
    Gives (put_all items (new_stream (replicate 40 0))) (IsPut 40 (put_texts 40 items []))
put_all-new_stream_example =
    put_all-new_stream (replicate 40 0) items (omega arith)
      (omega arith, (tt, (omega arith, (tt, tt))))
