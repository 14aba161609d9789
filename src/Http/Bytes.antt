-- ===== src/Http/Bytes.antt =====
-- What `parseRequest` does, as a function on the readable bytes alone.
use muduo.Base.{
  Bool, true, false, ℕ, zero, suc, ◌+◌, Option, none, some, List, ◌==◌, if◌then◌else◌, length, take,
  drop,
}
use muduo.Base.Bytes.{find}
use muduo.Buffer.Find.{search_crlf}
use muduo.Http.{
  Request, Context, ParseState, expect_request_line, expect_headers, expect_body, got_all, Round,
  abort, leave, again, Outcome, aborted, out_of_fuel, returned, process_request_line, add_header,
}

abbrev pub bytes_after_line :
    ℕ → Context → List ℕ → List ℕ → Option (Bool × Request) → Round (List ℕ)
bytes_after_line time c xs rest none = abort
bytes_after_line time c xs rest (some (false, r)) = leave false (record c { request = r }) xs
bytes_after_line time c xs rest (some (true, r)) =
    again (record { state = expect_headers; request = record r { receive_time = time } }) rest

abbrev pub bytes_line_round : ℕ → Option ℕ → Context → List ℕ → Round (List ℕ)
bytes_line_round time none c xs = leave true c xs
bytes_line_round time (some i) c xs =
    bytes_after_line time c xs (drop (i + 2) xs) (process_request_line (take i xs) c.request)

abbrev pub bytes_after_header : List ℕ → Context → List ℕ → Round (List ℕ)
bytes_after_header line c rest =
    let colon = find 58 line in
    if colon == length line
    then leave true (record c { state = got_all }) rest
    else again (record c { request = add_header line colon c.request }) rest

abbrev pub bytes_header_round : Option ℕ → Context → List ℕ → Round (List ℕ)
bytes_header_round none c xs = leave true c xs
bytes_header_round (some i) c xs = bytes_after_header (take i xs) c (drop (i + 2) xs)

abbrev pub bytes_round : ParseState → ℕ → Context → List ℕ → Round (List ℕ)
bytes_round expect_request_line time c xs = bytes_line_round time (search_crlf xs) c xs
bytes_round expect_headers time c xs = bytes_header_round (search_crlf xs) c xs
bytes_round expect_body time c xs = again c xs
bytes_round got_all time c xs = again c xs

unfoldable pub parse_bytes : ℕ → ℕ → Context → List ℕ → Outcome (List ℕ)
parse_bytes zero time c xs = out_of_fuel
parse_bytes (suc n) time c xs = elim (bytes_round c.state time c xs) [
  | abort ↦ aborted
  | leave ok c' rest ↦ returned ok c' rest
  | again c' rest ↦ parse_bytes n time c' rest
]

-- What follows a round.
abbrev pub bytes_after_round : ℕ → ℕ → Round (List ℕ) → Outcome (List ℕ)
bytes_after_round n time r = elim r [
  | abort ↦ aborted
  | leave ok c xs ↦ returned ok c xs
  | again c xs ↦ parse_bytes n time c xs
]
