-- ===== src/Http/Stops.antt =====
-- `parseRequest` comes to an end, and when its assertion holds.
use muduo.Base.{
  Bool, true, false, ℕ, zero, suc, ◌+◌, ◌≤◌, ◌<◌, Option, none, some, List, ◌==◌, length, take,
  drop, ◌≡◌, refl, ◌∙◌, sym, subst, arith, length-drop, ◌⊎◌, inl, inr, if◌then◌else◌, ◌>>=◌,
  drop-drop,
}
use muduo.Base.Bytes.{find}
use muduo.Buffer.{Buffer}
use muduo.Buffer.Content.{IsValid, contents}
use muduo.Buffer.Find.{search_crlf, search_crlf-bound}
use muduo.Http.{
  Request, is_invalid, set_method, process_target, process_request_line, Context, ParseState,
  expect_request_line, expect_headers, expect_body, got_all, Outcome, returned, aborted,
  out_of_fuel, parse_request, Round, leave, again, abort,
}
use muduo.Http.Bytes.{
  parse_bytes, bytes_round, bytes_header_round, bytes_line_round, bytes_after_line,
  bytes_after_round,
}
use muduo.Http.Refine.{
  Matches, both_aborted, both_out_of_fuel, both_returned, parse_request-Matches,
}

-- The states in which `onMessage` calls `parseRequest`, and no method is set where one is expected.
abbrev pub CanParse : ParseState → Request → Type 0
CanParse expect_request_line r = is_invalid r.method ≡ true
CanParse expect_headers r = Unit {0}
CanParse expect_body r = ⊥
CanParse got_all r = ⊥

-- The parser returned and left the end of the bytes. It says false just in the request line; where it
-- waits for more, the bytes that are left have no line end.
abbrev pub Left : List ℕ → Outcome (List ℕ) → Type 0
Left xs aborted = ⊥
Left xs out_of_fuel = ⊥
Left xs (returned ok c rest) =
    ((n : ℕ) × (rest ≡ drop n xs))
    × (((ok ≡ false) × (c.state ≡ expect_request_line))
        ⊎ ((ok ≡ true)
            × ((c.state ≡ got_all) ⊎ (CanParse c.state c.request × (search_crlf rest ≡ none)))))

-- What one round may do.
abbrev pub RoundLeft : List ℕ → Round (List ℕ) → Type 0
RoundLeft xs abort = ⊥
RoundLeft xs (leave ok c rest) = Left xs (returned ok c rest)
RoundLeft xs (again c rest) =
    CanParse c.state c.request × ((n : ℕ) × (rest ≡ drop n xs) × (length rest < length xs))

process_request_line-some :
    (line : List ℕ) (r : Request)
    → is_invalid r.method ≡ true
    → (out : Bool × Request) × (process_request_line line r ≡ some out)
unfolding process_request_line set_method
process_request_line-some line r h = go (find 32 line == length line)
  where
    go :
        (b : Bool)
        → (out : Bool × Request) × ((if b
              then some (false, r)
              else (set_method (take (find 32 line) line) r >>= λ known. some (
                  if known.0
                  then process_target (drop (find 32 line + 1) line) known.1
                  else known)))
            ≡ some out)
    go true = (_, refl)
    go false = rw h (_, refl)

shorter : (xs : List ℕ) (i : ℕ) → i + 2 ≤ length xs → length (drop (i + 2) xs) < length xs
shorter xs i h = omega (arith, length-drop (i + 2) xs)

bytes_after_line-Left :
    (time i : ℕ) (c : Context) (xs : List ℕ)
    → i + 2 ≤ length xs
    → c.state ≡ expect_request_line
    → (out : Bool × Request)
    → RoundLeft xs (bytes_after_line time c xs (drop (i + 2) xs) (some out))
bytes_after_line-Left time i c xs h s (false, r) = ((0, refl), inl (refl, s))
bytes_after_line-Left time i c xs h s (true, r) = (tt, (i + 2, refl, shorter xs i h))

bytes_line_round-Left :
    (time : ℕ) (c : Context) (xs : List ℕ) (o : Option ℕ)
    → search_crlf xs ≡ o
    → c.state ≡ expect_request_line
    → is_invalid c.request.method ≡ true
    → RoundLeft xs (bytes_line_round time o c xs)
bytes_line_round-Left time c xs none e s h =
    ((0, refl), inr (refl, inr (subst (λ t. CanParse t c.request) (sym s) h, e)))
bytes_line_round-Left time c xs (some i) e s h =
    let (out, f) = process_request_line-some (take i xs) c.request h in
    rw f (bytes_after_line-Left time i c xs (search_crlf-bound xs e) s out)

bytes_after_header-Left :
    (test : Bool) (i : ℕ) (c : Context) (r : Request) (xs : List ℕ)
    → i + 2 ≤ length xs
    → c.state ≡ expect_headers
    → RoundLeft xs (
        if test
        then leave true (record c { state = got_all }) (drop (i + 2) xs)
        else again (record c { request = r }) (drop (i + 2) xs))
bytes_after_header-Left true i c r xs h s = ((i + 2, refl), inr (refl, inl refl))
bytes_after_header-Left false i c r xs h s =
    (subst (λ t. CanParse t r) (sym s) tt, (i + 2, refl, shorter xs i h))

bytes_header_round-Left :
    (c : Context) (xs : List ℕ) (o : Option ℕ)
    → search_crlf xs ≡ o
    → c.state ≡ expect_headers
    → RoundLeft xs (bytes_header_round o c xs)
bytes_header_round-Left c xs none e s =
    ((0, refl), inr (refl, inr (subst (λ t. CanParse t c.request) (sym s) tt, e)))
bytes_header_round-Left c xs (some i) e s =
    bytes_after_header-Left (find 58 (take i xs) == length (take i xs)) i c _ xs
      (search_crlf-bound xs e) s

bytes_round-Left :
    (s : ParseState) (time : ℕ) (c : Context) (xs : List ℕ)
    → c.state ≡ s
    → CanParse s c.request
    → RoundLeft xs (bytes_round s time c xs)
bytes_round-Left expect_request_line time c xs e h =
    bytes_line_round-Left time c xs (search_crlf xs) refl e h
bytes_round-Left expect_headers time c xs e h = bytes_header_round-Left c xs (search_crlf xs) refl e
bytes_round-Left expect_body time c xs e h = absurd h
bytes_round-Left got_all time c xs e h = absurd h

Left-drop : (n : ℕ) (xs : List ℕ) (o : Outcome (List ℕ)) → Left (drop n xs) o → Left xs o
Left-drop n xs aborted h = h
Left-drop n xs out_of_fuel h = h
Left-drop n xs (returned ok c rest) ((m, e), f) = ((n + m, e ∙ drop-drop m n xs), f)

bytes_after_round-Left :
    (n time : ℕ)
    → ((c : Context) (ys : List ℕ)
        → CanParse c.state c.request
        → length ys < n
        → Left ys (parse_bytes n time c ys))
    → (xs : List ℕ) → length xs < suc n
    → (r : Round (List ℕ)) → RoundLeft xs r
    → Left xs (bytes_after_round n time r)
bytes_after_round-Left n time rest xs k abort h = h
bytes_after_round-Left n time rest xs k (leave ok c ys) h = h
bytes_after_round-Left n time rest xs k (again c ys) (p, (m, e, l)) =
    Left-drop m xs (parse_bytes n time c ys)
      (subst (λ zs. Left zs (parse_bytes n time c ys)) e (rest c ys p (omega arith)))

parse_bytes-Left :
    (n time : ℕ) (c : Context) (xs : List ℕ)
    → CanParse c.state c.request
    → length xs < n
    → Left xs (parse_bytes n time c xs)
unfolding parse_bytes
parse_bytes-Left zero time c xs p h = absurd (omega arith)
parse_bytes-Left (suc n) time c xs p h =
    bytes_after_round-Left n time (parse_bytes-Left n time) xs h (bytes_round c.state time c xs)
      (bytes_round-Left c.state time c xs refl p)

-- The same with a buffer, which stays well-formed.
abbrev pub Returned : List ℕ → Outcome Buffer → Type 0
Returned xs aborted = ⊥
Returned xs out_of_fuel = ⊥
Returned xs (returned ok c b) = IsValid b × Left xs (returned ok c (contents b))

Matches-Returned :
    (xs : List ℕ) {o : Outcome Buffer} {p : Outcome (List ℕ)}
    → Matches o p
    → Left xs p
    → Returned xs o
Matches-Returned xs both_aborted h = h
Matches-Returned xs both_out_of_fuel h = h
Matches-Returned xs (both_returned {ok = ok} {c = c} h) l =
    (h.valid, subst (λ ys. Left xs (returned ok c ys)) (sym h.holds) l)

-- Called in the state of a request line or of headers, with no method set before the request line,
-- `parseRequest` returns within one round for each byte of the buffer and one more, without failing an
-- assertion: the buffer holds an end of the bytes, false is returned in the state of a request line,
-- and otherwise the request is complete or no line end is left and it may be called again.
pub parse_request-Returned :
    {b : Buffer} (n time : ℕ) (c : Context)
    → IsValid b
    → CanParse c.state c.request
    → length (contents b) < n
    → Returned (contents b) (parse_request n time c b)
parse_request-Returned {b} n time c v p h =
    Matches-Returned (contents b)
      (parse_request-Matches n time c (record { valid = v; holds = refl }))
      (parse_bytes-Left n time c (contents b) p h)
