-- ===== src/Http/Refine.antt =====
-- `parseRequest` on a buffer does what `parse_bytes` does on its contents.
use muduo.Base.{
  Bool, true, false, ℕ, zero, suc, ◌+◌, ◌-◌, ◌≤◌, Option, none, some, List, if◌then◌else◌, length,
  take, drop, ◌≡◌, refl, ap, ◌∙◌, arith, Gives, take_fewer, sym, subst,
}
use muduo.Buffer.{Buffer, retrieve_until, peek_bytes}
use muduo.Buffer.Content.{IsValid, contents, length-contents}
use muduo.Buffer.Append.{Holds}
use muduo.Buffer.Retrieve.{retrieve_until-Holds}
use muduo.Buffer.Find.{search_crlf, map_offset, find_crlf-eq, search_crlf-bound}
use muduo.Http.{
  Request, Context, ParseState, expect_request_line, expect_headers, expect_body, got_all, Round,
  abort, leave, again, Outcome, aborted, out_of_fuel, returned, process_request_line, line_to,
  after_request_line, request_line_round, header_round, parse_round_in, parse_request,
}
use muduo.Http.Bytes.{
  bytes_after_line, bytes_line_round, bytes_header_round, bytes_round, parse_bytes,
  bytes_after_round,
}

-- The same round, where the bytes are the contents of the buffer.
pub data RoundMatches : Round Buffer → Round (List ℕ) → Type 0 where
  both_abort : RoundMatches abort abort
  both_leave :
      {ok : Bool} {c : Context} {b : Buffer} {xs : List ℕ}
      → Holds xs b
      → RoundMatches (leave ok c b) (leave ok c xs)
  both_again :
      {c : Context} {b : Buffer} {xs : List ℕ} → Holds xs b → RoundMatches (again c b) (again c xs)

-- The same outcome, where the bytes are the contents of the buffer.
pub data Matches : Outcome Buffer → Outcome (List ℕ) → Type 0 where
  both_aborted : Matches aborted aborted
  both_out_of_fuel : Matches out_of_fuel out_of_fuel
  both_returned :
      {ok : Bool} {c : Context} {b : Buffer} {xs : List ℕ}
      → Holds xs b
      → Matches (returned ok c b) (returned ok c xs)

module _ {b : Buffer} (v : IsValid b) where
  pub line_to-take :
      (i : ℕ) → i + 2 ≤ length (contents b) → line_to (b.reader_index + i) b ≡ take i (contents b)
  unfolding peek_bytes
  line_to-take i fits =
      ap (λ n. take n (drop b.reader_index b.buffer)) count
      ∙ sym (
          take_fewer i (b.writer_index - b.reader_index) (drop b.reader_index b.buffer)
            (omega (arith, fits, length-contents v)))
    where
      count : b.reader_index + i - b.reader_index ≡ i
      count = omega arith

  pub retrieve_until_line :
      (i : ℕ)
      → i + 2 ≤ length (contents b)
      → Gives (retrieve_until (b.reader_index + i + 2) b) (Holds (drop (i + 2) (contents b)))
  retrieve_until_line i fits =
      subst (λ n. Gives (retrieve_until (b.reader_index + i + 2) b) (Holds (drop n (contents b))))
        count
        (retrieve_until-Holds v (b.reader_index + i + 2) (omega arith)
          (omega (arith, fits, length-contents v)))
    where
      count : b.reader_index + i + 2 - b.reader_index ≡ i + 2
      count = omega arith

  unchanged : Holds (contents b) b
  unchanged = record { valid = v; holds = refl }

  after_request_line-Matches :
      (time i : ℕ)
      → i + 2 ≤ length (contents b)
      → (c : Context) (o : Option (Bool × Request))
      → RoundMatches
          (after_request_line time (b.reader_index + i) c b o)
          (bytes_after_line time c (contents b) (drop (i + 2) (contents b)) o)
  after_request_line-Matches time i fits c none = both_abort
  after_request_line-Matches time i fits c (some (false, r)) = both_leave unchanged
  after_request_line-Matches time i fits c (some (true, r)) =
      let (b', e, h) = retrieve_until_line i fits in rw e (both_again h)

  request_line_round-Matches :
      (time : ℕ) (c : Context) (o : Option ℕ)
      → search_crlf (contents b) ≡ o
      → RoundMatches
          (request_line_round time (map_offset (λ i. b.reader_index + i) o) c b)
          (bytes_line_round time o c (contents b))
  unfolding request_line_round
  request_line_round-Matches time c none e = both_leave unchanged
  request_line_round-Matches time c (some i) e =
      rw (line_to-take i (search_crlf-bound (contents b) e)) (
        after_request_line-Matches time i (search_crlf-bound (contents b) e) c
          (process_request_line (take i (contents b)) c.request))

  header_split-Matches :
      (test : Bool) (c d : Context) {b' : Buffer} {xs : List ℕ}
      → Holds xs b'
      → RoundMatches
          (if test then leave true c b' else again d b')
          (if test then leave true c xs else again d xs)
  header_split-Matches true c d h = both_leave h
  header_split-Matches false c d h = both_again h

  header_round-Matches :
      (c : Context) (o : Option ℕ)
      → search_crlf (contents b) ≡ o
      → RoundMatches
          (header_round (map_offset (λ i. b.reader_index + i) o) c b)
          (bytes_header_round o c (contents b))
  unfolding header_round
  header_round-Matches c none e = both_leave unchanged
  header_round-Matches c (some i) e =
      let (b', f, h) = retrieve_until_line i (search_crlf-bound (contents b) e) in
      rw (f, line_to-take i (search_crlf-bound (contents b) e)) (header_split-Matches _ _ _ h)

  parse_round_in-Matches :
      (s : ParseState) (time : ℕ) (c : Context)
      → RoundMatches (parse_round_in s time c b) (bytes_round s time c (contents b))
  unfolding parse_round_in
  parse_round_in-Matches expect_request_line time c =
      rw (find_crlf-eq v) (request_line_round-Matches time c (search_crlf (contents b)) refl)
  parse_round_in-Matches expect_headers time c =
      rw (find_crlf-eq v) (header_round-Matches c (search_crlf (contents b)) refl)
  parse_round_in-Matches expect_body time c = both_again unchanged
  parse_round_in-Matches got_all time c = both_again unchanged

abbrev after_round : ℕ → ℕ → Round Buffer → Outcome Buffer
after_round n time r = elim r [
  | abort ↦ aborted
  | leave ok c b ↦ returned ok c b
  | again c b ↦ parse_request n time c b
]

after_round-Matches :
    (n time : ℕ)
    → ((c : Context) (b : Buffer) (xs : List ℕ)
        → Holds xs b
        → Matches (parse_request n time c b) (parse_bytes n time c xs))
    → {r : Round Buffer} {q : Round (List ℕ)} → RoundMatches r q
    → Matches (after_round n time r) (bytes_after_round n time q)
after_round-Matches n time rest both_abort = both_aborted
after_round-Matches n time rest (both_leave h) = both_returned h
after_round-Matches n time rest (both_again h) = rest _ _ _ h

-- `parseRequest` runs on a buffer as the parser of byte strings runs on the contents: it stops,
-- returns or goes on alike, with the same request, and the buffer holds the bytes that are left.
pub parse_request-Matches :
    (n time : ℕ) (c : Context) {b : Buffer} {xs : List ℕ}
    → Holds xs b
    → Matches (parse_request n time c b) (parse_bytes n time c xs)
unfolding parse_request parse_bytes
parse_request-Matches zero time c h = both_out_of_fuel
parse_request-Matches (suc n) time c {b = b} h = rw (← h.holds) (
    after_round-Matches n time (λ d b₁ xs k. parse_request-Matches n time d k)
      (parse_round_in-Matches h.valid c.state time c))

pub Matches-returned :
    {o : Outcome Buffer} {ok : Bool} {c : Context} {xs : List ℕ}
    → Matches o (returned ok c xs)
    → (b : Buffer) × (o ≡ returned ok c b) × Holds xs b
Matches-returned (both_returned h) = (_, refl, h)

pub Matches-aborted : {o : Outcome Buffer} → Matches o aborted → o ≡ aborted
Matches-aborted both_aborted = refl

-- The outcome with the contents of the buffer in its place.
abbrev pub contents_of : Outcome Buffer → Outcome (List ℕ)
contents_of aborted = aborted
contents_of out_of_fuel = out_of_fuel
contents_of (returned ok c b) = returned ok c (contents b)

pub Matches-contents_of :
    {o : Outcome Buffer} {p : Outcome (List ℕ)} → Matches o p → contents_of o ≡ p
Matches-contents_of both_aborted = refl
Matches-contents_of both_out_of_fuel = refl
Matches-contents_of (both_returned {ok = ok} {c = c} h) = ap (returned ok c) h.holds
