-- ===== src/Http/Chunks.antt =====
-- A request that arrives in pieces is parsed as if it had arrived at once.
use muduo.Base.{
  Bool, true, false, ℕ, zero, suc, ◌+◌, ◌≤◌, Option, none, some, List, ◌++◌, ◌==◌, length, take,
  drop, ◌≡◌, refl, ap, ◌∙◌, sym, subst, arith, ◌⊎◌, inl, inr, if◌then◌else◌, take-append_le,
  drop-append_le,
}
use muduo.Base.Bytes.{find}
use muduo.Buffer.{Buffer}
use muduo.Buffer.Content.{contents}
use muduo.Buffer.Append.{Holds}
use muduo.Buffer.Find.{search_crlf, search_crlf-bound, search_crlf-append}
use muduo.Http.{
  Request, process_request_line, add_header, Context, ParseState, expect_request_line,
  expect_headers, expect_body, got_all, Outcome, returned, aborted, out_of_fuel, parse_request,
  Round, leave, again, abort,
}
use muduo.Http.Bytes.{
  parse_bytes, bytes_round, bytes_header_round, bytes_line_round, bytes_after_line,
  bytes_after_round,
}
use muduo.Http.Refine.{contents_of, Matches-contents_of, parse_request-Matches}

-- What a round does on some bytes, against the round on the same bytes with `more` behind them. A round
-- that waits for more bytes says nothing about that.
abbrev pub Continues : List ℕ → Context → List ℕ → Round (List ℕ) → Round (List ℕ) → Type 0
Continues more c xs abort r = r ≡ abort
Continues more c xs (again d rest) r = r ≡ again d (rest ++ more)
Continues more c xs (leave false d rest) r = r ≡ leave false d (rest ++ more)
Continues more c xs (leave true d rest) r =
    (r ≡ leave true d (rest ++ more)) × (d.state ≡ got_all) ⊎ ((d ≡ c) × (rest ≡ xs))

module _ (more xs : List ℕ) (i : ℕ) (h : i + 2 ≤ length xs) where
  take_line_more : take i (xs ++ more) ≡ take i xs
  take_line_more = take-append_le i xs more (omega arith)

  drop_line_more : drop (i + 2) (xs ++ more) ≡ drop (i + 2) xs ++ more
  drop_line_more = drop-append_le (i + 2) xs more h

after_line-Continues :
    (more xs rest : List ℕ) (time : ℕ) (c : Context) (o : Option (Bool × Request))
    → Continues more c xs
        (bytes_after_line time c xs rest o)
        (bytes_after_line time c (xs ++ more) (rest ++ more) o)
after_line-Continues more xs rest time c none = refl
after_line-Continues more xs rest time c (some (false, r)) = refl
after_line-Continues more xs rest time c (some (true, r)) = refl

line_round-Continues :
    (more xs : List ℕ) (time : ℕ) (c : Context) (o : Option ℕ)
    → search_crlf xs ≡ o
    → Continues more c xs
        (bytes_line_round time o c xs)
        (bytes_line_round time (search_crlf (xs ++ more)) c (xs ++ more))
line_round-Continues more xs time c none e = inr (refl, refl)
line_round-Continues more xs time c (some i) e =
    rw
      (
        search_crlf-append xs more e,
        take_line_more more xs i (search_crlf-bound xs e),
        drop_line_more more xs i (search_crlf-bound xs e),
      )
      (after_line-Continues more xs (drop (i + 2) xs) time c
        (process_request_line (take i xs) c.request))

after_header-Continues :
    (more xs rest : List ℕ) (test : Bool) (c d e : Context)
    → d.state ≡ got_all
    → Continues more c xs
        (if test then leave true d rest else again e rest)
        (if test then leave true d (rest ++ more) else again e (rest ++ more))
after_header-Continues more xs rest true c d e s = inl (refl, s)
after_header-Continues more xs rest false c d e s = refl

header_round-Continues :
    (more xs : List ℕ) (c : Context) (o : Option ℕ)
    → search_crlf xs ≡ o
    → Continues more c xs
        (bytes_header_round o c xs)
        (bytes_header_round (search_crlf (xs ++ more)) c (xs ++ more))
header_round-Continues more xs c none e = inr (refl, refl)
header_round-Continues more xs c (some i) e =
    rw
      (
        search_crlf-append xs more e,
        take_line_more more xs i (search_crlf-bound xs e),
        drop_line_more more xs i (search_crlf-bound xs e),
      )
      (after_header-Continues more xs (drop (i + 2) xs) (find 58 (take i xs) == length (take i xs))
        c (record c { state = got_all })
        (record c { request = add_header (take i xs) (find 58 (take i xs)) c.request }) refl)

bytes_round-Continues :
    (more xs : List ℕ) (s : ParseState) (time : ℕ) (c : Context)
    → Continues more c xs (bytes_round s time c xs) (bytes_round s time c (xs ++ more))
bytes_round-Continues more xs expect_request_line time c =
    line_round-Continues more xs time c (search_crlf xs) refl
bytes_round-Continues more xs expect_headers time c =
    header_round-Continues more xs c (search_crlf xs) refl
bytes_round-Continues more xs expect_body time c = refl
bytes_round-Continues more xs got_all time c = refl

-- The parser returned on the bytes. Where it is done with a request or refuses a line, more bytes
-- behind them do not matter. Where it waits, it gets to the same place with more bytes, and goes on as
-- a second call of `n₂` rounds does.
abbrev pub Resumes : List ℕ → ℕ → ℕ → ℕ → Context → List ℕ → Outcome (List ℕ) → Type 0
Resumes more n n₂ time c xs aborted = Unit {0}
Resumes more n n₂ time c xs out_of_fuel = Unit {0}
Resumes more n n₂ time c xs (returned ok d rest) =
    (((ok ≡ false) ⊎ (d.state ≡ got_all))
      × (parse_bytes n time c (xs ++ more) ≡ returned ok d (rest ++ more)))
    ⊎ ((m : ℕ) × (m ≤ n + n₂)
        × (parse_bytes m time c (xs ++ more) ≡ parse_bytes n₂ time d (rest ++ more)))

Resumes-again :
    (more : List ℕ) (n n₂ time : ℕ) (c d : Context) (xs rest : List ℕ)
    → bytes_round c.state time c (xs ++ more) ≡ again d (rest ++ more)
    → (o : Outcome (List ℕ)) → Resumes more n n₂ time d rest o
    → Resumes more (suc n) n₂ time c xs o
unfolding parse_bytes
Resumes-again more n n₂ time c d xs rest e aborted h = tt
Resumes-again more n n₂ time c d xs rest e out_of_fuel h = tt
Resumes-again more n n₂ time c d xs rest e (returned ok f ys) (inl (s, g)) =
    inl (s, ap (bytes_after_round n time) e ∙ g)
Resumes-again more n n₂ time c d xs rest e (returned ok f ys) (inr (m, l, g)) =
    inr (suc m, omega arith, ap (bytes_after_round m time) e ∙ g)

after_round-Resumes :
    (more : List ℕ) (n n₂ time : ℕ) (c : Context) (xs : List ℕ)
    → ((d : Context) (ys : List ℕ) → Resumes more n n₂ time d ys (parse_bytes n time d ys))
    → (r : Round (List ℕ)) → Continues more c xs r (bytes_round c.state time c (xs ++ more))
    → Resumes more (suc n) n₂ time c xs (bytes_after_round n time r)
unfolding parse_bytes
after_round-Resumes more n n₂ time c xs rest abort h = tt
after_round-Resumes more n n₂ time c xs rest (again d ys) h =
    Resumes-again more n n₂ time c d xs ys h (parse_bytes n time d ys) (rest d ys)
after_round-Resumes more n n₂ time c xs rest (leave false d ys) h =
    inl (inl refl, ap (bytes_after_round n time) h)
after_round-Resumes more n n₂ time c xs rest (leave true d ys) (inl (h, s)) =
    inl (inr s, ap (bytes_after_round n time) h)
after_round-Resumes more n n₂ time c xs rest (leave true d ys) (inr (e, f)) =
    inr (n₂, omega arith, rw (e, f) refl)

parse_bytes-Resumes :
    (more : List ℕ) (n n₂ time : ℕ) (c : Context) (xs : List ℕ)
    → Resumes more n n₂ time c xs (parse_bytes n time c xs)
unfolding parse_bytes
parse_bytes-Resumes more zero n₂ time c xs = tt
parse_bytes-Resumes more (suc n) n₂ time c xs =
    after_round-Resumes more n n₂ time c xs (parse_bytes-Resumes more n n₂ time)
      (bytes_round c.state time c xs) (bytes_round-Continues more xs c.state time c)

-- The two ways in which a parse that has returned goes on when more bytes come: by the outcome of the
-- whole at once, and by that of the second call.
abbrev pub InPieces : ℕ → ℕ → ℕ → Context → Bool → Context → Buffer → Buffer → List ℕ → Type 0
InPieces n n₂ time c ok d whole second rest =
    (((ok ≡ false) ⊎ (d.state ≡ got_all))
      × (contents_of (parse_request n time c whole) ≡ returned ok d rest))
    ⊎ ((m : ℕ) × (m ≤ n + n₂)
        × (contents_of (parse_request m time c whole)
            ≡ contents_of (parse_request n₂ time d second)))

-- When `parseRequest` has returned on a buffer and more bytes are appended, then either it was done or
-- had refused the line, and on all the bytes at once it returns the same with the additional bytes
-- left, or a second call of at most `n₂` rounds comes out as one call on all the bytes at once (of the
-- same time of receipt), with the same request and the same bytes left.
pub parse_request-InPieces :
    {b b' whole second : Buffer} (xs more : List ℕ) (n n₂ time : ℕ) (c : Context) (ok : Bool)
    (d : Context)
    → Holds xs b
    → parse_request n time c b ≡ returned ok d b'
    → Holds (xs ++ more) whole
    → Holds (contents b' ++ more) second
    → InPieces n n₂ time c ok d whole second (contents b' ++ more)
parse_request-InPieces {b' = b'} {whole = whole} {second = second} xs more n n₂ time c ok d h e w
      s =
    go (subst (Resumes more n n₂ time c xs) first (parse_bytes-Resumes more n n₂ time c xs))
  where
    first : parse_bytes n time c xs ≡ returned ok d (contents b')
    first = sym (Matches-contents_of (parse_request-Matches n time c h)) ∙ ap contents_of e

    at_once :
        (m : ℕ) → contents_of (parse_request m time c whole) ≡ parse_bytes m time c (xs ++ more)
    at_once m = Matches-contents_of (parse_request-Matches m time c w)

    go :
        Resumes more n n₂ time c xs (returned ok d (contents b'))
        → InPieces n n₂ time c ok d whole second (contents b' ++ more)
    go (inl (t, f)) = inl (t, at_once n ∙ f)
    go (inr (m, l, f)) =
        inr (m, l, at_once m ∙ (f ∙ sym (Matches-contents_of (parse_request-Matches n₂ time d s))))
