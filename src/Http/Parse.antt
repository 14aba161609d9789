-- ===== src/Http/Parse.antt =====
-- A whole request as a client writes it goes through `parseRequest`.
use muduo.Base.{
  true, false, ℕ, zero, suc, ◌+◌, ◌<◌, Option, List, [], ◌∷◌, ◌++◌, length, drop, ◌≡◌, refl, ap,
  ◌∙◌, sym, subst, arith, length-append, drop-append_length, append_assoc,
}
use muduo.Base.Bytes.{Lacks, Lacks-append, Lacks-cons, find_here}
use muduo.Buffer.{Buffer}
use muduo.Buffer.Append.{Holds}
use muduo.Buffer.Find.{cr, lf, search_crlf, search_crlf_line}
use muduo.Http.{
  Method, invalid, get, post, head, put, delete, Version, unknown, http10, http11, Request,
  method_string, is_invalid, add_header, trim, skip_spaces, put_header, Context,
  expect_request_line, expect_headers, got_all, returned, parse_request, again,
}
use muduo.Http.Bytes.{
  parse_bytes, bytes_round, bytes_header_round, bytes_after_header, bytes_after_round,
}
use muduo.Http.Line.{
  version_string, is_known, request_line, IsQuery, not_at_end, take_before, drop_behind,
  process_request_line-request_line,
}
use muduo.Http.Refine.{Matches, Matches-returned, parse_request-Matches}

-- "field: value"
abbrev pub header_line : List ℕ → List ℕ → List ℕ
header_line field value = field ++ 58 ∷ 32 ∷ value

-- A field without a colon, and a value with no white space at its ends, both on one line.
pub record GoodHeader (h : List ℕ × List ℕ) : Type 0 where
  pub no_colon : Lacks 58 h.0
  pub one_line_field : Lacks cr h.0
  pub one_line_value : Lacks cr h.1
  pub trimmed : trim h.1 ≡ h.1

abbrev pub AllGood : List (List ℕ × List ℕ) → Type 0
AllGood [] = Unit {0}
AllGood (h ∷ hs) = GoodHeader h × AllGood hs

-- The header lines, the empty line, and what follows.
abbrev pub print_headers : List (List ℕ × List ℕ) → List ℕ → List ℕ
print_headers [] rest = cr ∷ lf ∷ rest
print_headers (h ∷ hs) rest = header_line h.0 h.1 ++ cr ∷ lf ∷ print_headers hs rest

-- The map of the headers: a later field replaces an earlier one of the same name.
abbrev pub with_headers :
    List (List ℕ × List ℕ) → (List ℕ → Option (List ℕ)) → List ℕ → Option (List ℕ)
with_headers [] m = m
with_headers (h ∷ hs) m = with_headers hs (put_header h.0 h.1 m)

module _ (line rest : List ℕ) where
  pub drop_line : drop (length line + 2) (line ++ cr ∷ lf ∷ rest) ≡ rest
  drop_line =
      ap (drop (length line + 2)) (sym (append_assoc line (cr ∷ lf ∷ []) rest))
      ∙ drop-append_length (length line + 2) (line ++ cr ∷ lf ∷ []) rest
          (omega (arith, length-append line (cr ∷ lf ∷ [])))

trim_space : (v : List ℕ) → trim (32 ∷ v) ≡ trim v
unfolding trim skip_spaces
trim_space v = refl

header_line-Lacks : (h : List ℕ × List ℕ) → GoodHeader h → Lacks cr (header_line h.0 h.1)
header_line-Lacks h g =
    Lacks-append cr h.0 (58 ∷ 32 ∷ h.1) g.one_line_field
      (Lacks-cons cr 58 (32 ∷ h.1) refl (Lacks-cons cr 32 h.1 refl g.one_line_value))

bytes_after_header_good :
    (h : List ℕ × List ℕ) (c : Context) (rest : List ℕ)
    → GoodHeader h
    → bytes_after_header (header_line h.0 h.1) c rest
      ≡ again
          (record c {
            request = record c.request { headers = put_header h.0 h.1 c.request.headers };
          })
          rest
unfolding add_header
bytes_after_header_good h c rest g =
    rw
      (
        find_here 58 h.0 (32 ∷ h.1) g.no_colon,
        not_at_end h.0 (32 ∷ h.1) 58,
        take_before h.0 (32 ∷ h.1) 58,
        drop_behind h.0 (32 ∷ h.1) 58,
        trim_space h.1,
        g.trimmed,
      )
      refl

bytes_header_round_line :
    (line : List ℕ) (c : Context) (rest : List ℕ)
    → Lacks cr line
    → bytes_header_round (search_crlf (line ++ cr ∷ lf ∷ rest)) c (line ++ cr ∷ lf ∷ rest)
      ≡ bytes_after_header line c rest
bytes_header_round_line line c rest h = rw (search_crlf_line line rest h) (
    ap (λ xs. bytes_after_header xs c (drop (length line + 2) (line ++ cr ∷ lf ∷ rest)))
      (take_before line (lf ∷ rest) cr)
    ∙ ap (bytes_after_header line c) (drop_line line rest))

method_string-Lacks : (m : Method) → Lacks cr (method_string m)
method_string-Lacks invalid = refl
method_string-Lacks get = refl
method_string-Lacks post = refl
method_string-Lacks head = refl
method_string-Lacks put = refl
method_string-Lacks delete = refl

version_string-Lacks : (v : Version) → Lacks cr (version_string v)
version_string-Lacks unknown = refl
version_string-Lacks http10 = refl
version_string-Lacks http11 = refl

parse_bytes_headers :
    (hs : List (List ℕ × List ℕ)) (n time : ℕ) (r : Request) (rest : List ℕ)
    → length hs < n
    → AllGood hs
    → parse_bytes n time (record { state = expect_headers; request = r }) (print_headers hs rest)
      ≡ returned true
          (record { state = got_all; request = record r { headers = with_headers hs r.headers } })
          rest
unfolding parse_bytes
parse_bytes_headers hs zero time r rest l g = absurd (omega arith)
parse_bytes_headers [] (suc n) time r rest l g = refl
parse_bytes_headers (h ∷ hs) (suc n) time r rest l (g, gs) =
    ap (bytes_after_round n time) (
      bytes_header_round_line (header_line h.0 h.1) (record { state = expect_headers; request = r })
        (print_headers hs rest) (header_line-Lacks h g)
      ∙ bytes_after_header_good h (record { state = expect_headers; request = r })
          (print_headers hs rest) g)
    ∙ parse_bytes_headers hs n time (record r { headers = put_header h.0 h.1 r.headers }) rest
        (omega arith) gs

abbrev pub parsed :
    ℕ → Method → List ℕ → List ℕ → Version → List (List ℕ × List ℕ) → Request → Request
parsed time m path query v hs r = record {
  method = m;
  version = v;
  path = path;
  query = query;
  receive_time = time;
  headers = with_headers hs r.headers;
}

abbrev pub message : Method → List ℕ → List ℕ → Version → List (List ℕ × List ℕ) → List ℕ → List ℕ
message m path query v hs rest = request_line m path query v ++ cr ∷ lf ∷ print_headers hs rest

-- The parts of a request line that a client may send.
pub record GoodLine (m : Method) (path query : List ℕ) (v : Version) : Type 0 where
  pub method_valid : is_invalid m ≡ false
  pub version_valid : is_known v ≡ true
  pub no_space : Lacks 32 (path ++ query)
  pub one_line : Lacks cr (path ++ query)
  pub no_question_mark : Lacks 63 path
  pub query_valid : IsQuery query

module _ {m : Method} {path query : List ℕ} {v : Version} (g : GoodLine m path query v) where
  request_line-Lacks : Lacks cr (request_line m path query v)
  request_line-Lacks =
      Lacks-append cr (method_string m) (32 ∷ ((path ++ query) ++ 32 ∷ version_string v))
        (method_string-Lacks m)
        (Lacks-cons cr 32 ((path ++ query) ++ 32 ∷ version_string v) refl (
          Lacks-append cr (path ++ query) (32 ∷ version_string v) g.one_line
            (Lacks-cons cr 32 (version_string v) refl (version_string-Lacks v))))

  bytes_line_round_line :
      (time : ℕ) (r : Request) (rest : List ℕ)
      → is_invalid r.method ≡ true
      → r.query ≡ []
      → bytes_round expect_request_line time
          (record { state = expect_request_line; request = r })
          (request_line m path query v ++ cr ∷ lf ∷ rest)
        ≡ again (record { state = expect_headers; request = parsed time m path query v [] r }) rest
  bytes_line_round_line time r rest fresh none_yet =
      rw
        (
          search_crlf_line (request_line m path query v) rest request_line-Lacks,
          take_before (request_line m path query v) (lf ∷ rest) cr,
          drop_line (request_line m path query v) rest,
          process_request_line-request_line m path query v r g.method_valid g.no_space
              g.no_question_mark g.query_valid g.version_valid fresh none_yet,
        )
        refl

  parse_bytes_message :
      (hs : List (List ℕ × List ℕ)) (n time : ℕ) (r : Request) (rest : List ℕ)
      → length hs + 1 < n
      → AllGood hs
      → is_invalid r.method ≡ true
      → r.query ≡ []
      → parse_bytes n time
          (record { state = expect_request_line; request = r })
          (message m path query v hs rest)
        ≡ returned true (record { state = got_all; request = parsed time m path query v hs r }) rest
  unfolding parse_bytes
  parse_bytes_message hs zero time r rest l gs fresh none_yet = absurd (omega arith)
  parse_bytes_message hs (suc n) time r rest l gs fresh none_yet =
      ap (bytes_after_round n time)
        (bytes_line_round_line time r (print_headers hs rest) fresh none_yet)
      ∙ parse_bytes_headers hs n time (parsed time m path query v [] r) rest (omega arith) gs

  -- When the buffer holds a request line with a known method and version, a path and a query without
  -- spaces and line ends, then header lines, the empty line and more bytes, and the context expects a
  -- request line of a request with no method and no query yet, then `parseRequest` returns true within
  -- two rounds and one for each header: the request has the method, the path, the query, the version
  -- and the headers, and the buffer holds the other bytes.
  pub parse_request-message :
      {b : Buffer} (hs : List (List ℕ × List ℕ)) (n time : ℕ) (r : Request) (rest : List ℕ)
      → Holds (message m path query v hs rest) b
      → length hs + 1 < n
      → AllGood hs
      → is_invalid r.method ≡ true
      → r.query ≡ []
      → (b' : Buffer) × (parse_request n time
            (record { state = expect_request_line; request = r })
            b
          ≡ returned true
              (record { state = got_all; request = parsed time m path query v hs r })
              b')
        × Holds rest b'
  parse_request-message {b} hs n time r rest h l gs fresh none_yet = Matches-returned (
      subst (Matches (parse_request n time (record { state = expect_request_line; request = r }) b))
        (parse_bytes_message hs n time r rest l gs fresh none_yet)
        (parse_request-Matches n time (record { state = expect_request_line; request = r }) h))
