-- ===== src/Http.antt =====
-- muduo/net/http/HttpRequest.h, HttpContext.h and HttpContext.cc: the parser of requests. A string is
-- the list of its bytes; a time is a number. `none` is the failed assertion of `setMethod`.
pub mod Bytes
pub mod Line
pub mod Refine
pub mod Parse
pub mod Stops
pub mod BadLine
pub mod Chunks
pub mod Tests
use muduo.Base.{
  Bool, true, false, not, ◌||◌, ◌&&◌, ℕ, zero, suc, ◌+◌, ◌-◌, Option, none, some, List, [], ◌∷◌,
  ◌==◌, ltb, leb, if◌then◌else◌, ◌>>=◌, ◌>>◌, assert, length, take, drop, get_elem?,
}
use muduo.Base.Bytes.{find, bytes_eq}
use muduo.Buffer.{Buffer, retrieve_until, peek_bytes}
use muduo.Buffer.Find.{find_crlf}

pub data Method : Type 0 where
  invalid get post head put delete : Method

pub data Version : Type 0 where
  unknown http10 http11 : Version

pub record Request : Type 0 where
  pub method : Method
  pub version : Version
  pub path : List ℕ
  pub query : List ℕ
  pub receive_time : ℕ
  pub headers : List ℕ → Option (List ℕ)

unfoldable pub new_request : Request
new_request = record {
  method = invalid;
  version = unknown;
  path = [];
  query = [];
  receive_time = 0;
  headers = λ _. none;
}

abbrev pub method_string : Method → List ℕ
method_string get = 71 ∷ 69 ∷ 84 ∷ []
method_string post = 80 ∷ 79 ∷ 83 ∷ 84 ∷ []
method_string head = 72 ∷ 69 ∷ 65 ∷ 68 ∷ []
method_string put = 80 ∷ 85 ∷ 84 ∷ []
method_string delete = 68 ∷ 69 ∷ 76 ∷ 69 ∷ 84 ∷ 69 ∷ []
method_string invalid = 85 ∷ 78 ∷ 75 ∷ 78 ∷ 79 ∷ 87 ∷ 78 ∷ []

abbrev pub is_invalid : Method → Bool
is_invalid invalid = true
is_invalid get = false
is_invalid post = false
is_invalid head = false
is_invalid put = false
is_invalid delete = false

unfoldable pub method_of : List ℕ → Method
method_of m =
    if bytes_eq m (method_string get)
    then get
    else if bytes_eq m (method_string post)
    then post
    else if bytes_eq m (method_string head)
    then head
    else if bytes_eq m (method_string put)
    then put
    else if bytes_eq m (method_string delete)
    then delete
    else invalid

unfoldable pub set_method : List ℕ → Request → Option (Bool × Request)
unfolding method_of
set_method m r = do
  assert (is_invalid r.method)
  some (not (is_invalid (method_of m)), record r { method = method_of m })

-- `isspace` in the "C" locale
abbrev pub is_space : ℕ → Bool
is_space c = c == 32 || (leb 9 c && leb c 13)

unfoldable pub skip_spaces : List ℕ → List ℕ
skip_spaces [] = []
skip_spaces (x ∷ xs) = let rest = skip_spaces xs in if is_space x then rest else x ∷ xs

abbrev pub is_space_at : Option ℕ → Bool
is_space_at none = false
is_space_at (some c) = is_space c

-- The loop that takes white space off the end; the first argument is the size.
unfoldable pub resize_down : ℕ → List ℕ → List ℕ
resize_down zero v = []
resize_down (suc n) v =
    let rest = resize_down n v in if is_space_at (get_elem? v n) then rest else take (suc n) v

unfoldable pub trim : List ℕ → List ℕ
unfolding skip_spaces resize_down
trim v = let value = skip_spaces v in resize_down (length value) value

abbrev pub put_header : List ℕ → List ℕ → (List ℕ → Option (List ℕ)) → List ℕ → Option (List ℕ)
put_header field value h f = if bytes_eq f field then some value else h f

-- `line` is the text from `start` to `end`, `colon` an offset in it.
unfoldable pub add_header : List ℕ → ℕ → Request → Request
unfolding trim
add_header line colon r = record r {
  headers = put_header (take colon line) (trim (drop (colon + 1) line)) r.headers;
}

abbrev pub value_or_empty : Option (List ℕ) → List ℕ
value_or_empty none = []
value_or_empty (some v) = v

unfoldable pub get_header : Request → List ℕ → List ℕ
get_header r field = value_or_empty (r.headers field)

unfoldable pub set_target : List ℕ → Request → Request
set_target target r =
    let question = find 63 target in
    if question == length target
    then record r { path = target }
    else record r { path = take question target; query = drop question target }

-- "HTTP/1."
abbrev pub http_1 : List ℕ
http_1 = 72 ∷ 84 ∷ 84 ∷ 80 ∷ 47 ∷ 49 ∷ 46 ∷ []

unfoldable pub set_version : List ℕ → Request → Bool × Request
set_version text r =
    if length text == 8 && bytes_eq (take 7 text) http_1
    then (if bytes_eq (drop 7 text) (49 ∷ [])
        then (true, record r { version = http11 })
        else (if bytes_eq (drop 7 text) (48 ∷ [])
            then (true, record r { version = http10 })
            else (false, r)))
    else (false, r)

-- What follows the method in the request line.
unfoldable pub process_target : List ℕ → Request → Bool × Request
unfolding set_target set_version
process_target rest r =
    let space = find 32 rest in
    if space == length rest
    then (false, r)
    else set_version (drop (space + 1) rest) (set_target (take space rest) r)

unfoldable pub process_request_line : List ℕ → Request → Option (Bool × Request)
unfolding set_method process_target
process_request_line line r =
    let space = find 32 line in
    if space == length line then some (false, r) else (do
      known ← set_method (take space line) r
      some (if known.0 then process_target (drop (space + 1) line) known.1 else known))

pub data ParseState : Type 0 where
  expect_request_line expect_headers expect_body got_all : ParseState

pub record Context : Type 0 where
  pub state : ParseState
  pub request : Request

unfoldable pub new_context : Context
new_context = record { state = expect_request_line; request = new_request }

-- The same as a new context, by `swap` with an empty request.
unfoldable pub reset : Context → Context
reset c = record { state = expect_request_line; request = new_request }

-- One round of the loop: it stops the program, leaves the loop with `ok`, or goes on.
-- `B` is what is left to parse: the buffer.
pub data Round (B : Type 0) : Type 0 where
  abort : Round B
  leave : Bool → Context → B → Round B
  again : Context → B → Round B

abbrev pub retrieving : Option Buffer → (Buffer → Round Buffer) → Round Buffer
retrieving none k = abort
retrieving (some b) k = k b

-- The text from `peek()` to the offset `crlf`.
abbrev pub line_to : ℕ → Buffer → List ℕ
line_to crlf b = peek_bytes (crlf - b.reader_index) b

abbrev pub after_request_line : ℕ → ℕ → Context → Buffer → Option (Bool × Request) → Round Buffer
after_request_line time crlf c b none = abort
after_request_line time crlf c b (some (false, r)) = leave false (record c { request = r }) b
after_request_line time crlf c b (some (true, r)) =
    retrieving (retrieve_until (crlf + 2) b) (λ b'.
      again (record { state = expect_headers; request = record r { receive_time = time } }) b')

unfoldable pub request_line_round : ℕ → Option ℕ → Context → Buffer → Round Buffer
request_line_round time none c b = leave true c b
request_line_round time (some crlf) c b =
    after_request_line time crlf c b (process_request_line (line_to crlf b) c.request)

unfoldable pub header_round : Option ℕ → Context → Buffer → Round Buffer
header_round none c b = leave true c b
header_round (some crlf) c b =
    let line = line_to crlf b in
    let colon = find 58 line in
    retrieving (retrieve_until (crlf + 2) b) (λ b'.
      if colon == length line
      then leave true (record c { state = got_all }) b'
      else again (record c { request = add_header line colon c.request }) b')

unfoldable pub parse_round_in : ParseState → ℕ → Context → Buffer → Round Buffer
unfolding request_line_round header_round
parse_round_in expect_request_line time c b = request_line_round time (find_crlf b) c b
parse_round_in expect_headers time c b = header_round (find_crlf b) c b
parse_round_in expect_body time c b = again c b
parse_round_in got_all time c b = again c b

pub data Outcome (B : Type 0) : Type 0 where
  aborted out_of_fuel : Outcome B
  returned : Bool → Context → B → Outcome B

-- `parseRequest`; the first argument bounds the rounds of its loop.
unfoldable pub parse_request : ℕ → ℕ → Context → Buffer → Outcome Buffer
parse_request zero time c b = out_of_fuel
parse_request (suc n) time c b = elim (parse_round_in c.state time c b) [
  | abort ↦ aborted
  | leave ok c' b' ↦ returned ok c' b'
  | again c' b' ↦ parse_request n time c' b'
]
