-- ===== src/HttpServer.antt =====
-- muduo/net/http/HttpResponse.h, HttpResponse.cc and HttpServer.cc: the responses, and what the server
-- does with the bytes of a connection. `none` is a failed assertion.
pub mod Printed
pub mod Answers
pub mod Refuses
mod Tests
use muduo.Base.{
  Bool, true, false, not, ◌||◌, ◌&&◌, ℕ, ◌-◌, Option, none, some, List, [], ◌∷◌, ◌++◌, ◌==◌, ltb,
  length, take, if◌then◌else◌, ◌>>=◌,
}
use muduo.Base.Bytes.{bytes_eq}
use muduo.Buffer.{Buffer, initial_size, readable_bytes, peek_bytes, append}
use muduo.Http.{
  Request, Version, http10, http11, unknown, get_header, Context, ParseState, got_all,
  expect_request_line, expect_headers, expect_body, reset, parse_request,
}

pub data StatusCode : Type 0 where
  unknown_status ok moved_permanently bad_request not_found : StatusCode

abbrev pub status_number : StatusCode → ℕ
status_number unknown_status = 0
status_number ok = 200
status_number moved_permanently = 301
status_number bad_request = 400
status_number not_found = 404

-- The map is the list of its entries, in the order of the keys.
pub record Response : Type 0 where
  pub headers : List (List ℕ × List ℕ)
  pub status_code : StatusCode
  pub status_message : List ℕ
  pub close_connection : Bool
  pub body : List ℕ

unfoldable pub new_response : Bool → Response
new_response close = record {
  headers = [];
  status_code = unknown_status;
  status_message = [];
  close_connection = close;
  body = [];
}

-- "Not Found"
abbrev pub not_found_text : List ℕ
not_found_text = 78 ∷ 111 ∷ 116 ∷ 32 ∷ 70 ∷ 111 ∷ 117 ∷ 110 ∷ 100 ∷ []

-- `defaultHttpCallback`, on any state.
unfoldable pub default_http_callback : {W : Type 0} → Request → Response → W → Response × W
default_http_callback req r w = (
  record r { status_code = not_found; status_message = not_found_text; close_connection = true },
  w,
)

-- `operator<` of strings.
abbrev pub bytes_less : List ℕ → List ℕ → Bool
bytes_less [] [] = false
bytes_less [] (y ∷ ys) = true
bytes_less (x ∷ xs) [] = false
bytes_less (x ∷ xs) (y ∷ ys) = ltb x y || (x == y && bytes_less xs ys)

-- `headers_[key] = value`
unfoldable pub insert_header : List ℕ → List ℕ → List (List ℕ × List ℕ) → List (List ℕ × List ℕ)
insert_header key value [] = (key, value) ∷ []
insert_header key value (h ∷ hs) =
    let rest = insert_header key value hs in
    if bytes_less key h.0
    then (key, value) ∷ h ∷ hs
    else if bytes_less h.0 key
    then h ∷ rest
    else (key, value) ∷ hs

unfoldable pub add_response_header : List ℕ → List ℕ → Response → Response
unfolding insert_header
add_response_header key value r = record r { headers = insert_header key value r.headers }

abbrev pub crlf : List ℕ
crlf = 13 ∷ 10 ∷ []

-- "HTTP/1.1 "
abbrev pub http_1_1 : List ℕ
http_1_1 = 72 ∷ 84 ∷ 84 ∷ 80 ∷ 47 ∷ 49 ∷ 46 ∷ 49 ∷ 32 ∷ []

-- "Connection"
abbrev pub connection_field : List ℕ
connection_field = 67 ∷ 111 ∷ 110 ∷ 110 ∷ 101 ∷ 99 ∷ 116 ∷ 105 ∷ 111 ∷ 110 ∷ []

-- "close"
abbrev pub close_value : List ℕ
close_value = 99 ∷ 108 ∷ 111 ∷ 115 ∷ 101 ∷ []

-- "Keep-Alive"
abbrev pub keep_alive_value : List ℕ
keep_alive_value = 75 ∷ 101 ∷ 101 ∷ 112 ∷ 45 ∷ 65 ∷ 108 ∷ 105 ∷ 118 ∷ 101 ∷ []

-- ": "
abbrev pub colon : List ℕ
colon = 58 ∷ 32 ∷ []

-- "Content-Length: "
abbrev pub content_length : List ℕ
content_length =
    67 ∷ 111 ∷ 110 ∷ 116 ∷ 101 ∷ 110 ∷ 116 ∷ 45 ∷ 76 ∷ 101 ∷ 110 ∷ 103 ∷ 116 ∷ 104 ∷ 58 ∷ 32 ∷ []

-- "HTTP/1.1 400 Bad Request" and the empty line
abbrev pub bad_request_text : List ℕ
bad_request_text =
    http_1_1
    ++ (52 ∷ 48 ∷ 48 ∷ 32 ∷ 66 ∷ 97 ∷ 100 ∷ 32 ∷ 82 ∷ 101 ∷ 113 ∷ 117 ∷ 101 ∷ 115 ∷ 116 ∷ crlf
        ++ crlf)

-- A call of the connection.
pub data Action : Type 0 where
  sends : List ℕ → Action
  shuts_down : Action

pub data Outcome (W : Type 0) : Type 0 where
  aborted out_of_fuel : Outcome W
  returned : Context → Buffer → W → List Action → Outcome W

abbrev pub is_http10 : Version → Bool
is_http10 http10 = true
is_http10 http11 = false
is_http10 unknown = false

abbrev pub is_got_all : ParseState → Bool
is_got_all got_all = true
is_got_all expect_request_line = false
is_got_all expect_headers = false
is_got_all expect_body = false

unfoldable pub append_headers : List (List ℕ × List ℕ) → Buffer → Option Buffer
append_headers [] b = some b
append_headers (h ∷ hs) b = do
  b₁ ← append h.0 b
  b₂ ← append colon b₁
  b₃ ← append h.1 b₂
  b₄ ← append crlf b₃
  append_headers hs b₄

-- `decimal` is what `%d` and `%zd` print; `snprintf` cuts the text to 31 bytes.
module _ (decimal : ℕ → List ℕ) where
  abbrev pub status_start : StatusCode → List ℕ
  status_start code = take 31 (http_1_1 ++ (decimal (status_number code) ++ 32 ∷ []))

  abbrev pub length_line : List ℕ → List ℕ
  length_line body = take 31 (content_length ++ (decimal (length body) ++ crlf))

  unfoldable pub append_connection : Response → Buffer → Option Buffer
  append_connection r b =
      if r.close_connection
      then append (connection_field ++ (colon ++ (close_value ++ crlf))) b
      else (do
        b₁ ← append (length_line r.body) b
        append (connection_field ++ (colon ++ (keep_alive_value ++ crlf))) b₁)

  unfoldable pub append_to_buffer : Response → Buffer → Option Buffer
  append_to_buffer r b = do
    b₁ ← append (status_start r.status_code) b
    b₂ ← append r.status_message b₁
    b₃ ← append crlf b₂
    b₄ ← append_connection r b₃
    b₅ ← append_headers r.headers b₄
    b₆ ← append crlf b₅
    append r.body b₆

  -- The callback acts on the state `W` of the rest of the program.
  module _ {W : Type 0} (http_callback : Request → Response → W → Response × W) where
    unfoldable pub closes : Request → Bool
    closes req =
        let connection = get_header req connection_field in
        bytes_eq connection close_value
        || (is_http10 req.version && not (bytes_eq connection keep_alive_value))

    unfoldable pub on_request : Request → W → Option (W × List Action)
    on_request req w =
        let answer = http_callback req (new_response (closes req)) w in
        (do
          buf ← muduo.Buffer.new initial_size
          buf' ← append_to_buffer answer.0 buf
          some (
            answer.1,
            sends (peek_bytes (readable_bytes buf') buf')
                ∷ (if answer.0.close_connection then shuts_down ∷ [] else []),
          ))

    abbrev pub requested : List Action → Context → Buffer → Option (W × List Action) → Outcome W
    requested before c b none = aborted
    requested before c b (some (w', actions)) = returned (reset c) b w' (before ++ actions)

    unfoldable pub after_parse : Bool → Context → Buffer → W → Outcome W
    after_parse parsed c b w =
        let before = if parsed then [] else sends bad_request_text ∷ shuts_down ∷ [] in
        if is_got_all c.state
        then requested before c b (on_request c.request w)
        else returned c b w before

    -- `onMessage`; the first argument bounds the rounds of `parseRequest`.
    unfoldable pub on_message : ℕ → ℕ → Context → Buffer → W → Outcome W
    on_message n time c b w = elim (parse_request n time c b) [
      | muduo.Http.aborted ↦ aborted
      | muduo.Http.out_of_fuel ↦ out_of_fuel
      | muduo.Http.returned parsed c' b' ↦ after_parse parsed c' b' w
    ]
