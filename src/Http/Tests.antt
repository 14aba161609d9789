-- ===== src/Http/Tests.antt =====
-- The parser at concrete inputs.
use muduo.Base.{true, false, ℕ, ◌≡◌, refl, none, List, [], ◌∷◌, ◌++◌, arith, length, ◌+◌}
use muduo.Base.Size.{add_size, sub_size}
use muduo.Buffer.Find.{find_crlf, cr, lf}
use muduo.Buffer.{Buffer, retrieve_until, retrieve, peek_bytes, readable_bytes}
use muduo.Buffer.Content.{contents}
use muduo.Buffer.Append.{Holds}
use muduo.Http.{
  get, invalid, unknown, http11, Request, Context, expect_request_line, expect_headers, got_all,
  returned, parse_request, parse_round_in, request_line_round, header_round, process_request_line,
  set_method, method_of, process_target, set_target, set_version, trim, skip_spaces, resize_down,
}
use muduo.Http.Line.{request_line}
use muduo.Http.Parse.{message, parsed, GoodLine, GoodHeader, parse_request-message}
use muduo.Http.Stops.{Returned, parse_request-Returned}
use muduo.Http.BadLine.{bad_line}
use muduo.Http.Chunks.{InPieces, parse_request-InPieces}

-- "/a?b" and "H: v"
abbrev pub path : List ℕ
path = 47 ∷ 97 ∷ []

abbrev pub query : List ℕ
query = 63 ∷ 98 ∷ []

abbrev pub header : List ℕ × List ℕ
header = (72 ∷ [], 118 ∷ [])

abbrev pub holding : List ℕ → Buffer
holding xs = record {
  buffer = (0 ∷ 0 ∷ 0 ∷ 0 ∷ 0 ∷ 0 ∷ 0 ∷ 0 ∷ []) ++ xs;
  reader_index = 8;
  writer_index = 8 + length xs;
}

abbrev pub whole_message : List ℕ
whole_message = message get path query http11 (header ∷ []) (71 ∷ [])

pub whole-Holds : Holds whole_message (holding whole_message)
whole-Holds = record { valid = omega arith; holds = refl }

pub good_line : GoodLine get path query http11
good_line = record {
  method_valid = refl;
  version_valid = refl;
  no_space = refl;
  one_line = refl;
  no_question_mark = refl;
  query_valid = refl;
}

pub good_header : GoodHeader header
unfolding trim skip_spaces resize_down
good_header = record {
  no_colon = refl;
  one_line_field = refl;
  one_line_value = refl;
  trimmed = refl;
}

abbrev blank_request : Request
blank_request = record {
  method = invalid;
  version = unknown;
  path = [];
  query = [];
  receive_time = 0;
  headers = λ _. none;
}

abbrev waiting : Context
waiting = record { state = expect_request_line; request = blank_request }

parse_request-message_example :
    (b' : Buffer) × (parse_request 4 9 waiting (holding whole_message)
      ≡ returned true
          (record {
            state = got_all;
            request = parsed 9 get path query http11 (header ∷ []) blank_request;
          })
          b')
    × Holds (71 ∷ []) b'
parse_request-message_example =
    parse_request-message good_line (header ∷ []) 4 9 blank_request (71 ∷ []) whole-Holds
      (omega arith) (good_header, tt) refl refl

parse_request-Returned_example :
    Returned (contents (holding whole_message)) (parse_request 60 9 waiting (holding whole_message))
parse_request-Returned_example =
    parse_request-Returned 60 9 waiting whole-Holds.valid refl (omega arith)

-- The request line and the first byte of a header, and then the rest.
abbrev first_part : List ℕ
first_part = request_line get path query http11 ++ cr ∷ lf ∷ 72 ∷ []

abbrev second_part : List ℕ
second_part = 58 ∷ 32 ∷ 118 ∷ cr ∷ lf ∷ cr ∷ lf ∷ []

abbrev after_first : Context
after_first = record {
  state = expect_headers;
  request = parsed 9 get path query http11 [] blank_request;
}

abbrev rest_of : List ℕ → Buffer
rest_of xs = record (holding xs) { reader_index = 27 }

first_part_run :
    parse_request 3 9 waiting (holding first_part) ≡ returned true after_first (rest_of first_part)
unfolding parse_request parse_round_in request_line_round header_round find_crlf retrieve_until
    retrieve peek_bytes readable_bytes sub_size add_size process_request_line set_method method_of
    process_target set_target set_version
first_part_run = refl

parse_request-InPieces_example :
    InPieces 3 3 9 waiting true after_first
      (holding (first_part ++ second_part))
      (rest_of (first_part ++ second_part))
      (72 ∷ second_part)
parse_request-InPieces_example =
    parse_request-InPieces first_part second_part 3 3 9 waiting true after_first
      (record { valid = omega arith; holds = refl }) first_part_run
      (record { valid = omega arith; holds = refl }) (record { valid = omega arith; holds = refl })

-- "GET / HTTP/2.0"
abbrev pub http_2 : List ℕ
http_2 = 47 ∷ 32 ∷ 72 ∷ 84 ∷ 84 ∷ 80 ∷ 47 ∷ 50 ∷ 46 ∷ 48 ∷ []

abbrev pub http_2_line : List ℕ
http_2_line = bad_line get http_2 ++ cr ∷ lf ∷ []

pub http_2_refused : (process_target http_2 (record blank_request { method = get })).0 ≡ false
unfolding process_target set_target set_version
http_2_refused = refl
