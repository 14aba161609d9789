-- ===== src/HttpServer/Tests.antt =====
-- The server at concrete inputs.
use muduo.Base.{false, ℕ, ◌+◌, ◌/◌, ◌%◌, ◌≡◌, refl, List, [], ◌∷◌, ◌++◌, arith}
use muduo.Buffer.{Buffer}
use muduo.Buffer.Append.{Holds}
use muduo.Http.{get, Request, new_request, Context, new_context, get_header}
use muduo.Http.Tests.{
  header, holding, whole_message, whole-Holds, good_line, good_header, http_2, http_2_line,
  http_2_refused,
}
use muduo.HttpServer.{
  Response, ok, sends, shuts_down, bad_request_text, aborted, returned, new_response, closes,
  on_message,
}
use muduo.HttpServer.Printed.{response_bytes}
use muduo.HttpServer.Answers.{on_message-answers}
use muduo.HttpServer.Refuses.{on_message_twice}

-- The three_digits of a number below 1000.
abbrev three_digits : ℕ → List ℕ
three_digits n = (48 + n / 100) ∷ (48 + n / 10 % 10) ∷ (48 + n % 10) ∷ []

-- Every request is answered with the body "hi"; the requests are counted.
abbrev hello : Request → Response → ℕ → Response × ℕ
hello req r w = (record r { status_code = ok; body = 104 ∷ 105 ∷ [] }, w + 1)

abbrev greeting : Response
greeting = record {
  headers = [];
  status_code = ok;
  status_message = [];
  close_connection = false;
  body = 104 ∷ 105 ∷ [];
}

on_message-answers_example :
    (b' : Buffer) × (on_message three_digits hello 4 9 new_context (holding whole_message) 0
      ≡ returned new_context b' 1 (sends (response_bytes three_digits greeting) ∷ []))
    × Holds (71 ∷ []) b'
unfolding new_response closes new_request get_header
on_message-answers_example =
    on_message-answers three_digits hello good_line (header ∷ []) 4 9 0 (71 ∷ []) whole-Holds
      (omega arith) (good_header, tt) (omega arith)

on_message_twice_example :
    (c : Context) × (b' : Buffer) × (on_message three_digits hello 5 9 new_context
        (holding http_2_line)
        0
      ≡ returned c b' 0 (sends bad_request_text ∷ shuts_down ∷ []))
    × Holds http_2_line b'
    × (on_message three_digits hello 5 10 c (holding (http_2_line ++ 65 ∷ [])) 0 ≡ aborted)
unfolding new_request
on_message_twice_example =
    on_message_twice three_digits hello get http_2 refl refl 4 4 9 10 0 0 [] (65 ∷ [])
      (record { valid = omega arith; holds = refl }) (record { valid = omega arith; holds = refl })
      http_2_refused
