-- ===== src/HttpServer/Answers.antt =====
-- `onRequest`, and `onMessage` on a whole request.
use muduo.Base.{
  Bool, true, ℕ, ◌+◌, ◌≤◌, ◌<◌, ◌≡◌, ◌∙◌, refl, some, List, [], ◌∷◌, arith, length, if◌then◌else◌,
}
use muduo.Buffer.{Buffer, max_size, cheap_prepend, initial_size}
use muduo.Buffer.Content.{peek_bytes-contents}
use muduo.Buffer.Append.{Holds}
use muduo.Buffer.Prepend.{new-Holds}
use muduo.Http.{
  Request, Method, Version, new_request, Context, new_context, expect_request_line, got_all, reset,
  parse_request,
}
use muduo.Http.Parse.{GoodLine, AllGood, message, parsed, parse_request-message}
use muduo.HttpServer.{
  Response, new_response, Action, sends, shuts_down, closes, on_request, after_parse, returned,
  on_message, aborted,
}
use muduo.HttpServer.Printed.{response_bytes, append_to_buffer-Holds}

module _ (decimal : ℕ → List ℕ) {W : Type 0}
    (http_callback : Request → Response → W → Response × W) where
  -- What the callback makes of a request.
  abbrev pub answer : Request → W → Response × W
  answer req w = http_callback req (new_response (closes decimal http_callback req)) w

  -- The calls of the connection for a response.
  abbrev pub actions : Response → List Action
  actions r =
      sends (response_bytes decimal r) ∷ (if r.close_connection then shuts_down ∷ [] else [])

  pub on_message-parsed :
      (n time : ℕ) (c : Context) (b : Buffer) (w : W) {good : Bool} {c' : Context} {b' : Buffer}
      → parse_request n time c b ≡ muduo.Http.returned good c' b'
      → on_message decimal http_callback n time c b w
        ≡ after_parse decimal http_callback good c' b' w
  unfolding on_message
  on_message-parsed n time c b w e = rw (on_message, e) refl

  pub on_message-aborted :
      (n time : ℕ) (c : Context) (b : Buffer) (w : W)
      → parse_request n time c b ≡ muduo.Http.aborted
      → on_message decimal http_callback n time c b w ≡ aborted
  unfolding on_message
  on_message-aborted n time c b w e = rw (on_message, e) refl

  module _ (req : Request) (w : W)
      (fits : cheap_prepend + length (response_bytes decimal (answer req w).0) ≤ max_size) where
    on_request-actions :
        on_request decimal http_callback req w ≡ some ((answer req w).1, actions (answer req w).0)
    unfolding on_request
    on_request-actions =
        let fresh = new-Holds initial_size (omega arith) in
        let printed =
          append_to_buffer-Holds decimal (answer req w).0 fresh.2.0 (omega (arith, fresh.2)) in
        rw (fresh.1, printed.1, peek_bytes-contents printed.2.valid, printed.2.holds)

    after_parse-actions :
        (b : Buffer)
        → after_parse decimal http_callback true (record { state = got_all; request = req }) b w
          ≡ returned new_context b (answer req w).1 (actions (answer req w).0)
    unfolding after_parse reset new_context
    after_parse-actions b = rw on_request-actions

  -- When the buffer holds a whole request, as `parseRequest` reads one, and more bytes, the context is
  -- new and the text of the response fits a buffer, then `onMessage` sends exactly the text of the
  -- response that the callback makes for this request, shuts the connection down exactly when the
  -- response closes it, makes the context new again, and leaves the other bytes, a second request too,
  -- in the buffer.
  pub on_message-answers :
      {m : Method} {path query : List ℕ} {v : Version}
      → GoodLine m path query v
      → {b : Buffer} (hs : List (List ℕ × List ℕ)) (n time : ℕ) (w : W) (rest : List ℕ)
      → Holds (message m path query v hs rest) b
      → length hs + 1 < n
      → AllGood hs
      → cheap_prepend
          + length (response_bytes decimal (answer (parsed time m path query v hs new_request) w).0)
        ≤ max_size
      → (b' : Buffer) × (on_message decimal http_callback n time new_context b w
          ≡ returned new_context b'
              (answer (parsed time m path query v hs new_request) w).1
              (actions (answer (parsed time m path query v hs new_request) w).0))
        × Holds rest b'
  unfolding new_context new_request
  on_message-answers {m} {path} {query} {v} g {b} hs n time w rest h few good fits =
      let whole = parse_request-message g hs n time new_request rest h few good refl refl in
      (
        whole.0,
        on_message-parsed n time new_context b w whole.1
            ∙ after_parse-actions (parsed time m path query v hs new_request) w fits whole.0,
        whole.2,
      )
