-- ===== src/HttpServer/Refuses.antt =====
-- `onMessage` on a request line that is refused.
use muduo.Base.{false, ℕ, suc, List, [], ◌∷◌, ◌++◌, ◌≡◌, ◌∙◌, refl}
use muduo.Base.Bytes.{Lacks}
use muduo.Buffer.{Buffer}
use muduo.Buffer.Append.{Holds}
use muduo.Buffer.Find.{cr, lf}
use muduo.Http.{
  Method, Request, is_invalid, new_request, process_target, Context, new_context,
  expect_request_line,
}
use muduo.Http.BadLine.{bad_line, parse_request_rejects, parse_request_aborts, rejected_method}
use muduo.HttpServer.{
  Response, sends, shuts_down, bad_request_text, after_parse, aborted, returned, on_message,
}
use muduo.HttpServer.Answers.{on_message-parsed, on_message-aborted}

module _ (decimal : ℕ → List ℕ) {W : Type 0} (http_callback : Request → Response → W → Response × W)
    (m : Method) (tail : List ℕ) (known : is_invalid m ≡ false)
    (one_line : Lacks cr (bad_line m tail)) where
  after_parse-refused :
      (r : Request) (b : Buffer) (w : W)
      → after_parse decimal http_callback false
          (record { state = expect_request_line; request = r })
          b
          w
        ≡ returned
            (record { state = expect_request_line; request = r })
            b
            w
            (sends bad_request_text ∷ shuts_down ∷ [])
  unfolding after_parse
  after_parse-refused r b w = refl

  -- When a new context finds in the buffer a request line of a known method and an end that is refused,
  -- then `onMessage` sends 400 and shuts the connection down, once, but keeps the line in the buffer and
  -- its method in the context; and when it is called again, with any bytes behind that line, the
  -- assertion of `setMethod` stops the program.
  pub on_message_twice :
      {b b₂ : Buffer} (n n₂ time time₂ : ℕ) (w w₂ : W) (rest more : List ℕ)
      → Holds (bad_line m tail ++ cr ∷ lf ∷ rest) b
      → Holds (bad_line m tail ++ cr ∷ lf ∷ more) b₂
      → (process_target tail (record new_request { method = m })).0 ≡ false
      → (c : Context) × (b' : Buffer) × (on_message decimal http_callback
            (suc n)
            time
            new_context
            b
            w
          ≡ returned c b' w (sends bad_request_text ∷ shuts_down ∷ []))
        × Holds (bad_line m tail ++ cr ∷ lf ∷ rest) b'
        × (on_message decimal http_callback (suc n₂) time₂ c b₂ w₂ ≡ aborted)
  unfolding new_context new_request
  on_message_twice {b} {b₂} n n₂ time time₂ w w₂ rest more h h₂ bad =
      let refused =
        parse_request_rejects m tail known one_line n time new_request rest h refl bad in
      (
        _,
        refused.0,
        on_message-parsed decimal http_callback (suc n) time new_context b w refused.1
            ∙ after_parse-refused _ refused.0 w,
        refused.2,
        on_message-aborted decimal http_callback (suc n₂) time₂ _ b₂ w₂ (
            parse_request_aborts m tail known one_line n₂ time₂ _ more h₂
              (rejected_method m tail known one_line new_request)),
      )
