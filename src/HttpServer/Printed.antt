-- ===== src/HttpServer/Printed.antt =====
-- `appendToBuffer`: the bytes of a response.
use muduo.Base.{
  Bool, true, false, ℕ, ◌+◌, ◌≤◌, ◌∙◌, ap, refl, subst, Option, List, [], ◌∷◌, ◌++◌, append_assoc,
  append-nil, arith, length, length-append, if◌then◌else◌, Gives, >>=-Gives, ◌>>=◌,
}
use muduo.Buffer.{Buffer, max_size, append}
use muduo.Buffer.Content.{contents}
use muduo.Buffer.Append.{Holds, Extended, append-Extended}
use muduo.HttpServer.{
  Response, crlf, connection_field, close_value, keep_alive_value, colon, status_start, length_line,
  append_headers, append_connection, append_to_buffer,
}

-- `b` holds the bytes `cs`, and there may be room for `es` behind them.
pub record HasSpace (es cs : List ℕ) (b : Buffer) : Type 0 where
  pub holds : Holds cs b
  pub space : b.writer_index + length es ≤ max_size

append-HasSpace :
    {b : Buffer} {cs : List ℕ} (ds es : List ℕ)
    → HasSpace (ds ++ es) cs b
    → Gives (append ds b) (HasSpace es (cs ++ ds))
append-HasSpace {b} {cs} ds es h =
    after (append-Extended h.holds.valid ds (omega (arith, h.space, length-append ds es)))
  where
    after :
        Gives (append ds b) (Extended (length ds) (contents b ++ ds) b)
        → Gives (append ds b) (HasSpace es (cs ++ ds))
    after (b', e, r) = (
      b',
      e,
      record {
        holds = subst (λ bs. Holds (bs ++ ds) b') h.holds.holds r.holds;
        space = omega (arith, r.no_later, h.space, length-append ds es);
      },
    )

-- One part is appended, then the others.
then-HasSpace :
    {m : Option Buffer} (f : Buffer → Option Buffer) (cs ds es fs gs : List ℕ)
    → Gives m (HasSpace es (cs ++ ds))
    → ((b : Buffer) → HasSpace es (cs ++ ds) b → Gives (f b) (HasSpace fs ((cs ++ ds) ++ gs)))
    → Gives (m >>= f) (HasSpace fs (cs ++ (ds ++ gs)))
then-HasSpace f cs ds es fs gs h k =
    rw (← append_assoc cs ds gs)
      (>>=-Gives (HasSpace es (cs ++ ds)) (HasSpace fs ((cs ++ ds) ++ gs)) f h k)

module _ (f : Buffer → Option Buffer) {b : Buffer} (cs ds es fs gs : List ℕ) where
  append_then-HasSpace :
      HasSpace (ds ++ es) cs b
      → ((b' : Buffer) → HasSpace es (cs ++ ds) b' → Gives (f b') (HasSpace fs ((cs ++ ds) ++ gs)))
      → Gives (append ds b >>= f) (HasSpace fs (cs ++ (ds ++ gs)))
  append_then-HasSpace h k = then-HasSpace f cs ds es fs gs (append-HasSpace ds es h) k

abbrev pub header_bytes : List (List ℕ × List ℕ) → List ℕ
header_bytes [] = []
header_bytes (h ∷ hs) = h.0 ++ (colon ++ (h.1 ++ (crlf ++ header_bytes hs)))

append_headers-HasSpace :
    (hs : List (List ℕ × List ℕ)) {b : Buffer} (cs es : List ℕ)
    → HasSpace (header_bytes hs ++ es) cs b
    → Gives (append_headers hs b) (HasSpace es (cs ++ header_bytes hs))
unfolding append_headers
append_headers-HasSpace [] {b} cs es h = (b, refl, rw append-nil h)
append_headers-HasSpace ((key, value) ∷ hs) {b} cs es h =
    append_then-HasSpace _ cs key (colon ++ (value ++ (crlf ++ (header_bytes hs ++ es)))) es _
      (subst (λ ds. HasSpace ds cs b)
        (append_assoc key (colon ++ (value ++ (crlf ++ header_bytes hs))) es
          ∙ ap (λ ds. key ++ (colon ++ ds)) (append_assoc value (crlf ++ header_bytes hs) es))
        h)
      λ b₁ h₁. append_then-HasSpace _ _ colon _ es _ h₁ λ b₂ h₂.
        append_then-HasSpace _ _ value _ es _ h₂ λ b₃ h₃.
          append_then-HasSpace _ _ crlf _ es _ h₃ λ b₄ h₄. append_headers-HasSpace hs _ es h₄

module _ (decimal : ℕ → List ℕ) where
  abbrev pub connection_bytes : Response → List ℕ
  connection_bytes r =
      if r.close_connection
      then connection_field ++ (colon ++ (close_value ++ crlf))
      else length_line decimal r.body ++ (connection_field ++ (colon ++ (keep_alive_value ++ crlf)))

  -- The text of a response.
  abbrev pub response_bytes : Response → List ℕ
  response_bytes r =
      status_start decimal r.status_code
      ++ (r.status_message
          ++ (crlf ++ (connection_bytes r ++ (header_bytes r.headers ++ (crlf ++ r.body)))))

  append_connection-HasSpace :
      (r : Response) {b : Buffer} (cs es : List ℕ)
      → HasSpace (connection_bytes r ++ es) cs b
      → Gives (append_connection decimal r b) (HasSpace es (cs ++ connection_bytes r))
  unfolding append_connection
  append_connection-HasSpace r {b} cs es h = by_kind r.close_connection h
    where
      close_line : List ℕ
      close_line = connection_field ++ (colon ++ (close_value ++ crlf))

      keep_line : List ℕ
      keep_line = connection_field ++ (colon ++ (keep_alive_value ++ crlf))

      by_kind :
          (close : Bool)
          → HasSpace
              ((if close then close_line else length_line decimal r.body ++ keep_line) ++ es)
              cs
              b
          → Gives
              (if close
                then append close_line b
                else (append (length_line decimal r.body) b >>= append keep_line))
              (HasSpace es
                (cs ++ (if close then close_line else length_line decimal r.body ++ keep_line)))
      by_kind true k = append-HasSpace close_line es k
      by_kind false k =
          append_then-HasSpace (append keep_line) cs (length_line decimal r.body) (keep_line ++ es)
            es keep_line
            (subst (λ ds. HasSpace ds cs b) (append_assoc (length_line decimal r.body) keep_line es)
              k)
            λ b₁ h₁. append-HasSpace keep_line es h₁

  -- `appendToBuffer` puts the text of the response behind what the buffer holds.
  pub append_to_buffer-Holds :
      (r : Response) {b : Buffer} {cs : List ℕ}
      → Holds cs b
      → b.writer_index + length (response_bytes r) ≤ max_size
      → Gives (append_to_buffer decimal r b) (Holds (cs ++ response_bytes r))
  unfolding append_to_buffer
  append_to_buffer-Holds r {b} {cs} h fits =
      let printed =
        append_then-HasSpace _ cs (status_start decimal r.status_code) _ [] _
          (record { holds = h; space = fits })
          λ b₁ h₁. append_then-HasSpace _ _ r.status_message _ [] _ h₁ λ b₂ h₂.
            append_then-HasSpace _ _ crlf _ [] _ h₂ λ b₃ h₃.
              then-HasSpace _ _ (connection_bytes r) (header_bytes r.headers ++ (crlf ++ r.body)) []
                _ (append_connection-HasSpace r _ (header_bytes r.headers ++ (crlf ++ r.body)) h₃)
                λ b₄ h₄.
                  then-HasSpace _ _ (header_bytes r.headers) (crlf ++ r.body) [] _
                    (append_headers-HasSpace r.headers _ (crlf ++ r.body) h₄)
                    λ b₅ h₅.
                      append_then-HasSpace _ _ crlf _ [] _ h₅
                        λ b₆ h₆. append-HasSpace r.body [] (rw append-nil h₆) in
      (printed.0, printed.1, printed.2.holds)
