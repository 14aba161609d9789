-- ===== src/Http/BadLine.antt =====
-- A request line that `parseRequest` refuses stays in the buffer.
use muduo.Base.{
  Bool, true, false, ℕ, suc, ◌+◌, none, some, List, ◌∷◌, ◌++◌, ◌==◌, length, take, drop, ◌≡◌, refl,
  ap, ◌∙◌, subst, arith, if◌then◌else◌,
}
use muduo.Base.Bytes.{find, Lacks, find_here}
use muduo.Buffer.{Buffer}
use muduo.Buffer.Append.{Holds}
use muduo.Buffer.Find.{cr, lf, search_crlf_line}
use muduo.Http.{
  Method, Request, method_string, is_invalid, set_method, process_target, set_target, set_version,
  process_request_line, Context, expect_request_line, returned, aborted, parse_request, leave,
  abort,
}
use muduo.Http.Bytes.{parse_bytes, bytes_round, bytes_after_line, bytes_after_round}
use muduo.Http.Line.{not_at_end, take_before, drop_behind, Lacks-method, method_of-method_string}
use muduo.Http.Refine.{Matches, Matches-returned, Matches-aborted, parse_request-Matches}

set_version-method : (text : List ℕ) (r : Request) → (set_version text r).1.method ≡ r.method
unfolding set_version
set_version-method text r = ground arith

set_target-method : (target : List ℕ) (r : Request) → (set_target target r).method ≡ r.method
unfolding set_target
set_target-method target r = ground arith

process_target-method : (text : List ℕ) (r : Request) → (process_target text r).1.method ≡ r.method
unfolding process_target
process_target-method text r = go (find 32 text == length text)
  where
    go :
        (b : Bool)
        → (if b
            then (false, r)
            else set_version
                (drop (find 32 text + 1) text)
                (set_target (take (find 32 text) text) r)).1.method
          ≡ r.method
    go true = refl
    go false =
        set_version-method (drop (find 32 text + 1) text) (set_target (take (find 32 text) text) r)
        ∙ set_target-method (take (find 32 text) text) r

abbrev pub bad_line : Method → List ℕ → List ℕ
bad_line m tail = method_string m ++ 32 ∷ tail

-- A request line with a method that is known, and an end that is not.
after_rejected :
    (time : ℕ) (c : Context) (xs rest : List ℕ) (p : Bool × Request)
    → p.0 ≡ false
    → bytes_after_line time c xs rest (some p) ≡ leave false (record c { request = p.1 }) xs
after_rejected time c xs rest (false, r) h = refl
after_rejected time c xs rest (true, r) h = absurd cc

module _ (m : Method) (tail : List ℕ) (known : is_invalid m ≡ false)
    (one_line : Lacks cr (bad_line m tail)) where
  process_request_line_method :
      (r : Request)
      → is_invalid r.method ≡ true
      → process_request_line (bad_line m tail) r
        ≡ some (process_target tail (record r { method = m }))
  unfolding process_request_line set_method
  process_request_line_method r fresh =
      rw
        (
          find_here 32 (method_string m) tail (Lacks-method m),
          not_at_end (method_string m) tail 32,
          take_before (method_string m) tail 32,
          drop_behind (method_string m) tail 32,
          fresh,
          method_of-method_string m known,
          known,
        )
        refl

  process_request_line_aborts :
      (r : Request) → is_invalid r.method ≡ false → process_request_line (bad_line m tail) r ≡ none
  unfolding process_request_line set_method
  process_request_line_aborts r set =
      rw
        (
          find_here 32 (method_string m) tail (Lacks-method m),
          not_at_end (method_string m) tail 32,
          set,
        )
        refl

  aborts_round :
      (time : ℕ) (r : Request) (more : List ℕ)
      → is_invalid r.method ≡ false
      → bytes_round expect_request_line time
          (record { state = expect_request_line; request = r })
          (bad_line m tail ++ cr ∷ lf ∷ more)
        ≡ abort
  aborts_round time r more set =
      rw
        (
          search_crlf_line (bad_line m tail) more one_line,
          take_before (bad_line m tail) (lf ∷ more) cr,
          process_request_line_aborts r set,
        )
        refl

  rejects_round :
      (time : ℕ) (r : Request) (more : List ℕ)
      → is_invalid r.method ≡ true
      → (process_target tail (record r { method = m })).0 ≡ false
      → bytes_round expect_request_line time
          (record { state = expect_request_line; request = r })
          (bad_line m tail ++ cr ∷ lf ∷ more)
        ≡ leave false
            (record {
              state = expect_request_line;
              request = (process_target tail (record r { method = m })).1;
            })
            (bad_line m tail ++ cr ∷ lf ∷ more)
  rejects_round time r more fresh bad =
      rw
        (
          search_crlf_line (bad_line m tail) more one_line,
          take_before (bad_line m tail) (lf ∷ more) cr,
          process_request_line_method r fresh,
        )
        (after_rejected time (record { state = expect_request_line; request = r }) _ _
          (process_target tail (record r { method = m })) bad)

  -- `parseRequest` stops the program when the context expects a request line, its request has a method
  -- already, and the buffer starts with a request line of a known method.
  pub parse_request_aborts :
      {b : Buffer} (n time : ℕ) (r : Request) (more : List ℕ)
      → Holds (bad_line m tail ++ cr ∷ lf ∷ more) b
      → is_invalid r.method ≡ false
      → parse_request (suc n) time (record { state = expect_request_line; request = r }) b ≡ aborted
  unfolding parse_bytes
  parse_request_aborts {b} n time r more h set = Matches-aborted (
      subst
        (Matches
          (parse_request (suc n) time (record { state = expect_request_line; request = r }) b))
        (ap (bytes_after_round n time) (aborts_round time r more set))
        (parse_request-Matches (suc n) time (record { state = expect_request_line; request = r })
          h))

  -- A refused line: `parseRequest` returns false with its method set, and takes no bytes.
  pub parse_request_rejects :
      {b : Buffer} (n time : ℕ) (r : Request) (rest : List ℕ)
      → Holds (bad_line m tail ++ cr ∷ lf ∷ rest) b
      → is_invalid r.method ≡ true
      → (process_target tail (record r { method = m })).0 ≡ false
      → (b' : Buffer) × (parse_request
            (suc n)
            time
            (record { state = expect_request_line; request = r })
            b
          ≡ returned false
              (record {
                state = expect_request_line;
                request = (process_target tail (record r { method = m })).1;
              })
              b')
        × Holds (bad_line m tail ++ cr ∷ lf ∷ rest) b'
  unfolding parse_bytes
  parse_request_rejects {b} n time r rest h fresh bad = Matches-returned (
      subst
        (Matches
          (parse_request (suc n) time (record { state = expect_request_line; request = r }) b))
        (ap (bytes_after_round n time) (rejects_round time r rest fresh bad))
        (parse_request-Matches (suc n) time (record { state = expect_request_line; request = r })
          h))

  -- The method that is set when a line has been refused.
  pub rejected_method :
      (r : Request) → is_invalid (process_target tail (record r { method = m })).1.method ≡ false
  rejected_method r = ap is_invalid (process_target-method tail (record r { method = m })) ∙ known

  -- When the context expects a request line of a request without a method, and the buffer starts with a
  -- line of a known method and an end that is refused, then `parseRequest` returns false and leaves all
  -- the bytes; and the next call with that context stops the program, whatever was received behind them.
  pub parse_request_twice :
      {b b₂ : Buffer} (n n₂ time time₂ : ℕ) (r : Request) (rest more : List ℕ)
      → Holds (bad_line m tail ++ cr ∷ lf ∷ rest) b
      → Holds (bad_line m tail ++ cr ∷ lf ∷ more) b₂
      → is_invalid r.method ≡ true
      → (process_target tail (record r { method = m })).0 ≡ false
      → (c : Context) × (b' : Buffer) × (parse_request
            (suc n)
            time
            (record { state = expect_request_line; request = r })
            b
          ≡ returned false c b')
        × Holds (bad_line m tail ++ cr ∷ lf ∷ rest) b'
        × (parse_request (suc n₂) time₂ c b₂ ≡ aborted)
  parse_request_twice {b} {b₂} n n₂ time time₂ r rest more h h₂ fresh bad =
      let refused = parse_request_rejects n time r rest h fresh bad in
      (
        _,
        refused.0,
        refused.1,
        refused.2,
        parse_request_aborts n₂ time₂ (process_target tail (record r { method = m })).1 more h₂
            (rejected_method r),
      )
