-- ===== src/Http/Line.antt =====
-- The request line and the header lines as a client writes them.
use muduo.Base.{
  Bool, true, false, ℕ, ◌+◌, some, List, [], ◌∷◌, ◌++◌, ◌==◌, length, take, drop, ◌≡◌, refl, ap,
  ◌∙◌, sym, arith, length-append, take-append_length, drop-append_length, append_assoc, append-nil,
  eq→==, ne→==,
}
use muduo.Base.Bytes.{Lacks, find_here}
use muduo.Http.{
  Method, invalid, get, post, head, put, delete, Version, unknown, http10, http11, Request,
  method_string, is_invalid, method_of, set_method, set_target, set_version, http_1, process_target,
  process_request_line,
}

abbrev pub version_string : Version → List ℕ
version_string http10 = http_1 ++ 48 ∷ []
version_string http11 = http_1 ++ 49 ∷ []
version_string unknown = []

abbrev pub is_known : Version → Bool
is_known http10 = true
is_known http11 = true
is_known unknown = false

-- "GET /path?query HTTP/1.1"
abbrev pub request_line : Method → List ℕ → List ℕ → Version → List ℕ
request_line m path query v = method_string m ++ 32 ∷ ((path ++ query) ++ 32 ∷ version_string v)

-- Empty, or a question mark and more.
abbrev pub IsQuery : List ℕ → Type 0
IsQuery [] = Unit {0}
IsQuery (x ∷ xs) = x ≡ 63

pub method_of-method_string : (m : Method) → is_invalid m ≡ false → method_of (method_string m) ≡ m
unfolding method_of
method_of-method_string invalid h = cc
method_of-method_string get h = refl
method_of-method_string post h = refl
method_of-method_string head h = refl
method_of-method_string put h = refl
method_of-method_string delete h = refl

pub Lacks-method : (m : Method) → Lacks 32 (method_string m)
Lacks-method invalid = refl
Lacks-method get = refl
Lacks-method post = refl
Lacks-method head = refl
Lacks-method put = refl
Lacks-method delete = refl

set_version_known :
    (v : Version) (r : Request)
    → is_known v ≡ true
    → set_version (version_string v) r ≡ (true, record r { version = v })
unfolding set_version
set_version_known unknown r h = cc
set_version_known http10 r h = refl
set_version_known http11 r h = refl

-- The list is not at its end where a separator follows.
pub not_at_end : (xs ys : List ℕ) (c : ℕ) → (length xs == length (xs ++ c ∷ ys)) ≡ false
not_at_end xs ys c = ne→== _ _ (λ e. omega (arith, length-append xs (c ∷ ys), e))

module _ (xs ys : List ℕ) (c : ℕ) where
  pub take_before : take (length xs) (xs ++ c ∷ ys) ≡ xs
  take_before = take-append_length (length xs) xs (c ∷ ys) refl

  pub drop_behind : drop (length xs + 1) (xs ++ c ∷ ys) ≡ ys
  drop_behind =
      ap (drop (length xs + 1)) (sym (append_assoc xs (c ∷ []) ys))
      ∙ drop-append_length (length xs + 1) (xs ++ c ∷ []) ys
          (omega (arith, length-append xs (c ∷ [])))

set_target_path_query :
    (path query : List ℕ) (r : Request)
    → Lacks 63 path
    → IsQuery query
    → r.query ≡ []
    → set_target (path ++ query) r ≡ record r { path = path; query = query }
unfolding set_target
set_target_path_query path [] r h k e =
    rw (append-nil path, h, eq→== (length path) (length path) refl, ← e) refl
set_target_path_query path (x ∷ xs) r h k e =
    rw
      (
        k,
        find_here 63 path xs h,
        not_at_end path xs 63,
        take_before path xs 63,
        drop-append_length (length path) path (63 ∷ xs) refl,
      )
      refl

process_target-line :
    (path query : List ℕ) (v : Version) (r : Request)
    → Lacks 32 (path ++ query)
    → Lacks 63 path
    → IsQuery query
    → is_known v ≡ true
    → r.query ≡ []
    → process_target ((path ++ query) ++ 32 ∷ version_string v) r
      ≡ (true, record r { path = path; query = query; version = v })
unfolding process_target
process_target-line path query v r target before is_query version none_yet =
    rw
      (
        find_here 32 (path ++ query) (version_string v) target,
        not_at_end (path ++ query) (version_string v) 32,
        take_before (path ++ query) (version_string v) 32,
        drop_behind (path ++ query) (version_string v) 32,
        set_target_path_query path query r before is_query none_yet,
      )
      (set_version_known v (record r { path = path; query = query }) version)

pub process_request_line-request_line :
    (m : Method) (path query : List ℕ) (v : Version) (r : Request)
    → is_invalid m ≡ false
    → Lacks 32 (path ++ query)
    → Lacks 63 path
    → IsQuery query
    → is_known v ≡ true
    → is_invalid r.method ≡ true
    → r.query ≡ []
    → process_request_line (request_line m path query v) r
      ≡ some (true, record r { method = m; path = path; query = query; version = v })
unfolding process_request_line set_method
process_request_line-request_line m path query v r known target before is_query version fresh
      none_yet =
    rw
      (
        find_here 32 (method_string m) ((path ++ query) ++ 32 ∷ version_string v) (Lacks-method m),
        not_at_end (method_string m) ((path ++ query) ++ 32 ∷ version_string v) 32,
        take_before (method_string m) ((path ++ query) ++ 32 ∷ version_string v) 32,
        drop_behind (method_string m) ((path ++ query) ++ 32 ∷ version_string v) 32,
        fresh,
        method_of-method_string m known,
        known,
      )
      (ap some (
        process_target-line path query v (record r { method = m }) target before is_query version
          none_yet))
