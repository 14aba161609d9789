-- ===== src/Buffer/Find.antt =====
-- `findCRLF` and `findEOL` of Buffer.
use muduo.Base.{
  ℕ, suc, ◌+◌, ◌≤◌, ◌≡◌, refl, Option, some, none, inl, inr, ◌⊎◌, Bool, true, false, ◌&&◌, List, [],
  ◌∷◌, ◌++◌, arith, length, ◌==◌, if◌then◌else◌,
}
use muduo.Base.Bytes.{Lacks, Lacks-head, Lacks-tail}
use muduo.Buffer.{Buffer, peek_bytes, readable_bytes}
use muduo.Buffer.Content.{IsValid, contents, peek_bytes-contents}

abbrev pub cr : ℕ
cr = 13

abbrev pub lf : ℕ
lf = 10

abbrev pub map_offset : (ℕ → ℕ) → Option ℕ → Option ℕ
map_offset f none = none
map_offset f (some i) = some (f i)

-- `std::search` for kCRLF; `none` is the end of the range.
abbrev pub search_crlf : List ℕ → Option ℕ
search_crlf [] = none
search_crlf (x ∷ []) = none
search_crlf (x ∷ y ∷ ys) =
    let rest = map_offset suc (search_crlf (y ∷ ys)) in if x == cr && y == lf then some 0 else rest

-- The result is an offset from `begin()`, `none` the null pointer.
unfoldable pub find_crlf : Buffer → Option ℕ
find_crlf b = map_offset (λ i. b.reader_index + i) (search_crlf (peek_bytes (readable_bytes b) b))

some-injective : {i j : ℕ} → some i ≡ some j → i ≡ j
some-injective h = cc

map_offset-cases :
    (r : Option ℕ) {i : ℕ} → map_offset suc r ≡ some i → (j : ℕ) × (r ≡ some j) × (i ≡ suc j)
map_offset-cases none h = cc
map_offset-cases (some j) h = (j, refl, cc)

-- The first place is the place of CRLF, or the search goes on behind it.
search_crlf-cases :
    (test : Bool) (r : Option ℕ) {i : ℕ}
    → (if test then some 0 else map_offset suc r) ≡ some i
    → ((test ≡ true) × (i ≡ 0)) ⊎ ((j : ℕ) × (test ≡ false) × (r ≡ some j) × (i ≡ suc j))
search_crlf-cases true r h = inl (refl, cc)
search_crlf-cases false r h =
    inr ((map_offset-cases r h).0, refl, (map_offset-cases r h).1, (map_offset-cases r h).2)

pub search_crlf-bound : (xs : List ℕ) {i : ℕ} → search_crlf xs ≡ some i → i + 2 ≤ length xs
search_crlf-bound [] h = cc
search_crlf-bound (x ∷ []) h = cc
search_crlf-bound (x ∷ y ∷ ys) h =
    elim (search_crlf-cases (x == cr && y == lf) (search_crlf (y ∷ ys)) h) [
      | inl (_, e) ↦ omega (arith, e)
      | inr (j, _, f, e) ↦ omega (arith, e, search_crlf-bound (y ∷ ys) f)
    ]

pub search_crlf-append :
    (xs ys : List ℕ) {i : ℕ} → search_crlf xs ≡ some i → search_crlf (xs ++ ys) ≡ some i
search_crlf-append [] zs h = cc
search_crlf-append (x ∷ []) zs h = cc
search_crlf-append (x ∷ y ∷ ys) zs h =
    elim (search_crlf-cases (x == cr && y == lf) (search_crlf (y ∷ ys)) h) [
      | inl (t, e) ↦ rw (t, e) refl
      | inr (j, t, f, e) ↦ rw (t, search_crlf-append (y ∷ ys) zs f, e) refl
    ]

-- A line that has no carriage return of its own ends where its CRLF is.
pub search_crlf_line :
    (line rest : List ℕ) → Lacks cr line → search_crlf (line ++ cr ∷ lf ∷ rest) ≡ some (length line)
search_crlf_line [] rest h = refl
search_crlf_line (x ∷ []) rest h = rw (Lacks-head cr x [] h) refl
search_crlf_line (x ∷ y ∷ ys) rest h =
    rw (Lacks-head cr x (y ∷ ys) h, search_crlf_line (y ∷ ys) rest (Lacks-tail cr x (y ∷ ys) h))
      refl

module _ {b : Buffer} (v : IsValid b) where
  pub find_crlf-eq : find_crlf b ≡ map_offset (λ i. b.reader_index + i) (search_crlf (contents b))
  unfolding find_crlf
  find_crlf-eq = rw (peek_bytes-contents v)
