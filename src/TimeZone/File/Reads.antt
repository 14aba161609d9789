-- ===== src/TimeZone/File/Reads.antt =====
-- What each part of the reading makes of the bytes that are written for it.
use muduo.Base.{
  Bool, true, false, not, ℕ, ◌-◌, ◌%◌, ◌^◌, ◌<◌, some, List, [], ◌∷◌, ◌++◌, append_assoc,
  append-nil, length, length-append, take, take-append_length, drop-append_length, get_elem?,
  le→leb, lt→ltb, ge→ltb, ◌==◌, ◌≡◌, refl, sym, ap, ◌∙◌, arith,
}
use muduo.Base.Int.{to_int32, ℤ, pos, negsuc, ◌+ℤ◌}
use muduo.Buffer.Ints.{Host}
use muduo.Buffer.Ints.RoundTrip.{be_value-be_bytes}
use muduo.TimeZone.Zone.{Transition, Localtime, Data}
use muduo.TimeZone.File.{
  done, Reader, and_then, ◌>>=◌, ◌>>◌, return, read_bytes, read_uint8, push_localtime,
  transition_of, push_transition, read_indices, push_transitions, read_int32, read_trans,
  read_types,
}
use muduo.TimeZone.File.Encode.{
  word, int32_bytes, Int32, times_bytes, index_bytes, flag_byte, type_bytes, AreTransitions,
  AreLocaltimes,
}

-- The reader takes the bytes `e` off, and leaves whatever follows them.
abbrev pub Reads : {A : Type 0} → Reader A → List ℕ → A → Data → Data → Type 0
Reads m e a d d' = (rest : List ℕ) → m (e ++ rest) d ≡ done a rest d'

pub Reads-bind :
    {A B : Type 0} (m : Reader A) (f : A → Reader B) (e e' : List ℕ) (a : A) (b : B)
    (d d' d'' : Data)
    → Reads m e a d d'
    → Reads (f a) e' b d' d''
    → Reads (m >>= f) (e ++ e') b d d''
Reads-bind m f e e' a b d d' d'' h k rest =
    ap (λ bytes. and_then (m bytes d) f) (append_assoc e e' rest)
    ∙ (ap (λ o. and_then o f) (h (e' ++ rest)) ∙ k rest)

-- The same where the second part reads nothing.
pub Reads-map :
    {A B : Type 0} (m : Reader A) (f : A → B) (e : List ℕ) (a : A) (d d' : Data)
    → Reads m e a d d'
    → Reads (m >>= λ x. return (f x)) e (f a) d d'
Reads-map m f e a d d' h rest = ap (λ o. and_then o (λ x. return (f x))) (h rest)

pub Reads-read_bytes :
    (n : ℕ) (e : List ℕ) (d : Data) → length e ≡ n → Reads (read_bytes (pos n)) e e d d
unfolding read_bytes
Reads-read_bytes n e d h rest =
    rw
      (
        le→leb n (length (e ++ rest)) (omega (arith, length-append e rest)),
        take-append_length n e rest (sym h),
        drop-append_length n e rest (sym h),
      )
      refl

to_int32-word : (z : ℤ) → Int32 z → to_int32 (word z) ≡ z
to_int32-word (pos n) h = rw (lt→ltb n 2147483648 h) refl
to_int32-word (negsuc n) h =
    rw (ge→ltb (4294967295 - n) 2147483648 (omega arith)) (ap negsuc (omega arith))

word-lt : (z : ℤ) → Int32 z → word z < 256 ^ 4
word-lt (pos n) h = omega arith
word-lt (negsuc n) h = omega arith

abbrev pub times : List Transition → List ℤ
times [] = []
times (t ∷ ts) = t.gmttime ∷ times ts

pub Reads-read_indices :
    (ls : List Localtime) (ts : List Transition) (d : Data)
    → AreTransitions ls ts
    → Reads (read_indices (length ts)) (index_bytes ts) (index_bytes ts) d d
unfolding read_indices
Reads-read_indices ls [] d h rest = refl
Reads-read_indices ls (t ∷ ts) d (l, found, local, small, byte, h) rest =
    ap (λ o. and_then o (λ xs. return (t.localtime_idx % 256 ∷ xs)))
      (Reads-read_indices ls ts d h rest)
    ∙ ap (λ i. done (i ∷ index_bytes ts) rest d) (omega arith)

push_transition-eq :
    (t : Transition) (l : Localtime) (d : Data)
    → get_elem? d.localtimes t.localtime_idx ≡ some l
    → t.localtime ≡ t.gmttime +ℤ l.gmt_offset
    → Reads
        (push_transition t.gmttime t.localtime_idx)
        []
        tt
        d
        (record d { transitions = d.transitions ++ t ∷ [] })
unfolding push_transition
push_transition-eq t l d found local rest =
    ap (λ o. transition_of t.gmttime t.localtime_idx o rest d) found
    ∙ ap
        (λ z. done tt rest (record d {
          transitions =
              d.transitions
              ++ record { gmttime = t.gmttime; localtime = z; localtime_idx = t.localtime_idx }
                ∷ [];
        }))
        (sym local)

-- The transitions are put together behind those that are there.
pub Reads-push_transitions :
    (ts : List Transition) (d : Data)
    → AreTransitions d.localtimes ts
    → Reads
        (push_transitions (times ts) (index_bytes ts))
        []
        tt
        d
        (record d { transitions = d.transitions ++ ts })
unfolding push_transitions
Reads-push_transitions [] d h rest =
    ap (λ ts. done tt rest (record d { transitions = ts })) (sym (append-nil d.transitions))
Reads-push_transitions (t ∷ ts) d (l, found, local, small, byte, h) rest =
    let d' : Data = record d { transitions = d.transitions ++ t ∷ [] } in
    ap (λ o. and_then o (λ _. push_transitions (times ts) (index_bytes ts)))
      (push_transition-eq t l d found local rest)
    ∙ (Reads-push_transitions ts d' h rest
        ∙ ap (λ xs. done tt rest (record d { transitions = xs }))
            (append_assoc d.transitions (t ∷ []) ts))

flag-back : (b : Bool) → not (flag_byte b % 256 == 0) ≡ b
flag-back true = refl
flag-back false = refl

module _ (host : Host) where
  pub Reads-read_int32 :
      (z : ℤ) (d : Data) → Int32 z → Reads (read_int32 host) (int32_bytes z) z d d
  unfolding read_int32
  Reads-read_int32 z d h rest =
      let e : List ℕ = int32_bytes z in
      let front : take 4 (e ++ rest) ≡ e = take-append_length 4 e rest refl in
      rw
        (
          le→leb 4 (length (e ++ rest)) (omega (arith, length-append e rest)),
          host.betoh-load 4 e refl,
          be_value-be_bytes 4 (word z) (word-lt z h),
          to_int32-word z h,
        )
        refl

  pub Reads-read_trans :
      (ls : List Localtime) (ts : List Transition) (d : Data)
      → AreTransitions ls ts
      → Reads (read_trans host (length ts)) (times_bytes ts) (times ts) d d
  unfolding read_trans
  Reads-read_trans ls [] d h = λ rest. refl
  Reads-read_trans ls (t ∷ ts) d (l, found, local, small, byte, h) =
      Reads-bind (read_int32 host) (λ x. read_trans host (length ts) >>= λ r. return (x ∷ r))
        (int32_bytes t.gmttime) (times_bytes ts) t.gmttime (times (t ∷ ts)) d d d
        (Reads-read_int32 t.gmttime d small)
        (Reads-map (read_trans host (length ts)) (λ r. t.gmttime ∷ r) (times_bytes ts) (times ts) d
          d (Reads-read_trans ls ts d h))

  -- What follows the offset of a local time.
  abbrev type_rest : ℕ → ℤ → Reader (Unit {0})
  unfolding read_uint8
  type_rest n gmtoff = do
    isdst ← read_uint8
    abbrind ← read_uint8
    push_localtime (record { gmt_offset = gmtoff; is_dst = not (isdst == 0); arrb_idx = abbrind })
    read_types host n

  -- The two bytes of a local time come back.
  pushed :
      (l : Localtime) (d : Data) (ls : List Localtime) (rest : List ℕ)
      → l.arrb_idx < 256
      → read_types host (length ls) (type_bytes ls ++ rest) (record d {
        localtimes =
            d.localtimes
            ++ record {
              gmt_offset = l.gmt_offset;
              is_dst = not (flag_byte l.is_dst % 256 == 0);
              arrb_idx = l.arrb_idx % 256;
            }
              ∷ [];
      })
        ≡ read_types host
            (length ls)
            (type_bytes ls ++ rest)
            (record d { localtimes = d.localtimes ++ l ∷ [] })
  pushed l d ls rest byte =
      let same : l.arrb_idx % 256 ≡ l.arrb_idx = omega arith in rw (flag-back l.is_dst, same) refl

  pub Reads-read_types :
      (ls : List Localtime) (d : Data)
      → AreLocaltimes ls
      → Reads
          (read_types host (length ls))
          (type_bytes ls)
          tt
          d
          (record d { localtimes = d.localtimes ++ ls })
  unfolding read_types
  Reads-read_types [] d h =
      λ rest. ap (λ ls. done tt rest (record d { localtimes = ls })) (sym (append-nil d.localtimes))
  Reads-read_types (l ∷ ls) d (small, byte, h) =
      Reads-bind (read_int32 host) (type_rest (length ls)) (int32_bytes l.gmt_offset)
        (flag_byte l.is_dst ∷ l.arrb_idx ∷ type_bytes ls) l.gmt_offset tt d d
        (record d { localtimes = d.localtimes ++ (l ∷ ls) }) (Reads-read_int32 l.gmt_offset d small)
        (λ rest.
          pushed l d ls rest byte
          ∙ (Reads-read_types ls (record d { localtimes = d.localtimes ++ l ∷ [] }) h rest
              ∙ ap (λ xs. done tt rest (record d { localtimes = xs }))
                  (append_assoc d.localtimes (l ∷ []) ls)))
