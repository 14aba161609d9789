-- ===== src/LogStream/Stream.antt =====
-- What the operators leave in the stream, and that they stay inside its buffer.
use muduo.Base.{
  Bool, true, false, ℕ, suc, ◌+◌, ◌-◌, ◌^◌, ◌<◌, ◌≤◌, Option, none, some, List, [], ◌∷◌, ◌++◌,
  append-nil, subst, length, length-append, length-take, take, ltb, leb, ltb→lt, leb→le, ◌≡◌, refl,
  ap, ◌∙◌, if◌then◌else◌, Bool-cases, inl, inr, Gives, arith,
}
use muduo.Base.Int.{ℤ, pos, negsuc}
use muduo.LogStream.{
  FixedBuffer, avail, content, add, write_current, append, debug_string, format_integer,
  put_pointer, put_bool, put_string, Item, integer, pointer, boolean, text, put, put_all,
  new_stream, convert,
}
use muduo.LogStream.Characters.{decimal, hexadecimal}
use muduo.LogStream.Convert.{numeral, convert-pos, convert-negsuc, convert_hex-numeral}
use muduo.LogStream.Write.{
  IsOpen, IsExtended, written, write_current-written, length-written, content-written,
  written-IsExtended, length-numeral,
}

-- The text of an item, and whether it is written where `free` bytes are left: a number needs more
-- than it may take, and a text leaves one byte.
abbrev pub text_of : Item → List ℕ
text_of (integer (pos n)) = numeral decimal n
text_of (integer (negsuc n)) = b'-' ∷ numeral decimal (suc n)
text_of (pointer v) = b'0' ∷ b'x' ∷ numeral hexadecimal v
text_of (boolean v) = if v then b'1' ∷ [] else b'0' ∷ []
text_of (text (some str)) = str
text_of (text none) = b'(' ∷ b'n' ∷ b'u' ∷ b'l' ∷ b'l' ∷ b')' ∷ []

abbrev pub has_room : Item → ℕ → Bool
has_room (integer v) free = leb 32 free
has_room (pointer v) free = leb 32 free
has_room (boolean v) free = ltb 1 free
has_room (text v) free = ltb (length (text_of (text v))) free

-- The text of a stream with a buffer of `size` bytes behind one more item.
abbrev pub put_text : ℕ → Item → List ℕ → List ℕ
put_text size item log = if has_room item (size - length log) then log ++ text_of item else log

abbrev pub put_texts : ℕ → List Item → List ℕ → List ℕ
put_texts size [] log = log
put_texts size (item ∷ items) log = put_texts size items (put_text size item log)

-- The integers and pointers of at most 64 bits.
abbrev pub IsWord : Item → Type 0
IsWord (integer (pos n)) = n < 2 ^ 64
IsWord (integer (negsuc n)) = n < 2 ^ 63
IsWord (pointer v) = v < 2 ^ 64
IsWord (boolean v) = Unit
IsWord (text v) = Unit

pub record IsPut (size : ℕ) (log : List ℕ) (b' : FixedBuffer) : Type 0 where
  pub open_ : IsOpen b'
  pub same_size : length b'.data_ ≡ size
  pub content : content b' ≡ log

module _ (b : FixedBuffer) (o : IsOpen b) where
  abbrev size : ℕ
  size = length b.data_

  free : size - length (content b) ≡ avail b
  free = omega (arith, length-take b.cur b.data_)

  -- Both outcomes of an operator, from the one where there is room.
  IsPut-cases :
      (item : Item) (m : Option FixedBuffer)
      → (has_room item (avail b) ≡ true → Gives m (IsExtended b (text_of item)))
      → (has_room item (avail b) ≡ false → m ≡ some b)
      → Gives m (IsPut size (put_text size item (content b)))
  IsPut-cases item m yes_case no_case = elim (Bool-cases (has_room item (avail b))) [
    | inl e ↦
        (let (b', run, x) = yes_case e in
          (
            b',
            run,
            record { open_ = x.open_; same_size = x.same_size; content = rw (free, e) x.content },
          ))
    | inr e ↦ (b, no_case e, record { open_ = o; same_size = refl; content = rw (free, e) refl })
  ]

  append-Gives :
      (str : List ℕ) → ltb (length str) (avail b) ≡ true → Gives (append str b) (IsExtended b str)
  unfolding append
  append-Gives str e =
      let low : b.cur + length str < size = omega (arith, ltb→lt (length str) (avail b) e) in
      let (b', w, x) =
        written-IsExtended b str [] (omega (arith, length-append str [])) (length str) refl low in
      (
        add (length str) b',
        rw (e, subst (λ (xs : List ℕ). write_current xs b ≡ some b') (append-nil str) w) refl,
        x,
      )

  append_full : (str : List ℕ) → ltb (length str) (avail b) ≡ false → append str b ≡ some b
  unfolding append
  append_full str e = rw e refl

  format_integer-Gives :
      (v : ℤ) (cs : List ℕ)
      → convert v ≡ some cs
      → length cs ≤ 21
      → leb 32 (avail b) ≡ true
      → Gives (format_integer v b) (IsExtended b cs)
  unfolding format_integer
  format_integer-Gives v cs c short e =
      let low = leb→le 32 (avail b) e in
      let (b', w, x) =
        written-IsExtended b cs (0 ∷ []) (omega (arith, length-append cs (0 ∷ []))) (length cs) refl
          (omega arith) in
      (add (length cs) b', rw (e, c, w) refl, x)

  put_pointer-Gives :
      (v : ℕ)
      → length (numeral hexadecimal v) ≤ 16
      → leb 32 (avail b) ≡ true
      → Gives (put_pointer v b) (IsExtended b (text_of (pointer v)))
  unfolding put_pointer
  put_pointer-Gives v short e =
      let low = leb→le 32 (avail b) e in
      let cs = text_of (pointer v) in
      let (b', w, x) =
        written-IsExtended b cs (0 ∷ [])
          (omega (arith, length-append (numeral hexadecimal v) (0 ∷ [])))
          (length (numeral hexadecimal v) + 2) (omega arith) (omega arith) in
      (add (length (numeral hexadecimal v) + 2) b', rw (e, convert_hex-numeral v, w) refl, x)

  pointer_full : (v : ℕ) → leb 32 (avail b) ≡ false → put_pointer v b ≡ some b
  unfolding put_pointer
  pointer_full v e = rw e refl

  integer_full : (v : ℤ) → leb 32 (avail b) ≡ false → format_integer v b ≡ some b
  unfolding format_integer
  integer_full v e = rw e refl

  integer-IsPut :
      (v : ℤ)
      → IsWord (integer v)
      → Gives (format_integer v b) (IsPut size (put_text size (integer v) (content b)))
  integer-IsPut v h =
      IsPut-cases (integer v) (format_integer v b)
        (format_integer-Gives v (text_of (integer v)) (text-eq v) (short v h)) (integer_full v)
    where
      text-eq : (v : ℤ) → convert v ≡ some (text_of (integer v))
      text-eq (pos n) = convert-pos n
      text-eq (negsuc n) = convert-negsuc n

      short : (v : ℤ) → IsWord (integer v) → length (text_of (integer v)) ≤ 21
      short (pos n) h = omega (arith, length-numeral decimal n 19 (omega arith))
      short (negsuc n) h = omega (arith, length-numeral decimal (suc n) 19 (omega arith))

  -- On a stream with a free byte every operator, with an integer or a pointer of at most 64 bits, runs
  -- through, writes only inside the buffer, leaves a free byte, and adds the whole text of the item
  -- where there is room for it, and nothing elsewhere.
  pub put-IsPut :
      (item : Item) → IsWord item → Gives (put item b) (IsPut size (put_text size item (content b)))
  put-IsPut (integer v) h = integer-IsPut v h
  put-IsPut (pointer v) h =
      IsPut-cases (pointer v) (put_pointer v b)
        (put_pointer-Gives v (length-numeral hexadecimal v 15 (omega arith))) (pointer_full v)
  put-IsPut (boolean true) h =
      IsPut-cases (boolean true) (put_bool true b) (append-Gives (b'1' ∷ []))
        (append_full (b'1' ∷ []))
  put-IsPut (boolean false) h =
      IsPut-cases (boolean false) (put_bool false b) (append-Gives (b'0' ∷ []))
        (append_full (b'0' ∷ []))
  put-IsPut (text (some str)) h =
      IsPut-cases (text (some str)) (append str b) (append-Gives str) (append_full str)
  put-IsPut (text none) h =
      IsPut-cases (text none) (put_string none b) (append-Gives (text_of (text none)))
        (append_full (text_of (text none)))

abbrev pub AllWords : List Item → Type 0
AllWords [] = Unit
AllWords (item ∷ items) = (_ : IsWord item) × AllWords items

put_all-IsPut :
    (b : FixedBuffer)
    → IsOpen b
    → (items : List Item) → AllWords items
    → Gives
        (put_all items b)
        (IsPut (length b.data_) (put_texts (length b.data_) items (content b)))
unfolding put_all
put_all-IsPut b o [] h = (b, refl, record { open_ = o; same_size = refl; content = refl })
put_all-IsPut b o (item ∷ items) (h, hs) =
    let (b', run, x) = put-IsPut b o item h in
    let (b'', runs, y) = put_all-IsPut b' x.open_ items hs in
    (
      b'',
      rw run runs,
      record {
        open_ = y.open_;
        same_size = y.same_size ∙ x.same_size;
        content =
            y.content
            ∙ (ap (λ n. put_texts n items (content b')) x.same_size
                ∙ ap (put_texts (length b.data_) items) x.content);
      },
    )

-- Whatever is written to a new stream, of integers and pointers of at most 64 bits, over memory with at
-- least one byte, every operator stays inside the buffer, and the buffer holds the texts of the items in
-- their order, without those for which there was no room when they came.
pub put_all-new_stream :
    (memory : List ℕ) (items : List Item)
    → 0 < length memory
    → AllWords items
    → Gives
        (put_all items (new_stream memory))
        (IsPut (length memory) (put_texts (length memory) items []))
put_all-new_stream memory items o h = put_all-IsPut (new_stream memory) o items h

-- `debugString` writes inside the buffer and leaves the text.
pub debug_string-IsPut :
    (b : FixedBuffer) → IsOpen b → Gives (debug_string b) (IsPut (length b.data_) (content b))
unfolding debug_string
debug_string-IsPut b o =
    let room : b.cur + 1 ≤ length b.data_ = omega arith in
    (
      written b [] (0 ∷ []) room,
      write_current-written b [] (0 ∷ []) room,
      record {
        open_ = omega (arith, length-written b [] (0 ∷ []) room);
        same_size = length-written b [] (0 ∷ []) room;
        content =
            ap (λ n. take n (written b [] (0 ∷ []) room).data_) (omega arith)
            ∙ (content-written b [] (0 ∷ []) room ∙ append-nil (content b));
      },
    )
