-- ===== src/Buffer/Ints/RoundTrip.antt =====
-- An integer comes out of the buffer as it was put in.
use native.Mathlib.Nat.{pow-suc}
use muduo.Base.{
  ℕ, zero, suc, ◌+◌, ◌-◌, ◌*◌, ◌/◌, ◌%◌, ◌^◌, ◌<◌, ◌≤◌, ◌≡◌, ◌∙◌, ap, refl, sym, subst, some, List,
  [], ◌∷◌, ◌++◌, append-nil, arith, length, take, drop, ◌>>=◌, Gives, le→leb, length-append,
  take-append_length, drop-append_length, take_fewer,
}
use muduo.Buffer.{Buffer, max_size, peek_bytes, append, retrieve}
use muduo.Buffer.Content.{IsValid, contents, readable_bytes-eq, length-contents}
use muduo.Buffer.Append.{Holds, Extended, append-Extended}
use muduo.Buffer.Prepend.{prepend-Holds}
use muduo.Buffer.Retrieve.{retrieve-Holds}
use muduo.Buffer.Ints.{
  Host, be_bytes, be_value_from, host_to_network, network_to_host, append_int, prepend_int,
  peek_int, read_int,
}

pub length-be_bytes : (n x : ℕ) → length (be_bytes n x) ≡ n
length-be_bytes zero x = refl
length-be_bytes (suc n) x =
    omega
      (arith, length-append (be_bytes n (x / 256)) ((x % 256) ∷ []), length-be_bytes n (x / 256))

be_value_from-snoc :
    (acc : ℕ) (ds : List ℕ) (d : ℕ)
    → be_value_from acc (ds ++ d ∷ []) ≡ be_value_from acc ds * 256 + d
be_value_from-snoc acc [] d = refl
be_value_from-snoc acc (e ∷ ds) d = be_value_from-snoc (acc * 256 + e) ds d

pub be_value-be_bytes : (n x : ℕ) → x < 256 ^ n → be_value_from 0 (be_bytes n x) ≡ x
be_value-be_bytes zero x h = omega arith
be_value-be_bytes (suc n) x h =
    be_value_from-snoc 0 (be_bytes n (x / 256)) (x % 256)
    ∙ ap (λ v. v * 256 + x % 256) (be_value-be_bytes n (x / 256) (omega (arith, pow-suc 256 n)))
    ∙ omega arith

module _ (host : Host) (n x : ℕ) (fits : x < 256 ^ n) where
  open host use {store}

  pub peek_int-Holds :
      {b : Buffer} (ds : List ℕ) → Holds (be_bytes n x ++ ds) b → peek_int host n b ≡ some x
  unfolding peek_int network_to_host peek_bytes
  peek_int-Holds {b} ds h = rw (
    readable_bytes-eq v,
    le→leb n (b.writer_index - b.reader_index) count,
    host.betoh-load n (take n (drop b.reader_index b.buffer))
        (omega (arith, ap length front, size)),
    front,
    be_value-be_bytes n x fits,
  )
    where
      v : IsValid b
      v = h.valid

      size : length (be_bytes n x) ≡ n
      size = length-be_bytes n x

      count : n ≤ b.writer_index - b.reader_index
      count =
          omega (arith, length-contents v, ap length h.holds, length-append (be_bytes n x) ds, size)

      front : take n (drop b.reader_index b.buffer) ≡ be_bytes n x
      front =
          sym (take_fewer n (b.writer_index - b.reader_index) (drop b.reader_index b.buffer) count)
          ∙ ap (take n) h.holds
          ∙ take-append_length n (be_bytes n x) ds (sym size)

  read_int-Holds :
      {b : Buffer} (ds : List ℕ)
      → Holds (be_bytes n x ++ ds) b
      → (b' : Buffer) × (read_int host n b ≡ some (x, b')) × Holds ds b'
  unfolding read_int
  read_int-Holds {b} ds h = (
    kept.0,
    rw (peek_int-Holds ds h, kept.1),
    rw (← drop-append_length n (be_bytes n x) ds (sym (length-be_bytes n x)), ← h.holds) kept.2,
  )
    where
      kept : Gives (retrieve n b) (Holds (drop n (contents b)))
      kept =
          retrieve-Holds h.valid n
            (omega (arith, ap length h.holds, length-append (be_bytes n x) ds, length-be_bytes n x))

  stored : store n (host_to_network host n x) ≡ be_bytes n x
  unfolding host_to_network
  stored = host.store-htobe n x fits

  -- `append_int` and then `read_int`, on a buffer that may hold other bytes already: these come
  -- first, and what is read at their end is the integer.
  pub append_int-Extended :
      {b : Buffer}
      → IsValid b
      → b.writer_index + n ≤ max_size
      → Gives (append_int host n x b) (Extended n (contents b ++ be_bytes n x) b)
  unfolding append_int
  append_int-Extended {b} v room = rw stored (
      subst (λ k. Gives (append (be_bytes n x) b) (Extended k (contents b ++ be_bytes n x) b))
        (length-be_bytes n x)
        (append-Extended v (be_bytes n x) (omega (arith, length-be_bytes n x))))

  pub append_int-Holds :
      {b : Buffer}
      → IsValid b
      → b.writer_index + n ≤ max_size
      → Gives (append_int host n x b) (Holds (contents b ++ be_bytes n x))
  append_int-Holds {b} v room = (extended.0, extended.1, extended.2.holds)
    where
      extended : Gives (append_int host n x b) (Extended n (contents b ++ be_bytes n x) b)
      extended = append_int-Extended v room

  pub read_int-append_int :
      {b : Buffer}
      → Holds [] b
      → b.writer_index + n ≤ max_size
      → (b' : Buffer) × ((append_int host n x b >>= read_int host n) ≡ some (x, b')) × Holds [] b'
  read_int-append_int {b} h room = through (append_int-Holds h.valid room)
    where
      through :
          Gives (append_int host n x b) (Holds (contents b ++ be_bytes n x))
          → (b' : Buffer) × ((append_int host n x b >>= read_int host n) ≡ some (x, b'))
            × Holds [] b'
      through (b', e, r) =
          rw e (read_int-Holds [] (rw append-nil (rw (← ap (λ c. c ++ be_bytes n x) h.holds) r)))

  pub prepend_int-Holds :
      {b : Buffer}
      → IsValid b
      → n ≤ b.reader_index
      → Gives (prepend_int host n x b) (Holds (be_bytes n x ++ contents b))
  unfolding prepend_int
  prepend_int-Holds {b} v room =
      rw stored (prepend-Holds v (be_bytes n x) (omega (arith, length-be_bytes n x)))

  -- An integer that is prepended is the next one read, and leaves the bytes that were there.
  pub read_int-prepend_int :
      {b : Buffer}
      → IsValid b
      → n ≤ b.reader_index
      → (b' : Buffer) × ((prepend_int host n x b >>= read_int host n) ≡ some (x, b'))
        × Holds (contents b) b'
  read_int-prepend_int {b} v room = through (prepend_int-Holds v room)
    where
      through :
          Gives (prepend_int host n x b) (Holds (be_bytes n x ++ contents b))
          → (b' : Buffer) × ((prepend_int host n x b >>= read_int host n) ≡ some (x, b'))
            × Holds (contents b) b'
      through (b', e, r) = rw e (read_int-Holds (contents b) r)
