-- ===== src/Buffer/Ints.antt =====
-- The integers of Buffer.h and Endian.h, in network order. An integer of `n` bytes is its
-- bit pattern, below 256 ^ n.
pub mod RoundTrip
use muduo.Base.{
  ℕ, zero, suc, ◌+◌, ◌*◌, ◌/◌, ◌%◌, ◌^◌, ◌<◌, ◌≡◌, Option, some, List, [], ◌∷◌, ◌++◌, length, leb,
  ◌>>=◌, ◌>>◌, assert,
}
use muduo.Buffer.{Buffer, readable_bytes, peek_bytes, append, prepend, retrieve}

-- Most significant byte first.
abbrev pub be_bytes : ℕ → ℕ → List ℕ
be_bytes zero x = []
be_bytes (suc n) x = be_bytes n (x / 256) ++ (x % 256) ∷ []

abbrev pub be_value_from : ℕ → List ℕ → ℕ
be_value_from acc [] = acc
be_value_from acc (d ∷ ds) = be_value_from (acc * 256 + d) ds

-- The machine, and `htobe16/32/64` and `be16/32/64toh` of the C library's <endian.h>. Of these it is
-- documented that a converted integer lies in memory in network order.
pub record Host : Type 0 where
  pub store : ℕ → ℕ → List ℕ
  pub load : ℕ → List ℕ → ℕ
  pub htobe : ℕ → ℕ → ℕ
  pub betoh : ℕ → ℕ → ℕ
  pub store-htobe : (n x : ℕ) → x < 256 ^ n → store n (htobe n x) ≡ be_bytes n x
  pub betoh-load : (n : ℕ) (ds : List ℕ) → length ds ≡ n → betoh n (load n ds) ≡ be_value_from 0 ds

module _ (host : Host) where
  open host use {store, load, htobe, betoh}

  -- `sockets::hostToNetwork64` and the like
  unfoldable pub host_to_network : ℕ → ℕ → ℕ
  host_to_network n x = htobe n x

  unfoldable pub network_to_host : ℕ → ℕ → ℕ
  network_to_host n x = betoh n x

  unfoldable pub append_int : ℕ → ℕ → Buffer → Option Buffer
  append_int n x b = append (store n (host_to_network n x)) b

  unfoldable pub prepend_int : ℕ → ℕ → Buffer → Option Buffer
  prepend_int n x b = prepend (store n (host_to_network n x)) b

  unfoldable pub peek_int : ℕ → Buffer → Option ℕ
  peek_int n b = do
    assert (leb n (readable_bytes b))
    some (network_to_host n (load n (peek_bytes n b)))

  unfoldable pub read_int : ℕ → Buffer → Option (ℕ × Buffer)
  read_int n b = do result ← peek_int n b; b' ← retrieve n b; some (result, b')
