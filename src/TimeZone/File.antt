-- ===== src/TimeZone/File.antt =====
-- `readTimeZoneFile`: the fields of a time zone file, read one after another. An exception leaves what
-- has been put into the data so far.
pub mod Encode
pub mod Reads
pub mod RoundTrip
pub mod Missing
use muduo.Base.{
  Bool, true, false, not, ℕ, zero, suc, ◌+◌, ◌-◌, ◌%◌, ◌^◌, Option, none, some, List, [], ◌∷◌, ◌++◌,
  length, take, drop, get_elem?, leb, ltb, ◌==◌, if◌then◌else◌,
}
use muduo.Base.Bytes.{bytes_eq}
use muduo.Base.Int.{ℤ, pos, negsuc, pos_part, ◌+ℤ◌, to_int32}
use muduo.Buffer.Ints.{Host}
use muduo.TimeZone.Zone.{Transition, Localtime, Data}

-- What a part of the reading does: it returns with the bytes that are left, it throws a `logic_error`,
-- or it reads or writes outside an array.
pub data Outcome (A : Type 0) : Type 0 where
  done : A → List ℕ → Data → Outcome A
  thrown : Data → Outcome A
  undefined : Outcome A

abbrev pub Reader : Type 0 → Type 0
Reader A = List ℕ → Data → Outcome A

abbrev pub and_then : {A B : Type 0} → Outcome A → (A → Reader B) → Outcome B
and_then (done a bytes data_) f = f a bytes data_
and_then (thrown data_) f = thrown data_
and_then undefined f = undefined

infixl 5 ◌>>=◌ ◌>>◌
abbrev pub ◌>>=◌ : {A B : Type 0} → Reader A → (A → Reader B) → Reader B
◌>>=◌ m f bytes data_ = and_then (m bytes data_) f

abbrev pub ◌>>◌ : {B : Type 0} → Reader (Unit {0}) → Reader B → Reader B
m >> k = m >>= λ _. k

abbrev pub return : {A : Type 0} → A → Reader A
return a bytes data_ = done a bytes data_

abbrev pub throw_unless : Bool → Reader (Unit {0})
throw_unless true bytes data_ = done tt bytes data_
throw_unless false bytes data_ = thrown data_

-- `File::readBytes`; an array of negative size is undefined.
unfoldable pub read_bytes : ℤ → Reader (List ℕ)
read_bytes (pos n) bytes data_ =
    if leb n (length bytes) then done (take n bytes) (drop n bytes) data_ else thrown data_
read_bytes (negsuc n) bytes data_ = undefined

abbrev pub empty_data : Data
empty_data = record { transitions = []; localtimes = []; abbreviation = [] }

-- The result is a `uint8_t`.
unfoldable pub read_uint8 : Reader ℕ
read_uint8 [] data_ = thrown data_
read_uint8 (x ∷ bytes) data_ = done (x % 256) bytes data_

abbrev pub push_localtime : Localtime → Reader (Unit {0})
push_localtime l bytes data_ =
    done tt bytes (record data_ { localtimes = data_.localtimes ++ l ∷ [] })

-- `data->localtimes[localIdx]` and the transition made of it.
abbrev pub transition_of : ℤ → ℕ → Option Localtime → Reader (Unit {0})
transition_of t local_idx none bytes data_ = undefined
transition_of t local_idx (some l) bytes data_ = done tt bytes (record data_ {
  transitions =
      data_.transitions
      ++ record { gmttime = t; localtime = t +ℤ l.gmt_offset; localtime_idx = local_idx } ∷ [];
})

unfoldable pub push_transition : ℤ → ℕ → Reader (Unit {0})
push_transition t local_idx bytes data_ =
    transition_of t local_idx (get_elem? data_.localtimes local_idx) bytes data_

abbrev pub set_abbreviation : List ℕ → Reader (Unit {0})
set_abbreviation s bytes data_ = done tt bytes (record data_ { abbreviation = s })

-- The second loop over the transitions, with the local index of each.
unfoldable pub read_indices : ℕ → Reader (List ℕ)
unfolding read_uint8
read_indices zero = return []
read_indices (suc n) = do local ← read_uint8; rest ← read_indices n; return (local ∷ rest)

-- The loop that puts the transitions together. Both vectors have `timecnt` elements.
unfoldable pub push_transitions : List ℤ → List ℕ → Reader (Unit {0})
unfolding push_transition
push_transitions [] idxs = return tt
push_transitions (t ∷ trans) [] = λ bytes data_. undefined
push_transitions (t ∷ trans) (i ∷ idxs) = do push_transition t i; push_transitions trans idxs

abbrev pub head : List ℕ
head = b'T' ∷ b'Z' ∷ b'i' ∷ b'f' ∷ []

abbrev pub is_count : ℤ → Bool
is_count (pos n) = true
is_count (negsuc n) = false

module _ (host : Host) where
  open host use {load, betoh}

  unfoldable pub read_int32 : Reader ℤ
  read_int32 bytes data_ =
      if leb 4 (length bytes)
      then done (to_int32 (betoh 4 (load 4 (take 4 bytes)))) (drop 4 bytes) data_
      else thrown data_

  unfoldable pub read_trans : ℕ → Reader (List ℤ)
  unfolding read_int32
  read_trans zero = return []
  read_trans (suc n) = do t ← read_int32; rest ← read_trans n; return (t ∷ rest)

  unfoldable pub read_types : ℕ → Reader (Unit {0})
  unfolding read_int32 read_uint8
  read_types zero = return tt
  read_types (suc n) = do
    gmtoff ← read_int32
    isdst ← read_uint8
    abbrind ← read_uint8
    push_localtime (record { gmt_offset = gmtoff; is_dst = not (isdst == 0); arrb_idx = abbrind })
    read_types n

  -- What follows the six counts. `reserve` throws for a negative number.
  unfoldable pub read_body : ℤ → ℤ → ℤ → Reader (Unit {0})
  unfolding read_trans read_indices read_types push_transitions read_bytes
  read_body timecnt typecnt charcnt = do
    throw_unless (is_count timecnt)
    trans ← read_trans (pos_part timecnt)
    localtimes ← read_indices (pos_part timecnt)
    read_types (pos_part typecnt)
    push_transitions trans localtimes
    abbreviation ← read_bytes charcnt
    set_abbreviation abbreviation

  -- The body of the `try`.
  unfoldable pub read_file : Reader (Unit {0})
  unfolding read_bytes read_int32 read_body
  read_file = do
    bytes ← read_bytes (pos 4)
    throw_unless (bytes_eq bytes head)
    version ← read_bytes (pos 1)
    reserved ← read_bytes (pos 15)
    isgmtcnt ← read_int32
    isstdcnt ← read_int32
    leapcnt ← read_int32
    timecnt ← read_int32
    typecnt ← read_int32
    charcnt ← read_int32
    read_body timecnt typecnt charcnt

  -- The exception is caught, and the data are what has been read.
  abbrev pub caught : Outcome (Unit {0}) → Option Data
  caught (done u bytes data_) = some data_
  caught (thrown data_) = some data_
  caught undefined = none

  -- The data of `TimeZone(const char*)`, for a file that cannot be opened (`none`) or its bytes. The
  -- function returns `true` in every case, so the constructor keeps them.
  unfoldable pub read_time_zone_file : Option (List ℕ) → Option Data
  unfolding read_file
  read_time_zone_file none = some empty_data
  read_time_zone_file (some bytes) = caught (read_file bytes empty_data)
