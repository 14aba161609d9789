-- ===== src/TimeZone/File/Encode.antt =====
-- The bytes of a time zone file, as its format has them.
use muduo.Base.{
  Bool, ℕ, ◌-◌, ◌^◌, ◌<◌, some, List, [], ◌∷◌, ◌++◌, length, get_elem?, if◌then◌else◌, ◌≡◌,
}
use muduo.Base.Int.{ℤ, pos, negsuc, ◌+ℤ◌}
use muduo.Buffer.Ints.{be_bytes}
use muduo.TimeZone.Zone.{Transition, Localtime, Data}
use muduo.TimeZone.File.{head}

-- The 32-bit pattern of an integer.
abbrev pub word : ℤ → ℕ
word (pos n) = n
word (negsuc n) = 2 ^ 32 - 1 - n

abbrev pub int32_bytes : ℤ → List ℕ
int32_bytes z = be_bytes 4 (word z)

abbrev pub Int32 : ℤ → Type 0
Int32 (pos n) = n < 2 ^ 31
Int32 (negsuc n) = n < 2 ^ 31

abbrev pub times_bytes : List Transition → List ℕ
times_bytes [] = []
times_bytes (t ∷ ts) = int32_bytes t.gmttime ++ times_bytes ts

abbrev pub index_bytes : List Transition → List ℕ
index_bytes [] = []
index_bytes (t ∷ ts) = t.localtime_idx ∷ index_bytes ts

abbrev pub flag_byte : Bool → ℕ
flag_byte b = if b then 1 else 0

abbrev pub type_bytes : List Localtime → List ℕ
type_bytes [] = []
type_bytes (l ∷ ls) = int32_bytes l.gmt_offset ++ flag_byte l.is_dst ∷ l.arrb_idx ∷ type_bytes ls

-- What a file holds that `readTimeZoneFile` skips: the version, the reserved bytes and three counts.
pub record Skipped : Type 0 where
  pub version : ℕ
  pub reserved : List ℕ
  pub isgmtcnt : ℤ
  pub isstdcnt : ℤ
  pub leapcnt : ℤ

abbrev pub IsSkipped : Skipped → Type 0
IsSkipped s =
    (_ : length s.reserved ≡ 15) × (_ : Int32 s.isgmtcnt) × (_ : Int32 s.isstdcnt) × Int32 s.leapcnt

abbrev pub body_bytes : Data → List ℕ
body_bytes d =
    times_bytes d.transitions
    ++ (index_bytes d.transitions ++ (type_bytes d.localtimes ++ d.abbreviation))

abbrev pub file_bytes : Skipped → Data → List ℕ
file_bytes s d =
    head
    ++ (s.version ∷ s.reserved
        ++ (int32_bytes s.isgmtcnt
            ++ (int32_bytes s.isstdcnt
                ++ (int32_bytes s.leapcnt
                    ++ (int32_bytes (pos (length d.transitions))
                        ++ (int32_bytes (pos (length d.localtimes))
                            ++ (int32_bytes (pos (length d.abbreviation)) ++ body_bytes d)))))))

-- The local time of a transition is its time with the offset of the local time that it names.
abbrev pub AreTransitions : List Localtime → List Transition → Type 0
AreTransitions ls [] = Unit
AreTransitions ls (t ∷ ts) =
    (l : Localtime) × (_ : get_elem? ls t.localtime_idx ≡ some l) × (_ : t.localtime
      ≡ t.gmttime +ℤ l.gmt_offset)
    × (_ : Int32 t.gmttime) × (_ : t.localtime_idx < 256) × AreTransitions ls ts

abbrev pub AreLocaltimes : List Localtime → Type 0
AreLocaltimes [] = Unit
AreLocaltimes (l ∷ ls) = (_ : Int32 l.gmt_offset) × (_ : l.arrb_idx < 256) × AreLocaltimes ls

pub record IsZone (d : Data) : Type 0 where
  pub transitions : AreTransitions d.localtimes d.transitions
  pub localtimes : AreLocaltimes d.localtimes
  pub timecnt : length d.transitions < 2 ^ 31
  pub typecnt : length d.localtimes < 2 ^ 31
  pub charcnt : length d.abbreviation < 2 ^ 31
