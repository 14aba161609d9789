-- ===== src/TimeZone/File/Missing.antt =====
-- A zone without a file.
use muduo.Base.{
  true, false, ℕ, ◌<◌, Option, none, some, List, length, take, leb, gt→leb, Bool-cases, ◌⊎◌, inl,
  inr, ◌≡◌, refl, sym, ap, ◌∙◌,
}
use muduo.Base.Bytes.{bytes_eq}
use muduo.Base.Int.{ℤ}
use muduo.Buffer.Ints.{Host}
use muduo.TimeZone.{Tm, zero_tm}
use muduo.TimeZone.Zone.{Data, Libc, find_localtime, to_local_time, from_local_time}
use muduo.TimeZone.File.{thrown, empty_data, head, read_file, caught, read_time_zone_file}

-- The file cannot be opened, is too short, or does not begin with "TZif".
abbrev pub IsNotZone : Option (List ℕ) → Type 0
IsNotZone none = Unit
IsNotZone (some bytes) = (length bytes < 4) ⊎ (bytes_eq (take 4 bytes) head ≡ false)

bad_head :
    (bytes : List ℕ)
    → leb 4 (length bytes) ≡ true
    → IsNotZone (some bytes)
    → bytes_eq (take 4 bytes) head ≡ false
bad_head bytes e (inl short) = absurd (cc (sym e ∙ gt→leb 4 (length bytes) short))
bad_head bytes e (inr other) = other

module _ (host : Host) where
  read_file-thrown :
      (bytes : List ℕ)
      → IsNotZone (some bytes)
      → read_file host bytes empty_data ≡ thrown empty_data
  unfolding read_file
  read_file-thrown bytes h = elim (Bool-cases (leb 4 (length bytes))) [
    | inl e ↦ rw (e, bad_head bytes e h) refl
    | inr e ↦ rw e refl
  ]

  read-empty :
      (file : Option (List ℕ)) → IsNotZone file → read_time_zone_file host file ≡ some empty_data
  unfolding read_time_zone_file
  read-empty none h = refl
  read-empty (some bytes) h = ap (caught host) (read_file-thrown bytes h)

  -- For a file that cannot be opened, is shorter than four bytes or does not begin with "TZif", the
  -- constructor of the zone keeps data without any local time. Where `&front()` of an empty vector is a null
  -- pointer, `toLocalTime` then gives a zeroed `struct tm` whatever the time, and `fromLocalTime` of any
  -- local time dereferences the null pointer.
  pub to_local_time-read_time_zone_file :
      (libc : Libc) (file : Option (List ℕ)) (seconds : ℤ) (local_tm : Tm)
      → IsNotZone file
      → libc.null_front ≡ true
      → (d : Data) × (read_time_zone_file host file ≡ some d)
        × (to_local_time libc d seconds ≡ some zero_tm)
        × (from_local_time libc d local_tm ≡ none)
  unfolding to_local_time from_local_time find_localtime
  to_local_time-read_time_zone_file libc file seconds local_tm h null =
      (empty_data, read-empty file h, rw null refl, refl)
