-- ===== src/TimeZone/Local.antt =====
-- Local time and back.
use muduo.Base.{
  Bool, true, false, ◌&&◌, Option, some, List, [], ◌∷◌, length, drop, get_elem?, leb, le→leb, ◌≤◌,
  if◌then◌else◌, ◌>>=◌, ◌≡◌, refl, ap, ◌∙◌,
}
use muduo.Base.Int.{ℤ, pos, ◌+ℤ◌, ◌-ℤ◌, eq_of_parts, int_laws}
use muduo.TimeZone.{Tm}
use muduo.TimeZone.Zone.{
  Transition, Localtime, Data, Libc, is_time, starts_later, transition_at, takes_null,
  find_localtime, to_local_time, from_local_time,
}
use muduo.TimeZone.Find.{IsOrdered, localtime_at, find_localtime-localtime_at}

add_sub : (a b : ℤ) → a +ℤ b -ℤ b ≡ a
add_sub a b = eq_of_parts (a +ℤ b -ℤ b) a (omega int_laws)

and_false : (b : Bool) → (b && false) ≡ false
and_false true = refl
and_false false = refl

-- A local time that is found is not a null pointer.
found-takes_null :
    (d : Data) (sentry : Transition) (gmt : Bool) (l : Localtime) (null_front : Bool)
    → find_localtime d sentry gmt ≡ some l
    → takes_null null_front d.localtimes (starts_later gmt sentry d.transitions) ≡ false
unfolding find_localtime
found-takes_null d sentry gmt l null_front h =
    on (starts_later gmt sentry d.transitions) d.localtimes
      (transition_at gmt sentry d.transitions >>= λ t. get_elem? d.localtimes t.localtime_idx) h
  where
    on :
        (later : Bool) (ls : List Localtime) (o : Option Localtime)
        → (if later then get_elem? ls 0 else o) ≡ some l
        → takes_null null_front ls later ≡ false
    on true [] o h = absurd (cc h)
    on false [] o h = and_false null_front
    on true (l ∷ ls) o h = refl
    on false (l ∷ ls) o h = refl

module _ (libc : Libc) (data_ : Data) (seconds : ℤ) (l : Localtime) where
  abbrev at_gmt : Transition
  at_gmt = record { gmttime = seconds; localtime = pos 0; localtime_idx = 0 }

  abbrev at_local : Transition
  at_local = record { gmttime = pos 0; localtime = seconds +ℤ l.gmt_offset; localtime_idx = 0 }

  abbrev local_tm : Tm
  local_tm = record (libc.gmtime_r (seconds +ℤ l.gmt_offset)) {
    tm_isdst = l.is_dst;
    tm_gmtoff = l.gmt_offset;
    tm_zone = drop l.arrb_idx data_.abbreviation;
  }

  to_local_time-eq :
      find_localtime data_ at_gmt true ≡ some l
      → is_time (seconds +ℤ l.gmt_offset) ≡ true
      → leb l.arrb_idx (length data_.abbreviation) ≡ true
      → to_local_time libc data_ seconds ≡ some local_tm
  unfolding to_local_time
  to_local_time-eq h t i = rw (found-takes_null data_ at_gmt true l libc.null_front h, h, t, i) refl

  from_local_time-eq :
      find_localtime data_ at_local false ≡ some l
      → l.is_dst ≡ false
      → libc.has_date (seconds +ℤ l.gmt_offset) ≡ true
      → is_time seconds ≡ true
      → from_local_time libc data_ local_tm ≡ some seconds
  unfolding from_local_time
  from_local_time-eq h d s t =
      rw
        (
          libc.timegm-gmtime_r (seconds +ℤ l.gmt_offset) l.is_dst l.gmt_offset
              (drop l.arrb_idx data_.abbreviation) s,
          h,
          d,
          add_sub seconds l.gmt_offset,
          t,
        )
        refl

  -- In a zone whose transitions are ordered by both times, a time whose local time is outside daylight
  -- saving, and for which the local time is in force by the local clock too, so that its hour is neither
  -- skipped nor repeated there, comes back from its local time. The time and the local time are ones of 64
  -- bits, the local time has a date for `gmtime_r`, and the abbreviation begins inside the string.
  pub from_local_time-to_local_time :
      IsOrdered true data_.transitions
      → IsOrdered false data_.transitions
      → localtime_at data_ (record { gmttime = seconds; localtime = pos 0; localtime_idx = 0 }) true
        ≡ some l
      → localtime_at data_
          (record { gmttime = pos 0; localtime = seconds +ℤ l.gmt_offset; localtime_idx = 0 })
          false
        ≡ some l
      → l.is_dst ≡ false
      → is_time seconds ≡ true
      → is_time (seconds +ℤ l.gmt_offset) ≡ true
      → libc.has_date (seconds +ℤ l.gmt_offset) ≡ true
      → l.arrb_idx ≤ length data_.abbreviation
      → (to_local_time libc data_ seconds >>= from_local_time libc data_) ≡ some seconds
  from_local_time-to_local_time o p g h d t t' s i =
      ap (λ m. m >>= from_local_time libc data_)
        (to_local_time-eq (find_localtime-localtime_at data_ at_gmt true o ∙ g) t' (le→leb _ _ i))
      ∙ from_local_time-eq (find_localtime-localtime_at data_ at_local false p ∙ h) d s t
