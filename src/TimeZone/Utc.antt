-- ===== src/TimeZone/Utc.antt =====
-- Seconds since the epoch survive the way to a date and a time of day and back.
use muduo.Base.{
  Bool, true, false, ℕ, zero, suc, ◌+◌, ◌-◌, ◌*◌, ◌/◌, ◌%◌, ◌^◌, ◌≤◌, ◌<◌, some, le→leb, lt→ltb,
  ge→ltb, ◌>>=◌, ◌≡◌, refl, ap, ◌∙◌, arith,
}
use muduo.Base.Int.{
  ℤ, pos, negsuc, pos_part, neg_part, neg, neg_parts, ◌+ℤ◌, ◌-ℤ◌, scale, quot, rem, -ℤ_parts,
  scale_parts, eq_of_parts, int_laws,
}
use muduo.Date.{
  Date, YearMonthDay, julian_day, largest_sum, calendar_day, first_day, get_julian_day_number,
  get_year_month_day, date_of, year_month_day,
}
use muduo.Date.RoundTrip.{InCalendar, julian_day-calendar_day}
use muduo.TimeZone.{
  k_julian_day_of_1970_01_01, is_int, cast_int, whole_day, fields_of, utc_of, day_of, to_utc_time,
  fill_hms, seconds_of, from_utc_time,
}

-- The split of a time into days and the seconds of the day.
abbrev IsSplit : ℤ → ℕ → ℤ → Type 0
IsSplit s seconds days =
    (seconds < 86400)
    × (86400 * pos_part days + seconds + neg_part s ≡ pos_part s + 86400 * neg_part days)

negative-IsSplit :
    (n r q : ℕ)
    → r < 86400
    → 86400 * q + r ≡ suc n
    → IsSplit (negsuc n) (whole_day (neg r) (neg q)).0 (whole_day (neg r) (neg q)).1
negative-IsSplit n zero q h e = omega (arith, neg_parts q)
negative-IsSplit n (suc r) q h e = omega (arith, neg_parts q, -ℤ_parts (neg q) (pos 1))

whole_day-IsSplit :
    (s : ℤ)
    → IsSplit s
        (whole_day (rem s 86400) (quot s 86400)).0
        (whole_day (rem s 86400) (quot s 86400)).1
unfolding rem quot
whole_day-IsSplit (pos n) = omega arith
whole_day-IsSplit (negsuc n) =
    negative-IsSplit n (suc n % 86400) (suc n / 86400) (omega arith) (omega arith)

epoch : k_julian_day_of_1970_01_01 ≡ 2440588
unfolding k_julian_day_of_1970_01_01
epoch = refl

-- The last day for which no `int` overflows.
abbrev last_day : ℕ
last_day = 536838867

julian_day-bounds :
    (y m d : ℕ)
    → m ≤ 12
    → julian_day y m d ≤ last_day
    → (largest_sum y m d < 2 ^ 31) × (largest_sum y 1 1 < 2 ^ 31) × (y ≤ 1500000)
unfolding julian_day largest_sum
julian_day-bounds y m d h k = (omega arith, omega arith, omega arith)

get_julian_day_number-eq :
    (y m d : ℕ)
    → m ≤ 12
    → largest_sum y m d < 2 ^ 31
    → get_julian_day_number y m d ≡ some (julian_day y m d)
unfolding get_julian_day_number
get_julian_day_number-eq y m d h k =
    rw (le→leb m 14 (omega arith), lt→ltb (largest_sum y m d) (2 ^ 31) k) refl

get_year_month_day-eq :
    (n : ℕ) → 1721120 ≤ n → n ≤ last_day → get_year_month_day n ≡ some (calendar_day n)
unfolding get_year_month_day
get_year_month_day-eq n h k =
    rw (le→leb first_day n (omega arith), lt→ltb (4 * (n + 32044) + 3) (2 ^ 31) (omega arith)) refl

is_int-true : (z : ℤ) → pos_part z < 2 ^ 31 → neg_part z ≤ 2 ^ 31 → is_int z ≡ true
is_int-true z h k = rw (lt→ltb (pos_part z) (2 ^ 31) h) (le→leb (neg_part z) (2 ^ 31) k)

pub back_and_forth : (n : ℕ) → pos n -ℤ pos 1900 +ℤ pos 1900 ≡ pos n
back_and_forth n = eq_of_parts (pos n -ℤ pos 1900 +ℤ pos 1900) (pos n) (omega int_laws)

module _ (seconds : ℕ) (date : Date) (low : 1721120 ≤ date.julian_day_number)
    (high : date.julian_day_number ≤ last_day) (short : seconds < 86400) where
  abbrev ymd : YearMonthDay
  ymd = calendar_day date.julian_day_number

  in_calendar : InCalendar ymd
  in_calendar = (julian_day-calendar_day date.julian_day_number low).0

  same_day : julian_day ymd.year ymd.month ymd.day ≡ date.julian_day_number
  same_day = (julian_day-calendar_day date.julian_day_number low).1

  bounds :
      (largest_sum ymd.year ymd.month ymd.day < 2 ^ 31)
      × (largest_sum ymd.year 1 1 < 2 ^ 31)
      × (ymd.year ≤ 1500000)
  bounds = julian_day-bounds ymd.year ymd.month ymd.day in_calendar.1 (rw same_day high)

  year_month_day-eq : year_month_day date ≡ some ymd
  unfolding year_month_day
  year_month_day-eq = get_year_month_day-eq date.julian_day_number low high

  seconds_of-ymd :
      seconds_of ymd.year ymd.month ymd.day (seconds / 60 / 60) (seconds / 60 % 60) (seconds % 60)
      ≡ some (scale (pos date.julian_day_number -ℤ pos 2440588) 86400 +ℤ pos seconds)
  unfolding seconds_of date_of
  seconds_of-ymd =
      rw
        (
          get_julian_day_number-eq ymd.year ymd.month ymd.day in_calendar.1 bounds.0,
          same_day,
          epoch,
          whole,
          lt→ltb seconds (2 ^ 31) (omega arith),
        )
        refl
    where
      whole : seconds / 60 / 60 * 3600 + seconds / 60 % 60 * 60 + seconds % 60 ≡ seconds
      whole = omega arith

  abbrev time_of : ℤ
  time_of = scale (pos date.julian_day_number -ℤ pos 2440588) 86400 +ℤ pos seconds

  -- The fields, whatever `tm_yday` is.
  from_utc_time-fields :
      (n : ℕ) → from_utc_time (record (fields_of seconds date ymd) { tm_yday = n }) ≡ some time_of
  unfolding from_utc_time fill_hms
  from_utc_time-fields n =
      rw
        (
          back_and_forth ymd.year,
          is_int-true (pos ymd.year) (omega (arith, bounds.2)) (omega arith),
          month,
        )
        seconds_of-ymd
    where
      month : ymd.month - 1 + 1 ≡ ymd.month
      month = omega (arith, in_calendar.0)

  start_of_year :
      date_of ymd.year 1 1 ≡ some (record { julian_day_number = julian_day ymd.year 1 1 })
  unfolding date_of
  start_of_year = rw (get_julian_day_number-eq ymd.year 1 1 (omega arith) bounds.1) refl

  from_utc_time-utc_of : (yday : Bool) → (utc_of seconds date yday >>= from_utc_time) ≡ some time_of
  unfolding utc_of fill_hms
  from_utc_time-utc_of false = rw year_month_day-eq (from_utc_time-fields 0)
  from_utc_time-utc_of true = rw (year_month_day-eq, start_of_year) (from_utc_time-fields _)

-- The Julian day of a split.
day_of-parts :
    (days : ℤ)
    → neg_part days ≤ 719468
    → pos_part days ≤ 534398279
    → day_of days ≡ some (record { julian_day_number = pos_part days + 2440588 - neg_part days })
unfolding day_of
day_of-parts days h k =
    rw
      (
        epoch,
        shifted,
        is_int-true (pos (pos_part days + 2440588 - neg_part days)) (omega arith) (omega arith),
      )
      refl
  where
    shifted : days +ℤ pos 2440588 ≡ pos (pos_part days + 2440588 - neg_part days)
    shifted =
        eq_of_parts (days +ℤ pos 2440588) (pos (pos_part days + 2440588 - neg_part days))
          (omega int_laws)

split_bounds :
    (s : ℤ) (seconds : ℕ) (days : ℤ)
    → IsSplit s seconds days
    → neg_part s ≤ 62162035200
    → pos_part s ≤ 46172011391999
    → (neg_part days ≤ 719468) × (pos_part days ≤ 534398279)
split_bounds (pos n) seconds (pos d) (small, e) h k = (omega arith, omega arith)
split_bounds (pos n) seconds (negsuc d) (small, e) h k = (omega arith, omega arith)
split_bounds (negsuc n) seconds (pos d) (small, e) h k = (omega arith, omega arith)
split_bounds (negsuc n) seconds (negsuc d) (small, e) h k = (omega arith, omega arith)

split_back :
    (s : ℤ) (seconds : ℕ) (days : ℤ) (n : ℕ)
    → IsSplit s seconds days
    → n + neg_part days ≡ pos_part days + 2440588
    → scale (pos n -ℤ pos 2440588) 86400 +ℤ pos seconds ≡ s
split_back s seconds days n (small, e) h =
    omega (int_laws, scale_parts (pos n -ℤ pos 2440588) 86400)

-- The cast of a number that is one of an `int`.
cast_int-pos : (n : ℕ) → n < 2 ^ 31 → cast_int (pos n) ≡ pos n
cast_int-pos n h =
    let same : n % 4294967296 ≡ n = omega arith in rw (same, lt→ltb n 2147483648 h) refl

cast_int-neg : (n : ℕ) → n ≤ 2 ^ 31 → cast_int (neg n) ≡ neg n
cast_int-neg zero h = refl
cast_int-neg (suc n) h =
    let same : n % 4294967296 ≡ n = omega arith in
    rw (same, ge→ltb (4294967295 - n) 2147483648 (omega arith)) (ap negsuc (omega arith))

quot-cast :
    (s : ℤ)
    → neg_part s ≤ 62162035200
    → pos_part s ≤ 46172011391999
    → cast_int (quot s 86400) ≡ quot s 86400
unfolding quot
quot-cast (pos n) h k = cast_int-pos (n / 86400) (omega arith)
quot-cast (negsuc n) h k = cast_int-neg (suc n / 86400) (omega arith)

-- A time from the first of March of the year 0 to the last second of the day 536838867, the last for which
-- no `int` overflows, comes back from its date and time of day.
pub from_utc_time-to_utc_time :
    (seconds : ℤ) (yday : Bool)
    → neg_part seconds ≤ 62162035200
    → pos_part seconds ≤ 46172011391999
    → (to_utc_time seconds yday >>= from_utc_time) ≡ some seconds
unfolding to_utc_time
from_utc_time-to_utc_time seconds yday h k =
    let split = whole_day (rem seconds 86400) (quot seconds 86400) in
    let s = whole_day-IsSplit seconds in
    let (low, high) = split_bounds seconds split.0 split.1 s h k in
    let n = pos_part split.1 + 2440588 - neg_part split.1 in
    rw
      (
        quot-cast seconds h k,
        is_int-true split.1 (omega arith) (omega arith),
        day_of-parts split.1 low high,
      )
      (from_utc_time-utc_of split.0 (record { julian_day_number = n }) (omega arith) (omega arith)
          s.0 yday
        ∙ ap some (split_back seconds split.0 split.1 n s (omega arith)))
