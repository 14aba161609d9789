-- ===== src/TimeZone.antt =====
-- muduo/base/TimeZone.cc and TimeZone.h: times of day and dates from seconds, the transitions of a
-- zone, and the file of a zone. A `time_t` is an integer, an `int` one of 32 bits. `none` is an overflow,
-- an access outside a vector or a string, or a failed assertion; dates before the year 0 are outside
-- the model, and give `none` too.
pub mod Utc
pub mod Zone
pub mod Find
pub mod Local
pub mod File
mod Tests
use muduo.Base.{
  Bool, true, false, ◌&&◌, ℕ, suc, ◌+◌, ◌-◌, ◌*◌, ◌/◌, ◌%◌, ◌^◌, Option, some, List, [], ◌∷◌, leb,
  ltb, if◌then◌else◌, ◌>>=◌, ◌>>◌, assert,
}
use muduo.Base.Int.{ℤ, pos, negsuc, pos_part, neg_part, ◌+ℤ◌, ◌-ℤ◌, scale, quot, rem, to_int32}
use muduo.Date.{Date, YearMonthDay, julian_day, date_of, year_month_day, week_day}

-- The fields of `struct tm` that the code sets. `tm_zone` is what the pointer points to.
pub record Tm : Type 0 where
  pub tm_sec : ℕ
  pub tm_min : ℕ
  pub tm_hour : ℕ
  pub tm_mday : ℕ
  pub tm_mon : ℕ
  pub tm_year : ℤ
  pub tm_wday : ℕ
  pub tm_yday : ℕ
  pub tm_isdst : Bool
  pub tm_gmtoff : ℤ
  pub tm_zone : List ℕ

-- What `memZero` leaves; the null pointer in `tm_zone` points to nothing.
abbrev pub zero_tm : Tm
zero_tm = record {
  tm_sec = 0;
  tm_min = 0;
  tm_hour = 0;
  tm_mday = 0;
  tm_mon = 0;
  tm_year = pos 0;
  tm_wday = 0;
  tm_yday = 0;
  tm_isdst = false;
  tm_gmtoff = pos 0;
  tm_zone = [];
}

abbrev pub k_seconds_per_day : ℕ
k_seconds_per_day = 24 * 60 * 60

-- `Date::kJulianDayOf1970_01_01`
unfoldable pub k_julian_day_of_1970_01_01 : ℕ
unfolding julian_day
k_julian_day_of_1970_01_01 = julian_day 1970 1 1

-- The number is one of an `int`.
abbrev pub is_int : ℤ → Bool
is_int z = ltb (pos_part z) (2 ^ 31) && leb (neg_part z) (2 ^ 31)

-- `static_cast<int>` keeps the lower 32 bits.
abbrev pub cast_int : ℤ → ℤ
cast_int (pos n) = to_int32 (n % 2 ^ 32)
cast_int (negsuc n) = to_int32 (2 ^ 32 - 1 - n % 2 ^ 32)

unfoldable pub fill_hms : ℕ → Tm → Tm
fill_hms seconds utc =
    let minutes = seconds / 60 in
    record utc { tm_sec = seconds % 60; tm_min = minutes % 60; tm_hour = minutes / 60 }

-- The seconds of the day and the days: `if (seconds < 0)` of `toUtcTime`.
abbrev pub whole_day : ℤ → ℤ → ℕ × ℤ
whole_day (pos seconds) days = (seconds, days)
whole_day (negsuc n) days = (k_seconds_per_day - suc n, days -ℤ pos 1)

abbrev pub fields_of : ℕ → Date → YearMonthDay → Tm
fields_of seconds date ymd =
    record (fill_hms seconds (record zero_tm { tm_zone = b'G' ∷ b'M' ∷ b'T' ∷ [] })) {
      tm_year = pos ymd.year -ℤ pos 1900;
      tm_mon = ymd.month - 1;
      tm_mday = ymd.day;
      tm_wday = week_day date;
    }

abbrev pub with_yday : Date → ℕ → Tm → Option Tm
with_yday date year utc = do
  start_of_year ← date_of year 1 1
  some (record utc { tm_yday = date.julian_day_number - start_of_year.julian_day_number })

-- `toUtcTime` behind the split into days and seconds.
unfoldable pub utc_of : ℕ → Date → Bool → Option Tm
utc_of seconds date yday = do
  ymd ← year_month_day date
  if yday
      then with_yday date ymd.year (fields_of seconds date ymd)
      else some (fields_of seconds date ymd)

-- The sum of two `int`s is one, and not negative here.
unfoldable pub day_of : ℤ → Option Date
day_of days = do
  let n = days +ℤ pos k_julian_day_of_1970_01_01
  assert (is_int n)
  assert (leb (neg_part n) 0)
  some (record { julian_day_number = pos_part n })

unfoldable pub to_utc_time : ℤ → Bool → Option Tm
to_utc_time seconds_since_epoch yday = do
  let split =
      whole_day (rem seconds_since_epoch k_seconds_per_day)
        (cast_int (quot seconds_since_epoch k_seconds_per_day))
  assert (is_int split.1)
  date ← day_of split.1
  utc_of split.0 date yday

-- `fromUtcTime` of six numbers.
unfoldable pub seconds_of : (year month day hour minute seconds : ℕ) → Option ℤ
seconds_of year month day hour minute seconds = do
  date ← date_of year month day
  assert (ltb (hour * 3600 + minute * 60 + seconds) (2 ^ 31))
  some (
      scale (pos date.julian_day_number -ℤ pos k_julian_day_of_1970_01_01) k_seconds_per_day
      +ℤ pos (hour * 3600 + minute * 60 + seconds))

unfoldable pub from_utc_time : Tm → Option ℤ
from_utc_time utc = do
  let year = utc.tm_year +ℤ pos 1900
  assert (is_int year)
  assert (leb (neg_part year) 0)
  seconds_of (pos_part year) (utc.tm_mon + 1) utc.tm_mday utc.tm_hour utc.tm_min utc.tm_sec
