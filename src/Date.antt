-- ===== src/Date.antt =====
-- muduo/base/Date.h and Date.cc: the Gregorian calendar by Julian day numbers. `none` is an overflow of
-- `int`. Years are not negative and days begin with the year 0, whose first day is 1721060; that an
-- argument is of this kind is tested too, and the answer is `none` where it is not.
pub mod Steps
pub mod RoundTrip
pub mod Calendar
mod Tests
use muduo.Base.{ℕ, ◌+◌, ◌-◌, ◌*◌, ◌/◌, ◌%◌, ◌^◌, Option, some, ltb, leb, ◌>>=◌, ◌>>◌, assert}

pub record YearMonthDay : Type 0 where
  pub year : ℕ
  pub month : ℕ
  pub day : ℕ

-- The number that `getJulianDayNumber` computes.
unfoldable pub julian_day : ℕ → ℕ → ℕ → ℕ
julian_day year month day =
    let a = (14 - month) / 12 in
    let y = year + 4800 - a in
    let m = month + 12 * a - 3 in
    day + (153 * m + 2) / 5 + y * 365 + y / 4 - y / 100 + y / 400 - 32045

-- The largest number on the way, before the first subtraction of the sum.
unfoldable pub largest_sum : ℕ → ℕ → ℕ → ℕ
largest_sum year month day =
    let a = (14 - month) / 12 in
    let y = year + 4800 - a in
    let m = month + 12 * a - 3 in day + (153 * m + 2) / 5 + y * 365 + y / 4

-- `14 - month` must not be negative here.
unfoldable pub get_julian_day_number : ℕ → ℕ → ℕ → Option ℕ
get_julian_day_number year month day = do
  assert (leb month 14)
  assert (ltb (largest_sum year month day) (2 ^ 31))
  some (julian_day year month day)

-- The date that `getYearMonthDay` computes.
unfoldable pub calendar_day : ℕ → YearMonthDay
calendar_day julian_day_number =
    let a = julian_day_number + 32044 in
    let b = (4 * a + 3) / 146097 in
    let c = a - b * 146097 / 4 in
    let d = (4 * c + 3) / 1461 in
    let e = c - 1461 * d / 4 in
    let m = (5 * e + 2) / 153 in
    record {
      day = e - (153 * m + 2) / 5 + 1;
      month = m + 3 - 12 * (m / 10);
      year = b * 100 + d + m / 10 - 4800;
    }

-- The first day of the year 0.
abbrev pub first_day : ℕ
first_day = 1721060

-- The largest number on the way is `4 * a + 3`.
unfoldable pub get_year_month_day : ℕ → Option YearMonthDay
get_year_month_day julian_day_number = do
  assert (leb first_day julian_day_number)
  assert (ltb (4 * (julian_day_number + 32044) + 3) (2 ^ 31))
  some (calendar_day julian_day_number)

pub record Date : Type 0 where
  pub julian_day_number : ℕ

-- The constructor from a year, a month and a day.
unfoldable pub date_of : ℕ → ℕ → ℕ → Option Date
date_of y m d = do n ← get_julian_day_number y m d; some (record { julian_day_number = n })

unfoldable pub year_month_day : Date → Option YearMonthDay
year_month_day x = get_year_month_day x.julian_day_number

abbrev pub days_per_week : ℕ
days_per_week = 7

unfoldable pub week_day : Date → ℕ
week_day x = (x.julian_day_number + 1) % days_per_week
