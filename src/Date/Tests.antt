-- ===== src/Date/Tests.antt =====
-- Dates at concrete inputs.
use muduo.Base.{◌≡◌, refl, arith, some, ◌>>=◌}
use muduo.Date.{
  YearMonthDay, get_julian_day_number, get_year_month_day, date_of, week_day, julian_day,
  largest_sum,
}
use muduo.Date.Calendar.{IsDate, get_year_month_day-get_julian_day_number}

-- kJulianDayOf1970_01_01
epoch : get_julian_day_number 1970 1 1 ≡ some 2440588
unfolding get_julian_day_number julian_day largest_sum
epoch = refl

-- A Tuesday.
leap_day_week_day : (date_of 2000 2 29 >>= λ x. some (week_day x)) ≡ some 2
unfolding week_day date_of get_julian_day_number julian_day largest_sum
leap_day_week_day = refl

abbrev leap_day : YearMonthDay
leap_day = record { year = 2000; month = 2; day = 29 }

leap_day-IsDate : IsDate leap_day
leap_day-IsDate = omega arith

get_year_month_day-get_julian_day_number_example :
    (get_julian_day_number 2000 2 29 >>= get_year_month_day) ≡ some leap_day
get_year_month_day-get_julian_day_number_example =
    get_year_month_day-get_julian_day_number leap_day leap_day-IsDate (omega arith)
