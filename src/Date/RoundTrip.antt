-- ===== src/Date/RoundTrip.antt =====
-- A Julian day number survives the way to year, month and day and back.
use muduo.Base.{ℕ, ◌+◌, ◌-◌, ◌*◌, ◌/◌, ◌≤◌, ◌≡◌, refl, arith}
use muduo.Date.{YearMonthDay, julian_day, calendar_day}
use muduo.Date.Steps.{century_day, year_day, month_day, month_back, leap_days, day_sums}

-- The way back, by the year that starts in March.
from_march :
    (b d e m n : ℕ)
    → d ≤ 99
    → (153 * m + 2) / 5 ≤ e
    → e + (365 * d + d / 4) + (36524 * b + b / 4) ≡ n + 32044
    → e
        - (153 * m + 2) / 5
        + 1
        + (153 * m + 2) / 5
        + (b * 100 + d) * 365
        + (b * 100 + d) / 4
        - (b * 100 + d) / 100
        + (b * 100 + d) / 400
        - 32045
      ≡ n
from_march b d e m n h k s = let (q, c, f) = leap_days b d h in rw (q, c, f) (omega arith)

back :
    (b d e m n : ℕ)
    → d ≤ 99
    → m ≤ 11
    → (153 * m + 2) / 5 ≤ e
    → 4800 ≤ b * 100 + d + m / 10
    → e + (365 * d + d / 4) + (36524 * b + b / 4) ≡ n + 32044
    → julian_day (b * 100 + d + m / 10 - 4800) (m + 3 - 12 * (m / 10)) (e - (153 * m + 2) / 5 + 1)
      ≡ n
unfolding julian_day
back b d e m n h l k y s =
    let (p, q) = month_back m l in rw (p, q, year) (from_march b d e m n h k s)
  where
    year : b * 100 + d + m / 10 - 4800 + 4800 - m / 10 ≡ b * 100 + d
    year = omega arith

abbrev pub InCalendar : YearMonthDay → Type 0
InCalendar t = (1 ≤ t.month) × (t.month ≤ 12) × (1 ≤ t.day) × (t.day ≤ 31)

-- For every day from the first of March of the year 0 on, `getYearMonthDay` gives a month from 1 to 12
-- and a day from 1 to 31, and `getJulianDayNumber` takes them back to the day.
pub julian_day-calendar_day :
    (n : ℕ)
    → 1721120 ≤ n
    → InCalendar (calendar_day n)
      × (julian_day (calendar_day n).year (calendar_day n).month (calendar_day n).day ≡ n)
unfolding calendar_day
julian_day-calendar_day n h =
    let (c_le, c_eq) = century_day a b c refl refl in
    let (d_le, e_le, e_eq) = year_day c d e c_le refl refl in
    let (m_le, m_days, m_day) = month_day e m e_le refl in
    let (p, q) = day_sums b d in
    (
      (omega (arith, m_le), omega (arith, m_le), omega arith, omega (arith, m_day)),
      back b d e m n d_le m_le m_days (omega (arith, h, c_le, c_eq, p))
          (omega (arith, c_eq, e_eq, p, q)),
    )
  where
    a : ℕ
    a = n + 32044

    b : ℕ
    b = (4 * a + 3) / 146097

    c : ℕ
    c = a - b * 146097 / 4

    d : ℕ
    d = (4 * c + 3) / 1461

    e : ℕ
    e = c - 1461 * d / 4

    m : ℕ
    m = (5 * e + 2) / 153
