-- ===== src/Date/Calendar.antt =====
-- Dates of the calendar survive the way to the Julian day number and back.
use muduo.Base.{
  Bool, not, ◌&&◌, ◌||◌, inl, inr, ◌⊎◌, ℕ, ◌+◌, ◌-◌, ◌*◌, ◌/◌, ◌%◌, ◌≤◌, ◌<◌, ◌==◌, if◌then◌else◌,
  ◌≡◌, refl, subst, ◌∙◌, arith, ◌^◌, some, ◌>>=◌, le→leb, lt→ltb,
}
use muduo.Date.{
  YearMonthDay, julian_day, calendar_day, largest_sum, first_day, get_julian_day_number,
  get_year_month_day,
}

-- The Gregorian rule.
abbrev pub is_leap : ℕ → Bool
is_leap y = y % 4 == 0 && (not (y % 100 == 0) || y % 400 == 0)

abbrev pub days_in_month : ℕ → ℕ → ℕ
days_in_month y m =
    if m == 2
    then (if is_leap y then 29 else 28)
    else if m == 4 || (m == 6 || (m == 9 || m == 11))
    then 30
    else 31

pub record IsDate (t : YearMonthDay) : Type 0 where
  pub year_least : 1 ≤ t.year
  pub month_least : 1 ≤ t.month
  pub month_most : t.month ≤ 12
  pub day_least : 1 ≤ t.day
  pub day_most : t.day ≤ days_in_month t.year t.month

-- March is month 0 of the year; `shift` is 1 for January and February, which belong to the year before.
month_shift :
    (m : ℕ) → 1 ≤ m → m ≤ 12 → (((14 - m) / 12 ≡ 1) × (m ≤ 2)) ⊎ (((14 - m) / 12 ≡ 0) × (3 ≤ m))
month_shift m h k = ground arith

-- The days before the month, the month included.
days_fit :
    (y mo d m : ℕ)
    → d ≤ days_in_month y mo
    → (((m ≡ mo + 9) × (1 ≤ mo) × (mo ≤ 2)) ⊎ ((m + 3 ≡ mo) × (mo ≤ 12)))
    → m ≤ 10
    → (153 * m + 2) / 5 + d ≤ (153 * (m + 1) + 2) / 5
days_fit y mo d m h s l = grind arith

february :
    (y d : ℕ)
    → d ≤ days_in_month y 2
    → (d ≤ 28) ⊎ ((d ≤ 29) × (y % 4 ≡ 0) × ((1 ≤ y % 100) ⊎ (y % 400 ≡ 0)))
february y d h = ground arith

-- A day `e` of the March year `b * 100 + d`.
abbrev YearHas : ℕ → ℕ → ℕ → Type 0
YearHas b d e = (d ≤ 99) × ((e ≤ 364) ⊎ ((e ≤ 365) × (d % 4 ≡ 3) × ((d ≤ 98) ⊎ (b % 4 ≡ 3))))

century_of :
    (a b d e : ℕ)
    → YearHas b d e
    → e + (365 * d + d / 4) + (36524 * b + b / 4) ≡ a
    → ((4 * a + 3) / 146097 ≡ b) × (a - b * 146097 / 4 ≡ e + (365 * d + d / 4))
century_of a b d e (h, inl k) s = omega arith
century_of a b d e (h, inr (k, l, inl p)) s = omega arith
century_of a b d e (h, inr (k, l, inr p)) s = omega arith

year_of :
    (b c d e : ℕ)
    → YearHas b d e
    → e + (365 * d + d / 4) ≡ c
    → ((4 * c + 3) / 1461 ≡ d) × (c - 1461 * d / 4 ≡ e)
year_of b c d e (h, inl k) s = omega arith
year_of b c d e (h, inr (k, l, p)) s = omega arith

month_of :
    (b d e m : ℕ)
    → YearHas b d e
    → m ≤ 11
    → (153 * m + 2) / 5 ≤ e
    → (m ≡ 11) ⊎ (e < (153 * (m + 1) + 2) / 5)
    → (5 * e + 2) / 153 ≡ m
month_of b d e m (h, inl k) l p (inl q) = omega arith
month_of b d e m (h, inl k) l p (inr q) = omega arith
month_of b d e m (h, inr (k, r, s)) l p (inl q) = omega arith
month_of b d e m (h, inr (k, r, s)) l p (inr q) = omega arith

from_day :
    (n b d e m : ℕ)
    → YearHas b d e
    → e + (365 * d + d / 4) + (36524 * b + b / 4) ≡ n + 32044
    → m ≤ 11
    → (153 * m + 2) / 5 ≤ e
    → (m ≡ 11) ⊎ (e < (153 * (m + 1) + 2) / 5)
    → calendar_day n ≡ record {
      day = e - (153 * m + 2) / 5 + 1;
      month = m + 3 - 12 * (m / 10);
      year = b * 100 + d + m / 10 - 4800;
    }
unfolding calendar_day
from_day n b d e m h s l p q =
    let (f, g) = century_of (n + 32044) b d e h s in
    let (i, j) = year_of b (e + (365 * d + d / 4)) d e h refl in
    rw (f, g, i, j, month_of b d e m h l p q) refl

day_sum :
    (y days day : ℕ)
    → 1 ≤ day
    → 4800 ≤ y
    → day - 1 + days + (365 * (y % 100) + y % 100 / 4) + (36524 * (y / 100) + y / 100 / 4)
      ≡ day + days + y * 365 + y / 4 - y / 100 + y / 400 - 32045 + 32044
day_sum y days day h k = omega arith

-- The March year and its month, for a year `y` and a month `mo`.
abbrev March : ℕ → ℕ → ℕ → ℕ → Type 0
March y mo yy m =
    ((m ≡ mo + 9) × (1 ≤ mo) × (mo ≤ 2) × (yy + 1 ≡ y + 4800))
    ⊎ ((m + 3 ≡ mo) × (mo ≤ 12) × (yy ≡ y + 4800))

month_shift-March :
    (y mo : ℕ)
    → 1 ≤ mo
    → mo ≤ 12
    → March y mo (y + 4800 - (14 - mo) / 12) (mo + 12 * ((14 - mo) / 12) - 3)
month_shift-March y mo h k = elim (month_shift mo h k) [
  | inl (a, l) ↦ inl (omega arith)
  | inr (a, l) ↦ inr (omega arith)
]

short_months :
    (y mo d yy m : ℕ)
    → 1 ≤ d
    → d ≤ days_in_month y mo
    → March y mo yy m
    → m ≤ 10
    → d - 1 + (153 * m + 2) / 5 < (153 * (m + 1) + 2) / 5
short_months y mo d yy m h k (inl (a, b, c, _)) l =
    omega (arith, days_fit y mo d m k (inl (a, b, c)) l)
short_months y mo d yy m h k (inr (a, b, _)) l = omega (arith, days_fit y mo d m k (inr (a, b)) l)

YearHas-day :
    (y mo d yy m : ℕ)
    → 1 ≤ d
    → d ≤ days_in_month y mo
    → March y mo yy m
    → (m ≤ 10) ⊎ (mo ≡ 2)
    → YearHas (yy / 100) (yy % 100) (d - 1 + (153 * m + 2) / 5)
YearHas-day y mo d yy m h k s (inl l) =
    (omega arith, inl (omega (arith, short_months y mo d yy m h k s l)))
YearHas-day y mo d yy m h k (inr s) (inr e) = absurd (omega arith)
YearHas-day y mo d yy m h k (inl s) (inr e) =
    elim (february y d (subst (λ n. d ≤ days_in_month y n) e k)) [
      | inl f ↦ (omega arith, inl (omega arith))
      | inr (f, g, inl p) ↦ (omega arith, inr (omega arith, omega arith, inl (omega arith)))
      | inr (f, g, inr p) ↦ (omega arith, inr (omega arith, omega arith, inr (omega arith)))
    ]

before_february : (y mo yy m : ℕ) → March y mo yy m → (m ≤ 10) ⊎ ((m ≡ 11) × (mo ≡ 2))
before_february y mo yy m h = ground arith

same_parts :
    (y mo d : ℕ) (t : YearMonthDay)
    → y ≡ t.year
    → mo ≡ t.month
    → d ≡ t.day
    → record { year = y; month = mo; day = d } ≡ t
same_parts y mo d t e f g = rw (e, f, g) refl

same_date :
    (t : YearMonthDay) (yy m md : ℕ)
    → March t.year t.month yy m
    → 1 ≤ t.day
    → record {
      day = t.day - 1 + md - md + 1;
      month = m + 3 - 12 * (m / 10);
      year = yy / 100 * 100 + yy % 100 + m / 10 - 4800;
    }
      ≡ t
same_date t yy m md (inl s) h = same_parts _ _ _ t (omega arith) (omega arith) (omega arith)
same_date t yy m md (inr s) h = same_parts _ _ _ t (omega arith) (omega arith) (omega arith)

-- A date from the year 1 on, with a month from 1 to 12 and a day of that month by the Gregorian rule,
-- comes back from its Julian day number.
pub calendar_day-julian_day :
    (t : YearMonthDay) → IsDate t → calendar_day (julian_day t.year t.month t.day) ≡ t
unfolding julian_day
calendar_day-julian_day t v =
    from_day (t.day + md + yy * 365 + yy / 4 - yy / 100 + yy / 400 - 32045) (yy / 100) (yy % 100)
      (t.day - 1 + md) m
      (YearHas-day t.year t.month t.day yy m v.day_least v.day_most march (last before))
      (day_sum yy md t.day v.day_least year_big) (month_big before) (omega arith) (month_end before)
    ∙ same_date t yy m md march v.day_least
  where
    a : ℕ
    a = (14 - t.month) / 12

    yy : ℕ
    yy = t.year + 4800 - a

    m : ℕ
    m = t.month + 12 * a - 3

    md : ℕ
    md = (153 * m + 2) / 5

    march : March t.year t.month yy m
    march = month_shift-March t.year t.month v.month_least v.month_most

    before : (m ≤ 10) ⊎ ((m ≡ 11) × (t.month ≡ 2))
    before = before_february t.year t.month yy m march

    year_big : 4800 ≤ yy
    year_big = omega (arith, v.year_least, v.month_least)

    last : (m ≤ 10) ⊎ ((m ≡ 11) × (t.month ≡ 2)) → (m ≤ 10) ⊎ (t.month ≡ 2)
    last (inl l) = inl l
    last (inr (e, f)) = inr f

    month_big : (m ≤ 10) ⊎ ((m ≡ 11) × (t.month ≡ 2)) → m ≤ 11
    month_big (inl l) = omega (arith, l)
    month_big (inr (e, f)) = omega (arith, e)

    month_end :
        (m ≤ 10) ⊎ ((m ≡ 11) × (t.month ≡ 2))
        → (m ≡ 11) ⊎ (t.day - 1 + md < (153 * (m + 1) + 2) / 5)
    month_end (inl l) = inr (short_months t.year t.month t.day yy m v.day_least v.day_most march l)
    month_end (inr (e, f)) = inl e

-- The year bounds the day.
julian_day-bound :
    (y m d : ℕ)
    → y ≤ 1465000
    → m ≤ 12
    → d ≤ 31
    → (julian_day y m d ≤ 536838867) × (largest_sum y m d < 2 ^ 31)
unfolding julian_day largest_sum
julian_day-bound y m d h k l = omega arith

julian_day-first : (y m d : ℕ) → 1 ≤ y → m ≤ 12 → 1 ≤ d → first_day ≤ julian_day y m d
unfolding julian_day
julian_day-first y m d h k l = omega arith

days_in_month-le : (y m : ℕ) → days_in_month y m ≤ 31
days_in_month-le y m = ground arith

-- A date of a year from 1 to 1465000, with a month from 1 to 12 and a day of that month by the Gregorian
-- rule, has a Julian day number, and comes back from it; no `int` overflows on the way.
pub get_year_month_day-get_julian_day_number :
    (t : YearMonthDay)
    → IsDate t
    → t.year ≤ 1465000
    → (get_julian_day_number t.year t.month t.day >>= get_year_month_day) ≡ some t
unfolding get_julian_day_number get_year_month_day
get_year_month_day-get_julian_day_number t v small =
    rw
      (
        le→leb t.month 14 (omega (arith, v.month_most)),
        lt→ltb (largest_sum t.year t.month t.day) (2 ^ 31) bounds.1,
        le→leb first_day (julian_day t.year t.month t.day)
            (julian_day-first t.year t.month t.day v.year_least v.month_most v.day_least),
        lt→ltb (4 * (julian_day t.year t.month t.day + 32044) + 3) (2 ^ 31)
            (omega (arith, bounds.0)),
        calendar_day-julian_day t v,
      )
      refl
  where
    bounds :
        (julian_day t.year t.month t.day ≤ 536838867) × (largest_sum t.year t.month t.day < 2 ^ 31)
    bounds =
        julian_day-bound t.year t.month t.day small v.month_most
          (omega (arith, v.day_most, days_in_month-le t.year t.month))
