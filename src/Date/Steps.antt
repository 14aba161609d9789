-- ===== src/Date/Steps.antt =====
-- The steps of the calendar's arithmetic, one division each.
use muduo.Base.{ℕ, ◌+◌, ◌-◌, ◌*◌, ◌/◌, ◌≤◌, ◌≡◌, arith}

-- A day `c` of the century `b`.
pub century_day :
    (a b c : ℕ)
    → b ≡ (4 * a + 3) / 146097
    → c ≡ a - b * 146097 / 4
    → (c ≤ 36524) × (c + b * 146097 / 4 ≡ a)
century_day a b c e f = omega arith

-- A day `e` of the year `d` of a century, from the first of March.
pub year_day :
    (c d e : ℕ)
    → c ≤ 36524
    → d ≡ (4 * c + 3) / 1461
    → e ≡ c - 1461 * d / 4
    → (d ≤ 99) × (e ≤ 365) × (e + 1461 * d / 4 ≡ c)
year_day c d e h f g = omega arith

-- A day of the month `m`, from March.
pub month_day :
    (e m : ℕ)
    → e ≤ 365
    → m ≡ (5 * e + 2) / 153
    → (m ≤ 11) × ((153 * m + 2) / 5 ≤ e) × (e - (153 * m + 2) / 5 ≤ 30)
month_day e m h f = omega arith

-- The month and the shift of the year from January and back.
pub month_back :
    (m : ℕ)
    → m ≤ 11
    → ((14 - (m + 3 - 12 * (m / 10))) / 12 ≡ m / 10)
      × (m + 3 - 12 * (m / 10) + 12 * (m / 10) - 3 ≡ m)
month_back m h = omega arith

-- The leap days of the year `d` of the century `b`.
pub leap_days :
    (b d : ℕ)
    → d ≤ 99
    → ((b * 100 + d) / 4 ≡ 25 * b + d / 4)
      × ((b * 100 + d) / 100 ≡ b)
      × ((b * 100 + d) / 400 ≡ b / 4)
leap_days b d h = omega arith

pub day_sums : (b d : ℕ) → (b * 146097 / 4 ≡ 36524 * b + b / 4) × (1461 * d / 4 ≡ 365 * d + d / 4)
day_sums b d = omega arith
