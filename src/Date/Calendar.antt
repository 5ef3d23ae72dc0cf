-- ===== src/Date/Calendar.antt =====
-- The calendar as it is usually told, and where it puts a date in the years that start with March.
use dbdky_gcc.Common.{
  ℕ, ◌+◌, ◌-◌, ◌*◌, ◌/◌, ◌%◌, ◌≡◌, ◌≤◌, Bool, ◌==◌, ltb, leb, if◌then◌else◌, arith,
}
use dbdky_gcc.Date.March.{March, march_year, IsMarch}

unfoldable pub is_leap : ℕ → Bool
is_leap y = if y % 100 == 0 then y % 400 == 0 else y % 4 == 0

-- 31 days in every other month from January to July, and again from August on; 30 or 28 in the rest.
abbrev pub month_days : Bool → ℕ → ℕ
month_days leap m =
    if m == 2 then 28 + (if leap then 1 else 0) else 30 + (if leb m 7 then m % 2 else 1 - m % 2)

unfoldable pub days_in_month : ℕ → ℕ → ℕ
days_in_month y m = month_days (is_leap y) m

pub record IsDate (y m d : ℕ) : Type 0 where
  pub month_in : (1 ≤ m) × (m ≤ 12)
  pub day_in : (1 ≤ d) × (d ≤ days_in_month y m)

pub day_in_31 : (y m d : ℕ) → IsDate y m d → d ≤ 31
unfolding days_in_month is_leap
day_in_31 y m d h = ground (arith, h.day_in, h.month_in)

abbrev pub early : ℕ → ℕ
early m = if ltb m 3 then 1 else 0

abbrev pub from_march : ℕ → ℕ
from_march m = if ltb m 3 then m + 9 else m - 3

abbrev pub count_year : ℕ → ℕ → ℕ
count_year y m = if ltb m 3 then y + 4799 else y + 4800

abbrev pub march_of : ℕ → ℕ → ℕ → March
march_of y m d = record {
  k = count_year y m / 400;
  s = count_year y m % 400 / 100;
  u = count_year y m % 100 / 4;
  v = count_year y m % 4;
  n = d - 1 + (from_march m * 153 + 2) / 5;
}

pub march_year-march_of : (y m d : ℕ) → march_year (march_of y m d) ≡ count_year y m
march_year-march_of y m d = omega arith

pub month_of_day :
    (y m d : ℕ)
    → IsDate y m d
    → ((d - 1 + (from_march m * 153 + 2) / 5) * 5 + 2) / 153 ≡ from_march m
unfolding days_in_month is_leap
month_of_day y m d h = ground (arith, h.month_in, h.day_in)

pub march_of-IsMarch : (y m d : ℕ) → IsDate y m d → IsMarch (march_of y m d)
unfolding days_in_month is_leap
march_of-IsMarch y m d h = record {
  century = omega arith;
  four = omega arith;
  within = omega arith;
  last = ground (arith, h.month_in, h.day_in);
}
