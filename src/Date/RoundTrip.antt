-- ===== src/Date/RoundTrip.antt =====
-- The number of a day and its date determine each other, and count the days.
use dbdky_gcc.Common.{ℕ, ◌+◌, ◌-◌, ◌*◌, ◌/◌, ◌≡◌, ◌≤◌, refl, arith}
use dbdky_gcc.Common.Int.{pos, ◌+ℤ◌, ◌-ℤ◌}
use dbdky_gcc.Common.Truncated.{int32_pos}
use dbdky_gcc.Date.{YearMonthDay, of_civil, year_month_day}
use dbdky_gcc.Date.March.{march_days}
use dbdky_gcc.Date.Calendar.{
  IsDate, day_in_31, from_march, count_year, march_of, month_of_day, march_of-IsMarch,
}
use dbdky_gcc.Date.Sums.{julian-march_of, civil-pos, get_year_month_day-march}

abbrev pub civil_date : ℕ → ℕ → ℕ → YearMonthDay
civil_date y m d = record { year = pos y; month = pos m; day = pos d }

year_back :
    (y m : ℕ) → 1 ≤ m → m ≤ 12 → pos (count_year y m) -ℤ pos 4800 +ℤ pos (from_march m / 10) ≡ pos y
unfolding ◌+ℤ◌ ◌-ℤ◌
year_back y m low high = ground arith

month_back : (m : ℕ) → 1 ≤ m → m ≤ 12 → from_march m + 3 - from_march m / 10 * 12 ≡ m
month_back m low high = ground arith

day_back : (d q : ℕ) → 1 ≤ d → d - 1 + q - q + 1 ≡ d
day_back d q h = omega arith

pub big_days : (y m d : ℕ) → 32044 ≤ march_days (march_of y m d)
big_days y m d = ground arith

century_year :
    (y m d : ℕ) → let t = march_of y m d in (t.k * 4 + t.s) * 100 + (t.u * 4 + t.v) ≡ count_year y m
century_year y m d = omega arith

pub march_days_bound :
    (y m d : ℕ) → IsDate y m d → y ≤ 1000001 → march_days (march_of y m d) ≤ 367100000
march_days_bound y m d h late = ground (arith, late, h.month_in, day_in_31 y m d h)

-- A date of the calendar from the year 0 to 1000000, made into a number of days and back, is the date:
-- no sum overflows up to there.
pub year_month_day-of_civil :
    (y m d : ℕ)
    → IsDate y m d
    → y ≤ 1000000
    → year_month_day (of_civil (pos y) (pos m) (pos d)) ≡ civil_date y m d
unfolding year_month_day of_civil
year_month_day-of_civil y m d h late =
    let t = march_of y m d in
    rw
      (
        julian-march_of y m d h (omega (arith, late)),
        get_year_month_day-march t (march_of-IsMarch y m d h) (big_days y m d)
            (omega (arith, march_days_bound y m d h (omega (arith, late)))),
        month_of_day y m d h,
        civil-pos (t.k * 4 + t.s) (t.u * 4 + t.v) t.n (from_march m) (omega arith)
            (ground (arith, h.month_in)) (ground (arith, (march_of-IsMarch y m d h).last)),
        century_year y m d,
        year_back y m h.month_in.0 h.month_in.1,
        int32_pos y (omega (arith, late)),
        month_back m h.month_in.0 h.month_in.1,
        day_back d ((from_march m * 153 + 2) / 5) h.day_in.0,
      )
      refl
