-- ===== src/Date/Sums.antt =====
-- The sums of src/utils/Date.cpp, by the years that start with March. Up to the year 1000001 none of
-- them leaves the 32 bits.
use dbdky_gcc.Common.{ℕ, ◌+◌, ◌-◌, ◌*◌, ◌/◌, ◌%◌, ◌≡◌, ◌≤◌, refl, ap, arith}
use dbdky_gcc.Common.Int.{pos, ◌+ℤ◌, ◌-ℤ◌, to_int32}
use dbdky_gcc.Common.Truncated.{pos-+ℤ, pos--ℤ, pos-*ℤ, pos-/ℤ, int32_pos}
use dbdky_gcc.Date.{julian_sum, get_julian_day_number, civil, of_century, get_year_month_day}
use dbdky_gcc.Date.March.{
  March, IsMarch, century_days, march_days, find_century, rest_of_century, find_year, rest_of_year,
}
use dbdky_gcc.Date.Calendar.{IsDate, day_in_31, from_march, count_year, march_of}

julian_sum-pos :
    (y m d : ℕ)
    → 4700 ≤ y
    → y ≤ 1004801
    → m ≤ 11
    → d ≤ 31
    → julian_sum (pos y) (pos m) (pos d)
      ≡ pos (d + (m * 153 + 2) / 5 + y * 365 + y / 4 - y / 100 + y / 400 - 32045)
unfolding julian_sum
julian_sum-pos y m d h late short few =
    rw
      (
        pos-*ℤ m 153,
        pos-+ℤ (m * 153) 2,
        int32_pos (m * 153 + 2) (omega arith),
        pos-/ℤ (m * 153 + 2) 5,
        pos-+ℤ d ((m * 153 + 2) / 5),
        pos-*ℤ y 365,
        pos-+ℤ (d + (m * 153 + 2) / 5) (y * 365),
        pos-/ℤ y 4,
        pos-+ℤ (d + (m * 153 + 2) / 5 + y * 365) (y / 4),
        pos-/ℤ y 100,
        pos--ℤ (d + (m * 153 + 2) / 5 + y * 365 + y / 4) (y / 100) (omega arith),
        pos-/ℤ y 400,
        pos-+ℤ (d + (m * 153 + 2) / 5 + y * 365 + y / 4 - y / 100) (y / 400),
        pos--ℤ (d + (m * 153 + 2) / 5 + y * 365 + y / 4 - y / 100 + y / 400) 32045 (omega arith),
        int32_pos (d + (m * 153 + 2) / 5 + y * 365 + y / 4 - y / 100 + y / 400 - 32045)
            (omega arith),
      )
      refl

count_year-eq : (y m : ℕ) → 1 ≤ m → m ≤ 12 → y + 4800 - (14 - m) / 12 ≡ count_year y m
count_year-eq y m low high = ground arith

from_march-eq : (m : ℕ) → 1 ≤ m → m ≤ 12 → m + (14 - m) / 12 * 12 - 3 ≡ from_march m
from_march-eq m low high = ground arith

days_of_year :
    (y q d : ℕ)
    → 4700 ≤ y
    → 1 ≤ d
    → d + q + y * 365 + y / 4 - y / 100 + y / 400 - 32045
      ≡ y / 400 * 146097
        + y % 400 / 100 * 36524
        + (y % 100 / 4 * 1461 + y % 4 * 365 + (d - 1 + q))
        - 32044
days_of_year y q d h k = omega arith

-- The number of a date, by its place in the years that start with March.
pub julian-march_of :
    (y m d : ℕ)
    → IsDate y m d
    → y ≤ 1000001
    → get_julian_day_number (pos y) (pos m) (pos d) ≡ pos (march_days (march_of y m d) - 32044)
unfolding get_julian_day_number
julian-march_of y m d h late =
    rw
      (
        pos--ℤ 14 m (omega (arith, h.month_in)),
        int32_pos (14 - m) (omega arith),
        pos-/ℤ (14 - m) 12,
        pos-+ℤ y 4800,
        pos--ℤ (y + 4800) ((14 - m) / 12) (omega arith),
        int32_pos (y + 4800 - (14 - m) / 12) (omega arith),
        pos-*ℤ ((14 - m) / 12) 12,
        pos-+ℤ m ((14 - m) / 12 * 12),
        pos--ℤ (m + (14 - m) / 12 * 12) 3 (omega (arith, h.month_in)),
        int32_pos (m + (14 - m) / 12 * 12 - 3) (omega (arith, h.month_in)),
        count_year-eq y m h.month_in.0 h.month_in.1,
        from_march-eq m h.month_in.0 h.month_in.1,
        julian_sum-pos (count_year y m) (from_march m) d (ground arith) (ground (arith, late))
            (ground (arith, h.month_in)) (day_in_31 y m d h),
      )
      (ap pos
        (days_of_year (count_year y m) ((from_march m * 153 + 2) / 5) d (ground arith) h.day_in.0))

pub civil-pos :
    (b d e m : ℕ)
    → m * 153 ≤ e * 5 + 2
    → m ≤ 11
    → e ≤ 366
    → civil (pos b) (pos d) (pos e) (pos m) ≡ record {
      year = to_int32 (pos (b * 100 + d) -ℤ pos 4800 +ℤ pos (m / 10));
      month = pos (m + 3 - m / 10 * 12);
      day = pos (e - (m * 153 + 2) / 5 + 1);
    }
unfolding civil
civil-pos b d e m h low short =
    rw
      (
        pos-*ℤ b 100,
        pos-+ℤ (b * 100) d,
        pos-/ℤ m 10,
        pos-+ℤ m 3,
        pos-*ℤ (m / 10) 12,
        pos--ℤ (m + 3) (m / 10 * 12) (omega arith),
        int32_pos (m + 3 - m / 10 * 12) (omega arith),
        pos-*ℤ m 153,
        pos-+ℤ (m * 153) 2,
        int32_pos (m * 153 + 2) (omega arith),
        pos-/ℤ (m * 153 + 2) 5,
        pos--ℤ e ((m * 153 + 2) / 5) (omega arith),
        pos-+ℤ (e - (m * 153 + 2) / 5) 1,
        int32_pos (e - (m * 153 + 2) / 5 + 1) (omega arith),
      )
      refl

century_bound : (t : March) → IsMarch t → century_days t ≤ 37000
century_bound t h = ground (arith, h.four, h.within, h.last)

-- What `getYearMonthDay` does with a day of a year that starts with March.
of_century-march :
    (t : March)
    → IsMarch t
    → of_century (pos (t.k * 4 + t.s)) (pos (century_days t))
      ≡ civil (pos (t.k * 4 + t.s)) (pos (t.u * 4 + t.v)) (pos t.n) (pos ((t.n * 5 + 2) / 153))
unfolding of_century
of_century-march t h =
    rw
      (
        pos-*ℤ (century_days t) 4,
        pos-+ℤ (century_days t * 4) 3,
        int32_pos (century_days t * 4 + 3) (omega (arith, bound)),
        pos-/ℤ (century_days t * 4 + 3) 1461,
        find_year t h,
        pos-*ℤ (t.u * 4 + t.v) 1461,
        int32_pos ((t.u * 4 + t.v) * 1461) (omega (arith, h.four, h.within)),
        pos-/ℤ ((t.u * 4 + t.v) * 1461) 4,
        rest_of_year t h,
        pos--ℤ (century_days t) (t.u * 1461 + t.v * 365) (omega arith),
        rest,
        int32_pos t.n (omega (arith, bound)),
        pos-*ℤ t.n 5,
        pos-+ℤ (t.n * 5) 2,
        int32_pos (t.n * 5 + 2) (omega (arith, bound)),
        pos-/ℤ (t.n * 5 + 2) 153,
      )
      refl
  where
    bound : century_days t ≤ 37000
    bound = century_bound t h

    rest : century_days t - (t.u * 1461 + t.v * 365) ≡ t.n
    rest = omega arith

pub get_year_month_day-march :
    (t : March)
    → IsMarch t
    → 32044 ≤ march_days t
    → march_days t ≤ 368000000
    → get_year_month_day (pos (march_days t - 32044))
      ≡ civil (pos (t.k * 4 + t.s)) (pos (t.u * 4 + t.v)) (pos t.n) (pos ((t.n * 5 + 2) / 153))
unfolding get_year_month_day
get_year_month_day-march t h big late =
    rw
      (
        pos-+ℤ (march_days t - 32044) 32044,
        back,
        int32_pos (march_days t) (omega (arith, late)),
        pos-*ℤ (march_days t) 4,
        pos-+ℤ (march_days t * 4) 3,
        int32_pos (march_days t * 4 + 3) (omega (arith, late)),
        pos-/ℤ (march_days t * 4 + 3) 146097,
        find_century t h,
        pos-*ℤ (t.k * 4 + t.s) 146097,
        int32_pos ((t.k * 4 + t.s) * 146097) (omega (arith, late)),
        pos-/ℤ ((t.k * 4 + t.s) * 146097) 4,
        rest_of_century t h,
        pos--ℤ (march_days t) (t.k * 146097 + t.s * 36524) (omega arith),
        rest,
        int32_pos (century_days t) (omega (arith, century_bound t h)),
      )
      (of_century-march t h)
  where
    back : march_days t - 32044 + 32044 ≡ march_days t
    back = omega (arith, big)

    rest : march_days t - (t.k * 146097 + t.s * 36524) ≡ century_days t
    rest = omega arith
