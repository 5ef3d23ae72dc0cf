-- ===== src/Date.antt =====
-- src/utils/Date.h and src/utils/Date.cpp: dates as numbers of days. An `int` has 32 bits, and an
-- overflow, which C++ leaves open, wraps. It is written out where a quotient or a result needs it: for
-- sums and products that is the same as at each step.
pub mod Calendar
pub mod Counting
pub mod Days
pub mod March
pub mod RoundTrip
pub mod Sums
use dbdky_gcc.Common.{ℕ, ◌+◌, Bool, List, ◌++◌, ◌∷◌, []}
use dbdky_gcc.Common.Int.{ℤ, pos, ◌+ℤ◌, ◌-ℤ◌, ltb_ℤ, to_int32}
use dbdky_gcc.Common.Truncated.{◌*ℤ◌, ◌/ℤ◌, ◌%ℤ◌}

pub record YearMonthDay : Type 0 where
  pub year : ℤ
  pub month : ℤ
  pub day : ℤ

-- The return of `getJulianDayNumber`.
unfoldable pub julian_sum : ℤ → ℤ → ℤ → ℤ
julian_sum y m day = to_int32 (
    day
    +ℤ to_int32 (m *ℤ 153 +ℤ pos 2) /ℤ 5
    +ℤ y *ℤ 365
    +ℤ y /ℤ 4
    -ℤ y /ℤ 100
    +ℤ y /ℤ 400
    -ℤ pos 32045)

unfoldable pub get_julian_day_number : ℤ → ℤ → ℤ → ℤ
get_julian_day_number year month day =
    let a = to_int32 (pos 14 -ℤ month) /ℤ 12 in
    julian_sum (to_int32 (year +ℤ pos 4800 -ℤ a)) (to_int32 (month +ℤ a *ℤ 12 -ℤ pos 3)) day

-- `getYearMonthDay` from the assignment of `m` on.
unfoldable pub civil : ℤ → ℤ → ℤ → ℤ → YearMonthDay
civil b d e m = record {
  year = to_int32 (b *ℤ 100 +ℤ d -ℤ pos 4800 +ℤ m /ℤ 10);
  month = to_int32 (m +ℤ pos 3 -ℤ (m /ℤ 10) *ℤ 12);
  day = to_int32 (e -ℤ to_int32 (m *ℤ 153 +ℤ pos 2) /ℤ 5 +ℤ pos 1);
}

-- `getYearMonthDay` from the assignment of `d` on.
unfoldable pub of_century : ℤ → ℤ → YearMonthDay
of_century b c =
    let d = to_int32 (c *ℤ 4 +ℤ pos 3) /ℤ 1461 in
    let e = to_int32 (c -ℤ to_int32 (d *ℤ 1461) /ℤ 4) in
    civil b d e (to_int32 (e *ℤ 5 +ℤ pos 2) /ℤ 153)

unfoldable pub get_year_month_day : ℤ → YearMonthDay
get_year_month_day julian_day_number =
    let a = to_int32 (julian_day_number +ℤ pos 32044) in
    let b = to_int32 (a *ℤ 4 +ℤ pos 3) /ℤ 146097 in
    of_century b (to_int32 (a -ℤ to_int32 (b *ℤ 146097) /ℤ 4))

pub record Date : Type 0 where
  pub julian_day_number : ℤ

unfoldable pub of_civil : ℤ → ℤ → ℤ → Date
of_civil year month day = record { julian_day_number = get_julian_day_number year month day }

abbrev pub k_julian_day_of_1970_01_01 : ℤ
k_julian_day_of_1970_01_01 = get_julian_day_number (pos 1970) (pos 1) (pos 1)

unfoldable pub year_month_day : Date → YearMonthDay
year_month_day t = get_year_month_day t.julian_day_number

unfoldable pub is_valid : Date → Bool
is_valid t = ltb_ℤ (pos 0) t.julian_day_number

unfoldable pub week_day : Date → ℤ
week_day t = to_int32 (t.julian_day_number +ℤ pos 1) %ℤ 7
