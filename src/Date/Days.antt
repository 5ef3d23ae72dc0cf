-- ===== src/Date/Days.antt =====
-- Every number of a day, up to one of the year 997361, is that of a date.
use dbdky_gcc.Common.{
  Bool, true, ℕ, ◌+◌, ◌-◌, ◌*◌, ◌/◌, ◌%◌, ◌≡◌, ◌≤◌, sym, ap, ◌∙◌, min, arith, ◌⊎◌,
}
use dbdky_gcc.Common.Int.{pos}
use dbdky_gcc.Date.{get_julian_day_number, get_year_month_day, of_civil, year_month_day}
use dbdky_gcc.Date.March.{
  March, march_year, IsMarch, march_days, year_over_4, year_over_100, year_over_400,
}
use dbdky_gcc.Date.Calendar.{is_leap, month_days, days_in_month, IsDate, count_year, march_of}
use dbdky_gcc.Date.Sums.{julian-march_of}
use dbdky_gcc.Date.Counting.{march_days-eq, before_month}
use dbdky_gcc.Date.RoundTrip.{civil_date, year_month_day-of_civil}

min_le : (a b : ℕ) → min a b ≤ b
min_le a b = ground arith

abbrev century_of : ℕ → ℕ
century_of a = min (a % 146097 / 36524) 3

abbrev in_century : ℕ → ℕ
in_century a = a % 146097 - century_of a * 36524

abbrev year_of : ℕ → ℕ
year_of a = min (in_century a % 1461 / 365) 3

abbrev march_at : ℕ → March
march_at a = record {
  k = a / 146097;
  s = century_of a;
  u = in_century a / 1461;
  v = year_of a;
  n = in_century a % 1461 - year_of a * 365;
}

century_bound : (a : ℕ) → (in_century a ≤ 36523) ⊎ ((in_century a ≡ 36524) × (century_of a ≡ 3))
century_bound a = ground arith

century_sum : (a : ℕ) → century_of a * 36524 + in_century a ≡ a % 146097
century_sum a = ground arith

last_of :
    (c s : ℕ)
    → (c ≤ 36523) ⊎ ((c ≡ 36524) × (s ≡ 3))
    → let v = min (c % 1461 / 365) 3 in
      let n = c % 1461 - v * 365 in (n ≤ 364) ⊎ ((n ≡ 365) × (v ≡ 3) × ((c / 1461 ≤ 23) ⊎ (s ≡ 3)))
last_of c s h = ground (arith, h)

fours : (c s : ℕ) → (c ≤ 36523) ⊎ ((c ≡ 36524) × (s ≡ 3)) → c / 1461 ≤ 24
fours c s h = ground (arith, h)

year_sum :
    (c : ℕ) → min (c % 1461 / 365) 3 * 365 + (c % 1461 - min (c % 1461 / 365) 3 * 365) ≡ c % 1461
year_sum c = ground arith

pub march_at-IsMarch : (a : ℕ) → IsMarch (march_at a)
march_at-IsMarch a = record {
  century = min_le _ _;
  four = fours (in_century a) (century_of a) (century_bound a);
  within = min_le _ _;
  last = last_of (in_century a) (century_of a) (century_bound a);
}

march_days-march_at : (a : ℕ) → march_days (march_at a) ≡ a
march_days-march_at a = omega (arith, century_sum a, year_sum (in_century a))

-- The date of a day of a year that starts with March.
abbrev month_of : ℕ → ℕ
month_of n = let m = (n * 5 + 2) / 153 in m + 3 - m / 10 * 12

abbrev year_at : March → ℕ
year_at t = march_year t - 4800 + (t.n * 5 + 2) / 153 / 10

abbrev day_at : ℕ → ℕ
day_at n = n - ((n * 5 + 2) / 153 * 153 + 2) / 5 + 1

long_enough :
    (n : ℕ) (leap : Bool)
    → (n ≤ 364) ⊎ ((n ≡ 365) × (leap ≡ true))
    → day_at n ≤ month_days leap (month_of n)
long_enough n leap h = ground (arith, h)

last_is_leap :
    (t : March)
    → IsMarch t
    → 4800 ≤ march_year t
    → (t.n ≤ 364) ⊎ ((t.n ≡ 365) × (is_leap (year_at t) ≡ true))
unfolding is_leap
last_is_leap t h big = ground (arith, h.last, h.within, h.four, h.century)

IsDate-of_march :
    (t : March) → IsMarch t → 4800 ≤ march_year t → IsDate (year_at t) (month_of t.n) (day_at t.n)
unfolding days_in_month
IsDate-of_march t h big = record {
  month_in = ground (arith, h.last);
  day_in = (omega arith, long_enough t.n (is_leap (year_at t)) (last_is_leap t h big));
}

count_back :
    (n y : ℕ) → n ≤ 365 → 4800 ≤ y → count_year (y - 4800 + (n * 5 + 2) / 153 / 10) (month_of n) ≡ y
count_back n y h big = ground arith

month_day_back : (n : ℕ) → n ≤ 365 → day_at n - 1 + before_month (month_of n) ≡ n
month_day_back n h = ground arith

at_most_365 : (t : March) → IsMarch t → t.n ≤ 365
at_most_365 t h = ground (arith, h.last)

march_of-of_march :
    (t : March)
    → IsMarch t
    → 4800 ≤ march_year t
    → march_days (march_of (year_at t) (month_of t.n) (day_at t.n)) ≡ march_days t
march_of-of_march t h big =
    rw
      (
        march_days-eq (year_at t) (month_of t.n) (day_at t.n),
        count_back t.n (march_year t) (at_most_365 t h) big,
        month_day_back t.n (at_most_365 t h),
      )
      (omega (arith, year_over_4 t h, year_over_100 t h, year_over_400 t h))

year_at_bound : (t : March) → IsMarch t → march_days t ≤ 366100000 → year_at t ≤ 1000000
year_at_bound t h small = omega (arith, small, at_most_365 t h)

-- From the first of March of the year 0 on, and up to 366000000, the number of a day is that of a date, which the sums find.
pub record IsDayOf (j : ℕ) : Type 0 where
  pub y : ℕ
  pub m : ℕ
  pub d : ℕ
  pub date : IsDate y m d
  pub early : y ≤ 1000000
  pub number : get_julian_day_number (pos y) (pos m) (pos d) ≡ pos j
  pub found : get_year_month_day (pos j) ≡ civil_date y m d

pub get_year_month_day-IsDayOf : (j : ℕ) → 1721120 ≤ j → j ≤ 366000000 → IsDayOf j
unfolding year_month_day of_civil
get_year_month_day-IsDayOf j big small =
    let t = march_at (j + 32044) in
    let sum = march_days-march_at (j + 32044) in
    let late : 4800 ≤ march_year t = omega arith in
    let before : year_at t ≤ 1000000 =
      year_at_bound t (march_at-IsMarch (j + 32044)) (omega (arith, sum, small)) in
    let is = march_at-IsMarch (j + 32044) in
    let date = IsDate-of_march t is late in
    let number : get_julian_day_number (pos (year_at t)) (pos (month_of t.n)) (pos (day_at t.n))
        ≡ pos j =
      rw
        (
          julian-march_of (year_at t) (month_of t.n) (day_at t.n) date (omega (arith, before)),
          march_of-of_march t is late,
          sum,
        )
        (ap pos (omega arith)) in
    record {
      y = year_at t;
      m = month_of t.n;
      d = day_at t.n;
      date = date;
      early = before;
      number = number;
      found = ap get_year_month_day (sym number) ∙ year_month_day-of_civil _ _ _ date before;
    }
