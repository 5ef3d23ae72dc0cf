-- ===== src/Date/Counting.antt =====
-- The numbers of the days count them.
use mathlib.Core.Path.{subst}
use dbdky_gcc.Common.{
  ℕ, ◌+◌, ◌-◌, ◌*◌, ◌/◌, ◌≡◌, ◌≤◌, ap, if◌then◌else◌, ltb, inl, inr, arith, ◌==◌, Bool-cases, true,
  false,
}
use dbdky_gcc.Common.Int.{pos, ◌+ℤ◌}
use dbdky_gcc.Common.Truncated.{pos-+ℤ}
use dbdky_gcc.Date.{get_julian_day_number}
use dbdky_gcc.Date.March.{march_days}
use dbdky_gcc.Date.Calendar.{is_leap, days_in_month, IsDate, from_march, count_year, march_of}
use dbdky_gcc.Date.Sums.{julian-march_of}
use dbdky_gcc.Date.RoundTrip.{big_days}

-- The day after a date of the calendar.
unfoldable pub next : ℕ → ℕ → ℕ → ℕ × ℕ × ℕ
next y m d =
    if ltb d (days_in_month y m)
    then (y, m, d + 1)
    else (if ltb m 12 then y else y + 1, if ltb m 12 then m + 1 else 1, 1)

next-IsDate : (y m d : ℕ) → IsDate y m d → IsDate (next y m d).0 (next y m d).1 (next y m d).2
unfolding next days_in_month is_leap
next-IsDate y m d h = record {
  month_in = ground (arith, h.month_in);
  day_in = ground (arith, h.month_in, h.day_in);
}

next_year : (y m d : ℕ) → y ≤ 1000000 → (next y m d).0 ≤ 1000001
unfolding next
next_year y m d late = ground (arith, late)

-- The days before the year `y`, of those that start with March.
abbrev pub days_before : ℕ → ℕ
days_before y = y * 365 + y / 4 - y / 100 + y / 400

-- The days before the month, from the first of March on.
abbrev pub before_month : ℕ → ℕ
before_month m = (from_march m * 153 + 2) / 5

pub march_days-eq :
    (y m d : ℕ)
    → march_days (march_of y m d) ≡ days_before (count_year y m) + (d - 1 + before_month m)
march_days-eq y m d = omega arith

month_lengths :
    (y m : ℕ)
    → 1 ≤ m
    → m ≤ 12
    → (m == 2) ≡ false
    → before_month (if ltb m 12 then m + 1 else 1) ≡ before_month m + days_in_month y m
unfolding days_in_month
month_lengths y m low high h = ground arith

same_year :
    (y m : ℕ)
    → 1 ≤ m
    → m ≤ 12
    → (m == 2) ≡ false
    → count_year (if ltb m 12 then y else y + 1) (if ltb m 12 then m + 1 else 1) ≡ count_year y m
same_year y m low high h = ground arith

new_year : (y : ℕ) → days_before (y + 4800) + 0 ≡ days_before (y + 4799) + (337 + days_in_month y 2)
unfolding days_in_month is_leap
new_year y = ground arith

abbrev CountsOn : ℕ → ℕ → ℕ → Type 0
CountsOn y m d =
    march_days (march_of (next y m d).0 (next y m d).1 (next y m d).2)
    ≡ march_days (march_of y m d) + 1

last_day : (y m d : ℕ) → IsDate y m d → ltb d (days_in_month y m) ≡ false → d ≡ days_in_month y m
last_day y m d h last = ground (arith, h.day_in, last)

february : (y d : ℕ) → IsDate y 2 d → ltb d (days_in_month y 2) ≡ false → CountsOn y 2 d
unfolding next
february y d h last =
    rw (last, march_days-eq y 3 1, march_days-eq y 2 d)
      (omega (arith, new_year y, last_day y 2 d h last, h.day_in))

other_month :
    (y m d : ℕ)
    → IsDate y m d
    → ltb d (days_in_month y m) ≡ false
    → (m == 2) ≡ false
    → CountsOn y m d
unfolding next
other_month y m d h last other =
    rw
      (
        last,
        march_days-eq (if ltb m 12 then y else y + 1) (if ltb m 12 then m + 1 else 1) 1,
        same_year y m h.month_in.0 h.month_in.1 other,
        month_lengths y m h.month_in.0 h.month_in.1 other,
        march_days-eq y m d,
      )
      (omega (arith, last_day y m d h last, h.day_in))

same_month : (y m d : ℕ) → IsDate y m d → ltb d (days_in_month y m) ≡ true → CountsOn y m d
unfolding next
same_month y m d h inside =
    rw (inside, march_days-eq y m (d + 1), march_days-eq y m d) (omega (arith, h.day_in))

march_days-next : (y m d : ℕ) → IsDate y m d → CountsOn y m d
march_days-next y m d h = elim (Bool-cases (ltb d (days_in_month y m))) [
  | inl inside ↦ same_month y m d h inside
  | inr last ↦ elim (Bool-cases (m == 2)) [
    | inl feb ↦
        subst (λ m. IsDate y m d → ltb d (days_in_month y m) ≡ false → CountsOn y m d)
          (ground (arith, feb)) (february y d) h last
    | inr other ↦ other_month y m d h last other
  ]
]

-- The day after a date of the calendar, in the years from 0 to 1000000, is a date of it, and it has the
-- next number.
pub julian-next :
    (y m d : ℕ)
    → IsDate y m d
    → y ≤ 1000000
    → IsDate (next y m d).0 (next y m d).1 (next y m d).2
      × (get_julian_day_number (pos (next y m d).0) (pos (next y m d).1) (pos (next y m d).2)
          ≡ get_julian_day_number (pos y) (pos m) (pos d) +ℤ pos 1)
julian-next y m d h late =
    let h' = next-IsDate y m d h in
    (
      h',
      rw
          (
            julian-march_of (next y m d).0 (next y m d).1 (next y m d).2 h' (next_year y m d late),
            julian-march_of y m d h (omega (arith, late)),
            pos-+ℤ (march_days (march_of y m d) - 32044) 1,
          )
          (ap pos (omega (arith, march_days-next y m d h, big_days y m d))),
    )
