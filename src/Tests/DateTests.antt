-- ===== src/Tests/DateTests.antt =====
-- A leap day, the end of a year, the second before 1970, and a zone with two transitions.
use dbdky_gcc.Common.{◌≡◌, refl, none, some, [], ◌∷◌, true, false, arith}
use dbdky_gcc.Common.Int.{ℤ, pos, negsuc, ◌+ℤ◌}
use dbdky_gcc.Date.{get_julian_day_number, of_civil, year_month_day}
use dbdky_gcc.Date.Calendar.{is_leap, days_in_month, IsDate}
use dbdky_gcc.Date.Counting.{next, julian-next}
use dbdky_gcc.Date.RoundTrip.{civil_date, year_month_day-of_civil}
use dbdky_gcc.TimeZone.{
  Data, Tm, zero_tm, Transition, comp, key, find_localtime, to_utc_time, from_utc_time,
  to_local_time, from_local_time, local_of,
}
use dbdky_gcc.TimeZone.File.{time_zone}
use dbdky_gcc.TimeZone.Search.{IsAscending, last_come, local_at, find_localtime_lem}
use dbdky_gcc.TimeZone.Unread.{time_zone-empty}
use dbdky_gcc.TimeZone.Utc.{IsUtc, from_utc_time-to_utc_time}

leap_day-IsDate : IsDate 2000 2 29
unfolding days_in_month is_leap
leap_day-IsDate = record {
  month_in = (omega arith, omega arith);
  day_in = (omega arith, omega arith);
}

year_month_day-of_civil_example :
    year_month_day (of_civil (pos 2000) (pos 2) (pos 29)) ≡ civil_date 2000 2 29
year_month_day-of_civil_example = year_month_day-of_civil 2000 2 29 leap_day-IsDate (omega arith)

new_years_eve-IsDate : IsDate 1999 12 31
unfolding days_in_month is_leap
new_years_eve-IsDate = record {
  month_in = (omega arith, omega arith);
  day_in = (omega arith, omega arith);
}

julian-next_example :
    IsDate 2000 1 1
    × (get_julian_day_number (pos 2000) (pos 1) (pos 1)
        ≡ get_julian_day_number (pos 1999) (pos 12) (pos 31) +ℤ pos 1)
unfolding next days_in_month is_leap
julian-next_example = julian-next 1999 12 31 new_years_eve-IsDate (omega arith)

from_utc_time-to_utc_time_example :
    IsUtc (to_utc_time (negsuc 0) true) × (from_utc_time (to_utc_time (negsuc 0) true) ≡ negsuc 0)
from_utc_time-to_utc_time_example =
    from_utc_time-to_utc_time (negsuc 0) true (omega arith) (omega arith)

abbrev zone : Data
zone = record {
  transitions =
      record { gmttime = pos 100; localtime = pos 3700; localtime_idx = 1 }
      ∷ record { gmttime = pos 200; localtime = pos 200; localtime_idx = 0 }
      ∷ [];
  localtimes =
      record { gmt_offset = pos 0; is_dst = false; arrb_idx = 0 }
      ∷ record { gmt_offset = pos 3600; is_dst = true; arrb_idx = 4 }
      ∷ [];
  abbreviation = b'A' ∷ b'B' ∷ [];
}

abbrev at_150 : Transition
at_150 = record { gmttime = pos 150; localtime = pos 0; localtime_idx = 0 }

zone-IsAscending : IsAscending true zone.transitions
unfolding IsAscending comp key
zone-IsAscending = (refl, tt)

find_localtime_lem_example :
    find_localtime true zone at_150 ≡ local_at zone (last_come true none zone.transitions at_150)
find_localtime_lem_example = find_localtime_lem true zone at_150 zone-IsAscending

summer :
    local_at zone (last_come true none zone.transitions at_150)
    ≡ some (record { gmt_offset = pos 3600; is_dst = true; arrb_idx = 4 })
unfolding last_come local_at comp key local_of
summer = refl

abbrev some_tm : ℤ → Tm
some_tm s = record zero_tm { tm_sec = s }

time_zone-empty_example :
    (z : Data) × (time_zone (some (b'T' ∷ b'Z' ∷ b'i' ∷ b'f' ∷ [])) ≡ some (some z))
    × ((seconds : ℤ) → to_local_time some_tm (some z) seconds ≡ none)
    × ((local_tm : Tm) → from_local_time some_tm (λ t. t.tm_sec) (some z) local_tm ≡ none)
time_zone-empty_example =
    time_zone-empty some_tm (λ t. t.tm_sec) (some (b'T' ∷ b'Z' ∷ b'i' ∷ b'f' ∷ []))
