-- ===== src/TimeZone.antt =====
-- src/utils/TimeZone.cpp: broken-down times of UTC and of a time zone. `gmtime_r` and `timegm` are
-- parameters. An `int` wraps at 32 bits; a `time_t`, of 64 bits, is taken not to overflow. A failed `assert` or an access outside a vector is `none`. TimeZone/File reads the file.
pub mod File
pub mod Utc
pub mod Search
pub mod Unread
use dbdky_gcc.Common.{
  ℕ, suc, ◌+◌, ◌-◌, ◌*◌, ◌/◌, ◌%◌, Option, none, some, List, [], ◌∷◌, Bool, true, false, not, ◌&&◌,
  ◌||◌, ◌==◌, ltb, length, drop, if◌then◌else◌, ◌>>=◌, get_elem?,
}
use dbdky_gcc.Common.Int.{ℤ, pos, negsuc, pos_part, ◌+ℤ◌, ◌-ℤ◌, ltb_ℤ, eqb_ℤ, to_int32}
use dbdky_gcc.Common.Truncated.{◌*ℤ◌, ◌/ℤ◌, ◌%ℤ◌}
use dbdky_gcc.Date.{
  YearMonthDay, Date, of_civil, year_month_day, week_day, k_julian_day_of_1970_01_01,
}

pub record Transition : Type 0 where
  pub gmttime : ℤ
  pub localtime : ℤ
  pub localtime_idx : ℕ

pub record Localtime : Type 0 where
  pub gmt_offset : ℤ
  pub is_dst : Bool
  pub arrb_idx : ℕ

-- `TimeZone::Data`; `names` is never used.
pub record Data : Type 0 where
  pub transitions : List Transition
  pub localtimes : List Localtime
  pub abbreviation : List ℕ

-- `struct tm`. `tm_zone` holds the text from where the pointer points on.
pub record Tm : Type 0 where
  pub tm_sec : ℤ
  pub tm_min : ℤ
  pub tm_hour : ℤ
  pub tm_mday : ℤ
  pub tm_mon : ℤ
  pub tm_year : ℤ
  pub tm_wday : ℤ
  pub tm_yday : ℤ
  pub tm_isdst : Bool
  pub tm_gmtoff : ℤ
  pub tm_zone : List ℕ

-- After `bzero`.
abbrev pub zero_tm : Tm
zero_tm = record {
  tm_sec = pos 0;
  tm_min = pos 0;
  tm_hour = pos 0;
  tm_mday = pos 0;
  tm_mon = pos 0;
  tm_year = pos 0;
  tm_wday = pos 0;
  tm_yday = pos 0;
  tm_isdst = false;
  tm_gmtoff = pos 0;
  tm_zone = [];
}

abbrev pub k_seconds_per_day : ℕ
k_seconds_per_day = 24 * 60 * 60

unfoldable pub fill_hms : ℕ → Tm → Tm
fill_hms seconds utc =
    let minutes = seconds / 60 in
    record utc {
      tm_sec = pos (seconds % 60);
      tm_min = pos (minutes % 60);
      tm_hour = pos (minutes / 60);
    }

-- `toUtcTime` from the construction of the date on.
unfoldable pub fill_date : Bool → Date → Tm → Tm
fill_date yday date utc =
    let ymd = year_month_day date in
    let start_of_year = of_civil ymd.year (pos 1) (pos 1) in
    record utc {
      tm_year = to_int32 (ymd.year -ℤ pos 1900);
      tm_mon = to_int32 (ymd.month -ℤ pos 1);
      tm_mday = ymd.day;
      tm_wday = week_day date;
      tm_yday =
          if yday
          then to_int32 (date.julian_day_number -ℤ start_of_year.julian_day_number)
          else utc.tm_yday;
    }

-- `seconds` is not negative where it becomes `unsigned`.
unfoldable pub split_day : ℤ → ℤ → ℤ × ℤ
split_day seconds days =
    if ltb_ℤ seconds (pos 0)
    then (to_int32 (seconds +ℤ pos k_seconds_per_day), to_int32 (days -ℤ pos 1))
    else (seconds, days)

unfoldable pub to_utc_time : ℤ → Bool → Tm
to_utc_time seconds_since_epoch yday =
    let p =
      split_day (to_int32 (seconds_since_epoch %ℤ k_seconds_per_day))
        (to_int32 (seconds_since_epoch /ℤ k_seconds_per_day)) in
    fill_date yday (record { julian_day_number = to_int32 (p.1 +ℤ k_julian_day_of_1970_01_01) })
      (fill_hms (pos_part p.0) (record zero_tm { tm_zone = b'G' ∷ b'M' ∷ b'T' ∷ [] }))

unfoldable pub from_utc : ℤ → ℤ → ℤ → ℤ → ℤ → ℤ → ℤ
from_utc year month day hour minute seconds =
    let date = of_civil year month day in
    let seconds_in_day = to_int32 (hour *ℤ 3600 +ℤ minute *ℤ 60 +ℤ seconds) in
    let days = to_int32 (date.julian_day_number -ℤ k_julian_day_of_1970_01_01) in
    days *ℤ k_seconds_per_day +ℤ seconds_in_day

unfoldable pub from_utc_time : Tm → ℤ
from_utc_time utc =
    from_utc (to_int32 (utc.tm_year +ℤ pos 1900)) (to_int32 (utc.tm_mon +ℤ pos 1)) utc.tm_mday
      utc.tm_hour utc.tm_min utc.tm_sec

-- `Comp`: whether transitions are compared by the time of UTC.
unfoldable pub key : Bool → Transition → ℤ
key compare_gmt t = if compare_gmt then t.gmttime else t.localtime

unfoldable pub comp : Bool → Transition → Transition → Bool
comp compare_gmt lhs rhs = ltb_ℤ (key compare_gmt lhs) (key compare_gmt rhs)

unfoldable pub equal : Bool → Transition → Transition → Bool
equal compare_gmt lhs rhs = eqb_ℤ (key compare_gmt lhs) (key compare_gmt rhs)

-- `lower_bound`: the first position whose element is not below the sentry.
unfoldable pub lower_bound : Bool → List Transition → Transition → ℕ
lower_bound compare_gmt [] sentry = 0
lower_bound compare_gmt (t ∷ l) sentry =
    let rest = lower_bound compare_gmt l sentry in if comp compare_gmt t sentry then suc rest else 0

unfoldable pub back : List Transition → Option Transition
back [] = none
back (t ∷ []) = some t
back (t ∷ l) = back l

-- `--transI`, after the assertion.
unfoldable pub previous : ℕ → Option ℕ
previous i = if i == 0 then none else some (i - 1)

unfoldable pub local_of : Data → Transition → Option Localtime
local_of zone t = get_elem? zone.localtimes t.localtime_idx

-- `findLocaltime` where `transI` is the position `i`, and past the end.
unfoldable pub found_at : Bool → Data → Transition → ℕ → Option Localtime
found_at compare_gmt zone sentry i = do
  t ← get_elem? zone.transitions i
  j ← if equal compare_gmt sentry t then some i else previous i
  u ← get_elem? zone.transitions j
  local_of zone u

unfoldable pub found_past : Data → Option Localtime
found_past zone = do t ← back zone.transitions; local_of zone t

unfoldable pub found_from : Bool → Data → Transition → Option Localtime
found_from compare_gmt zone sentry =
    let i = lower_bound compare_gmt zone.transitions sentry in
    if i == length zone.transitions then found_past zone else found_at compare_gmt zone sentry i

-- `data.transitions.empty() || comp(sentry, data.transitions.front())`.
unfoldable pub is_before : Bool → List Transition → Transition → Bool
is_before compare_gmt [] sentry = true
is_before compare_gmt (t ∷ l) sentry = comp compare_gmt sentry t

unfoldable pub find_localtime : Bool → Data → Transition → Option Localtime
find_localtime compare_gmt zone sentry =
    if is_before compare_gmt zone.transitions sentry
    then get_elem? zone.localtimes 0
    else found_from compare_gmt zone sentry

-- `TimeZone::data_`, which is `none` where the pointer is null.
unfoldable pub to_local_time : (ℤ → Tm) → Option Data → ℤ → Option Tm
to_local_time gmtime zone seconds = do
  d ← zone
  local ← find_localtime true d (record { gmttime = seconds; localtime = pos 0; localtime_idx = 0 })
  some (record (gmtime (seconds +ℤ local.gmt_offset)) {
    tm_isdst = local.is_dst;
    tm_gmtoff = local.gmt_offset;
    tm_zone = drop local.arrb_idx d.abbreviation;
  })

-- Whether the time without daylight saving shows the same hour and minute.
unfoldable pub shows_same : Tm → Tm → Bool
shows_same try_tm local_tm =
    not try_tm.tm_isdst
    && eqb_ℤ try_tm.tm_hour local_tm.tm_hour
    && eqb_ℤ try_tm.tm_min local_tm.tm_min

unfoldable pub adjusted : (ℤ → Tm) → Option Data → Tm → ℤ → Localtime → Option ℤ
adjusted gmtime zone local_tm seconds local = do
  try_tm ← to_local_time gmtime zone (seconds -ℤ local.gmt_offset)
  some (if shows_same try_tm local_tm then seconds -ℤ pos 3600 else seconds)

unfoldable pub from_local_time : (ℤ → Tm) → (Tm → ℤ) → Option Data → Tm → Option ℤ
from_local_time gmtime timegm zone local_tm = do
  d ← zone
  local ←
      find_localtime false d
        (record { gmttime = pos 0; localtime = timegm local_tm; localtime_idx = 0 })
  seconds ←
      if local_tm.tm_isdst
      then adjusted gmtime zone local_tm (timegm local_tm) local
      else some (timegm local_tm)
  some (seconds -ℤ local.gmt_offset)
