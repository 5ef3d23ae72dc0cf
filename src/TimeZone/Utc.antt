-- ===== src/TimeZone/Utc.antt =====
-- Broken-down times of UTC.
use mathlib.Core.Path.{subst}
use dbdky_gcc.Common.{
  ◌∷◌, [], ℕ, suc, ◌+◌, ◌-◌, ◌*◌, ◌/◌, ◌%◌, ◌≤◌, ◌<◌, ◌^◌, ◌≡◌, refl, sym, ap, ◌∙◌, Bool, true,
  false, arith, Bool-cases, inl, inr, ltb,
}
use dbdky_gcc.Common.Int.{
  ℤ, pos, negsuc, pos_part, neg_part, eq_of_parts, +ℤ_parts, -ℤ_parts, ◌+ℤ◌, ◌-ℤ◌, ltb_ℤ, to_int32,
}
use dbdky_gcc.Common.Truncated.{
  ◌*ℤ◌, ◌/ℤ◌, ◌%ℤ◌, negated, negated_parts, *ℤ_parts, pos-+ℤ, pos-*ℤ, int32_small, int32_pos,
}
use dbdky_gcc.Date.{
  get_julian_day_number, of_civil, year_month_day, k_julian_day_of_1970_01_01, julian_sum,
}
use dbdky_gcc.Date.Calendar.{IsDate}
use dbdky_gcc.Date.Days.{get_year_month_day-IsDayOf}
use dbdky_gcc.TimeZone.{
  Tm, zero_tm, fill_hms, fill_date, split_day, to_utc_time, from_utc, from_utc_time,
  k_seconds_per_day,
}

epoch : k_julian_day_of_1970_01_01 ≡ pos 2440588
unfolding get_julian_day_number julian_sum to_int32 ◌+ℤ◌ ◌-ℤ◌ ◌*ℤ◌ ◌/ℤ◌
epoch = refl

-- The seconds from the first of March of the year 0 to 1970.
abbrev pub first_second : ℕ
first_second = 62162035200

-- The last second of day 366000000, in the year 997361.
abbrev pub last_second : ℕ
last_second = 31411533196800

-- The day and the second of the day.
record Splits (s : ℤ) : Type 0 where
  days : ℤ
  julian : ℕ
  second : ℕ
  within : second < 86400
  late : 1721120 ≤ julian
  early : julian ≤ 366000000
  split :
      split_day (to_int32 (s %ℤ k_seconds_per_day)) (to_int32 (s /ℤ k_seconds_per_day))
      ≡ (pos second, days)
  day_is : days +ℤ pos 2440588 ≡ pos julian
  back : (pos julian -ℤ pos 2440588) *ℤ 86400 +ℤ pos second ≡ s

negated_add : (k : ℕ) → k ≤ 86400 → negated k +ℤ pos 86400 ≡ pos (86400 - k)
negated_add k h =
    eq_of_parts _ _ (omega (arith, +ℤ_parts (negated k) (pos 86400), negated_parts k, h))

int32_negated : (k : ℕ) → k ≤ 2 ^ 31 → to_int32 (negated k) ≡ negated k
int32_negated k h =
    int32_small (negated k) (omega (arith, negated_parts k)) (omega (arith, negated_parts k, h))

negated_less_one :
    (q : ℕ) → (pos_part (negated q -ℤ pos 1) ≡ 0) × (neg_part (negated q -ℤ pos 1) ≡ q + 1)
unfolding ◌-ℤ◌
negated_less_one q = ground (arith, negated_parts q)

split_day-negative :
    (k q : ℕ)
    → 1 ≤ k
    → k ≤ 86400
    → q ≤ 1000000
    → split_day (to_int32 (negated k)) (to_int32 (negated q))
      ≡ (pos (86400 - k), negated q -ℤ pos 1)
unfolding split_day
split_day-negative k q low high few =
    let test : ltb_ℤ (negated k) (pos 0) ≡ true = ground (arith, negated_parts k) in
    rw
      (
        int32_negated k (omega arith),
        int32_negated q (omega arith),
        test,
        negated_add k high,
        int32_pos (86400 - k) (omega arith),
        int32_small (negated q -ℤ pos 1) (omega (arith, parts)) (omega (arith, parts)),
      )
      refl
  where
    parts : (pos_part (negated q -ℤ pos 1) ≡ 0) × (neg_part (negated q -ℤ pos 1) ≡ q + 1)
    parts = negated_less_one q

split_day-rest :
    (k : ℕ) (days : ℤ)
    → k ≤ 86400
    → to_int32 days ≡ days
    → split_day (to_int32 (pos k)) (to_int32 days) ≡ (pos k, days)
unfolding split_day
split_day-rest k days h same =
    let test : ltb (k + 0) 0 ≡ false = ground arith in
    rw (int32_pos k (omega (arith, h)), same, test) refl

day_second :
    (j r : ℕ) (s : ℤ)
    → j * 86400 + r + neg_part s ≡ pos_part s + 2440588 * 86400
    → (pos j -ℤ pos 2440588) *ℤ 86400 +ℤ pos r ≡ s
day_second j r s h = eq_of_parts _ _ (
    omega (
      arith,
      +ℤ_parts ((pos j -ℤ pos 2440588) *ℤ 86400) (pos r),
      *ℤ_parts (pos j -ℤ pos 2440588) 86400,
      -ℤ_parts (pos j) (pos 2440588),
      h,
    ))

split-Splits : (s : ℤ) → neg_part s ≤ first_second → pos_part s ≤ last_second → Splits s
unfolding ◌%ℤ◌ ◌/ℤ◌ negated
split-Splits (pos n) h k = record {
  days = pos (n / 86400);
  julian = n / 86400 + 2440588;
  second = n % 86400;
  within = omega arith;
  late = omega arith;
  early = omega (arith, k);
  split = split_day-rest _ _ (omega arith) (int32_pos _ (omega (arith, k)));
  day_is = pos-+ℤ _ _;
  back = day_second _ _ _ (omega arith);
}
split-Splits (negsuc n) h k = elim (Bool-cases (ltb 0 (suc n % 86400))) [
  | inl part ↦ record {
    days = negated (suc n / 86400) -ℤ pos 1;
    julian = 2440587 - suc n / 86400;
    second = 86400 - suc n % 86400;
    within = ground (arith, part);
    late = ground (arith, h, part);
    early = omega arith;
    split =
        split_day-negative (suc n % 86400) (suc n / 86400) (ground (arith, part)) (omega arith)
          (omega (arith, h));
    day_is = eq_of_parts _ _ (
        omega (
          arith,
          +ℤ_parts (negated (suc n / 86400) -ℤ pos 1) (pos 2440588),
          -ℤ_parts (negated (suc n / 86400)) (pos 1),
          negated_parts (suc n / 86400),
          h,
        ));
    back = day_second _ _ _ (ground (arith, h, part));
  }
  | inr whole ↦
      let zero_second : suc n % 86400 ≡ 0 = ground (arith, whole) in
      record {
        days = negated (suc n / 86400);
        julian = 2440588 - suc n / 86400;
        second = 0;
        within = omega arith;
        late = omega (arith, h);
        early = omega arith;
        split =
            rw zero_second (split_day-rest 0 _ (omega arith) (int32_negated _ (omega (arith, h))));
        day_is = eq_of_parts _ _ (
            omega (
              arith,
              +ℤ_parts (negated (suc n / 86400)) (pos 2440588),
              negated_parts (suc n / 86400),
              h,
            ));
        back = day_second _ _ _ (omega (arith, h, zero_second));
      }
]

-- A date of the calendar and a time of the day, as a broken-down time has them.
pub record IsUtc (tm : Tm) : Type 0 where
  pub y : ℕ
  pub m : ℕ
  pub d : ℕ
  pub hour : ℕ
  pub minute : ℕ
  pub second : ℕ
  pub date : IsDate y m d
  pub within : (hour < 24) × (minute < 60) × (second < 60)
  pub year_is : tm.tm_year +ℤ pos 1900 ≡ pos y
  pub month_is : tm.tm_mon +ℤ pos 1 ≡ pos m
  pub day_is : tm.tm_mday ≡ pos d
  pub hour_is : tm.tm_hour ≡ pos hour
  pub minute_is : tm.tm_min ≡ pos minute
  pub second_is : tm.tm_sec ≡ pos second

sub_add : (a b : ℤ) → a -ℤ b +ℤ b ≡ a
sub_add a b = eq_of_parts _ _ (omega (arith, +ℤ_parts (a -ℤ b) b, -ℤ_parts a b))

sub_parts : (a b : ℕ) → (pos_part (pos a -ℤ pos b) ≤ a) × (neg_part (pos a -ℤ pos b) ≤ b)
unfolding ◌-ℤ◌
sub_parts a b = ground arith

small_sub : (a b : ℕ) → a < 2 ^ 31 → b < 2 ^ 31 → to_int32 (pos a -ℤ pos b) ≡ pos a -ℤ pos b
small_sub a b h k =
    let (above, below) = sub_parts a b in
    int32_small _ (omega (arith, above, h)) (omega (arith, below, k))

-- The broken-down time of a second and a Julian day.
filled :
    (yday : Bool) (j r : ℕ) (tm : Tm)
    → 1721120 ≤ j
    → j ≤ 366000000
    → r < 86400
    → IsUtc (fill_date yday (record { julian_day_number = pos j }) (fill_hms r tm))
unfolding fill_date fill_hms year_month_day
filled yday j r tm late early h =
    let x = get_year_month_day-IsDayOf j late early in
    record {
      y = x.y;
      m = x.m;
      d = x.d;
      hour = r / 60 / 60;
      minute = r / 60 % 60;
      second = r % 60;
      date = x.date;
      within = (omega (arith, h), omega arith, omega arith);
      year_is =
          rw (x.found, small_sub x.y 1900 (omega (arith, x.early)) (omega arith)) (sub_add _ _);
      month_is =
          rw (x.found, small_sub x.m 1 (omega (arith, x.date.month_in)) (omega arith))
            (sub_add _ _);
      day_is = rw x.found refl;
      hour_is = refl;
      minute_is = refl;
      second_is = refl;
    }

seconds_back :
    (r : ℕ)
    → r < 86400
    → pos (r / 60 / 60) *ℤ 3600 +ℤ pos (r / 60 % 60) *ℤ 60 +ℤ pos (r % 60) ≡ pos r
seconds_back r h =
    rw
      (
        pos-*ℤ (r / 60 / 60) 3600,
        pos-*ℤ (r / 60 % 60) 60,
        pos-+ℤ (r / 60 / 60 * 3600) (r / 60 % 60 * 60),
        pos-+ℤ (r / 60 / 60 * 3600 + r / 60 % 60 * 60) (r % 60),
      )
      (ap pos (omega arith))

from_utc_time-filled :
    (yday : Bool) (j r : ℕ) (tm : Tm)
    → 1721120 ≤ j
    → j ≤ 366000000
    → r < 86400
    → from_utc_time (fill_date yday (record { julian_day_number = pos j }) (fill_hms r tm))
      ≡ (pos j -ℤ pos 2440588) *ℤ 86400 +ℤ pos r
unfolding fill_date fill_hms year_month_day from_utc_time from_utc of_civil
from_utc_time-filled yday j r tm late early h =
    let x = get_year_month_day-IsDayOf j late early in
    rw
      (
        x.found,
        small_sub x.y 1900 (omega (arith, x.early)) (omega arith),
        small_sub x.m 1 (omega (arith, x.date.month_in)) (omega arith),
        sub_add (pos x.y) (pos 1900),
        sub_add (pos x.m) (pos 1),
        int32_pos x.y (omega (arith, x.early)),
        int32_pos x.m (omega (arith, x.date.month_in)),
        x.number,
        epoch,
        small_sub j 2440588 (omega (arith, early)) (omega arith),
        seconds_back r h,
        int32_pos r (omega (arith, h)),
      )
      refl

to_utc_time-filled :
    (s : ℤ) (yday : Bool) (x : Splits s)
    → to_utc_time s yday
      ≡ fill_date yday
          (record { julian_day_number = pos x.julian })
          (fill_hms x.second (record zero_tm { tm_zone = b'G' ∷ b'M' ∷ b'T' ∷ [] }))
unfolding to_utc_time
to_utc_time-filled s yday x =
    rw (x.split, epoch, x.day_is, int32_pos x.julian (omega (arith, x.early))) refl

-- From the first of March of the year 0 to the year 997361, where no sum overflows, each second has a
-- broken-down time in UTC, which is a date of the calendar and a time of the day, and which gives the
-- second back; `yday` does not matter.
pub from_utc_time-to_utc_time :
    (s : ℤ) (yday : Bool)
    → neg_part s ≤ first_second
    → pos_part s ≤ last_second
    → IsUtc (to_utc_time s yday) × (from_utc_time (to_utc_time s yday) ≡ s)
from_utc_time-to_utc_time s yday h k =
    let x = split-Splits s h k in
    let is = to_utc_time-filled s yday x in
    (
      subst IsUtc (sym is) (filled yday x.julian x.second _ x.late x.early x.within),
      ap from_utc_time is
          ∙ from_utc_time-filled yday x.julian x.second _ x.late x.early x.within
          ∙ x.back,
    )
