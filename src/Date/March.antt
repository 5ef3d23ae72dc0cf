-- ===== src/Date/March.antt =====
-- The arithmetic of the calendar that starts each year with March: year 400 k + 100 s + 4 u + v, and
-- day `n` of it, counted from 0.
use dbdky_gcc.Common.{ℕ, ◌+◌, ◌*◌, ◌/◌, ◌≡◌, ◌≤◌, ◌⊎◌, arith}

pub record March : Type 0 where
  pub k : ℕ
  pub s : ℕ
  pub u : ℕ
  pub v : ℕ
  pub n : ℕ

abbrev pub march_year : March → ℕ
march_year t = t.k * 400 + t.s * 100 + t.u * 4 + t.v

-- The last day is day 365 in the years before a leap year, and day 364 in the others.
pub record IsMarch (t : March) : Type 0 where
  pub century : t.s ≤ 3
  pub four : t.u ≤ 24
  pub within : t.v ≤ 3
  pub last : (t.n ≤ 364) ⊎ ((t.n ≡ 365) × (t.v ≡ 3) × ((t.u ≤ 23) ⊎ (t.s ≡ 3)))

abbrev pub century_days : March → ℕ
century_days t = t.u * 1461 + t.v * 365 + t.n

abbrev pub march_days : March → ℕ
march_days t = t.k * 146097 + t.s * 36524 + century_days t

pub year_over_4 : (t : March) → IsMarch t → march_year t / 4 ≡ t.k * 100 + t.s * 25 + t.u
year_over_4 t h = omega (arith, h.within)

pub year_over_100 : (t : March) → IsMarch t → march_year t / 100 ≡ t.k * 4 + t.s
year_over_100 t h = omega (arith, h.within, h.four)

pub year_over_400 : (t : March) → IsMarch t → march_year t / 400 ≡ t.k
year_over_400 t h = omega (arith, h.within, h.four, h.century)

pub find_century : (t : March) → IsMarch t → (march_days t * 4 + 3) / 146097 ≡ t.k * 4 + t.s
find_century t h = ground (arith, h.within, h.four, h.century, h.last)

pub rest_of_century :
    (t : March) → IsMarch t → (t.k * 4 + t.s) * 146097 / 4 ≡ t.k * 146097 + t.s * 36524
rest_of_century t h = omega (arith, h.century)

pub find_year : (t : March) → IsMarch t → (century_days t * 4 + 3) / 1461 ≡ t.u * 4 + t.v
find_year t h = ground (arith, h.within, h.four, h.century, h.last)

pub rest_of_year : (t : March) → IsMarch t → (t.u * 4 + t.v) * 1461 / 4 ≡ t.u * 1461 + t.v * 365
rest_of_year t h = omega (arith, h.within)
