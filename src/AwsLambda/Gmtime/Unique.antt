-- ===== src/AwsLambda/Gmtime/Unique.antt =====
-- A day belongs to one year and to one month of it.
use native.Mathlib.Numerals.{add-one}
use envoy_wasm_filters.Base.{ℕ, zero, suc, ◌+◌, ◌-◌, ◌/◌, ◌≤◌, ◌<◌, ◌≡◌, refl, ap, arith}
use envoy_wasm_filters.AwsLambda.Gmtime.{Tm, days_in_year, days_in_month}
use envoy_wasm_filters.AwsLambda.Gmtime.Calendar.{
  is_leap, year_start, month_start, timegm, IsMoment, year_start-suc, month_start-suc,
  month_start_ends, days_in_year-is_leap,
}

year_start_mono : (k y : ℕ) → 1970 ≤ y → year_start y + days_in_year y ≤ year_start (y + 1 + k)
year_start_mono zero y a =
    let same : y + 1 + 0 ≡ y + 1 = omega arith in rw same (omega (arith, year_start-suc y a))
year_start_mono (suc k) y a =
    let same : y + 1 + suc k ≡ y + 1 + k + 1 = omega arith in
    rw same (omega (arith, year_start_mono k y a, year_start-suc (y + 1 + k) (omega arith)))

-- A day of an earlier year comes earlier.
year_start-lt :
    (y z d e : ℕ) → 1970 ≤ y → y < z → d < days_in_year y → year_start y + d < year_start z + e
year_start-lt y z d e a lt within =
    let same : y + 1 + (z - y - 1) ≡ z = omega arith in
    let grows : year_start y + days_in_year y ≤ year_start z =
      rw same at (year_start_mono (z - y - 1) y a) in
    omega arith

pub year_of_day :
    (y z d e : ℕ)
    → 1970 ≤ y
    → 1970 ≤ z
    → d < days_in_year y
    → e < days_in_year z
    → year_start y + d ≡ year_start z + e
    → y ≡ z
year_of_day y z d e a b p q same = ground (arith, year_start-lt y z d e a, year_start-lt z y e d b)

month_start_mono :
    (k m y : ℕ)
    → m + 1 + k < 13
    → month_start (is_leap y) m + days_in_month m y ≤ month_start (is_leap y) (m + 1 + k)
month_start_mono zero m y h =
    let same : m + 1 + 0 ≡ m + 1 = omega arith in
    rw same (omega (arith, month_start-suc m y (omega arith)))
month_start_mono (suc k) m y h =
    let same : m + 1 + suc k ≡ m + 1 + k + 1 = omega arith in
    rw same (
      omega
        (arith, month_start_mono k m y (omega arith), month_start-suc (m + 1 + k) y (omega arith)))

month_start-lt :
    (m n y d e : ℕ)
    → n < 12
    → m < n
    → d < days_in_month m y
    → month_start (is_leap y) m + d < month_start (is_leap y) n + e
month_start-lt m n y d e h lt within =
    let same : m + 1 + (n - m - 1) ≡ n = omega arith in
    let grows : month_start (is_leap y) m + days_in_month m y ≤ month_start (is_leap y) n =
      rw same at (month_start_mono (n - m - 1) m y (omega arith)) in
    omega arith

pub month_of_day :
    (m n y d e : ℕ)
    → m < 12
    → n < 12
    → d < days_in_month m y
    → e < days_in_month n y
    → month_start (is_leap y) m + d ≡ month_start (is_leap y) n + e
    → m ≡ n
month_of_day m n y d e hm hn p q same =
    ground (arith, month_start-lt m n y d e hn, month_start-lt n m y e d hm)

-- The day of the year of a moment lies in the year.
pub IsMoment-day :
    (tm : Tm)
    → IsMoment tm
    → month_start (is_leap (1900 + tm.tm_year)) tm.tm_mon + (tm.tm_mday - 1)
      < days_in_year (1900 + tm.tm_year)
IsMoment-day tm v =
    let y = 1900 + tm.tm_year in
    let ends = month_start_ends (is_leap y) in
    let size : days_in_year y ≡ month_start (is_leap y) 12 =
      rw (ends.1, days_in_year-is_leap y) refl in
    let last : tm.tm_mday - 1 < days_in_month tm.tm_mon y = omega (
      arith,
      month_start-suc tm.tm_mon y v.mon_in,
      rw (← add-one tm.tm_mon) at v.mday_to,
      v.mday_from,
    ) in
    ground (
      arith,
      month_start-suc tm.tm_mon y v.mon_in,
      month_start-lt tm.tm_mon 12 y (tm.tm_mday - 1) 0,
      month_start_mono (11 - tm.tm_mon) tm.tm_mon y,
      v.mon_in,
    )

-- The last day of a month, as a bound on the day.
IsMoment-mday :
    (tm : Tm) → IsMoment tm → tm.tm_mday - 1 < days_in_month tm.tm_mon (1900 + tm.tm_year)
IsMoment-mday tm v = omega (
  arith,
  month_start-suc tm.tm_mon (1900 + tm.tm_year) v.mon_in,
  rw (← add-one tm.tm_mon) at v.mday_to,
  v.mday_from,
)

-- The year and the month of a moment are determined by its second.
timegm-year : (a b : Tm) → IsMoment a → IsMoment b → timegm a ≡ timegm b → a.tm_year ≡ b.tm_year
unfolding timegm
timegm-year a b va vb same = omega (
  arith,
  year_of_day (1900 + a.tm_year) (1900 + b.tm_year)
      (month_start (is_leap (1900 + a.tm_year)) a.tm_mon + (a.tm_mday - 1))
      (month_start (is_leap (1900 + b.tm_year)) b.tm_mon + (b.tm_mday - 1)) (omega arith)
      (omega arith) (IsMoment-day a va) (IsMoment-day b vb) (omega arith),
)

timegm-month :
    (a b : Tm)
    → IsMoment a
    → IsMoment b
    → timegm a ≡ timegm b
    → a.tm_year ≡ b.tm_year
    → a.tm_mon ≡ b.tm_mon
unfolding timegm
timegm-month a b va vb same year =
    let z = 1900 + b.tm_year in
    let last : a.tm_mday - 1 < days_in_month a.tm_mon z = rw (← year) (IsMoment-mday a va) in
    let leap = ap (λ (t : ℕ). month_start (is_leap (1900 + t)) a.tm_mon) year in
    let start = ap (λ (t : ℕ). year_start (1900 + t)) year in
    month_of_day a.tm_mon b.tm_mon z (a.tm_mday - 1) (b.tm_mday - 1) va.mon_in vb.mon_in last
      (IsMoment-mday b vb) (omega arith)

-- Two moments with the same second are equal.
pub timegm_inj : (a b : Tm) → IsMoment a → IsMoment b → timegm a ≡ timegm b → a ≡ b
unfolding timegm
timegm_inj a b va vb same =
    let year = timegm-year a b va vb same in
    let month = timegm-month a b va vb same year in
    let start = ap (λ (t : ℕ). year_start (1900 + t)) year in
    let leap = ap (λ (t : ℕ). month_start (is_leap (1900 + t)) a.tm_mon) year in
    let length = ap (λ (m : ℕ). month_start (is_leap (1900 + b.tm_year)) m) month in ground arith

-- The day count of a moment.
pub timegm-days :
    (tm : Tm)
    → IsMoment tm
    → timegm tm / 60 / 60 / 24
      ≡ year_start (1900 + tm.tm_year)
        + (month_start (is_leap (1900 + tm.tm_year)) tm.tm_mon + (tm.tm_mday - 1))
unfolding timegm
timegm-days tm v = omega arith
