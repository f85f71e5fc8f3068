-- ===== src/AwsLambda/Gmtime/Range.antt =====
-- The ranges of the fields that `gmtime` returns, in every year.
use envoy_wasm_filters.Base.{
  ℕ, zero, suc, ◌+◌, ◌-◌, ◌*◌, ◌/◌, ◌%◌, ◌≤◌, ◌<◌, ◌≡◌, refl, ap, ◌⊎◌, inl, inr, Bool, true, false,
  some, arith, ltb, leb, ltb→lt, pos, all_below, all_below_sound, Bool-cases, subst, ◌^◌, ◌≢◌, ◌∙◌,
}
use envoy_wasm_filters.AwsLambda.Gmtime.{Tm, days_in_year, days_in_month, month_loop, gmtime}
use envoy_wasm_filters.AwsLambda.Gmtime.Calendar.{
  is_leap, year_start, month_start, year_start-suc, month_length, days_in_month-month_length,
  month_start_ends,
}
use envoy_wasm_filters.AwsLambda.Gmtime.Loops.{days_in_year-ge, month_loop_found, month_loop_past}
use envoy_wasm_filters.AwsLambda.Gmtime.Correct.{moment, gmtime-moment}

-- The fields of `struct tm` in the ranges that C gives them, but for a month past December.
pub record IsInRange (tm : Tm) : Type 0 where
  pub sec_in : tm.tm_sec < 60
  pub min_in : tm.tm_min < 60
  pub hour_in : tm.tm_hour < 24
  pub mday_from : 1 ≤ tm.tm_mday
  pub mday_to : tm.tm_mday ≤ 31
  pub mon_in : (tm.tm_mon < 12) ⊎ ((tm.tm_mon ≡ 12) × (tm.tm_mday ≡ 1))
  pub year_from : 70 ≤ tm.tm_year

month_length_small : (leap : Bool) → all_below 12 (λ m. leb (month_length leap m) 31) ≡ true
month_length_small true = refl
month_length_small false = refl

days_in_month-le : (m y : ℕ) → m < 12 → days_in_month m y ≤ 31
days_in_month-le m y h =
    let small =
      all_below_sound 12 (λ k. leb (month_length (is_leap y) k) 31) m
        (month_length_small (is_leap y)) h in
    ground (arith, days_in_month-month_length m y, small)

-- Every year has 365 days at least.
year_start-ge : (k : ℕ) → 365 * k ≤ year_start (1970 + k)
year_start-ge zero = omega arith
year_start-ge (suc k) =
    let next : year_start (1970 + suc k) ≡ year_start (1970 + k + 1) =
      ap year_start (omega arith) in
    omega (
      arith,
      next,
      year_start-ge k,
      year_start-suc (1970 + k) (omega arith),
      days_in_year-ge (1970 + k),
    )

days_in_year-le : (y : ℕ) → days_in_year y ≤ 366
unfolding days_in_year
days_in_year-le y = ground arith

-- The month loop finds a day of a month, or, on the last day of a long year, the day after a short
-- one.
month_loop_in :
    (n day : ℕ)
    → day < 366
    → (((month_loop 12 0 n day).0 < 12) × ((month_loop 12 0 n day).1 < 31))
      ⊎ (((month_loop 12 0 n day).0 ≡ 12) × ((month_loop 12 0 n day).1 ≡ 0))
month_loop_in n day within =
    let ends = month_start_ends (is_leap n) in
    elim (Bool-cases (ltb day (month_start (is_leap n) 12))) [
      | inl early ↦
          let early_lt = ltb→lt day (month_start (is_leap n) 12) early in
          let (lt, total, inside) =
            month_loop_found 12 0 n day refl (omega (arith, ends.0, early_lt)) in
          inl (lt, omega (arith, inside, days_in_month-le (month_loop 12 0 n day).0 n lt))
      | inr late ↦
          let size : 365 ≤ month_start (is_leap n) 12 = ground (arith, ends.1) in
          let past : month_start (is_leap n) 12 ≤ day = ground (arith, late) in
          let (last, rest) = month_loop_past 12 0 n day refl (omega (arith, ends.0, past)) in
          inr (last, omega (arith, rest, size))
    ]

moment-IsInRange :
    (t n day : ℕ) → 70 ≤ n → day < 366 → IsInRange (moment t n (month_loop 12 0 n day))
moment-IsInRange t n day from within = record {
  sec_in = omega arith;
  min_in = omega arith;
  hour_in = omega arith;
  mday_from = omega arith;
  mday_to = ground (arith, month_loop_in n day within);
  mon_in = ground (arith, month_loop_in n day within);
  year_from = from;
}

-- In every year, the fields that `gmtime` returns are in their ranges, but that the month may be 12,
-- one past December, on a day 1. The year is at most 1970 and a year for each 365 days.
pub gmtime-IsInRange :
    (t : ℕ) (tm : Tm)
    → gmtime (some (pos t)) ≡ some tm
    → IsInRange tm × (365 * (tm.tm_year - 70) ≤ t / 86400)
gmtime-IsInRange t tm e =
    let (n, day, returns, from, within, total) = gmtime-moment t in
    let same : moment t n (month_loop 12 0 n day) ≡ tm = cc (e, returns) in
    let least : 365 * (n - 70) ≤ year_start (1900 + n) =
      subst (λ y. 365 * (n - 70) ≤ year_start y) (omega arith) (year_start-ge (n - 70)) in
    let size = days_in_year-le (1900 + n) in
    rw (← same)
      (moment-IsInRange t n day from (omega (arith, within, size)), omega (arith, total, least))

-- The day is in the year that is returned.
gmtime-year_start :
    (t : ℕ) (tm : Tm)
    → gmtime (some (pos t)) ≡ some tm
    → (year_start (1900 + tm.tm_year) ≤ t / 86400)
      × (t / 86400 < year_start (1900 + tm.tm_year) + 366)
gmtime-year_start t tm e =
    let (n, day, returns, from, within, total) = gmtime-moment t in
    let same : moment t n (month_loop 12 0 n day) ≡ tm = cc (e, returns) in
    let size = days_in_year-le (1900 + n) in
    rw (← same) (omega (arith, total), omega (arith, total, within, size))

-- The calendar's only long century in the range of 32 bits.
pub gmtime-not_2000 :
    (t : ℕ) (tm : Tm)
    → t < 2 ^ 31
    → (t < 946684800) ⊎ (978307200 ≤ t)
    → gmtime (some (pos t)) ≡ some tm
    → ((1900 + tm.tm_year) % 400 ≢ 0) × ((1900 + tm.tm_year) % 400 ≢ 300)
gmtime-not_2000 t tm small outside e =
    let (range, years) = gmtime-IsInRange t tm e in
    let (first, last) = gmtime-year_start t tm e in
    let bounded : tm.tm_year ≤ 138 = omega (arith, years) in
    let from = range.year_from in
    (
      λ h.
          let century : 1900 + tm.tm_year ≡ 2000 = omega (arith, bounded, from, h) in
          let start : year_start (1900 + tm.tm_year) ≡ 10957 =
            ap year_start century ∙ year_start_2000 in
          ground (arith, outside, start, first, last),
      λ h. omega (arith, bounded, from, h),
    )
  where
    year_start_2000 : year_start 2000 ≡ 10957
    year_start_2000 = unfold year_start in refl
