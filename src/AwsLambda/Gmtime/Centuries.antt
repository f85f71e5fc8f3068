-- ===== src/AwsLambda/Gmtime/Centuries.antt =====
-- What `gmtime` guarantees: the right moment in every year but some centuries, and what it answers
-- in those.
use envoy_wasm_filters.Base.{
  ℕ, ◌+◌, ◌-◌, ◌*◌, ◌/◌, ◌%◌, ◌≤◌, ◌<◌, ◌≡◌, refl, ap, ◌≢◌, true, false, some, arith, pos, sym, ◌∙◌,
}
use envoy_wasm_filters.AwsLambda.Gmtime.{Tm, days_in_year, days_in_month, month_loop, gmtime}
use envoy_wasm_filters.AwsLambda.Gmtime.Calendar.{
  is_leap, year_start, month_start, timegm, IsMoment, is_leap-shift, month_start_ends,
  month_start-suc, month_start-true, month_start_early, days_in_year-is_leap,
}
use envoy_wasm_filters.AwsLambda.Gmtime.Loops.{month_loop_found, month_loop_past}
use envoy_wasm_filters.AwsLambda.Gmtime.Unique.{timegm_inj, year_of_day, timegm-days, IsMoment-day}
use envoy_wasm_filters.AwsLambda.Gmtime.Correct.{moment, gmtime-moment, found-IsMoment}

-- What `gmtime` returns for a time that is not negative is an existing moment of the Gregorian
-- calendar, and that moment is the time, provided that its year modulo 400 is neither 0 nor 300.
pub gmtime-IsMoment :
    (t : ℕ) (tm : Tm)
    → gmtime (some (pos t)) ≡ some tm
    → (1900 + tm.tm_year) % 400 ≢ 0
    → (1900 + tm.tm_year) % 400 ≢ 300
    → IsMoment tm × (timegm tm ≡ t)
gmtime-IsMoment t tm e h k =
    let (n, day, returns, from, within, total) = gmtime-moment t in
    let same : moment t n (month_loop 12 0 n day) ≡ tm = cc (e, returns) in
    let year : tm.tm_year ≡ n = ap Tm.tm_year (sym same) in
    let leap : is_leap (1900 + n) ≡ is_leap n = rw year at (is_leap-shift tm.tm_year h k) in
    rw same at (found-IsMoment t n day from within total leap)

-- The year that `gmtime` works with is the year of the day.
pub gmtime-year :
    (t y d : ℕ)
    → 70 ≤ y
    → d < days_in_year (1900 + y)
    → t / 60 / 60 / 24 ≡ year_start (1900 + y) + d
    → gmtime (some (pos t)) ≡ some (moment t y (month_loop 12 0 y d))
gmtime-year t y d from within total =
    let (n, day, returns, after, inside, sum) = gmtime-moment t in
    let year : 1900 + n ≡ 1900 + y =
      year_of_day (1900 + n) (1900 + y) day d (omega arith) (omega arith) inside within
        (sum ∙ total) in
    let same : n ≡ y = omega arith in
    let start = ap (λ (k : ℕ). year_start (1900 + k)) same in
    let rest : day ≡ d = omega arith in cc (returns, same, rest)

-- `gmtime` gives back every moment from its seconds since the epoch, if its year modulo 400 is
-- neither 0 nor 300.
pub gmtime-timegm :
    (tm : Tm)
    → IsMoment tm
    → (1900 + tm.tm_year) % 400 ≢ 0
    → (1900 + tm.tm_year) % 400 ≢ 300
    → gmtime (some (pos (timegm tm))) ≡ some tm
gmtime-timegm tm v h k =
    let y = tm.tm_year in
    let d = month_start (is_leap (1900 + y)) tm.tm_mon + (tm.tm_mday - 1) in
    let days = timegm-days tm v in
    let found =
      found-IsMoment (timegm tm) y d v.year_from (IsMoment-day tm v) (sym days)
        (is_leap-shift y h k) in
    gmtime-year (timegm tm) y d v.year_from (IsMoment-day tm v) days
    ∙ ap some (timegm_inj (moment (timegm tm) y (month_loop 12 0 y d)) tm found.0 v found.1)

-- The years divisible by 400 are leap years whose `tm_year` is not one.
leap_century : (y : ℕ) → (1900 + y) % 400 ≡ 0 → (is_leap (1900 + y) ≡ true) × (is_leap y ≡ false)
unfolding is_leap
leap_century y h = ground arith

module _ (y : ℕ) (century : (1900 + y) % 400 ≡ 0) (from : 70 ≤ y) where
  century_size : (days_in_year (1900 + y) ≡ 366) × (month_start (is_leap y) 12 ≡ 365)
  century_size =
      let leap = leap_century y century in
      (
        rw (days_in_year-is_leap (1900 + y), leap.0) refl,
        rw ((month_start_ends (is_leap y)).1, leap.1) refl,
      )

  -- The fields that the common table gives name the following day.
  day_late :
      (m d s : ℕ)
      → m < 12
      → d < days_in_month m y
      → month_start (is_leap y) m + d ≡ s / 86400
      → 59 * 86400 ≤ s
      → timegm (moment (year_start (1900 + y) * 86400 + s) y (m, d))
        ≡ year_start (1900 + y) * 86400 + s + 86400
  unfolding timegm
  day_late m d s lt within e lo =
      let leap = leap_century y century in
      let march : 2 ≤ m =
        month_start_early m d (rw (← leap.1) (omega arith))
          (rw (← leap.1) (omega (arith, month_start-suc m y lt))) in
      let ahead = month_start-true m march in
      let here : month_start (is_leap y) m ≡ month_start false m = rw leap.1 refl in
      let there : month_start (is_leap (1900 + y)) m ≡ month_start true m = rw leap.0 refl in
      omega arith

  -- In a year divisible by 400, from 1970 on, every time from February 29th to the day before the
  -- last is given the date of the following day.
  pub gmtime_day_late :
      (s : ℕ)
      → 59 * 86400 ≤ s
      → s < 365 * 86400
      → (tm : Tm) × (gmtime (some (pos (year_start (1900 + y) * 86400 + s))) ≡ some tm)
        × (timegm tm ≡ year_start (1900 + y) * 86400 + s + 86400)
  gmtime_day_late s lo hi =
      let t = year_start (1900 + y) * 86400 + s in
      let d = s / 86400 in
      let leap = leap_century y century in
      let zero_start = month_start_ends (is_leap y) in
      let size = century_size in
      let answer = gmtime-year t y d from (omega (arith, size.0)) (omega arith) in
      let found = month_loop_found 12 0 y d refl (omega (arith, zero_start.0, size.1)) in
      (
        moment t y (month_loop 12 0 y d),
        answer,
        day_late (month_loop 12 0 y d).0 (month_loop 12 0 y d).1 s found.0 found.2
            (omega (arith, found.1, zero_start.0)) lo,
      )

  -- On the last day of a year divisible by 400, from 1970 on, the month is 12 and the day 1, which
  -- is no moment of the calendar.
  pub gmtime_month_12 :
      (s : ℕ)
      → s < 86400
      → (tm : Tm) × (gmtime (some (pos ((year_start (1900 + y) + 365) * 86400 + s))) ≡ some tm)
        × (tm.tm_mon ≡ 12)
        × (tm.tm_mday ≡ 1)
        × ¬ (IsMoment tm)
  gmtime_month_12 s hi =
      let t = (year_start (1900 + y) + 365) * 86400 + s in
      let size = century_size in
      let zero_start = month_start_ends (is_leap y) in
      let answer = gmtime-year t y 365 from (omega (arith, size.0)) (omega arith) in
      let past = month_loop_past 12 0 y 365 refl (omega (arith, zero_start.0, size.1)) in
      (
        moment t y (month_loop 12 0 y 365),
        answer,
        past.0,
        omega (arith, past.1, size.1, zero_start.0),
        λ v. absurd (omega (arith, v.mon_in, past.0)),
      )
