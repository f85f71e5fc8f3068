-- ===== src/AwsLambda/Gmtime/Correct.antt =====
-- `gmtime` against the calendar, where `tm_year` and the year are leap together.
use envoy_wasm_filters.Base.{
  ℕ, ◌+◌, ◌-◌, ◌/◌, ◌%◌, ◌≤◌, ◌<◌, ◌≡◌, refl, ◌⊎◌, inl, inr, ◌↔◌, Option, none, some, arith, ℤ, pos,
  negsuc,
}
use native.Mathlib.Numerals.{add-one}
use envoy_wasm_filters.AwsLambda.Gmtime.{
  Tm, days_in_year, days_in_month, year_loop, month_loop, fill_date, map_tm, gmtime,
}
use envoy_wasm_filters.AwsLambda.Gmtime.Calendar.{
  is_leap, year_start, month_start, timegm, IsMoment, month_start-suc, month_start_ends,
  days_in_year-is_leap,
}
use envoy_wasm_filters.AwsLambda.Gmtime.Loops.{IsYearDay, year_loop-IsYearDay, month_loop_found}

-- The year and the day of it that `gmtime` works with, and its answer in these terms.
pub record Answer (t : ℕ) (r : Option Tm) : Type 0 where
  pub year : ℕ
  pub day : ℕ
  pub returns : r ≡ some (fill_date (t % 60) (t / 60 % 60) (t / 60 / 60 % 24) (year, day))
  pub within : day < days_in_year year
  pub after : 1970 ≤ year
  pub total : year_start year + day ≡ t / 60 / 60 / 24

year_start_epoch : year_start 1970 ≡ 0
unfolding year_start
year_start_epoch = refl

gmtime-Answer : (t : ℕ) → Answer t (gmtime (some (pos t)))
unfolding gmtime map_tm
gmtime-Answer t =
    let d : IsYearDay (year_start 1970 + t / 60 / 60 / 24)
        (year_loop (t / 60 / 60 / 24 + 1) 1970 (t / 60 / 60 / 24)) =
      year_loop-IsYearDay (t / 60 / 60 / 24 + 1) 1970 (t / 60 / 60 / 24) (omega arith)
        (omega arith) in
    record {
      year = d.year;
      day = d.day;
      returns = rw d.returns refl;
      within = d.within;
      after = d.after;
      total = omega (arith, year_start_epoch, d.total);
    }

-- `gmtime` answers NULL exactly for a null pointer and for a negative time.
pub gmtime-none_iff :
    (timer : Option ℤ)
    → (gmtime timer ≡ none) ↔ ((timer ≡ none) ⊎ ((n : ℕ) × (timer ≡ some (negsuc n))))
gmtime-none_iff none = (λ _. inl refl, λ _. unfold gmtime in refl)
gmtime-none_iff (some (negsuc n)) = (λ _. inr (n, refl), λ _. unfold gmtime in refl)
gmtime-none_iff (some (pos t)) = (λ e. cc (e, (gmtime-Answer t).returns), λ h. grind arith)

-- The fields for second `t`, year 1900 + n, and month and day as found.
abbrev pub moment : (t n : ℕ) → ℕ × ℕ → Tm
moment t n (m, d) = record {
  tm_sec = t % 60;
  tm_min = t / 60 % 60;
  tm_hour = t / 60 / 60 % 24;
  tm_mday = d + 1;
  tm_mon = m;
  tm_year = n;
}

fill_date-moment :
    (t n day : ℕ)
    → fill_date (t % 60) (t / 60 % 60) (t / 60 / 60 % 24) (1900 + n, day)
      ≡ moment t n (month_loop 12 0 n day)
unfolding fill_date
fill_date-moment t n day = let less : 1900 + n - 1900 ≡ n = omega arith in rw less

-- With the day of the year split in the right table, the fields name second `t`.
moment-IsMoment :
    (t n m d : ℕ)
    → 70 ≤ n
    → m < 12
    → d < days_in_month m (1900 + n)
    → year_start (1900 + n) + (month_start (is_leap (1900 + n)) m + d) ≡ t / 60 / 60 / 24
    → IsMoment (moment t n (m, d)) × (timegm (moment t n (m, d)) ≡ t)
unfolding timegm
moment-IsMoment t n m d from lt dlt e =
    let next = month_start-suc m (1900 + n) lt in
    (
      record {
        sec_in = omega arith;
        min_in = omega arith;
        hour_in = omega arith;
        mon_in = lt;
        mday_from = omega arith;
        mday_to = rw (← add-one m) (omega arith);
        year_from = from;
      },
      omega arith,
    )

days_in_month-leap : (m a b : ℕ) → is_leap a ≡ is_leap b → days_in_month m a ≡ days_in_month m b
unfolding days_in_month
days_in_month-leap m a b e =
    let same : days_in_year a ≡ days_in_year b =
      rw (days_in_year-is_leap a, days_in_year-is_leap b, e) refl in
    rw same refl

pub found-IsMoment :
    (t n day : ℕ)
    → 70 ≤ n
    → day < days_in_year (1900 + n)
    → year_start (1900 + n) + day ≡ t / 60 / 60 / 24
    → is_leap (1900 + n) ≡ is_leap n
    → IsMoment (moment t n (month_loop 12 0 n day))
      × (timegm (moment t n (month_loop 12 0 n day)) ≡ t)
found-IsMoment t n day from within total leap =
    let ends = month_start_ends (is_leap n) in
    let size : days_in_year (1900 + n) ≡ month_start (is_leap n) 12 =
      rw (ends.1, days_in_year-is_leap (1900 + n), leap) refl in
    let found = month_loop_found 12 0 n day refl (omega arith) in
    moment-IsMoment t n (month_loop 12 0 n day).0 (month_loop 12 0 n day).1 from found.0
      (rw (days_in_month-leap (month_loop 12 0 n day).0 (1900 + n) n leap) found.2)
      (rw leap (omega arith))

-- The answer with its year counted from 1900.
pub gmtime-moment :
    (t : ℕ)
    → (n day : ℕ) × (gmtime (some (pos t)) ≡ some (moment t n (month_loop 12 0 n day)))
      × (70 ≤ n)
      × (day < days_in_year (1900 + n))
      × (year_start (1900 + n) + day ≡ t / 60 / 60 / 24)
gmtime-moment t =
    let a = gmtime-Answer t in
    let year : 1900 + (a.year - 1900) ≡ a.year = omega (arith, a.after) in
    (
      a.year - 1900,
      a.day,
      rw (← fill_date-moment t (a.year - 1900) a.day, year) a.returns,
      omega (arith, a.after),
      rw year a.within,
      rw year a.total,
    )
