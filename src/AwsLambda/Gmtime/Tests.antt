-- ===== src/AwsLambda/Gmtime/Tests.antt =====
-- Runs of `gmtime`, and the theorems on it at concrete inputs.
use envoy_wasm_filters.Base.{ℕ, ◌+◌, ◌*◌, ◌≡◌, ◌≢◌, refl, ◌↔◌, ◌⊎◌, none, some, arith, pos, negsuc}
use envoy_wasm_filters.AwsLambda.Gmtime.{
  Tm, days_in_year, days_in_month, year_loop, month_loop, fill_date, map_tm, gmtime,
}
use envoy_wasm_filters.AwsLambda.Gmtime.Calendar.{
  is_leap, year_start, month_start, timegm, IsMoment,
}
use envoy_wasm_filters.AwsLambda.Gmtime.Correct.{gmtime-none_iff}
use envoy_wasm_filters.AwsLambda.Gmtime.Centuries.{
  gmtime-IsMoment, gmtime-timegm, gmtime_day_late, gmtime_month_12,
}
use envoy_wasm_filters.AwsLambda.Gmtime.Range.{IsInRange, gmtime-IsInRange}
use envoy_wasm_filters.AwsLambda.Gmtime.Injective.{gmtime_injective}
use envoy_wasm_filters.Base.{◌-◌, ◌/◌, ◌≤◌}

gmtime_parts : Unit {0}
unfolding gmtime map_tm year_loop days_in_year fill_date month_loop days_in_month is_leap year_start
    month_start timegm
gmtime_parts = tt

-- 2020-01-01T00:00:00Z.
abbrev pub new_year : Tm
new_year = record { tm_sec = 0; tm_min = 0; tm_hour = 0; tm_mday = 1; tm_mon = 0; tm_year = 120 }

gmtime_runs :
    (gmtime (some (pos 1577836800)) ≡ some new_year)
    × (gmtime (some (pos 951782400))
        ≡ some (record {
          tm_sec = 0;
          tm_min = 0;
          tm_hour = 0;
          tm_mday = 1;
          tm_mon = 2;
          tm_year = 100;
        }))
unfolding gmtime_parts
gmtime_runs = (refl, refl)

new_year-IsMoment : IsMoment new_year
unfolding gmtime_parts
new_year-IsMoment = omega arith

gmtime-IsMoment_example : IsMoment new_year × (timegm new_year ≡ 1577836800)
gmtime-IsMoment_example =
    gmtime-IsMoment 1577836800 new_year gmtime_runs.0 (omega arith) (omega arith)

gmtime-timegm_example : gmtime (some (pos (timegm new_year))) ≡ some new_year
gmtime-timegm_example = gmtime-timegm new_year new_year-IsMoment (omega arith) (omega arith)

gmtime_day_late_example :
    (tm : Tm) × (gmtime (some (pos (year_start 2000 * 86400 + 5097600))) ≡ some tm)
    × (timegm tm ≡ year_start 2000 * 86400 + 5097600 + 86400)
gmtime_day_late_example =
    gmtime_day_late 100 (omega arith) (omega arith) 5097600 (omega arith) (omega arith)

gmtime_month_12_example :
    (tm : Tm) × (gmtime (some (pos ((year_start 2000 + 365) * 86400 + 5))) ≡ some tm)
    × (tm.tm_mon ≡ 12)
    × (tm.tm_mday ≡ 1)
    × ¬ (IsMoment tm)
gmtime_month_12_example = gmtime_month_12 100 (omega arith) (omega arith) 5 (omega arith)

gmtime-none_iff_example :
    (gmtime (some (negsuc 3)) ≡ none)
    ↔ ((some (negsuc 3) ≡ none) ⊎ ((n : ℕ) × (some (negsuc 3) ≡ some (negsuc n))))
gmtime-none_iff_example = gmtime-none_iff (some (negsuc 3))

-- The last day of 2000, on which the month is past December.
abbrev last_of_2000 : Tm
last_of_2000 = record {
  tm_sec = 0;
  tm_min = 0;
  tm_hour = 0;
  tm_mday = 1;
  tm_mon = 12;
  tm_year = 100;
}

last_of_2000_run : gmtime (some (pos 978220800)) ≡ some last_of_2000
unfolding gmtime map_tm year_loop days_in_year fill_date month_loop days_in_month
last_of_2000_run = refl

gmtime-IsInRange_example :
    IsInRange last_of_2000 × (365 * (last_of_2000.tm_year - 70) ≤ 978220800 / 86400)
gmtime-IsInRange_example = gmtime-IsInRange 978220800 last_of_2000 last_of_2000_run

-- Noon of February 29th, 2000, and of the day after it.
gmtime_injective_example : gmtime (some (pos 951825600)) ≢ gmtime (some (pos 951912000))
gmtime_injective_example = gmtime_injective 951825600 951912000 (λ e. omega (arith, e))
