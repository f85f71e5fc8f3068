-- ===== src/AwsLambda/Gmtime/Loops.antt =====
-- What the two loops of `gmtime` compute.
use envoy_wasm_filters.Base.{ℕ, zero, suc, ◌+◌, ◌-◌, ◌≤◌, ◌<◌, ◌≡◌, ap, Option, some, arith}
use envoy_wasm_filters.AwsLambda.Gmtime.{days_in_year, days_in_month, year_loop, month_loop}
use envoy_wasm_filters.AwsLambda.Gmtime.Calendar.{
  is_leap, year_start, month_start, year_start-suc, month_start-suc,
}

pub days_in_year-ge : (y : ℕ) → 365 ≤ days_in_year y
unfolding days_in_year
days_in_year-ge y = ground arith

-- A year and a day of it, found from a day count.
pub record IsYearDay (start : ℕ) (r : Option (ℕ × ℕ)) : Type 0 where
  pub year : ℕ
  pub day : ℕ
  pub returns : r ≡ some (year, day)
  pub within : day < days_in_year year
  pub after : 1970 ≤ year
  pub total : year_start year + day ≡ start

-- With more fuel than days the year loop ends, in the year that holds the day.
pub year_loop-IsYearDay :
    (fuel year deltat : ℕ)
    → deltat < fuel
    → 1970 ≤ year
    → IsYearDay (year_start year + deltat) (year_loop fuel year deltat)
unfolding year_loop
year_loop-IsYearDay zero year deltat h a = absurd (omega arith)
year_loop-IsYearDay (suc fuel) year deltat h a = ground (
  arith,
  year_start-suc year,
  days_in_year-ge year,
  year_loop-IsYearDay fuel (year + 1) (deltat - days_in_year year),
)

-- The month loop, started at month `m` with what is left of the day of the year.
pub month_loop_found :
    (left m y d : ℕ)
    → m + left ≡ 12
    → month_start (is_leap y) m + d < month_start (is_leap y) 12
    → (month_loop left m y d).0 < 12
      × (month_start (is_leap y) (month_loop left m y d).0 + (month_loop left m y d).1
          ≡ month_start (is_leap y) m + d)
      × ((month_loop left m y d).1 < days_in_month (month_loop left m y d).0 y)
unfolding month_loop
month_loop_found zero m y d e h =
    let last : m ≡ 12 = omega arith in absurd (omega (arith, ap (month_start (is_leap y)) last))
month_loop_found (suc left) m y d e h =
    ground (arith, month_start-suc m y, month_loop_found left (m + 1) y (d - days_in_month m y))

-- The year is not over before its last month is.
month_start_mono :
    (y m left : ℕ) → m + left ≡ 12 → month_start (is_leap y) m ≤ month_start (is_leap y) 12
month_start_mono y m zero e =
    let last : m ≡ 12 = omega arith in omega (arith, ap (month_start (is_leap y)) last)
month_start_mono y m (suc left) e =
    omega (arith, month_start-suc m y (omega arith), month_start_mono y (m + 1) left (omega arith))

-- A day count of the whole year or more runs off the table.
pub month_loop_past :
    (left m y d : ℕ)
    → m + left ≡ 12
    → month_start (is_leap y) 12 ≤ month_start (is_leap y) m + d
    → (month_loop left m y d).0 ≡ 12
      × ((month_loop left m y d).1 + month_start (is_leap y) 12 ≡ month_start (is_leap y) m + d)
unfolding month_loop
month_loop_past zero m y d e h =
    let last : m ≡ 12 = omega arith in (last, omega (arith, ap (month_start (is_leap y)) last))
month_loop_past (suc left) m y d e h = ground (
  arith,
  month_start-suc m y,
  month_start_mono y (m + 1) left,
  month_loop_past left (m + 1) y (d - days_in_month m y),
)
