-- ===== src/AwsLambda/Gmtime.antt =====
-- extensions/aws_lambda/gmtime.cc. A `time_t` is an integer; NULL is `none`. On wasm32 `long` and
-- `int` have 32 bits each, so the conversions into the fields of `struct tm` keep every value.
pub mod Calendar
pub mod Loops
pub mod Unique
pub mod Correct
pub mod Centuries
pub mod Range
pub mod Injective
pub mod Tests
use envoy_wasm_filters.Base.{
  ℕ, zero, suc, ◌+◌, ◌-◌, ◌*◌, ◌/◌, ◌%◌, ◌≡◌, ◌≢◌, Bool, true, false, Option, none, some, List, [],
  ◌∷◌, ℤ, pos, negsuc, ltb, leb, ◌==◌, if◌then◌else◌, get_or,
}

-- The fields of `struct tm` that `gmtime` sets; `memset` leaves the others 0.
pub record Tm : Type 0 where
  pub tm_sec : ℕ
  pub tm_min : ℕ
  pub tm_hour : ℕ
  pub tm_mday : ℕ
  pub tm_mon : ℕ
  pub tm_year : ℕ

unfoldable pub days_in_year : ℕ → ℕ
days_in_year year =
    if year % 4 == 0
    then (if year % 400 == 0 then 366 else if year % 100 == 0 then 365 else 366)
    else 365

abbrev month_table : List ℕ
month_table = 31 ∷ 28 ∷ 31 ∷ 30 ∷ 31 ∷ 30 ∷ 31 ∷ 31 ∷ 30 ∷ 31 ∷ 30 ∷ 31 ∷ []

-- Only called with a month below 12, so the read is in the table.
unfoldable pub days_in_month : ℕ → ℕ → ℕ
days_in_month month year =
    let days_in_this_month = get_or month_table month 0 in
    if month == 1
    then (if days_in_year year == 366 then days_in_this_month + 1 else days_in_this_month)
    else days_in_this_month

-- `for (year = 1970; deltat >= daysInYear(year); year++)`; `none` means that the fuel ran out.
unfoldable pub year_loop : ℕ → ℕ → ℕ → Option (ℕ × ℕ)
year_loop zero year deltat = none
year_loop (suc fuel) year deltat =
    let rest = year_loop fuel (year + 1) (deltat - days_in_year year) in
    if leb (days_in_year year) deltat then rest else some (year, deltat)

-- `for (month = 0; month < 12; month++)` with 12 - month rounds left.
unfoldable pub month_loop : ℕ → ℕ → ℕ → ℕ → ℕ × ℕ
month_loop zero month year deltat = (month, deltat)
month_loop (suc left) month year deltat =
    let rest = month_loop left (month + 1) year (deltat - days_in_month month year) in
    if ltb deltat (days_in_month month year) then (month, deltat) else rest

-- What follows the year loop: the month is searched with `tm_year`, the year less 1900.
unfoldable pub fill_date : ℕ → ℕ → ℕ → ℕ × ℕ → Tm
fill_date sec minute hour (year, deltat) =
    let (month, day) = month_loop 12 0 (year - 1900) deltat in
    record {
      tm_sec = sec;
      tm_min = minute;
      tm_hour = hour;
      tm_mday = day + 1;
      tm_mon = month;
      tm_year = year - 1900;
    }

unfoldable pub map_tm : (ℕ × ℕ → Tm) → Option (ℕ × ℕ) → Option Tm
map_tm f none = none
map_tm f (some p) = some (f p)

-- A year has at least one day, so the days and one more are enough fuel.
unfoldable pub gmtime : Option ℤ → Option Tm
unfolding map_tm
gmtime none = none
gmtime (some (negsuc n)) = none
gmtime (some (pos timer)) =
    let days = timer / 60 / 60 / 24 in
    map_tm (fill_date (timer % 60) (timer / 60 % 60) (timer / 60 / 60 % 24))
      (year_loop (days + 1) 1970 days)
