-- ===== src/AwsLambda/Gmtime/Calendar.antt =====
-- The Gregorian calendar from 1970, stated without the loops of gmtime.cc.
use envoy_wasm_filters.Base.{
  ℕ, zero, suc, ◌+◌, ◌-◌, ◌*◌, ◌/◌, ◌%◌, ◌≤◌, ◌<◌, ◌≡◌, refl, ◌≢◌, Bool, true, false, not, ◌&&◌,
  ◌||◌, List, [], ◌∷◌, arith, leb, ◌==◌, if◌then◌else◌, get_or, all_below, all_below_sound, ==_iff,
}
use native.Mathlib.Numerals.{add-one}
use envoy_wasm_filters.AwsLambda.Gmtime.{month_table, Tm, days_in_year, days_in_month}

unfoldable pub is_leap : ℕ → Bool
is_leap y = (y % 4 == 0) && (not (y % 100 == 0) || (y % 400 == 0))

-- The number of days from 1970-01-01 to January 1st of a year from 1970 on: 477 of the years before
-- 1970 were leap years.
unfoldable pub year_start : ℕ → ℕ
year_start y = 365 * (y - 1970) + (y - 1) / 4 - (y - 1) / 100 + (y - 1) / 400 - 477

-- The number of days of the year before its month `m` (0 is January; 12 gives the whole year).
abbrev common_starts : List ℕ
common_starts = 0 ∷ 31 ∷ 59 ∷ 90 ∷ 120 ∷ 151 ∷ 181 ∷ 212 ∷ 243 ∷ 273 ∷ 304 ∷ 334 ∷ 365 ∷ []

unfoldable pub month_start : Bool → ℕ → ℕ
month_start leap m = get_or common_starts m 365 + (if leap && leb 2 m then 1 else 0)

-- The seconds from the epoch to the moment that the fields name.
unfoldable pub timegm : Tm → ℕ
timegm tm =
    let year = 1900 + tm.tm_year in
    let days = year_start year + month_start (is_leap year) tm.tm_mon + (tm.tm_mday - 1) in
    ((days * 24 + tm.tm_hour) * 60 + tm.tm_min) * 60 + tm.tm_sec

-- A moment of an existing day, from 1970 on.
pub record IsMoment (tm : Tm) : Type 0 where
  pub sec_in : tm.tm_sec < 60
  pub min_in : tm.tm_min < 60
  pub hour_in : tm.tm_hour < 24
  pub mon_in : tm.tm_mon < 12
  pub mday_from : 1 ≤ tm.tm_mday
  pub mday_to :
      month_start (is_leap (1900 + tm.tm_year)) tm.tm_mon + tm.tm_mday
      ≤ month_start (is_leap (1900 + tm.tm_year)) (suc tm.tm_mon)
  pub year_from : 70 ≤ tm.tm_year

pub days_in_year-is_leap : (y : ℕ) → days_in_year y ≡ (if is_leap y then 366 else 365)
unfolding days_in_year is_leap
days_in_year-is_leap y = ground arith

-- A year later is the year's days later.
pub year_start-suc : (y : ℕ) → 1970 ≤ y → year_start (y + 1) ≡ year_start y + days_in_year y
unfolding days_in_year year_start
year_start-suc y h = ground arith

-- The length of a month, by the differences of the month starts.
abbrev pub month_length : Bool → ℕ → ℕ
month_length leap m = get_or month_table m 0 + (if leap && (m == 1) then 1 else 0)

pub days_in_month-month_length : (m y : ℕ) → days_in_month m y ≡ month_length (is_leap y) m
unfolding days_in_month
days_in_month-month_length m y = ground (arith, days_in_year-is_leap y)

month_length_table :
    (leap : Bool) (m : ℕ)
    → m < 12
    → (month_start leap (suc m) == month_start leap m + month_length leap m) ≡ true
unfolding month_start
month_length_table true m h =
    all_below_sound 12 (λ n. month_start true (suc n) == month_start true n + month_length true n) m
      refl h
month_length_table false m h =
    all_below_sound 12
      (λ n. month_start false (suc n) == month_start false n + month_length false n) m refl h

-- The table of gmtime.cc lists the differences of the month starts.
pub month_start-suc :
    (m y : ℕ)
    → m < 12
    → month_start (is_leap y) (m + 1) ≡ month_start (is_leap y) m + days_in_month m y
month_start-suc m y h =
    rw (days_in_month-month_length m y, add-one m)
      ((==_iff _ _).0 (month_length_table (is_leap y) m h))

-- Years that differ by 1900 are leap together, but for every fourth century.
pub is_leap-shift :
    (y : ℕ) → (1900 + y) % 400 ≢ 0 → (1900 + y) % 400 ≢ 300 → is_leap (1900 + y) ≡ is_leap y
unfolding is_leap
is_leap-shift y h k = ground arith

pub month_start_ends :
    (leap : Bool) → (month_start leap 0 ≡ 0) × (month_start leap 12 ≡ (if leap then 366 else 365))
unfolding month_start
month_start_ends true = (refl, refl)
month_start_ends false = (refl, refl)

-- From March on, a leap year is a day ahead of a common year.
pub month_start-true : (m : ℕ) → 2 ≤ m → month_start true m ≡ month_start false m + 1
unfolding month_start
month_start-true m h = ground arith

pub month_start_early :
    (m d : ℕ)
    → 59 ≤ month_start false m + d
    → month_start false m + d < month_start false (m + 1)
    → 2 ≤ m
unfolding month_start
month_start_early zero d h k = absurd (omega arith)
month_start_early (suc zero) d h k = absurd (omega arith)
month_start_early (suc (suc m)) d h k = omega arith

-- With 29 days in February, March starts after 60.
march_table : all_below 12 (λ m. leb m 1 || leb 60 (month_start true m)) ≡ true
unfolding month_start
march_table = refl

pub month_start_late :
    (m d : ℕ)
    → m < 12
    → 60 ≤ month_start true m + d
    → month_start true m + d < month_start true (m + 1)
    → 2 ≤ m
unfolding month_start
month_start_late zero d h k l = absurd (omega arith)
month_start_late (suc zero) d h k l = absurd (omega arith)
month_start_late (suc (suc m)) d h k l = omega arith

-- The sixtieth day of a year with 29 days in February.
pub month_start_leap_day :
    (m d : ℕ) → m < 12 → month_start true m + d ≡ 59 → d < month_length true m → (m ≡ 1) × (d ≡ 28)
unfolding month_start
month_start_leap_day zero d h k l = absurd (omega arith)
month_start_leap_day (suc zero) d h k l = omega arith
month_start_leap_day (suc (suc m)) d h k l =
    let late : (leb (suc (suc m)) 1 || leb 60 (month_start true (suc (suc m)))) ≡ true =
      all_below_sound 12 (λ n. leb n 1 || leb 60 (month_start true n)) (suc (suc m)) march_table
        h in
    absurd (ground arith)

pub month_length_ends :
    (m : ℕ) → m < 12 → month_start true (m + 1) ≡ month_start true m + month_length true m
month_length_ends m h = rw (add-one m) ((==_iff _ _).0 (month_length_table true m h))
