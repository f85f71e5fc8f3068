-- ===== src/AwsLambda/Gmtime/Injective.antt =====
-- The fields of different times are different, in the years too whose dates are wrong.
use envoy_wasm_filters.Base.{
  ℕ, ◌+◌, ◌-◌, ◌*◌, ◌≤◌, ◌≡◌, ◌≢◌, refl, sym, ap, ◌∙◌, inl, inr, some, arith, ltb, ltb→lt, pos,
  Bool-cases,
}
use envoy_wasm_filters.AwsLambda.Gmtime.{Tm, month_loop, gmtime}
use envoy_wasm_filters.AwsLambda.Gmtime.Calendar.{
  is_leap, year_start, month_start, month_start_ends,
}
use envoy_wasm_filters.AwsLambda.Gmtime.Loops.{month_loop_found, month_loop_past}
use envoy_wasm_filters.AwsLambda.Gmtime.Correct.{moment, gmtime-moment}

-- The month loop only moves days into months, of a year that is long where `tm_year` is.
month_loop_total :
    (n day : ℕ)
    → month_start (is_leap n) (month_loop 12 0 n day).0 + (month_loop 12 0 n day).1 ≡ day
month_loop_total n day =
    let ends = month_start_ends (is_leap n) in
    elim (Bool-cases (ltb day (month_start (is_leap n) 12))) [
      | inl early ↦
          let early_lt = ltb→lt day (month_start (is_leap n) 12) early in
          let (lt, total, inside) =
            month_loop_found 12 0 n day refl (omega (arith, ends.0, early_lt)) in
          omega (arith, total, ends.0)
      | inr late ↦
          let past : month_start (is_leap n) 12 ≤ day = ground (arith, late) in
          let (last, rest) = month_loop_past 12 0 n day refl (omega (arith, ends.0, past)) in
          let at_last : month_start (is_leap n) (month_loop 12 0 n day).0
              ≡ month_start (is_leap n) 12 =
            ap (month_start (is_leap n)) last in
          omega (arith, at_last, rest, ends.0)
    ]

-- The seconds that the fields name where the months are those that the program takes.
unfoldable pub timestamp : Tm → ℕ
timestamp tm =
    let days =
      year_start (1900 + tm.tm_year)
      + month_start (is_leap tm.tm_year) tm.tm_mon
      + (tm.tm_mday - 1) in
    ((days * 24 + tm.tm_hour) * 60 + tm.tm_min) * 60 + tm.tm_sec

gmtime-timestamp : (t : ℕ) (tm : Tm) → gmtime (some (pos t)) ≡ some tm → timestamp tm ≡ t
unfolding timestamp
gmtime-timestamp t tm e =
    let (n, day, returns, from, within, total) = gmtime-moment t in
    let same : moment t n (month_loop 12 0 n day) ≡ tm = cc (e, returns) in
    rw (← same) (omega (arith, total, month_loop_total n day))

-- In every year, also in those whose dates are wrong, different times from the epoch on have different
-- fields.
pub gmtime_injective : (s t : ℕ) → s ≢ t → gmtime (some (pos s)) ≢ gmtime (some (pos t))
gmtime_injective s t different e =
    let (n, day, returns, from, within, total) = gmtime-moment s in
    let tm = moment s n (month_loop 12 0 n day) in
    different (sym (gmtime-timestamp s tm returns) ∙ gmtime-timestamp t tm (sym e ∙ returns))
