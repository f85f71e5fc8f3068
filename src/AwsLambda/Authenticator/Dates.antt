-- ===== src/AwsLambda/Authenticator/Dates.antt =====
-- The texts of a date: their lengths, and that they can be read back.
use envoy_wasm_filters.Base.{
  ℕ, ◌+◌, ◌-◌, ◌≤◌, ◌<◌, ◌≡◌, refl, sym, ap, ◌∙◌, ◌^◌, ◌⊎◌, some, pos, to_signed, arith, length,
  take, drop, Bytes, decimal_value, padded_two, padded_four,
}
use envoy_wasm_filters.AwsLambda.Gmtime.{Tm, month_loop, gmtime}
use envoy_wasm_filters.AwsLambda.Gmtime.Calendar.{timegm}
use envoy_wasm_filters.AwsLambda.Gmtime.Correct.{moment, gmtime-moment}
use envoy_wasm_filters.AwsLambda.Gmtime.Centuries.{gmtime-IsMoment}
use envoy_wasm_filters.AwsLambda.Gmtime.Range.{IsInRange, gmtime-IsInRange, gmtime-not_2000}
use envoy_wasm_filters.AwsLambda.Platform.{Hashing, Host, Target}
use envoy_wasm_filters.AwsLambda.Authenticator.{date_header, format_date, format_date_time}
use envoy_wasm_filters.AwsLambda.Authenticator.Signing.{
  broken_down, add_date, get_credntial_scope_date,
}

Tm-ext :
    (a b : Tm)
    → a.tm_sec ≡ b.tm_sec
    → a.tm_min ≡ b.tm_min
    → a.tm_hour ≡ b.tm_hour
    → a.tm_mday ≡ b.tm_mday
    → a.tm_mon ≡ b.tm_mon
    → a.tm_year ≡ b.tm_year
    → a ≡ b
Tm-ext a b sec min hour mday mon year = cc

-- The numbers at the places of the format "%Y%m%dT%H%M%SZ".
unfoldable pub read_date_time : Bytes → Tm
read_date_time s = record {
  tm_sec = decimal_value 0 (take 2 (drop 13 s));
  tm_min = decimal_value 0 (take 2 (drop 11 s));
  tm_hour = decimal_value 0 (take 2 (drop 9 s));
  tm_mday = decimal_value 0 (take 2 (drop 6 s));
  tm_mon = decimal_value 0 (take 2 (drop 4 s)) - 1;
  tm_year = decimal_value 0 (take 4 s) - 1900;
}

-- The date and time of fields in their ranges, before the year 10000, is 16 bytes long, begins with
-- the date, and can be read back.
read_date_time-format_date_time :
    (tm : Tm)
    → IsInRange tm
    → tm.tm_year < 8100
    → (length (format_date_time tm) ≡ 16)
      × (take 8 (format_date_time tm) ≡ format_date tm)
      × (read_date_time (format_date_time tm) ≡ tm)
unfolding read_date_time format_date format_date_time decimal_value
read_date_time-format_date_time tm range small =
    let month : tm.tm_mon + 1 < 100 = ground (arith, range.mon_in) in
    rw
      (
        padded_four (1900 + tm.tm_year) (omega arith) (omega arith),
        padded_two (tm.tm_mon + 1) month,
        padded_two tm.tm_mday (omega (arith, range.mday_to)),
        padded_two tm.tm_hour (omega (arith, range.hour_in)),
        padded_two tm.tm_min (omega (arith, range.min_in)),
        padded_two tm.tm_sec (omega (arith, range.sec_in)),
      )
      (
        refl,
        refl,
        Tm-ext _ tm (omega arith) (omega arith) (omega arith) (omega arith) (omega (arith, month))
            (omega (arith, small, range.year_from)),
      )

-- A time below 2 ^ 31 is its own `time_t` of 32 bits.
to_signed-small : (n : ℕ) → n < 2 ^ 31 → to_signed 32 n ≡ pos n
unfolding to_signed
to_signed-small n h = ground arith

module _ (H : Hashing) (W : Host) (P : Target) where
  pub broken_down-gmtime :
      (now : ℕ) → P.time_bits ≡ 32 → now < 2 ^ 31 → broken_down H W P now ≡ gmtime (some (pos now))
  unfolding broken_down
  broken_down-gmtime now bits small = rw (bits, to_signed-small now small) refl

  -- Where `time_t` has 32 bits, at every time below 2 ^ 31: a date header of 16 bytes is added, and
  -- the date of the credentials' scope is its first 8.
  pub add_date-length :
      (now : ℕ) (w : W.World)
      → P.time_bits ≡ 32
      → now < 2 ^ 31
      → (s : Bytes) × (add_date H W P now w ≡ some (s, W.add_request_header date_header s w))
        × (get_credntial_scope_date H W P now ≡ some (take 8 s))
        × (length s ≡ 16)
  unfolding add_date get_credntial_scope_date
  add_date-length now w bits small =
      let (n, day, found, from, within, total) = gmtime-moment now in
      let tm = moment now n (month_loop 12 0 n day) in
      let (range, years) = gmtime-IsInRange now tm found in
      let (size, date, read) = read_date_time-format_date_time tm range (omega (arith, years)) in
      let time = broken_down-gmtime now bits small ∙ found in
      (format_date_time tm, rw time refl, rw time (ap some (sym date)), size)

  -- Where `time_t` has 32 bits, at every time below 2 ^ 31 outside of the year 2000: the date header
  -- that is added, read as a date, is the time.
  pub add_date-timegm :
      (now : ℕ) (w v : W.World) (s : Bytes)
      → P.time_bits ≡ 32
      → now < 2 ^ 31
      → (now < 946684800) ⊎ (978307200 ≤ now)
      → add_date H W P now w ≡ some (s, v)
      → timegm (read_date_time s) ≡ now
  unfolding add_date
  add_date-timegm now w v s bits small outside h =
      let (n, day, found, from, within, total) = gmtime-moment now in
      let tm = moment now n (month_loop 12 0 n day) in
      let (range, years) = gmtime-IsInRange now tm found in
      let (size, date, read) = read_date_time-format_date_time tm range (omega (arith, years)) in
      let (not_0, not_300) = gmtime-not_2000 now tm small outside found in
      let time = broken_down-gmtime now bits small ∙ found in
      let same : format_date_time tm ≡ s = added tm time h in
      rw (← same, read) (gmtime-IsMoment now tm found not_0 not_300).1
    where
      added :
          (tm : Tm)
          → broken_down H W P now ≡ some tm
          → add_date H W P now w ≡ some (s, v)
          → format_date_time tm ≡ s
      added tm e k = ground arith
