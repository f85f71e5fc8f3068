-- ===== src/Metrics/Requests.antt =====
-- A whole request: its callbacks, and what is reported when it is logged.
use envoy_wasm_filters.Base.{
  ℕ, ◌-◌, ◌/◌, ◌%◌, ◌^◌, ◌≤◌, ◌<◌, ◌≡◌, refl, ◌∙◌, ◌↔◌, inl, inr, Bool, true, false, some, [], ◌∷◌,
  List, ◌++◌, arith, ◌==◌, ==_iff, if◌then◌else◌, Bytes, text, Bool-cases,
}
use envoy_wasm_filters.Common.Context.{
  RequestInfo, new_request_info, Stream, out_value, populate_http_request_info,
}
use envoy_wasm_filters.Metrics.{
  Config, MetricType, increment_metric, record_metric, counter, histogram, Resolver,
  StatsRootContext, on_configure, on_log, extauth_value, ratelimited_value, duration_value,
  full_prefix,
}
use envoy_wasm_filters.Metrics.Counters.{on_log-calls, flag_counters, duration_value_lem}
use envoy_wasm_filters.Metrics.Sizes.{
  Event, handle_all, requested, responded, last_start, handle_all_lem,
}

-- 1 for exactly the given flags.
abbrev pub counts : ℕ → ℕ → ℕ
counts mask flags = if flags == mask then 1 else 0

bit_eq :
    (b : Bool) (flags mask : ℕ)
    → (◌≡◌ {A = ℕ} (if b then 1 else 0) 1) ↔ (flags ≡ mask)
    → (if b then 1 else 0) ≡ counts mask flags
bit_eq true flags mask h = ground (arith, h.0 refl)
bit_eq false flags mask h = elim (Bool-cases (flags == mask)) [
  | inl same ↦ absurd (omega (arith, h.1 ((==_iff flags mask).0 same)))
  | inr other ↦ rw other refl
]

module _ (out fallback : Bool) (s : Stream) (info : RequestInfo) where
  pub populate-counts :
      (extauth_value (populate_http_request_info out fallback s info)
        ≡ counts 0x1000 (out_value 0 s.response_flags))
      × (ratelimited_value (populate_http_request_info out fallback s info)
          ≡ counts 0x800 (out_value 0 s.response_flags))
  unfolding extauth_value ratelimited_value
  populate-counts =
      let (rejected, limited) = flag_counters out fallback s info in
      (
        bit_eq _ (out_value 0 s.response_flags) 0x1000 rejected,
        bit_eq _ (out_value 0 s.response_flags) 0x800 limited,
      )

  pub populate-sizes :
      (let f = populate_http_request_info out fallback s info in
        (f.request_size ≡ info.request_size)
        × (f.response_size ≡ info.response_size)
        × (f.start_timestamp ≡ info.start_timestamp)
        × (f.end_timestamp ≡ s.current_time_nanoseconds))
  unfolding populate_http_request_info
  populate-sizes = ground arith

  pub populate-duration :
      info.start_timestamp ≤ s.current_time_nanoseconds
      → s.current_time_nanoseconds < 2 ^ 63
      → duration_value (populate_http_request_info out fallback s info)
        ≡ (s.current_time_nanoseconds - info.start_timestamp) / 1000000
  populate-duration h k =
      let same = populate-sizes in
      duration_value_lem (populate_http_request_info out fallback s info) (omega (arith, same))
        (omega (arith, same))
      ∙ omega (arith, same)

-- What a configured filter reports when a request is logged, in full, after any callbacks: that it was
-- counted, whether its flags were those of a rejection or of a rate limit alone, each twice, and the
-- duration from the last request headers in milliseconds and the sums of the lengths, modulo 2 ^ 64.
-- The clock has not gone back, and is below 2 ^ 63.
on_log-reports :
    (parsed : Bytes → Config) (conf : Bytes) (s : Stream) (before root : StatsRootContext)
    → (resolver : Resolver) (later : Stream) (es : List Event)
    → on_configure parsed (some conf) s before ≡ some root
    → last_start 0 es ≤ later.current_time_nanoseconds
    → later.current_time_nanoseconds < 2 ^ 63
    → (let id = λ (t : MetricType) (n : Bytes). resolver t (full_prefix (parsed conf) ++ n) [] in
        let flags : ℕ = out_value 0 later.response_flags in
        let total : ℕ = id counter (text "requests_total") in
        let rejected : ℕ = id counter (text "extauth_rejected_requests") in
        let limited : ℕ = id counter (text "ratelimited_requests") in
        (on_log resolver later root (handle_all es new_request_info)).2
        ≡ increment_metric total 1
          ∷ record_metric total 1
          ∷ increment_metric rejected (counts 0x1000 flags)
          ∷ record_metric rejected (counts 0x1000 flags)
          ∷ increment_metric limited (counts 0x800 flags)
          ∷ record_metric limited (counts 0x800 flags)
          ∷ record_metric
              (id histogram (text "request_duration_milliseconds"))
              ((later.current_time_nanoseconds - last_start 0 es) / 1000000)
          ∷ record_metric (id histogram (text "request_bytes")) (requested es % 2 ^ 64)
          ∷ record_metric (id histogram (text "response_bytes")) (responded es % 2 ^ 64)
          ∷ [])
on_log-reports parsed conf s before root resolver later es h lo hi =
    let info = handle_all es new_request_info in
    let (asked, replied, start) = handle_all_lem es new_request_info (omega arith) (omega arith) in
    let (rejected, limited) = populate-counts root.is_outbound true later info in
    let (request_size, response_size, _, _) = populate-sizes root.is_outbound true later info in
    let duration = populate-duration root.is_outbound true later info (omega (arith, start)) hi in
    let asked_all : requested es % 2 ^ 64 ≡ info.request_size = omega (arith, asked) in
    let replied_all : responded es % 2 ^ 64 ≡ info.response_size = omega (arith, replied) in
    on_log-calls parsed conf s before root resolver later info h
    ∙ rw (rejected, limited, duration, request_size, response_size, start, asked_all, replied_all)
        refl
