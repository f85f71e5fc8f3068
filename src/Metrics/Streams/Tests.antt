-- ===== src/Metrics/Streams/Tests.antt =====
-- The theorems on the calls of a proxy at concrete inputs.
use envoy_wasm_filters.Base.{
  ℕ, ◌-◌, ◌/◌, ◌%◌, ◌^◌, ◌≤◌, ◌≡◌, refl, true, some, List, [], ◌∷◌, ◌++◌, arith, Bytes, text,
}
use envoy_wasm_filters.Common.Context.{out_value}
use envoy_wasm_filters.Metrics.{
  MetricType, increment_metric, record_metric, counter, histogram, full_prefix,
}
use envoy_wasm_filters.Metrics.Sizes.{
  request_headers, request_body, response_body, requested, responded, last_start,
}
use envoy_wasm_filters.Metrics.Requests.{counts}
use envoy_wasm_filters.Metrics.Totals.{log_all}
use envoy_wasm_filters.Metrics.Streams.{
  Filter, ProxyCall, configured, created, callback, log, new_filter, call_all, own, latest, logs,
}
use envoy_wasm_filters.Metrics.Streams.Interleaved.{call_all-reports}
use envoy_wasm_filters.Metrics.Streams.Sequential.{call_all-log_all}
use envoy_wasm_filters.Metrics.Tests.{
  parsed, unconfigured, stream, configured_root, configured_run, sizes,
}

-- Two requests, of which the second is logged before the first, the latest call first.
abbrev two_requests : List ProxyCall
two_requests =
    callback 1 (response_body 7 true)
    ∷ log 2 stream
    ∷ callback 2 (request_body 5 true)
    ∷ callback 1 (request_body 10 true)
    ∷ callback 2 (request_headers 6000000)
    ∷ created 2
    ∷ callback 1 (request_headers 3)
    ∷ created 1
    ∷ []

abbrev from_start : List ProxyCall
from_start = two_requests ++ configured (some (text "{}")) stream ∷ []

own_events : own 1 from_start ≡ request_headers 3 ∷ request_body 10 true ∷ response_body 7 true ∷ []
unfolding own
own_events = refl

in_force : latest from_start ≡ some (text "{}")
unfolding latest
in_force = refl

started : last_start 0 (own 1 from_start) ≤ 7000000
unfolding last_start own
started = omega arith

call_all-reports_example :
    (let number =
        λ (t : MetricType) (n : Bytes). sizes t (full_prefix (parsed (text "{}")) ++ n) [] in
      let flags : ℕ = out_value 0 stream.response_flags in
      let total : ℕ = number counter (text "requests_total") in
      let rejected : ℕ = number counter (text "extauth_rejected_requests") in
      let limited : ℕ = number counter (text "ratelimited_requests") in
      (f : Filter) × (g : Filter) × (call_all parsed sizes from_start (new_filter unconfigured)
        ≡ some f)
      × (call_all parsed sizes (log 1 stream ∷ from_start) (new_filter unconfigured) ≡ some g)
      × (g.calls
          ≡ f.calls
            ++ increment_metric total 1
              ∷ record_metric total 1
              ∷ increment_metric rejected (counts 0x1000 flags)
              ∷ record_metric rejected (counts 0x1000 flags)
              ∷ increment_metric limited (counts 0x800 flags)
              ∷ record_metric limited (counts 0x800 flags)
              ∷ record_metric
                  (number histogram (text "request_duration_milliseconds"))
                  ((7000000 - last_start 0 (own 1 from_start)) / 1000000)
              ∷ record_metric
                  (number histogram (text "request_bytes"))
                  (requested (own 1 from_start) % 2 ^ 64)
              ∷ record_metric
                  (number histogram (text "response_bytes"))
                  (responded (own 1 from_start) % 2 ^ 64)
              ∷ []))
call_all-reports_example =
    call_all-reports parsed sizes unconfigured from_start 1 stream (text "{}")
      (refl, (refl, (refl, (refl, (refl, (refl, (refl, (refl, (refl, tt))))))))) in_force started
      (omega arith)

call_all-log_all_example :
    (f : Filter) × (call_all parsed sizes (log 1 stream ∷ two_requests) (new_filter configured_root)
      ≡ some f)
    × (f.calls ≡ log_all sizes (logs (log 1 stream ∷ two_requests)) configured_root)
call_all-log_all_example =
    call_all-log_all parsed (text "{}") stream unconfigured configured_root sizes
      (log 1 stream ∷ two_requests) configured_run
      (refl, (refl, (refl, (refl, (refl, (refl, (refl, (refl, (refl, tt)))))))))
