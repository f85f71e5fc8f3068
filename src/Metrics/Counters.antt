-- ===== src/Metrics/Counters.antt =====
-- What a logged request adds to the metrics.
use envoy_wasm_filters.Base.{
  ℕ, ◌-◌, ◌/◌, ◌^◌, ◌≤◌, ◌<◌, ◌≡◌, refl, sym, ap, ◌∙◌, ◌↔◌, inl, inr, Bool, true, some, [], ◌∷◌,
  ◌++◌, arith, if◌then◌else◌, Bytes, text, bytes_eq, bytes_eq_iff, bytes_eq_refl, Bool-cases,
}
use envoy_wasm_filters.Common.Context.{RequestInfo, Stream, out_value, populate_http_request_info}
use envoy_wasm_filters.Common.ResponseFlag.{parse_response_flag, append_if, append_string}
use envoy_wasm_filters.Common.ResponseFlag.Decode.{decode_flags, decode_flags-parse_response_flag}
use envoy_wasm_filters.Metrics.{
  Config, MetricType, increment_metric, record_metric, counter, histogram, Resolver,
  StatsRootContext, on_configure, on_log, extauth_value, ratelimited_value, duration_value,
  full_prefix,
}

-- The whole of what a configured filter reports of a request: each of the three counters is both
-- incremented and recorded, with the same value, and each histogram is recorded.
pub on_log-calls :
    (parsed : Bytes → Config) (conf : Bytes) (s : Stream) (before root : StatsRootContext)
    → (resolver : Resolver) (later : Stream) (info : RequestInfo)
    → on_configure parsed (some conf) s before ≡ some root
    → (let id = λ (t : MetricType) (n : Bytes). resolver t (full_prefix (parsed conf) ++ n) [] in
        let filled = populate_http_request_info root.is_outbound true later info in
        let total : ℕ = id counter (text "requests_total") in
        let rejected : ℕ = id counter (text "extauth_rejected_requests") in
        let limited : ℕ = id counter (text "ratelimited_requests") in
        (on_log resolver later root info).2
        ≡ increment_metric total 1
          ∷ record_metric total 1
          ∷ increment_metric rejected (extauth_value filled)
          ∷ record_metric rejected (extauth_value filled)
          ∷ increment_metric limited (ratelimited_value filled)
          ∷ record_metric limited (ratelimited_value filled)
          ∷ record_metric
              (id histogram (text "request_duration_milliseconds"))
              (duration_value filled)
          ∷ record_metric (id histogram (text "request_bytes")) filled.request_size
          ∷ record_metric (id histogram (text "response_bytes")) filled.response_size
          ∷ [])
unfolding on_configure on_log
on_log-calls parsed conf s before root resolver later info h = ground arith

-- A text that stands for a single flag is the text of no other flags.
only_flag :
    (name given : Bytes) (flags mask : ℕ)
    → parse_response_flag mask ≡ name
    → given ≡ parse_response_flag flags
    → (◌≡◌ {A = ℕ} (if bytes_eq given name then 1 else 0) 1) ↔ (flags ≡ mask)
only_flag name given flags mask alone text_is = elim (Bool-cases (bytes_eq given name)) [
  | inl same ↦ rw same (λ _. decoded same, λ _. refl)
  | inr other ↦ rw other (λ e. absurd (omega arith), λ e. cc (other, equal e, bytes_eq_refl name))
]
  where
    decoded : bytes_eq given name ≡ true → flags ≡ mask
    decoded same =
        sym (decode_flags-parse_response_flag flags)
        ∙ ap decode_flags (sym text_is ∙ (bytes_eq_iff given name).0 same ∙ sym alone)
        ∙ decode_flags-parse_response_flag mask

    equal : flags ≡ mask → given ≡ name
    equal e = text_is ∙ ap parse_response_flag e ∙ alone

extauth_text : parse_response_flag 0x1000 ≡ text "UAEX"
unfolding parse_response_flag append_if append_string
extauth_text = refl

ratelimited_text : parse_response_flag 0x800 ≡ text "RL"
unfolding parse_response_flag append_if append_string
ratelimited_text = refl

-- A request counts as rejected by external authorisation exactly when that is its only response
-- flag, and as rate limited exactly when that is: with a further flag set it counts as neither.
pub flag_counters :
    (out fallback : Bool) (s : Stream) (info : RequestInfo)
    → (let filled = populate_http_request_info out fallback s info in
        ((extauth_value filled ≡ 1) ↔ (out_value 0 s.response_flags ≡ 0x1000))
        × ((ratelimited_value filled ≡ 1) ↔ (out_value 0 s.response_flags ≡ 0x800)))
unfolding extauth_value ratelimited_value
flag_counters out fallback s info =
    let flags = out_value 0 s.response_flags in
    let filled = populate_http_request_info out fallback s info in
    let given : filled.response_flag ≡ parse_response_flag flags =
      unfold populate_http_request_info in refl in
    (
      only_flag (text "UAEX") filled.response_flag flags 0x1000 extauth_text given,
      only_flag (text "RL") filled.response_flag flags 0x800 ratelimited_text given,
    )

-- Where the clock has not gone back and the end is below 2 ^ 63, the duration is the difference in
-- whole milliseconds.
pub duration_value_lem :
    (info : RequestInfo)
    → info.start_timestamp ≤ info.end_timestamp
    → info.end_timestamp < 2 ^ 63
    → duration_value info ≡ (info.end_timestamp - info.start_timestamp) / 1000000
unfolding duration_value
duration_value_lem info h k = ground arith
