-- ===== src/Metrics/Streams/Interleaved.antt =====
-- What is reported of a request between the calls of other requests.
use envoy_wasm_filters.Base.{
  ℕ, ◌-◌, ◌/◌, ◌%◌, ◌^◌, ◌≤◌, ◌<◌, ◌≡◌, refl, ◌∙◌, true, some, List, [], ◌∷◌, ◌++◌, arith, All,
  update, Bytes, text,
}
use envoy_wasm_filters.Common.Context.{Stream, out_value, new_request_info}
use envoy_wasm_filters.Metrics.{
  Config, MetricType, increment_metric, record_metric, counter, histogram, Resolver,
  StatsRootContext, on_log, full_prefix,
}
use envoy_wasm_filters.Metrics.Sizes.{requested, responded, last_start, handle_all_lem}
use envoy_wasm_filters.Metrics.Requests.{counts, populate-counts, populate-sizes, populate-duration}
use envoy_wasm_filters.Metrics.Totals.{calls_of}
use envoy_wasm_filters.Metrics.Streams.{
  Filter, ProxyCall, log, new_filter, call, call_all, own, latest, is_given,
}
use envoy_wasm_filters.Metrics.Streams.Invariant.{call_all-IsValid}

module _ (parsed : Bytes → Config) (resolver : Resolver) where
  -- After any calls, in any order, of which none is a configuration by a null pointer and some
  -- configuration is the latest: the log of a request returns, and makes nine further calls, with the
  -- numbers of the metrics of that configuration. They are those of its own callbacks, whatever calls
  -- of other requests, and configurations, come between them: that it was counted, whether its flags were
  -- those of a rejection or of a rate limit alone, each twice, the duration from its last request
  -- headers in milliseconds and the sums of its lengths, modulo 2 ^ 64. The clock has not gone back,
  -- and is below 2 ^ 63.
  pub call_all-reports :
      (root : StatsRootContext) (cs : List ProxyCall) (id : ℕ) (later : Stream) (conf : Bytes)
      → All (λ c. is_given c ≡ true) cs
      → latest cs ≡ some conf
      → last_start 0 (own id cs) ≤ later.current_time_nanoseconds
      → later.current_time_nanoseconds < 2 ^ 63
      → (let number =
            λ (t : MetricType) (n : Bytes). resolver t (full_prefix (parsed conf) ++ n) [] in
          let flags : ℕ = out_value 0 later.response_flags in
          let total : ℕ = number counter (text "requests_total") in
          let rejected : ℕ = number counter (text "extauth_rejected_requests") in
          let limited : ℕ = number counter (text "ratelimited_requests") in
          (f : Filter) × (g : Filter) × (call_all parsed resolver cs (new_filter root) ≡ some f)
          × (call_all parsed resolver (log id later ∷ cs) (new_filter root) ≡ some g)
          × (g.calls
              ≡ f.calls
                ++ increment_metric total 1
                  ∷ record_metric total 1
                  ∷ increment_metric rejected (counts 0x1000 flags)
                  ∷ record_metric rejected (counts 0x1000 flags)
                  ∷ increment_metric limited (counts 0x800 flags)
                  ∷ record_metric limited (counts 0x800 flags)
                  ∷ record_metric
                      (number histogram (text "request_duration_milliseconds"))
                      ((later.current_time_nanoseconds - last_start 0 (own id cs)) / 1000000)
                  ∷ record_metric
                      (number histogram (text "request_bytes"))
                      (requested (own id cs) % 2 ^ 64)
                  ∷ record_metric
                      (number histogram (text "response_bytes"))
                      (responded (own id cs) % 2 ^ 64)
                  ∷ []))
  unfolding call_all call
  call_all-reports root cs id later conf given in_force lo hi =
      let (f, before, valid) = call_all-IsValid parsed resolver root cs given in
      let info = f.contexts id in
      let placed = rw in_force at valid.in_force in
      let prefix = full_prefix (parsed conf) in
      let (p, q, r) = valid.collected id in
      let (asked, replied, start) =
        handle_all_lem (own id cs) new_request_info (omega arith) (omega arith) in
      let out = f.root.is_outbound in
      let (rejected, limited) = populate-counts out true later info in
      let (request_size, response_size, _, _) = populate-sizes out true later info in
      let started : info.start_timestamp ≡ last_start 0 (own id cs) = r ∙ start in
      let duration = populate-duration out true later info (omega (arith, started)) hi in
      let asked_all : info.request_size ≡ requested (own id cs) % 2 ^ 64 =
        omega (arith, p, asked) in
      let replied_all : info.response_size ≡ responded (own id cs) % 2 ^ 64 =
        omega (arith, q, replied) in
      (
        f,
        record f {
          root = (on_log resolver later f.root info).1;
          contexts = update f.contexts id (on_log resolver later f.root info).0;
          calls = f.calls ++ (on_log resolver later f.root info).2;
        },
        before,
        rw before refl,
        rw
            (
              calls_of resolver prefix later f.root info placed,
              rejected,
              limited,
              duration,
              request_size,
              response_size,
              started,
              asked_all,
              replied_all,
            )
            refl,
      )
