-- ===== src/Metrics/Streams/Sequential.antt =====
-- Requests whose calls are interleaved are reported as if they came one after another.
use mathlib.Core.List.{append_assoc, append-nil}
use envoy_wasm_filters.Base.{
  ℕ, ◌≡◌, refl, sym, ap, ◌∙◌, true, some, List, [], ◌∷◌, ◌++◌, All, All-mono, update, Bytes,
}
use envoy_wasm_filters.Common.Context.{
  RequestInfo, Stream, new_request_info, populate_http_request_info,
}
use envoy_wasm_filters.Metrics.{
  Config, Resolver, StatsRootContext, on_configure, on_log, full_prefix, duration_value, MetricCall,
}
use envoy_wasm_filters.Metrics.Sizes.{handle, handle_all}
use envoy_wasm_filters.Metrics.Requests.{populate-counts, populate-sizes}
use envoy_wasm_filters.Metrics.Totals.{
  IsConfigured, on_configure-IsConfigured, on_log-IsConfigured, calls_of, log_all,
}
use envoy_wasm_filters.Metrics.Streams.{
  Filter, ProxyCall, configured, created, callback, log, new_filter, call, call_all, own, logs,
  is_given, is_request,
}
use envoy_wasm_filters.Metrics.Streams.Invariant.{Agrees, call_all-IsValid}

duration-same :
    (a b : RequestInfo)
    → a.start_timestamp ≡ b.start_timestamp
    → a.end_timestamp ≡ b.end_timestamp
    → duration_value a ≡ duration_value b
unfolding duration_value
duration-same a b p q = rw (p, q) refl

module _ (resolver : Resolver) (prefix : Bytes) where
  -- The calls for a request depend on the configuration, on the stream and on what its callbacks
  -- have left.
  on_log-same :
      (s : Stream) (root now : StatsRootContext) (a b : RequestInfo)
      → IsConfigured prefix root
      → IsConfigured prefix now
      → Agrees a b
      → (on_log resolver s root a).2 ≡ (on_log resolver s now b).2
  on_log-same s root now a b h k (p, q, r) =
      let filled_a = populate_http_request_info root.is_outbound true s a in
      let filled_b = populate_http_request_info now.is_outbound true s b in
      let (rejected_a, limited_a) = populate-counts root.is_outbound true s a in
      let (rejected_b, limited_b) = populate-counts now.is_outbound true s b in
      let (request_a, response_a, start_a, end_a) = populate-sizes root.is_outbound true s a in
      let (request_b, response_b, start_b, end_b) = populate-sizes now.is_outbound true s b in
      let duration =
        duration-same filled_a filled_b (start_a ∙ r ∙ sym start_b) (end_a ∙ sym end_b) in
      calls_of resolver prefix s root a h
      ∙ rw
          (
            duration, rejected_a, limited_a, rejected_b, limited_b, request_a, response_a,
            request_b, response_b, p, q,
          )
          refl
      ∙ sym (calls_of resolver prefix s now b k)

  log_all-snoc :
      (logged : List (Stream × RequestInfo)) (s : Stream) (info : RequestInfo)
      → (root : StatsRootContext) → IsConfigured prefix root
      → log_all resolver (logged ++ (s, info) ∷ []) root
        ≡ log_all resolver logged root ++ (on_log resolver s root info).2
  unfolding log_all
  log_all-snoc [] s info root h = rw append-nil refl
  log_all-snoc ((s0, info0) ∷ logged) s info root h =
      let (filled, reported, calls) = on_log resolver s0 root info0 in
      let next = on_log-IsConfigured resolver prefix s0 root info0 h in
      ap (λ (cs : List MetricCall). calls ++ cs)
        (log_all-snoc logged s info reported next
          ∙ ap (λ (cs : List MetricCall). log_all resolver logged reported ++ cs)
              (on_log-same s reported root info info next h (refl, refl, refl)))
      ∙ sym (append_assoc calls (log_all resolver logged reported) (on_log resolver s root info).2)

module _ (parsed : Bytes → Config) (resolver : Resolver) (prefix : Bytes)
    (start : StatsRootContext) where
  -- The root context is still configured, and the calls made are those for the logged requests in turn.
  record IsReported (cs : List ProxyCall) (f : Filter) : Type 0 where
    placed : IsConfigured prefix f.root
    reported : f.calls ≡ log_all resolver (logs cs) start

  call-IsReported :
      (c : ProxyCall) (cs : List ProxyCall) (f g : Filter)
      → IsConfigured prefix start
      → is_request c ≡ true
      → ((id : ℕ) → Agrees (f.contexts id) (handle_all (own id cs) new_request_info))
      → IsReported cs f
      → call parsed resolver c f ≡ some g
      → IsReported (c ∷ cs) g
  unfolding call logs
  call-IsReported (configured conf s) cs f g started request collected valid h = cc
  call-IsReported (created j) cs f g started request collected valid h =
      let same : record f { contexts = update f.contexts j new_request_info } ≡ g = cc in
      rw (← same) (record { placed = valid.placed; reported = valid.reported })
  call-IsReported (callback j e) cs f g started request collected valid h =
      let same : record f { contexts = update f.contexts j (handle e (f.contexts j)) } ≡ g = cc in
      rw (← same) (record { placed = valid.placed; reported = valid.reported })
  call-IsReported (log j s) cs f g started request collected valid h =
      let (filled, root, made) = on_log resolver s f.root (f.contexts j) in
      let info = handle_all (own j cs) new_request_info in
      let same : record f {
        root = root;
        contexts = update f.contexts j filled;
        calls = f.calls ++ made;
      }
          ≡ g =
        cc in
      rw (← same) (record {
        placed = on_log-IsConfigured resolver prefix s f.root (f.contexts j) valid.placed;
        reported =
            ap (λ (ms : List MetricCall). ms ++ made) valid.reported
            ∙ ap (λ (ms : List MetricCall). log_all resolver (logs cs) start ++ ms)
                (on_log-same resolver prefix s f.root start (f.contexts j) info valid.placed started
                  (collected j))
            ∙ sym (log_all-snoc resolver prefix (logs cs) s info start started);
      })

  call_all-IsReported :
      (cs : List ProxyCall)
      → IsConfigured prefix start
      → All (λ c. is_request c ≡ true) cs
      → (f : Filter) × (call_all parsed resolver cs (new_filter start) ≡ some f) × IsReported cs f
  unfolding call_all
  call_all-IsReported [] started requests = (
    new_filter start,
    refl,
    unfold new_filter logs log_all in record { placed = started; reported = refl },
  )
  call_all-IsReported (c ∷ cs) started (now, requests) =
      let (f, before, reported) = call_all-IsReported cs started requests in
      let (same_f, again, valid) =
        call_all-IsValid parsed resolver start cs (All-mono _ _ cs request-given requests) in
      let same : same_f ≡ f = cc in
      let (g, after) = call-request c f now in
      (
        g,
        rw (before, after) refl,
        call-IsReported c cs f g started now (rw same at valid.collected) reported after,
      )
    where
      request-given : (c : ProxyCall) → is_request c ≡ true → is_given c ≡ true
      request-given (configured conf s) h = cc
      request-given (created j) h = refl
      request-given (callback j e) h = refl
      request-given (log j s) h = refl

      call-request :
          (c : ProxyCall) (f : Filter)
          → is_request c ≡ true
          → (g : Filter) × (call parsed resolver c f ≡ some g)
      call-request (configured conf s) f h = cc
      call-request (created j) f h = unfold call in (_, refl)
      call-request (callback j e) f h = unfold call in (_, refl)
      call-request (log j s) f h = unfold call in (_, refl)

-- From a configured root context, any calls of requests, in any order, return, and make exactly the
-- metric calls that the logged requests make one after another, in the order of their logs, each with
-- what its own callbacks have left.
pub call_all-log_all :
    (parsed : Bytes → Config) (conf : Bytes) (s : Stream) (before start : StatsRootContext)
    → (resolver : Resolver) (cs : List ProxyCall)
    → on_configure parsed (some conf) s before ≡ some start
    → All (λ c. is_request c ≡ true) cs
    → (f : Filter) × (call_all parsed resolver cs (new_filter start) ≡ some f)
      × (f.calls ≡ log_all resolver (logs cs) start)
call_all-log_all parsed conf s before start resolver cs placed requests =
    let (f, run, reported) =
      call_all-IsReported parsed resolver (full_prefix (parsed conf)) start cs
        (on_configure-IsConfigured parsed conf s before start placed) requests in
    (f, run, reported.reported)
