-- ===== src/Metrics/Totals.antt =====
-- What several requests that are logged one after another, on one root context, add to the counters.
use envoy_wasm_filters.Base.{
  ℕ, ◌+◌, ◌≡◌, ◌≢◌, refl, sym, true, some, List, [], ◌∷◌, ◌++◌, arith, length, ◌==◌, if◌then◌else◌,
  Bytes, text, subst, map, All,
}
use envoy_wasm_filters.Common.Context.{RequestInfo, Stream, out_value, populate_http_request_info}
use envoy_wasm_filters.Metrics.{
  Config, MetricType, MetricCall, increment_metric, record_metric, counter, histogram, Resolver,
  StatGen, StatsRootContext, on_configure, on_log, extauth_value, ratelimited_value, duration_value,
  full_prefix, stats_for, report,
}
use envoy_wasm_filters.Metrics.Requests.{counts, populate-counts}

-- The calls that the proxy receives when requests are logged in turn.
unfoldable pub log_all : Resolver → List (Stream × RequestInfo) → StatsRootContext → List MetricCall
log_all resolver [] root = []
log_all resolver ((s, info) ∷ logged) root =
    let (filled, reported, calls) = on_log resolver s root info in
    calls ++ log_all resolver logged reported

-- The sum of the increments of a metric, and of the values recorded for it.
unfoldable pub incremented : ℕ → List MetricCall → ℕ
incremented id [] = 0
incremented id (increment_metric metric_id value ∷ calls) =
    (if metric_id == id then value else 0) + incremented id calls
incremented id (record_metric metric_id value ∷ calls) = incremented id calls

unfoldable pub recorded : ℕ → List MetricCall → ℕ
recorded id [] = 0
recorded id (increment_metric metric_id value ∷ calls) = recorded id calls
recorded id (record_metric metric_id value ∷ calls) =
    (if metric_id == id then value else 0) + recorded id calls

-- How many of the requests have exactly the given response flags.
unfoldable pub how_many : ℕ → List (Stream × RequestInfo) → ℕ
how_many mask [] = 0
how_many mask ((s, info) ∷ logged) =
    counts mask (out_value 0 s.response_flags) + how_many mask logged

incremented-append :
    (id : ℕ) (xs ys : List MetricCall)
    → incremented id (xs ++ ys) ≡ incremented id xs + incremented id ys
unfolding incremented
incremented-append id [] ys = omega arith
incremented-append id (increment_metric m v ∷ xs) ys = omega (arith, incremented-append id xs ys)
incremented-append id (record_metric m v ∷ xs) ys = incremented-append id xs ys

recorded-append :
    (id : ℕ) (xs ys : List MetricCall) → recorded id (xs ++ ys) ≡ recorded id xs + recorded id ys
unfolding recorded
recorded-append id [] ys = omega arith
recorded-append id (increment_metric m v ∷ xs) ys = recorded-append id xs ys
recorded-append id (record_metric m v ∷ xs) ys = omega (arith, recorded-append id xs ys)

abbrev pub AllDistinct : List ℕ → Type 0
AllDistinct [] = Unit
AllDistinct (n ∷ ns) = All (λ m. m ≢ n) ns × AllDistinct ns

-- The metrics have numbers of their own.
abbrev pub HasDistinctIds : Resolver → List StatGen → Type 0
HasDistinctIds resolver stats =
    AllDistinct (map (λ (g : StatGen). resolver g.metric_type g.name []) stats)

-- The root context as a configuration leaves it.
pub record IsConfigured (prefix : Bytes) (root : StatsRootContext) : Type 0 where
  pub stats : root.stats ≡ stats_for prefix
  pub fallback : root.use_host_header_fallback ≡ true

pub on_configure-IsConfigured :
    (parsed : Bytes → Config) (conf : Bytes) (s : Stream) (before root : StatsRootContext)
    → on_configure parsed (some conf) s before ≡ some root
    → IsConfigured (full_prefix (parsed conf)) root
unfolding on_configure
on_configure-IsConfigured parsed conf s before root h = record {
  stats = ground arith;
  fallback = ground arith;
}

pub on_log-IsConfigured :
    (resolver : Resolver) (prefix : Bytes) (s : Stream) (root : StatsRootContext)
    → (info : RequestInfo) → IsConfigured prefix root
    → IsConfigured prefix (on_log resolver s root info).1
unfolding on_log report
on_log-IsConfigured resolver prefix s root info h = record {
  stats = h.stats;
  fallback = h.fallback;
}

-- The nine calls for one request, at numbers for the metrics.
nine_calls : (total rejected limited time request response a b c d e f : ℕ) → List MetricCall
nine_calls total rejected limited time request response a b c d e f =
    increment_metric total a
    ∷ record_metric total a
    ∷ increment_metric rejected b
    ∷ record_metric rejected b
    ∷ increment_metric limited c
    ∷ record_metric limited c
    ∷ record_metric time d
    ∷ record_metric request e
    ∷ record_metric response f
    ∷ []

-- A counter whose number is that of none of the other metrics.
module _ (total rejected limited time request response a b c d e f : ℕ) where
  calls_at : List MetricCall
  calls_at = nine_calls total rejected limited time request response a b c d e f

  total_at :
      rejected ≢ total
      → limited ≢ total
      → time ≢ total
      → request ≢ total
      → response ≢ total
      → (incremented total calls_at ≡ a) × (recorded total calls_at ≡ a)
  unfolding calls_at nine_calls incremented recorded
  total_at h k l m n = (ground arith, ground arith)

  rejected_at :
      total ≢ rejected
      → limited ≢ rejected
      → time ≢ rejected
      → request ≢ rejected
      → response ≢ rejected
      → (incremented rejected calls_at ≡ b) × (recorded rejected calls_at ≡ b)
  unfolding calls_at nine_calls incremented recorded
  rejected_at h k l m n = (ground arith, ground arith)

  limited_at :
      total ≢ limited
      → rejected ≢ limited
      → time ≢ limited
      → request ≢ limited
      → response ≢ limited
      → (incremented limited calls_at ≡ c) × (recorded limited calls_at ≡ c)
  unfolding calls_at nine_calls incremented recorded
  limited_at h k l m n = (ground arith, ground arith)

module _ (resolver : Resolver) (prefix : Bytes) where
  abbrev pub id_of : MetricType → Bytes → ℕ
  id_of t name = resolver t (prefix ++ name) []

  -- The calls for one request.
  pub calls_of :
      (s : Stream) (root : StatsRootContext) (info : RequestInfo)
      → IsConfigured prefix root
      → (let filled = populate_http_request_info root.is_outbound true s info in
          (on_log resolver s root info).2
          ≡ increment_metric (id_of counter (text "requests_total")) 1
            ∷ record_metric (id_of counter (text "requests_total")) 1
            ∷ increment_metric
                (id_of counter (text "extauth_rejected_requests"))
                (extauth_value filled)
            ∷ record_metric
                (id_of counter (text "extauth_rejected_requests"))
                (extauth_value filled)
            ∷ increment_metric
                (id_of counter (text "ratelimited_requests"))
                (ratelimited_value filled)
            ∷ record_metric (id_of counter (text "ratelimited_requests")) (ratelimited_value filled)
            ∷ record_metric
                (id_of histogram (text "request_duration_milliseconds"))
                (duration_value filled)
            ∷ record_metric (id_of histogram (text "request_bytes")) filled.request_size
            ∷ record_metric (id_of histogram (text "response_bytes")) filled.response_size
            ∷ [])
  unfolding on_log report stats_for
  calls_of s root info h = rw (h.stats, h.fallback) refl

  -- What calls add to a counter: by increments, and again by records.
  abbrev pub Adds : Bytes → ℕ → List MetricCall → Type 0
  Adds name n calls =
      (incremented (id_of counter name) calls ≡ n) × (recorded (id_of counter name) calls ≡ n)

  on_log-Adds :
      (s : Stream) (root : StatsRootContext) (info : RequestInfo)
      → HasDistinctIds resolver (stats_for prefix)
      → IsConfigured prefix root
      → (let calls = (on_log resolver s root info).2 in
          Adds (text "requests_total") 1 calls
          × Adds
              (text "extauth_rejected_requests")
              (counts 0x1000 (out_value 0 s.response_flags))
              calls
          × Adds (text "ratelimited_requests") (counts 0x800 (out_value 0 s.response_flags)) calls)
  unfolding calls_at nine_calls stats_for
  on_log-Adds s root info distinct h =
      let (rejected, limited) = populate-counts root.is_outbound true s info in
      let (others, more) = distinct in
      let (rt, (lt, (dt, (qt, (pt, _))))) = others in
      let ((lr, (dr, (qr, (pr, _)))), ((dl, (ql, (pl, _))), _)) = more in
      rw (calls_of s root info h, rejected, limited)
        (
          total_at _ _ _ _ _ _ _ _ _ _ _ _ rt lt dt qt pt,
          rejected_at _ _ _ _ _ _ _ _ _ _ _ _ (λ e. rt (sym e)) lr dr qr pr,
          limited_at _ _ _ _ _ _ _ _ _ _ _ _ (λ e. lt (sym e)) (λ e. lr (sym e)) dl ql pl,
        )

  Adds-append :
      (name : Bytes) (m n : ℕ) (xs ys : List MetricCall)
      → Adds name m xs
      → Adds name n ys
      → Adds name (m + n) (xs ++ ys)
  Adds-append name m n xs ys h k = (
    omega (arith, incremented-append (id_of counter name) xs ys, h, k),
    omega (arith, recorded-append (id_of counter name) xs ys, h, k),
  )

  log_all-IsConfigured :
      (logged : List (Stream × RequestInfo)) (root : StatsRootContext)
      → HasDistinctIds resolver (stats_for prefix)
      → IsConfigured prefix root
      → (let calls = log_all resolver logged root in
          Adds (text "requests_total") (length logged) calls
          × Adds (text "extauth_rejected_requests") (how_many 0x1000 logged) calls
          × Adds (text "ratelimited_requests") (how_many 0x800 logged) calls)
  unfolding log_all how_many
  log_all-IsConfigured [] root laws h =
      unfold incremented recorded in ((refl, refl), (refl, refl), (refl, refl))
  log_all-IsConfigured ((s, info) ∷ logged) root laws h =
      let (filled, reported, calls) = on_log resolver s root info in
      let (total, rejected, limited) = on_log-Adds s root info laws h in
      let (totals, rejections, limits) =
        log_all-IsConfigured logged reported laws
          (on_log-IsConfigured resolver prefix s root info h) in
      (
        subst (λ n. Adds (text "requests_total") n (calls ++ log_all resolver logged reported))
            (omega arith) (Adds-append _ 1 _ calls _ total totals),
        Adds-append _ _ _ calls _ rejected rejections,
        Adds-append _ _ _ calls _ limited limits,
      )

-- Where the six metrics have different numbers: whatever requests are logged one after
-- another on a configured root context, the increments of each counter sum up to the requests, to
-- those whose only flag is a rejection, and to those whose only flag is a rate limit, and the same
-- sums are recorded for the counters once more.
pub log_all-Adds :
    (parsed : Bytes → Config) (conf : Bytes) (s : Stream) (before root : StatsRootContext)
    → (resolver : Resolver) (logged : List (Stream × RequestInfo))
    → HasDistinctIds resolver (stats_for (full_prefix (parsed conf)))
    → on_configure parsed (some conf) s before ≡ some root
    → (let prefix = full_prefix (parsed conf) in
        let calls = log_all resolver logged root in
        Adds resolver prefix (text "requests_total") (length logged) calls
        × Adds resolver prefix (text "extauth_rejected_requests") (how_many 0x1000 logged) calls
        × Adds resolver prefix (text "ratelimited_requests") (how_many 0x800 logged) calls)
log_all-Adds parsed conf s before root resolver logged laws h =
    log_all-IsConfigured resolver (full_prefix (parsed conf)) logged root laws
      (on_configure-IsConfigured parsed conf s before root h)
