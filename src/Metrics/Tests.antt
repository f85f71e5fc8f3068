-- ===== src/Metrics/Tests.antt =====
-- The theorems on the metrics at concrete inputs.
use envoy_wasm_filters.Base.{
  ℕ, ◌==◌, ◌≢◌, ◌+◌, ◌≡◌, refl, true, false, none, some, List, [], ◌∷◌, arith, length, Bytes, text,
}
use envoy_wasm_filters.Common.Context.{new_request_info, Stream, get_traffic_direction}
use envoy_wasm_filters.Metrics.{
  Config, WasmStats, counter, histogram, Resolver, StatsRootContext, stats_for, full_prefix,
  on_configure,
}
use envoy_wasm_filters.Metrics.Sizes.{
  Event, request_headers, request_body, response_body, handle_all,
}
use envoy_wasm_filters.Metrics.Totals.{log_all, how_many, HasDistinctIds, Adds, log_all-Adds}
use envoy_wasm_filters.Metrics.{gauge}
use envoy_wasm_filters.Common.Context.{RequestInfo}

abbrev pub parsed : Bytes → Config
parsed conf = record {
  stat_prefix = [];
  field_separator = [];
  value_separator = [];
  disable_host_header_fallback = true;
}

abbrev no_stats : WasmStats
no_stats = record {
  destination_service = [];
  destination_port = [];
  request_protocol = [];
  response_code = [];
  response_flags = [];
  is_outbound = false;
}

abbrev pub unconfigured : StatsRootContext
unconfigured = record {
  is_outbound = false;
  use_host_header_fallback = false;
  wasm_stats = no_stats;
  stats = [];
}

abbrev pub stream : Stream
stream = record {
  current_time_nanoseconds = 7000000;
  listener_direction = none;
  response_code = some 200;
  response_flags = some 0x1800;
  cluster_name = none;
  url_path = some (text "/");
  request_header = λ name. text "a.b";
}

abbrev pub configured_root : StatsRootContext
configured_root = record unconfigured {
  use_host_header_fallback = true;
  stats = stats_for (full_prefix (parsed (text "{}")));
}

pub configured_run :
    on_configure parsed (some (text "{}")) stream unconfigured ≡ some configured_root
unfolding on_configure get_traffic_direction
configured_run = refl

abbrev pub sizes : Resolver
sizes metric_type name vals = length name

abbrev events : List Event
events = request_headers 3 ∷ request_body 10 false ∷ response_body 7 true ∷ request_body 5 true ∷ []

-- A number for each of the metrics: the length of the name, and more for a histogram.
abbrev numbered : Resolver
numbered counter name vals = length name
numbered gauge name vals = 100 + length name
numbered histogram name vals = 200 + length name

ne : (m n : ℕ) → (m == n) ≡ false → m ≢ n
ne m n h e = ground (arith, h, e)

numbered-HasDistinctIds : HasDistinctIds numbered (stats_for (full_prefix (parsed (text "{}"))))
unfolding stats_for full_prefix
numbered-HasDistinctIds = (
  (ne _ _ refl, (ne _ _ refl, (ne _ _ refl, (ne _ _ refl, (ne _ _ refl, tt))))),
  (
    (ne _ _ refl, (ne _ _ refl, (ne _ _ refl, (ne _ _ refl, tt)))),
    (
      (ne _ _ refl, (ne _ _ refl, (ne _ _ refl, tt))),
      ((ne _ _ refl, (ne _ _ refl, tt)), ((ne _ _ refl, tt), (tt, tt))),
    ),
  ),
)

-- Three requests, of which one is rate limited and no more.
abbrev logged : List (Stream × RequestInfo)
logged =
    (stream, new_request_info)
    ∷ (record stream { response_flags = some 0x800 }, handle_all events new_request_info)
    ∷ (record stream { response_flags = none }, new_request_info)
    ∷ []

log_all-Adds_example :
    (let prefix = full_prefix (parsed (text "{}")) in
      let calls = log_all numbered logged configured_root in
      Adds numbered prefix (text "requests_total") 3 calls
      × Adds numbered prefix (text "extauth_rejected_requests") (how_many 0x1000 logged) calls
      × Adds numbered prefix (text "ratelimited_requests") (how_many 0x800 logged) calls)
log_all-Adds_example =
    log_all-Adds parsed (text "{}") stream unconfigured configured_root numbered logged
      numbered-HasDistinctIds configured_run
