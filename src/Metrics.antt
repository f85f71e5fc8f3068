-- ===== src/Metrics.antt =====
-- extensions/metrics/filter.{h,cc}. 64-bit integers are their bit patterns; a signed sum or
-- difference that overflows wraps, as the instructions of WebAssembly do. The root context's
-- pointer to a configuration that has gone is read only while that is alive, and is left out.
pub mod Counters
pub mod Sizes
pub mod Requests
pub mod Totals
pub mod Streams
mod Tests
use envoy_wasm_filters.Base.{
  ℕ, ◌+◌, ◌-◌, ◌*◌, ◌/◌, ◌%◌, ◌^◌, ◌≡◌, Bool, true, false, Option, none, some, List, [], ◌∷◌, ◌++◌,
  ltb, if◌then◌else◌, is_empty, Bytes, text, bytes_eq, decimal,
}
use envoy_wasm_filters.Common.Context.{
  RequestInfo, Stream, TrafficDirection, outbound, get_traffic_direction,
  populate_http_request_info, new_request_info,
}

-- `message Config`.
pub record Config : Type 0 where
  pub stat_prefix : Bytes
  pub field_separator : Bytes
  pub value_separator : Bytes
  pub disable_host_header_fallback : Bool

pub data FilterStatus : Type 0 where
  continue : FilterStatus

pub data MetricType : Type 0 where
  counter gauge histogram : MetricType

-- The calls that reach the proxy, in order.
pub data MetricCall : Type 0 where
  increment_metric record_metric : (metric_id value : ℕ) → MetricCall

pub record WasmStats : Type 0 where
  pub destination_service : Bytes
  pub destination_port : Bytes
  pub request_protocol : Bytes
  pub response_code : Bytes
  pub response_flags : Bytes
  pub is_outbound : Bool

unfoldable pub map_request : RequestInfo → WasmStats → WasmStats
map_request request stats = record stats {
  destination_service = request.destination_service_host;
  destination_port = decimal request.destination_port;
  request_protocol = request.request_protocol;
  response_code = decimal request.response_code;
  response_flags = request.response_flag;
}

-- `Metric::resolveWithFields` gives the number of the metric with a type, a name and field values.
abbrev pub Resolver : Type 0
Resolver = MetricType → Bytes → List Bytes → ℕ

abbrev pub ValueExtractorFn : Type 0
ValueExtractorFn = RequestInfo → ℕ

pub record StatGen : Type 0 where
  pub name : Bytes
  pub metric_type : MetricType
  pub value_fn : ValueExtractorFn

pub record SimpleStat : Type 0 where
  pub metric_id : ℕ
  pub metric_type : MetricType
  pub value_fn : ValueExtractorFn

unfoldable pub resolve : Resolver → List Bytes → StatGen → SimpleStat
resolve resolver vals g = record {
  metric_id = resolver g.metric_type g.name vals;
  metric_type = g.metric_type;
  value_fn = g.value_fn;
}

-- The case of a counter has no `break`, and goes on into the default case.
unfoldable pub record_as : MetricType → ℕ → ℕ → List MetricCall
record_as counter metric_id value =
    increment_metric metric_id value ∷ record_metric metric_id value ∷ []
record_as gauge metric_id value = record_metric metric_id value ∷ []
record_as histogram metric_id value = record_metric metric_id value ∷ []

unfoldable pub record_stat : RequestInfo → SimpleStat → List MetricCall
unfolding record_as
record_stat info s = record_as s.metric_type s.metric_id (s.value_fn info)

unfoldable pub extauth_value : RequestInfo → ℕ
extauth_value info = if bytes_eq info.response_flag (text "UAEX") then 1 else 0

unfoldable pub ratelimited_value : RequestInfo → ℕ
ratelimited_value info = if bytes_eq info.response_flag (text "RL") then 1 else 0

-- The signed difference, divided toward zero, as an unsigned number.
unfoldable pub duration_value : RequestInfo → ℕ
duration_value info =
    let diff = (info.end_timestamp + 2 ^ 64 - info.start_timestamp) % 2 ^ 64 in
    if ltb diff (2 ^ 63) then diff / 1000000 else (2 ^ 64 - (2 ^ 64 - diff) / 1000000) % 2 ^ 64

-- The six metrics behind the prefix.
unfoldable pub stats_for : Bytes → List StatGen
stats_for prefix =
    record { name = prefix ++ text "requests_total"; metric_type = counter; value_fn = λ info. 1 }
    ∷ record {
      name = prefix ++ text "extauth_rejected_requests";
      metric_type = counter;
      value_fn = extauth_value;
    }
    ∷ record {
      name = prefix ++ text "ratelimited_requests";
      metric_type = counter;
      value_fn = ratelimited_value;
    }
    ∷ record {
      name = prefix ++ text "request_duration_milliseconds";
      metric_type = histogram;
      value_fn = duration_value;
    }
    ∷ record {
      name = prefix ++ text "request_bytes";
      metric_type = histogram;
      value_fn = λ info. info.request_size;
    }
    ∷ record {
      name = prefix ++ text "response_bytes";
      metric_type = histogram;
      value_fn = λ info. info.response_size;
    }
    ∷ []

pub record StatsRootContext : Type 0 where
  pub is_outbound : Bool
  pub use_host_header_fallback : Bool
  pub wasm_stats : WasmStats
  pub stats : List StatGen

abbrev is_outbound_direction : TrafficDirection → Bool
is_outbound_direction outbound = true
is_outbound_direction _ = false

abbrev default_stat_prefix : Bytes
default_stat_prefix = text "wasm"

-- The prefix of the configuration, or the default, between underscores.
unfoldable pub full_prefix : Config → Bytes
full_prefix config =
    text "_"
    ++ (if is_empty config.stat_prefix then default_stat_prefix else config.stat_prefix)
    ++ text "_"

-- `none` reads a null configuration. What the parser leaves in the message is a parameter: a status
-- other than ok is only logged.
unfoldable pub on_configure :
    (Bytes → Config) → Option Bytes → Stream → StatsRootContext → Option StatsRootContext
unfolding full_prefix stats_for
on_configure parsed none s root = none
on_configure parsed (some conf) s root =
    let direction = is_outbound_direction (get_traffic_direction s) in
    some (record root {
      is_outbound = direction;
      use_host_header_fallback = true;
      wasm_stats = record (root.wasm_stats) { is_outbound = direction };
      stats = stats_for (full_prefix (parsed conf));
    })

unfoldable pub report_stats : Resolver → RequestInfo → List StatGen → List MetricCall
unfolding resolve record_stat
report_stats resolver info [] = []
report_stats resolver info (g ∷ gs) =
    record_stat info (resolve resolver [] g) ++ report_stats resolver info gs

unfoldable pub report :
    Resolver → RequestInfo → StatsRootContext → StatsRootContext × List MetricCall
unfolding map_request report_stats
report resolver info root = (
  record root { wasm_stats = map_request info root.wasm_stats },
  report_stats resolver info root.stats,
)

-- The name that the factories of both contexts are registered under.
abbrev root_id : Bytes
root_id = text "stats_root_id"

-- A request's context is its information.
unfoldable pub on_request_headers : ℕ → RequestInfo → FilterStatus × RequestInfo
on_request_headers now info = (continue, record info { start_timestamp = now })

unfoldable pub on_request_body : ℕ → Bool → RequestInfo → FilterStatus × RequestInfo
on_request_body body_buffer_length end_of_stream info =
    (continue, record info { request_size = (info.request_size + body_buffer_length) % 2 ^ 64 })

unfoldable pub on_response_body : ℕ → Bool → RequestInfo → FilterStatus × RequestInfo
on_response_body body_buffer_length end_of_stream info =
    (continue, record info { response_size = (info.response_size + body_buffer_length) % 2 ^ 64 })

unfoldable pub on_log :
    Resolver
    → Stream
    → StatsRootContext
    → RequestInfo
    → RequestInfo × StatsRootContext × List MetricCall
unfolding report
on_log resolver s root info =
    let filled = populate_http_request_info root.is_outbound root.use_host_header_fallback s info in
    let (reported, calls) = report resolver filled root in (filled, reported, calls)
