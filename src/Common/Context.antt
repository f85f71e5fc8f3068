-- ===== src/Common/Context.antt =====
-- extensions/common/context.{h,cc}. 64-bit and 32-bit integers are their bit patterns. The proxy's
-- calls, which read properties of the stream and headers of the request, are parameters.
pub mod Laws
use envoy_wasm_filters.Base.{
  ℕ, ◌%◌, ◌^◌, ◌≡◌, Bool, true, false, not, ◌||◌, Option, none, some, List, [], ◌∷◌, ◌++◌, ◌==◌,
  if◌then◌else◌, is_empty, Bytes, text, bytes_eq,
}
use envoy_wasm_filters.Common.ResponseFlag.{parse_response_flag}

abbrev authority_header_key : Bytes
authority_header_key = text ":authority"

abbrev method_header_key : Bytes
method_header_key = text ":method"

abbrev content_type_header_key : Bytes
content_type_header_key = text "content-type"

abbrev protocol_http : Bytes
protocol_http = text "http"

abbrev protocol_grpc : Bytes
protocol_grpc = text "grpc"

pub data ServiceAuthenticationPolicy : Type 0 where
  unspecified none_policy mutual_tls : ServiceAuthenticationPolicy

abbrev mutual_tls_name : Bytes
mutual_tls_name = text "MUTUAL_TLS"

abbrev none_name : Bytes
none_name = text "NONE"

unfoldable pub authentication_policy_string : ServiceAuthenticationPolicy → Bytes
authentication_policy_string none_policy = none_name
authentication_policy_string mutual_tls = mutual_tls_name
authentication_policy_string unspecified = []

pub record RequestInfo : Type 0 where
  pub start_timestamp : ℕ
  pub end_timestamp : ℕ
  pub request_size : ℕ
  pub response_size : ℕ
  pub destination_port : ℕ
  pub request_protocol : Bytes
  pub response_code : ℕ
  pub response_flag : Bytes
  pub destination_service_host : Bytes
  pub destination_service_name : Bytes
  pub request_operation : Bytes
  pub request_url_path : Bytes

-- The members' default values.
abbrev pub new_request_info : RequestInfo
new_request_info = record {
  start_timestamp = 0;
  end_timestamp = 0;
  request_size = 0;
  response_size = 0;
  destination_port = 0;
  request_protocol = [];
  response_code = 0;
  response_flag = [];
  destination_service_host = [];
  destination_service_name = [];
  request_operation = [];
  request_url_path = [];
}

-- Nothing in the program makes one.
pub record RequestContext : Type 0 where
  pub is_outbound : Bool
  pub request : RequestInfo

abbrev pub RequestHeaders : Type 0
RequestHeaders = Bytes → Bytes

-- `getValue` and `getStringValue` give nothing where the property is missing; a header that is
-- missing has an empty value.
pub record Stream : Type 0 where
  pub current_time_nanoseconds : ℕ
  pub listener_direction : Option ℕ
  pub response_code : Option ℕ
  pub response_flags : Option ℕ
  pub cluster_name : Option Bytes
  pub url_path : Option Bytes
  pub request_header : RequestHeaders

-- The value that an out-parameter has after the call.
abbrev pub out_value {ℓ} : {A : Type ℓ} → A → Option A → A
out_value before none = before
out_value before (some v) = v

-- The pieces of a text at the commas: the loop over `std::getline`.
split_commas : Bytes → Bytes → List Bytes
split_commas substr [] = substr ∷ []
split_commas substr (c ∷ s) =
    let cut = substr ∷ split_commas [] s in
    let longer = split_commas (substr ++ c ∷ []) s in if c == b',' then cut else longer

abbrev first_or : Bytes → List Bytes → Bytes
first_or service_name [] = service_name
first_or service_name (first ∷ more) = first

unfoldable pub extract_service_name : Bytes → Bytes → Bytes
unfolding split_commas
extract_service_name fqdn service_name = first_or service_name (split_commas [] fqdn)

pub data TrafficDirection : Type 0 where
  unspecified inbound outbound : TrafficDirection
  other : ℕ → TrafficDirection

-- `static_cast<TrafficDirection>`, which keeps a number that has no name.
unfoldable pub to_direction : ℕ → TrafficDirection
to_direction n =
    if n == 0
    then TrafficDirection.unspecified
    else if n == 1
    then inbound
    else if n == 2
    then outbound
    else other n

direction_or_unspecified : Option ℕ → TrafficDirection
direction_or_unspecified none = TrafficDirection.unspecified
direction_or_unspecified (some n) = to_direction n

unfoldable pub get_traffic_direction : Stream → TrafficDirection
unfolding to_direction direction_or_unspecified
get_traffic_direction s = direction_or_unspecified s.listener_direction

-- `kGrpcContentTypes`.
unfoldable pub is_grpc_content_type : Bytes → Bool
is_grpc_content_type value =
    bytes_eq value (text "application/grpc")
    || bytes_eq value (text "application/grpc+proto")
    || bytes_eq value (text "application/grpc+json")

-- The destination's host and name, after the request's time, code and protocol.
unfoldable pub fill_destination : Bool → Stream → RequestInfo → RequestInfo
fill_destination use_host_header_fallback s r =
    if not (is_empty r.destination_service_host)
    then record r {
      destination_service_name =
          extract_service_name r.destination_service_host r.destination_service_name;
    }
    else if use_host_header_fallback
    then record r { destination_service_host = s.request_header authority_header_key }
    else r

-- The 64-bit code that is read is cut to the 32 bits of the member.
code_value : ℕ → Option ℕ → ℕ
code_value before none = before
code_value before (some code) = code % 2 ^ 32

-- The cluster's name is read and not used. The port is 0.
unfoldable pub populate_http_request_info : Bool → Bool → Stream → RequestInfo → RequestInfo
unfolding fill_destination is_grpc_content_type code_value
populate_http_request_info out_bound use_host_header_fallback s request_info =
    let r = record request_info { end_timestamp = s.current_time_nanoseconds } in
    let r = record r { response_code = code_value r.response_code s.response_code } in
    let r = record r {
      request_protocol =
          if is_grpc_content_type (s.request_header content_type_header_key)
          then protocol_grpc
          else protocol_http;
    } in
    let r = fill_destination use_host_header_fallback s r in
    let r = record r { request_operation = s.request_header method_header_key } in
    let r = record r { request_url_path = out_value r.request_url_path s.url_path } in
    let r = record r { destination_port = 0 } in
    record r { response_flag = parse_response_flag (out_value 0 s.response_flags) }
