-- ===== src/Common/Tests.antt =====
-- Runs of the common helpers, and the theorems at concrete inputs.
use envoy_wasm_filters.Base.{◌≡◌, refl, true, false, none, some, [], text, arith}
use envoy_wasm_filters.Common.ResponseFlag.{parse_response_flag, append_if, append_string}
use envoy_wasm_filters.Common.ResponseFlag.Names.{tokens, flag_text, parse_response_flag_lem}
use envoy_wasm_filters.Common.ResponseFlag.Decode.{decode_flags, decode_flags-parse_response_flag}
use envoy_wasm_filters.Common.Context.{new_request_info, Stream, populate_http_request_info}
use envoy_wasm_filters.Common.Context.Laws.{populate_twice}

-- Two flags, and a number past the last flag.
two_flags : parse_response_flag 0x1800 ≡ text "RL,UAEX"
unfolding parse_response_flag append_if append_string
two_flags = refl

parse_response_flag_lem_example : parse_response_flag 0x81800 ≡ flag_text (tokens 0x81800)
parse_response_flag_lem_example = parse_response_flag_lem 0x81800

decode_flags-parse_response_flag_example : decode_flags (parse_response_flag 0x81800) ≡ 0x81800
decode_flags-parse_response_flag_example = decode_flags-parse_response_flag 0x81800

abbrev stream : Stream
stream = record {
  current_time_nanoseconds = 5;
  listener_direction = some 2;
  response_code = some 200;
  response_flags = none;
  cluster_name = none;
  url_path = some (text "/");
  request_header = λ name. text "a.b";
}

populate_twice_example :
    (let once = populate_http_request_info true true stream new_request_info in
      let twice = populate_http_request_info false false stream once in
      (once.destination_service_host ≡ text "a.b")
      × (once.destination_service_name ≡ [])
      × (twice.destination_service_host ≡ text "a.b")
      × (twice.destination_service_name ≡ text "a.b"))
populate_twice_example =
    populate_twice true false false stream stream new_request_info refl refl (omega arith)
