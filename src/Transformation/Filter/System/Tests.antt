-- ===== src/Transformation/Filter/System/Tests.antt =====
-- Interleavings of two requests, and the theorems on them.
use envoy_wasm_filters.Base.{
  update, ℕ, ◌<◌, ◌≡◌, ◌≢◌, refl, ◌↔◌, Option, none, some, [], ◌∷◌, arith, if◌then◌else◌, Bytes,
  text, bytes_eq,
}
use envoy_wasm_filters.Transformation.Transformer.{new_transformer}
use envoy_wasm_filters.Transformation.Routes.{Config, new_optional, new_route, new_config}
use envoy_wasm_filters.Transformation.Filter.{
  json_text, RoutePointer, continue, configure, on_configure, on_request_headers,
  on_response_headers,
}
use envoy_wasm_filters.Transformation.Filter.Exchange.{Exchanged}
use envoy_wasm_filters.Transformation.Filter.System.{
  System, Event, configured, created, request_headers, new_system, with_root, with_context, step,
  Run, here, later, latest_rules, accepted,
}
use envoy_wasm_filters.Transformation.Filter.System.Invariant.{IsValid, Run-IsValid}
use envoy_wasm_filters.Transformation.Filter.System.Interleaved.{Run-Exchanged, Run-none_iff}
use envoy_wasm_filters.Transformation.Instances.{
  asked, counted, strings, literal, lookup, lookup-IsHeaderMap, no_headers, rules, config,
}

abbrev parse : Bytes → Option Config
parse t = if bytes_eq t (text "{}") then some rules else none

abbrev Call : Type 0
Call = Event counted strings literal lookup

abbrev first : System counted strings literal lookup
first = new_system counted strings literal lookup []

abbrev in_place : System counted strings literal lookup
in_place = record first {
  root = record { header_value = []; transformation_config = some config; epoch = 1 };
}

abbrev held : System counted strings literal lookup
held = record in_place {
  contexts =
      update in_place.contexts 7
        (on_request_headers counted strings literal lookup in_place.root asked (in_place.contexts 7)
          no_headers).1;
}

abbrev other_created : System counted strings literal lookup
other_created = record held { contexts = update held.contexts 8 (record { transformation = none }) }

abbrev configure_call : Call
configure_call = configured (json_text (text "{}"))

abbrev request_call : Call
request_call = request_headers 7 asked no_headers

configured_step : step counted strings literal lookup parse configure_call first ≡ some in_place
unfolding step with_root new_system on_configure configure new_config new_route new_optional
    new_transformer bytes_eq
configured_step = refl

configured-Run : Run counted strings literal lookup parse first (configure_call ∷ []) in_place
configured-Run = later configure_call here configured_step

request_stepped : step counted strings literal lookup parse request_call in_place ≡ some held
unfolding step with_context
request_stepped = refl

created_step : step counted strings literal lookup parse (created 8) held ≡ some other_created
unfolding step
created_step = refl

created-Run : Run counted strings literal lookup parse held (created 8 ∷ []) other_created
created-Run = later (created 8) here created_step

latest_run : latest_rules counted strings literal lookup parse (configure_call ∷ []) ≡ some rules
unfolding latest_rules bytes_eq
latest_run = refl

other_request : ◌≢◌ {A = ℕ} 8 7
other_request e = absurd (omega arith)

Run-Exchanged_example :
    (let first_answer =
        on_request_headers counted strings literal lookup in_place.root asked
          (in_place.contexts 7)
          no_headers in
      (first_answer.0 ≡ continue)
      × ((x : lookup.World) × (on_response_headers counted strings literal lookup other_created.root
              []
              (other_created.contexts 7)
              no_headers
            ≡ some (continue, other_created.contexts 7, x))
          × Exchanged counted strings literal lookup rules asked [] no_headers no_headers
              first_answer.2 x))
Run-Exchanged_example =
    Run-Exchanged counted strings literal lookup parse [] 7 rules asked [] no_headers no_headers
      lookup-IsHeaderMap configured-Run latest_run request_stepped created-Run (other_request, tt)

Run-IsValid_example :
    IsValid counted strings literal lookup parse
      (latest_rules counted strings literal lookup parse (request_call ∷ configure_call ∷ []))
      (accepted counted strings literal lookup parse (request_call ∷ configure_call ∷ []))
      held
Run-IsValid_example =
    Run-IsValid counted strings literal lookup parse []
      (later request_call configured-Run request_stepped)

-- The same text again, between the request and its response.
abbrev replaced_state : System counted strings literal lookup
replaced_state = record held { root = record (held.root) { epoch = 2 } }

replaced_step : step counted strings literal lookup parse configure_call held ≡ some replaced_state
unfolding step with_root on_configure configure new_config new_route new_optional new_transformer
    bytes_eq
replaced_step = refl

replaced-Run :
    Run counted strings literal lookup parse first
      (configure_call ∷ request_call ∷ configure_call ∷ [])
      replaced_state
replaced-Run =
    later configure_call (later request_call configured-Run request_stepped) replaced_step

Run-none_iff_example :
    (on_response_headers counted strings literal lookup replaced_state.root []
        (replaced_state.contexts 7)
        no_headers
      ≡ none)
    ↔ ((p : RoutePointer counted strings literal) × ((replaced_state.contexts 7).transformation
          ≡ some p)
        × (p.epoch
            < accepted counted strings literal lookup parse
                (configure_call ∷ request_call ∷ configure_call ∷ [])))
Run-none_iff_example =
    Run-none_iff counted strings literal lookup parse [] 7 [] no_headers replaced-Run
