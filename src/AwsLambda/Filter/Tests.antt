-- ===== src/AwsLambda/Filter/Tests.antt =====
-- Runs of the callbacks, and the theorems on them at concrete inputs.
use envoy_wasm_filters.Base.{◌≡◌, refl, true, false, none, some, List, [], ◌∷◌, if◌then◌else◌}
use envoy_wasm_filters.AwsLambda.Authenticator.Signing.{construct}
use envoy_wasm_filters.AwsLambda.Filter.{Event, request_headers, request_body, create, handle_all}
use envoy_wasm_filters.AwsLambda.Filter.Laws.{any_signs, handle_all-keyless}
use envoy_wasm_filters.AwsLambda.Instances.{echo, list_host, exact, request}

abbrev events : List Event
events = request_headers ∷ request_body 2 true ∷ []

created_keyless : (create echo list_host exact false 0 0).aws_authenticator.access_key ≡ none
unfolding create construct
created_keyless = refl

handle_all-keyless_example :
    handle_all echo list_host exact events (create echo list_host exact false 0 0) request ≡ (
      if any_signs echo list_host exact events request
      then none
      else some (create echo list_host exact false 0 0, request))
handle_all-keyless_example =
    handle_all-keyless echo list_host exact events (create echo list_host exact false 0 0) request
      created_keyless
