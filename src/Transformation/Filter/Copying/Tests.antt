-- ===== src/Transformation/Filter/Copying/Tests.antt =====
-- The copied header at a concrete request and response.
use envoy_wasm_filters.Base.{Option, none, some, [], ◌∷◌, Bytes, text}
use envoy_wasm_filters.Transformation.Headers.{Headers}
use envoy_wasm_filters.Transformation.Routes.{Config}
use envoy_wasm_filters.Transformation.Filter.{RootContext, Context}
use envoy_wasm_filters.Transformation.Filter.Copying.{copying_rule}
use envoy_wasm_filters.Transformation.Instances.{counted, strings, reader}

-- "X-Copy" reads ":status", and "X-Constant" is a text, for requests whose "x" begins with "tw".
abbrev parse : Bytes → Option Config
parse conf = some (
    copying_rule (text "x") (text "tw") (text "X-Copy") (text "$:status") (text "X-Constant")
      (text "foo")
    ∷ [])

abbrev unconfigured : RootContext counted strings reader
unconfigured = record { header_value = []; transformation_config = none; epoch = 0 }

abbrev fresh : Context counted strings reader
fresh = record { transformation = none }

abbrev replied : Headers
replied = (text ":status", text "200") ∷ []
