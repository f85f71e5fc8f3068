-- ===== src/Transformation/Filter/Copying.antt =====
-- The configuration of extensions/transformation/README.md: the responses of requests whose header
-- begins with a prefix get a copy of a header, and a constant one.
mod Tests
use envoy_wasm_filters.Base.{◌≡◌, sym, none, some, List, [], ◌∷◌, map, Bytes}
use envoy_wasm_filters.Transformation.Headers.{Headers}
use envoy_wasm_filters.Transformation.Engine.{ok, Regexes, Values, Templates, HeaderMap}
use envoy_wasm_filters.Transformation.Matcher
use envoy_wasm_filters.Transformation.Matcher.{prefix_match, new_matcher, entry_matches}
use envoy_wasm_filters.Transformation.Transformer.{
  InjaTransformer, to_lower, string_or_empty, header_callback, callbacks, extractions_of, render,
}
use envoy_wasm_filters.Transformation.Routes.{
  TransformationRule, RouteTransformers, TransformationConfig,
}

-- A rule for requests whose header `name` begins with a prefix, with templates for two headers of
-- their responses.
abbrev pub copying_rule : (name prefix target template other constant : Bytes) → TransformationRule
copying_rule name prefix target template other constant = record {
  match = record { name = name; specifier = prefix_match prefix } ∷ [];
  route_transformations = record {
    request_transformation = none;
    response_transformation =
        some (record { extractors = []; headers = (target, template) ∷ (other, constant) ∷ [] });
  };
}

module _ (R : Regexes) (V : Values) (T : Templates V) (M : HeaderMap)
    (name prefix target template other constant : Bytes) (t u : T.Template)
    (parsed : T.parse template ≡ ok t) (parsed_other : T.parse constant ≡ ok u) where
  abbrev rule : TransformationRule
  rule = copying_rule name prefix target template other constant

  abbrev copier : InjaTransformer R V T
  copier = record {
    extractors = [];
    headers = (map to_lower target, t) ∷ (map to_lower other, u) ∷ [];
  }

  abbrev route : RouteTransformers R V T
  route = record { request = none; response = some copier }

  abbrev routes : TransformationConfig R V T
  routes =
      (Matcher.construct (record { name = name; specifier = prefix_match prefix } ∷ []), route) ∷ []
