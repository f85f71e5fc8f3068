-- ===== src/Transformation/Tests.antt =====
-- Runs of the matchers, the routes and the filter, and the theorems on them at concrete inputs.
use envoy_wasm_filters.Base.{
  ◌≡◌, refl, ◌↔◌, true, Option, none, some, List, [], ◌∷◌, ◌++◌, arith, if◌then◌else◌, Bytes, text,
  bytes_eq, All,
}
use envoy_wasm_filters.Transformation.Matcher.{
  prefix_match, exact_match, present_match, HeaderMatch, MatcherImpl, present_matcher, matches,
  new_matcher, impl_matches, construct,
}
use envoy_wasm_filters.Transformation.Matcher.Specifiers.{Fits, matches_iff}
use envoy_wasm_filters.Transformation.Matcher.Entries.{last_for}
use envoy_wasm_filters.Transformation.Matcher.Laws.{HasFitting, impl_matches-construct}
use envoy_wasm_filters.Transformation.Engine.{ok, thrown}
use envoy_wasm_filters.Transformation.Transformer.{new_transformer}
use envoy_wasm_filters.Transformation.Routes.{Config, new_optional, new_route, new_config}
use envoy_wasm_filters.Transformation.Routes.Laws.{IsFirst}
use envoy_wasm_filters.Transformation.Filter.{
  RootContext, Context, on_request_headers, on_response_headers,
}
use envoy_wasm_filters.Base.{bytes_eq_iff}
use envoy_wasm_filters.Transformation.Matcher.{exact_matcher}
use envoy_wasm_filters.Transformation.Matcher.Entries.{map_find, HasDistinctKeys}
use envoy_wasm_filters.Transformation.Matcher.Laws.{impl_matches_order}
use envoy_wasm_filters.Transformation.Filter.{
  Configuration, null_data, json_text, configure, on_configure,
}
use envoy_wasm_filters.Transformation.Filter.Configured.{configure_all, last_accepted}
use envoy_wasm_filters.Transformation.Transformer.Throwing.{outside_range}
use envoy_wasm_filters.Transformation.Transformer.Tests.{out_of_range}
use envoy_wasm_filters.Transformation.Filter.Throwing.{
  rules_of, FailsConfig, on_configure-thrown_iff,
}
use envoy_wasm_filters.Transformation.Routes.{RouteTransformers}
use envoy_wasm_filters.Transformation.Filter.Lifetime.{on_response_headers-none_iff}
use envoy_wasm_filters.Transformation.Instances.{
  specifiers, asked, counted, strings, literal, lookup, no_headers, rules, config,
}

impl_matches-construct_example :
    (impl_matches (construct specifiers) asked ≡ true)
    ↔ All (λ h. HasFitting asked h.name (last_for h.name specifiers none)) specifiers
impl_matches-construct_example = impl_matches-construct specifiers asked

matches_iff_example :
    (matches (new_matcher (prefix_match (text "tw"))) (text "two") ≡ true)
    ↔ Fits (prefix_match (text "tw")) (text "two")
matches_iff_example = matches_iff (prefix_match (text "tw")) (text "two")

abbrev root : RootContext counted strings literal
root = record { header_value = []; transformation_config = some config; epoch = 1 }

abbrev fresh : Context counted strings literal
fresh = record { transformation = none }

-- The same entries in another order.
abbrev two_names : List HeaderMatch
two_names =
    record { name = text "x"; specifier = exact_match (text "two") }
    ∷ record { name = text "yy"; specifier = present_match true }
    ∷ []

abbrev reversed : MatcherImpl
reversed = (text "yy", present_matcher) ∷ (text "x", exact_matcher (text "two")) ∷ []

reversed-HasDistinctKeys : HasDistinctKeys reversed
unfolding map_find bytes_eq
reversed-HasDistinctKeys = (refl, (refl, tt))

reversed_same : (name : Bytes) → map_find name reversed ≡ map_find name (construct two_names)
unfolding map_find construct bytes_eq
reversed_same name = ground (arith, bytes_eq_iff (text "x") name, bytes_eq_iff (text "yy") name)

impl_matches_order_example : impl_matches reversed asked ≡ impl_matches (construct two_names) asked
impl_matches_order_example =
    impl_matches_order two_names reversed asked reversed-HasDistinctKeys reversed_same

-- The parser of a configuration, which knows one text.
abbrev parse : Bytes → Option Config
parse t = if bytes_eq t (text "{}") then some rules else none

abbrev confs : List Configuration
confs = json_text (text "{}") ∷ json_text (text "?") ∷ null_data ∷ []

abbrev unconfigured : RootContext counted strings literal
unconfigured = record { header_value = []; transformation_config = none; epoch = 0 }

configured_run : configure_all counted strings literal parse confs unconfigured ≡ ok root
unfolding configure_all on_configure configure new_config new_route new_optional new_transformer
    bytes_eq
configured_run = refl

accepted_run : last_accepted counted strings literal parse confs none ≡ some rules
unfolding last_accepted bytes_eq
accepted_run = refl

-- A text between the request and the response that the parser refuses.
abbrev refused : List Configuration
refused = json_text (text "?") ∷ []

refused_run : configure_all counted strings literal parse refused root ≡ ok root
unfolding configure_all on_configure configure bytes_eq
refused_run = refl

none_accepted : last_accepted counted strings literal parse refused none ≡ none
unfolding last_accepted bytes_eq
none_accepted = refl

-- The same text again, which makes the configuration anew.
abbrev again : List Configuration
again = json_text (text "{}") ∷ []

abbrev root_again : RootContext counted strings literal
root_again = record root { epoch = 2 }

again_run : configure_all counted strings literal parse again root ≡ ok root_again
unfolding configure_all on_configure configure new_config new_route new_optional new_transformer
    bytes_eq
again_run = refl

on_response_headers-none_iff_example :
    (on_response_headers counted strings literal lookup root_again []
        (on_request_headers counted strings literal lookup root asked fresh no_headers).1
        no_headers
      ≡ none)
    ↔ (((r : RouteTransformers counted strings literal) × IsFirst counted strings literal rules
            asked r)
        × ((later : Config) × (last_accepted counted strings literal parse again none
              ≡ some later)))
on_response_headers-none_iff_example =
    on_response_headers-none_iff counted strings literal lookup parse confs again unconfigured root
      root_again rules asked [] fresh no_headers no_headers configured_run accepted_run again_run

-- A second rule, whose response transformation asks for a group that is not there.
abbrev bad_rules : Config
bad_rules =
    rules
    ++ record {
      match = specifiers;
      route_transformations = record {
        request_transformation = none;
        response_transformation = some out_of_range;
      };
    }
      ∷ []

abbrev parse_bad : Bytes → Option Config
parse_bad t = some bad_rules

thrown_run :
    on_configure counted strings literal parse_bad (json_text (text "{}")) unconfigured
    ≡ thrown outside_range
unfolding on_configure configure new_config new_route new_optional new_transformer
thrown_run = refl

on_configure-thrown_iff_example :
    (on_configure counted strings literal parse_bad (json_text (text "{}")) unconfigured
      ≡ thrown outside_range)
    ↔ FailsConfig counted strings literal (rules_of parse_bad (json_text (text "{}"))) outside_range
on_configure-thrown_iff_example =
    on_configure-thrown_iff counted strings literal parse_bad (json_text (text "{}")) unconfigured
      outside_range
