-- ===== src/Transformation/Routes.antt =====
-- extensions/transformation/transformation.{h,cc}: `TransformationConfig`, with the messages of
-- filter.proto that it reads. A message field that is not set is `none`, or for `match` the empty
-- list.
pub mod Laws
pub mod Make
use envoy_wasm_filters.Base.{
  ℕ, ◌≡◌, Bool, true, false, Option, none, some, List, [], ◌∷◌, if◌then◌else◌, Bytes,
}
use envoy_wasm_filters.Transformation.Headers.{Headers}
use envoy_wasm_filters.Transformation.Matcher
use envoy_wasm_filters.Transformation.Matcher.{HeaderMatch, MatcherImpl, impl_matches}
use envoy_wasm_filters.Transformation.Engine.{Result, ok, thrown, ◌>>=◌, Regexes, Values, Templates}
use envoy_wasm_filters.Transformation.Transformer.{Transformation, InjaTransformer, new_transformer}

pub record RouteTransformations : Type 0 where
  pub request_transformation : Option Transformation
  pub response_transformation : Option Transformation

pub record TransformationRule : Type 0 where
  pub match : List HeaderMatch
  pub route_transformations : RouteTransformations

abbrev pub Config : Type 0
Config = List TransformationRule

module _ (R : Regexes) (V : Values) (T : Templates V) where
  pub record RouteTransformers : Type 0 where
    pub request : Option (InjaTransformer R V T)
    pub response : Option (InjaTransformer R V T)

  abbrev pub TransformationConfig : Type 0
  TransformationConfig = List (MatcherImpl × RouteTransformers)

  unfoldable pub new_optional : Option Transformation → Result (Option (InjaTransformer R V T))
  new_optional none = ok none
  new_optional (some t) = do x ← new_transformer R V T t; ok (some x)

  unfoldable pub new_route : TransformationRule → Result (MatcherImpl × RouteTransformers)
  unfolding new_optional
  new_route rule = do
    request ← new_optional rule.route_transformations.request_transformation
    response ← new_optional rule.route_transformations.response_transformation
    ok (Matcher.construct rule.match, record { request = request; response = response })

  unfoldable pub new_config : Config → Result TransformationConfig
  unfolding new_route
  new_config [] = ok []
  new_config (rule ∷ rules) =
      let rest = new_config rules in do route ← new_route rule; routes ← rest; ok (route ∷ routes)

  unfoldable pub get_route_transformation :
      TransformationConfig → Headers → Option RouteTransformers
  get_route_transformation [] headers = none
  get_route_transformation ((matcher, route) ∷ transformations) headers =
      if impl_matches matcher headers
      then some route
      else get_route_transformation transformations headers
