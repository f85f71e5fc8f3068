-- ===== src/Transformation/Filter/Exchange.antt =====
-- What the route of a request does to its headers and to those of its response, from the messages of
-- the configuration to the values of the headers.
use envoy_wasm_filters.Base.{
  ◌≡◌, refl, ap, ◌∙◌, inl, inr, Option, none, some, Bytes, Option-cases, All, arith,
}
use envoy_wasm_filters.Transformation.Headers.{Headers}
use envoy_wasm_filters.Transformation.Engine.{
  ok, Regexes, Values, Templates, HeaderMap, IsHeaderMap,
}
use envoy_wasm_filters.Transformation.Matcher.{MatcherImpl}
use envoy_wasm_filters.Transformation.Results.{>>=-eq-ok}
use envoy_wasm_filters.Transformation.Transformer.{
  Transformation, InjaTransformer, new_transformer, transform,
}
use envoy_wasm_filters.Transformation.Transformer.Make.{IsMade, new_transformer-ok_iff}
use envoy_wasm_filters.Transformation.Transformer.Rewrite.{rewritten}
use envoy_wasm_filters.Transformation.Transformer.Spec.{output_of, transform-rewritten}
use envoy_wasm_filters.Transformation.Routes.{
  Config, TransformationRule, RouteTransformers, TransformationConfig, new_optional, new_route,
  new_config, get_route_transformation,
}
use envoy_wasm_filters.Transformation.Routes.Laws.{
  Matches, IsFirst, get_route_transformation-IsFirst, get_route_transformation-none,
}
use envoy_wasm_filters.Transformation.Filter.{transform_optional, apply_request, apply_response}
use envoy_wasm_filters.Transformation.Filter.Laws.{caught-final}

module _ (R : Regexes) (V : Values) (T : Templates V) where
  -- What a transformation of the configuration does to the headers: nothing where there is none, and
  -- otherwise what its templates make of each header.
  abbrev pub Rewrites :
      (M : HeaderMap) → Option Transformation → Headers → M.World → M.World → Type 0
  Rewrites M none pairs w v = v ≡ w
  Rewrites M (some t) pairs w v =
      (x : InjaTransformer R V T) × IsMade R V T t x
      × ((k : Bytes) → M.get k v ≡ rewritten (output_of R V T x pairs) x.headers k (M.get k w))

  transform_optional-Rewrites :
      (M : HeaderMap) (t : Option Transformation) (x : Option (InjaTransformer R V T))
      → (pairs : Headers) (w : M.World) → IsHeaderMap M
      → new_optional R V T t ≡ ok x
      → Rewrites M t pairs w (transform_optional R V T M x pairs w)
  unfolding new_optional transform_optional
  transform_optional-Rewrites M none x pairs w laws made =
      let same : none ≡ x = cc in rw (← same) refl
  transform_optional-Rewrites M (some t) x pairs w laws made =
      let (y, built, e) = >>=-eq-ok (new_transformer R V T t) _ x made in
      let same : some y ≡ x = cc in
      rw (← same) (
        y,
        (new_transformer-ok_iff R V T t y).0 built,
        λ k.
            ap (M.get k) (caught-final (transform R V T M y pairs w))
            ∙ transform-rewritten R V T M laws y pairs w k,
      )

  new_route-parts :
      (rule : TransformationRule) (route : RouteTransformers R V T) (m : MatcherImpl)
      → new_route R V T rule ≡ ok (m, route)
      → (new_optional R V T rule.route_transformations.request_transformation ≡ ok route.request)
        × (new_optional R V T rule.route_transformations.response_transformation
            ≡ ok route.response)
  unfolding new_route
  new_route-parts rule route m made = ground arith

  -- A request and its response: the request matches no rule and both stay as they were, or the
  -- transformations of the first rule that it matches have rewritten both.
  pub data Exchanged (M : HeaderMap) (rules : Config) (pairs replies : Headers) (w v : M.World)
      : M.World → M.World → Type 0 where
    unmatched : All (λ r. ¬ (Matches pairs r)) rules → Exchanged M rules pairs replies w v w v
    routed :
        (route : RouteTransformers R V T) (first : IsFirst R V T rules pairs route)
        → (asked replied : M.World)
        → Rewrites M first.rule.route_transformations.request_transformation pairs w asked
        → Rewrites M first.rule.route_transformations.response_transformation replies v replied
        → Exchanged M rules pairs replies w v asked replied

  pub with_route-Exchanged :
      (M : HeaderMap) (rules : Config) (cs : TransformationConfig R V T) (pairs replies : Headers)
      → (w v : M.World) → IsHeaderMap M
      → new_config R V T rules ≡ ok cs
      → Exchanged M rules pairs replies w v
          (apply_request R V T M (get_route_transformation R V T cs pairs) pairs w)
          (apply_response R V T M (get_route_transformation R V T cs pairs) replies v)
  unfolding apply_request apply_response
  with_route-Exchanged M rules cs pairs replies w v laws made =
      elim (Option-cases (get_route_transformation R V T cs pairs)) [
        | inl no_route ↦
            rw no_route
              (unmatched (get_route_transformation-none R V T rules cs pairs made no_route))
        | inr (route, found) ↦
            let first = get_route_transformation-IsFirst R V T rules cs pairs route made found in
            let (request, response) = new_route-parts first.rule route _ first.made in
            rw found (
              routed route first _ _
                (transform_optional-Rewrites M _ route.request pairs w laws request)
                (transform_optional-Rewrites M _ route.response replies v laws response))
      ]
