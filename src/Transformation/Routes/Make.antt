-- ===== src/Transformation/Routes/Make.antt =====
-- The routes that a configuration makes, and the exception where it makes none.
use envoy_wasm_filters.Base.{
  ◌≡◌, refl, sym, ◌∙◌, ◌↔◌, ◌⊎◌, inl, inr, Option, none, some, [], ◌∷◌, arith, Bytes,
}
use envoy_wasm_filters.Transformation.Engine.{ok, thrown, Regexes, Values, Templates}
use envoy_wasm_filters.Transformation.Results.{
  >>=-eq-ok, >>=-eq-thrown, traverse, traverse-thrown_iff, FirstFailure, FirstFailure-map, Returns,
  Throws,
}
use envoy_wasm_filters.Transformation.Matcher
use envoy_wasm_filters.Transformation.Transformer.{Transformation, InjaTransformer, new_transformer}
use envoy_wasm_filters.Transformation.Transformer.Make.{IsMade, new_transformer-ok_iff}
use envoy_wasm_filters.Transformation.Transformer.Throwing.{IsUnmade, new_transformer-thrown_iff}
use envoy_wasm_filters.Transformation.Routes.{
  TransformationRule, Config, new_optional, new_route, new_config,
}

module _ (R : Regexes) (V : Values) (T : Templates V) where
  -- A transformation that is not there makes no transformer, and does not fail.
  abbrev pub MakesOptional : Option Transformation → Type 0
  MakesOptional none = Unit
  MakesOptional (some t) = (x : InjaTransformer R V T) × IsMade R V T t x

  abbrev pub FailsOptional : Option Transformation → Bytes → Type 0
  FailsOptional none message = ⊥
  FailsOptional (some t) message = IsUnmade R V T t message

  abbrev pub MakesRoute : TransformationRule → Type 0
  MakesRoute rule =
      MakesOptional rule.route_transformations.request_transformation
      × MakesOptional rule.route_transformations.response_transformation

  -- The transformation of the request fails, or, where that is made, that of the response.
  abbrev pub FailsRoute : TransformationRule → Bytes → Type 0
  FailsRoute rule message =
      FailsOptional rule.route_transformations.request_transformation message
      ⊎ (MakesOptional rule.route_transformations.request_transformation
          × FailsOptional rule.route_transformations.response_transformation message)

  new_optional-ok_iff :
      (t : Option Transformation)
      → ((x : Option (InjaTransformer R V T)) × (new_optional R V T t ≡ ok x)) ↔ MakesOptional t
  unfolding new_optional
  new_optional-ok_iff none = (λ h. tt, λ h. (none, refl))
  new_optional-ok_iff (some t) = (
    λ (x, h).
        let (y, built, e) = >>=-eq-ok (new_transformer R V T t) _ x h in
        (y, (new_transformer-ok_iff R V T t y).0 built),
    λ (y, made). (some y, rw ((new_transformer-ok_iff R V T t y).1 made) refl),
  )

  new_optional-thrown_iff :
      (t : Option Transformation) (message : Bytes)
      → (new_optional R V T t ≡ thrown message) ↔ FailsOptional t message
  unfolding new_optional
  new_optional-thrown_iff none message = (λ h. cc, λ h. absurd h)
  new_optional-thrown_iff (some t) message = (
    λ h. elim (>>=-eq-thrown (new_transformer R V T t) _ message h) [
      | inl failed ↦ (new_transformer-thrown_iff R V T t message).0 failed
      | inr (y, built, e) ↦ absurd (cc)
    ],
    λ h. rw ((new_transformer-thrown_iff R V T t message).1 h) refl,
  )

  new_route-ok_iff : (rule : TransformationRule) → Returns (new_route R V T) rule ↔ MakesRoute rule
  unfolding new_route
  new_route-ok_iff rule =
      let request = rule.route_transformations.request_transformation in
      let response = rule.route_transformations.response_transformation in
      (
        λ (x, h).
            let (q, first, more) = >>=-eq-ok (new_optional R V T request) _ x h in
            let (s, second, e) = >>=-eq-ok (new_optional R V T response) _ x more in
            (
              (new_optional-ok_iff request).0 (q, first),
              (new_optional-ok_iff response).0 (s, second),
            ),
        λ (first, second).
            let (q, made) = (new_optional-ok_iff request).1 first in
            let (s, made_too) = (new_optional-ok_iff response).1 second in
            (
              (Matcher.construct rule.match, record { request = q; response = s }),
              rw (made, made_too) refl,
            ),
      )

  new_route-thrown_iff :
      (rule : TransformationRule) (message : Bytes)
      → Throws (new_route R V T) rule message ↔ FailsRoute rule message
  unfolding new_route
  new_route-thrown_iff rule message =
      let request = rule.route_transformations.request_transformation in
      let response = rule.route_transformations.response_transformation in
      (
        λ h. elim (>>=-eq-thrown (new_optional R V T request) _ message h) [
          | inl failed ↦ inl ((new_optional-thrown_iff request message).0 failed)
          | inr (q, made, more) ↦
              elim (>>=-eq-thrown (new_optional R V T response) _ message more) [
                | inl failed ↦ inr (
                  (new_optional-ok_iff request).0 (q, made),
                  (new_optional-thrown_iff response message).0 failed,
                )
                | inr (s, made_too, e) ↦ absurd (cc)
              ]
        ],
        λ h. elim h [
          | inl failed ↦ rw ((new_optional-thrown_iff request message).1 failed) refl
          | inr (first, failed) ↦
              let (q, made) = (new_optional-ok_iff request).1 first in
              rw (made, (new_optional-thrown_iff response message).1 failed) refl
        ],
      )

  new_config-traverse : (rules : Config) → new_config R V T rules ≡ traverse (new_route R V T) rules
  unfolding new_config traverse
  new_config-traverse [] = refl
  new_config-traverse (rule ∷ rules) = ground (arith, new_config-traverse rules)

  -- An exception of a configuration's constructor is that of the first rule that fails: of its
  -- transformation of requests, or, where that is made, of its transformation of responses.
  pub new_config-thrown_iff :
      (rules : Config) (message : Bytes)
      → (new_config R V T rules ≡ thrown message) ↔ FirstFailure MakesRoute FailsRoute rules message
  new_config-thrown_iff rules message =
      let loop = traverse-thrown_iff (new_route R V T) rules message in
      let same = new_config-traverse rules in
      (
        λ h.
            FirstFailure-map (Returns (new_route R V T)) MakesRoute (Throws (new_route R V T))
              FailsRoute (λ r. (new_route-ok_iff r).0) (λ r m. (new_route-thrown_iff r m).0) rules
              message (loop.0 (sym same ∙ h)),
        λ h.
            same
            ∙ loop.1 (
                FirstFailure-map MakesRoute (Returns (new_route R V T)) FailsRoute
                  (Throws (new_route R V T)) (λ r. (new_route-ok_iff r).1)
                  (λ r m. (new_route-thrown_iff r m).1) rules message h),
      )
