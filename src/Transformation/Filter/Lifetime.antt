-- ===== src/Transformation/Filter/Lifetime.antt =====
-- A response whose route belongs to a configuration that a later one has destroyed.
use envoy_wasm_filters.Base.{
  ◌≡◌, refl, ◌↔◌, inl, inr, Option, none, some, List, [], ◌∷◌, ◌++◌, Bytes, Option-cases, All,
}
use envoy_wasm_filters.Transformation.Headers.{Headers}
use envoy_wasm_filters.Transformation.Engine.{ok, Regexes, Values, Templates, HeaderMap}
use envoy_wasm_filters.Transformation.Routes.{
  Config, RouteTransformers, TransformationConfig, new_config, get_route_transformation,
}
use envoy_wasm_filters.Transformation.Routes.Laws.{
  Matches, IsFirst, get_route_transformation-IsFirst, get_route_transformation-none,
}
use envoy_wasm_filters.Transformation.Filter.{
  Configuration, RootContext, Context, pointer_to, read_transformation, with_config,
  on_request_headers, on_response_headers,
}
use envoy_wasm_filters.Transformation.Filter.Laws.{
  read_transformation-pointer_to, read_transformation-destroyed, respond-none_iff,
}
use envoy_wasm_filters.Transformation.Filter.Configured.{
  configure_all, last_accepted, InForce, configure_all_lem,
}

All-middle {ℓ} :
    {A : Type ℓ} (P : A → Type 0) (before after : List A) (x : A)
    → All P (before ++ x ∷ after)
    → P x
All-middle P [] after x h = h.0
All-middle P (y ∷ before) after x h = All-middle P before after x h.1

module _ (R : Regexes) (V : Values) (T : Templates V) where
  -- A request is given a route exactly where it matches a rule.
  get_route_transformation-some_iff :
      (rules : Config) (cs : TransformationConfig R V T) (pairs : Headers)
      → new_config R V T rules ≡ ok cs
      → ((route : RouteTransformers R V T) × (get_route_transformation R V T cs pairs ≡ some route))
        ↔ ((route : RouteTransformers R V T) × IsFirst R V T rules pairs route)
  get_route_transformation-some_iff rules cs pairs made = (
    λ (route, found).
        (route, get_route_transformation-IsFirst R V T rules cs pairs route made found),
    λ (route, first). elim (Option-cases (get_route_transformation R V T cs pairs)) [
      | inl no_route ↦
          let unmatched = get_route_transformation-none R V T rules cs pairs made no_route in
          absurd (
            All-middle (λ r. ¬ (Matches pairs r)) first.before first.after first.rule
              (rw first.split at unmatched) first.matched)
      | inr found ↦ found
    ],
  )

  -- The route that was chosen can no longer be read exactly where there is one and a later text was
  -- accepted.
  read_transformation-none_iff :
      (root now : RootContext R V T) (later : Option Config)
      → (chosen : Option (RouteTransformers R V T)) → InForce R V T later root now
      → (read_transformation R V T now (pointer_to R V T root.epoch chosen) ≡ none) ↔ (
          ((route : RouteTransformers R V T) × (chosen ≡ some route))
          × ((rules : Config) × (later ≡ some rules)))
  read_transformation-none_iff root now none chosen same = (
    λ h. absurd (cc (h, same, read_transformation-pointer_to R V T root chosen)),
    λ (found, (rules, e)). cc,
  )
  read_transformation-none_iff root now (some rules) chosen (cs, made, set, kept, newer) =
      let read = read_transformation-destroyed R V T now root.epoch chosen newer in
      (λ h. (read.0 h, (rules, refl)), λ (found, accepted). read.1 found)

  -- After configurations that do not throw and of which one is accepted: a response is undefined
  -- exactly where its request matches a rule of the last accepted text and a further text has been
  -- accepted between the request and the response, which destroys the route.
  pub on_response_headers-none_iff :
      (M : HeaderMap) (parse : Bytes → Option Config) (confs between : List Configuration)
      → (before root now : RootContext R V T) (rules : Config) (pairs replies : Headers)
      → (c : Context R V T) (w v : M.World) → configure_all R V T parse confs before ≡ ok root
      → last_accepted R V T parse confs none ≡ some rules
      → configure_all R V T parse between root ≡ ok now
      → (on_response_headers R V T M now replies (on_request_headers R V T M root pairs c w).1 v
          ≡ none)
        ↔ (((route : RouteTransformers R V T) × IsFirst R V T rules pairs route)
            × ((later : Config) × (last_accepted R V T parse between none ≡ some later)))
  unfolding on_request_headers on_response_headers
  on_response_headers-none_iff M parse confs between before root now rules pairs replies c w v run
        last more =
      let (cs, made, e, kept, newer) =
        rw last at (configure_all_lem R V T parse confs before root run) in
      let chosen = get_route_transformation R V T cs pairs in
      let found = get_route_transformation-some_iff rules cs pairs made in
      let read =
        read_transformation-none_iff root now (last_accepted R V T parse between none) chosen
          (configure_all_lem R V T parse between root now more) in
      let held : Context R V T = record { transformation = pointer_to R V T root.epoch chosen } in
      let answer = respond-none_iff R V T M replies held v _ in
      rw (e, with_config)
        (
          λ h. let (route, later) = read.0 (answer.0 h) in (found.0 route, later),
          λ (first, later). answer.1 (read.1 (found.1 first, later)),
        )
