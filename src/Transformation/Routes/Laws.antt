-- ===== src/Transformation/Routes/Laws.antt =====
-- The first matching rule decides.
use envoy_wasm_filters.Base.{
  ◌≡◌, refl, ap, ◌∙◌, ◌≢◌, ◌⊎◌, inl, inr, true, false, none, some, List, [], ◌∷◌, ◌++◌, arith,
  Bool-cases, All,
}
use envoy_wasm_filters.Transformation.Headers.{Headers}
use envoy_wasm_filters.Transformation.Matcher
use envoy_wasm_filters.Transformation.Matcher.{HeaderMatch, MatcherImpl, impl_matches}
use envoy_wasm_filters.Transformation.Matcher.Entries.{last_for}
use envoy_wasm_filters.Transformation.Matcher.Laws.{HasFitting, impl_matches-construct}
use envoy_wasm_filters.Transformation.Engine.{ok, Regexes, Values, Templates}
use envoy_wasm_filters.Transformation.Routes.{
  TransformationRule, Config, RouteTransformers, TransformationConfig, new_route, new_config,
  get_route_transformation,
}

-- What a rule's matcher asks of a request.
abbrev pub Matches : Headers → TransformationRule → Type 0
Matches headers rule =
    All (λ h. HasFitting headers h.name (last_for h.name rule.match none)) rule.match

module _ (R : Regexes) (V : Values) (T : Templates V) where
  -- A route whose rule is the first that the request matches.
  pub record IsFirst (rules : Config) (headers : Headers) (route : RouteTransformers R V T)
      : Type 0 where
    pub before : List TransformationRule
    pub rule : TransformationRule
    pub after : List TransformationRule
    pub split : rules ≡ before ++ rule ∷ after
    pub unmatched : All (λ r. ¬ (Matches headers r)) before
    pub matched : Matches headers rule
    pub made : new_route R V T rule ≡ ok (Matcher.construct rule.match, route)

  new_config-cons :
      (rule : TransformationRule) (rules : Config) (cs : TransformationConfig R V T)
      → new_config R V T (rule ∷ rules) ≡ ok cs
      → (route : RouteTransformers R V T) × (rest : TransformationConfig R V T) × (new_route R V T
            rule
          ≡ ok (Matcher.construct rule.match, route))
        × (new_config R V T rules ≡ ok rest)
        × (cs ≡ (Matcher.construct rule.match, route) ∷ rest)
  unfolding new_config new_route
  new_config-cons rule rules cs h = ground arith

  no_route :
      (cs : TransformationConfig R V T) (headers : Headers) (route : RouteTransformers R V T)
      → new_config R V T [] ≡ ok cs
      → get_route_transformation R V T cs headers ≢ some route
  unfolding new_config get_route_transformation
  no_route [] headers route made found = cc
  no_route (c ∷ cs) headers route made found = cc

  get_route-cons :
      (m : MatcherImpl) (r route : RouteTransformers R V T) (cs : TransformationConfig R V T)
      → (headers : Headers) → get_route_transformation R V T ((m, r) ∷ cs) headers ≡ some route
      → ((impl_matches m headers ≡ true) × (r ≡ route))
        ⊎ ((impl_matches m headers ≡ false)
            × (get_route_transformation R V T cs headers ≡ some route))
  unfolding get_route_transformation
  get_route-cons m r route cs headers found = elim (Bool-cases (impl_matches m headers)) [
    | inl yes_match ↦ let same : some r ≡ some route = rw yes_match at found in inl (yes_match, cc)
    | inr no_match ↦ inr (no_match, rw no_match at found)
  ]

  -- The route that a configuration's rules give to a request is that of the first rule that it
  -- matches.
  pub get_route_transformation-IsFirst :
      (rules : Config) (cs : TransformationConfig R V T) (headers : Headers)
      → (route : RouteTransformers R V T) → new_config R V T rules ≡ ok cs
      → get_route_transformation R V T cs headers ≡ some route
      → IsFirst rules headers route
  get_route_transformation-IsFirst [] cs headers route made found =
      absurd (no_route cs headers route made found)
  get_route_transformation-IsFirst (rule ∷ rules) cs headers route made found =
      let (r, rest, made_route, made_rest, list) = new_config-cons rule rules cs made in
      let m = Matcher.construct rule.match in
      let later = get_route_transformation-IsFirst rules rest headers route made_rest in
      elim (get_route-cons m r route rest headers (rw list at found)) [
        | inl (fits, same) ↦ record {
          before = [];
          rule = rule;
          after = rules;
          split = refl;
          unmatched = tt;
          matched = (impl_matches-construct rule.match headers).0 fits;
          made = made_route ∙ ap (λ x. ok (m, x)) same;
        }
        | inr (misses, more) ↦
            let first = later more in
            record {
              before = rule ∷ first.before;
              rule = first.rule;
              after = first.after;
              split = ap (λ l. rule ∷ l) first.split;
              unmatched = (
                λ fits. cc (misses, (impl_matches-construct rule.match headers).1 fits),
                first.unmatched,
              );
              matched = first.matched;
              made = first.made;
            }
      ]

  get_route-none :
      (m : MatcherImpl) (r : RouteTransformers R V T) (cs : TransformationConfig R V T)
      → (headers : Headers) → get_route_transformation R V T ((m, r) ∷ cs) headers ≡ none
      → (impl_matches m headers ≡ false) × (get_route_transformation R V T cs headers ≡ none)
  unfolding get_route_transformation
  get_route-none m r cs headers found = ground arith

  -- Where the configuration's rules give no route to a request, it matches none of them.
  pub get_route_transformation-none :
      (rules : Config) (cs : TransformationConfig R V T) (headers : Headers)
      → new_config R V T rules ≡ ok cs
      → get_route_transformation R V T cs headers ≡ none
      → All (λ r. ¬ (Matches headers r)) rules
  get_route_transformation-none [] cs headers made found = tt
  get_route_transformation-none (rule ∷ rules) cs headers made found =
      let (r, rest, made_route, made_rest, list) = new_config-cons rule rules cs made in
      let (misses, later) =
        get_route-none (Matcher.construct rule.match) r rest headers (rw list at found) in
      (
        λ fits. cc (misses, (impl_matches-construct rule.match headers).1 fits),
        get_route_transformation-none rules rest headers made_rest later,
      )
