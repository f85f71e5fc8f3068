-- ===== src/Transformation/Filter/System/Invariant.antt =====
-- What holds of every state that the calls lead to: which configuration is in force, and where the
-- contexts point.
use envoy_wasm_filters.Base.{
  ℕ, ◌+◌, ◌<◌, ◌≡◌, refl, sym, ap, ◌∙◌, ◌⊎◌, inl, inr, Bool, true, false, Option, none, some, List,
  ◌∷◌, arith, Bytes, update, update-all, Option-cases,
}
use envoy_wasm_filters.Transformation.Headers.{Headers}
use envoy_wasm_filters.Transformation.Engine.{
  Result, ok, thrown, Regexes, Values, Templates, HeaderMap,
}
use envoy_wasm_filters.Transformation.Results.{>>=-eq-ok}
use envoy_wasm_filters.Transformation.Routes.{
  Config, RouteTransformers, TransformationConfig, new_config, get_route_transformation,
}
use envoy_wasm_filters.Transformation.Routes.Laws.{IsFirst, get_route_transformation-IsFirst}
use envoy_wasm_filters.Transformation.Filter.{
  Configuration, null_configuration, null_data, json_text, FilterHeadersStatus, RootContext,
  RoutePointer, Context, configure, on_configure, pointer_to, with_config, on_request_headers,
  respond, on_response_headers,
}
use envoy_wasm_filters.Transformation.Filter.Throwing.{rules_of}
use envoy_wasm_filters.Transformation.Filter.System.{
  System, Event, configured, created, request_headers, response_headers, new_system, with_root,
  with_context, step, Run, here, later, rules_or_else, latest_rules, counted, accepted,
}

module _ (R : Regexes) (V : Values) (T : Templates V) where
  -- A configuration that does not throw changes nothing where it has no rules, and otherwise puts
  -- its rules in place, in the next epoch.
  pub data Configures (parse : Bytes → Option Config) (conf : Configuration)
      (root : RootContext R V T) : RootContext R V T → Type 0 where
    unchanged : rules_of parse conf ≡ none → Configures parse conf root root
    replaced :
        (rules : Config) (cs : TransformationConfig R V T)
        → rules_of parse conf ≡ some rules
        → new_config R V T rules ≡ ok cs
        → Configures parse conf root
            (record root { transformation_config = some cs; epoch = root.epoch + 1 })

  configure-root :
      (root : RootContext R V T) (found : Option Config) (answer : Bool × RootContext R V T)
      → configure R V T root found ≡ ok answer
      → ((found ≡ none) × (answer.1 ≡ root))
        ⊎ ((rules : Config) × (cs : TransformationConfig R V T) × (found ≡ some rules)
            × (new_config R V T rules ≡ ok cs)
            × (answer.1 ≡ record root { transformation_config = some cs; epoch = root.epoch + 1 }))
  unfolding configure
  configure-root root none answer h =
      let same : (false, root) ≡ answer = cc in
      inl (refl, ap (λ (a : Bool × RootContext R V T). a.1) (sym same))
  configure-root root (some rules) answer h =
      let (cs, made, e) = >>=-eq-ok (new_config R V T rules) _ answer h in
      let placed : RootContext R V T = record root {
        transformation_config = some cs;
        epoch = root.epoch + 1;
      } in
      let same : (true, placed) ≡ answer = cc in
      inr (rules, cs, refl, made, ap (λ (a : Bool × RootContext R V T). a.1) (sym same))

  on_configure-Configures :
      (parse : Bytes → Option Config) (conf : Configuration) (root : RootContext R V T)
      → (answer : Bool × RootContext R V T) → on_configure R V T parse conf root ≡ ok answer
      → Configures parse conf root answer.1
  unfolding on_configure
  on_configure-Configures parse null_configuration root answer h =
      let same : (true, root) ≡ answer = cc in rw (← same) (unchanged refl)
  on_configure-Configures parse null_data root answer h =
      let same : (true, root) ≡ answer = cc in rw (← same) (unchanged refl)
  on_configure-Configures parse (json_text conf) root answer h =
      elim (configure-root root (parse conf) answer h) [
        | inl (empty, same) ↦ rw same (unchanged empty)
        | inr (rules, cs, found, made, same) ↦ rw same (replaced rules cs found made)
      ]

module _ (R : Regexes) (V : Values) (T : Templates V) (M : HeaderMap)
    (parse : Bytes → Option Config) where
  -- The configuration in force is made from the latest rules.
  abbrev pub IsInForce : Option Config → Option (TransformationConfig R V T) → Type 0
  IsInForce none config = config ≡ none
  IsInForce (some rules) config =
      (cs : TransformationConfig R V T) × (new_config R V T rules ≡ ok cs) × (config ≡ some cs)

  -- A pointer that was taken before the latest text was accepted, or points at the route that the
  -- first matching rule of that text has for some request.
  abbrev pub IsPointing : Option Config → ℕ → Option (RoutePointer R V T) → Type 0
  IsPointing found epoch none = Unit
  IsPointing found epoch (some p) =
      (p.epoch < epoch)
      ⊎ ((p.epoch ≡ epoch)
          × ((rules : Config) × (pairs : Headers) × (found ≡ some rules)
              × IsFirst R V T rules pairs p.target))

  -- The epoch counts the accepted texts, the latest of which is in force, and every context points
  -- at a route of it or of an earlier one.
  pub record IsValid (found : Option Config) (epoch : ℕ) (s : System R V T M) : Type 0 where
    pub counts : s.root.epoch ≡ epoch
    pub in_force : IsInForce found s.root.transformation_config
    pub pointing : (id : ℕ) → IsPointing found epoch (s.contexts id).transformation

  -- A call that throws or is undefined leads nowhere.
  with_root-some :
      (s t : System R V T M) (r : Result (Bool × RootContext R V T))
      → with_root R V T M s r ≡ some t
      → (answer : Bool × RootContext R V T) × (r ≡ ok answer) × (t ≡ record s { root = answer.1 })
  unfolding with_root
  with_root-some s t (ok answer) h = (answer, refl, cc)
  with_root-some s t (thrown message) h = cc

  with_context-some :
      (s t : System R V T M) (id : ℕ) (r : Option (FilterHeadersStatus × Context R V T × M.World))
      → with_context R V T M s id r ≡ some t
      → (status : FilterHeadersStatus) × (c : Context R V T) × (w : M.World) × (r
          ≡ some (status, c, w))
        × (t ≡ record s { contexts = update s.contexts id c })
  unfolding with_context
  with_context-some s t id (some (status, c, w)) h = (status, c, w, refl, cc)
  with_context-some s t id none h = cc

  pub configured-step :
      (conf : Configuration) (s t : System R V T M)
      → step R V T M parse (configured conf) s ≡ some t
      → (root : RootContext R V T) × Configures R V T parse conf s.root root
        × (t ≡ record s { root = root })
  unfolding step
  configured-step conf s t h =
      let (answer, returned, same) = with_root-some s t (on_configure R V T parse conf s.root) h in
      (answer.1, on_configure-Configures R V T parse conf s.root answer returned, same)

  -- A response leaves its context as it was.
  pub response-step :
      (id : ℕ) (pairs : Headers) (w : M.World) (s t : System R V T M)
      → step R V T M parse (response_headers id pairs w) s ≡ some t
      → t ≡ record s { contexts = update s.contexts id (s.contexts id) }
  unfolding step on_response_headers
  response-step id pairs w s t h =
      let (status, c, v, returned, same) =
        with_context-some s t id (on_response_headers R V T M s.root pairs (s.contexts id) w) h in
      same ∙ ap (λ d. record s { contexts = update s.contexts id d }) (kept _ c returned)
    where
      kept :
          (o : Option (Option (RouteTransformers R V T))) {status : FilterHeadersStatus}
          → (c : Context R V T) {v : M.World}
          → respond R V T M pairs (s.contexts id) w o ≡ some (status, c, v)
          → c ≡ s.contexts id
      kept o c e = unfold respond in ground arith

  -- The context that a request leaves points at the route of the configuration in force.
  request-IsPointing :
      (found : Option Config) (epoch : ℕ) (s : System R V T M) (id : ℕ) (pairs : Headers)
      → (w : M.World) → IsValid found epoch s
      → IsPointing found epoch
          (on_request_headers R V T M s.root pairs (s.contexts id) w).1.transformation
  unfolding on_request_headers with_config pointer_to
  request-IsPointing none epoch s id pairs w valid = rw (valid.in_force) (valid.pointing id)
  request-IsPointing (some rules) epoch s id pairs w valid =
      let (cs, made, set) = valid.in_force in
      rw set (elim (Option-cases (get_route_transformation R V T cs pairs)) [
        | inl no_route ↦ rw no_route tt
        | inr (route, found) ↦ rw found (
            inr (
              valid.counts,
              (
                rules,
                pairs,
                refl,
                get_route_transformation-IsFirst R V T rules cs pairs route made found,
              ),
            ))
      ])

  IsPointing-stale :
      (found next : Option Config) (epoch : ℕ) (p : Option (RoutePointer R V T))
      → IsPointing found epoch p
      → IsPointing next (epoch + 1) p
  IsPointing-stale found next epoch none h = tt
  IsPointing-stale found next epoch (some p) (inl old) = inl (omega arith)
  IsPointing-stale found next epoch (some p) (inr (now, more)) = inl (omega arith)

  configured-IsValid :
      (conf : Configuration) (found : Option Config) (epoch : ℕ) (s : System R V T M)
      → (root : RootContext R V T) → IsValid found epoch s
      → Configures R V T parse conf s.root root
      → IsValid
          (rules_or_else R V T M (rules_of parse conf) found)
          (counted R V T M (rules_of parse conf) epoch)
          (record s { root = root })
  configured-IsValid conf found epoch s root valid (unchanged empty) = rw empty valid
  configured-IsValid conf found epoch s root valid (replaced rules cs given made) =
      rw given (record {
        counts = omega (arith, valid.counts);
        in_force = (cs, made, refl);
        pointing = λ id.
            IsPointing-stale found (some rules) epoch (s.contexts id).transformation
              (valid.pointing id);
      })

  update-IsValid :
      (found : Option Config) (epoch : ℕ) (s : System R V T M) (id : ℕ) (c : Context R V T)
      → IsValid found epoch s
      → IsPointing found epoch c.transformation
      → IsValid found epoch (record s { contexts = update s.contexts id c })
  update-IsValid found epoch s id c valid h = record {
    counts = valid.counts;
    in_force = valid.in_force;
    pointing =
        update-all (λ (d : Context R V T). IsPointing found epoch d.transformation) s.contexts id c
          valid.pointing h;
  }

  -- Every call keeps the state valid.
  step-IsValid :
      (e : Event R V T M) (es : List (Event R V T M)) (s t : System R V T M)
      → IsValid (latest_rules R V T M parse es) (accepted R V T M parse es) s
      → step R V T M parse e s ≡ some t
      → IsValid (latest_rules R V T M parse (e ∷ es)) (accepted R V T M parse (e ∷ es)) t
  unfolding latest_rules accepted
  step-IsValid (configured conf) es s t valid h =
      let (root, now, same) = configured-step conf s t h in
      rw same (configured-IsValid conf _ _ s root valid now)
  step-IsValid (created id) es s t valid h =
      let bare : Context R V T = record { transformation = none } in
      let same : record s { contexts = update s.contexts id bare } ≡ t = unfold step in cc in
      rw (← same) (update-IsValid _ _ s id bare valid tt)
  step-IsValid (request_headers id pairs w) es s t valid h =
      let asked = on_request_headers R V T M s.root pairs (s.contexts id) w in
      let same : record s { contexts = update s.contexts id asked.1 } ≡ t =
        unfold step with_context in cc in
      rw (← same)
        (update-IsValid _ _ s id asked.1 valid (request-IsPointing _ _ s id pairs w valid))
  step-IsValid (response_headers id pairs w) es s t valid h =
      rw (response-step id pairs w s t h)
        (update-IsValid _ _ s id (s.contexts id) valid (valid.pointing id))

  new_system-IsValid : (header_value : Bytes) → IsValid none 0 (new_system R V T M header_value)
  unfolding new_system
  new_system-IsValid header_value = record { counts = refl; in_force = refl; pointing = λ id. tt }

  -- After any calls, in any order, that neither throw nor are undefined, from a root context with no
  -- configuration: the epoch counts the accepted texts, the configuration in force is made from the
  -- latest of them, and every context points at the route of the first rule of it that some request
  -- matches, or was given its route before that text.
  pub Run-IsValid :
      (header_value : Bytes) {es : List (Event R V T M)} {s : System R V T M}
      → Run R V T M parse (new_system R V T M header_value) es s
      → IsValid (latest_rules R V T M parse es) (accepted R V T M parse es) s
  Run-IsValid header_value here = unfold latest_rules accepted in new_system-IsValid header_value
  Run-IsValid header_value (later {es} {t} {u} e r h) =
      step-IsValid e es t u (Run-IsValid header_value r) h
