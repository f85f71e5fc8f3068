-- ===== src/Transformation/Filter/System/Interleaved.antt =====
-- A request and its response between the calls of other requests.
use envoy_wasm_filters.Base.{
  ℕ, ◌<◌, ◌≡◌, refl, sym, ap, ◌∙◌, ◌↔◌, inl, inr, Option, none, some, List, arith, Bytes, update,
  update-other, update-same, All,
}
use envoy_wasm_filters.Transformation.Headers.{Headers}
use envoy_wasm_filters.Transformation.Engine.{Regexes, Values, Templates, HeaderMap, IsHeaderMap}
use envoy_wasm_filters.Transformation.Routes.{Config, get_route_transformation}
use envoy_wasm_filters.Transformation.Filter.{
  RootContext, RoutePointer, Context, continue, read_transformation, with_config, apply_response,
  respond, on_request_headers, on_response_headers,
}
use envoy_wasm_filters.Transformation.Filter.Laws.{read_transformation-pointer_to, respond-none_iff}
use envoy_wasm_filters.Transformation.Filter.Throwing.{rules_of}
use envoy_wasm_filters.Transformation.Filter.Exchange.{Exchanged, with_route-Exchanged}
use envoy_wasm_filters.Transformation.Filter.System.{
  System, Event, configured, created, request_headers, response_headers, new_system, with_context,
  step, Run, here, later, latest_rules, accepted, IsApart,
}
use envoy_wasm_filters.Transformation.Filter.System.Invariant.{
  Configures, unchanged, replaced, configured-step, response-step, IsPointing, Run-IsValid,
}

module _ (R : Regexes) (V : Values) (T : Templates V) (M : HeaderMap)
    (parse : Bytes → Option Config) where
  -- Another request's call, or a configuration that is not accepted, leaves the root context and the
  -- request's context alone.
  abbrev Keeps : ℕ → System R V T M → System R V T M → Type 0
  Keeps id s t = (t.root ≡ s.root) × (t.contexts id ≡ s.contexts id)

  step-Keeps :
      (id : ℕ) (e : Event R V T M) (s t : System R V T M)
      → IsApart R V T M parse id e
      → step R V T M parse e s ≡ some t
      → Keeps id s t
  step-Keeps id (configured conf) s t apart h =
      let (root, now, same) = configured-step R V T M parse conf s t h in
      rw same (configured_root root apart now, refl)
    where
      configured_root :
          (root : RootContext R V T)
          → rules_of parse conf ≡ none
          → Configures R V T parse conf s.root root
          → root ≡ s.root
      configured_root root empty (unchanged e) = refl
      configured_root root empty (replaced rules cs given made) = cc
  step-Keeps id (created j) s t apart h =
      let bare : Context R V T = record { transformation = none } in
      let same : record s { contexts = update s.contexts j bare } ≡ t = unfold step in cc in
      rw (← same) (refl, update-other s.contexts j bare id apart)
  step-Keeps id (request_headers j pairs w) s t apart h =
      let asked = on_request_headers R V T M s.root pairs (s.contexts j) w in
      let same : record s { contexts = update s.contexts j asked.1 } ≡ t =
        unfold step with_context in cc in
      rw (← same) (refl, update-other s.contexts j asked.1 id apart)
  step-Keeps id (response_headers j pairs w) s t apart h =
      rw (response-step R V T M parse j pairs w s t h)
        (refl, update-other s.contexts j (s.contexts j) id apart)

  Run-Keeps :
      (id : ℕ) {s : System R V T M} {es : List (Event R V T M)} {t : System R V T M}
      → Run R V T M parse s es t
      → All (IsApart R V T M parse id) es
      → Keeps id s t
  Run-Keeps id here apart = (refl, refl)
  Run-Keeps id (later {es} {t} {u} e r h) (one, more) =
      let before = Run-Keeps id r more in
      let now = step-Keeps id e t u one h in (now.0 ∙ before.0, now.1 ∙ before.1)

  -- Under the laws of header maps, after any calls, in any order, that accept a text: a request and
  -- its response continue, whatever calls of other requests and configurations that are not accepted
  -- come between the two, and are as they were where the request matches no rule of the latest text;
  -- otherwise the headers of both are what the templates of the first rule that the request matches
  -- make of them.
  pub Run-Exchanged :
      (header_value : Bytes) {es between : List (Event R V T M)} {s t u : System R V T M}
      → (id : ℕ) (rules : Config) (pairs replies : Headers) (w v : M.World) → IsHeaderMap M
      → Run R V T M parse (new_system R V T M header_value) es s
      → latest_rules R V T M parse es ≡ some rules
      → step R V T M parse (request_headers id pairs w) s ≡ some t
      → Run R V T M parse t between u
      → All (IsApart R V T M parse id) between
      → (let asked = on_request_headers R V T M s.root pairs (s.contexts id) w in
          (asked.0 ≡ continue)
          × ((x : M.World) × (on_response_headers R V T M u.root replies (u.contexts id) v
                ≡ some (continue, u.contexts id, x))
              × Exchanged R V T M rules pairs replies w v asked.2 x))
  unfolding on_request_headers on_response_headers respond
  Run-Exchanged header_value {s = s} {t} {u} id rules pairs replies w v laws first latest now others
        apart =
      let valid = Run-IsValid R V T M parse header_value first in
      let (cs, made, set) = rw latest at valid.in_force in
      let chosen = get_route_transformation R V T cs pairs in
      let asked = on_request_headers R V T M s.root pairs (s.contexts id) w in
      let same : record s { contexts = update s.contexts id asked.1 } ≡ t =
        unfold step with_context in cc in
      let (root, held) = Run-Keeps id others apart in
      let root_now : u.root ≡ s.root = root ∙ ap (λ (x : System R V T M). x.root) (sym same) in
      let held_now : u.contexts id ≡ asked.1 =
        held
        ∙ ap (λ (x : System R V T M). x.contexts id) (sym same)
        ∙ update-same s.contexts id asked.1 in
      rw (root_now, held_now, set, with_config)
        (
          refl,
          (
            apply_response R V T M chosen replies v,
            rw (read_transformation-pointer_to R V T s.root chosen) refl,
            with_route-Exchanged R V T M rules cs pairs replies w v laws made,
          ),
        )

  read_transformation-old :
      (root : RootContext R V T) (found : Option Config) (epoch : ℕ)
      → (o : Option (RoutePointer R V T)) → root.epoch ≡ epoch
      → IsPointing R V T M parse found epoch o
      → (read_transformation R V T root o ≡ none)
        ↔ ((p : RoutePointer R V T) × (o ≡ some p) × (p.epoch < epoch))
  unfolding read_transformation
  read_transformation-old root found epoch none e h = (λ k. cc, λ (p, k, l). cc)
  read_transformation-old root found epoch (some p) e h = (
    λ k. elim h [ inl old ↦ (p, refl, old) | inr (now, more) ↦ absurd (ground (arith, now, e, k)) ],
    λ (q, same, old).
        let equal : p ≡ q = cc in
        let older : p.epoch < epoch = rw equal old in ground (arith, e, older),
  )

  -- After any calls, in any order: the response of a request is undefined exactly where its context
  -- points at a route that was taken before the latest text was accepted.
  pub Run-none_iff :
      (header_value : Bytes) {es : List (Event R V T M)} {s : System R V T M}
      → (id : ℕ) (replies : Headers) (v : M.World)
      → Run R V T M parse (new_system R V T M header_value) es s
      → (on_response_headers R V T M s.root replies (s.contexts id) v ≡ none) ↔ (
          (p : RoutePointer R V T) × ((s.contexts id).transformation ≡ some p)
          × (p.epoch < accepted R V T M parse es))
  unfolding on_response_headers
  Run-none_iff header_value {es} {s} id replies v r =
      let valid = Run-IsValid R V T M parse header_value r in
      let answer =
        respond-none_iff R V T M replies (s.contexts id) v
          (read_transformation R V T s.root (s.contexts id).transformation) in
      let read =
        read_transformation-old s.root _ _ (s.contexts id).transformation valid.counts
          (valid.pointing id) in
      (λ h. read.0 (answer.0 h), λ h. answer.1 (read.1 h))
