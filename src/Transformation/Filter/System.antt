-- ===== src/Transformation/Filter/System.antt =====
-- The calls that the proxy makes of the root context and of the contexts of its requests, in any
-- order. A request's context is found by its number; the header maps of a request stand in the calls.
pub mod Invariant
pub mod Interleaved
mod Tests
use envoy_wasm_filters.Base.{
  ℕ, zero, suc, ◌+◌, ◌≡◌, ◌≢◌, Bool, Option, none, some, List, [], ◌∷◌, ◌==◌, update, Bytes,
}
use envoy_wasm_filters.Transformation.Headers.{Headers}
use envoy_wasm_filters.Transformation.Engine.{
  Result, ok, thrown, Regexes, Values, Templates, HeaderMap,
}
use envoy_wasm_filters.Transformation.Routes.{Config}
use envoy_wasm_filters.Transformation.Filter.{
  Configuration, FilterHeadersStatus, RootContext, Context, on_configure, on_request_headers,
  on_response_headers,
}
use envoy_wasm_filters.Transformation.Filter.Throwing.{rules_of}

module _ (R : Regexes) (V : Values) (T : Templates V) (M : HeaderMap) where
  pub record System : Type 0 where
    pub root : RootContext R V T
    pub contexts : ℕ → Context R V T

  pub data Event : Type 0 where
    configured : Configuration → Event
    created : (id : ℕ) → Event
    request_headers response_headers : (id : ℕ) (pairs : Headers) (w : M.World) → Event

  -- A root context with no configuration, and contexts with no route.
  unfoldable pub new_system : Bytes → System
  new_system header_value = record {
    root = record { header_value = header_value; transformation_config = none; epoch = 0 };
    contexts = λ id. record { transformation = none };
  }

  -- The root context that a call leaves; none is left by an exception.
  unfoldable pub with_root : System → Result (Bool × RootContext R V T) → Option System
  with_root s (ok (answer, root)) = some (record s { root = root })
  with_root s (thrown message) = none

  unfoldable pub with_context :
      System → ℕ → Option (FilterHeadersStatus × Context R V T × M.World) → Option System
  with_context s id none = none
  with_context s id (some (status, c, w)) = some (record s { contexts = update s.contexts id c })

  -- `none` is a call that throws or is undefined.
  unfoldable pub step : (Bytes → Option Config) → Event → System → Option System
  unfolding with_root with_context
  step parse (configured conf) s = with_root s (on_configure R V T parse conf s.root)
  step parse (created id) s =
      some (record s { contexts = update s.contexts id (record { transformation = none }) })
  step parse (request_headers id pairs w) s =
      with_context s id (some (on_request_headers R V T M s.root pairs (s.contexts id) w))
  step parse (response_headers id pairs w) s =
      with_context s id (on_response_headers R V T M s.root pairs (s.contexts id) w)

  -- The calls that lead from one state to another, the latest first.
  pub data Run (parse : Bytes → Option Config) (s : System) : List Event → System → Type 0 where
    here : Run parse s [] s
    later :
        {es : List Event} {t u : System} (e : Event)
        → Run parse s es t
        → step parse e t ≡ some u
        → Run parse s (e ∷ es) u

  -- The rules of the latest text that the parser accepts.
  abbrev pub rules_or_else : Option Config → Option Config → Option Config
  rules_or_else none found = found
  rules_or_else (some rules) found = some rules

  unfoldable pub latest_rules : (Bytes → Option Config) → List Event → Option Config
  latest_rules parse [] = none
  latest_rules parse (configured conf ∷ es) =
      rules_or_else (rules_of parse conf) (latest_rules parse es)
  latest_rules parse (created id ∷ es) = latest_rules parse es
  latest_rules parse (request_headers id pairs w ∷ es) = latest_rules parse es
  latest_rules parse (response_headers id pairs w ∷ es) = latest_rules parse es

  -- How many texts the parser accepts.
  abbrev pub counted : Option Config → ℕ → ℕ
  counted none n = n
  counted (some rules) n = n + 1

  unfoldable pub accepted : (Bytes → Option Config) → List Event → ℕ
  accepted parse [] = 0
  accepted parse (configured conf ∷ es) = counted (rules_of parse conf) (accepted parse es)
  accepted parse (created id ∷ es) = accepted parse es
  accepted parse (request_headers id pairs w ∷ es) = accepted parse es
  accepted parse (response_headers id pairs w ∷ es) = accepted parse es

  -- A call of another request, or a configuration that the parser does not accept.
  abbrev pub IsApart : (Bytes → Option Config) → ℕ → Event → Type 0
  IsApart parse id (configured conf) = rules_of parse conf ≡ none
  IsApart parse id (created j) = j ≢ id
  IsApart parse id (request_headers j pairs w) = j ≢ id
  IsApart parse id (response_headers j pairs w) = j ≢ id
