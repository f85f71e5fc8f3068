-- ===== src/Transformation/Filter/Throwing.antt =====
-- The exceptions that leave `onConfigure`.
use envoy_wasm_filters.Base.{◌≡◌, refl, ◌↔◌, inl, inr, Option, none, some, Bytes}
use envoy_wasm_filters.Transformation.Engine.{thrown, Regexes, Values, Templates}
use envoy_wasm_filters.Transformation.Results.{>>=-eq-thrown, FirstFailure}
use envoy_wasm_filters.Transformation.Routes.{Config, new_config}
use envoy_wasm_filters.Transformation.Routes.Make.{MakesRoute, FailsRoute, new_config-thrown_iff}
use envoy_wasm_filters.Transformation.Filter.{
  Configuration, null_configuration, null_data, json_text, RootContext, configure, on_configure,
}

-- The rules of a configuration that is there and that the parser accepts.
abbrev pub rules_of : (Bytes → Option Config) → Configuration → Option Config
rules_of parse null_configuration = none
rules_of parse null_data = none
rules_of parse (json_text conf) = parse conf

module _ (R : Regexes) (V : Values) (T : Templates V) where
  -- The rules, and the first of them that fails.
  abbrev pub FailsConfig : Option Config → Bytes → Type 0
  FailsConfig none message = ⊥
  FailsConfig (some rules) message =
      FirstFailure (MakesRoute R V T) (FailsRoute R V T) rules message

  configure-thrown_iff :
      (root : RootContext R V T) (found : Option Config) (message : Bytes)
      → (configure R V T root found ≡ thrown message) ↔ FailsConfig found message
  unfolding configure
  configure-thrown_iff root none message = (λ h. cc, λ h. absurd h)
  configure-thrown_iff root (some rules) message = (
    λ h. elim (>>=-eq-thrown (new_config R V T rules) _ message h) [
      | inl failed ↦ (new_config-thrown_iff R V T rules message).0 failed
      | inr (cs, made, e) ↦ absurd (cc)
    ],
    λ h. rw ((new_config-thrown_iff R V T rules message).1 h) refl,
  )

  -- `onConfigure` throws exactly where a rule of a text that the parser accepts fails, and with the
  -- exception of the first such rule: of its transformation of requests, or, where that is made, of
  -- its transformation of responses.
  pub on_configure-thrown_iff :
      (parse : Bytes → Option Config) (conf : Configuration) (root : RootContext R V T)
      → (message : Bytes)
      → (on_configure R V T parse conf root ≡ thrown message)
        ↔ FailsConfig (rules_of parse conf) message
  unfolding on_configure
  on_configure-thrown_iff parse null_configuration root message = (λ h. cc, λ h. absurd h)
  on_configure-thrown_iff parse null_data root message = (λ h. cc, λ h. absurd h)
  on_configure-thrown_iff parse (json_text conf) root message =
      configure-thrown_iff root (parse conf) message
