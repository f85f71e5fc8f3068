-- ===== src/Transformation/Filter/Configured.antt =====
-- Sequences of configurations: which of them is in force.
use envoy_wasm_filters.Base.{
  ◌+◌, ◌<◌, ◌≡◌, refl, sym, ap, ◌∙◌, arith, Bool, true, false, Option, none, some, List, [], ◌∷◌,
  Bytes,
}
use envoy_wasm_filters.Transformation.Engine.{Result, ok, ◌>>=◌, Regexes, Values, Templates}
use envoy_wasm_filters.Transformation.Results.{>>=-eq-ok}
use envoy_wasm_filters.Transformation.Routes.{Config, TransformationConfig, new_config}
use envoy_wasm_filters.Transformation.Filter.{
  Configuration, null_configuration, null_data, json_text, RootContext, configure, on_configure,
}

-- The rules that a text gives, or those that were given before.
abbrev rules_or : Option Config → Option Config → Option Config
rules_or found none = found
rules_or found (some rules) = some rules

abbrev pub is_some {ℓ} : {A : Type ℓ} → Option A → Bool
is_some none = false
is_some (some a) = true

module _ (R : Regexes) (V : Values) (T : Templates V) where
  -- The configurations that the proxy gives one after another.
  unfoldable pub configure_all :
      (Bytes → Option Config) → List Configuration → RootContext R V T → Result (RootContext R V T)
  configure_all parse [] root = ok root
  configure_all parse (conf ∷ confs) root = do
    (accepted, r) ← on_configure R V T parse conf root
    configure_all parse confs r

  -- The rules of the last text that the parser accepts.
  unfoldable pub last_accepted :
      (Bytes → Option Config) → List Configuration → Option Config → Option Config
  last_accepted parse [] found = found
  last_accepted parse (null_configuration ∷ confs) found = last_accepted parse confs found
  last_accepted parse (null_data ∷ confs) found = last_accepted parse confs found
  last_accepted parse (json_text conf ∷ confs) found =
      last_accepted parse confs (rules_or found (parse conf))

  -- The configuration that the rules make is in force, in a later epoch, or the filter is as it was.
  abbrev pub InForce : Option Config → RootContext R V T → RootContext R V T → Type 0
  InForce none before root = root ≡ before
  InForce (some rules) before root =
      (cs : TransformationConfig R V T) × (new_config R V T rules ≡ ok cs)
      × (root.transformation_config ≡ some cs)
      × (root.header_value ≡ before.header_value)
      × (before.epoch < root.epoch)

  configure-InForce :
      (o : Option Config) (root : RootContext R V T) (answer : Bool × RootContext R V T)
      → configure R V T root o ≡ ok answer
      → InForce o root answer.1 × (answer.0 ≡ is_some o)
  unfolding configure
  configure-InForce none root answer h =
      let same : (false, root) ≡ answer = cc in
      (
        ap (λ (a : Bool × RootContext R V T). a.1) (sym same),
        ap (λ (a : Bool × RootContext R V T). a.0) (sym same),
      )
  configure-InForce (some rules) root answer h =
      let (cs, made, e) = >>=-eq-ok (new_config R V T rules) _ answer h in
      let placed = record root { transformation_config = some cs; epoch = root.epoch + 1 } in
      let same : (true, placed) ≡ answer = cc in
      rw (← same) ((cs, made, refl, refl, omega arith), refl)

  -- A later configuration, where there is one, replaces an earlier one.
  InForce-then :
      (found later : Option Config) (before middle root : RootContext R V T)
      → InForce found before middle
      → InForce later middle root
      → InForce (rules_or found later) before root
  InForce-then found none before middle root h k = rw k h
  InForce-then none (some rules) before middle root h k = rw h at k
  InForce-then (some old) (some rules) before middle root (ds, made_old, set, kept, later)
        (cs, made, placed, same, last) =
      (cs, made, placed, same ∙ kept, omega arith)

  null_answer :
      (root : RootContext R V T) (answer : Bool × RootContext R V T)
      → ok (true, root) ≡ ok answer
      → answer.1 ≡ root
  null_answer root answer h =
      let same : (true, root) ≡ answer = cc in ap (λ (a : Bool × RootContext R V T). a.1) (sym same)

  configure_all-InForce :
      (parse : Bytes → Option Config) (confs : List Configuration) (found : Option Config)
      → (before middle root : RootContext R V T) → InForce found before middle
      → configure_all parse confs middle ≡ ok root
      → InForce (last_accepted parse confs found) before root
  unfolding configure_all last_accepted on_configure
  configure_all-InForce parse [] found before middle root h run =
      let same : middle ≡ root = cc in rw (← same) h
  configure_all-InForce parse (null_configuration ∷ confs) found before middle root h run =
      configure_all-InForce parse confs found before middle root h run
  configure_all-InForce parse (null_data ∷ confs) found before middle root h run =
      configure_all-InForce parse confs found before middle root h run
  configure_all-InForce parse (json_text conf ∷ confs) found before middle root h run =
      let (answer, accepted, more) =
        >>=-eq-ok (on_configure R V T parse (json_text conf) middle) _ root run in
      let now = (configure-InForce (parse conf) middle answer accepted).0 in
      configure_all-InForce parse confs (rules_or found (parse conf)) before answer.1 root
        (InForce-then found (parse conf) before middle answer.1 h now) more

  -- Where no configuration of a sequence throws, the one in force is made from the rules of the last
  -- text that the parser accepts, and the filter is as it was if there is none: null configurations
  -- and texts that the parser refuses have no effect.
  pub configure_all_lem :
      (parse : Bytes → Option Config) (confs : List Configuration) (before root : RootContext R V T)
      → configure_all parse confs before ≡ ok root
      → InForce (last_accepted parse confs none) before root
  configure_all_lem parse confs before root run =
      configure_all-InForce parse confs none before before root refl run
