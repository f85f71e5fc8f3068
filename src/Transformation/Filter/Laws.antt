-- ===== src/Transformation/Filter/Laws.antt =====
-- What the handlers leave alone, and which route a response gets.
use envoy_wasm_filters.Base.{ℕ, ◌<◌, ◌≡◌, refl, ◌↔◌, arith, Option, none, some}
use envoy_wasm_filters.Transformation.Headers.{Headers}
use envoy_wasm_filters.Transformation.Engine.{Regexes, Values, Templates, HeaderMap}
use envoy_wasm_filters.Transformation.Transformer.{Outcome, done, failed}
use envoy_wasm_filters.Transformation.Transformer.Render.{final}
use envoy_wasm_filters.Transformation.Routes.{RouteTransformers}
use envoy_wasm_filters.Transformation.Filter.{
  pointer_to, read_transformation, respond, caught, RootContext, Context,
}

pub caught-final {ℓ} : {W : Type ℓ} (o : Outcome W) → caught o ≡ final o
unfolding caught
caught-final (done w) = refl
caught-final (failed w e) = refl

module _ (R : Regexes) (V : Values) (T : Templates V) where
  -- A pointer that was taken in this epoch can be read.
  pub read_transformation-pointer_to :
      (root : RootContext R V T) (chosen : Option (RouteTransformers R V T))
      → read_transformation R V T root (pointer_to R V T root.epoch chosen) ≡ some chosen
  unfolding read_transformation pointer_to
  read_transformation-pointer_to root none = refl
  read_transformation-pointer_to root (some route) = ground arith

  -- A pointer that was taken in an earlier epoch cannot.
  pub read_transformation-destroyed :
      (root : RootContext R V T) (epoch : ℕ) (chosen : Option (RouteTransformers R V T))
      → epoch < root.epoch
      → (read_transformation R V T root (pointer_to R V T epoch chosen) ≡ none)
        ↔ ((route : RouteTransformers R V T) × (chosen ≡ some route))
  unfolding read_transformation pointer_to
  read_transformation-destroyed root epoch none old = (λ h. cc, λ (route, e). cc)
  read_transformation-destroyed root epoch (some route) old =
      (λ h. (route, refl), λ h. ground arith)

module _ (R : Regexes) (V : Values) (T : Templates V) (M : HeaderMap) where
  pub respond-none_iff :
      (pairs : Headers) (c : Context R V T) (w : M.World)
      → (o : Option (Option (RouteTransformers R V T)))
      → (respond R V T M pairs c w o ≡ none) ↔ (o ≡ none)
  unfolding respond
  respond-none_iff pairs c w none = (λ h. refl, λ h. refl)
  respond-none_iff pairs c w (some chosen) = (λ h. cc, λ h. cc)
