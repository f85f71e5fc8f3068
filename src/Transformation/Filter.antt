-- ===== src/Transformation/Filter.antt =====
-- extensions/transformation/filter.cc: the root context's configuration and the two handlers of a
-- request. A request's context keeps a pointer into the configuration, which a later configuration
-- destroys; `none` is undefined behaviour.
pub mod Laws
pub mod Configured
pub mod Exchange
pub mod Throwing
pub mod Lifetime
pub mod System
pub mod Copying
use envoy_wasm_filters.Base.{
  ℕ, ◌+◌, ◌≡◌, Bool, true, false, Option, none, some, List, [], ◌∷◌, ◌==◌, if◌then◌else◌, Bytes,
  text,
}
use envoy_wasm_filters.Transformation.Headers.{Headers}
use envoy_wasm_filters.Transformation.Engine.{
  Result, ok, thrown, ◌>>=◌, Regexes, Values, Templates, HeaderMap,
}
use envoy_wasm_filters.Transformation.Transformer.{
  InjaTransformer, Outcome, done, failed, transform,
}
use envoy_wasm_filters.Transformation.Routes.{
  Config, RouteTransformers, TransformationConfig, new_config, get_route_transformation,
}

-- The name that the factories of both contexts are registered under.
abbrev root_id : Bytes
root_id = text "transformation_root_id"

-- `getConfiguration`: a null pointer, a buffer whose data is null, or a text.
pub data Configuration : Type 0 where
  null_configuration null_data : Configuration
  json_text : Bytes → Configuration

pub data FilterHeadersStatus : Type 0 where
  continue stop_iteration : FilterHeadersStatus

-- What the context does with an exception: the message is logged and the state is kept.
unfoldable pub caught {ℓ} : {W : Type ℓ} → Outcome W → W
caught (done w) = w
caught (failed w e) = w

module _ (R : Regexes) (V : Values) (T : Templates V) where
  -- `epoch` counts the configurations that were put in place, each of which destroys the one before.
  pub record RootContext : Type 0 where
    pub header_value : Bytes
    pub transformation_config : Option (TransformationConfig R V T)
    pub epoch : ℕ

  -- What follows the parser's status.
  unfoldable pub configure : RootContext → Option Config → Result (Bool × RootContext)
  configure root none = ok (false, root)
  configure root (some config) = do
    c ← new_config R V T config
    ok (true, record root { transformation_config = some c; epoch = root.epoch + 1 })

  -- `JsonStringToMessage` with its options is a parameter; `none` is a status other than ok. An
  -- exception of a constructor leaves `onConfigure`.
  unfoldable pub on_configure :
      (Bytes → Option Config) → Configuration → RootContext → Result (Bool × RootContext)
  unfolding configure
  on_configure parse null_configuration root = ok (true, root)
  on_configure parse null_data root = ok (true, root)
  on_configure parse (json_text conf) root = configure root (parse conf)

  -- A pointer to a route of the configuration of an epoch, with what it points at: no route is changed
  -- while its configuration exists.
  pub record RoutePointer : Type 0 where
    pub epoch : ℕ
    pub target : RouteTransformers R V T

  unfoldable pub pointer_to : ℕ → Option (RouteTransformers R V T) → Option RoutePointer
  pointer_to epoch none = none
  pointer_to epoch (some route) = some (record { epoch = epoch; target = route })

  -- The context of a request, with a pointer to the route that was chosen for it.
  pub record Context : Type 0 where
    pub transformation : Option RoutePointer

  -- The route behind the pointer, if there is one. Reading it after its configuration has been
  -- destroyed is undefined.
  unfoldable pub read_transformation :
      RootContext → Option RoutePointer → Option (Option (RouteTransformers R V T))
  read_transformation root none = some none
  read_transformation root (some p) = if p.epoch == root.epoch then some (some p.target) else none

  -- A transformer that is not there changes nothing.
  unfoldable pub transform_optional :
      (M : HeaderMap) → Option (InjaTransformer R V T) → Headers → M.World → M.World
  unfolding caught
  transform_optional M none pairs w = w
  transform_optional M (some t) pairs w = caught (transform R V T M t pairs w)

  unfoldable pub apply_request :
      (M : HeaderMap) → Option (RouteTransformers R V T) → Headers → M.World → M.World
  unfolding transform_optional
  apply_request M none pairs w = w
  apply_request M (some route) pairs w = transform_optional M route.request pairs w

  unfoldable pub apply_response :
      (M : HeaderMap) → Option (RouteTransformers R V T) → Headers → M.World → M.World
  unfolding transform_optional
  apply_response M none pairs w = w
  apply_response M (some route) pairs w = transform_optional M route.response pairs w

  -- Without a configuration the filter is disabled, and the context stays.
  unfoldable pub with_config :
      (M : HeaderMap)
      → Headers
      → Context
      → M.World
      → ℕ
      → Option (TransformationConfig R V T)
      → FilterHeadersStatus × Context × M.World
  unfolding pointer_to apply_request
  with_config M pairs c w epoch none = (continue, c, w)
  with_config M pairs c w epoch (some config) =
      let route = get_route_transformation R V T config pairs in
      (continue, record { transformation = pointer_to epoch route }, apply_request M route pairs w)

  unfoldable pub on_request_headers :
      (M : HeaderMap)
      → RootContext
      → Headers
      → Context
      → M.World
      → FilterHeadersStatus × Context × M.World
  unfolding with_config
  on_request_headers M root pairs c w =
      with_config M pairs c w root.epoch root.transformation_config

  unfoldable pub respond :
      (M : HeaderMap)
      → Headers
      → Context
      → M.World
      → Option (Option (RouteTransformers R V T))
      → Option (FilterHeadersStatus × Context × M.World)
  unfolding apply_response
  respond M pairs c w none = none
  respond M pairs c w (some route) = some (continue, c, apply_response M route pairs w)

  unfoldable pub on_response_headers :
      (M : HeaderMap)
      → RootContext
      → Headers
      → Context
      → M.World
      → Option (FilterHeadersStatus × Context × M.World)
  unfolding read_transformation respond
  on_response_headers M root pairs c w =
      respond M pairs c w (read_transformation root c.transformation)
