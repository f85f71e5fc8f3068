-- ===== src/Transformation/Headers.antt =====
-- extensions/transformation/utils.{h,cc}: the first header with a given name, and the stand-in for
-- the rounding function, of which only a zero of the type of doubles is read.
pub mod First
use envoy_wasm_filters.Base.{Option, none, some, List, [], ◌∷◌, if◌then◌else◌, Bytes, bytes_eq}

abbrev pub Headers : Type 0
Headers = List (Bytes × Bytes)

unfoldable pub get_header : Headers → Bytes → Option Bytes
get_header [] key = none
get_header ((name, value) ∷ headers) key =
    if bytes_eq name key then some value else get_header headers key

unfoldable pub round {ℓ} : {Double : Type ℓ} → Double → Double → Double
round zero_double d = zero_double
