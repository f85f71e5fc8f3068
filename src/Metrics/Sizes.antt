-- ===== src/Metrics/Sizes.antt =====
-- What a request's callbacks leave in its information.
use envoy_wasm_filters.Base.{ℕ, ◌+◌, ◌%◌, ◌^◌, ◌<◌, ◌≡◌, refl, Bool, List, [], ◌∷◌, arith}
use envoy_wasm_filters.Common.Context.{RequestInfo}
use envoy_wasm_filters.Metrics.{on_request_headers, on_request_body, on_response_body}

-- The callbacks of a request before it is logged.
pub data Event : Type 0 where
  request_headers : (now : ℕ) → Event
  request_body response_body : (body_buffer_length : ℕ) (end_of_stream : Bool) → Event

unfoldable pub handle : Event → RequestInfo → RequestInfo
unfolding on_request_headers on_request_body on_response_body
handle (request_headers now) info = (on_request_headers now info).1
handle (request_body n end_of_stream) info = (on_request_body n end_of_stream info).1
handle (response_body n end_of_stream) info = (on_response_body n end_of_stream info).1

unfoldable pub handle_all : List Event → RequestInfo → RequestInfo
unfolding handle
handle_all [] info = info
handle_all (e ∷ es) info = handle_all es (handle e info)

-- The sums of the lengths, and the time of the last headers.
unfoldable pub requested : List Event → ℕ
requested [] = 0
requested (request_headers now ∷ es) = requested es
requested (request_body n b ∷ es) = n + requested es
requested (response_body n b ∷ es) = requested es

unfoldable pub responded : List Event → ℕ
responded [] = 0
responded (request_headers now ∷ es) = responded es
responded (request_body n b ∷ es) = responded es
responded (response_body n b ∷ es) = n + responded es

unfoldable pub last_start : ℕ → List Event → ℕ
last_start now [] = now
last_start now (request_headers later ∷ es) = last_start later es
last_start now (request_body n b ∷ es) = last_start now es
last_start now (response_body n b ∷ es) = last_start now es

-- From sizes below 2 ^ 64, after any callbacks the sizes are the sums of the lengths, modulo 2 ^ 64, and the start is the
-- time of the last request headers.
pub handle_all_lem :
    (es : List Event) (info : RequestInfo)
    → info.request_size < 2 ^ 64
    → info.response_size < 2 ^ 64
    → ((handle_all es info).request_size ≡ (info.request_size + requested es) % 2 ^ 64)
      × ((handle_all es info).response_size ≡ (info.response_size + responded es) % 2 ^ 64)
      × ((handle_all es info).start_timestamp ≡ last_start info.start_timestamp es)
unfolding handle_all requested responded last_start
handle_all_lem [] info h k = (omega arith, omega arith, refl)
handle_all_lem (request_headers now ∷ es) info h k =
    handle_all_lem es (handle (request_headers now) info) h k
handle_all_lem (request_body n b ∷ es) info h k =
    let (asked, replied, start) =
      handle_all_lem es (handle (request_body n b) info) (omega arith) k in
    (omega (arith, asked), replied, start)
handle_all_lem (response_body n b ∷ es) info h k =
    let (asked, replied, start) =
      handle_all_lem es (handle (response_body n b) info) h (omega arith) in
    (asked, omega (arith, replied), start)
