-- ===== src/Common/Context/Laws.antt =====
-- What the request information holds after it was populated, and the name of a service.
use mathlib.Core.List.{append_assoc, append-nil}
use envoy_wasm_filters.Base.{
  ℕ, ◌≡◌, ◌≢◌, refl, ◌∙◌, inl, inr, ◌↔◌, Bool, true, false, ◌&&◌, Option, none, some, [], ◌∷◌, ◌++◌,
  ◌==◌, if◌then◌else◌, is_empty, Bytes, text, arith, All, Bool-cases,
}
use envoy_wasm_filters.Common.ResponseFlag.Decode.{decode_flags, decode_flags-parse_response_flag}
use envoy_wasm_filters.Common.Context.{
  RequestInfo, Stream, out_value, split_commas, extract_service_name, outbound,
  get_traffic_direction, direction_or_unspecified, populate_http_request_info,
}

abbrev pub HasNoComma : Bytes → Type 0
HasNoComma s = All (λ c. c ≢ b',') s

split_commas-plain : (substr s : Bytes) → HasNoComma s → split_commas substr s ≡ (substr ++ s) ∷ []
unfolding split_commas
split_commas-plain substr [] h = rw append-nil
split_commas-plain substr (c ∷ s) (h, hs) = elim (Bool-cases (c == b',')) [
  | inl comma ↦ absurd (h (ground arith))
  | inr other ↦ rw other (split_commas-plain (substr ++ c ∷ []) s hs ∙ simp append_assoc)
]

split_commas-cut :
    (substr s rest : Bytes)
    → HasNoComma s
    → split_commas substr (s ++ b',' ∷ rest) ≡ (substr ++ s) ∷ split_commas [] rest
unfolding split_commas
split_commas-cut substr [] rest h = rw append-nil
split_commas-cut substr (c ∷ s) rest (h, hs) = elim (Bool-cases (c == b',')) [
  | inl comma ↦ absurd (h (ground arith))
  | inr other ↦ rw other (split_commas-cut (substr ++ c ∷ []) s rest hs ∙ simp append_assoc)
]

-- The service's name is the host name up to its first comma; a host name with no comma, however
-- many labels it has, is the name as it stands.
extract_service_name_lem :
    (first rest before : Bytes)
    → HasNoComma first
    → (extract_service_name (first ++ b',' ∷ rest) before ≡ first)
      × (extract_service_name first before ≡ first)
unfolding extract_service_name
extract_service_name_lem first rest before h =
    (rw (split_commas-cut [] first rest h) refl, rw (split_commas-plain [] first h) refl)

-- The direction is outbound exactly when the property is there and is 2.
get_traffic_direction-outbound :
    (s : Stream) → (get_traffic_direction s ≡ outbound) ↔ (s.listener_direction ≡ some 2)
unfolding get_traffic_direction
get_traffic_direction-outbound s = direction-outbound s.listener_direction
  where
    direction-outbound : (o : Option ℕ) → (direction_or_unspecified o ≡ outbound) ↔ (o ≡ some 2)
    direction-outbound none = (λ e. cc, λ e. cc)
    direction-outbound (some n) = (λ e. ground arith, λ e. ground arith)

populate-destination :
    (out fallback : Bool) (s : Stream) (r : RequestInfo)
    → ((populate_http_request_info out fallback s r).destination_service_host ≡ (
        if is_empty r.destination_service_host && fallback
        then s.request_header (text ":authority")
        else r.destination_service_host))
      × ((populate_http_request_info out fallback s r).destination_service_name ≡ (
          if is_empty r.destination_service_host
          then r.destination_service_name
          else extract_service_name r.destination_service_host r.destination_service_name))
unfolding populate_http_request_info
populate-destination out fallback s r = ground arith

-- Populating an information with no host, with the fallback, for a request whose authority header is
-- not empty and has no comma: the host is that header and the name stays. Populating the result for
-- a later state keeps the host, and the name is then the host.
pub populate_twice :
    (out again_out fallback : Bool) (s later : Stream) (r : RequestInfo)
    → r.destination_service_host ≡ []
    → is_empty (s.request_header (text ":authority")) ≡ false
    → HasNoComma (s.request_header (text ":authority"))
    → (let once = populate_http_request_info out true s r in
        let twice = populate_http_request_info again_out fallback later once in
        (once.destination_service_host ≡ s.request_header (text ":authority"))
        × (once.destination_service_name ≡ r.destination_service_name)
        × (twice.destination_service_host ≡ s.request_header (text ":authority"))
        × (twice.destination_service_name ≡ s.request_header (text ":authority")))
populate_twice out again_out fallback s later r none_yet full plain =
    let authority = s.request_header (text ":authority") in
    let once = populate_http_request_info out true s r in
    let (host, name) = populate-destination out true s r in
    let (host_again, name_again) = populate-destination again_out fallback later once in
    let empty : is_empty r.destination_service_host ≡ true = rw none_yet refl in
    let host_is : once.destination_service_host ≡ authority = host ∙ rw empty refl in
    let kept : is_empty once.destination_service_host ≡ false = rw host_is full in
    (
      host_is,
      name ∙ rw empty refl,
      host_again ∙ rw kept host_is,
      name_again
          ∙ rw (kept, host_is)
              (extract_service_name_lem authority [] once.destination_service_name plain).1,
    )

-- The response flags can be read back from the text that the information holds.
populate-response_flag :
    (out fallback : Bool) (s : Stream) (r : RequestInfo)
    → decode_flags (populate_http_request_info out fallback s r).response_flag
      ≡ out_value 0 s.response_flags
unfolding populate_http_request_info
populate-response_flag out fallback s r =
    decode_flags-parse_response_flag (out_value 0 s.response_flags)
