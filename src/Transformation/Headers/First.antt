-- ===== src/Transformation/Headers/First.antt =====
-- What `getHeader` finds, without its loop.
use envoy_wasm_filters.Base.{
  ◌≡◌, ◌≢◌, refl, ap, ◌∙◌, ◌↔◌, ◌⊎◌, inl, inr, none, some, [], ◌∷◌, ◌++◌, arith, All, Bytes,
  bytes_eq, bytes_eq_iff, bytes_eq_refl, bytes_eq_ne, Bool-cases,
}
use envoy_wasm_filters.Transformation.Headers.{Headers, get_header}

-- No header has the name.
abbrev pub HasNone : Headers → Bytes → Type 0
HasNone headers key = All (λ h. h.0 ≢ key) headers

-- A header of the name has the value, and none before it has the name.
abbrev pub HasFirst : Headers → Bytes → Bytes → Type 0
HasFirst headers key value =
    (before after : Headers) × HasNone before key × (headers ≡ before ++ (key, value) ∷ after)

-- The first value of a name, or the empty string where no header has it.
abbrev pub IsFirstOrEmpty : Headers → Bytes → Bytes → Type 0
IsFirstOrEmpty headers key value = HasFirst headers key value ⊎ (HasNone headers key × (value ≡ []))

get_header-before :
    (before after : Headers) (key value : Bytes)
    → HasNone before key
    → get_header (before ++ (key, value) ∷ after) key ≡ some value
unfolding get_header
get_header-before [] after key value h = rw (bytes_eq_refl key)
get_header-before ((k, v) ∷ before) after key value (h, hs) =
    rw (bytes_eq_ne k key h) (get_header-before before after key value hs)

get_header-HasFirst :
    (headers : Headers) (key value : Bytes)
    → get_header headers key ≡ some value
    → HasFirst headers key value
unfolding get_header
get_header-HasFirst [] key value h = cc
get_header-HasFirst ((k, v) ∷ headers) key value h = elim (Bool-cases (bytes_eq k key)) [
  | inl same ↦
      let name : k ≡ key = (bytes_eq_iff k key).0 same in
      let held : v ≡ value = ground arith in ([], headers, tt, rw (name, held) refl)
  | inr other ↦
      let (before, after, absent, split) = get_header-HasFirst headers key value (ground arith) in
      (
        (k, v) ∷ before,
        after,
        (λ e. cc ((bytes_eq_iff k key).1 e, other), absent),
        ap (λ l. (k, v) ∷ l) split,
      )
]

-- The loop finds the first value.
pub get_header-some_iff :
    (headers : Headers) (key value : Bytes)
    → (get_header headers key ≡ some value) ↔ HasFirst headers key value
get_header-some_iff headers key value = (
  get_header-HasFirst headers key value,
  λ (before, after, absent, split).
      ap (λ l. get_header l key) split ∙ get_header-before before after key value absent,
)

-- It finds nothing where there is none.
pub get_header-none :
    (headers : Headers) (key : Bytes) → get_header headers key ≡ none → HasNone headers key
unfolding get_header
get_header-none [] key h = tt
get_header-none ((k, v) ∷ headers) key h = elim (Bool-cases (bytes_eq k key)) [
  | inl same ↦ cc (rw same at h)
  | inr other ↦
      (λ e. cc ((bytes_eq_iff k key).1 e, other), get_header-none headers key (rw other at h))
]
