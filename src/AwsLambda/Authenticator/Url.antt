-- ===== src/AwsLambda/Authenticator/Url.antt =====
-- The path and the query of a URL.
use mathlib.Core.List.{append-nil}
use envoy_wasm_filters.Base.{
  ℕ, suc, ◌-◌, ◌≡◌, ◌≢◌, refl, sym, ap, ◌∙◌, ◌⊎◌, inl, inr, [], ◌∷◌, ◌++◌, arith, Bytes, length,
  take, ◌==◌, All, length-append, take-length-append, Bool-cases,
}
use envoy_wasm_filters.AwsLambda.Authenticator.{find_query_string_start, split_url}
use envoy_wasm_filters.AwsLambda.Authenticator.Spec.{before_mark, after_mark}

abbrev pub HasNoMark : Bytes → Type 0
HasNoMark s = All (λ c. c ≢ b'?') s

find_query-append :
    (base rest : Bytes)
    → HasNoMark base
    → find_query_string_start (base ++ rest) ≡ find_query_string_start rest
unfolding find_query_string_start
find_query-append [] rest h = refl
find_query-append (c ∷ base) rest (h, hs) = ground (arith, find_query-append base rest hs)

-- A path with no question mark has no query.
pub split_url_plain : (base : Bytes) → HasNoMark base → split_url base ≡ (base, [])
unfolding split_url
split_url_plain base h =
    let none_found : find_query_string_start base ≡ [] =
      ap find_query_string_start (sym (append-nil base))
      ∙ find_query-append base [] h
      ∙ (unfold find_query_string_start in refl) in
    rw none_found

-- A path is split at its first question mark, which is in neither part.
pub split_url-append :
    (base query : Bytes) → HasNoMark base → split_url (base ++ b'?' ∷ query) ≡ (base, query)
unfolding split_url
split_url-append base query h =
    let found : find_query_string_start (base ++ b'?' ∷ query) ≡ b'?' ∷ query =
      find_query-append base (b'?' ∷ query) h ∙ (unfold find_query_string_start in refl) in
    let size : length (base ++ b'?' ∷ query) - suc (length query) ≡ length base =
      omega (arith, length-append base (b'?' ∷ query)) in
    let cut : take (length (base ++ b'?' ∷ query) - suc (length query)) (base ++ b'?' ∷ query)
        ≡ base =
      ap (λ n. take n (base ++ b'?' ∷ query)) size ∙ take-length-append base (b'?' ∷ query) in
    rw found (ground (arith, cut))

-- The place of the first question mark.
abbrev FirstMark : Bytes → Type 0
FirstMark path =
    HasNoMark path ⊎ ((base query : Bytes) × HasNoMark base × (path ≡ base ++ b'?' ∷ query))

FirstMark-step : (c : ℕ) (path : Bytes) → FirstMark path → FirstMark (c ∷ path)
FirstMark-step c path found = elim (Bool-cases (c == b'?')) [
  | inl mark ↦ inr ([], path, tt, ground arith)
  | inr other ↦ elim found [
    | inl plain ↦ inl (ground arith, plain)
    | inr (base, query, plain, e) ↦ inr (c ∷ base, query, (ground arith, plain), ap (λ s. c ∷ s) e)
  ]
]

first_mark : (path : Bytes) → FirstMark path
first_mark [] = inl tt
first_mark (c ∷ path) = FirstMark-step c path (first_mark path)

before_mark-plain :
    (base rest : Bytes) → HasNoMark base → before_mark (base ++ rest) ≡ base ++ before_mark rest
before_mark-plain [] rest h = refl
before_mark-plain (c ∷ base) rest (h, hs) = ground (arith, before_mark-plain base rest hs)

after_mark-plain :
    (base rest : Bytes) → HasNoMark base → after_mark (base ++ rest) ≡ after_mark rest
after_mark-plain [] rest h = refl
after_mark-plain (c ∷ base) rest (h, hs) = ground (arith, after_mark-plain base rest hs)

-- The pieces of a path are what stands before its first question mark, and what stands behind it.
pub split_url_lem : (path : Bytes) → split_url path ≡ (before_mark path, after_mark path)
split_url_lem path = elim (first_mark path) [
  | inl plain ↦
      let before : before_mark path ≡ path =
        ap before_mark (sym (append-nil path))
        ∙ before_mark-plain path [] plain
        ∙ append-nil path in
      let after : after_mark path ≡ [] =
        ap after_mark (sym (append-nil path)) ∙ after_mark-plain path [] plain in
      rw (before, after) (split_url_plain path plain)
  | inr (base, query, plain, e) ↦
      let before : before_mark path ≡ base =
        ap before_mark e ∙ before_mark-plain base (b'?' ∷ query) plain ∙ append-nil base in
      let after : after_mark path ≡ query =
        ap after_mark e ∙ after_mark-plain base (b'?' ∷ query) plain in
      rw (before, after) (ap split_url e ∙ split_url-append base query plain)
]
