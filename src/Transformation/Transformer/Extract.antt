-- ===== src/Transformation/Transformer/Extract.antt =====
-- The group that an extractor asks for is there in every match.
use envoy_wasm_filters.Base.{
  ℕ, zero, suc, ◌<◌, ◌≤◌, ◌≡◌, refl, inl, inr, some, List, [], ◌∷◌, arith, ltb, if◌then◌else◌,
  length, get_or, get_elem?, Bytes, text, Bool-cases, subst,
}
use envoy_wasm_filters.Transformation.Engine.{Result, ok, thrown, ◌>>=◌, Regexes, IsEcmaScript}
use envoy_wasm_filters.Transformation.Transformer.{
  Extraction, Extractor, new_extractor, sub_match, extract_value,
}

-- Of a list with more elements than `i`.
get_elem?-lt {ℓ} :
    {A : Type ℓ} (xs : List A) (i : ℕ) (d : A)
    → i < length xs
    → get_elem? xs i ≡ some (get_or xs i d)
get_elem?-lt [] i d h = elim h [ ]
get_elem?-lt (x ∷ xs) zero d h = refl
get_elem?-lt (x ∷ xs) (suc i) d h = get_elem?-lt xs i d (omega arith)

sub_match-lt :
    (group : ℕ) (subs : List Bytes)
    → group < length subs
    → get_elem? subs group ≡ some (sub_match group (some subs))
unfolding sub_match
sub_match-lt group subs h = ground (arith, get_elem?-lt subs group [] h)

module _ (R : Regexes) where
  -- What construction has checked.
  IsChecked : Extraction → Result (Extractor R) → Type 0
  IsChecked e (thrown message) = Unit
  IsChecked e (ok x) =
      (x.headername ≡ e.header) × (x.group ≡ e.subgroup) × (x.group ≤ R.mark_count x.extract_regex)

  made-IsChecked :
      (e : Extraction) (compiled : Result R.Regex)
      → IsChecked e (
          compiled >>= λ r.
          if ltb (R.mark_count r) e.subgroup
          then thrown (text "group requested for regex outside range")
          else ok (record { headername = e.header; group = e.subgroup; extract_regex = r }))
  unfolding IsChecked
  made-IsChecked e (thrown message) = tt
  made-IsChecked e (ok r) = elim (Bool-cases (ltb (R.mark_count r) e.subgroup)) [
    | inl outside ↦ rw outside tt
    | inr inside ↦ rw inside (refl, refl, ground arith)
  ]

  new_extractor-ok :
      (e : Extraction) (x : Extractor R)
      → new_extractor R e ≡ ok x
      → (x.headername ≡ e.header)
        × (x.group ≡ e.subgroup)
        × (x.group ≤ R.mark_count x.extract_regex)
  unfolding new_extractor IsChecked
  new_extractor-ok e x h = subst (IsChecked e) h (made-IsChecked e (R.compile e.regex))

  -- Where the whole value matches, and a match has a sub-match for each group, an extractor that was
  -- constructed returns the sub-match of the group in its configuration: the test for a missing group never passes.
  pub extract_value-group :
      (e : Extraction) (x : Extractor R) (value : Bytes) (subs : List Bytes)
      → IsEcmaScript R
      → new_extractor R e ≡ ok x
      → R.regex_match value x.extract_regex ≡ ok (some subs)
      → (s : Bytes) × (extract_value R x value ≡ ok s) × (get_elem? subs e.subgroup ≡ some s)
  unfolding extract_value
  extract_value-group e x value subs laws made matched =
      let (_, group, checked) = new_extractor-ok e x made in
      let inside : x.group < length subs =
        omega (arith, laws.match_size value x.extract_regex subs matched) in
      (
        sub_match x.group (some subs),
        rw matched refl,
        rw (← group) (sub_match-lt x.group subs inside),
      )
