-- ===== src/Transformation/Transformer/Throwing.antt =====
-- The exception of a configuration that makes no transformer.
use envoy_wasm_filters.Base.{◌<◌, ◌≡◌, sym, ◌∙◌, ◌↔◌, ◌⊎◌, inl, inr, List, arith, Bytes, text}
use envoy_wasm_filters.Transformation.Engine.{ok, thrown, Regexes, Values, Templates}
use envoy_wasm_filters.Transformation.Results.{
  Zip, traverse-thrown_iff, FirstFailure, FirstFailure-map, Returns, Throws,
}
use envoy_wasm_filters.Transformation.Transformer.{
  Extraction, Transformation, Extractor, new_extractor, new_extractors, new_headers,
  new_transformer,
}
use envoy_wasm_filters.Transformation.Transformer.Make.{
  IsExtractor, IsTemplate, make_extractor, make_template, new_extractors-traverse,
  new_headers-traverse, make_extractor-ok_iff, make_template-ok_iff, new_extractors-ok_iff,
}

abbrev pub outside_range : Bytes
outside_range = text "group requested for regex outside range"

module _ (R : Regexes) (V : Values) (T : Templates V) where
  -- The exception of an entry.
  abbrev pub Fails : Bytes × Extraction → Bytes → Type 0
  Fails (name, e) message =
      (R.compile e.regex ≡ thrown message)
      ⊎ ((r : R.Regex) × (R.compile e.regex ≡ ok r)
          × (R.mark_count r < e.subgroup)
          × (message ≡ outside_range))

  make_extractor-thrown_iff :
      (p : Bytes × Extraction) (message : Bytes)
      → (make_extractor R V T p ≡ thrown message) ↔ Fails p message
  unfolding make_extractor new_extractor
  make_extractor-thrown_iff (name, e) message = (λ h. ground arith, λ h. ground arith)

  make_template-thrown_iff :
      (p : Bytes × Bytes) (message : Bytes)
      → (make_template R V T p ≡ thrown message) ↔ (T.parse p.1 ≡ thrown message)
  unfolding make_template
  make_template-thrown_iff (name, template) message = (λ h. ground arith, λ h. ground arith)

  abbrev Extracts : Bytes × Extraction → Type 0
  Extracts p = (q : Bytes × Extractor R) × IsExtractor R V T p q

  abbrev Parses : Bytes × Bytes → Type 0
  Parses p = (q : Bytes × T.Template) × IsTemplate R V T p q

  -- The first entry that fails: an extractor, or a template behind extractors that are made.
  abbrev pub IsUnmade : Transformation → Bytes → Type 0
  IsUnmade t message =
      FirstFailure Extracts Fails t.extractors message
      ⊎ ((xs : List (Bytes × Extractor R)) × Zip (IsExtractor R V T) t.extractors xs
          × FirstFailure Parses (λ p m. T.parse p.1 ≡ thrown m) t.headers message)

  new_transformer-thrown_parts :
      (t : Transformation) (message : Bytes)
      → (new_transformer R V T t ≡ thrown message) ↔ (
          (new_extractors R V T t.extractors ≡ thrown message)
          ⊎ ((xs : List (Bytes × Extractor R)) × (new_extractors R V T t.extractors ≡ ok xs)
              × (new_headers R V T t.headers ≡ thrown message)))
  unfolding new_transformer
  new_transformer-thrown_parts t message = (λ h. ground arith, λ h. ground arith)

  new_extractors-thrown_iff :
      (es : List (Bytes × Extraction)) (message : Bytes)
      → (new_extractors R V T es ≡ thrown message) ↔ FirstFailure Extracts Fails es message
  new_extractors-thrown_iff es message =
      let loop = traverse-thrown_iff (make_extractor R V T) es message in
      let same = new_extractors-traverse R V T es in
      (
        λ h.
            FirstFailure-map (Returns (make_extractor R V T)) Extracts
              (Throws (make_extractor R V T)) Fails
              (λ p r. (r.0, (make_extractor-ok_iff R V T p r.0).0 r.1))
              (λ p m. (make_extractor-thrown_iff p m).0) es message (loop.0 (sym same ∙ h)),
        λ h.
            same
            ∙ loop.1 (
                FirstFailure-map Extracts (Returns (make_extractor R V T)) Fails
                  (Throws (make_extractor R V T))
                  (λ p r. (r.0, (make_extractor-ok_iff R V T p r.0).1 r.1))
                  (λ p m. (make_extractor-thrown_iff p m).1) es message h),
      )

  new_headers-thrown_iff :
      (ts : List (Bytes × Bytes)) (message : Bytes)
      → (new_headers R V T ts ≡ thrown message)
        ↔ FirstFailure Parses (λ p m. T.parse p.1 ≡ thrown m) ts message
  new_headers-thrown_iff ts message =
      let loop = traverse-thrown_iff (make_template R V T) ts message in
      let same = new_headers-traverse R V T ts in
      (
        λ h.
            FirstFailure-map (Returns (make_template R V T)) Parses (Throws (make_template R V T))
              (λ p m. T.parse p.1 ≡ thrown m)
              (λ p r. (r.0, (make_template-ok_iff R V T p r.0).0 r.1))
              (λ p m. (make_template-thrown_iff p m).0) ts message (loop.0 (sym same ∙ h)),
        λ h.
            same
            ∙ loop.1 (
                FirstFailure-map Parses (Returns (make_template R V T))
                  (λ p m. T.parse p.1 ≡ thrown m) (Throws (make_template R V T))
                  (λ p r. (r.0, (make_template-ok_iff R V T p r.0).1 r.1))
                  (λ p m. (make_template-thrown_iff p m).1) ts message h),
      )

  -- An exception of the constructor is that of the first entry that fails: of an extractor, whose
  -- expression does not compile or lacks the group, or, where all extractors are made, of a template
  -- that does not parse.
  pub new_transformer-thrown_iff :
      (t : Transformation) (message : Bytes)
      → (new_transformer R V T t ≡ thrown message) ↔ IsUnmade t message
  new_transformer-thrown_iff t message =
      let parts = new_transformer-thrown_parts t message in
      (
        λ h. elim (parts.0 h) [
          | inl failed ↦ inl ((new_extractors-thrown_iff t.extractors message).0 failed)
          | inr (xs, made, failed) ↦ inr (
            xs,
            (new_extractors-ok_iff R V T t.extractors xs).0 made,
            (new_headers-thrown_iff t.headers message).0 failed,
          )
        ],
        λ h. parts.1 (elim h [
          | inl failed ↦ inl ((new_extractors-thrown_iff t.extractors message).1 failed)
          | inr (xs, made, failed) ↦ inr (
            xs,
            (new_extractors-ok_iff R V T t.extractors xs).1 made,
            (new_headers-thrown_iff t.headers message).1 failed,
          )
        ]),
      )
