-- ===== src/Transformation/Transformer/Make.antt =====
-- The transformer that a configuration makes.
use envoy_wasm_filters.Base.{◌≤◌, ◌≡◌, refl, sym, ◌∙◌, ◌↔◌, List, [], ◌∷◌, map, arith, Bytes}
use envoy_wasm_filters.Transformation.Engine.{Result, ok, ◌>>=◌, Regexes, Values, Templates}
use envoy_wasm_filters.Transformation.Results.{Zip, Zip-map, traverse, traverse-ok_iff}
use envoy_wasm_filters.Transformation.Transformer.{
  Extraction, Transformation, Extractor, new_extractor, to_lower, InjaTransformer, new_extractors,
  new_headers, new_transformer,
}

module _ (R : Regexes) (V : Values) (T : Templates V) where
  -- An extractor for an entry of the configuration: the compiled expression, with a group that it has.
  abbrev pub IsExtractor : Bytes × Extraction → Bytes × Extractor R → Type 0
  IsExtractor (name, e) (k, x) =
      (k ≡ name)
      × (R.compile e.regex ≡ ok x.extract_regex)
      × (x.headername ≡ e.header)
      × (x.group ≡ e.subgroup)
      × (e.subgroup ≤ R.mark_count x.extract_regex)

  -- A parsed template under its name in lower case.
  abbrev pub IsTemplate : Bytes × Bytes → Bytes × T.Template → Type 0
  IsTemplate (name, template) (k, t) = (k ≡ map to_lower name) × (T.parse template ≡ ok t)

  -- The transformer is the image of the configuration, entry by entry.
  abbrev pub IsMade : Transformation → InjaTransformer R V T → Type 0
  IsMade t x = Zip IsExtractor t.extractors x.extractors × Zip IsTemplate t.headers x.headers

  unfoldable pub make_extractor : Bytes × Extraction → Result (Bytes × Extractor R)
  make_extractor (name, e) = do x ← new_extractor R e; ok (name, x)

  unfoldable pub make_template : Bytes × Bytes → Result (Bytes × T.Template)
  make_template (name, template) = do t ← T.parse template; ok (map to_lower name, t)

  pub new_extractors-traverse :
      (es : List (Bytes × Extraction)) → new_extractors R V T es ≡ traverse make_extractor es
  unfolding new_extractors traverse make_extractor
  new_extractors-traverse [] = refl
  new_extractors-traverse ((name, e) ∷ es) = ground (arith, new_extractors-traverse es)

  pub new_headers-traverse :
      (ts : List (Bytes × Bytes)) → new_headers R V T ts ≡ traverse make_template ts
  unfolding new_headers traverse make_template
  new_headers-traverse [] = refl
  new_headers-traverse ((name, t) ∷ ts) = ground (arith, new_headers-traverse ts)

  pub make_extractor-ok_iff :
      (p : Bytes × Extraction) (q : Bytes × Extractor R)
      → (make_extractor p ≡ ok q) ↔ IsExtractor p q
  unfolding make_extractor new_extractor
  make_extractor-ok_iff (name, e) (k, x) = (λ h. ground arith, λ h. ground arith)

  pub make_template-ok_iff :
      (p : Bytes × Bytes) (q : Bytes × T.Template) → (make_template p ≡ ok q) ↔ IsTemplate p q
  unfolding make_template
  make_template-ok_iff (name, template) (k, t) = (λ h. ground arith, λ h. ground arith)

  pub new_extractors-ok_iff :
      (es : List (Bytes × Extraction)) (xs : List (Bytes × Extractor R))
      → (new_extractors R V T es ≡ ok xs) ↔ Zip IsExtractor es xs
  new_extractors-ok_iff es xs =
      let loop = traverse-ok_iff make_extractor es xs in
      let same = new_extractors-traverse es in
      (
        λ h.
            Zip-map _ IsExtractor (λ p q. (make_extractor-ok_iff p q).0) es xs
              (loop.0 (sym same ∙ h)),
        λ h. same ∙ loop.1 (Zip-map IsExtractor _ (λ p q. (make_extractor-ok_iff p q).1) es xs h),
      )

  new_headers-ok_iff :
      (ts : List (Bytes × Bytes)) (xs : List (Bytes × T.Template))
      → (new_headers R V T ts ≡ ok xs) ↔ Zip IsTemplate ts xs
  new_headers-ok_iff ts xs =
      let loop = traverse-ok_iff make_template ts xs in
      let same = new_headers-traverse ts in
      (
        λ h.
            Zip-map _ IsTemplate (λ p q. (make_template-ok_iff p q).0) ts xs
              (loop.0 (sym same ∙ h)),
        λ h. same ∙ loop.1 (Zip-map IsTemplate _ (λ p q. (make_template-ok_iff p q).1) ts xs h),
      )

  new_transformer-parts :
      (t : Transformation) (x : InjaTransformer R V T)
      → new_transformer R V T t ≡ ok x
      → (new_extractors R V T t.extractors ≡ ok x.extractors)
        × (new_headers R V T t.headers ≡ ok x.headers)
  unfolding new_transformer
  new_transformer-parts t x h = ground arith

  -- A configuration makes a transformer exactly where each of its extractors has an expression that
  -- compiles and has the group, and each of its templates parses; the transformer has these, entry by
  -- entry, with the names of the headers in lower case.
  pub new_transformer-ok_iff :
      (t : Transformation) (x : InjaTransformer R V T)
      → (new_transformer R V T t ≡ ok x) ↔ IsMade t x
  new_transformer-ok_iff t x = (
    λ h.
        let (made, parsed) = new_transformer-parts t x h in
        (
          (new_extractors-ok_iff t.extractors x.extractors).0 made,
          (new_headers-ok_iff t.headers x.headers).0 parsed,
        ),
    λ (made, parsed).
        let made_all = (new_extractors-ok_iff t.extractors x.extractors).1 made in
        let parsed_all = (new_headers-ok_iff t.headers x.headers).1 parsed in
        unfold new_transformer in ground arith,
  )
