-- ===== src/Transformation/Transformer/Rewrite.antt =====
-- The loop over the templates, header by header: what it makes of a value, without the header map.
use envoy_wasm_filters.Base.{
  ◌≡◌, refl, sym, ap, ◌∙◌, inl, inr, Option, List, [], ◌∷◌, Bytes, bytes_eq, bytes_eq_iff,
  if◌then◌else◌, Bool-cases,
}
use envoy_wasm_filters.Transformation.Engine.{Result, ok, thrown, HeaderMap, IsHeaderMap}
use envoy_wasm_filters.Transformation.Transformer.{replace_header, transform_headers}
use envoy_wasm_filters.Transformation.Transformer.Render.{
  value_of, final, Result-cases, transform_headers-thrown, transform_headers-ok, get-replace_header,
  get-replace_header_other,
}

-- The value of a header: each template of its name replaces it, up to the first that throws.
unfoldable pub rewritten {ℓ} :
    {Template : Type ℓ}
    → (Template → Result Bytes)
    → List (Bytes × Template)
    → Bytes
    → Option Bytes
    → Option Bytes
rewritten rendered [] k old = old
rewritten rendered ((name, t) ∷ ts) k old = elim (rendered t) [
  | thrown e ↦ old
  | ok output ↦ rewritten rendered ts k (if bytes_eq name k then value_of output else old)
]

module _ {ℓ} {Template : Type ℓ} (rendered : Template → Result Bytes) where
  rewritten-thrown :
      (name k e : Bytes) (t : Template) (ts : List (Bytes × Template)) (old : Option Bytes)
      → rendered t ≡ thrown e
      → rewritten rendered ((name, t) ∷ ts) k old ≡ old
  unfolding rewritten
  rewritten-thrown name k e t ts old h = rw (h, rewritten)

  rewritten-ok :
      (name k output : Bytes) (t : Template) (ts : List (Bytes × Template)) (old : Option Bytes)
      → rendered t ≡ ok output
      → rewritten rendered ((name, t) ∷ ts) k old
        ≡ rewritten rendered ts k (if bytes_eq name k then value_of output else old)
  unfolding rewritten
  rewritten-ok name k output t ts old h = rw (h, rewritten)

module _ (M : HeaderMap) (laws : IsHeaderMap M) where
  get-replace_header_either :
      (name k output : Bytes) (w : M.World)
      → M.get k (replace_header M name output w)
        ≡ (if bytes_eq name k then value_of output else M.get k w)
  get-replace_header_either name k output w = elim (Bool-cases (bytes_eq name k)) [
    | inl same ↦
        let e : name ≡ k = (bytes_eq_iff name k).0 same in
        rw same (rw (← e) (get-replace_header M laws name output w))
    | inr other ↦ rw other (
        get-replace_header_other M laws name k output w
          (λ e. cc ((bytes_eq_iff name k).1 e, other)))
  ]

module _ {ℓ} {Template : Type ℓ} (M : HeaderMap) (laws : IsHeaderMap M)
    (rendered : Template → Result Bytes) where
  -- Under the laws of header maps, the loop, whether or not it comes to its end, leaves each header
  -- as the templates of its name before the first that throws make it.
  pub transform_headers-rewritten :
      (ts : List (Bytes × Template)) (w : M.World) (k : Bytes)
      → M.get k (final (transform_headers M rendered ts w)) ≡ rewritten rendered ts k (M.get k w)
  transform_headers-rewritten [] w k = unfold transform_headers rewritten in refl
  transform_headers-rewritten ((name, t) ∷ ts) w k =
      let later = λ (v : M.World). transform_headers-rewritten ts v k in
      elim (Result-cases (rendered t)) [
        | inl (e, r) ↦
            rw (transform_headers-thrown M rendered name e t ts w r)
              (sym (rewritten-thrown rendered name k e t ts (M.get k w) r))
        | inr (output, r) ↦ rw (transform_headers-ok M rendered name output t ts w r) (
            later (replace_header M name output w)
            ∙ ap (rewritten rendered ts k) (get-replace_header_either M laws name k output w)
            ∙ sym (rewritten-ok rendered name k output t ts (M.get k w) r))
      ]
