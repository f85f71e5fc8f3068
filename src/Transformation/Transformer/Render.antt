-- ===== src/Transformation/Transformer/Render.antt =====
-- What the loop over the templates leaves in the header map.
use envoy_wasm_filters.Base.{
  ◌≡◌, ◌≢◌, refl, sym, ap, ◌∙◌, inl, inr, ◌⊎◌, Option, none, some, List, [], ◌∷◌, ◌++◌, Bytes, All,
}
use envoy_wasm_filters.Transformation.Engine.{Result, ok, thrown, HeaderMap, IsHeaderMap}
use envoy_wasm_filters.Transformation.Transformer.{
  Outcome, done, failed, replace_header, transform_headers,
}

-- The new value of a header: the output, and none if that is empty.
abbrev pub value_of : Bytes → Option Bytes
value_of [] = none
value_of (c ∷ output) = some (c ∷ output)

abbrev pub final {ℓ} : {W : Type ℓ} → Outcome W → W
final (done w) = w
final (failed w e) = w

pub Result-cases :
    (r : Result Bytes) → ((e : Bytes) × (r ≡ thrown e)) ⊎ ((output : Bytes) × (r ≡ ok output))
Result-cases (thrown e) = inl (e, refl)
Result-cases (ok output) = inr (output, refl)

module _ {ℓ} {Template : Type ℓ} where
  abbrev pub IsAbsent : Bytes → List (Bytes × Template) → Type 0
  IsAbsent k ts = All (λ p. p.0 ≢ k) ts

  abbrev pub HasDistinctNames : List (Bytes × Template) → Type 0
  HasDistinctNames [] = Unit
  HasDistinctNames ((name, t) ∷ ts) = IsAbsent name ts × HasDistinctNames ts

module _ {ℓ} {Template : Type ℓ} (M : HeaderMap) (rendered : Template → Result Bytes) where
  pub transform_headers-thrown :
      (name e : Bytes) (t : Template) (ts : List (Bytes × Template)) (w : M.World)
      → rendered t ≡ thrown e
      → transform_headers M rendered ((name, t) ∷ ts) w ≡ failed w e
  unfolding transform_headers
  transform_headers-thrown name e t ts w h = rw (h, transform_headers)

  pub transform_headers-ok :
      (name output : Bytes) (t : Template) (ts : List (Bytes × Template)) (w : M.World)
      → rendered t ≡ ok output
      → transform_headers M rendered ((name, t) ∷ ts) w
        ≡ transform_headers M rendered ts (replace_header M name output w)
  unfolding transform_headers
  transform_headers-ok name output t ts w h = rw (h, transform_headers)

module _ (M : HeaderMap) (laws : IsHeaderMap M) where
  pub get-replace_header :
      (name output : Bytes) (w : M.World)
      → M.get name (replace_header M name output w) ≡ value_of output
  unfolding replace_header
  get-replace_header name [] w = laws.get-remove name w
  get-replace_header name (c ∷ output) w =
      laws.get-add_missing name (c ∷ output) (M.remove name w) (laws.get-remove name w)

  pub get-replace_header_other :
      (name k output : Bytes) (w : M.World)
      → name ≢ k
      → M.get k (replace_header M name output w) ≡ M.get k w
  unfolding replace_header
  get-replace_header_other name k [] w h = laws.get-remove_other name k w h
  get-replace_header_other name k (c ∷ output) w h =
      laws.get-add_other name k (c ∷ output) (M.remove name w) h ∙ laws.get-remove_other name k w h

module _ {ℓ} {Template : Type ℓ} (M : HeaderMap) (laws : IsHeaderMap M)
    (rendered : Template → Result Bytes) where
  -- Under the laws of header maps, whether or not the loop comes to its end, a header that no
  -- template names is as it was.
  pub transform_headers-other :
      (ts : List (Bytes × Template)) (w : M.World) (k : Bytes)
      → IsAbsent k ts
      → M.get k (final (transform_headers M rendered ts w)) ≡ M.get k w
  transform_headers-other [] w k h = unfold transform_headers in refl
  transform_headers-other ((name, t) ∷ ts) w k (ne, h) =
      let later = λ (v : M.World). transform_headers-other ts v k h in
      elim (Result-cases (rendered t)) [
        | inl (e, r) ↦ rw (transform_headers-thrown M rendered name e t ts w r) refl
        | inr (output, r) ↦ rw (transform_headers-ok M rendered name output t ts w r) (
            later (replace_header M name output w)
            ∙ get-replace_header_other M laws name k output w ne)
      ]

  -- Under the laws of header maps, where the templates' names are distinct and the loop comes to its
  -- end, every template was rendered, and its header has the output, or is gone where the output is
  -- empty.
  transform_headers-done :
      (ts : List (Bytes × Template)) (w v : M.World)
      → HasDistinctNames ts
      → transform_headers M rendered ts w ≡ done v
      → All
          (λ p. (output : Bytes) × (rendered p.1 ≡ ok output) × (M.get p.0 v ≡ value_of output))
          ts
  transform_headers-done [] w v d e = tt
  transform_headers-done ((name, t) ∷ ts) w v (absent, d) e =
      let later = λ (u : M.World). transform_headers-done ts u v d in
      elim (Result-cases (rendered t)) [
        | inl (message, r) ↦ cc (e, transform_headers-thrown M rendered name message t ts w r)
        | inr (output, r) ↦
            let u = replace_header M name output w in
            let rest : transform_headers M rendered ts u ≡ done v =
              sym (transform_headers-ok M rendered name output t ts w r) ∙ e in
            let kept : M.get name v ≡ M.get name u =
              rw rest at (transform_headers-other ts u name absent) in
            ((output, r, kept ∙ get-replace_header M laws name output w), later u rest)
      ]

-- When rendering throws, the templates before the one that failed have taken effect, in the world
-- that is left, and no later one has.
pub record IsStopped {ℓ} {Template : Type ℓ} (M : HeaderMap) (rendered : Template → Result Bytes)
    (ts : List (Bytes × Template)) (w v : M.World) (e : Bytes) : Type ℓ where
  pub before : List (Bytes × Template)
  pub name : Bytes
  pub template : Template
  pub after : List (Bytes × Template)
  pub split : ts ≡ before ++ (name, template) ∷ after
  pub failing : rendered template ≡ thrown e
  pub effect : transform_headers M rendered before w ≡ done v

-- A loop that ends by an exception has stopped so.
transform_headers-failed {ℓ} :
    {Template : Type ℓ} (M : HeaderMap) (rendered : Template → Result Bytes)
    → (ts : List (Bytes × Template)) (w v : M.World) (e : Bytes)
    → transform_headers M rendered ts w ≡ failed v e
    → IsStopped M rendered ts w v e
transform_headers-failed M rendered [] w v e h =
    let ended : done w ≡ failed v e = unfold transform_headers in h in cc
transform_headers-failed M rendered ((name, t) ∷ ts) w v e h =
    let later = λ (u : M.World). transform_headers-failed M rendered ts u v e in
    elim (Result-cases (rendered t)) [
      | inl (message, r) ↦
          let stop : failed w message ≡ failed v e =
            sym (transform_headers-thrown M rendered name message t ts w r) ∙ h in
          let world : w ≡ v = cc in
          let same : message ≡ e = cc in
          record {
            before = [];
            name = name;
            template = t;
            after = ts;
            split = refl;
            failing = r ∙ ap thrown same;
            effect = unfold transform_headers in ap done world;
          }
      | inr (output, r) ↦
          let u = replace_header M name output w in
          let rest : transform_headers M rendered ts u ≡ failed v e =
            sym (transform_headers-ok M rendered name output t ts w r) ∙ h in
          let stopped = later u rest in
          record {
            before = (name, t) ∷ stopped.before;
            name = stopped.name;
            template = stopped.template;
            after = stopped.after;
            split = ap (λ l. (name, t) ∷ l) stopped.split;
            failing = stopped.failing;
            effect =
                transform_headers-ok M rendered name output t stopped.before w r ∙ stopped.effect;
          }
    ]
