-- ===== src/Transformation/Transformer/Spec.antt =====
-- What the templates of a transformer render to, without the class's map and loops: a header stands
-- for its first value, and an extraction for what the last extractor of its name extracts.
use mathlib.Core.Path.{fun_ext}
use envoy_wasm_filters.Base.{
  ◌≡◌, refl, sym, ap, ◌∙◌, ◌≤◌, ℕ, zero, suc, ◌⊎◌, inl, inr, Option, none, some, List, [], ◌∷◌,
  arith, leb, if◌then◌else◌, length, get_or, get_elem?, Bytes, text, bytes_eq, bytes_eq_iff,
  Bool-cases,
}
use envoy_wasm_filters.Transformation.Headers.{Headers, get_header}
use envoy_wasm_filters.Transformation.Engine.{
  Result, ok, thrown, ◌>>=◌, Regexes, Values, Callback, Templates, HeaderMap, IsHeaderMap,
}
use envoy_wasm_filters.Transformation.Transformer.{
  Extractor, sub_match, extract_with, extract_value, extract, set_extraction, find_extraction,
  first_argument, string_or_empty, header_callback, extracted_callback, callbacks, render,
  InjaTransformer, extractions_of, transform,
}
use envoy_wasm_filters.Transformation.Transformer.Render.{final}
use envoy_wasm_filters.Transformation.Transformer.Rewrite.{rewritten, transform_headers-rewritten}

-- The values that a list of pairs has under a name, in order.
unfoldable pub named {ℓ} : {A : Type ℓ} → Bytes → List (Bytes × A) → List A
named name [] = []
named name ((k, a) ∷ pairs) =
    let rest = named name pairs in if bytes_eq k name then a ∷ rest else rest

abbrev pub first {ℓ} : {A : Type ℓ} → List A → Option A
first [] = none
first (a ∷ as_) = some a

abbrev pub last_or {ℓ} : {A : Type ℓ} → Option A → List A → Option A
last_or o [] = o
last_or o (a ∷ as_) = last_or (some a) as_

abbrev pub value_or_empty : Option Bytes → Bytes
value_or_empty none = []
value_or_empty (some value) = value

-- The string of a group in a match, and the empty string where there is no match or no such group.
abbrev pub group_value : Option (List Bytes) → ℕ → Bytes
group_value none group = []
group_value (some subs) group = value_or_empty (get_elem? subs group)

get_elem?-get_or : (xs : List Bytes) (i : ℕ) → value_or_empty (get_elem? xs i) ≡ get_or xs i []
get_elem?-get_or [] i = refl
get_elem?-get_or (x ∷ xs) zero = refl
get_elem?-get_or (x ∷ xs) (suc i) = get_elem?-get_or xs i

get_elem?-outside : (xs : List Bytes) (i : ℕ) → length xs ≤ i → get_elem? xs i ≡ none
get_elem?-outside [] i h = refl
get_elem?-outside (x ∷ xs) zero h = absurd (omega arith)
get_elem?-outside (x ∷ xs) (suc i) h = get_elem?-outside xs i (omega arith)

sub_match_lem : (group : ℕ) (m : Option (List Bytes)) → sub_match group m ≡ group_value m group
unfolding sub_match
sub_match_lem group none = refl
sub_match_lem group (some subs) = elim (Bool-cases (leb (length subs) group)) [
  | inl outside ↦ rw (outside, get_elem?-outside subs group (ground arith)) refl
  | inr inside ↦ rw inside (sym (get_elem?-get_or subs group))
]

pub get_header_lem :
    (headers : Headers) (key : Bytes) → get_header headers key ≡ first (named key headers)
unfolding get_header named
get_header_lem [] key = refl
get_header_lem ((k, v) ∷ headers) key = elim (Bool-cases (bytes_eq k key)) [
  | inl same ↦ rw same refl
  | inr other ↦ rw other (get_header_lem headers key)
]

find-set :
    (name k value : Bytes) (extractions : List (Bytes × Bytes))
    → find_extraction name (set_extraction k value extractions)
      ≡ (if bytes_eq k name then some value else find_extraction name extractions)
unfolding find_extraction set_extraction
find-set name k value [] = refl
find-set name k value ((j, v) ∷ extractions) = ground (
  arith,
  bytes_eq_iff j k,
  bytes_eq_iff k name,
  bytes_eq_iff j name,
  find-set name k value extractions,
)

Result-split {ℓ} :
    {A : Type ℓ} (r : Result A) → ((e : Bytes) × (r ≡ thrown e)) ⊎ ((a : A) × (r ≡ ok a))
Result-split (thrown e) = inl (e, refl)
Result-split (ok a) = inr (a, refl)

module _ (R : Regexes) where
  abbrev pub extracted_from : Extractor R → Option Bytes → Result Bytes
  extracted_from x none = ok []
  extracted_from x (some value) = do
    m ← R.regex_match value x.extract_regex
    ok (group_value m x.group)

  -- The group of the first value of the extractor's header, if that value matches as a whole.
  abbrev pub extracted : Extractor R → Headers → Result Bytes
  extracted x headers = extracted_from x (first (named x.headername headers))

  -- What the extractors extract, in order, or what the first exception throws.
  unfoldable pub extracted_all :
      List (Bytes × Extractor R) → Headers → Result (List (Bytes × Bytes))
  extracted_all [] headers = ok []
  extracted_all ((name, x) ∷ xs) headers =
      let rest = extracted_all xs headers in
      do value ← extracted x headers; values ← rest; ok ((name, value) ∷ values)

  extract_lem : (x : Extractor R) (headers : Headers) → extract R x headers ≡ extracted x headers
  unfolding extract extract_value
  extract_lem x headers =
      rw (get_header_lem headers x.headername) (each (first (named x.headername headers)))
    where
      each : (o : Option Bytes) → extract_with (extract_value R x) o ≡ extracted_from x o
      each none = refl
      each (some value) =
          ap
            (λ (f : Option (List Bytes) → Bytes).
              (R.regex_match value x.extract_regex >>= λ m. ok (f m)))
            (fun_ext (sub_match_lem x.group))

  -- A table holds the last value of each name; both throw the same exception, or neither throws.
  Agrees :
      List (Bytes × Bytes) → Result (List (Bytes × Bytes)) → Result (List (Bytes × Bytes)) → Type 0
  Agrees table (thrown e) (thrown d) = e ≡ d
  Agrees table (ok found) (ok values) =
      (name : Bytes)
      → find_extraction name found ≡ last_or (find_extraction name table) (named name values)
  Agrees table _ _ = ⊥

  abbrev prepended : Bytes → Bytes → Result (List (Bytes × Bytes)) → Result (List (Bytes × Bytes))
  prepended name value rest = rest >>= λ values. ok ((name, value) ∷ values)

  Agrees-prepended :
      (table : List (Bytes × Bytes)) (k value : Bytes) (found rest : Result (List (Bytes × Bytes)))
      → Agrees (set_extraction k value table) found rest
      → Agrees table found (prepended k value rest)
  unfolding Agrees named
  Agrees-prepended table k value (thrown e) (thrown d) h = h
  Agrees-prepended table k value (thrown e) (ok values) h = h
  Agrees-prepended table k value (ok found) (thrown d) h = h
  Agrees-prepended table k value (ok found) (ok values) h = λ name.
      elim (Bool-cases (bytes_eq k name)) [
        | inl same ↦ rw same (
            rw same at
              (h name ∙ ap (λ o. last_or o (named name values)) (find-set name k value table)))
        | inr other ↦ rw other (
            rw other at
              (h name ∙ ap (λ o. last_or o (named name values)) (find-set name k value table)))
      ]

module _ (R : Regexes) (V : Values) (T : Templates V) where
  extractions_of-Agrees :
      (xs : List (Bytes × Extractor R)) (headers : Headers) (table : List (Bytes × Bytes))
      → Agrees R table (extractions_of R V T xs headers table) (extracted_all R xs headers)
  unfolding extractions_of extracted_all
  extractions_of-Agrees [] headers table = unfold Agrees named in λ name. refl
  extractions_of-Agrees ((k, x) ∷ xs) headers table =
      let later =
        λ (value : Bytes). extractions_of-Agrees xs headers (set_extraction k value table) in
      elim (Result-split (extracted R x headers)) [
        | inl (e, r) ↦ rw (extract_lem R x headers, r) (unfold Agrees in refl)
        | inr (value, r) ↦
            rw (extract_lem R x headers, r)
              (Agrees-prepended R table k value _ (extracted_all R xs headers) (later value))
      ]

  abbrev pub reading : (Bytes → Option Bytes) → List V.Json → Result V.Json
  reading find args = do
    a ← first_argument args
    name ← V.get_string a
    ok (V.of_string (value_or_empty (find name)))

  abbrev functions_with : (header extraction : List V.Json → Result V.Json) → List (Callback V)
  functions_with header extraction =
      record { name = text "header"; arity = 1; call = header }
      ∷ record { name = text "extraction"; arity = 1; call = extraction }
      ∷ record { name = text "context"; arity = 0; call = λ args. ok V.null_value }
      ∷ []

  -- The functions of a template: `header` gives the first value of its argument, `extraction` the last
  -- value of an extraction, and `context` the null value.
  abbrev pub functions : Headers → List (Bytes × Bytes) → List (Callback V)
  functions headers values =
      functions_with (reading (λ n. first (named n headers)))
        (reading (λ n. last_or none (named n values)))

  -- What a template renders to for the headers of a message, or the exception that an extraction or
  -- the template throws.
  abbrev pub output_of : InjaTransformer R V T → Headers → T.Template → Result Bytes
  output_of x headers t = do
    values ← extracted_all R x.extractors headers
    T.render (functions headers values) t V.null_value

  string_or_empty_lem : (o : Option Bytes) → string_or_empty V o ≡ V.of_string (value_or_empty o)
  string_or_empty_lem none = refl
  string_or_empty_lem (some s) = refl

  header_callback_lem :
      (headers : Headers) → header_callback V headers ≡ reading (λ n. first (named n headers))
  unfolding header_callback
  header_callback_lem headers = fun_ext each
    where
      each :
          (args : List V.Json)
          → header_callback V headers args ≡ reading (λ n. first (named n headers)) args
      each [] = refl
      each (a ∷ args) = elim (Result-split (V.get_string a)) [
        | inl (e, r) ↦ rw r refl
        | inr (name, r) ↦
            rw (r, get_header_lem headers name)
              (ap ok (string_or_empty_lem (first (named name headers))))
      ]

  extracted_callback_lem :
      (table values : List (Bytes × Bytes))
      → ((name : Bytes) → find_extraction name table ≡ last_or none (named name values))
      → extracted_callback V table ≡ reading (λ n. last_or none (named n values))
  unfolding extracted_callback
  extracted_callback_lem table values same = fun_ext each
    where
      each :
          (args : List V.Json)
          → extracted_callback V table args ≡ reading (λ n. last_or none (named n values)) args
      each [] = refl
      each (a ∷ args) = elim (Result-split (V.get_string a)) [
        | inl (e, r) ↦ rw r refl
        | inr (name, r) ↦
            rw (r, same name) (ap ok (string_or_empty_lem (last_or none (named name values))))
      ]

  render_lem :
      (headers : Headers) (table values : List (Bytes × Bytes)) (t : T.Template)
      → ((name : Bytes) → find_extraction name table ≡ last_or none (named name values))
      → render V T headers table V.null_value t ≡ T.render (functions headers values) t V.null_value
  unfolding render callbacks
  render_lem headers table values t same =
      opened
      ∙ ap (λ h. T.render (functions_with h (extracted_callback V table)) t V.null_value)
          (header_callback_lem headers)
      ∙ ap
          (λ e. T.render (functions_with (reading (λ n. first (named n headers))) e) t V.null_value)
          (extracted_callback_lem table values same)
    where
      opened :
          render V T headers table V.null_value t
          ≡ T.render
              (functions_with (header_callback V headers) (extracted_callback V table))
              t
              V.null_value
      opened = elim (Bool-cases (V.is_object V.null_value)) [
        | inl e ↦ rw (e, render) refl
        | inr e ↦ rw (e, render) refl
      ]

module _ (R : Regexes) (V : Values) (T : Templates V) (M : HeaderMap) (laws : IsHeaderMap M) where
  rewritten-always_thrown :
      (rendered : T.Template → Result Bytes) (e : Bytes) (ts : List (Bytes × T.Template))
      (k : Bytes)
      → (old : Option Bytes) → ((t : T.Template) → rendered t ≡ thrown e)
      → rewritten rendered ts k old ≡ old
  unfolding rewritten
  rewritten-always_thrown rendered e [] k old h = refl
  rewritten-always_thrown rendered e ((name, t) ∷ ts) k old h = rw (h t, rewritten) refl

  -- Under the laws of header maps, a transformer leaves each header as the outputs of the templates
  -- of its name make it, up to the first exception of an extraction or a template.
  pub transform-rewritten :
      (x : InjaTransformer R V T) (headers : Headers) (w : M.World) (k : Bytes)
      → M.get k (final (transform R V T M x headers w))
        ≡ rewritten (output_of R V T x headers) x.headers k (M.get k w)
  unfolding transform
  transform-rewritten x headers w k =
      let agrees = extractions_of-Agrees R V T x.extractors headers [] in
      elim (Result-split (extractions_of R V T x.extractors headers [])) [
        | inl (e, r) ↦ elim (Result-split (extracted_all R x.extractors headers)) [
          | inl (d, q) ↦
              rw (r, transform)
                (sym (
                  rewritten-always_thrown (output_of R V T x headers) d x.headers k (M.get k w)
                    (λ t. rw q refl)))
          | inr (values, q) ↦ absurd (unfold Agrees in (rw (r, q) at agrees))
        ]
        | inr (table, r) ↦ elim (Result-split (extracted_all R x.extractors headers)) [
          | inl (d, q) ↦ absurd (unfold Agrees in (rw (r, q) at agrees))
          | inr (values, q) ↦
              let same : (name : Bytes)
                  → find_extraction name table ≡ last_or none (named name values) =
                unfold Agrees find_extraction in (rw (r, q) at agrees) in
              let outputs : render V T headers table V.null_value ≡ output_of R V T x headers =
                fun_ext (λ t. rw q (render_lem R V T headers table values t same)) in
              rw (r, transform)
                (transform_headers-rewritten M laws (render V T headers table V.null_value)
                    x.headers w k
                  ∙ ap (λ f. rewritten f x.headers k (M.get k w)) outputs)
        ]
      ]
