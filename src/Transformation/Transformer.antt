-- ===== src/Transformation/Transformer.antt =====
-- extensions/transformation/transformation.{h,cc}: `Extractor`, `TransformerInstance` and
-- `InjaTransformer`, with the messages of filter.proto that they read. A map field of a message is
-- the list of its entries in the order of iteration.
pub mod Extract
pub mod Render
pub mod Rewrite
pub mod Make
pub mod Throwing
pub mod Spec
pub mod Tests
use envoy_wasm_filters.Base.{
  ℕ, ◌+◌, ◌-◌, ◌≡◌, Bool, true, false, ◌&&◌, Option, none, some, List, [], ◌∷◌, map, ltb, leb,
  if◌then◌else◌, length, is_empty, Bytes, text, bytes_eq, get_or,
}
use envoy_wasm_filters.Transformation.Headers.{Headers, get_header}
use envoy_wasm_filters.Transformation.Engine.{
  Result, ok, thrown, ◌>>=◌, Regexes, Values, Callback, Templates, HeaderMap,
}

-- `message Extraction`; a header that is not set is the empty string.
pub record Extraction : Type 0 where
  pub header : Bytes
  pub regex : Bytes
  pub subgroup : ℕ

-- `message Transformation`; a template is its text.
pub record Transformation : Type 0 where
  pub extractors : List (Bytes × Extraction)
  pub headers : List (Bytes × Bytes)

pub record Extractor (R : Regexes) : Type 0 where
  pub headername : Bytes
  pub group : ℕ
  pub extract_regex : R.Regex

-- The sub-match of a group; where there is no match or no such group, the empty string.
unfoldable pub sub_match : ℕ → Option (List Bytes) → Bytes
sub_match group none = []
sub_match group (some regex_result) =
    if leb (length regex_result) group then [] else get_or regex_result group []

-- What is extracted from the value of a header, and the empty string where it is missing.
unfoldable pub extract_with : (Bytes → Result Bytes) → Option Bytes → Result Bytes
extract_with f none = ok []
extract_with f (some value) = f value

module _ (R : Regexes) where
  unfoldable pub new_extractor : Extraction → Result (Extractor R)
  new_extractor e = do
    r ← R.compile e.regex
    (if ltb (R.mark_count r) e.subgroup
        then thrown (text "group requested for regex outside range")
        else ok (record { headername = e.header; group = e.subgroup; extract_regex = r }))

  unfoldable pub extract_value : Extractor R → Bytes → Result Bytes
  unfolding sub_match
  extract_value e value = do
    regex_result ← R.regex_match value e.extract_regex
    ok (sub_match e.group regex_result)

  unfoldable pub extract : Extractor R → Headers → Result Bytes
  unfolding extract_value extract_with
  extract e headers = extract_with (extract_value e) (get_header headers e.headername)

-- `extractions[name] = …` in an unordered map, and `find`.
unfoldable pub set_extraction : Bytes → Bytes → List (Bytes × Bytes) → List (Bytes × Bytes)
set_extraction name value [] = (name, value) ∷ []
set_extraction name value ((k, v) ∷ extractions) =
    if bytes_eq k name
    then (k, value) ∷ extractions
    else (k, v) ∷ set_extraction name value extractions

unfoldable pub find_extraction : Bytes → List (Bytes × Bytes) → Option Bytes
find_extraction name [] = none
find_extraction name ((k, v) ∷ extractions) =
    if bytes_eq k name then some v else find_extraction name extractions

-- `args.at(0)`.
abbrev pub first_argument {ℓ} : {A : Type ℓ} → List A → Result A
first_argument [] = thrown (text "vector::at")
first_argument (a ∷ args) = ok a

module _ (V : Values) where
  abbrev pub string_or_empty : Option Bytes → V.Json
  string_or_empty none = V.of_string []
  string_or_empty (some s) = V.of_string s

  unfoldable pub header_callback : Headers → List V.Json → Result V.Json
  header_callback headers args = do
    headername ← (do a ← first_argument args; V.get_string a)
    ok (string_or_empty (get_header headers headername))

  unfoldable pub extracted_callback : List (Bytes × Bytes) → List V.Json → Result V.Json
  extracted_callback extractions args = do
    name ← (do a ← first_argument args; V.get_string a)
    ok (string_or_empty (find_extraction name extractions))

  -- The callbacks that the instance adds to its environment.
  unfoldable pub callbacks : Headers → List (Bytes × Bytes) → V.Json → List (Callback V)
  callbacks headers extractions context =
      record { name = text "header"; arity = 1; call = header_callback headers }
      ∷ record { name = text "extraction"; arity = 1; call = extracted_callback extractions }
      ∷ record { name = text "context"; arity = 0; call = λ args. ok context }
      ∷ []

  unfoldable pub render :
      (T : Templates V) → Headers → List (Bytes × Bytes) → V.Json → T.Template → Result Bytes
  unfolding callbacks
  render T headers extractions context input =
      T.render (callbacks headers extractions context) input
        (if V.is_object context then context else V.null_value)

-- `tolower` of an ASCII byte.
unfoldable pub to_lower : ℕ → ℕ
to_lower c = if leb b'A' c && leb c b'Z' then c + 32 else c

-- A state, or a state that an exception left behind.
pub data Outcome {ℓ} (W : Type ℓ) : Type ℓ where
  done : W → Outcome W
  failed : W → Bytes → Outcome W

module _ (R : Regexes) (V : Values) (T : Templates V) where
  pub record InjaTransformer : Type 0 where
    pub extractors : List (Bytes × Extractor R)
    pub headers : List (Bytes × T.Template)

  unfoldable pub new_extractors : List (Bytes × Extraction) → Result (List (Bytes × Extractor R))
  unfolding new_extractor
  new_extractors [] = ok []
  new_extractors ((name, e) ∷ entries) =
      let rest = new_extractors entries in do x ← new_extractor R e; xs ← rest; ok ((name, x) ∷ xs)

  unfoldable pub new_headers : List (Bytes × Bytes) → Result (List (Bytes × T.Template))
  unfolding to_lower
  new_headers [] = ok []
  new_headers ((name, template) ∷ entries) =
      let rest = new_headers entries in
      do t ← T.parse template; ts ← rest; ok ((map to_lower name, t) ∷ ts)

  unfoldable pub new_transformer : Transformation → Result InjaTransformer
  unfolding new_extractors new_headers
  new_transformer t = do
    xs ← new_extractors t.extractors
    hs ← new_headers t.headers
    ok (record { extractors = xs; headers = hs })

  unfoldable pub extractions_of :
      List (Bytes × Extractor R) → Headers → List (Bytes × Bytes) → Result (List (Bytes × Bytes))
  unfolding extract set_extraction
  extractions_of [] headers extractions = ok extractions
  extractions_of ((name, x) ∷ xs) headers extractions = do
    value ← extract R x headers
    extractions_of xs headers (set_extraction name value extractions)

-- The existing header is removed, and the output added if there is any.
unfoldable pub replace_header : (M : HeaderMap) → Bytes → Bytes → M.World → M.World
replace_header M name output w =
    if is_empty output then M.remove name w else M.add name output (M.remove name w)

-- The loop over the templates: what a call of `render` throws leaves the function.
unfoldable pub transform_headers {ℓ} :
    {Template : Type ℓ} (M : HeaderMap)
    → (Template → Result Bytes)
    → List (Bytes × Template)
    → M.World
    → Outcome M.World
unfolding replace_header
transform_headers M rendered [] w = done w
transform_headers M rendered ((name, t) ∷ ts) w = elim (rendered t) [
  | thrown e ↦ failed w e
  | ok output ↦ transform_headers M rendered ts (replace_header M name output w)
]

-- What an extraction throws leaves the function, too. The body is the null value; the headers are those that were read before the first change.
unfoldable pub transform :
    (R : Regexes) (V : Values) (T : Templates V) (M : HeaderMap)
    → InjaTransformer R V T
    → Headers
    → M.World
    → Outcome M.World
unfolding transform_headers extractions_of render
transform R V T M self headers w = elim (extractions_of R V T self.extractors headers []) [
  | thrown e ↦ failed w e
  | ok extractions ↦
      transform_headers M (render V T headers extractions V.null_value) self.headers w
]
