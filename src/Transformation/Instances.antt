-- ===== src/Transformation/Instances.antt =====
-- Small stand-ins for the regular expressions, the values, the templates and the header map that have
-- the laws of `Engine`, and a configuration of one rule, to run the filter on.
use envoy_wasm_filters.Base.{
  ℕ, zero, suc, ◌+◌, ◌≡◌, refl, sym, ap, ◌∙◌, true, false, ◌&&◌, ◌==◌, Option, none, some, List, [],
  ◌∷◌, arith, if◌then◌else◌, length, Bytes, text, bytes_eq, bytes_eq_refl, bytes_eq_ne,
}
use envoy_wasm_filters.Transformation.Headers.{Headers}
use envoy_wasm_filters.Transformation.Matcher
use envoy_wasm_filters.Transformation.Matcher.{
  prefix_match, exact_match, present_match, HeaderMatch, MatcherImpl, present_matcher, matches,
  new_matcher, impl_matches, construct,
}
use envoy_wasm_filters.Transformation.Engine.{
  Result, ok, thrown, ◌>>=◌, IsJson, Callback, IsReading, IsLiteral, Regexes, IsEcmaScript, Values,
  Templates, HeaderMap, IsHeaderMap,
}
use envoy_wasm_filters.Transformation.Transformer.{InjaTransformer, new_transformer}
use envoy_wasm_filters.Transformation.Routes.{
  Config, RouteTransformers, TransformationConfig, new_optional, new_route, new_config,
  get_route_transformation,
}

-- Two specifiers for one name, of which the second counts.
abbrev pub specifiers : List HeaderMatch
specifiers =
    record { name = text "x"; specifier = exact_match (text "one") }
    ∷ record { name = text "x"; specifier = prefix_match (text "tw") }
    ∷ []

abbrev pub asked : Headers
asked = (text "x", text "two") ∷ []

second_counts : impl_matches (construct specifiers) asked ≡ true
unfolding impl_matches construct bytes_eq
second_counts = refl

-- An expression is its number of groups; each takes the whole value.
abbrev pub copies : ℕ → Bytes → List Bytes
copies zero value = []
copies (suc n) value = value ∷ copies n value

length-copies : (n : ℕ) (value : Bytes) → length (copies n value) ≡ n
length-copies zero value = refl
length-copies (suc n) value = omega (arith, length-copies n value)

some-injective :
    (a b : List Bytes) → ◌≡◌ {A = Result (Option (List Bytes))} (ok (some a)) (ok (some b)) → a ≡ b
some-injective a b e = cc

abbrev pub counted : Regexes
counted = record {
  Regex = ℕ;
  compile = λ b. ok (length b);
  mark_count = λ r. r;
  regex_match = λ value r. ok (some (copies (suc r) value));
}

pub counted-IsEcmaScript : IsEcmaScript counted
counted-IsEcmaScript = record {
  match_size = λ value r subs e.
      ap length (sym (some-injective (copies (suc r) value) subs e))
      ∙ length-copies (suc r) value
      ∙ add_one r;
}
  where
    add_one : (r : ℕ) → suc r ≡ r + 1
    add_one r = omega arith

-- Values are strings, and a template is what it renders to, but for one that throws.
abbrev pub strings : Values
strings = record {
  Json = Bytes;
  of_string = λ s. s;
  get_string = λ s. ok s;
  is_object = λ s. false;
  null_value = [];
}

abbrev pub rendered : Bytes → Result Bytes
rendered t = if bytes_eq t (text "bad") then thrown (text "error") else ok t

abbrev pub literal : Templates strings
literal = record { Template = Bytes; parse = λ t. ok t; render = λ callbacks t context. rendered t }

pub strings-IsJson : IsJson strings
strings-IsJson = record { get_string-of_string = λ s. refl }

-- A template that begins with a dollar reads the header of the name behind it, through the first
-- callback `header` of one argument; any other is its text.
abbrev pub read_header : List (Callback strings) → Bytes → Result Bytes
read_header [] t = ok []
read_header (c ∷ callbacks) t =
    if bytes_eq c.name (text "header") && (c.arity == 1)
    then c.call (t ∷ []) >>= strings.get_string
    else read_header callbacks t

abbrev pub read_template : List (Callback strings) → Bytes → Result Bytes
read_template callbacks [] = ok []
read_template callbacks (c ∷ t) = if c == b'$' then read_header callbacks t else ok (c ∷ t)

abbrev pub reader : Templates strings
reader = record {
  Template = Bytes;
  parse = λ t. ok t;
  render = λ callbacks t context. read_template callbacks t;
}

pub reader-IsReading : (name : Bytes) → IsReading strings reader (b'$' ∷ name) name
reader-IsReading name = record {
  render-header = λ c more context e one. rw (e, bytes_eq_refl (text "header"), one) refl;
}

pub reader-IsLiteral : IsLiteral strings reader (text "foo") (text "foo")
reader-IsLiteral callbacks context = refl

-- A header map is its lookup function.
abbrev pub lookup : HeaderMap
lookup = record {
  World = Bytes → Option Bytes;
  get = λ k w. w k;
  add = λ k v w j. if bytes_eq k j then some v else w j;
  remove = λ k w j. if bytes_eq k j then none else w j;
}

pub lookup-IsHeaderMap : IsHeaderMap lookup
lookup-IsHeaderMap = record {
  get-remove = λ k w. rw (bytes_eq_refl k);
  get-remove_other = λ k j w ne. rw (bytes_eq_ne k j ne);
  get-add_missing = λ k v w h. rw (bytes_eq_refl k);
  get-add_other = λ k j v w ne. rw (bytes_eq_ne k j ne);
}

abbrev pub templates : List (Bytes × Bytes)
templates = (text "a", text "1") ∷ (text "bb", []) ∷ []

abbrev pub no_headers : lookup.World
no_headers k = none

-- A configuration of one rule.
abbrev pub rules : Config
rules =
    record {
      match = specifiers;
      route_transformations = record {
        request_transformation = some (record { extractors = []; headers = templates });
        response_transformation = none;
      };
    }
    ∷ []

abbrev pub transformer : InjaTransformer counted strings literal
transformer = record { extractors = []; headers = templates }

abbrev pub route : RouteTransformers counted strings literal
route = record { request = some transformer; response = none }

abbrev pub config : TransformationConfig counted strings literal
config = (Matcher.construct specifiers, route) ∷ []

made_config : new_config counted strings literal rules ≡ ok config
unfolding new_config new_route new_optional new_transformer
made_config = refl

found_route : get_route_transformation counted strings literal config asked ≡ some route
unfolding get_route_transformation
found_route = rw second_counts refl
