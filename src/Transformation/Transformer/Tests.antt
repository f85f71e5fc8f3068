-- ===== src/Transformation/Transformer/Tests.antt =====
-- Runs of transformers, and the theorems on them at concrete inputs.
use envoy_wasm_filters.Base.{
  ◌≡◌, ◌≢◌, refl, ap, ◌↔◌, some, List, [], ◌∷◌, arith, length, get_elem?, Bytes, text, bytes_eq,
}
use envoy_wasm_filters.Transformation.Engine.{ok, thrown}
use envoy_wasm_filters.Transformation.Transformer.{
  Extraction, Extractor, new_extractor, extract_value, new_transformer, done, failed,
  replace_header, transform_headers,
}
use envoy_wasm_filters.Transformation.Transformer.Extract.{extract_value-group}
use envoy_wasm_filters.Transformation.Transformer.Render.{final}
use envoy_wasm_filters.Transformation.Transformer.Rewrite.{rewritten, transform_headers-rewritten}
use envoy_wasm_filters.Transformation.Transformer.{Transformation}
use envoy_wasm_filters.Transformation.Transformer.Make.{IsMade, new_transformer-ok_iff}
use envoy_wasm_filters.Transformation.Transformer.Throwing.{
  outside_range, IsUnmade, new_transformer-thrown_iff,
}
use envoy_wasm_filters.Transformation.Instances.{
  copies, counted, counted-IsEcmaScript, strings, rendered, literal, lookup, lookup-IsHeaderMap,
  templates, no_headers,
}

abbrev extraction : Extraction
extraction = record { header = text "x"; regex = text "(.)"; subgroup = 1 }

abbrev extractor : Extractor counted
extractor = record { headername = text "x"; group = 1; extract_regex = 3 }

made_extractor : new_extractor counted extraction ≡ ok extractor
unfolding new_extractor
made_extractor = refl

extract_value-group_example :
    (s : Bytes) × (extract_value counted extractor (text "two") ≡ ok s)
    × (get_elem? (copies 4 (text "two")) 1 ≡ some s)
extract_value-group_example =
    extract_value-group counted extraction extractor (text "two") (copies 4 (text "two"))
      counted-IsEcmaScript made_extractor refl

abbrev failing_templates : List (Bytes × Bytes)
failing_templates = (text "a", text "1") ∷ (text "bb", text "bad") ∷ []

abbrev changed : lookup.World
changed =
    replace_header lookup (text "bb") [] (replace_header lookup (text "a") (text "1") no_headers)

changed_run : transform_headers lookup rendered templates no_headers ≡ done changed
unfolding transform_headers bytes_eq
changed_run = refl

failed_run :
    transform_headers lookup rendered failing_templates no_headers
    ≡ failed (replace_header lookup (text "a") (text "1") no_headers) (text "error")
unfolding transform_headers bytes_eq
failed_run = refl

distinct_names : text "bb" ≢ text "a"
distinct_names e = absurd (omega (arith, ap length e))

transform_headers-rewritten_example :
    lookup.get (text "a") (final (transform_headers lookup rendered failing_templates no_headers))
    ≡ rewritten rendered failing_templates (text "a") (lookup.get (text "a") no_headers)
transform_headers-rewritten_example =
    transform_headers-rewritten lookup lookup-IsHeaderMap rendered failing_templates no_headers
      (text "a")

abbrev lower_case : Transformation
lower_case = record {
  extractors = (text "n", extraction) ∷ [];
  headers = (text "A", text "1") ∷ [];
}

-- An expression with 3 groups has no group 4.
abbrev pub out_of_range : Transformation
out_of_range = record {
  extractors = (text "n", extraction) ∷ (text "m", record extraction { subgroup = 4 }) ∷ [];
  headers = [];
}

out_of_range_run : new_transformer counted strings literal out_of_range ≡ thrown outside_range
unfolding new_transformer
out_of_range_run = refl

new_transformer-ok_iff_example :
    (new_transformer counted strings literal lower_case
      ≡ ok
          (record { extractors = (text "n", extractor) ∷ []; headers = (text "a", text "1") ∷ [] }))
    ↔ IsMade counted strings literal lower_case
        (record { extractors = (text "n", extractor) ∷ []; headers = (text "a", text "1") ∷ [] })
new_transformer-ok_iff_example =
    new_transformer-ok_iff counted strings literal lower_case
      (record { extractors = (text "n", extractor) ∷ []; headers = (text "a", text "1") ∷ [] })

new_transformer-thrown_iff_example :
    (new_transformer counted strings literal out_of_range ≡ thrown outside_range)
    ↔ IsUnmade counted strings literal out_of_range outside_range
new_transformer-thrown_iff_example =
    new_transformer-thrown_iff counted strings literal out_of_range outside_range
