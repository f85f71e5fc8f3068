-- ===== src/AwsLambda/Filter/Path.antt =====
-- The path of a function's invocation, as `fetchUrl` reads it.
use mathlib.Core.List.{append_assoc}
use envoy_wasm_filters.Base.{
  ◌≡◌, ap, ◌∙◌, [], ◌∷◌, ◌++◌, arith, if◌then◌else◌, is_empty, Bytes, text, All-append,
}
use envoy_wasm_filters.AwsLambda.Authenticator.{split_url}
use envoy_wasm_filters.AwsLambda.Authenticator.Url.{HasNoMark, split_url_plain, split_url-append}
use envoy_wasm_filters.AwsLambda.Filter.{function_url_path}

abbrev invocation : Bytes → Bytes
invocation name = text "/2015-03-31/functions/" ++ name ++ text "/invocations"

invocation-HasNoMark : (name : Bytes) → HasNoMark name → HasNoMark (invocation name)
invocation-HasNoMark name h =
    All-append _ (text "/2015-03-31/functions/") (name ++ text "/invocations") (omega arith)
      (All-append _ name (text "/invocations") h (omega arith))

-- A path that is made for a name with no question mark is read back as the function's invocation,
-- with the qualifier as the whole query, and with no query where the qualifier is empty.
split_url-function_url_path :
    (name qualifier : Bytes)
    → HasNoMark name
    → split_url (function_url_path name qualifier)
      ≡ (invocation name, (if is_empty qualifier then [] else text "Qualifier=" ++ qualifier))
unfolding function_url_path
split_url-function_url_path name [] h =
    split_url_plain (invocation name) (invocation-HasNoMark name h)
split_url-function_url_path name (c ∷ qualifier) h =
    ap split_url (append_assoc (invocation name) (text "?Qualifier=") (c ∷ qualifier))
    ∙ split_url-append (invocation name) (text "Qualifier=" ++ c ∷ qualifier)
        (invocation-HasNoMark name h)
