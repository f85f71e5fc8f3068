-- ===== src/AwsLambda/Authenticator.antt =====
-- AwsAuthenticator of extensions/aws_lambda/aws_authenticator.{h,cc}. A pointer to a string is
-- `none` if it is null, and the string otherwise; the header map, which is never read, is its
-- address. A result `none` is undefined behaviour: a null pointer that is read, `put_time` of the
-- null pointer, or freed memory whose reading the program does not survive.
pub mod Signing
pub mod Headers
pub mod Url
pub mod Spec
pub mod Correct
pub mod Sign
pub mod Dates
pub mod HeaderSets
pub mod Keyed
mod Tests
use envoy_wasm_filters.Base.{
  ℕ, ◌+◌, ◌-◌, ◌≡◌, Bool, true, false, Option, none, some, List, [], ◌∷◌, ◌++◌, ltb, ◌==◌,
  if◌then◌else◌, length, take, drop, Bytes, text, bytes_lt, padded, decimal, ℤ, pos, to_signed,
}
use envoy_wasm_filters.AwsLambda.Gmtime.{Tm, gmtime}
use envoy_wasm_filters.AwsLambda.Hex.{hex_encode}
use envoy_wasm_filters.AwsLambda.Platform.{Hashing, Host, Target}

abbrev pub algorithm : Bytes
algorithm = text "AWS4-HMAC-SHA256"

abbrev pub service_name : Bytes
service_name = text "lambda"

abbrev pub newline : Bytes
newline = 10 ∷ []

abbrev pub date_header : Bytes
date_header = text "x-amz-date"

abbrev pub post : Bytes
post = text "POST"

abbrev pub aws4_request : Bytes
aws4_request = text "aws4_request"

-- `SHA256_DIGEST_SIZE`, the LENGTH of both classes.
abbrev pub digest_length : ℕ
digest_length = 32

-- `std::set` with `lowercasecompare`, which is `operator<`: an ordered list with no repetition.
abbrev pub HeaderList : Type 0
HeaderList = List Bytes

unfoldable pub lowercasecompare : Bytes → Bytes → Bool
lowercasecompare i j = bytes_lt i j

unfoldable pub set_insert : Bytes → HeaderList → HeaderList
set_insert x [] = x ∷ []
set_insert x (y ∷ ys) =
    if lowercasecompare x y
    then x ∷ y ∷ ys
    else if lowercasecompare y x
    then y ∷ set_insert x ys
    else y ∷ ys

unfoldable pub set_insert_all : List Bytes → HeaderList → HeaderList
set_insert_all [] set = set
set_insert_all (x ∷ xs) set = set_insert_all xs (set_insert x set)

unfoldable pub create_header_to_sign : List Bytes → HeaderList
unfolding set_insert set_insert_all lowercasecompare
create_header_to_sign headers = set_insert date_header (set_insert_all headers [])

-- `std::put_time` with "%Y%m%d", and with "%Y%m%dT%H%M%SZ".
unfoldable pub format_date : Tm → Bytes
format_date tm = padded 4 (1900 + tm.tm_year) ++ padded 2 (tm.tm_mon + 1) ++ padded 2 tm.tm_mday

unfoldable pub format_date_time : Tm → Bytes
unfolding format_date
format_date_time tm =
    format_date tm
    ++ text "T"
    ++ padded 2 tm.tm_hour
    ++ padded 2 tm.tm_min
    ++ padded 2 tm.tm_sec
    ++ text "Z"

-- The suffix of the path from the first question mark on.
unfoldable pub find_query_string_start : Bytes → Bytes
find_query_string_start [] = []
find_query_string_start (c ∷ path) = if c == b'?' then c ∷ path else find_query_string_start path

-- The pieces of `url_base_` and `query_string_`.
unfoldable pub split_url : Bytes → Bytes × Bytes
unfolding find_query_string_start
split_url path =
    let query = find_query_string_start path in
    if length query == 0
    then (path, query)
    else (take (length path - length query) path, drop 1 query)

unfoldable pub get_credntial_scope : Bytes → Bytes → Bytes → Bytes
get_credntial_scope service region credentials_scope_date =
    credentials_scope_date ++ text "/" ++ region ++ text "/" ++ service ++ text "/aws4_request"

-- The value that `signWithTime` writes at its end.
unfoldable pub authorization_value : Bytes → Bytes → Bytes → Bytes → Bytes
authorization_value access_key credential_scope signed_headers signature =
    algorithm
    ++ text " Credential="
    ++ access_key
    ++ text "/"
    ++ credential_scope
    ++ text ", SignedHeaders="
    ++ signed_headers
    ++ text ", Signature="
    ++ signature
