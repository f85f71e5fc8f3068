-- ===== src/AwsLambda/Authenticator/Spec.antt =====
-- What a signature is, stated on whole strings and without the methods: the path and the query, the
-- canonical request, the string to sign, the signing key and the authorization header. The path and
-- the query are taken as they are, neither encoded nor sorted.
use envoy_wasm_filters.Base.{
  Option, some, length, ◌>>=◌, [], ◌∷◌, ◌++◌, ◌==◌, if◌then◌else◌, map, Bytes, text, join, concat,
}
use envoy_wasm_filters.AwsLambda.Gmtime.{Tm}
use envoy_wasm_filters.AwsLambda.Hex.{hexadecimal}
use envoy_wasm_filters.AwsLambda.Platform.{Hashing, Host, Target}
use envoy_wasm_filters.AwsLambda.Authenticator.{
  newline, digest_length, HeaderList, format_date, format_date_time,
}
use envoy_wasm_filters.AwsLambda.Authenticator.Headers.{header_line}

module _ (H : Hashing) where
  abbrev pub sha256 : Bytes → Bytes
  sha256 message = (H.sha256_final (H.sha256_update H.sha256_init message)).1

  abbrev pub hmac_sha256 : Bytes → Bytes → Bytes
  hmac_sha256 key message =
      (H.hmac_sha256_final
        (H.hmac_sha256_update (H.hmac_sha256_init H.hmac_uninitialised key) message)
        digest_length).1

  abbrev pub signing_key : Bytes → Bytes → Bytes → Bytes → Bytes
  signing_key first_key date region service =
      hmac_sha256 (hmac_sha256 (hmac_sha256 (hmac_sha256 first_key date) region) service)
        (text "aws4_request")

-- Six parts, each but the last ended by a newline; the headers end in one of their own.
abbrev pub canonical_request : Bytes → Bytes → Bytes → Bytes → Bytes → Bytes → Bytes
canonical_request method path query headers signed payload_hash =
    join newline (method ∷ path ∷ query ∷ headers ∷ signed ∷ payload_hash ∷ [])

abbrev pub string_to_sign : Bytes → Bytes → Bytes → Bytes
string_to_sign date_time scope hashed_request =
    join newline (text "AWS4-HMAC-SHA256" ∷ date_time ∷ scope ∷ hashed_request ∷ [])

abbrev pub credential_scope : Bytes → Bytes → Bytes → Bytes
credential_scope date region service =
    join (text "/") (date ∷ region ∷ service ∷ text "aws4_request" ∷ [])

-- What stands before the first question mark, and what stands behind it.
abbrev pub before_mark : Bytes → Bytes
before_mark [] = []
before_mark (c ∷ path) = if c == b'?' then [] else c ∷ before_mark path

abbrev pub after_mark : Bytes → Bytes
after_mark [] = []
after_mark (c ∷ path) = if c == b'?' then path else after_mark path

-- The path and the query as they are read back from the freed buffer; an empty query is not read.
abbrev pub read_url : Target → Bytes → Bytes → Option (Bytes × Bytes)
read_url P base query = do
  b ← P.read_freed base
  q ← (if length query == 0 then some [] else P.read_freed query)
  some (b, q)

-- The authorization header of a request in state `w`, which already holds its date header, for a
-- moment, a key pair, the payload's hash, and the path and query that are signed.
abbrev pub authorization :
    (H : Hashing) (W : Host)
    → (access_key first_key service method region : Bytes)
    → (names : HeaderList) (tm : Tm) (payload_hash : Bytes) (url : Bytes × Bytes) → W.World
    → Bytes
authorization H W access_key first_key service method region names tm payload_hash url w =
    let scope = credential_scope (format_date tm) region service in
    let signed = join (text ";") names in
    let hashed = hexadecimal (
      sha256 H (
        canonical_request method url.0 url.1 (concat (map (header_line W w) names)) signed
          payload_hash)) in
    let signature = hexadecimal (
      hmac_sha256 H (signing_key H first_key (format_date tm) region service)
        (string_to_sign (format_date_time tm) scope hashed)) in
    join (text ", ") (
      (text "AWS4-HMAC-SHA256 Credential=" ++ join (text "/") (access_key ∷ scope ∷ []))
      ∷ (text "SignedHeaders=" ++ signed)
      ∷ (text "Signature=" ++ signature)
      ∷ [])
