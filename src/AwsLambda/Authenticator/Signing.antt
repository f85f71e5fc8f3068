-- ===== src/AwsLambda/Authenticator/Signing.antt =====
-- The methods of AwsAuthenticator that hash, that read the request and that sign.
use envoy_wasm_filters.Base.{
  ℕ, Option, none, some, List, [], ◌∷◌, ◌++◌, ◌==◌, if◌then◌else◌, length, Bytes, text, to_signed,
  ◌>>=◌,
}
use envoy_wasm_filters.AwsLambda.Gmtime.{Tm, gmtime}
use envoy_wasm_filters.AwsLambda.Hex.{hex_encode}
use envoy_wasm_filters.AwsLambda.Platform.{Hashing, Host, Target}
use envoy_wasm_filters.AwsLambda.Authenticator.{
  algorithm, service_name, newline, date_header, post, aws4_request, digest_length, HeaderList,
  format_date, format_date_time, split_url, get_credntial_scope, authorization_value,
}

-- The members of the class. `access_key` points at a string that the caller owns.
pub record AwsAuthenticator (H : Hashing) : Type 0 where
  pub body_sha : H.Sha
  pub access_key : Option Bytes
  pub first_key : Bytes
  pub service : Bytes
  pub method : Bytes
  pub query_string : Bytes
  pub url_base : Bytes
  pub request_headers : ℕ

-- `HMACSha256::length`.
abbrev hmac_length : ℕ
hmac_length = digest_length

-- `TimeSource::systemTime`.
abbrev system_time : (W : Host) → W.World → ℕ
system_time W w = W.current_time_nanoseconds w

-- The classes Sha256 and HMACSha256.
module _ (H : Hashing) where
  abbrev pub new_sha256 : H.Sha
  new_sha256 = H.sha256_init

  abbrev pub new_hmac_sha256 : H.Hmac
  new_hmac_sha256 = H.hmac_uninitialised

  unfoldable pub sha_update : H.Sha → Bytes → H.Sha
  sha_update c bytes = H.sha256_update c bytes

  unfoldable pub sha_update_char : H.Sha → ℕ → H.Sha
  sha_update_char c char = H.sha256_update c (char ∷ [])

  unfoldable pub sha_finalize : H.Sha → H.Sha × Bytes
  sha_finalize c = H.sha256_final c

  unfoldable pub hmac_init : H.Hmac → Bytes → H.Hmac
  hmac_init c key = H.hmac_sha256_init c key

  unfoldable pub hmac_update : H.Hmac → Bytes → H.Hmac
  hmac_update c bytes = H.hmac_sha256_update c bytes

  unfoldable pub hmac_update_all : H.Hmac → List Bytes → H.Hmac
  unfolding hmac_update
  hmac_update_all c [] = c
  hmac_update_all c (s ∷ strings) = hmac_update_all (hmac_update c s) strings

  unfoldable pub hmac_finalize : H.Hmac → ℕ → H.Hmac × Bytes
  hmac_finalize c out_len = H.hmac_sha256_final c out_len

  -- The code in `out`, of length `out_len`, becomes the next key; the next code replaces it.
  unfoldable pub recusive_hmac_helper : H.Hmac × Bytes → ℕ → Bytes → H.Hmac × Bytes
  unfolding hmac_init hmac_update hmac_finalize
  recusive_hmac_helper (hmac, out) out_len what =
      hmac_finalize (hmac_update (hmac_init hmac out) what) out_len

  unfoldable pub recusive_hmac_helper_all : H.Hmac × Bytes → ℕ → List Bytes → H.Hmac × Bytes
  unfolding hmac_init hmac_finalize
  recusive_hmac_helper_all (hmac, out) out_len what =
      hmac_finalize (hmac_update_all (hmac_init hmac out) what) out_len

  -- The constructor leaves the header map's address as it is in memory.
  unfoldable pub construct : ℕ → AwsAuthenticator H
  construct address = record {
    body_sha = new_sha256;
    access_key = none;
    first_key = [];
    service = service_name;
    method = post;
    query_string = [];
    url_base = [];
    request_headers = address;
  }

  unfoldable pub init :
      Option Bytes → Option Bytes → AwsAuthenticator H → Option (AwsAuthenticator H)
  init access_key none a = none
  init access_key (some secret_key) a =
      some (record a { access_key = access_key; first_key = text "AWS4" ++ secret_key })

  unfoldable pub update_payload_hash : Bytes → AwsAuthenticator H → AwsAuthenticator H
  unfolding sha_update
  update_payload_hash bytes a = record a { body_sha = sha_update a.body_sha bytes }

  -- The context is not initialised again.
  unfoldable pub get_body_hex_sha : AwsAuthenticator H → Bytes × AwsAuthenticator H
  unfolding sha_finalize
  get_body_hex_sha a =
      let (left, payload_out) = sha_finalize a.body_sha in
      (hex_encode payload_out, record a { body_sha = left })

  unfoldable pub compute_signature : Bytes → Bytes → Bytes → Bytes → Bytes → Bytes → Bytes → Bytes
  compute_signature first_key service region credentials_scope_date credential_scope
        request_date_time hashed_canonical_request =
      let sighmac = hmac_update (hmac_init new_hmac_sha256 first_key) credentials_scope_date in
      let out = hmac_finalize sighmac hmac_length in
      let out = recusive_hmac_helper out hmac_length region in
      let out = recusive_hmac_helper out hmac_length service in
      let out = recusive_hmac_helper out hmac_length aws4_request in
      let out = recusive_hmac_helper_all out hmac_length (
        algorithm ∷ newline ∷ request_date_time ∷ newline ∷ credential_scope ∷ newline
        ∷ hashed_canonical_request ∷ []) in
      hex_encode out.1

-- `prepareHeaders`: the loop over the set, with its two streams.
module _ (W : Host) where
  unfoldable pub prepare_from : Bytes → Bytes → HeaderList → W.World → Bytes × Bytes
  prepare_from canonical signed [] w = (canonical, signed)
  prepare_from canonical signed (name ∷ []) w =
      (canonical ++ name ++ text ":" ++ W.get_request_header name w ++ newline, signed ++ name)
  prepare_from canonical signed (name ∷ next ∷ more) w =
      prepare_from (canonical ++ name ++ text ":" ++ W.get_request_header name w ++ newline)
        (signed ++ name ++ text ";") (next ∷ more) w

  unfoldable pub prepare_headers : HeaderList → W.World → Bytes × Bytes
  unfolding prepare_from
  prepare_headers headers_to_sign w = prepare_from [] [] headers_to_sign w

module _ (H : Hashing) (W : Host) (P : Target) where
  unfoldable pub broken_down : ℕ → Option Tm
  broken_down now = gmtime (some (to_signed P.time_bits now))

  unfoldable pub add_date : ℕ → W.World → Option (Bytes × W.World)
  unfolding broken_down
  add_date now w = do
    tm ← broken_down now
    some (format_date_time tm, W.add_request_header date_header (format_date_time tm) w)

  unfoldable pub get_credntial_scope_date : ℕ → Option Bytes
  unfolding broken_down
  get_credntial_scope_date now = do tm ← broken_down now; some (format_date tm)

  -- Both views point into the buffer of `path`, which is freed on return.
  unfoldable pub fetch_url : W.World → AwsAuthenticator H → AwsAuthenticator H
  fetch_url w a =
      let (url_base, query_string) = split_url (W.get_request_header (text ":path") w) in
      record a { url_base = url_base; query_string = query_string }

  -- Both views are read through the freed buffer, the query only where it is not empty.
  unfoldable pub compute_canonical_request_hash :
      Bytes → Bytes → Bytes → Bytes → AwsAuthenticator H → Option Bytes
  unfolding sha_update sha_update_char sha_finalize
  compute_canonical_request_hash request_method canonical_headers signed_headers hexpayload a = do
    let c = sha_update H (new_sha256 H) request_method
    let c = sha_update_char H c 10
    url_base ← P.read_freed a.url_base
    let c = sha_update H c url_base
    let c = sha_update_char H c 10
    c ←
        (if length a.query_string == 0
          then some c
          else (do query_string ← P.read_freed a.query_string; some (sha_update H c query_string)))
    let c = sha_update_char H c 10
    let c = sha_update H c canonical_headers
    let c = sha_update_char H c 10
    let c = sha_update H c signed_headers
    let c = sha_update_char H c 10
    let c = sha_update H c hexpayload
    some (hex_encode (sha_finalize H c).1)

  unfoldable pub sign_with_time :
      ℕ
      → HeaderList
      → Bytes
      → ℕ
      → AwsAuthenticator H
      → W.World
      → Option (Bytes × AwsAuthenticator H × W.World)
  unfolding add_date get_credntial_scope_date get_body_hex_sha fetch_url
  sign_with_time request_headers headers_to_sign region now a w = do
    let a = record a { request_headers = request_headers }
    (request_date_time, w) ← add_date now w
    let (canonical_headers, signed_headers) = prepare_headers W headers_to_sign w
    let (hexpayload, a) = get_body_hex_sha H a
    let a = fetch_url w a
    hashed_canonical_request ←
        compute_canonical_request_hash a.method canonical_headers signed_headers hexpayload a
    credentials_scope_date ← get_credntial_scope_date now
    let credential_scope = get_credntial_scope a.service region credentials_scope_date
    let signature =
        compute_signature H a.first_key a.service region credentials_scope_date credential_scope
          request_date_time hashed_canonical_request
    access_key ← a.access_key
    some (authorization_value access_key credential_scope signed_headers signature, a, w)

  -- `systemTime()/10e9` is a double, which the call converts to an unsigned integer.
  unfoldable pub sign :
      ℕ → HeaderList → Bytes → AwsAuthenticator H → W.World → Option (AwsAuthenticator H × W.World)
  sign request_headers headers_to_sign region a w = do
    let now = P.to_u64 (P.div (P.of_u64 (system_time W w)) (P.literal 10 9))
    (sig, a, w) ← sign_with_time request_headers headers_to_sign region now a w
    some (a, W.add_request_header (text "authorization") sig w)
