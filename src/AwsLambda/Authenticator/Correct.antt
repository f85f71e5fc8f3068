-- ===== src/AwsLambda/Authenticator/Correct.antt =====
-- The hashing methods and the signature compute what the specification states.
use mathlib.Core.List.{append_assoc, append-nil}
use envoy_wasm_filters.Base.{
  ◌≡◌, ap, ◌∙◌, inl, inr, Bool-cases, Option-cases, some, ◌>>=◌, ◌==◌, List, [], ◌∷◌, ◌++◌, Bytes,
  join, concat, length,
}
use envoy_wasm_filters.AwsLambda.Hex.{hexadecimal, hex_encode_lem}
use envoy_wasm_filters.AwsLambda.Platform.{Hashing, IsStreaming, Host, Target}
use envoy_wasm_filters.AwsLambda.Authenticator.{digest_length, get_credntial_scope}
use envoy_wasm_filters.AwsLambda.Authenticator.Signing.{
  AwsAuthenticator, sha_update, sha_update_char, sha_finalize, compute_canonical_request_hash,
  compute_signature, recusive_hmac_helper, recusive_hmac_helper_all, hmac_update_all, hmac_update,
  hmac_init, hmac_finalize,
}
use envoy_wasm_filters.AwsLambda.Authenticator.Spec.{
  read_url, sha256, hmac_sha256, signing_key, canonical_request, string_to_sign, credential_scope,
}

-- The scope is the date, the region, the service and the terminator, with slashes between them.
pub get_credntial_scope_lem :
    (service region date : Bytes)
    → get_credntial_scope service region date ≡ credential_scope date region service
unfolding get_credntial_scope join
get_credntial_scope_lem service region date = simp append_assoc

module _ (H : Hashing) (laws : IsStreaming H) where
  -- For a hash that takes its input in pieces, feeding the pieces gives the hash of the canonical
  -- request, with or without a query, where the freed views can be read.
  pub compute_canonical_request_hash_lem :
      (W : Host) (P : Target) (method headers signed payload_hash : Bytes) (a : AwsAuthenticator H)
      → compute_canonical_request_hash H W P method headers signed payload_hash a ≡ (do
        url ← read_url P a.url_base a.query_string
        some (
            hexadecimal
              (sha256 H (canonical_request method url.0 url.1 headers signed payload_hash))))
  unfolding compute_canonical_request_hash sha_update sha_update_char sha_finalize join
  compute_canonical_request_hash_lem W P method headers signed payload_hash a =
      elim (Option-cases (P.read_freed a.url_base)) [
        | inl lost ↦ simp lost
        | inr (base, kept) ↦ elim (Bool-cases (length a.query_string == 0)) [
          | inl empty ↦
              simp (kept, empty) (simp (laws.sha256_update-append, append_assoc, hex_encode_lem))
          | inr query ↦ elim (Option-cases (P.read_freed a.query_string)) [
            | inl lost_query ↦ simp (kept, query, lost_query)
            | inr (read, kept_query) ↦
                simp (kept, query, kept_query)
                  (simp (laws.sha256_update-append, append_assoc, hex_encode_lem))
          ]
        ]
      ]

  -- A step of the chain forgets the context, and keys the hash by the last code.
  recusive_hmac_helper_lem :
      (s : H.Hmac × Bytes) (what : Bytes)
      → (recusive_hmac_helper H s digest_length what).1 ≡ hmac_sha256 H s.1 what
  unfolding recusive_hmac_helper
  recusive_hmac_helper_lem (c, key) what =
      ap (λ d. (H.hmac_sha256_final (H.hmac_sha256_update d what) digest_length).1)
        (laws.hmac_sha256_init_again c H.hmac_uninitialised key)

  hmac_update_all_lem :
      (c : H.Hmac) (s : Bytes) (strings : List Bytes)
      → hmac_update_all H c (s ∷ strings) ≡ H.hmac_sha256_update c (s ++ concat strings)
  unfolding hmac_update_all concat
  hmac_update_all_lem c s [] = rw append-nil
  hmac_update_all_lem c s (t ∷ strings) =
      hmac_update_all_lem (H.hmac_sha256_update c s) t strings
      ∙ laws.hmac_sha256_update-append c s (t ++ concat strings)

  recusive_hmac_helper_all_lem :
      (s : H.Hmac × Bytes) (first : Bytes) (more : List Bytes)
      → (recusive_hmac_helper_all H s digest_length (first ∷ more)).1
        ≡ hmac_sha256 H s.1 (first ++ concat more)
  unfolding recusive_hmac_helper_all
  recusive_hmac_helper_all_lem (c, key) first more =
      ap (λ d. (H.hmac_sha256_final d digest_length).1)
        (hmac_update_all_lem (H.hmac_sha256_init c key) first more)
      ∙ ap
          (λ d.
            (H.hmac_sha256_final (H.hmac_sha256_update d (first ++ concat more)) digest_length).1)
          (laws.hmac_sha256_init_again c H.hmac_uninitialised key)

  -- For a hash that takes its input in pieces, the chain of keyed hashes is the signing key of the
  -- specification, applied to the string to sign.
  pub compute_signature_lem :
      (first_key service region date scope date_time hashed_request : Bytes)
      → compute_signature H first_key service region date scope date_time hashed_request
        ≡ hexadecimal (
            hmac_sha256 H
              (signing_key H first_key date region service)
              (string_to_sign date_time scope hashed_request))
  unfolding compute_signature join concat hmac_init hmac_update hmac_finalize
  compute_signature_lem first_key service region date scope date_time hashed_request = simp (
    recusive_hmac_helper_all_lem, recusive_hmac_helper_lem, append_assoc, append-nil,
    hex_encode_lem,
  )
