-- ===== src/AwsLambda/Authenticator/Sign.antt =====
-- `signWithTime` as a whole, from an authenticator in any state.
use mathlib.Core.List.{append_assoc}
use envoy_wasm_filters.Base.{
  Option, refl, ap, ◌>>=◌, arith, ℕ, ◌≡◌, join, inl, inr, none, some, Bytes, text, length,
  Option-cases,
}
use envoy_wasm_filters.AwsLambda.Gmtime.{Tm}
use envoy_wasm_filters.AwsLambda.Hex.{hexadecimal, hex_encode_lem}
use envoy_wasm_filters.AwsLambda.Platform.{Hashing, IsStreaming, Host, IsHeaderMap, Target}
use envoy_wasm_filters.AwsLambda.Authenticator.{
  date_header, HeaderList, format_date_time, authorization_value,
}
use envoy_wasm_filters.AwsLambda.Authenticator.Signing.{
  AwsAuthenticator, broken_down, sign_with_time,
}
use envoy_wasm_filters.AwsLambda.Authenticator.Headers.{prepare_headers_lem}
use envoy_wasm_filters.AwsLambda.Authenticator.Correct.{
  get_credntial_scope_lem, compute_canonical_request_hash_lem, compute_signature_lem,
}
use envoy_wasm_filters.AwsLambda.Authenticator.Spec.{
  read_url, before_mark, after_mark, authorization,
}
use envoy_wasm_filters.AwsLambda.Authenticator.Url.{split_url_lem}

bind_none {ℓ κ} :
    {A : Type ℓ} {B : Type κ} (o : Option A) → ◌≡◌ {A = Option B} (o >>= λ a. none) none
bind_none none = refl
bind_none (some a) = refl

module _ (W : Host) (P : Target) where
  -- The path and the query that are signed: what stands before and behind the first question mark
  -- of the request's path, as it is read back from the freed buffer.
  abbrev pub signed_url : W.World → Option (Bytes × Bytes)
  signed_url w =
      let path = W.get_request_header (text ":path") w in
      read_url P (before_mark path) (after_mark path)

module _ (H : Hashing) (W : Host) (P : Target) where
  -- What a signature leaves in the members of the class.
  abbrev pub signed_by : ℕ → W.World → AwsAuthenticator H → AwsAuthenticator H
  signed_by address w a = record a {
    body_sha = (H.sha256_final a.body_sha).0;
    url_base = before_mark (W.get_request_header (text ":path") w);
    query_string = after_mark (W.get_request_header (text ":path") w);
    request_headers = address;
  }

  -- With a hash that takes its input in pieces, a key, a time that `gmtime` accepts and a path that
  -- can be read back, signing returns the authorization header that the specification gives for the
  -- request with its date header, which it adds, and leaves the stated members.
  pub sign_with_time_lem :
      (address : ℕ) (names : HeaderList) (region : Bytes) (now : ℕ) (a : AwsAuthenticator H)
      → (w : W.World) (tm : Tm) (access_key : Bytes) (url : Bytes × Bytes) → IsStreaming H
      → broken_down H W P now ≡ some tm
      → a.access_key ≡ some access_key
      → signed_url W P (W.add_request_header date_header (format_date_time tm) w) ≡ some url
      → sign_with_time H W P address names region now a w
        ≡ some (
          authorization H W access_key a.first_key a.service a.method region names tm
              (hexadecimal (H.sha256_final a.body_sha).1)
              url
              (W.add_request_header date_header (format_date_time tm) w),
          signed_by address (W.add_request_header date_header (format_date_time tm) w) a,
          W.add_request_header date_header (format_date_time tm) w,
        )
  unfolding sign_with_time authorization_value join
  sign_with_time_lem address names region now a w tm access_key url laws time key kept = simp (
    time,
    key,
    split_url_lem,
    hex_encode_lem,
    prepare_headers_lem W,
    get_credntial_scope_lem,
    compute_canonical_request_hash_lem H laws W P,
    compute_signature_lem H laws,
    append_assoc,
    kept,
  )

  -- Without a key, signing reads a null pointer.
  pub sign_with_time-keyless :
      (address : ℕ) (names : HeaderList) (region : Bytes) (now : ℕ) (a : AwsAuthenticator H)
      → (w : W.World) → a.access_key ≡ none
      → sign_with_time H W P address names region now a w ≡ none
  unfolding sign_with_time
  sign_with_time-keyless address names region now a w keyless =
      elim (Option-cases (broken_down H W P now)) [
        | inl undated ↦ simp undated
        | inr (tm, dated) ↦ simp (dated, keyless, bind_none)
      ]

  -- The date header is not the path.
  pub signed_url-dated :
      (tm : Tm) (w : W.World)
      → IsHeaderMap W
      → signed_url W P (W.add_request_header date_header (format_date_time tm) w) ≡ signed_url W P w
  signed_url-dated tm w headers =
      ap (λ path. read_url P (before_mark path) (after_mark path))
        (headers.get-add_other date_header (text ":path") (format_date_time tm) w
          (λ e. absurd (omega (arith, ap length e))))
