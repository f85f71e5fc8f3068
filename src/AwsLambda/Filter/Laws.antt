-- ===== src/AwsLambda/Filter/Laws.antt =====
-- Which calls sign a request, and what they do to a context without a key.
use envoy_wasm_filters.Base.{
  ℕ, ◌≡◌, refl, Bool, true, false, ◌||◌, none, some, List, [], ◌∷◌, arith, if◌then◌else◌, Bytes,
  text, bytes_eq,
}
use envoy_wasm_filters.AwsLambda.Platform.{Hashing, Host, Target}
use envoy_wasm_filters.AwsLambda.Authenticator.{HeaderList}
use envoy_wasm_filters.AwsLambda.Authenticator.Signing.{AwsAuthenticator, sign, update_payload_hash}
use envoy_wasm_filters.AwsLambda.Authenticator.Sign.{sign_with_time-keyless}
use envoy_wasm_filters.AwsLambda.Filter.{
  Context, Event, request_headers, request_body, request_trailers, headers_to_sign, lambdafy,
  handle, handle_all,
}

module _ (H : Hashing) (W : Host) (P : Target) where
  -- The calls that come to `lambdafy`: the headers of a GET request, the last of the body, and the
  -- trailers.
  unfoldable pub signs : Event → W.World → Bool
  signs request_headers w = bytes_eq (W.get_request_header (text ":method") w) (text "GET")
  signs (request_body n end_stream) w = end_stream
  signs request_trailers w = true

  unfoldable pub any_signs : List Event → W.World → Bool
  unfolding signs
  any_signs [] w = false
  any_signs (e ∷ es) w = signs e w || any_signs es w

  sign-keyless :
      (address : ℕ) (names : HeaderList) (region : Bytes) (a : AwsAuthenticator H) (w : W.World)
      → a.access_key ≡ none
      → sign H W P address names region a w ≡ none
  unfolding sign
  sign-keyless address names region a w e =
      let now = P.to_u64 (P.div (P.of_u64 (W.current_time_nanoseconds w)) (P.literal 10 9)) in
      rw (sign_with_time-keyless H W P address names region now a w e) refl

  lambdafy-keyless :
      (c : Context H) (w : W.World)
      → c.aws_authenticator.access_key ≡ none
      → lambdafy H W P c w ≡ none
  unfolding lambdafy
  lambdafy-keyless c w e = rw (sign-keyless _ headers_to_sign _ c.aws_authenticator _ e) refl

  handle-keyless :
      (e : Event) (es : List Event) (c : Context H) (w : W.World)
      → c.aws_authenticator.access_key ≡ none
      → handle_all H W P (e ∷ es) c w ≡ (if signs e w then none else handle_all H W P es c w)
  unfolding handle_all handle signs update_payload_hash
  handle-keyless request_headers es c w e = ground (arith, lambdafy-keyless c w e)
  handle-keyless (request_body n false) es c w e = refl
  handle-keyless (request_body n true) es c w e =
      let fed = update_payload_hash H (W.get_request_body 0 n w) c.aws_authenticator in
      rw (lambdafy-keyless (record c { aws_authenticator = fed }) w e) refl
  handle-keyless request_trailers es c w e = ground (arith, lambdafy-keyless c w e)

  -- No call of the filter sets a key. From a context with no key, every sequence of calls is
  -- undefined if one of them signs; otherwise it changes neither the context nor the request.
  pub handle_all-keyless :
      (es : List Event) (c : Context H) (w : W.World)
      → c.aws_authenticator.access_key ≡ none
      → handle_all H W P es c w ≡ (if any_signs es w then none else some (c, w))
  unfolding any_signs
  handle_all-keyless [] c w e = unfold handle_all in refl
  handle_all-keyless (ev ∷ es) c w e =
      ground (arith, handle-keyless ev es c w e, handle_all-keyless es c w e)
