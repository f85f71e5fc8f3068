-- ===== src/AwsLambda/Authenticator/Keyed.antt =====
-- A caller's use of the class: construct it, give it a key, feed it the payload in pieces, sign.
use envoy_wasm_filters.Base.{
  ℕ, ◌*◌, ◌^◌, ◌<◌, ◌≡◌, ◌≢◌, refl, sym, ap, ◌∙◌, inl, false, some, List, [], ◌∷◌, ◌++◌, arith,
  length, Bytes, text, concat,
}
use envoy_wasm_filters.AwsLambda.Gmtime.{Tm, month_loop}
use envoy_wasm_filters.AwsLambda.Gmtime.Calendar.{timegm}
use envoy_wasm_filters.AwsLambda.Gmtime.Correct.{moment, gmtime-moment}
use envoy_wasm_filters.AwsLambda.Hex.{hexadecimal}
use envoy_wasm_filters.AwsLambda.Platform.{Hashing, IsStreaming, Host, IsHeaderMap, Target, IsIeee}
use envoy_wasm_filters.AwsLambda.Authenticator.{date_header, HeaderList, format_date_time}
use envoy_wasm_filters.AwsLambda.Authenticator.Signing.{
  AwsAuthenticator, construct, init, update_payload_hash, broken_down, add_date, sign_with_time,
  sign,
}
use envoy_wasm_filters.AwsLambda.Authenticator.Spec.{authorization, sha256}
use envoy_wasm_filters.AwsLambda.Authenticator.Sign.{
  sign_with_time_lem, signed_by, signed_url, signed_url-dated,
}
use envoy_wasm_filters.AwsLambda.Authenticator.Dates.{
  read_date_time, broken_down-gmtime, add_date-timegm,
}

module _ (H : Hashing) where
  -- The payload, piece by piece.
  unfoldable pub feed : List Bytes → AwsAuthenticator H → AwsAuthenticator H
  unfolding update_payload_hash
  feed [] a = a
  feed (piece ∷ pieces) a = feed pieces (update_payload_hash H piece a)

  feed_lem :
      (pieces : List Bytes) (a : AwsAuthenticator H)
      → IsStreaming H
      → feed pieces a ≡ record a { body_sha = H.sha256_update a.body_sha (concat pieces) }
  unfolding feed concat
  feed_lem [] a laws = rw (laws.sha256_update-nil a.body_sha)
  feed_lem (piece ∷ pieces) a laws =
      feed_lem pieces (update_payload_hash H piece a) laws
      ∙ (unfold update_payload_hash in
          rw (laws.sha256_update-append a.body_sha piece (concat pieces)) refl)

  -- What construction and `init` make.
  abbrev pub keyed : Bytes → Bytes → ℕ → AwsAuthenticator H
  keyed access_key secret_key address = record {
    body_sha = H.sha256_init;
    access_key = some access_key;
    first_key = text "AWS4" ++ secret_key;
    service = text "lambda";
    method = text "POST";
    query_string = [];
    url_base = [];
    request_headers = address;
  }

  init-construct :
      (access_key secret_key : Bytes) (address : ℕ)
      → init H (some access_key) (some secret_key) (construct H address)
        ≡ some (keyed access_key secret_key address)
  unfolding init construct
  init-construct access_key secret_key address = refl

module _ (H : Hashing) (W : Host) (P : Target) where
  -- The authorization of the dated request `w` for a key pair, a payload, and a path with its query.
  abbrev pub value_for :
      (access_key secret_key region : Bytes)
      → HeaderList
      → Tm
      → (payload : Bytes) → Bytes × Bytes
      → W.World
      → Bytes
  value_for access_key secret_key region names tm payload url w =
      authorization H W access_key (text "AWS4" ++ secret_key) (text "lambda") (text "POST") region
        names tm (hexadecimal (sha256 H payload)) url w

  -- With a hash that takes its input in pieces, the laws of header maps, a time that `gmtime` accepts,
  -- and where the program goes on from reading the path and the query back from the freed buffer:
  -- after construction and `init` with a key pair, and with the payload fed in any pieces, signing
  -- adds the date header of the time and returns the authorization that the specification gives for
  -- the key pair, the whole payload, the path and the query that were read, and the dated request.
  pub sign_with_time-feed :
      (access_key secret_key region : Bytes) (before address : ℕ) (names : HeaderList)
      → (pieces : List Bytes) (now : ℕ) (w : W.World) (tm : Tm) (url : Bytes × Bytes)
      → IsStreaming H
      → IsHeaderMap W
      → broken_down H W P now ≡ some tm
      → signed_url W P w ≡ some url
      → (a b : AwsAuthenticator H) × (init H
            (some access_key)
            (some secret_key)
            (construct H before)
          ≡ some a)
        × (let dated = W.add_request_header date_header (format_date_time tm) w in
            sign_with_time H W P address names region now (feed H pieces a) w
            ≡ some (
              value_for access_key secret_key region names tm (concat pieces) url dated,
              b,
              dated,
            ))
  sign_with_time-feed access_key secret_key region before address names pieces now w tm url laws
        headers time kept =
      let a = keyed H access_key secret_key before in
      let dated = W.add_request_header date_header (format_date_time tm) w in
      let fed : AwsAuthenticator H = record a {
        body_sha = H.sha256_update H.sha256_init (concat pieces);
      } in
      (
        a,
        signed_by H W P address dated fed,
        init-construct H access_key secret_key before,
        rw (feed_lem H pieces a laws) (
            sign_with_time_lem H W P address names region now fed w tm access_key url laws time refl
              (signed_url-dated H W P tm w headers ∙ kept)),
      )

authorization-ne-date : text "authorization" ≢ date_header
authorization-ne-date e = absurd (omega (arith, ap length e))

-- The seconds that the code makes of k times ten thousand million nanoseconds.
div-literal :
    (P : Target) (k : ℕ)
    → IsIeee P
    → k * 9765625 < 2 ^ 53
    → P.to_u64 (P.div (P.of_u64 (k * 10000000000)) (P.literal 10 9)) ≡ k
div-literal P k ieee small =
    rw (ieee.literal_exact 10 9 (omega arith))
      (ieee.div_exact k 9765625 10 (omega arith) small (omega arith))

module _ (H : Hashing) (W : Host) (P : Target) where
  sign_lem :
      (address : ℕ) (names : HeaderList) (region value : Bytes) (a b : AwsAuthenticator H)
      → (w dated : W.World) (now : ℕ)
      → P.to_u64 (P.div (P.of_u64 (W.current_time_nanoseconds w)) (P.literal 10 9)) ≡ now
      → sign_with_time H W P address names region now a w ≡ some (value, b, dated)
      → sign H W P address names region a w
        ≡ some (b, W.add_request_header (text "authorization") value dated)
  unfolding sign
  sign_lem address names region value a b w dated now time signed = rw (time, signed) refl

  -- Under the laws of the platform, where `time_t` has 32 bits, after construction and `init` with a
  -- key pair, and with the payload fed in any pieces: at a clock of k times ten thousand million
  -- nanoseconds, which is 10 k seconds, where k * 5 ^ 10 has at most 53 bits, a request that had
  -- neither header is signed. It then has a date that reads as second k, a tenth of the time, and the
  -- authorization that the specification gives for the key pair, the whole payload, that date, and
  -- the path and the query that are read back from the freed buffer, where the program goes on from
  -- reading them.
  pub sign-feed :
      (access_key secret_key region : Bytes) (before address : ℕ) (names : HeaderList)
      → (pieces : List Bytes) (k : ℕ) (w : W.World) (url : Bytes × Bytes) → IsStreaming H
      → IsHeaderMap W
      → IsIeee P
      → W.current_time_nanoseconds w ≡ k * 10000000000
      → k * 9765625 < 2 ^ 53
      → P.time_bits ≡ 32
      → signed_url W P w ≡ some url
      → W.is_present (text "authorization") w ≡ false
      → W.is_present date_header w ≡ false
      → (a b : AwsAuthenticator H) × (v : W.World) × (tm : Tm) × (init H
            (some access_key)
            (some secret_key)
            (construct H before)
          ≡ some a)
        × (sign H W P address names region (feed H pieces a) w ≡ some (b, v))
        × (W.get_request_header date_header v ≡ format_date_time tm)
        × (timegm (read_date_time (W.get_request_header date_header v)) ≡ k)
        × (W.get_request_header (text "authorization") v
            ≡ value_for H W P access_key secret_key region names tm
                (concat pieces)
                url
                (W.add_request_header date_header (format_date_time tm) w))
  sign-feed access_key secret_key region before address names pieces k w url laws headers ieee clock
        small bits kept bare undated =
      let (n, day, found, from, within, total) = gmtime-moment k in
      let tm : Tm = moment k n (month_loop 12 0 n day) in
      let time : broken_down H W P k ≡ some tm =
        broken_down-gmtime H W P k bits (omega arith) ∙ found in
      let dated = W.add_request_header date_header (format_date_time tm) w in
      let added : add_date H W P k w ≡ some (format_date_time tm, dated) =
        unfold add_date in rw time refl in
      let value = value_for H W P access_key secret_key region names tm (concat pieces) url dated in
      let (a, b, made, signed) =
        sign_with_time-feed H W P access_key secret_key region before address names pieces k w tm
          url laws headers time kept in
      let date =
        headers.get-add_other (text "authorization") date_header value dated authorization-ne-date
        ∙ headers.get-add_missing date_header (format_date_time tm) w undated in
      (
        a,
        b,
        W.add_request_header (text "authorization") value dated,
        tm,
        made,
        sign_lem address names region value (feed H pieces a) b w dated k
            (rw clock (div-literal P k ieee small)) signed,
        date,
        rw date (
            add_date-timegm H W P k w dated (format_date_time tm) bits (omega arith)
              (inl (omega arith)) added),
        headers.get-add_missing (text "authorization") value dated (
            headers.is_present-add_other date_header (text "authorization") (format_date_time tm) w
              (λ e. authorization-ne-date (sym e))
            ∙ bare),
      )
