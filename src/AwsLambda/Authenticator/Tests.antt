-- ===== src/AwsLambda/Authenticator/Tests.antt =====
-- The theorems on dates, the clock and the set of headers at concrete inputs.
use envoy_wasm_filters.Base.{
  ◌≡◌, refl, ◌↔◌, inr, some, [], ◌∷◌, arith, length, take, text, Bytes, padded, decimal,
}
use envoy_wasm_filters.AwsLambda.Gmtime.Calendar.{timegm}
use envoy_wasm_filters.AwsLambda.Authenticator.{
  date_header, format_date_time, create_header_to_sign,
}
use envoy_wasm_filters.AwsLambda.Authenticator.Signing.{add_date, get_credntial_scope_date}
use envoy_wasm_filters.AwsLambda.Authenticator.Dates.{
  read_date_time, add_date-length, add_date-timegm,
}
use envoy_wasm_filters.AwsLambda.Authenticator.HeaderSets.{
  SameHeaders, create_header_to_sign-eq_iff,
}
use envoy_wasm_filters.AwsLambda.Tests.{dated}
use envoy_wasm_filters.AwsLambda.Instances.{echo, list_host, exact, request}

add_date-length_example :
    (s : Bytes) × (add_date echo list_host exact 1577836800 request
      ≡ some (s, list_host.add_request_header date_header s request))
    × (get_credntial_scope_date echo list_host exact 1577836800 ≡ some (take 8 s))
    × (length s ≡ 16)
add_date-length_example = add_date-length echo list_host exact 1577836800 request refl (omega arith)

abbrev new_year_text : Bytes
new_year_text = text "20200101T000000Z"

added_new_year :
    add_date echo list_host exact 1577836800 request
    ≡ some (new_year_text, list_host.add_request_header date_header new_year_text request)
unfolding add_date format_date_time padded decimal
added_new_year = rw dated refl

add_date-timegm_example : timegm (read_date_time new_year_text) ≡ 1577836800
add_date-timegm_example =
    add_date-timegm echo list_host exact 1577836800 request
      (list_host.add_request_header date_header new_year_text request) new_year_text refl
      (omega arith) (inr (omega arith)) added_new_year

create_header_to_sign-eq_iff_example :
    (create_header_to_sign (text "host" ∷ text "a" ∷ text "host" ∷ [])
      ≡ create_header_to_sign (text "a" ∷ text "x-amz-date" ∷ text "host" ∷ []))
    ↔ SameHeaders
        (date_header ∷ text "host" ∷ text "a" ∷ text "host" ∷ [])
        (date_header ∷ text "a" ∷ text "x-amz-date" ∷ text "host" ∷ [])
create_header_to_sign-eq_iff_example =
    create_header_to_sign-eq_iff (text "host" ∷ text "a" ∷ text "host" ∷ [])
      (text "a" ∷ text "x-amz-date" ∷ text "host" ∷ [])
