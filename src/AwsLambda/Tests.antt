-- ===== src/AwsLambda/Tests.antt =====
-- Runs of the authenticator, and the theorems on it at concrete inputs.
use envoy_wasm_filters.Base.{
  ◌≡◌, refl, false, ◌||◌, none, some, List, [], ◌∷◌, arith, Bytes, text, bytes_eq, concat,
  to_signed,
}
use envoy_wasm_filters.AwsLambda.Gmtime.{
  Tm, days_in_year, days_in_month, year_loop, month_loop, fill_date, map_tm, gmtime,
}
use envoy_wasm_filters.AwsLambda.Gmtime.Calendar.{timegm}
use envoy_wasm_filters.AwsLambda.Authenticator.{
  date_header, create_header_to_sign, format_date_time,
}
use envoy_wasm_filters.AwsLambda.Authenticator.Signing.{
  AwsAuthenticator, construct, init, broken_down, sign_with_time, sign,
}
use envoy_wasm_filters.AwsLambda.Authenticator.Headers.{
  IsOrdered, contains, create_header_to_sign_lem,
}
use envoy_wasm_filters.AwsLambda.Authenticator.Dates.{read_date_time}
use envoy_wasm_filters.AwsLambda.Platform.{Target}
use envoy_wasm_filters.AwsLambda.Authenticator.Sign.{signed_url}
use envoy_wasm_filters.AwsLambda.Authenticator.Keyed.{
  feed, value_for, sign_with_time-feed, sign-feed,
}
use envoy_wasm_filters.AwsLambda.Gmtime.Tests.{new_year}
use envoy_wasm_filters.AwsLambda.Instances.{
  echo, echo-IsStreaming, list_host, list_host-IsHeaderMap, exact, exact-IsIeee, request, names,
}

create_header_to_sign_lem_example :
    IsOrdered (create_header_to_sign (text "host" ∷ []))
    × (contains (create_header_to_sign (text "host" ∷ [])) (text "host")
        ≡ bytes_eq date_header (text "host") || contains (text "host" ∷ []) (text "host"))
create_header_to_sign_lem_example = create_header_to_sign_lem (text "host" ∷ []) (text "host")

pub dated : broken_down echo list_host exact 1577836800 ≡ some new_year
unfolding gmtime map_tm year_loop days_in_year fill_date month_loop days_in_month broken_down
    to_signed
dated = refl

abbrev region : Bytes
region = text "us-east-1"

abbrev signed_path : Bytes × Bytes
signed_path = (text "/f", text "Qualifier=1")

kept : signed_url list_host exact request ≡ some signed_path
unfolding bytes_eq
kept = refl

-- A target on which the program does not go on from reading freed memory.
abbrev trapping : Target
trapping = record exact { read_freed = λ b. none }

abbrev pieces : List Bytes
pieces = text "{" ∷ text "}" ∷ []

sign_with_time-feed_example :
    (a b : AwsAuthenticator echo) × (init echo
        (some (text "id"))
        (some (text "secret"))
        (construct echo 0)
      ≡ some a)
    × (let dated_request =
          list_host.add_request_header date_header (format_date_time new_year) request in
        sign_with_time echo list_host exact 0 names region 1577836800 (feed echo pieces a) request
        ≡ some (
          value_for echo list_host exact
              (text "id")
              (text "secret")
              region
              names
              new_year
              (concat pieces)
              signed_path
              dated_request,
          b,
          dated_request,
        ))
sign_with_time-feed_example =
    sign_with_time-feed echo list_host exact (text "id") (text "secret") region 0 0 names pieces
      1577836800 request new_year signed_path echo-IsStreaming list_host-IsHeaderMap dated kept

pub undated :
    (list_host.is_present date_header request ≡ false)
    × (list_host.is_present (text "authorization") request ≡ false)
unfolding bytes_eq
undated = (refl, refl)

-- The clock stands at 2020-01-01T00:00:00Z; the date is a tenth of that.
sign-feed_example :
    (a b : AwsAuthenticator echo) × (v : list_host.World) × (tm : Tm) × (init echo
        (some (text "id"))
        (some (text "secret"))
        (construct echo 0)
      ≡ some a)
    × (sign echo list_host exact 0 names region (feed echo pieces a) request ≡ some (b, v))
    × (list_host.get_request_header date_header v ≡ format_date_time tm)
    × (timegm (read_date_time (list_host.get_request_header date_header v)) ≡ 157783680)
    × (list_host.get_request_header (text "authorization") v
        ≡ value_for echo list_host exact
            (text "id")
            (text "secret")
            region
            names
            tm
            (concat pieces)
            signed_path
            (list_host.add_request_header date_header (format_date_time tm) request))
sign-feed_example =
    sign-feed echo list_host exact (text "id") (text "secret") region 0 0 names pieces 157783680
      request signed_path echo-IsStreaming list_host-IsHeaderMap exact-IsIeee refl (omega arith)
      refl kept undated.1 undated.0
