-- ===== src/AwsLambda/Filter.antt =====
-- extensions/aws_lambda/filter.{h,cc}: the root context's configuration, the handlers of a request,
-- and sequences of handler calls. `none` is undefined behaviour, which signing may meet.
pub mod Laws
pub mod Path
mod Tests
use envoy_wasm_filters.Base.{
  ℕ, ◌+◌, ◌≡◌, Bool, true, false, not, Option, none, some, List, [], ◌∷◌, ◌++◌, ◌==◌, if◌then◌else◌,
  is_empty, Bytes, text, bytes_eq, ◌>>=◌,
}
use envoy_wasm_filters.AwsLambda.Platform.{Hashing, Host, Target}
use envoy_wasm_filters.AwsLambda.Authenticator.{HeaderList, create_header_to_sign}
use envoy_wasm_filters.AwsLambda.Authenticator.Signing.{
  AwsAuthenticator, construct, sign, update_payload_hash,
}

pub data FilterStatus : Type 0 where
  continue stop_iteration stop_iteration_and_buffer : FilterStatus

abbrev pub invocation_type : Bytes
invocation_type = text "x-amz-invocation-type"

abbrev pub request_response : Bytes
request_response = text "RequestResponse"

abbrev pub log_type : Bytes
log_type = text "x-amz-log-type"

abbrev pub log_none : Bytes
log_none = text "None"

unfoldable pub headers_to_sign : HeaderList
headers_to_sign =
    create_header_to_sign (invocation_type ∷ log_type ∷ text "host" ∷ text "content-type" ∷ [])

-- The root context. `getConfiguration` may give a null pointer, which is read all the same; the
-- value that the JSON parser leaves in the message is a parameter.
pub record RootContext : Type 0 where
  pub header_value : Bytes

unfoldable pub on_configure :
    (Bytes → Bytes) → Option Bytes → RootContext → Option (Bool × RootContext)
on_configure parsed_value none root = none
on_configure parsed_value (some conf) root =
    some (true, record root { header_value = parsed_value conf })

-- The name that the factories of both contexts are registered under.
abbrev root_id : Bytes
root_id = text "aws_lambda_root_id"

-- It only logs.
abbrev on_start : ℕ → Bool
on_start vm_configuration_size = true

-- The value is written after the question mark without any encoding.
unfoldable pub function_url_path : Bytes → Bytes → Bytes
function_url_path name qualifier =
    let val = text "/2015-03-31/functions/" ++ name ++ text "/invocations" in
    if is_empty qualifier then val else val ++ text "?Qualifier=" ++ qualifier

-- A request's context. `async` and `request_headers` are never set by the program.
pub record Context (H : Hashing) : Type 0 where
  pub path : Bytes
  pub async : Bool
  pub default_body : Bytes
  pub request_headers : ℕ
  pub aws_authenticator : AwsAuthenticator H

-- What the program's callbacks see of a request.
pub data Event : Type 0 where
  request_headers : Event
  request_body : (body_buffer_length : ℕ) (end_stream : Bool) → Event
  request_trailers : Event

module _ (H : Hashing) (W : Host) (P : Target) where
  -- The bytes that the constructor finds in the members it does not initialise are parameters.
  unfoldable pub create : Bool → ℕ → ℕ → Context H
  create async address inner_address = record {
    path = [];
    async = async;
    default_body = [];
    request_headers = address;
    aws_authenticator = construct H inner_address;
  }

  -- It only logs.
  abbrev on_create : Context H → Context H
  on_create c = c

  unfoldable pub lambdafy : Context H → W.World → Option (Context H × W.World)
  lambdafy c w = do
    let w = W.add_request_header invocation_type request_response w
    let w = W.add_request_header log_type log_none w
    (a, w) ← sign H W P c.request_headers headers_to_sign (text "us-east-1") c.aws_authenticator w
    some (record c { aws_authenticator = a }, w)

  unfoldable pub on_request_headers :
      Context H → W.World → Option (FilterStatus × Context H × W.World)
  on_request_headers c w =
      if bytes_eq (W.get_request_header (text ":method") w) (text "GET")
      then (do (c, w) ← lambdafy c w; some (continue, c, w))
      else some (stop_iteration, c, w)

  unfoldable pub on_request_body :
      ℕ → Bool → Context H → W.World → Option (FilterStatus × Context H × W.World)
  on_request_body body_buffer_length end_stream c w =
      if end_stream
      then (do
        let body = W.get_request_body 0 body_buffer_length w
        let a = update_payload_hash H body c.aws_authenticator
        (c, w) ← lambdafy (record c { aws_authenticator = a }) w
        some (continue, c, w))
      else some (stop_iteration_and_buffer, c, w)

  unfoldable pub on_request_trailers :
      Context H → W.World → Option (FilterStatus × Context H × W.World)
  on_request_trailers c w = do (c, w) ← lambdafy c w; some (continue, c, w)

  unfoldable pub handle : Event → Context H → W.World → Option (FilterStatus × Context H × W.World)
  unfolding on_request_headers on_request_body on_request_trailers
  handle request_headers c w = on_request_headers c w
  handle (request_body n end_stream) c w = on_request_body n end_stream c w
  handle request_trailers c w = on_request_trailers c w

  -- The proxy's calls in turn.
  unfoldable pub handle_all : List Event → Context H → W.World → Option (Context H × W.World)
  handle_all [] c w = some (c, w)
  handle_all (e ∷ es) c w = do (_, c, w) ← handle e c w; handle_all es c w
