-- ===== src/Dispatcher/Address.antt =====
-- src/dispatcher/vqs-client.ts: where a delivery is sent, and what its answer means. The URL parser and
-- the HTTP client are not the code's own: a parsed URL and an answer are values here.
use Prim.Native.String.{String, ◌++◌}
use text.Mathlib.Text.{◌==◌ as str_eq}
use workflow_world.Prelude.{
  ℕ, leb, ltb, Option, none, some, Bool, true, not, ◌&&◌, ◌||◌, if◌then◌else◌,
}
use workflow_world.Storage.Schema.{Ident, Content}

-- The parts of `new URL(value)` that are read.
pub record Url : Type 0 where
  pub protocol : String
  pub username : String
  pub password : String
  pub pathname : String
  pub search : String
  pub hash : String
  pub origin : String

pub data AddressError : Type 0 where
  not_a_url bad_protocol has_credentials not_an_origin no_address : AddressError

pub data Parsed : Type 0 where
  origin_of : String → Parsed
  refused : AddressError → Parsed

-- `none` is a value that the URL parser throws on.
unfoldable pub parse_endpoint_url : Option Url → Parsed
parse_endpoint_url none = refused not_a_url
parse_endpoint_url (some url) =
    if not (str_eq url.protocol "http:") && not (str_eq url.protocol "https:")
    then refused bad_protocol
    else if not (str_eq url.username "") || not (str_eq url.password "")
    then refused has_credentials
    else if (not (str_eq url.pathname "/") && not (str_eq url.pathname ""))
        || not (str_eq url.search "")
        || not (str_eq url.hash "")
    then refused not_an_origin
    else origin_of url.origin

abbrev pub workflow_route_base : String
workflow_route_base = "/.well-known/workflow/v1"

-- What an activation says of the executor; `url` is none when it names no URL, and `some none` when it
-- names one that cannot be parsed.
pub record Endpoint : Type 0 where
  pub lease_id : Ident
  pub port : Option ℕ
  pub url : Option (Option Url)

-- `show` is `String` of a port.
module _ (show : ℕ → String) where
  -- The route at an origin.
  unfoldable pub route_of : Parsed → Parsed
  route_of (refused e) = refused e
  route_of (origin_of o) = origin_of (o ++ workflow_route_base ++ "/flow")

  unfoldable pub flow_url : Endpoint → Parsed
  unfolding parse_endpoint_url route_of
  flow_url e = address e.url e.port
    where
      address : Option (Option Url) → Option ℕ → Parsed
      address (some url) port = route_of (parse_endpoint_url url)
      address none none = refused no_address
      address none (some port) =
          origin_of ("http://127.0.0.1:" ++ show port ++ workflow_route_base ++ "/flow")

-- The answer of the HTTP client: it throws, or there is a response whose body cannot be read, or a
-- response with the finite `timeoutSeconds` of its body, if it has one that is not negative.
pub data HttpAnswer : Type 0 where
  timed_out : HttpAnswer
  transport_error : String → HttpAnswer
  unreadable : HttpAnswer
  response : ℕ → String → Option ℕ → HttpAnswer

pub data FailureText : Type 0 where
  address_unusable : AddressError → FailureText
  dispatch_timed_out : FailureText
  transport : String → FailureText
  body : String → FailureText

pub data VqsResult : Type 0 where
  completed : VqsResult
  reschedule : ℕ → VqsResult
  -- the status, the text and whether it is retryable
  error : ℕ → FailureText → Bool → VqsResult

-- `response.ok`
abbrev pub is_ok : ℕ → Bool
is_ok status = leb 200 status && ltb status 300

pub record VqsRequest : Type 0 where
  pub url : String
  pub queue_name : String
  pub message_id : Ident
  pub attempt : ℕ
  pub delivery_count : ℕ
  pub content : Content
  pub headers : Option Content
  pub tenant_id : Ident
  pub deployment_id : Ident
  pub run_id : Option Ident

-- `none` is a promise that rejects.
unfoldable pub result_of : HttpAnswer → Option VqsResult
result_of timed_out = some (error 0 dispatch_timed_out true)
result_of (transport_error text) = some (error 0 (transport text) true)
result_of unreadable = none
result_of (response status text seconds) =
    some (
      if is_ok status
      then reschedule_or_done seconds
      else error status (body text) (leb 500 status))
  where
    reschedule_or_done : Option ℕ → VqsResult
    reschedule_or_done none = completed
    reschedule_or_done (some n) = reschedule n
