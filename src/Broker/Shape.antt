-- ===== src/Broker/Shape.antt =====
-- crates/sv-core/src/broker.rs: the caps on a request and its headers (`validate_request_shape`).
-- The parsers of the HTTP library are a parameter.
pub mod Laws
use sovereign_vault.Common.{
  ℕ, ◌+◌, Bool, true, false, ◌||◌, not, Option, none, some, List, [], ◌∷◌, Text, codes, ltb, any,
  text_eq, length, if◌then◌else◌,
}
use sovereign_vault.Common.Assoc.{Assoc}
use sovereign_vault.Common.Fallible.{Fallible, success, failure, ◌>>=◌, ◌>>◌, fail_if, ok_or}
use sovereign_vault.Policy.Validate.{is_empty}
use sovereign_vault.Broker.{
  Ipv4Addr, Ipv6Addr, IpAddr, v4, v6, BrokerError, disabled, invalid_url, scheme_not_https,
  not_allowed, blocked_address, dns, upstream, request_too_large, header_not_permitted,
  response_too_large, BrokerRequest, BrokerResponse, BrokerAllow, BrokerInjection, bearer_auth,
  header, ResolvedBrokerSecret, ValidatedTarget, lower, to_ascii_lowercase, eq_ignore_ascii_case,
  byte_length, max_response_bytes, max_request_body_bytes, max_request_headers,
  max_request_header_bytes, max_request_header_name_bytes, max_request_header_value_bytes,
  max_request_url_bytes, max_request_method_bytes, is_enabled,
}

-- `Method::from_bytes`, `HeaderName::from_bytes` with its canonical text, `HeaderValue::from_bytes`.
pub record HttpTypes : Type 0 where
  pub is_method : Text → Bool
  pub header_name : Text → Option Text
  pub is_header_value : Text → Bool

abbrev pub transport_controlled : List Text
transport_controlled =
    codes "proxy-authorization"
    ∷ codes "host"
    ∷ codes "content-length"
    ∷ codes "transfer-encoding"
    ∷ codes "connection"
    ∷ codes "proxy-connection"
    ∷ codes "upgrade"
    ∷ codes "te"
    ∷ codes "trailer"
    ∷ []

unfoldable pub is_broker_controlled_header : Text → Bool
is_broker_controlled_header name =
    any (text_eq (to_ascii_lowercase name)) (codes "authorization" ∷ transport_controlled)

unfoldable pub is_transport_controlled_header : Text → Bool
is_transport_controlled_header name = any (text_eq (to_ascii_lowercase name)) transport_controlled

abbrev url_cap : BrokerError
url_cap = request_too_large (codes "URL") max_request_url_bytes

abbrev method_cap : BrokerError
method_cap = request_too_large (codes "method") max_request_method_bytes

abbrev count_cap : BrokerError
count_cap = request_too_large (codes "header count") max_request_headers

abbrev name_cap : BrokerError
name_cap = request_too_large (codes "header name") max_request_header_name_bytes

abbrev value_cap : BrokerError
value_cap = request_too_large (codes "header value") max_request_header_value_bytes

abbrev total_cap : BrokerError
total_cap = request_too_large (codes "headers") max_request_header_bytes

abbrev body_cap : BrokerError
body_cap = request_too_large (codes "body") max_request_body_bytes

unfoldable pub check_body : Option Text → Fallible BrokerError (Unit {0})
check_body none = success tt
check_body (some body) = fail_if (ltb max_request_body_bytes (byte_length body)) body_cap

module _ (http : HttpTypes) where
  -- One turn of the loop over the headers, with the bytes counted so far. The counter is at most
  -- the cap and the sizes added are at most 8320, so `checked_add` never overflows.
  unfoldable pub check_header : (header_bytes : ℕ) (name value : Text) → Fallible BrokerError ℕ
  check_header header_bytes name value = do
    fail_if (ltb max_request_header_name_bytes (byte_length name)) name_cap
    fail_if (ltb max_request_header_value_bytes (byte_length value)) value_cap
    let total = header_bytes + (byte_length name + byte_length value)
    fail_if (ltb max_request_header_bytes total) total_cap
    parsed ← ok_or (http.header_name name) (header_not_permitted name)
    fail_if (not (http.is_header_value value)) (header_not_permitted name)
    fail_if (is_broker_controlled_header parsed) (header_not_permitted name)
    success total

  unfoldable pub check_headers : (header_bytes : ℕ) → Assoc Text → Fallible BrokerError ℕ
  unfolding check_header
  check_headers header_bytes [] = success header_bytes
  check_headers header_bytes ((name, value) ∷ headers) = do
    total ← check_header header_bytes name value
    check_headers total headers

  unfoldable pub validate_request_shape : BrokerRequest → Fallible BrokerError (Unit {0})
  unfolding check_headers check_body
  validate_request_shape req = do
    fail_if (ltb max_request_url_bytes (byte_length req.url)) url_cap
    fail_if (is_empty req.method || ltb max_request_method_bytes (byte_length req.method))
        method_cap
    fail_if (not (http.is_method req.method)) (invalid_url (codes "invalid HTTP method"))
    fail_if (ltb max_request_headers (length req.headers)) count_cap
    total ← check_headers 0 req.headers
    check_body req.body
