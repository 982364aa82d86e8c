-- ===== src/Broker/Execute.antt =====
-- crates/sv-core/src/broker.rs: `execute`, from the request of an agent to the response it sees.
-- The HTTP client, the resolver and the URL parser are parameters; a header map is an association
-- list, and bytes are a list of numbers.
pub mod Sends
pub mod Receives
use sovereign_vault.Common.{
  ℕ, ◌+◌, Bool, true, false, ◌&&◌, ◌||◌, not, Option, none, some, List, [], ◌∷◌, ◌++◌, map, Text,
  codes, ltb, contains, length, text_eq, if◌then◌else◌,
}
use sovereign_vault.Common.Assoc.{Assoc, put_key}
use sovereign_vault.Common.Fallible.{Fallible, success, failure, ◌>>=◌, ◌>>◌, fail_if, ok_or}
use sovereign_vault.Broker.Shape.{HttpTypes, is_transport_controlled_header}
use sovereign_vault.Broker.Target.{Url, validate_against_allowlist, parse_url}
use sovereign_vault.Broker.Address.{resolve_and_screen}
use sovereign_vault.Broker.Redact.{redact_secret, upstream_error}
use sovereign_vault.Broker.{
  Ipv4Addr, Ipv6Addr, IpAddr, v4, v6, BrokerError, disabled, invalid_url, scheme_not_https,
  not_allowed, blocked_address, dns, upstream, request_too_large, header_not_permitted,
  response_too_large, BrokerRequest, BrokerResponse, BrokerAllow, BrokerInjection, bearer_auth,
  header, ResolvedBrokerSecret, ValidatedTarget, lower, to_ascii_lowercase, eq_ignore_ascii_case,
  byte_length, max_response_bytes, max_request_body_bytes, max_request_headers,
  max_request_header_bytes, max_request_header_name_bytes, max_request_header_value_bytes,
  max_request_url_bytes, max_request_method_bytes, is_enabled,
}

-- The call that leaves the process, with the addresses the client is pinned to. The client follows
-- no redirect.
pub record Outbound : Type 0 where
  pub host : Text
  pub port : ℕ
  pub addrs : List IpAddr
  pub method : Text
  pub url : Url
  pub headers : Assoc Text
  pub body : Option Text

-- A header value is `none` when it is no visible text; the chunks come until one fails.
pub record Reply : Type 0 where
  pub status : ℕ
  pub headers : List (Text × Option Text)
  pub content_length : Option ℕ
  pub chunks : List (Fallible Text (List ℕ))

pub record Network : Type 0 where
  pub http : HttpTypes
  pub parse : Text → Fallible Text Url
  pub resolve : Text → ℕ → Fallible Text (List IpAddr)
  pub build_client : Text → List IpAddr → Fallible Text (Unit {0})
  pub send : Outbound → Fallible Text Reply
  pub from_utf8_lossy : List ℕ → Text
  -- The texts of the errors of the HTTP library.
  pub method_error : Text
  pub name_error : Text
  pub value_error : Text

abbrev stripped_response_headers : List Text
stripped_response_headers =
    codes "set-cookie" ∷ codes "authorization" ∷ codes "proxy-authorization" ∷ []

-- `map_err(|error| upstream_error(error, secret))`.
abbrev pub or_upstream {ℓ} :
    {T : Type ℓ} → Fallible Text T → (secret : Text) → Fallible BrokerError T
or_upstream (failure e) secret = failure (upstream_error e secret)
or_upstream (success t) secret = success t

-- The response headers that the agent may see.
unfoldable pub visible_headers :
    (secret : Text) → List (Text × Option Text) → Assoc Text → Assoc Text
unfolding redact_secret contains put_key
visible_headers secret [] seen = seen
visible_headers secret ((name, none) ∷ headers) seen = visible_headers secret headers seen
visible_headers secret ((name, some value) ∷ headers) seen =
    let hidden = visible_headers secret headers seen in
    let shown = visible_headers secret headers (put_key seen name (redact_secret value secret)) in
    if contains stripped_response_headers (to_ascii_lowercase name) then hidden else shown

abbrev oversized : Option ℕ → Bool
oversized none = false
oversized (some len) = ltb max_response_bytes len

-- The loop over the chunks, with what is read so far.
unfoldable pub read_chunks :
    (secret : Text) (buf : List ℕ) → List (Fallible Text (List ℕ)) → Fallible BrokerError (List ℕ)
read_chunks secret buf [] = success buf
read_chunks secret buf (failure e ∷ chunks) = failure (upstream_error e secret)
read_chunks secret buf (success chunk ∷ chunks) =
    let rest = read_chunks secret (buf ++ chunk) chunks in
    if ltb max_response_bytes (length buf + length chunk)
    then failure (response_too_large max_response_bytes)
    else rest

module _ (net : Network) where
  -- The header that carries the secret.
  unfoldable pub owned_header :
      ResolvedBrokerSecret → BrokerInjection → Fallible BrokerError (Text × Text)
  unfolding is_transport_controlled_header
  owned_header resolved bearer_auth = do
    let value = codes "Bearer " ++ resolved.secret
    fail_if (not (net.http.is_header_value value)) (upstream_error net.value_error resolved.secret)
    success (codes "authorization", value)
  owned_header resolved (header name) = do
    parsed ← ok_or (net.http.header_name name) (upstream_error net.name_error resolved.secret)
    fail_if (is_transport_controlled_header parsed) (header_not_permitted name)
    fail_if (not (net.http.is_header_value resolved.secret))
        (upstream_error net.value_error resolved.secret)
    success (parsed, resolved.secret)

  -- The loop over the agent's headers: the one that the secret goes into is passed over.
  unfoldable pub agent_headers : (owned : Text) → Assoc Text → Fallible BrokerError (Assoc Text)
  agent_headers owned [] = success []
  agent_headers owned ((k, v) ∷ headers) =
      let rest = agent_headers owned headers in
      (ok_or (net.http.header_name k) (header_not_permitted k)) >>= λ name.
      if text_eq name owned
      then rest
      else (fail_if (not (net.http.is_header_value v)) (header_not_permitted k)
          >> (rest >>= λ others. success ((name, v) ∷ others)))

  -- Everything before the call.
  unfoldable pub prepare :
      (enabled : Option Text) → BrokerRequest → ResolvedBrokerSecret → Fallible BrokerError Outbound
  unfolding owned_header agent_headers resolve_and_screen validate_against_allowlist is_enabled
  prepare enabled req resolved = do
    fail_if (not (is_enabled enabled)) (disabled (codes "SV_ENABLE_BROKER"))
    target ← validate_against_allowlist net.http net.parse req resolved.allow
    url ← parse_url net.http net.parse req.url
    port ← ok_or url.port_or_known_default (invalid_url (codes "no port"))
    screened ← resolve_and_screen net.resolve target.host port target.allow
    or_upstream (net.build_client target.host screened) resolved.secret
    fail_if (not (net.http.is_method target.method))
        (upstream_error net.method_error resolved.secret)
    owned ← owned_header resolved resolved.injection
    others ← agent_headers owned.0 req.headers
    success (record {
      host = target.host;
      port = port;
      addrs = screened;
      method = target.method;
      url = url;
      headers = others ++ (owned ∷ []);
      body = req.body;
    })

  -- Everything behind the call.
  unfoldable pub receive : (secret : Text) → Reply → Fallible BrokerError BrokerResponse
  unfolding visible_headers read_chunks redact_secret
  receive secret reply = do
    fail_if (oversized reply.content_length) (response_too_large max_response_bytes)
    buf ← read_chunks secret [] reply.chunks
    success (record {
      status = reply.status;
      headers = visible_headers secret reply.headers [];
      body = redact_secret (net.from_utf8_lossy buf) secret;
    })

  unfoldable pub execute :
      (enabled : Option Text)
      → BrokerRequest
      → ResolvedBrokerSecret
      → Fallible BrokerError BrokerResponse
  unfolding prepare receive
  execute enabled req resolved = do
    outbound ← prepare enabled req resolved
    reply ← or_upstream (net.send outbound) resolved.secret
    receive resolved.secret reply
