-- ===== src/Broker/Target.antt =====
-- crates/sv-core/src/broker.rs: the allow list of a secret (`validate_against_allowlist`).
-- The URL parser is a parameter.
pub mod Paths
pub mod Laws
use sovereign_vault.Common.{
  ℕ, Bool, true, false, ◌&&◌, ◌||◌, not, Option, none, some, List, [], ◌∷◌, Text, codes, ltb, any,
  text_eq, has_prefix, if◌then◌else◌, map, ◌==◌,
}
use sovereign_vault.Common.Fallible.{Fallible, success, failure, ◌>>=◌, ◌>>◌, fail_if, ok_or}
use sovereign_vault.Policy.Validate.{is_empty, strip_prefix}
use sovereign_vault.Patterns.National.{upper}
use sovereign_vault.Broker.Shape.{HttpTypes, validate_request_shape}
use sovereign_vault.Broker.{
  Ipv4Addr, Ipv6Addr, IpAddr, v4, v6, BrokerError, disabled, invalid_url, scheme_not_https,
  not_allowed, blocked_address, dns, upstream, request_too_large, header_not_permitted,
  response_too_large, BrokerRequest, BrokerResponse, BrokerAllow, BrokerInjection, bearer_auth,
  header, ResolvedBrokerSecret, ValidatedTarget, lower, to_ascii_lowercase, eq_ignore_ascii_case,
  byte_length, max_response_bytes, max_request_body_bytes, max_request_headers,
  max_request_header_bytes, max_request_header_name_bytes, max_request_header_value_bytes,
  max_request_url_bytes, max_request_method_bytes, is_enabled,
}

-- What `url::Url` reads out of a text.
pub record Url : Type 0 where
  pub scheme : Text
  pub username : Text
  pub password : Option Text
  pub fragment : Option Text
  pub host_str : Option Text
  pub path : Text
  pub port_or_known_default : Option ℕ

abbrev pub to_ascii_uppercase : Text → Text
to_ascii_uppercase = map upper

abbrev pub is_some {ℓ} : {A : Type ℓ} → Option A → Bool
is_some none = false
is_some (some a) = true

-- `s.ends_with(c)` for one code point.
unfoldable pub ends_with : ℕ → Text → Bool
ends_with c [] = false
ends_with c (d ∷ []) = d == c
ends_with c (d ∷ e ∷ s) = ends_with c (e ∷ s)

-- `s.contains(t)` for a text.
unfoldable pub occurs : Text → Text → Bool
unfolding has_prefix
occurs t [] = is_empty t
occurs t (c ∷ s) = has_prefix t (c ∷ s) || occurs t s

abbrev opens_with_slash : Option Text → Bool
opens_with_slash none = false
opens_with_slash (some rest) = has_prefix (codes "/") rest

unfoldable pub path_prefix_matches : (prefix path : Text) → Bool
unfolding has_prefix ends_with text_eq strip_prefix
path_prefix_matches prefix path =
    if not (has_prefix (codes "/") prefix)
    then false
    else if text_eq prefix (codes "/") || ends_with b'/' prefix
    then has_prefix prefix path
    else text_eq path prefix || opens_with_slash (strip_prefix prefix path)

unfoldable pub has_encoded_separator : (path : Text) → Bool
unfolding occurs
has_encoded_separator path =
    let encoded_path = to_ascii_lowercase path in
    any (λ encoded. occurs encoded encoded_path) (codes "%2e" ∷ codes "%2f" ∷ codes "%5c" ∷ [])

unfoldable pub entry_matches : (host path method : Text) → BrokerAllow → Bool
unfolding path_prefix_matches
entry_matches host path method entry =
    eq_ignore_ascii_case entry.host host
    && path_prefix_matches entry.path_prefix path
    && any (λ m. eq_ignore_ascii_case m method) entry.methods

-- `allow.iter().find(..)`: the first entry that matches.
unfoldable pub find_entry : (host path method : Text) → List BrokerAllow → Option BrokerAllow
unfolding entry_matches
find_entry host path method [] = none
find_entry host path method (entry ∷ allow) =
    if entry_matches host path method entry then some entry else find_entry host path method allow

abbrev with_entry :
    (host path method : Text) → Option BrokerAllow → Fallible BrokerError ValidatedTarget
with_entry host path method none = failure not_allowed
with_entry host path method (some entry) =
    success (record { host = host; path = path; method = method; allow = entry })

-- The checks on a URL that parsed, in the order of the code.
unfoldable pub check_url :
    (method : Text) → Url → List BrokerAllow → Fallible BrokerError ValidatedTarget
unfolding text_eq has_encoded_separator find_entry
check_url method url allow = do
  fail_if (not (text_eq url.scheme (codes "https"))) (scheme_not_https url.scheme)
  fail_if (not (is_empty url.username) || is_some url.password)
      (invalid_url (codes "embedded URL credentials are not permitted"))
  fail_if (is_some url.fragment) (invalid_url (codes "URL fragments are not permitted"))
  host_str ← ok_or url.host_str (invalid_url (codes "missing host"))
  let host = to_ascii_lowercase host_str
  fail_if (has_encoded_separator url.path)
      (invalid_url (codes "encoded path traversal or separators are not permitted"))
  let upper_method = to_ascii_uppercase method
  with_entry host url.path upper_method (find_entry host url.path upper_method allow)

module _ (http : HttpTypes) (parse : Text → Fallible Text Url) where
  abbrev pub parse_url : Text → Fallible BrokerError Url
  parse_url text = elim (parse text) [
    | failure e ↦ failure (invalid_url e)
    | success url ↦ success url
  ]

  unfoldable pub validate_against_allowlist :
      BrokerRequest → List BrokerAllow → Fallible BrokerError ValidatedTarget
  unfolding validate_request_shape check_url
  validate_against_allowlist req allow = do
    validate_request_shape http req
    url ← parse_url req.url
    check_url req.method url allow
