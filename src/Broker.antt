-- ===== src/Broker.antt =====
-- crates/sv-core/src/broker.rs: requests to an external service on behalf of an agent, and the
-- records of crates/sv-core/src/transit.rs that they are checked against. A text is the list of its
-- code points; its length in bytes is `byte_length`.
pub mod Shape
pub mod Target
pub mod Address
pub mod Redact
pub mod Execute
use sovereign_vault.Common.{
  ℕ, ◌+◌, ◌*◌, Bool, true, false, ◌&&◌, ◌||◌, Option, none, some, List, [], ◌∷◌, map, Text, codes,
  ltb, leb, any, text_eq, if◌then◌else◌,
}
use sovereign_vault.Common.Assoc.{Assoc}

-- Octets, and segments of 16 bits.
pub record Ipv4Addr : Type 0 where
  pub o0 : ℕ
  pub o1 : ℕ
  pub o2 : ℕ
  pub o3 : ℕ

pub record Ipv6Addr : Type 0 where
  pub s0 : ℕ
  pub s1 : ℕ
  pub s2 : ℕ
  pub s3 : ℕ
  pub s4 : ℕ
  pub s5 : ℕ
  pub s6 : ℕ
  pub s7 : ℕ

pub data IpAddr : Type 0 where
  v4 : Ipv4Addr → IpAddr
  v6 : Ipv6Addr → IpAddr

pub data BrokerError : Type 0 where
  disabled : Text → BrokerError
  invalid_url : Text → BrokerError
  scheme_not_https : Text → BrokerError
  not_allowed : BrokerError
  blocked_address : IpAddr → BrokerError
  dns : Text → BrokerError
  upstream : Text → BrokerError
  request_too_large : Text → ℕ → BrokerError
  header_not_permitted : Text → BrokerError
  response_too_large : ℕ → BrokerError

pub record BrokerRequest : Type 0 where
  pub method : Text
  pub url : Text
  pub headers : Assoc Text
  pub body : Option Text

pub record BrokerResponse : Type 0 where
  pub status : ℕ
  pub headers : Assoc Text
  pub body : Text

pub record BrokerAllow : Type 0 where
  pub host : Text
  pub path_prefix : Text
  pub methods : List Text
  pub allow_private_ip : Bool

pub data BrokerInjection : Type 0 where
  bearer_auth : BrokerInjection
  header : (name : Text) → BrokerInjection

pub record ResolvedBrokerSecret : Type 0 where
  pub secret : Text
  pub allow : List BrokerAllow
  pub injection : BrokerInjection

pub record ValidatedTarget : Type 0 where
  pub host : Text
  pub path : Text
  pub method : Text
  pub allow : BrokerAllow

abbrev pub lower : ℕ → ℕ
lower c = if leb b'A' c && leb c b'Z' then c + 32 else c

abbrev pub to_ascii_lowercase : Text → Text
to_ascii_lowercase = map lower

abbrev pub eq_ignore_ascii_case : Text → Text → Bool
eq_ignore_ascii_case s t = text_eq (to_ascii_lowercase s) (to_ascii_lowercase t)

-- The bytes of a code point, and `str::len`.
abbrev utf8_width : ℕ → ℕ
utf8_width c = if ltb c 128 then 1 else if ltb c 2048 then 2 else if ltb c 65536 then 3 else 4

unfoldable pub byte_length : Text → ℕ
byte_length [] = 0
byte_length (c ∷ s) = utf8_width c + byte_length s

abbrev pub max_response_bytes : ℕ
max_response_bytes = 1024 * 1024

abbrev pub max_request_body_bytes : ℕ
max_request_body_bytes = 1024 * 1024

abbrev pub max_request_headers : ℕ
max_request_headers = 32

abbrev pub max_request_header_bytes : ℕ
max_request_header_bytes = 32 * 1024

abbrev pub max_request_header_name_bytes : ℕ
max_request_header_name_bytes = 128

abbrev pub max_request_header_value_bytes : ℕ
max_request_header_value_bytes = 8 * 1024

abbrev pub max_request_url_bytes : ℕ
max_request_url_bytes = 8 * 1024

abbrev pub max_request_method_bytes : ℕ
max_request_method_bytes = 32

-- `is_enabled`, of the value of SV_ENABLE_BROKER.
unfoldable pub is_enabled : Option Text → Bool
is_enabled none = false
is_enabled (some value) =
    any (text_eq value) (codes "1" ∷ codes "true" ∷ codes "TRUE" ∷ codes "yes" ∷ codes "on" ∷ [])
