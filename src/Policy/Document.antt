-- ===== src/Policy/Document.antt =====
-- crates/sv-runtime/src/policy/document.rs: the policy document and its parser's own checks.
-- `u32` and `u64` fields are numbers; the TOML reader, a library, is the parameter of `parse`.
use native.Mathlib.Decide.{ℕ_discrete}
use sovereign_vault.Common.{ℕ, Bool, not, ◌==◌, Option, none, some, List, Text, codes, text_eq}
use sovereign_vault.Common.Int.{ℤ}
use sovereign_vault.Runtime.Error.{Result, ok, err, invalid_structure, ◌>>◌, refuse_if}
use sovereign_vault.Runtime.Types.{ExposureClass, RuleExposure, ConsentMode}

pub data AccessEffect : Type 0 where
  allow deny : AccessEffect

pub data AuditRequirement : Type 0 where
  required : AuditRequirement

pub record TimeWindowDocument : Type 0 where
  pub start : Text
  pub end : Text
  pub days : List Text

-- The selector: an absent constraint matches anything.
pub record RuleMatch : Type 0 where
  pub principal_ids : Option (List Text)
  pub principal_kinds : Option (List Text)
  pub adapter_ids : Option (List Text)
  pub transports : Option (List Text)
  pub operations : Option (List Text)
  pub origin_kinds : Option (List Text)
  pub destination_kinds : Option (List Text)
  pub destination_ids : Option (List Text)
  pub host_globs : Option (List Text)
  pub path_prefixes : Option (List Text)
  pub methods : Option (List Text)
  pub provider_ids : Option (List Text)
  pub model_globs : Option (List Text)
  pub mcp_server_ids : Option (List Text)
  pub mcp_tool_globs : Option (List Text)
  pub process_profile_ids : Option (List Text)
  pub container_globs : Option (List Text)
  pub resource_kinds : Option (List Text)
  pub exposure_classes : Option (List Text)
  pub media_types : Option (List Text)
  pub fragment_roles : Option (List Text)
  pub labels_all : Option (List Text)
  pub labels_any : Option (List Text)
  pub labels_none : Option (List Text)
  pub classification_states : Option (List Text)
  pub min_auth_strength : Option Text
  pub session_max_age_seconds : Option ℕ
  pub time_window : Option TimeWindowDocument

pub record RuleEffect : Type 0 where
  pub access : AccessEffect
  pub exposure : Option RuleExposure
  pub consent : Option ConsentMode
  pub audit : AuditRequirement
  pub route : Option Text
  pub max_uses : Option ℕ
  pub ttl_seconds : Option ℕ

-- `match` is a keyword of the source too; `priority` is an `i64`.
pub record RuleDocument : Type 0 where
  pub id : Text
  pub priority : ℤ
  pub match_ : RuleMatch
  pub effect : RuleEffect

pub record LimitsDocument : Type 0 where
  pub request_bytes : ℕ
  pub fragment_bytes : ℕ
  pub response_bytes : ℕ
  pub concurrent_requests_per_principal : ℕ
  pub request_timeout_ms : ℕ
  pub consent_timeout_ms : ℕ
  pub stream_boundary_bytes : ℕ

pub record ReferenceClassDocument : Type 0 where
  pub id : Text
  pub exposure : ExposureClass
  pub allowed_operations : List Text
  pub default_ttl_seconds : ℕ
  pub max_ttl_seconds : Option ℕ
  pub max_uses : Option ℕ
  pub durable : Bool

pub record ProviderRouteDocument : Type 0 where
  pub id : Text
  pub protocol : Text
  pub base_url : Text
  pub credential_ref : Text
  pub allowed_models : List Text
  pub allowed_methods : List Text
  pub allowed_path_prefixes : List Text
  pub follow_redirects : Bool
  pub request_timeout_ms : ℕ
  pub max_response_bytes : ℕ

pub record McpServerDocument : Type 0 where
  pub id : Text
  pub transport : Text
  pub command : Option Text
  pub args : Option (List Text)
  pub allowed_tools : List Text
  pub denied_tools : List Text
  pub environment_allowlist : List Text
  pub result_policy : Text
  pub require_schema_approval : Bool

pub record ProcessSecretDocument : Type 0 where
  pub parameter : Text
  pub vault_ref : Text
  pub injection : Text
  pub field : Option Text

pub record ProcessProfileDocument : Type 0 where
  pub id : Text
  pub executable : Text
  pub executable_sha256 : Option Text
  pub working_directory_roots : List Text
  pub argument_schema : Option Text
  pub fixed_args : List Text
  pub network_hosts : List Text
  pub allow_children : Bool
  pub timeout_ms : ℕ
  pub max_stdout_bytes : ℕ
  pub max_stderr_bytes : ℕ
  pub secret : List ProcessSecretDocument

pub record PolicyDocument : Type 0 where
  pub schema : ℕ
  pub default_effect : Text
  pub policy_id : Text
  pub limits : LimitsDocument
  pub rule : List RuleDocument
  pub reference_class : List ReferenceClassDocument
  pub provider_route : List ProviderRouteDocument
  pub mcp_server : List McpServerDocument
  pub process_profile : List ProcessProfileDocument

-- The derived `PartialEq` of the selector.
unfoldable pub RuleMatch-discrete : Discrete RuleMatch
RuleMatch-discrete = hlevel ℕ_discrete

-- `parse`: `toml::from_str` reads the document, and the schema and the default are checked.
unfoldable pub parse : (Text → Option PolicyDocument) → Text → Result PolicyDocument
parse from_str input = elim (from_str input) [
  | none ↦ err invalid_structure
  | some document ↦ do
    refuse_if (not (document.schema == 1)) invalid_structure
    refuse_if (not (text_eq document.default_effect (codes "deny"))) invalid_structure
    ok document
]
