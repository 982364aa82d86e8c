-- ===== src/Policy/Selector.antt =====
-- crates/sv-runtime/src/policy/evaluator.rs: the facts of a request, and which rules they match.
-- The sets of a request (`BTreeSet`) are lists.
pub mod Unread
use sovereign_vault.Common.{
  ℕ, Bool, true, false, ◌&&◌, ◌||◌, not, Option, none, some, List, [], ◌∷◌, ◌++◌, Text, codes, ltb,
  any, all, text_eq, text_le, contains, has_prefix, if◌then◌else◌,
}
use sovereign_vault.Common.Int.{leb_ℤ}
use sovereign_vault.Common.Sort.{sort_by}
use sovereign_vault.Runtime.Error.{
  Result, ok, err, ◌>>=◌, ◌>>◌, refuse_if, limit_exceeded, policy_denied, route_denied,
}
use sovereign_vault.Runtime.Types.{
  PrincipalKind, client, adapter, mcp_server, process_profile, TransportKind, stdio, http,
  web_socket, in_process, ExposureClass, transformed, ConsentMode, approval, EffectiveLimits,
  join_exposure, join_consent, class,
}
use sovereign_vault.Policy.Glob.{matches}
use sovereign_vault.Policy.Document.{
  AccessEffect, allow, deny, RuleMatch, RuleEffect, RuleDocument, LimitsDocument, PolicyDocument,
}

pub data ClassificationState : Type 0 where
  low elevated unknown : ClassificationState

pub record EvaluationFacts : Type 0 where
  pub principal_id : Option Text
  pub principal_kind : Option PrincipalKind
  pub adapter_id : Option Text
  pub transport : Option TransportKind
  pub operation : Option Text
  pub origin_kind : Option Text
  pub destination_kind : Option Text
  pub destination_id : Option Text
  pub host : Option Text
  pub path : Option Text
  pub method : Option Text
  pub mcp_server_id : Option Text
  pub mcp_tool : Option Text
  pub process_profile_id : Option Text
  pub resource_kinds : List Text
  pub labels : List Text
  pub classification : ClassificationState
  pub resource_exposure_floor : ExposureClass
  pub request_bytes : ℕ
  pub largest_fragment_bytes : ℕ

unfoldable pub principal_kind_name : PrincipalKind → Text
principal_kind_name client = codes "client"
principal_kind_name adapter = codes "adapter"
principal_kind_name mcp_server = codes "mcp_server"
principal_kind_name process_profile = codes "process_profile"

unfoldable pub transport_name : TransportKind → Text
transport_name stdio = codes "stdio"
transport_name http = codes "http"
transport_name web_socket = codes "websocket"
transport_name in_process = codes "in_process"

unfoldable pub classification_name : ClassificationState → Text
classification_name low = codes "low"
classification_name elevated = codes "elevated"
classification_name unknown = codes "unknown"

-- `actual.is_some_and(test)`.
abbrev pub is_some_and {ℓ} : {A : Type ℓ} → Option A → (A → Bool) → Bool
is_some_and none test = false
is_some_and (some a) test = test a

-- A constraint that is absent holds; a present one is tested.
abbrev pub constrained : Option (List Text) → (List Text → Bool) → Bool
constrained none test = true
constrained (some values) test = test values

unfoldable pub opt_in : Option (List Text) → Option Text → Bool
unfolding contains
opt_in constraint actual =
    constrained constraint λ allowed. is_some_and actual λ value. contains allowed value

unfoldable pub opt_glob : Option (List Text) → Option Text → Bool
opt_glob constraint actual =
    constrained constraint
      λ patterns. is_some_and actual λ value. any (λ p. matches p value) patterns

unfoldable pub label_hit : EvaluationFacts → Text → Bool
label_hit facts pattern = any (λ label. matches pattern label) facts.labels

-- The guards of `rule_matches` in their order; a guard that fails returns false.
unfoldable pub rule_matches : RuleMatch → EvaluationFacts → Bool
unfolding opt_in opt_glob label_hit principal_kind_name transport_name classification_name contains
rule_matches selector facts =
    opt_in selector.principal_ids facts.principal_id
    && (constrained selector.principal_kinds
        λ kinds. is_some_and facts.principal_kind λ k. contains kinds (principal_kind_name k))
    && opt_in selector.adapter_ids facts.adapter_id
    && (constrained selector.transports
        λ transports. is_some_and facts.transport λ t. contains transports (transport_name t))
    && opt_in selector.operations facts.operation
    && opt_in selector.origin_kinds facts.origin_kind
    && opt_in selector.destination_kinds facts.destination_kind
    && opt_in selector.destination_ids facts.destination_id
    && opt_glob selector.host_globs facts.host
    && (constrained selector.path_prefixes
        λ prefixes. is_some_and facts.path λ path. any (λ prefix. has_prefix prefix path) prefixes)
    && opt_in selector.methods facts.method
    && opt_in selector.mcp_server_ids facts.mcp_server_id
    && opt_glob selector.mcp_tool_globs facts.mcp_tool
    && opt_in selector.process_profile_ids facts.process_profile_id
    && constrained selector.resource_kinds (any (λ kind. contains facts.resource_kinds kind))
    && constrained selector.labels_all (all (label_hit facts))
    && constrained selector.labels_any (any (label_hit facts))
    && (constrained selector.labels_none λ patterns. not (any (label_hit facts) patterns))
    && (constrained selector.classification_states
        λ states. contains states (classification_name facts.classification))
