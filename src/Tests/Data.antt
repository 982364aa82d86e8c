-- ===== src/Tests/Data.antt =====
-- A small policy and a request, for the tests of crates/sv-runtime/src/policy.
use sovereign_vault.Common.{ℕ, false, Option, none, some, List, [], ◌∷◌, Text, codes}
use sovereign_vault.Common.Int.{pos}
use sovereign_vault.Runtime.Types.{ExposureClass, RuleExposure, ConsentMode, approval, redact}
use sovereign_vault.Policy.Document.{
  AccessEffect, allow, deny, required, RuleMatch, RuleEffect, RuleDocument, LimitsDocument,
  ProviderRouteDocument, PolicyDocument,
}
use sovereign_vault.Policy.Selector.{EvaluationFacts, elevated}
use sovereign_vault.Policy.Snapshot.{PolicySnapshot}

abbrev pub match_all : RuleMatch
match_all = record {
  principal_ids = none;
  principal_kinds = none;
  adapter_ids = none;
  transports = none;
  operations = none;
  origin_kinds = none;
  destination_kinds = none;
  destination_ids = none;
  host_globs = none;
  path_prefixes = none;
  methods = none;
  provider_ids = none;
  model_globs = none;
  mcp_server_ids = none;
  mcp_tool_globs = none;
  process_profile_ids = none;
  container_globs = none;
  resource_kinds = none;
  exposure_classes = none;
  media_types = none;
  fragment_roles = none;
  labels_all = none;
  labels_any = none;
  labels_none = none;
  classification_states = none;
  min_auth_strength = none;
  session_max_age_seconds = none;
  time_window = none;
}

abbrev pub effect_of : AccessEffect → Option RuleExposure → Option ConsentMode → RuleEffect
effect_of access exposure consent = record {
  access = access;
  exposure = exposure;
  consent = consent;
  audit = required;
  route = some (codes "main");
  max_uses = none;
  ttl_seconds = none;
}

abbrev pub rule_of : Text → ℕ → RuleMatch → RuleEffect → RuleDocument
rule_of id priority match_ effect = record {
  id = id;
  priority = pos priority;
  match_ = match_;
  effect = effect;
}

-- Requests to the API host are redacted, everything asks for approval, labelled requests are denied.
abbrev pub redacts : RuleDocument
redacts =
    rule_of (codes "redacts") 5 (record match_all { host_globs = some (codes "api.*" ∷ []) })
      (effect_of allow (some redact) none)

abbrev pub asks : RuleDocument
asks = rule_of (codes "asks") 9 match_all (effect_of allow none (some approval))

abbrev pub denies_secrets : RuleDocument
denies_secrets =
    rule_of (codes "denies") 1 (record match_all { labels_any = some (codes "secret" ∷ []) })
      (effect_of deny none none)

abbrev pub limits : LimitsDocument
limits = record {
  request_bytes = 100;
  fragment_bytes = 50;
  response_bytes = 100;
  concurrent_requests_per_principal = 2;
  request_timeout_ms = 10;
  consent_timeout_ms = 10;
  stream_boundary_bytes = 8;
}

abbrev pub main_route : ProviderRouteDocument
main_route = record {
  id = codes "main";
  protocol = codes "openai";
  base_url = codes "https://a.b/";
  credential_ref = codes "key";
  allowed_models = [];
  allowed_methods = [];
  allowed_path_prefixes = [];
  follow_redirects = false;
  request_timeout_ms = 10;
  max_response_bytes = 100;
}

abbrev pub document_of : List RuleDocument → PolicyDocument
document_of rules = record {
  schema = 1;
  default_effect = codes "deny";
  policy_id = codes "p";
  limits = limits;
  rule = rules;
  reference_class = [];
  provider_route = main_route ∷ [];
  mcp_server = [];
  process_profile = [];
}

abbrev pub snapshot_of : List RuleDocument → PolicySnapshot
snapshot_of rules = record {
  document = document_of rules;
  version = 1;
  digest = 7 ∷ [];
  warnings = [];
}

abbrev pub policy : PolicySnapshot
policy = snapshot_of (redacts ∷ asks ∷ denies_secrets ∷ [])

abbrev pub reordered : PolicySnapshot
reordered = snapshot_of (denies_secrets ∷ redacts ∷ asks ∷ [])

abbrev pub smaller : PolicySnapshot
smaller = snapshot_of (redacts ∷ [])

-- A request to `api.x` that the classifier found reason to watch.
abbrev pub request : EvaluationFacts
request = record {
  principal_id = none;
  principal_kind = none;
  adapter_id = none;
  transport = none;
  operation = none;
  origin_kind = none;
  destination_kind = none;
  destination_id = none;
  host = some (codes "api.x");
  path = none;
  method = none;
  mcp_server_id = none;
  mcp_tool = none;
  process_profile_id = none;
  resource_kinds = [];
  labels = [];
  classification = elevated;
  resource_exposure_floor = ExposureClass.raw;
  request_bytes = 60;
  largest_fragment_bytes = 40;
}

abbrev pub secret_request : EvaluationFacts
secret_request = record request { labels = codes "secret" ∷ [] }
