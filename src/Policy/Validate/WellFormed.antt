-- ===== src/Policy/Validate/WellFormed.antt =====
-- The documents that `check` of crates/sv-runtime/src/policy/validate.rs accepts, described
-- without its loops.
use sovereign_vault.Common.{
  ◌<◌, ◌≡◌, true, false, ◌||◌, List, map, Text, codes, any, All, contains, Distinct, has_prefix,
  ◌==◌,
}
use sovereign_vault.Runtime.Error.{ok}
use sovereign_vault.Policy.Document.{
  RuleDocument, LimitsDocument, PolicyDocument, ProviderRouteDocument, ProcessProfileDocument,
}
use sovereign_vault.Policy.Validate.{
  forbidden, is_raw, host_of, https, is_empty, is_drive_absolute, is_shell_character,
}
use sovereign_vault.Policy.Validate.Checks.{WhenSome}

abbrev pub route_ids : PolicyDocument → List Text
route_ids doc = map (λ r. r.id) doc.provider_route

abbrev pub server_ids : PolicyDocument → List Text
server_ids doc = map (λ m. m.id) doc.mcp_server

abbrev pub profile_ids : PolicyDocument → List Text
profile_ids doc = map (λ p. p.id) doc.process_profile

-- No table of the document names two entries alike.
abbrev pub UniqueIds : PolicyDocument → Type 0
UniqueIds doc =
    Distinct (map (λ r. r.id) doc.rule)
    × Distinct (map (λ r. r.id) doc.reference_class)
    × Distinct (route_ids doc)
    × Distinct (server_ids doc)
    × Distinct (profile_ids doc)

-- A rule's route is registered, and so are the servers and profiles it names.
abbrev pub RouteKnown : PolicyDocument → RuleDocument → Type 0
RouteKnown doc rule = WhenSome (λ t. contains (route_ids doc) t ≡ true) rule.effect.route

abbrev pub ReferencesKnown : PolicyDocument → RuleDocument → Type 0
ReferencesKnown doc rule =
    WhenSome (All (λ t. contains (server_ids doc) t ≡ true)) rule.match_.mcp_server_ids
    × WhenSome (All (λ t. contains (profile_ids doc) t ≡ true)) rule.match_.process_profile_ids

-- A rule that releases raw bytes names none of the forbidden kinds.
abbrev pub RawAllowed : RuleDocument → Type 0
RawAllowed rule =
    is_raw rule.effect.exposure ≡ true
    → WhenSome (λ kinds. any (contains forbidden) kinds ≡ false) rule.match_.resource_kinds

abbrev pub Positive : LimitsDocument → Type 0
Positive l =
    (0 < l.request_bytes)
    × (0 < l.fragment_bytes)
    × (0 < l.response_bytes)
    × (0 < l.concurrent_requests_per_principal)
    × (0 < l.request_timeout_ms)
    × (0 < l.consent_timeout_ms)
    × (0 < l.stream_boundary_bytes)

abbrev pub UrlChecked : ProviderRouteDocument → Type 0
UrlChecked route =
    (host : Text) × (host_of route.base_url ≡ ok host)
    × (has_prefix https route.base_url ≡ true)
    × (is_empty host ≡ false)
    × (any (λ c. c == b'*') host ≡ false)

abbrev pub ExecutableChecked : ProcessProfileDocument → Type 0
ExecutableChecked profile =
    ((has_prefix (codes "/") profile.executable || is_drive_absolute profile.executable) ≡ true)
    × (any is_shell_character profile.executable ≡ false)

pub record WellFormed (doc : PolicyDocument) : Type 0 where
  pub unique : UniqueIds doc
  pub routes : All (RouteKnown doc) doc.rule
  pub references : All (ReferencesKnown doc) doc.rule
  pub urls : All UrlChecked doc.provider_route
  pub exposure : All RawAllowed doc.rule
  pub limits : Positive doc.limits
  pub executables : All ExecutableChecked doc.process_profile
