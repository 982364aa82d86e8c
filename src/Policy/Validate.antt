-- ===== src/Policy/Validate.antt =====
-- crates/sv-runtime/src/policy/validate.rs: the rules that a parsed document has to meet.
-- Sets (`BTreeSet`) are only asked for membership, and are lists.
pub mod Checks
pub mod WellFormed
pub mod Accepts
pub mod Hosts
use sovereign_vault.Common.{
  ℕ, Bool, true, false, ◌&&◌, ◌||◌, not, Option, none, some, List, [], ◌∷◌, map, Text, codes, ltb,
  leb, ◌==◌, any, all, text_eq, contains, has_prefix, if◌then◌else◌, ◌++◌,
}
use mathlib.Core.Bool.{decide}
use sovereign_vault.Runtime.Error.{
  Result, ok, err, ◌>>=◌, ◌>>◌, refuse_if, invalid_structure, route_denied,
}
use sovereign_vault.Runtime.Types.{RuleExposure}
use sovereign_vault.Policy.Document.{
  allow, deny, AccessEffect, RuleMatch, RuleMatch-discrete, RuleDocument, LimitsDocument,
  PolicyDocument, ProviderRouteDocument, ProcessProfileDocument,
}

pub data ValidationWarning : Type 0 where
  unreachable_allow : Text → ValidationWarning
  ambiguous_route : Text → ValidationWarning

-- `ensure_unique`: the loop with the set of the ids seen so far.
unfoldable pub ensure_unique : List Text → List Text → Result (Unit {0})
unfolding contains
ensure_unique seen [] = ok tt
ensure_unique seen (id ∷ ids) =
    let rest = ensure_unique (id ∷ seen) ids in
    if contains seen id then err invalid_structure else rest

unfoldable pub check_unique_ids : PolicyDocument → Result (Unit {0})
unfolding ensure_unique
check_unique_ids doc = do
  ensure_unique [] (map (λ r. r.id) doc.rule)
  ensure_unique [] (map (λ r. r.id) doc.reference_class)
  ensure_unique [] (map (λ r. r.id) doc.provider_route)
  ensure_unique [] (map (λ r. r.id) doc.mcp_server)
  ensure_unique [] (map (λ r. r.id) doc.process_profile)

-- A loop whose body may return an error.
unfoldable pub for_each {ℓ} : {A : Type ℓ} → List A → (A → Result (Unit {0})) → Result (Unit {0})
for_each [] body = ok tt
for_each (x ∷ xs) body = do body x; for_each xs body

abbrev pub if_some {ℓ} : {A : Type ℓ} → Option A → (A → Result (Unit {0})) → Result (Unit {0})
if_some none body = ok tt
if_some (some a) body = body a

unfoldable pub check_routes : PolicyDocument → Result (Unit {0})
unfolding for_each contains
check_routes doc =
    let routes = map (λ r. r.id) doc.provider_route in
    for_each doc.rule λ rule.
      if_some rule.effect.route λ route_id. refuse_if (not (contains routes route_id)) route_denied

unfoldable pub check_references : PolicyDocument → Result (Unit {0})
unfolding for_each contains
check_references doc =
    let mcps = map (λ m. m.id) doc.mcp_server in
    let profiles = map (λ p. p.id) doc.process_profile in
    for_each doc.rule λ rule. do
      if_some rule.match_.mcp_server_ids
          λ ids. for_each ids λ id. refuse_if (not (contains mcps id)) invalid_structure
      if_some rule.match_.process_profile_ids
          λ ids. for_each ids λ id. refuse_if (not (contains profiles id)) invalid_structure

-- `s.strip_prefix(p)`.
unfoldable pub strip_prefix : Text → Text → Option Text
strip_prefix [] s = some s
strip_prefix (p ∷ ps) [] = none
strip_prefix (p ∷ ps) (c ∷ s) = let rest = strip_prefix ps s in if p == c then rest else none

-- `s.split(c).next()`: the text before the first `c`.
unfoldable pub before_first : ℕ → Text → Text
before_first d [] = []
before_first d (c ∷ s) = if c == d then [] else c ∷ before_first d s

-- `s.rsplit(c).next()`: the text behind the last `c`, or all of it.
unfoldable pub after_last : ℕ → Text → Text
after_last d [] = []
after_last d (c ∷ s) =
    let rest = after_last d s in if any (λ x. x == d) s then rest else if c == d then s else c ∷ s

abbrev pub https : Text
https = codes "https://"

unfoldable pub host_of : Text → Result Text
unfolding strip_prefix before_first after_last
host_of url = elim (strip_prefix https url) [
  | none ↦ err invalid_structure
  | some rest ↦
      let authority = before_first b'/' rest in
      let host_port = after_last b'@' authority in ok (after_last b':' host_port)
]

abbrev pub is_empty : Text → Bool
is_empty [] = true
is_empty (c ∷ s) = false

unfoldable pub check_urls : PolicyDocument → Result (Unit {0})
unfolding for_each host_of has_prefix
check_urls doc = for_each doc.provider_route λ route. do
  host ← host_of route.base_url
  refuse_if (not (has_prefix https route.base_url) || is_empty host || any (λ c. c == b'*') host)
      invalid_structure

abbrev pub forbidden : List Text
forbidden = codes "transit_key" ∷ codes "signing_key" ∷ codes "provider_credential" ∷ []

abbrev pub is_raw : Option RuleExposure → Bool
is_raw (some RuleExposure.raw) = true
is_raw _ = false

unfoldable pub check_exposure : PolicyDocument → Result (Unit {0})
unfolding for_each contains
check_exposure doc = for_each doc.rule λ rule.
    if is_raw rule.effect.exposure
    then (if_some rule.match_.resource_kinds
        λ kinds. refuse_if (any (contains forbidden) kinds) invalid_structure)
    else ok tt

unfoldable pub check_limits : LimitsDocument → Result (Unit {0})
check_limits limits =
    refuse_if
      (limits.request_bytes == 0
        || limits.fragment_bytes == 0
        || limits.response_bytes == 0
        || limits.concurrent_requests_per_principal == 0
        || limits.request_timeout_ms == 0
        || limits.consent_timeout_ms == 0
        || limits.stream_boundary_bytes == 0)
      invalid_structure

abbrev is_ascii_alphabetic : ℕ → Bool
is_ascii_alphabetic c = (leb b'A' c && leb c b'Z') || (leb b'a' c && leb c b'z')

-- A drive letter, a colon, and a slash either way (92 is the backslash).
unfoldable pub is_drive_absolute : Text → Bool
is_drive_absolute (c ∷ d ∷ e ∷ s) = is_ascii_alphabetic c && d == b':' && (e == b'/' || e == 92)
is_drive_absolute _ = false

-- `"&|;`$><\n\r".contains(c)`.
unfoldable pub is_shell_character : ℕ → Bool
is_shell_character c =
    c == b'&'
    || c == b'|'
    || c == b';'
    || c == 96
    || c == b'$'
    || c == b'>'
    || c == b'<'
    || c == 10
    || c == 13

unfoldable pub check_executables : PolicyDocument → Result (Unit {0})
unfolding for_each has_prefix is_drive_absolute is_shell_character
check_executables doc = for_each doc.process_profile λ profile.
    let absolute =
      has_prefix (codes "/") profile.executable || is_drive_absolute profile.executable in
    refuse_if (not absolute || any is_shell_character profile.executable) invalid_structure

abbrev pub same_match : RuleDocument → RuleDocument → Bool
same_match a b = decide (RuleMatch-discrete a.match_ b.match_)

abbrev pub is_allow : AccessEffect → Bool
is_allow allow = true
is_allow deny = false

abbrev pub same_route : Option Text → Option Text → Bool
same_route none none = true
same_route (some a) (some b) = text_eq a b
same_route _ _ = false

-- The first loop of `check_warnings`: an allow rule behind a deny rule with an equal match.
unfoldable pub unreachable_allows : List RuleDocument → List RuleDocument → List ValidationWarning
unreachable_allows earlier [] = []
unreachable_allows earlier (rule ∷ rules) =
    (if is_allow rule.effect.access
        && any (λ e. not (is_allow e.effect.access) && same_match e rule) earlier
      then unreachable_allow rule.id ∷ []
      else [])
    ++ unreachable_allows (earlier ++ rule ∷ []) rules

-- The second loop: an equal match with another route.
unfoldable pub ambiguous_routes : List RuleDocument → List RuleDocument → List ValidationWarning
ambiguous_routes earlier [] = []
ambiguous_routes earlier (rule ∷ rules) =
    (if any (λ e. same_match rule e && not (same_route rule.effect.route e.effect.route)) earlier
      then ambiguous_route rule.id ∷ []
      else [])
    ++ ambiguous_routes (earlier ++ rule ∷ []) rules

unfoldable pub check_warnings : PolicyDocument → List ValidationWarning
unfolding unreachable_allows ambiguous_routes
check_warnings doc = unreachable_allows [] doc.rule ++ ambiguous_routes [] doc.rule

unfoldable pub check : PolicyDocument → Result (List ValidationWarning)
check doc = do
  check_unique_ids doc
  check_routes doc
  check_references doc
  check_urls doc
  check_exposure doc
  check_limits doc.limits
  check_executables doc
  ok (check_warnings doc)
