-- ===== src/Policy/Validate/Accepts.antt =====
-- `check` of crates/sv-runtime/src/policy/validate.rs against the description of its documents.
use sovereign_vault.Common.{
  ◌≡◌, refl, subst, false≢true, ◌↔◌, ◌⊎◌, inl, inr, Bool, true, false, ◌||◌, not, Option, none,
  some, List, [], map, Text, any, All, All-iff, iff_trans, both_iff, contains, Bool-cases,
  if◌then◌else◌, arith, has_prefix, ◌==◌,
}
use sovereign_vault.Runtime.Error.{
  Result, ok, err, RuntimeError, ◌>>=◌, refuse_if, invalid_structure, route_denied,
}
use sovereign_vault.Policy.Document.{
  RuleDocument, LimitsDocument, PolicyDocument, ProviderRouteDocument,
}
use sovereign_vault.Policy.Validate.{
  ValidationWarning, ensure_unique, check_unique_ids, if_some, check_routes, check_references,
  check_exposure, check_limits, check_urls, check_executables, check_warnings, check, forbidden,
  is_raw, host_of, https, is_empty,
}
use sovereign_vault.Policy.Validate.Checks.{
  for_each_iff, refuse_if_iff, seq_iff, ensure_unique_iff, if_some_iff, WhenSome,
}
use sovereign_vault.Policy.Validate.WellFormed.{
  route_ids, server_ids, profile_ids, UniqueIds, RouteKnown, ReferencesKnown, RawAllowed, Positive,
  UrlChecked, ExecutableChecked, WellFormed,
}

Result-cases : (r : Result Text) → ((h : Text) × (r ≡ ok h)) ⊎ ((e : RuntimeError) × (r ≡ err e))
Result-cases (ok h) = inl (h, refl)
Result-cases (err e) = inr (e, refl)

known_iff : (b : Bool) (e : RuntimeError) → (refuse_if (not b) e ≡ ok tt) ↔ (b ≡ true)
known_iff b e = ground arith

WhenSome-iff {ℓ} :
    {A : Type ℓ} (P Q : A → Type 0)
    → ((a : A) → P a ↔ Q a)
    → (o : Option A) → WhenSome P o ↔ WhenSome Q o
WhenSome-iff P Q e none = (λ h. tt, λ h. tt)
WhenSome-iff P Q e (some a) = e a

unique_iff : (doc : PolicyDocument) → (check_unique_ids doc ≡ ok tt) ↔ UniqueIds doc
unfolding check_unique_ids
unique_iff doc =
    let rules = ensure_unique_iff (map (λ r. r.id) doc.rule) in
    let classes = ensure_unique_iff (map (λ r. r.id) doc.reference_class) in
    let routes = ensure_unique_iff (route_ids doc) in
    let servers = ensure_unique_iff (server_ids doc) in
    let profiles = ensure_unique_iff (profile_ids doc) in
    (
      λ h.
          let (a, h1) = (seq_iff (ensure_unique [] (map (λ r. r.id) doc.rule)) _).0 h in
          let (b, h2) = (seq_iff (ensure_unique [] (map (λ r. r.id) doc.reference_class)) _).0 h1 in
          let (c, h3) = (seq_iff (ensure_unique [] (route_ids doc)) _).0 h2 in
          let (d, e) = (seq_iff (ensure_unique [] (server_ids doc)) _).0 h3 in
          (rules.0 a, classes.0 b, routes.0 c, servers.0 d, profiles.0 e),
      λ (a, b, c, d, e). rw (rules.1 a, classes.1 b, routes.1 c, servers.1 d, profiles.1 e),
    )

routes_iff : (doc : PolicyDocument) → (check_routes doc ≡ ok tt) ↔ All (RouteKnown doc) doc.rule
unfolding check_routes
routes_iff doc =
    let known = contains (route_ids doc) in
    iff_trans (for_each_iff doc.rule _) (
      All-iff _ (RouteKnown doc)
        (λ rule.
          iff_trans (if_some_iff rule.effect.route _)
            (WhenSome-iff _ _ (λ t. known_iff (known t) route_denied) rule.effect.route))
        doc.rule)

references_iff :
    (doc : PolicyDocument) → (check_references doc ≡ ok tt) ↔ All (ReferencesKnown doc) doc.rule
unfolding check_references
references_iff doc =
    let known = λ (ids : List Text) (t : Text). known_iff (contains ids t) invalid_structure in
    let listed = λ (ids : List Text) (o : Option (List Text)). iff_trans (if_some_iff o _) (
      WhenSome-iff _ (All (λ t. contains ids t ≡ true))
        (λ ts. iff_trans (for_each_iff ts _) (All-iff _ _ (known ids) ts)) o) in
    iff_trans (for_each_iff doc.rule _) (
      All-iff _ (ReferencesKnown doc)
        (λ rule. iff_trans (seq_iff _ _) (
          both_iff (listed (server_ids doc) rule.match_.mcp_server_ids)
            (listed (profile_ids doc) rule.match_.process_profile_ids)))
        doc.rule)

exposure_iff : (doc : PolicyDocument) → (check_exposure doc ≡ ok tt) ↔ All RawAllowed doc.rule
unfolding check_exposure
exposure_iff doc = iff_trans (for_each_iff doc.rule _) (All-iff _ RawAllowed raw doc.rule)
  where
    raw :
        (rule : RuleDocument)
        → ((if is_raw rule.effect.exposure
              then (if_some rule.match_.resource_kinds
                  λ kinds. refuse_if (any (contains forbidden) kinds) invalid_structure)
              else ok tt)
            ≡ ok tt)
          ↔ RawAllowed rule
    raw rule =
        let kinds = iff_trans (if_some_iff rule.match_.resource_kinds _) (
          WhenSome-iff _ (λ ks. any (contains forbidden) ks ≡ false)
            (λ ks. refuse_if_iff (any (contains forbidden) ks) invalid_structure)
            rule.match_.resource_kinds) in
        elim (Bool-cases (is_raw rule.effect.exposure)) [
          | inl y ↦ rw y (λ h _. kinds.0 h, λ h. kinds.1 (h refl))
          | inr n ↦ rw n (λ h k. absurd (false≢true k), λ h. refl)
        ]

executables_iff :
    (doc : PolicyDocument)
    → (check_executables doc ≡ ok tt) ↔ All ExecutableChecked doc.process_profile
unfolding check_executables
executables_iff doc =
    iff_trans (for_each_iff doc.process_profile _)
      (All-iff _ ExecutableChecked (λ profile. ground arith) doc.process_profile)

abbrev url_refused : Text → Text → Bool
url_refused base_url host =
    not (has_prefix https base_url) || is_empty host || any (λ c. c == b'*') host

url_parts :
    (base_url host : Text)
    → (url_refused base_url host ≡ false) ↔ (
        (has_prefix https base_url ≡ true)
        × (is_empty host ≡ false)
        × (any (λ c. c == b'*') host ≡ false))
url_parts base_url host = ground arith

ok_inj : (x h : Text) → ok h ≡ ok x → x ≡ h
ok_inj x h e = cc

urls_iff : (doc : PolicyDocument) → (check_urls doc ≡ ok tt) ↔ All UrlChecked doc.provider_route
unfolding check_urls
urls_iff doc =
    iff_trans (for_each_iff doc.provider_route _) (All-iff _ UrlChecked url doc.provider_route)
  where
    url :
        (route : ProviderRouteDocument)
        → ((host_of route.base_url >>= λ host.
              refuse_if
                (not (has_prefix https route.base_url)
                  || is_empty host
                  || any (λ c. c == b'*') host)
                invalid_structure)
            ≡ ok tt)
          ↔ UrlChecked route
    url route = elim (Result-cases (host_of route.base_url)) [
      | inl (h, e) ↦
          let tested = refuse_if_iff (url_refused route.base_url h) invalid_structure in
          let parts = url_parts route.base_url h in
          rw e (
            λ r. let (a, b, c) = parts.0 (tested.0 r) in (h, refl, a, b, c),
            λ (x, f, a, b, c). tested.1 (
                parts.1 (
                  a,
                  subst (λ y. is_empty y ≡ false) (ok_inj x h f) b,
                  subst (λ y. any (λ c. c == b'*') y ≡ false) (ok_inj x h f) c,
                )),
          )
      | inr (x, e) ↦ rw e (λ r. cc, λ (y, f, _, _, _). cc)
    ]

limits_iff : (l : LimitsDocument) → (check_limits l ≡ ok tt) ↔ Positive l
unfolding check_limits
limits_iff l = ground arith

-- `check` accepts exactly the well-formed documents.
pub check_iff :
    (doc : PolicyDocument)
    → ((warnings : List ValidationWarning) × (check doc ≡ ok warnings)) ↔ WellFormed doc
unfolding check
check_iff doc = (λ (ws, h). to ws h, from)
  where
    to : (ws : List ValidationWarning) → check doc ≡ ok ws → WellFormed doc
    to ws h = record {
      unique = (unique_iff doc).0 (ground arith);
      routes = (routes_iff doc).0 (ground arith);
      references = (references_iff doc).0 (ground arith);
      urls = (urls_iff doc).0 (ground arith);
      exposure = (exposure_iff doc).0 (ground arith);
      limits = (limits_iff doc.limits).0 (ground arith);
      executables = (executables_iff doc).0 (ground arith);
    }

    from : WellFormed doc → (ws : List ValidationWarning) × (check doc ≡ ok ws)
    from w = (
      check_warnings doc,
      rw (
        (unique_iff doc).1 w.unique,
        (routes_iff doc).1 w.routes,
        (references_iff doc).1 w.references,
        (urls_iff doc).1 w.urls,
        (exposure_iff doc).1 w.exposure,
        (limits_iff doc.limits).1 w.limits,
        (executables_iff doc).1 w.executables,
      ),
    )
