-- ===== src/Policy/Snapshot/Laws.antt =====
-- What a validated snapshot (crates/sv-runtime/src/policy/snapshot.rs) gives to the decisions made
-- against it.
use sovereign_vault.Common.{
  ℕ, ◌≡◌, sym, ap, ◌∙◌, subst, refl, true, Option, none, some, List, Memᴰ, Text, All, contains,
}
use sovereign_vault.Runtime.Error.{ok, bind-ok}
use sovereign_vault.Policy.Document.{PolicyDocument, RuleDocument}
use sovereign_vault.Policy.Validate.{check}
use sovereign_vault.Policy.Validate.Checks.{WhenSome}
use sovereign_vault.Policy.Validate.Accepts.{check_iff}
use sovereign_vault.Policy.Validate.WellFormed.{WellFormed, route_ids, RouteKnown}
use sovereign_vault.Policy.Selector.{EvaluationFacts}
use sovereign_vault.Policy.Snapshot.{PolicySnapshot, compute_digest, validate}
use sovereign_vault.Policy.Evaluator.{PolicyDecision, evaluate}
use sovereign_vault.Policy.Evaluator.Verdict.{evaluate-ok}
use sovereign_vault.Policy.Evaluator.Ratchet.{evaluate-route_from}

-- What a snapshot says about its document.
pub record Sealed (digest_of : PolicyDocument → Option (List ℕ)) (s : PolicySnapshot) : Type 0 where
  pub well_formed : WellFormed s.document
  pub digested : digest_of s.document ≡ some s.digest
  pub warned : check s.document ≡ ok s.warnings

computed : (o : Option (List ℕ)) (digest : List ℕ) → compute_digest o ≡ ok digest → o ≡ some digest
computed none digest h = cc
computed (some other) digest h = cc

-- A validated snapshot seals the document it was made from.
pub validate-Sealed :
    (digest_of : PolicyDocument → Option (List ℕ)) (doc : PolicyDocument) (version : ℕ)
    (s : PolicySnapshot)
    → validate digest_of doc version ≡ ok s
    → Sealed digest_of s × (s.document ≡ doc) × (s.version ≡ version)
unfolding validate
validate-Sealed digest_of doc version s h =
    let (warnings, c, h1) = bind-ok (check doc) _ h in
    let (digest, k, h2) = bind-ok (compute_digest (digest_of doc)) _ h1 in
    let sealed : PolicySnapshot = record {
      document = doc;
      version = version;
      digest = digest;
      warnings = warnings;
    } in
    let same : sealed ≡ s = cc h2 in
    subst (λ (x : PolicySnapshot). Sealed digest_of x × (x.document ≡ doc) × (x.version ≡ version))
      same
      (
        record {
          well_formed = (check_iff doc).0 (warnings, c);
          digested = computed (digest_of doc) digest k;
          warned = c;
        },
        refl,
        refl,
      )

All-Memᴰ :
    (P : RuleDocument → Type 0) {r : RuleDocument} {rules : List RuleDocument}
    → All P rules
    → Memᴰ r rules
    → P r
All-Memᴰ P a (Memᴰ.head e) = subst P (sym e) a.0
All-Memᴰ P a (Memᴰ.tail m) = All-Memᴰ P a.1 m

-- A decision against a sealed snapshot carries the digest of the document, and where it names a
-- route, the document registers it.
pub evaluate-Sealed :
    (digest_of : PolicyDocument → Option (List ℕ)) (s : PolicySnapshot) (facts : EvaluationFacts)
    (d : PolicyDecision)
    → Sealed digest_of s
    → evaluate s facts ≡ ok d
    → (digest_of s.document ≡ some d.policy_digest)
      × ((route : Text) → d.route ≡ some route → contains (route_ids s.document) route ≡ true)
evaluate-Sealed digest_of s facts d sealed e =
    let (_, _, c) = evaluate-ok s facts d e in
    (
      sealed.digested ∙ ap some (sym c.digested),
      λ route named.
          let (r, m, _, u) = evaluate-route_from s facts d route e named in
          subst (WhenSome (λ t. contains (route_ids s.document) t ≡ true)) u
            (All-Memᴰ (RouteKnown s.document) sealed.well_formed.routes m),
    )
