-- ===== src/Policy/Evaluator/Routes.antt =====
-- The routes that the loop of crates/sv-runtime/src/policy/evaluator.rs gathers, and step 9.
use sovereign_vault.Common.{
  ◌≡◌, refl, sym, ap, ◌∙◌, ◌↔◌, ◌⊎◌, inl, inr, true, Option, none, some, List, [], ◌∷◌, Memᴰ, Text,
  All, keep, contains, contains-head, contains-All, Distinct, false≢true, Bool-cases, text_eq,
  text_eq_iff, contains-tail,
}
use sovereign_vault.Runtime.Error.{RuntimeError, ok, err, route_denied}
use sovereign_vault.Policy.Document.{RuleDocument}
use sovereign_vault.Policy.Selector.{EvaluationFacts}
use sovereign_vault.Policy.Evaluator.{Gathered, apply_rule, add_route, set_insert, resolve_route}
use sovereign_vault.Policy.Evaluator.Loop.{hit, apply_all, apply_all_iff, Hits}

-- A rule's route, if it has one, is the given one.
abbrev pub RouteWithin : Option Text → Option Text → Type 0
RouteWithin none o = Unit
RouteWithin (some t) o = o ≡ some t

-- The gathered routes are no more than the given one.
abbrev pub RoutesWithin : List Text → Option Text → Type 0
RoutesWithin routes o = All (λ t. o ≡ some t) routes

add_route_within :
    (r o : Option Text) (routes : List Text)
    → RoutesWithin (add_route r routes) o ↔ (RoutesWithin routes o × RouteWithin r o)
unfolding set_insert
add_route_within none o routes = (λ h. (h, tt), λ h. h.0)
add_route_within (some t) o routes = elim (Bool-cases (contains routes t)) [
  | inl old ↦ rw old (λ h. (h, contains-All (λ t. o ≡ some t) t routes old h), λ h. h.0)
  | inr new ↦ rw new (λ h. (h.1, h.0), λ h. (h.1, h.0))
]

add_route-Distinct :
    (r : Option Text) (routes : List Text) → Distinct routes → Distinct (add_route r routes)
unfolding set_insert
add_route-Distinct none routes d = d
add_route-Distinct (some t) routes d = elim (Bool-cases (contains routes t)) [
  | inl old ↦ rw old d
  | inr new ↦ rw new (new, d)
]

pub apply_all-Distinct :
    (hits : List RuleDocument) (g : Gathered)
    → Distinct g.routes
    → Distinct (apply_all hits g).routes
unfolding apply_all apply_rule
apply_all-Distinct [] g d = d
apply_all-Distinct (r ∷ hits) g d =
    apply_all-Distinct hits (apply_rule r g) (add_route-Distinct r.effect.route g.routes d)

pub apply_all-routes :
    (facts : EvaluationFacts) (o : Option Text) (rules : List RuleDocument) (g : Gathered)
    → RoutesWithin (apply_all (keep (hit facts) rules) g).routes o
      ↔ (RoutesWithin g.routes o × Hits facts rules (λ r. RouteWithin r.effect.route o))
unfolding apply_rule
apply_all-routes facts o =
    apply_all_iff facts (λ g. RoutesWithin g.routes o) (λ r. RouteWithin r.effect.route o)
      (λ r g. add_route_within r.effect.route o g.routes)

-- Step 9 gives a route that covers all that were gathered, and is refused only if none does.
pub resolve_route_covers :
    (routes : List Text) (o : Option Text) → resolve_route routes ≡ ok o → RoutesWithin routes o
unfolding resolve_route
resolve_route_covers [] o h = tt
resolve_route_covers (t ∷ []) o h = (cc, tt)
resolve_route_covers (t ∷ u ∷ routes) o h = cc

pub resolve_route_agreed :
    (routes : List Text) (o : Option Text)
    → Distinct routes
    → RoutesWithin routes o
    → (r : Option Text) × (resolve_route routes ≡ ok r)
unfolding resolve_route
resolve_route_agreed [] o d w = (none, refl)
resolve_route_agreed (t ∷ []) o d w = (some t, refl)
resolve_route_agreed (t ∷ u ∷ routes) o d w =
    let same : t ≡ u = cc (w.0, w.1.0) in
    absurd (false≢true (sym d.0 ∙ rw same (contains-head u routes)))

pub resolve_route_disagreed :
    (routes : List Text) (e : RuntimeError) → resolve_route routes ≡ err e → e ≡ route_denied
unfolding resolve_route
resolve_route_disagreed [] e h = cc
resolve_route_disagreed (t ∷ []) e h = cc
resolve_route_disagreed (t ∷ u ∷ routes) e h = cc

set_insert_from :
    (t u : Text) (routes : List Text)
    → contains (set_insert u routes) t ≡ true
    → (contains routes t ≡ true) ⊎ (u ≡ t)
unfolding set_insert
set_insert_from t u routes h = elim (Bool-cases (contains routes u)) [
  | inl old ↦ inl (rw old at h)
  | inr new ↦
      let h' : contains (u ∷ routes) t ≡ true = rw new at h in
      elim (Bool-cases (text_eq u t)) [
        | inl e ↦ inr ((text_eq_iff u t).0 e)
        | inr n ↦ inl (contains-tail t u routes n h')
      ]
]

route_from :
    (t : Text) (r : RuleDocument) (hits : List RuleDocument) (routes : List Text) (o : Option Text)
    → r.effect.route ≡ o
    → contains (add_route o routes) t ≡ true
    → (contains routes t ≡ true)
      ⊎ ((r' : RuleDocument) × Memᴰ r' (r ∷ hits) × (r'.effect.route ≡ some t))
route_from t r hits routes none e h = inl h
route_from t r hits routes (some u) e h = elim (set_insert_from t u routes h) [
  | inl old ↦ inl old
  | inr same ↦ inr (r, Memᴰ.head refl, e ∙ ap some same)
]

-- A gathered route is one that was there before or the route of a hit.
pub apply_all-routes_from :
    (t : Text) (hits : List RuleDocument) (g : Gathered)
    → contains (apply_all hits g).routes t ≡ true
    → (contains g.routes t ≡ true) ⊎ ((r : RuleDocument) × Memᴰ r hits × (r.effect.route ≡ some t))
unfolding apply_all apply_rule
apply_all-routes_from t [] g h = inl h
apply_all-routes_from t (r ∷ hits) g h = elim (apply_all-routes_from t hits (apply_rule r g) h) [
  | inl old ↦ route_from t r hits g.routes r.effect.route refl old
  | inr (r', m, e) ↦ inr (r', Memᴰ.tail m, e)
]

pub resolve_route-some :
    (routes : List Text) (t : Text) → resolve_route routes ≡ ok (some t) → contains routes t ≡ true
unfolding resolve_route
resolve_route-some [] t h = cc
resolve_route-some (u ∷ []) t h = let same : u ≡ t = cc in rw same (contains-head t [])
resolve_route-some (u ∷ v ∷ routes) t h = cc
