-- ===== src/Broker/Address/Screen.antt =====
-- crates/sv-core/src/broker.rs: which lists of addresses pass `resolve_and_screen`.
use sovereign_vault.Common.{
  sym, subst, is_nil, ℕ, ◌≡◌, refl, ◌↔◌, ◌⊎◌, inl, inr, true, false, List, [], ◌∷◌, Text, All,
  Bool-cases, arith,
}
use sovereign_vault.Common.Fallible.{Fallible, success, failure, Fallible-cases}
use sovereign_vault.Broker.{IpAddr, BrokerAllow}
use sovereign_vault.Broker.Address.{is_blocked_ip, screen, screen_answer, resolve_and_screen}

screen_iff :
    (addrs : List IpAddr) → (screen addrs ≡ success tt) ↔ All (λ ip. is_blocked_ip ip ≡ false) addrs
unfolding screen
screen_iff [] = (λ h. tt, λ h. refl)
screen_iff (ip ∷ addrs) =
    let (to, from) = screen_iff addrs in
    (λ h. (ground arith, to (ground arith)), λ h. ground (arith, h.0, from h.1))

-- The addresses that a request may be sent to: what the name resolved to, not empty, and without a
-- blocked one unless the entry opts in.
abbrev pub Screened : (answer : Fallible Text (List IpAddr)) → BrokerAllow → List IpAddr → Type 0
Screened answer allow addrs =
    (answer ≡ success addrs)
    × (is_nil addrs ≡ false)
    × ((allow.allow_private_ip ≡ true) ⊎ All (λ ip. is_blocked_ip ip ≡ false) addrs)

found_screened :
    (found : List IpAddr) (allow : BrokerAllow)
    → (screen_answer (success found) allow ≡ success found) ↔ (
        (is_nil found ≡ false)
        × ((allow.allow_private_ip ≡ true) ⊎ All (λ ip. is_blocked_ip ip ≡ false) found))
unfolding screen_answer
found_screened found allow =
    let (to, from) = screen_iff found in
    elim (Bool-cases allow.allow_private_ip) [
      | inl opted ↦ (λ h. (ground arith, inl opted), λ h. ground (arith, h.0))
      | inr unopted ↦ (
        λ h. (
          ground arith,
          inr (
              to (elim (Fallible-cases (screen found)) [
                | inl (e, failed) ↦ ground arith
                | inr (done, passed) ↦ passed
              ])),
        ),
        λ h. elim h.1 [ inl opted ↦ ground arith | inr safe ↦ ground (arith, h.0, from safe) ],
      )
    ]

answers_found :
    (found : List IpAddr) (allow : BrokerAllow) (addrs : List IpAddr)
    → screen_answer (success found) allow ≡ success addrs
    → found ≡ addrs
unfolding screen_answer
answers_found found allow addrs h = elim (Bool-cases allow.allow_private_ip) [
  | inl opted ↦ ground arith
  | inr unopted ↦ elim (Fallible-cases (screen found)) [
    | inl (e, failed) ↦ ground arith
    | inr (done, passed) ↦ ground arith
  ]
]

answer_iff :
    (answer : Fallible Text (List IpAddr)) (allow : BrokerAllow) (addrs : List IpAddr)
    → (screen_answer answer allow ≡ success addrs) ↔ Screened answer allow addrs
unfolding screen_answer
answer_iff (failure e) allow addrs = ground arith
answer_iff (success found) allow addrs = (
  λ h.
      let same : found ≡ addrs = answers_found found allow addrs h in
      subst (λ a. Screened (success found) allow a) same
        (let r =
            (found_screened found allow).0
              (subst (λ a. screen_answer (success found) allow ≡ success a) (sym same) h) in
          (refl, r.0, r.1)),
  λ s.
      let same : found ≡ addrs = ground (arith, s.0) in
      subst (λ a. screen_answer (success found) allow ≡ success a) same
        ((found_screened found allow).1 (
          subst
            (λ a.
              (is_nil a ≡ false)
              × ((allow.allow_private_ip ≡ true) ⊎ All (λ ip. is_blocked_ip ip ≡ false) a))
            (sym same) (s.1, s.2))),
)

-- The addresses that come out are exactly the ones that the name resolved to, at least one, and
-- none of them is blocked unless the matching entry of the allow list opts in.
pub resolve_and_screen-success_iff :
    (resolve : Text → ℕ → Fallible Text (List IpAddr)) (host : Text) (port : ℕ)
    (allow : BrokerAllow) (addrs : List IpAddr)
    → (resolve_and_screen resolve host port allow ≡ success addrs)
      ↔ Screened (resolve host port) allow addrs
unfolding resolve_and_screen
resolve_and_screen-success_iff resolve host port allow addrs =
    answer_iff (resolve host port) allow addrs
