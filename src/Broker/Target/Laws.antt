-- ===== src/Broker/Target/Laws.antt =====
-- crates/sv-core/src/broker.rs: which requests `validate_against_allowlist` lets through.
use sovereign_vault.Common.{
  subst, ◌≡◌, refl, sym, ◌∙◌, ap, ◌↔◌, inl, inr, true, false, ◌||◌, Option, none, some, List, [],
  ◌∷◌, Text, codes, text_eq, text_eq_iff, arith, Bool-cases, Option-cases, any, Memᴰ,
}
use mathlib.Core.List.Memᴰ
use sovereign_vault.Common.Fallible.{Fallible, success, bind-success, Fallible-cases}
use sovereign_vault.Policy.Validate.{is_empty}
use sovereign_vault.Broker.Target.Paths.{IsBelow, path_prefix_matches_iff}
use sovereign_vault.Broker.Shape.{HttpTypes, validate_request_shape}
use sovereign_vault.Broker.Shape.Laws.{IsShape, validate_request_shape-success_iff}
use sovereign_vault.Broker.{
  BrokerRequest, BrokerAllow, ValidatedTarget, to_ascii_lowercase, eq_ignore_ascii_case,
}
use sovereign_vault.Broker.Target.{
  not, is_some, Url, check_url, find_entry, entry_matches, occurs, to_ascii_uppercase,
  validate_against_allowlist, has_encoded_separator,
}

-- An entry of the allow list that admits host, path and method.
pub record Admits (host path method : Text) (entry : BrokerAllow) : Type 0 where
  pub same_host : to_ascii_lowercase entry.host ≡ to_ascii_lowercase host
  pub below : IsBelow entry.path_prefix path
  pub method_listed : any (λ m. eq_ignore_ascii_case m method) entry.methods ≡ true

entry_matches_iff :
    (host path method : Text) (entry : BrokerAllow)
    → (entry_matches host path method entry ≡ true) ↔ Admits host path method entry
unfolding entry_matches
entry_matches_iff host path method entry =
    let (to, from) = path_prefix_matches_iff entry.path_prefix path in
    let (eq, back) = text_eq_iff (to_ascii_lowercase entry.host) (to_ascii_lowercase host) in
    (
      λ h. record {
        same_host = eq (ground arith);
        below = to (ground arith);
        method_listed = ground arith;
      },
      λ a. ground (arith, back a.same_host, from a.below, a.method_listed),
    )

find_entry_found :
    (host path method : Text) (allow : List BrokerAllow) (entry : BrokerAllow)
    → find_entry host path method allow ≡ some entry
    → Memᴰ entry allow × (entry_matches host path method entry ≡ true)
unfolding find_entry
find_entry_found host path method [] entry h = cc
find_entry_found host path method (e ∷ allow) entry h =
    elim (Bool-cases (entry_matches host path method e)) [
      | inl is ↦
          let same : e ≡ entry = ground arith in
          (Memᴰ.head (sym same), ap (entry_matches host path method) (sym same) ∙ is)
      | inr not ↦
          let (m, is) = find_entry_found host path method allow entry (ground arith) in
          (Memᴰ.tail m, is)
    ]

find_entry_of :
    (host path method : Text) (allow : List BrokerAllow) {entry : BrokerAllow}
    → Memᴰ entry allow
    → entry_matches host path method entry ≡ true
    → (first : BrokerAllow) × (find_entry host path method allow ≡ some first)
unfolding find_entry
find_entry_of host path method [] m h = elim m [ ]
find_entry_of host path method (e ∷ allow) m h =
    elim (Bool-cases (entry_matches host path method e)) [
      | inl is ↦ (e, ground arith)
      | inr isnt ↦ elim (Memᴰ.cases_cons m) [
        | inl same ↦ let q = ap (entry_matches host path method) same in ground arith
        | inr later ↦
            let (first, found) = find_entry_of host path method allow later h in
            (first, ground arith)
      ]
    ]

-- A URL that names nothing but a place on an https host, with its separators written plainly.
pub record IsPlain (url : Url) (host : Text) : Type 0 where
  pub https : url.scheme ≡ codes "https"
  pub no_username : url.username ≡ []
  pub no_password : url.password ≡ none
  pub no_fragment : url.fragment ≡ none
  pub has_host : url.host_str ≡ some host
  pub no_dot : occurs (codes "%2e") (to_ascii_lowercase url.path) ≡ false
  pub no_slash : occurs (codes "%2f") (to_ascii_lowercase url.path) ≡ false
  pub no_backslash : occurs (codes "%5c") (to_ascii_lowercase url.path) ≡ false

is_empty-nil : (t : Text) → is_empty t ≡ true → t ≡ []
is_empty-nil [] h = refl
is_empty-nil (c ∷ t) h = cc

is_some-none : (o : Option Text) → is_some o ≡ false → o ≡ none
is_some-none none h = refl
is_some-none (some a) h = cc

-- The target that the checks hand on, against the request and the allow list.
abbrev pub Admitted :
    (method : Text) → Url → List BrokerAllow → (host : Text) → ValidatedTarget → Type 0
Admitted method url allow host target =
    (target.host ≡ to_ascii_lowercase host)
    × (target.path ≡ url.path)
    × (target.method ≡ to_ascii_uppercase method)
    × Memᴰ target.allow allow
    × Admits target.host target.path target.method target.allow

check_url_success :
    (method : Text) (url : Url) (allow : List BrokerAllow) (target : ValidatedTarget)
    → check_url method url allow ≡ success target
    → (host : Text) × IsPlain url host × Admitted method url allow host target
unfolding check_url has_encoded_separator
check_url_success method url allow target h = elim (Option-cases url.host_str) [
  | inl e ↦ ground arith
  | inr (host, e) ↦
      elim (Option-cases
        (find_entry (to_ascii_lowercase host) url.path (to_ascii_uppercase method) allow)) [
          | inl f ↦ ground arith
          | inr (entry, f) ↦
              let found : ValidatedTarget = record {
                host = to_ascii_lowercase host;
                path = url.path;
                method = to_ascii_uppercase method;
                allow = entry;
              } in
              let same : found ≡ target = ground arith in
              let (listed, is) =
                find_entry_found found.host found.path found.method allow entry f in
              (
                host,
                plain host e (ground arith),
                subst (Admitted method url allow host) same (
                  refl,
                  refl,
                  refl,
                  listed,
                  (entry_matches_iff found.host found.path found.method entry).0 is,
                ),
              )
        ]
]
  where
    plain :
        (host : Text)
        → url.host_str ≡ some host
        → (not (text_eq url.scheme (codes "https"))
            || (not (is_empty url.username) || is_some url.password)
            || is_some url.fragment
            || has_encoded_separator url.path)
          ≡ false
        → IsPlain url host
    plain host e ok = record {
      https = (text_eq_iff url.scheme (codes "https")).0 (ground arith);
      no_username = is_empty-nil url.username (ground arith);
      no_password = is_some-none url.password (ground arith);
      no_fragment = is_some-none url.fragment (ground arith);
      has_host = e;
      no_dot = ground arith;
      no_slash = ground arith;
      no_backslash = ground arith;
    }

check_url_of :
    (method : Text) (url : Url) (allow : List BrokerAllow) (host : Text) {entry : BrokerAllow}
    → IsPlain url host
    → Memᴰ entry allow
    → Admits (to_ascii_lowercase host) url.path (to_ascii_uppercase method) entry
    → (target : ValidatedTarget) × (check_url method url allow ≡ success target)
unfolding check_url has_encoded_separator
check_url_of method url allow host {entry} p m a =
    let is =
      (entry_matches_iff (to_ascii_lowercase host) url.path (to_ascii_uppercase method) entry).1
        a in
    let (first, f) =
      find_entry_of (to_ascii_lowercase host) url.path (to_ascii_uppercase method) allow m is in
    (
      record {
        host = to_ascii_lowercase host;
        path = url.path;
        method = to_ascii_uppercase method;
        allow = first;
      },
      ground (
        arith,
        f,
        p.https,
        p.no_username,
        p.no_password,
        p.no_fragment,
        p.has_host,
        p.no_dot,
        p.no_slash,
        p.no_backslash,
        (text_eq_iff url.scheme (codes "https")).1 p.https,
      ),
    )

module _ (http : HttpTypes) (parse : Text → Fallible Text Url) where
  -- A request that is let through has an accepted shape, and its URL parses to a plain https URL
  -- with a host; the target has that host, path and method, and some entry of the allow list admits
  -- them, which is the entry that the target carries.
  pub validate_against_allowlist_sound :
      (req : BrokerRequest) (allow : List BrokerAllow) (target : ValidatedTarget)
      → validate_against_allowlist http parse req allow ≡ success target
      → IsShape http req
        × ((url : Url) × (parse req.url ≡ success url)
            × ((host : Text) × IsPlain url host × Admitted req.method url allow host target))
  unfolding validate_against_allowlist
  validate_against_allowlist_sound req allow target h =
      let (done, shape, h1) = bind-success (validate_request_shape http req) _ h in
      elim (Fallible-cases (parse req.url)) [
        | inl (e, failed) ↦ ground arith
        | inr (url, reads) ↦ (
          (validate_request_shape-success_iff http req).0 shape,
          (url, reads, check_url_success req.method url allow target (ground arith)),
        )
      ]

  -- A request of an accepted shape, whose URL parses to a plain https URL that some entry of the
  -- allow list admits, is let through.
  pub validate_against_allowlist_complete :
      (req : BrokerRequest) (allow : List BrokerAllow) (url : Url) (host : Text)
      {entry : BrokerAllow}
      → IsShape http req
      → parse req.url ≡ success url
      → IsPlain url host
      → Memᴰ entry allow
      → Admits (to_ascii_lowercase host) url.path (to_ascii_uppercase req.method) entry
      → (target : ValidatedTarget) × (validate_against_allowlist http parse req allow
          ≡ success target)
  unfolding validate_against_allowlist
  validate_against_allowlist_complete req allow url host shape reads plain listed admits =
      let (target, passes) = check_url_of req.method url allow host plain listed admits in
      (target, ground (arith, (validate_request_shape-success_iff http req).1 shape, reads, passes))
