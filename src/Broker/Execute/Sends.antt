-- ===== src/Broker/Execute/Sends.antt =====
-- crates/sv-core/src/broker.rs: what is known of a call that leaves the process.
use sovereign_vault.Common.{
  refl, ◌∙◌, Memᴰ, ◌≡◌, sym, subst, true, false, not, Option, [], ◌∷◌, ◌++◌, Text, text_eq, All,
  Bool-cases, Option-cases, arith, inl, inr,
}
use sovereign_vault.Common.Assoc.{Assoc}
use sovereign_vault.Common.Fallible.{
  success_injective, success, ok_or, fail_if, bind-success, Fallible-cases,
}
use sovereign_vault.Broker.{
  BrokerAllow, BrokerError, ℕ, List, some, to_ascii_lowercase, invalid_url, codes, disabled,
  BrokerRequest, ResolvedBrokerSecret, ValidatedTarget, is_enabled,
}
use sovereign_vault.Broker.Target.Laws.{Admitted, IsPlain, Admits, validate_against_allowlist_sound}
use sovereign_vault.Broker.Target.{to_ascii_uppercase, validate_against_allowlist, parse_url}
use sovereign_vault.Broker.Address.{resolve_and_screen}
use sovereign_vault.Broker.Address.Screen.{Screened, resolve_and_screen-success_iff}
use sovereign_vault.Broker.Execute.{
  failure, Fallible, Url, upstream_error, Network, Outbound, prepare, owned_header, agent_headers,
  or_upstream,
}

module _ (net : Network) where
  agent_headers-others :
      (owned : Text) (headers : Assoc Text) (others : Assoc Text)
      → agent_headers net owned headers ≡ success others
      → All (λ e. text_eq e.0 owned ≡ false) others
  unfolding agent_headers
  agent_headers-others owned [] others h =
      let e : [] ≡ others = ground arith in subst (All (λ e. text_eq e.0 owned ≡ false)) e tt
  agent_headers-others owned ((k, v) ∷ headers) others h =
      elim (Option-cases (net.http.header_name k)) [
        | inl e ↦ ground arith
        | inr (name, e) ↦ elim (Bool-cases (text_eq name owned)) [
          | inl same ↦ agent_headers-others owned headers others (ground arith)
          | inr differs ↦ elim (Fallible-cases (agent_headers net owned headers)) [
            | inl (why, failed) ↦ ground arith
            | inr (rest, passed) ↦
                let made : ((name, v) ∷ rest) ≡ others = ground arith in
                subst (All (λ e. text_eq e.0 owned ≡ false)) made
                  (differs, agent_headers-others owned headers rest passed)
          ]
        ]
      ]

  -- The URL as `parse_url` hands it on is what the parser read.
  parse_url-reads :
      (text : Text) (url : Url)
      → parse_url net.http net.parse text ≡ success url
      → net.parse text ≡ success url
  parse_url-reads text url h = elim (Fallible-cases (net.parse text)) [
    | inl (e, f) ↦ ground arith
    | inr (u, f) ↦ ground arith
  ]

  -- An admitted request, with the URL that it names.
  target_of :
      (req : BrokerRequest) (allow : List BrokerAllow) (target : ValidatedTarget) (url : Url)
      → validate_against_allowlist net.http net.parse req allow ≡ success target
      → net.parse req.url ≡ success url
      → (host : Text) × IsPlain url host × Admitted req.method url allow host target
  target_of req allow target url admitted reads =
      let (shape, rest) =
        validate_against_allowlist_sound net.http net.parse req allow target admitted in
      subst (λ u. (host : Text) × IsPlain u host × Admitted req.method u allow host target)
        (success_injective (sym rest.1 ∙ reads)) rest.2

  has_port :
      (url : Url) (port : ℕ) (e : BrokerError)
      → ok_or url.port_or_known_default e ≡ success port
      → url.port_or_known_default ≡ some port
  has_port url port why h = elim (Option-cases url.port_or_known_default) [
    | inl e ↦ ground arith
    | inr (p, e) ↦ ground arith
  ]

  or_upstream-success :
      (r : Fallible Text (Unit {0})) (secret : Text) {d : Unit {0}}
      → or_upstream r secret ≡ success d
      → r ≡ success tt
  or_upstream-success (failure e) secret h = cc
  or_upstream-success (success d) secret h = refl

  -- What holds of a call, whatever the client then does with it.
  pub record IsGuarded (enabled : Option Text) (req : BrokerRequest)
      (resolved : ResolvedBrokerSecret) (out : Outbound) : Type 0 where
    pub switched_on : is_enabled enabled ≡ true
    pub target : ValidatedTarget
    pub admitted : validate_against_allowlist net.http net.parse req resolved.allow ≡ success target
    pub listed : Memᴰ target.allow resolved.allow
    pub to_url : net.parse req.url ≡ success out.url
    pub host_name : Text
    pub is_plain : IsPlain out.url host_name
    pub to_host : out.host ≡ to_ascii_lowercase host_name
    pub to_port : out.url.port_or_known_default ≡ some out.port
    pub by_method : out.method ≡ to_ascii_uppercase req.method
    pub admits : Admits out.host out.url.path out.method target.allow
    pub same_body : out.body ≡ req.body
    pub screened : Screened (net.resolve out.host out.port) target.allow out.addrs
    pub pinned : net.build_client out.host out.addrs ≡ success tt
    pub owned : Text × Text
    pub carries : owned_header net resolved resolved.injection ≡ success owned
    pub others : Assoc Text
    pub once : out.headers ≡ others ++ (owned ∷ [])
    pub no_rival : All (λ e. text_eq e.0 owned.0 ≡ false) others

  -- A call leaves the process only when the broker is switched on and the allow list admits the
  -- request. The URL it goes to is the one that the request names, a plain https URL; an entry of
  -- the allow list admits its host, its path and the method. The client is pinned for that host to
  -- exactly the addresses that passed the screening of the host at the port of the URL, the body is
  -- that of the request, and the header with the secret stands once, behind headers none of which
  -- has its name.
  pub prepare-IsGuarded :
      (enabled : Option Text) (req : BrokerRequest) (resolved : ResolvedBrokerSecret)
      (out : Outbound)
      → prepare net enabled req resolved ≡ success out
      → IsGuarded enabled req resolved out
  unfolding prepare
  prepare-IsGuarded enabled req resolved out h =
      let (d0, on, h0) =
        bind-success (fail_if (not (is_enabled enabled)) (disabled (codes "SV_ENABLE_BROKER"))) _
          h in
      let (target, admitted, h1) =
        bind-success (validate_against_allowlist net.http net.parse req resolved.allow) _ h0 in
      let (url, parsed, h2) = bind-success (parse_url net.http net.parse req.url) _ h1 in
      let (port, has_default, h3) =
        bind-success (ok_or url.port_or_known_default (invalid_url (codes "no port"))) _ h2 in
      let (addrs, screened, h4) =
        bind-success (resolve_and_screen net.resolve target.host port target.allow) _ h3 in
      let (d5, built, h5) =
        bind-success (or_upstream (net.build_client target.host addrs) resolved.secret) _ h4 in
      let (d6, method, h6) =
        bind-success
          (fail_if (not (net.http.is_method target.method))
            (upstream_error net.method_error resolved.secret))
          _ h5 in
      let (owned, carries, h7) = bind-success (owned_header net resolved resolved.injection) _ h6 in
      let (others, kept, h8) = bind-success (agent_headers net owned.0 req.headers) _ h7 in
      let made : Outbound = record {
        host = target.host;
        port = port;
        addrs = addrs;
        method = target.method;
        url = url;
        headers = others ++ (owned ∷ []);
        body = req.body;
      } in
      let same : made ≡ out = success_injective h8 in
      let reads = parse_url-reads req.url url parsed in
      let (host_name, is_plain, place) = target_of req resolved.allow target url admitted reads in
      let (to_host, to_path, by_method, listed, admits) = place in
      let guarded : IsGuarded enabled req resolved made = record {
        switched_on = ground arith;
        target = target;
        admitted = admitted;
        listed = listed;
        to_url = reads;
        host_name = host_name;
        is_plain = is_plain;
        to_host = to_host;
        to_port = has_port url port _ has_default;
        by_method = by_method;
        admits = subst (λ path. Admits target.host path target.method target.allow) to_path admits;
        same_body = refl;
        screened =
            (resolve_and_screen-success_iff net.resolve target.host port target.allow addrs).0
              screened;
        pinned = or_upstream-success (net.build_client target.host addrs) resolved.secret built;
        owned = owned;
        carries = carries;
        others = others;
        once = refl;
        no_rival = agent_headers-others owned.0 req.headers others kept;
      } in
      subst (IsGuarded enabled req resolved) same guarded
