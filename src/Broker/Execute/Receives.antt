-- ===== src/Broker/Execute/Receives.antt =====
-- crates/sv-core/src/broker.rs: what an agent can see of a response.
use sovereign_vault.Common.{
  ◌∙◌, ℕ, ◌+◌, ◌≤◌, ◌≡◌, refl, sym, subst, true, false, Option, none, some, List, [], ◌∷◌, ◌++◌,
  Text, codes, text_eq, text_eq_iff, length, length-append, contains, All, Bool-cases, arith, inl,
  inr, ltb,
}
use sovereign_vault.Common.Assoc.{Assoc, put_key}
use sovereign_vault.Common.Fallible.{
  Fallible, success, failure, fail_if, bind-success, success_injective,
}
use mathlib.Core.List.{append-nil, append_assoc}
use sovereign_vault.Policy.Validate.{is_empty}
use sovereign_vault.Broker.{
  BrokerResponse, to_ascii_lowercase, max_response_bytes, response_too_large,
}
use sovereign_vault.Broker.Target.{occurs}
use sovereign_vault.Broker.Redact.{redact_secret}
use sovereign_vault.Broker.Redact.Absent.{plain, redact_secret-absent}
use sovereign_vault.Broker.Execute.{
  Network, Reply, stripped_response_headers, visible_headers, read_chunks, receive, oversized,
}

All-put_key :
    (P : Text × Text → Type 0) (entries : Assoc Text) (key value : Text)
    → All P entries
    → P (key, value)
    → All P (put_key entries key value)
unfolding put_key
All-put_key P [] key value all p = (p, tt)
All-put_key P ((k, v) ∷ entries) key value (q, all) p = elim (Bool-cases (text_eq k key)) [
  | inl e ↦ rw e (subst (λ name. P (name, value)) (sym ((text_eq_iff k key).0 e)) p, all)
  | inr n ↦ rw n (q, All-put_key P entries key value all p)
]

-- A header that an agent may see: not one of the stripped, and without the secret in its value.
abbrev pub IsVisible : (secret : Text) → Text × Text → Type 0
IsVisible secret entry =
    (contains stripped_response_headers (to_ascii_lowercase entry.0) ≡ false)
    × (occurs secret entry.1 ≡ false)

module _ (secret : Text) (given : is_empty secret ≡ false) (unbracketed : plain secret ≡ true)
    (unlike : occurs secret (codes "redacted") ≡ false) where
  visible_headers-IsVisible :
      (headers : List (Text × Option Text)) (seen : Assoc Text)
      → All (IsVisible secret) seen
      → All (IsVisible secret) (visible_headers secret headers seen)
  unfolding visible_headers
  visible_headers-IsVisible [] seen all = all
  visible_headers-IsVisible ((name, none) ∷ headers) seen all =
      visible_headers-IsVisible headers seen all
  visible_headers-IsVisible ((name, some value) ∷ headers) seen all =
      elim (Bool-cases (contains stripped_response_headers (to_ascii_lowercase name))) [
        | inl e ↦ rw e (visible_headers-IsVisible headers seen all)
        | inr n ↦
            let clean = redact_secret-absent value secret given unbracketed unlike in
            let more =
              All-put_key (IsVisible secret) seen name (redact_secret value secret) all
                (n, clean) in
            rw n (
              visible_headers-IsVisible headers (put_key seen name (redact_secret value secret))
                more)
      ]

-- The chunks of a body that arrived whole, one behind the other.
pub data Arrived : List (Fallible Text (List ℕ)) → List ℕ → Type 0 where
  over : Arrived [] []
  chunk :
      (bytes : List ℕ) {chunks : List (Fallible Text (List ℕ))} {rest : List ℕ}
      → Arrived chunks rest
      → Arrived (success bytes ∷ chunks) (bytes ++ rest)

read_chunks-Arrived :
    (secret : Text) (buf : List ℕ) (chunks : List (Fallible Text (List ℕ))) {bytes : List ℕ}
    → length buf ≤ max_response_bytes
    → read_chunks secret buf chunks ≡ success bytes
    → (rest : List ℕ) × Arrived chunks rest
      × (bytes ≡ buf ++ rest)
      × (length bytes ≤ max_response_bytes)
unfolding read_chunks
read_chunks-Arrived secret buf [] {bytes} le h =
    let same : buf ≡ bytes = success_injective h in
    ([], over, sym same ∙ sym (append-nil buf), subst (λ b. length b ≤ max_response_bytes) same le)
read_chunks-Arrived secret buf (failure e ∷ chunks) le h = cc
read_chunks-Arrived secret buf (success first ∷ chunks) {bytes} le h =
    elim (Bool-cases (ltb max_response_bytes (length buf + length first))) [
      | inl too_long ↦ ground arith
      | inr fits ↦
          let (rest, whole, e, small) =
            read_chunks-Arrived secret (buf ++ first) chunks
              (ground (arith, length-append buf first)) (ground arith) in
          (first ++ rest, chunk first whole, e ∙ append_assoc buf first rest, small)
    ]

-- A body that declares its length declares no more than the bound.
abbrev pub WithinBound : (content_length : Option ℕ) → Type 0
WithinBound none = Unit
WithinBound (some len) = len ≤ max_response_bytes

oversized-WithinBound : (len : Option ℕ) → oversized len ≡ false → WithinBound len
oversized-WithinBound none h = tt
oversized-WithinBound (some len) h = ground arith

module _ (net : Network) where
  -- The body that the agent sees, against the body that came.
  abbrev pub ShowsBody : (secret : Text) → Reply → BrokerResponse → Type 0
  ShowsBody secret reply response =
      (bytes : List ℕ) × Arrived reply.chunks bytes
      × (length bytes ≤ max_response_bytes)
      × WithinBound reply.content_length
      × (response.status ≡ reply.status)
      × (response.body ≡ redact_secret (net.from_utf8_lossy bytes) secret)

  abbrev pub Hides : (secret : Text) → Reply → BrokerResponse → Type 0
  Hides secret reply response =
      (occurs secret response.body ≡ false)
      × All (IsVisible secret) response.headers
      × ShowsBody secret reply response

  -- A response that reaches the agent shows the body that arrived, whole and redacted: every chunk
  -- was read, at most 1 MiB came and no more was declared, whatever the secret is.
  pub receive-ShowsBody :
      (secret : Text) (reply : Reply) (response : BrokerResponse)
      → receive net secret reply ≡ success response
      → ShowsBody secret reply response
  unfolding receive
  receive-ShowsBody secret reply response h =
      let (d, small, h0) =
        bind-success
          (fail_if (oversized reply.content_length) (response_too_large max_response_bytes)) _ h in
      let (buf, got, h1) = bind-success (read_chunks secret [] reply.chunks) _ h0 in
      let (bytes, whole, same, le) = read_chunks-Arrived secret [] reply.chunks (omega arith) got in
      let shown : BrokerResponse = record {
        status = reply.status;
        headers = visible_headers secret reply.headers [];
        body = redact_secret (net.from_utf8_lossy buf) secret;
      } in
      subst (ShowsBody secret reply) (success_injective h1) (
        subst
          (λ all.
            ShowsBody secret reply
              (record shown { body = redact_secret (net.from_utf8_lossy all) secret }))
          (sym same)
          (
            bytes,
            whole,
            subst (λ all. length all ≤ max_response_bytes) same le,
            oversized-WithinBound reply.content_length (ground arith),
            refl,
            refl,
          ))

  -- When the secret is not empty, has no angle bracket and is not part of the word `redacted`, and a
  -- response reaches the agent, then neither its body nor the value of one of its headers shows the
  -- secret, no stripped header is among the headers, and the body is the redaction of the whole
  -- body that arrived, of which at most 1 MiB came and no more was declared.
  pub receive-Hides :
      (secret : Text) (reply : Reply) (response : BrokerResponse)
      → is_empty secret ≡ false
      → plain secret ≡ true
      → occurs secret (codes "redacted") ≡ false
      → receive net secret reply ≡ success response
      → Hides secret reply response
  unfolding receive
  receive-Hides secret reply response given unbracketed unlike h =
      let (d, small, h0) =
        bind-success
          (fail_if (oversized reply.content_length) (response_too_large max_response_bytes)) _ h in
      let (buf, got, h1) = bind-success (read_chunks secret [] reply.chunks) _ h0 in
      let clean : (r : BrokerResponse) → Type 0 =
        λ r. (occurs secret r.body ≡ false) × All (IsVisible secret) r.headers in
      let (no_body, no_header) = subst clean (success_injective h1) (
        redact_secret-absent (net.from_utf8_lossy buf) secret given unbracketed unlike,
        visible_headers-IsVisible secret given unbracketed unlike reply.headers [] tt,
      ) in
      (no_body, no_header, receive-ShowsBody secret reply response h)
