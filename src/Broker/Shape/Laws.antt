-- ===== src/Broker/Shape/Laws.antt =====
-- crates/sv-core/src/broker.rs: when the shape of a request is accepted.
use sovereign_vault.Common.{
  inr, inl, Option-cases, ℕ, ◌+◌, ◌≤◌, ◌≡◌, refl, ◌↔◌, true, false, Option, none, some, [], ◌∷◌,
  Text, length, All, arith,
}
use sovereign_vault.Common.Assoc.{Assoc}
use sovereign_vault.Common.Fallible.{Fallible-cases, success, bind-success}
use sovereign_vault.Policy.Validate.{is_empty}
use sovereign_vault.Broker.{
  BrokerRequest, byte_length, max_request_body_bytes, max_request_headers, max_request_header_bytes,
  max_request_header_name_bytes, max_request_header_value_bytes, max_request_url_bytes,
  max_request_method_bytes,
}
use sovereign_vault.Broker.Shape.{
  HttpTypes, is_broker_controlled_header, check_header, check_headers, check_body,
  validate_request_shape,
}

-- The bytes of all names and values.
abbrev pub header_bytes_of : Assoc Text → ℕ
header_bytes_of [] = 0
header_bytes_of ((name, value) ∷ headers) =
    byte_length name + byte_length value + header_bytes_of headers

module _ (http : HttpTypes) where
  -- A header that the HTTP library can read and that is not the vault's to set.
  pub record IsHeader (entry : Text × Text) : Type 0 where
    pub name_fits : byte_length entry.0 ≤ max_request_header_name_bytes
    pub value_fits : byte_length entry.1 ≤ max_request_header_value_bytes
    pub parsed : Text
    pub reads : http.header_name entry.0 ≡ some parsed
    pub value_reads : http.is_header_value entry.1 ≡ true
    pub not_controlled : is_broker_controlled_header parsed ≡ false

  abbrev pub BodyFits : Option Text → Type 0
  BodyFits none = Unit
  BodyFits (some body) = byte_length body ≤ max_request_body_bytes

  pub record IsShape (req : BrokerRequest) : Type 0 where
    pub url_fits : byte_length req.url ≤ max_request_url_bytes
    pub method_given : is_empty req.method ≡ false
    pub method_fits : byte_length req.method ≤ max_request_method_bytes
    pub method_reads : http.is_method req.method ≡ true
    pub few_headers : length req.headers ≤ max_request_headers
    pub headers_read : All IsHeader req.headers
    pub headers_fit : header_bytes_of req.headers ≤ max_request_header_bytes
    pub body_fits : BodyFits req.body

  check_header_success :
      (n : ℕ) (name value : Text) {t : ℕ}
      → check_header http n name value ≡ success t
      → IsHeader (name, value)
        × (n + (byte_length name + byte_length value) ≡ t)
        × (t ≤ max_request_header_bytes)
  unfolding check_header
  check_header_success n name value h = elim (Option-cases (http.header_name name)) [
    | inl e ↦ ground arith
    | inr (parsed, e) ↦ (
      record {
        name_fits = ground arith;
        value_fits = ground arith;
        parsed = parsed;
        reads = e;
        value_reads = ground arith;
        not_controlled = ground arith;
      },
      ground arith,
      ground arith,
    )
  ]

  check_header_of :
      (n : ℕ) {name value : Text}
      → IsHeader (name, value)
      → n + (byte_length name + byte_length value) ≤ max_request_header_bytes
      → check_header http n name value ≡ success (n + (byte_length name + byte_length value))
  unfolding check_header
  check_header_of n {name} {value} h fits = ground (arith, h.reads, h.not_controlled)

  pub check_headers_success :
      (n : ℕ) (headers : Assoc Text) {t : ℕ}
      → n ≤ max_request_header_bytes
      → check_headers http n headers ≡ success t
      → All IsHeader headers × (n + header_bytes_of headers ≡ t) × (t ≤ max_request_header_bytes)
  unfolding check_headers
  check_headers_success n [] le h = (tt, ground arith, ground arith)
  check_headers_success n ((name, value) ∷ headers) le h =
      let (total, now, rest) = bind-success (check_header http n name value) _ h in
      let (is, counted, fits) = check_header_success n name value now in
      let (all, sum, top) = check_headers_success total headers fits rest in
      ((is, all), omega (arith, counted, sum), top)

  pub check_headers_of :
      (n : ℕ) (headers : Assoc Text)
      → All IsHeader headers
      → n + header_bytes_of headers ≤ max_request_header_bytes
      → check_headers http n headers ≡ success (n + header_bytes_of headers)
  unfolding check_headers
  check_headers_of n [] all fits = ground arith
  check_headers_of n ((name, value) ∷ headers) (is, all) fits = ground (
    arith,
    check_header_of n is (omega arith),
    check_headers_of (n + (byte_length name + byte_length value)) headers all (omega arith),
  )

  check_body_iff : (body : Option Text) → (check_body body ≡ success tt) ↔ BodyFits body
  unfolding check_body
  check_body_iff none = (λ h. tt, λ h. refl)
  check_body_iff (some body) = ground arith

  -- The shape of a request passes exactly when every cap holds, the HTTP library reads the method
  -- and all headers, and no header is one that the vault sets itself. The caps on the headers
  -- together are on their sum.
  pub validate_request_shape-success_iff :
      (req : BrokerRequest) → (validate_request_shape http req ≡ success tt) ↔ IsShape req
  unfolding validate_request_shape
  validate_request_shape-success_iff req = (
    λ h. elim (Fallible-cases (check_headers http 0 req.headers)) [
      | inl (e, failed) ↦ ground arith
      | inr (total, passed) ↦
          let (all, sum, top) = check_headers_success 0 req.headers (omega arith) passed in
          record {
            url_fits = ground arith;
            method_given = ground arith;
            method_fits = ground arith;
            method_reads = ground arith;
            few_headers = ground arith;
            headers_read = all;
            headers_fit = omega (arith, sum);
            body_fits = (check_body_iff req.body).0 (ground arith);
          }
    ],
    λ s. ground (
      arith,
      s.method_given,
      s.method_reads,
      check_headers_of 0 req.headers s.headers_read (omega (arith, s.headers_fit)),
      (check_body_iff req.body).1 s.body_fits,
    ),
  )
