-- ===== src/Tests/Serial.antt =====
-- An encoding of records and checkpoints with the laws that the audit log relies on of JSON: each
-- value is written behind the ones before it, and read back from the front.
use sovereign_vault.Common.{
  ℕ, zero, suc, ◌≡◌, refl, Bool, true, false, Option, none, some, List, [], ◌∷◌, Text, length,
  get_elem?,
}
use sovereign_vault.Audit.{AuditAction, AuditDecision, PresenceOutcome, PresenceModality}

pub record Serial (A : Type 0) : Type 0 where
  pub put : A → List ℕ → List ℕ
  pub get : List ℕ → Option (A × List ℕ)
  pub back : (a : A) (rest : List ℕ) → get (put a rest) ≡ some (a, rest)

abbrev then_get :
    {A B : Type 0} → Option (A × List ℕ) → (A → List ℕ → Option (B × List ℕ)) → Option (B × List ℕ)
then_get none f = none
then_get (some (a, rest)) f = f a rest

abbrev first : List ℕ → Option (ℕ × List ℕ)
first [] = none
first (n ∷ rest) = some (n, rest)

abbrev pub number : Serial ℕ
number = record { put = λ n rest. n ∷ rest; get = first; back = λ n rest. refl }

abbrev flag_of : ℕ → Bool
flag_of zero = false
flag_of (suc n) = true

abbrev flag_number : Bool → ℕ
flag_number false = 0
flag_number true = 1

pub flag_back : (b : Bool) → flag_of (flag_number b) ≡ b
flag_back true = refl
flag_back false = refl

-- Counted elements.
abbrev get_counted :
    {A : Type 0} → (List ℕ → Option (A × List ℕ)) → ℕ → List ℕ → Option (List A × List ℕ)
get_counted get zero rest = some ([], rest)
get_counted get (suc n) rest =
    then_get (get rest)
      λ a more. then_get (get_counted get n more) λ vs others. some (a ∷ vs, others)

module _ {A : Type 0} (serial : Serial A) where
  abbrev put_all : List A → List ℕ → List ℕ
  put_all [] rest = rest
  put_all (a ∷ vs) rest = serial.put a (put_all vs rest)

  pub counted_back :
      (vs : List A) (rest : List ℕ)
      → get_counted serial.get (length vs) (put_all vs rest) ≡ some (vs, rest)
  counted_back [] rest = refl
  counted_back (a ∷ vs) rest = rw (serial.back a (put_all vs rest)) (rw (counted_back vs rest) refl)

  abbrev listed : Serial (List A)
  listed = record {
    put = λ vs rest. length vs ∷ put_all vs rest;
    get = λ s. then_get (first s) λ n rest. get_counted serial.get n rest;
    back = counted_back;
  }

  abbrev put_option : Option A → List ℕ → List ℕ
  put_option none rest = 0 ∷ rest
  put_option (some a) rest = 1 ∷ serial.put a rest

  abbrev get_option : List ℕ → Option (Option A × List ℕ)
  get_option [] = none
  get_option (zero ∷ rest) = some (none, rest)
  get_option (suc n ∷ rest) = then_get (serial.get rest) λ a more. some (some a, more)

  pub option_back : (o : Option A) (rest : List ℕ) → get_option (put_option o rest) ≡ some (o, rest)
  option_back none rest = refl
  option_back (some a) rest = rw (serial.back a rest) refl

  abbrev pub optional : Serial (Option A)
  optional = record { put = put_option; get = get_option; back = option_back }

  -- A type with the same values.
  module _ {B : Type 0} (to : B → A) (from : A → B) (same : (b : B) → from (to b) ≡ b) where
    pub as_back :
        (b : B) (rest : List ℕ)
        → then_get (serial.get (serial.put (to b) rest)) (λ a more. some (from a, more))
          ≡ some (b, rest)
    as_back b rest = rw (serial.back (to b) rest) (rw (same b) refl)

    abbrev pub as_ : Serial B
    as_ = record {
      put = λ b rest. serial.put (to b) rest;
      get = λ s. then_get (serial.get s) λ a more. some (from a, more);
      back = as_back;
    }

abbrev pub text : Serial Text
text = listed number

abbrev pub flag : Serial Bool
flag = as_ number flag_number flag_of flag_back

module _ {A B : Type 0} (left : Serial A) (right : Serial B) where
  abbrev get_pair : List ℕ → Option ((A × B) × List ℕ)
  get_pair s =
      then_get (left.get s) λ a rest. then_get (right.get rest) λ b more. some ((a, b), more)

  pub pair_back :
      (p : A × B) (rest : List ℕ) → get_pair (left.put p.0 (right.put p.1 rest)) ≡ some (p, rest)
  pair_back (a, b) rest = rw (left.back a (right.put b rest)) (rw (right.back b rest) refl)

  abbrev pub both : Serial (A × B)
  both = record {
    put = λ p rest. left.put p.0 (right.put p.1 rest);
    get = get_pair;
    back = pair_back;
  }

module _ {A : Type 0} (values : List A) (to : A → ℕ)
    (same : (a : A) → get_elem? values (to a) ≡ some a) where
  abbrev pick : Option A → List ℕ → Option (A × List ℕ)
  pick none rest = none
  pick (some a) rest = some (a, rest)

  pub number_back : (a : A) (rest : List ℕ) → pick (get_elem? values (to a)) rest ≡ some (a, rest)
  number_back a rest = rw (same a) refl

  abbrev by_number : Serial A
  by_number = record {
    put = λ a rest. to a ∷ rest;
    get = λ s. then_get (first s) λ n rest. pick (get_elem? values n) rest;
    back = number_back;
  }

abbrev audit_action_list : List AuditAction
audit_action_list =
    AuditAction.vault_init ∷ AuditAction.vault_unlock ∷ AuditAction.vault_unlock_recovery
    ∷ AuditAction.vault_lock ∷ AuditAction.recovery_issued ∷ AuditAction.passphrase_changed
    ∷ AuditAction.key_rotated ∷ AuditAction.list_containers ∷ AuditAction.list_files
    ∷ AuditAction.read_file ∷ AuditAction.write_file ∷ AuditAction.delete_file
    ∷ AuditAction.create_container ∷ AuditAction.delete_container ∷ AuditAction.agent_create
    ∷ AuditAction.agent_list ∷ AuditAction.agent_revoke ∷ AuditAction.agent_export
    ∷ AuditAction.agent_import ∷ AuditAction.create_transit_key ∷ AuditAction.list_transit_keys
    ∷ AuditAction.encrypt ∷ AuditAction.decrypt ∷ AuditAction.create_signing_key
    ∷ AuditAction.list_signing_keys ∷ AuditAction.sign ∷ AuditAction.verify
    ∷ AuditAction.create_broker_secret ∷ AuditAction.list_broker_secrets ∷ AuditAction.broker
    ∷ AuditAction.vault_info ∷ AuditAction.scan_run ∷ AuditAction.scan_store
    ∷ AuditAction.scan_reveal ∷ AuditAction.plan_create ∷ AuditAction.plan_approve
    ∷ AuditAction.plan_execute ∷ AuditAction.redaction_restore ∷ []

abbrev audit_action_number : AuditAction → ℕ
audit_action_number AuditAction.vault_init = 0
audit_action_number AuditAction.vault_unlock = 1
audit_action_number AuditAction.vault_unlock_recovery = 2
audit_action_number AuditAction.vault_lock = 3
audit_action_number AuditAction.recovery_issued = 4
audit_action_number AuditAction.passphrase_changed = 5
audit_action_number AuditAction.key_rotated = 6
audit_action_number AuditAction.list_containers = 7
audit_action_number AuditAction.list_files = 8
audit_action_number AuditAction.read_file = 9
audit_action_number AuditAction.write_file = 10
audit_action_number AuditAction.delete_file = 11
audit_action_number AuditAction.create_container = 12
audit_action_number AuditAction.delete_container = 13
audit_action_number AuditAction.agent_create = 14
audit_action_number AuditAction.agent_list = 15
audit_action_number AuditAction.agent_revoke = 16
audit_action_number AuditAction.agent_export = 17
audit_action_number AuditAction.agent_import = 18
audit_action_number AuditAction.create_transit_key = 19
audit_action_number AuditAction.list_transit_keys = 20
audit_action_number AuditAction.encrypt = 21
audit_action_number AuditAction.decrypt = 22
audit_action_number AuditAction.create_signing_key = 23
audit_action_number AuditAction.list_signing_keys = 24
audit_action_number AuditAction.sign = 25
audit_action_number AuditAction.verify = 26
audit_action_number AuditAction.create_broker_secret = 27
audit_action_number AuditAction.list_broker_secrets = 28
audit_action_number AuditAction.broker = 29
audit_action_number AuditAction.vault_info = 30
audit_action_number AuditAction.scan_run = 31
audit_action_number AuditAction.scan_store = 32
audit_action_number AuditAction.scan_reveal = 33
audit_action_number AuditAction.plan_create = 34
audit_action_number AuditAction.plan_approve = 35
audit_action_number AuditAction.plan_execute = 36
audit_action_number AuditAction.redaction_restore = 37

pub audit_action_back :
    (a : AuditAction) → get_elem? audit_action_list (audit_action_number a) ≡ some a
audit_action_back AuditAction.vault_init = refl
audit_action_back AuditAction.vault_unlock = refl
audit_action_back AuditAction.vault_unlock_recovery = refl
audit_action_back AuditAction.vault_lock = refl
audit_action_back AuditAction.recovery_issued = refl
audit_action_back AuditAction.passphrase_changed = refl
audit_action_back AuditAction.key_rotated = refl
audit_action_back AuditAction.list_containers = refl
audit_action_back AuditAction.list_files = refl
audit_action_back AuditAction.read_file = refl
audit_action_back AuditAction.write_file = refl
audit_action_back AuditAction.delete_file = refl
audit_action_back AuditAction.create_container = refl
audit_action_back AuditAction.delete_container = refl
audit_action_back AuditAction.agent_create = refl
audit_action_back AuditAction.agent_list = refl
audit_action_back AuditAction.agent_revoke = refl
audit_action_back AuditAction.agent_export = refl
audit_action_back AuditAction.agent_import = refl
audit_action_back AuditAction.create_transit_key = refl
audit_action_back AuditAction.list_transit_keys = refl
audit_action_back AuditAction.encrypt = refl
audit_action_back AuditAction.decrypt = refl
audit_action_back AuditAction.create_signing_key = refl
audit_action_back AuditAction.list_signing_keys = refl
audit_action_back AuditAction.sign = refl
audit_action_back AuditAction.verify = refl
audit_action_back AuditAction.create_broker_secret = refl
audit_action_back AuditAction.list_broker_secrets = refl
audit_action_back AuditAction.broker = refl
audit_action_back AuditAction.vault_info = refl
audit_action_back AuditAction.scan_run = refl
audit_action_back AuditAction.scan_store = refl
audit_action_back AuditAction.scan_reveal = refl
audit_action_back AuditAction.plan_create = refl
audit_action_back AuditAction.plan_approve = refl
audit_action_back AuditAction.plan_execute = refl
audit_action_back AuditAction.redaction_restore = refl

abbrev pub audit_action_serial : Serial AuditAction
audit_action_serial = by_number audit_action_list audit_action_number audit_action_back

abbrev audit_decision_list : List AuditDecision
audit_decision_list =
    AuditDecision.attempted ∷ AuditDecision.allowed ∷ AuditDecision.denied ∷ AuditDecision.error
    ∷ []

abbrev audit_decision_number : AuditDecision → ℕ
audit_decision_number AuditDecision.attempted = 0
audit_decision_number AuditDecision.allowed = 1
audit_decision_number AuditDecision.denied = 2
audit_decision_number AuditDecision.error = 3

pub audit_decision_back :
    (a : AuditDecision) → get_elem? audit_decision_list (audit_decision_number a) ≡ some a
audit_decision_back AuditDecision.attempted = refl
audit_decision_back AuditDecision.allowed = refl
audit_decision_back AuditDecision.denied = refl
audit_decision_back AuditDecision.error = refl

abbrev pub audit_decision_serial : Serial AuditDecision
audit_decision_serial = by_number audit_decision_list audit_decision_number audit_decision_back

abbrev presence_outcome_list : List PresenceOutcome
presence_outcome_list = PresenceOutcome.device_owner_authenticated ∷ PresenceOutcome.click ∷ []

abbrev presence_outcome_number : PresenceOutcome → ℕ
presence_outcome_number PresenceOutcome.device_owner_authenticated = 0
presence_outcome_number PresenceOutcome.click = 1

pub presence_outcome_back :
    (a : PresenceOutcome) → get_elem? presence_outcome_list (presence_outcome_number a) ≡ some a
presence_outcome_back PresenceOutcome.device_owner_authenticated = refl
presence_outcome_back PresenceOutcome.click = refl

abbrev pub presence_outcome_serial : Serial PresenceOutcome
presence_outcome_serial =
    by_number presence_outcome_list presence_outcome_number presence_outcome_back

abbrev presence_modality_list : List PresenceModality
presence_modality_list =
    PresenceModality.biometric ∷ PresenceModality.password ∷ PresenceModality.pin
    ∷ PresenceModality.unknown ∷ []

abbrev presence_modality_number : PresenceModality → ℕ
presence_modality_number PresenceModality.biometric = 0
presence_modality_number PresenceModality.password = 1
presence_modality_number PresenceModality.pin = 2
presence_modality_number PresenceModality.unknown = 3

pub presence_modality_back :
    (a : PresenceModality) → get_elem? presence_modality_list (presence_modality_number a) ≡ some a
presence_modality_back PresenceModality.biometric = refl
presence_modality_back PresenceModality.password = refl
presence_modality_back PresenceModality.pin = refl
presence_modality_back PresenceModality.unknown = refl

abbrev pub presence_modality_serial : Serial PresenceModality
presence_modality_serial =
    by_number presence_modality_list presence_modality_number presence_modality_back
