-- ===== src/Tests/Tokens.antt =====
-- Tokens and the registry of crates/sv-runtime/src/references at concrete inputs. The keyed hash
-- of a token is the token itself.
use sovereign_vault.Common.{
  ℕ, ◌≡◌, refl, ◌↔◌, true, false, none, some, List, [], ◌∷◌, codes, text_eq, arith,
}
use sovereign_vault.Runtime.Error.{ok, err, reference_invalid}
use sovereign_vault.References.Registry.Revoked.{revoked-refused}
use sovereign_vault.Runtime.Types.{ExposureClass, read}
use sovereign_vault.References.Base64.{base64url_encode, base64url_decode}
use sovereign_vault.References.Base64.Roundtrip.{base64url_decode-encode}
use sovereign_vault.References.Token.{ReferenceToken, IsToken, generate, parse, id_hash_eq}
use sovereign_vault.References.Token.Laws.{spelled, parse-spelled}
use sovereign_vault.References.Registry.{
  revoke, metadata, Entries, DestinationSelector, ReferenceEntry, ResolutionContext,
  MaterialUseGrant, MaterialLease, get, insert, lookup, check, create, authorize_material_use,
  same_selector,
}
use sovereign_vault.References.Registry.Map.{Permits, entry_check_iff}
use sovereign_vault.References.Registry.World.{
  drops, World, empty_world, creates, authorizes, Reach, here, next, uses_out,
}
use sovereign_vault.References.Registry.Uses.{Capped}
use sovereign_vault.References.Registry.Invariant.{uses-le-cap}

abbrev token : ReferenceToken
token =
    1 ∷ 2 ∷ 3 ∷ 4 ∷ 5 ∷ 6 ∷ 7 ∷ 8 ∷ 9 ∷ 10 ∷ 11 ∷ 12 ∷ 13 ∷ 14 ∷ 15 ∷ 16 ∷ 250 ∷ 251 ∷ 252 ∷ 253
    ∷ 254 ∷ 255 ∷ 0 ∷ 1 ∷ 2 ∷ 3 ∷ 4 ∷ 5 ∷ 6 ∷ 7 ∷ 8 ∷ 9 ∷ []

token-IsToken : IsToken token
token-IsToken = record { sized = refl; bytes = ground arith }

parse-spelled_example : parse (spelled 3 token) ≡ ok token
parse-spelled_example = parse-spelled 3 token (omega arith) token-IsToken

base64url_decode-encode_example :
    base64url_decode (base64url_encode (0 ∷ 255 ∷ [])) ≡ some (0 ∷ 255 ∷ [])
base64url_decode-encode_example =
    base64url_decode-encode (0 ∷ 255 ∷ []) (λ e. cc) (omega arith, (omega arith, tt))

abbrev here_only : DestinationSelector
here_only = record { transport = none; host = some (codes "h"); path = none; label = none }

abbrev entry_used : List ℕ → ℕ → ReferenceEntry
entry_used h n = record {
  id_hash = h;
  resource = codes "r";
  class = ExposureClass.reference_only;
  owner_principal = some (codes "p");
  audience = here_only ∷ [];
  allowed_operations = read ∷ [];
  created_at = 0;
  expires_at = 10;
  session_id = none;
  max_uses = some 2;
  use_count = n;
  metadata_projection = record {
    kind = codes "k";
    allowed_actions = read ∷ [];
    destination = [];
    expires_at = 10;
  };
  policy_version = 1;
  revoked = false;
}

abbrev context : ResolutionContext
context = record {
  principal = some (codes "p");
  session = none;
  operation = read;
  destination = here_only;
  now = 5;
}

abbrev grant : MaterialUseGrant
grant = record { context = context; operation_digest = 9 ∷ [] }

abbrev lease : MaterialLease
lease = record { resource = codes "r"; operation_digest = 9 ∷ []; id_hash = token; settled = false }

abbrev entries_used : ℕ → Entries
entries_used n = (token, entry_used token n) ∷ []

abbrev keyed : ReferenceToken → List ℕ
keyed t = t

creates_one : create keyed [] (some token) (entry_used [] 7) ≡ ok (entries_used 0, token)
unfolding create generate get insert
creates_one = refl

authorizes_one :
    authorize_material_use keyed (entries_used 0) token grant ≡ ok (entries_used 1, lease)
unfolding authorize_material_use lookup get insert check text_eq id_hash_eq same_selector
authorizes_one = refl

abbrev used_once : World
used_once = record { entries = entries_used 1; outstanding = lease ∷ []; spent = [] }

used_once-Reach : Reach keyed empty_world used_once
used_once-Reach =
    next (next here (creates (some token) (entry_used [] 7) token (entries_used 0) creates_one))
      (authorizes token grant lease (entries_used 1) authorizes_one)

gets_one : get used_once.entries token ≡ some (entry_used token 1)
unfolding get text_eq
gets_one = refl

uses-le-cap_example : (1 ≡ uses_out token used_once) × Capped (some 2) (uses_out token used_once)
uses-le-cap_example =
    uses-le-cap keyed used_once token (entry_used token 1) used_once-Reach gets_one

entry_check_iff_example :
    (check (entry_used token 1) context ≡ ok tt) ↔ Permits (entry_used token 1) context
entry_check_iff_example = entry_check_iff (entry_used token 1) context

abbrev revoked_entries : Entries
revoked_entries = (token, record (entry_used token 1) { revoked = true }) ∷ []

revokes_one : revoke keyed used_once.entries token ≡ ok revoked_entries
unfolding revoke get insert text_eq
revokes_one = refl

abbrev revoked_world : World
revoked_world = record used_once { entries = revoked_entries }

-- The lease that is still out is dropped after the revocation.
abbrev later_world : World
later_world = record revoked_world { outstanding = []; spent = token ∷ [] }

later-Reach : Reach keyed revoked_world later_world
later-Reach = next here (drops [] [] lease refl)

revoked-refused_example :
    (authorize_material_use keyed later_world.entries token grant ≡ err reference_invalid)
    × (metadata keyed later_world.entries token grant.context ≡ err reference_invalid)
revoked-refused_example =
    revoked-refused keyed used_once later_world token revoked_entries grant revokes_one later-Reach
