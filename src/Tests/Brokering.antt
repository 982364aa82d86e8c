-- ===== src/Tests/Brokering.antt =====
-- crates/sv-core/src/broker.rs: a call of an API with a secret, from the request to the response.
use sovereign_vault.Common.{
  text_eq, ◌≡◌, refl, true, false, none, some, [], ◌∷◌, Text, codes, arith, any,
}
use sovereign_vault.Common.Fallible.{success, failure}
use sovereign_vault.Broker.{
  Ipv4Addr, v4, BrokerRequest, BrokerResponse, BrokerAllow, bearer_auth, ResolvedBrokerSecret,
  ValidatedTarget, blocked_address, byte_length,
}
use sovereign_vault.Broker.Shape.{HttpTypes, is_broker_controlled_header}
use sovereign_vault.Broker.Target.{Url, validate_against_allowlist, path_prefix_matches, occurs}
use sovereign_vault.Broker.Target.Laws.{IsPlain, Admitted, validate_against_allowlist_sound}
use sovereign_vault.Broker.Shape.Laws.{IsShape}
use sovereign_vault.Broker.Address.{is_blocked_v4, is_blocked_v6, screen_answer}
use sovereign_vault.Broker.Address.Blocks.{IsIpv4, in_block, blocked, is_blocked_v4-blocks}
use sovereign_vault.Broker.Address.Mapped.{to_ipv6_mapped, to_dns64, is_blocked_v6-embedded}
use sovereign_vault.Broker.Execute.{Network, Outbound, Reply, prepare, receive, execute}
use sovereign_vault.Broker.Execute.Sends.{IsGuarded, prepare-IsGuarded}
use sovereign_vault.Broker.Execute.Receives.{Hides, receive-Hides}

abbrev api_url : Url
api_url = record {
  scheme = codes "https";
  username = [];
  password = none;
  fragment = none;
  host_str = some (codes "api.test");
  path = codes "/v1/items";
  port_or_known_default = some 443;
}

abbrev public_address : Ipv4Addr
public_address = record { o0 = 93; o1 = 184; o2 = 216; o3 = 34 }

abbrev metadata_address : Ipv4Addr
metadata_address = record { o0 = 169; o1 = 254; o2 = 169; o3 = 254 }

abbrev plain_http : HttpTypes
plain_http = record {
  is_method = λ m. true;
  header_name = λ name. some name;
  is_header_value = λ value. true;
}

abbrev reply : Reply
reply = record {
  status = 200;
  headers = (codes "set-cookie", some (codes "x")) ∷ (codes "echo", some (codes "k9!")) ∷ [];
  content_length = none;
  chunks = success (codes "a k9! b") ∷ [];
}

abbrev network : Network
network = record {
  http = plain_http;
  parse = λ text. success api_url;
  resolve = λ host port. success (v4 public_address ∷ []);
  build_client = λ host addrs. success tt;
  send = λ out. success reply;
  from_utf8_lossy = λ bytes. bytes;
  method_error = codes "method";
  name_error = codes "name";
  value_error = codes "value";
}

abbrev get_items : BrokerRequest
get_items = record {
  method = codes "get";
  url = codes "https://api.test/v1/items";
  headers = (codes "accept", codes "*/*") ∷ [];
  body = none;
}

abbrev items_only : BrokerAllow
items_only = record {
  host = codes "api.test";
  path_prefix = codes "/v1";
  methods = codes "GET" ∷ [];
  allow_private_ip = false;
}

abbrev api_secret : ResolvedBrokerSecret
api_secret = record { secret = codes "k9!"; allow = items_only ∷ []; injection = bearer_auth }

abbrev items_target : ValidatedTarget
items_target = record {
  host = codes "api.test";
  path = codes "/v1/items";
  method = codes "GET";
  allow = items_only;
}

abbrev items_call : Outbound
items_call = record {
  host = codes "api.test";
  port = 443;
  addrs = v4 public_address ∷ [];
  method = codes "GET";
  url = api_url;
  headers = (codes "accept", codes "*/*") ∷ (codes "authorization", codes "Bearer k9!") ∷ [];
  body = none;
}

abbrev items_response : BrokerResponse
items_response = record {
  status = 200;
  headers = (codes "echo", codes "<redacted>") ∷ [];
  body = codes "a <redacted> b";
}

runs : execute network (some (codes "1")) get_items api_secret ≡ success items_response
unfolding execute byte_length is_broker_controlled_header
runs = refl

metadata_refused :
    screen_answer (success (v4 public_address ∷ v4 metadata_address ∷ [])) items_only
    ≡ failure (blocked_address (v4 metadata_address))
unfolding screen_answer
metadata_refused = refl

sibling_refused : path_prefix_matches (codes "/v1") (codes "/v10") ≡ false
unfolding path_prefix_matches
sibling_refused = refl

prepared : prepare network (some (codes "1")) get_items api_secret ≡ success items_call
unfolding prepare byte_length is_broker_controlled_header
prepared = refl

prepare-IsGuarded_example : IsGuarded network (some (codes "1")) get_items api_secret items_call
prepare-IsGuarded_example =
    prepare-IsGuarded network (some (codes "1")) get_items api_secret items_call prepared

let_through :
    validate_against_allowlist plain_http network.parse get_items (items_only ∷ [])
    ≡ success items_target
unfolding validate_against_allowlist byte_length is_broker_controlled_header
let_through = refl

validate_against_allowlist_sound_example :
    IsShape plain_http get_items
    × ((url : Url) × (network.parse get_items.url ≡ success url)
        × ((host : Text) × IsPlain url host
            × Admitted get_items.method url (items_only ∷ []) host items_target))
validate_against_allowlist_sound_example =
    validate_against_allowlist_sound plain_http network.parse get_items (items_only ∷ [])
      items_target let_through

metadata-IsIpv4 : IsIpv4 metadata_address
metadata-IsIpv4 = record { b0 = omega arith; b1 = omega arith; b2 = omega arith; b3 = omega arith }

is_blocked_v4-blocks_example :
    is_blocked_v4 metadata_address ≡ any (in_block metadata_address) blocked
is_blocked_v4-blocks_example = is_blocked_v4-blocks metadata_address metadata-IsIpv4

is_blocked_v6-embedded_example :
    (is_blocked_v6 (to_ipv6_mapped metadata_address) ≡ is_blocked_v4 metadata_address)
    × (is_blocked_v6 (to_dns64 metadata_address) ≡ is_blocked_v4 metadata_address)
is_blocked_v6-embedded_example = is_blocked_v6-embedded metadata_address metadata-IsIpv4

received : receive network (codes "k9!") reply ≡ success items_response
unfolding receive text_eq
received = refl

unlike_marker : occurs (codes "k9!") (codes "redacted") ≡ false
unfolding occurs
unlike_marker = refl

receive-Hides_example : Hides network (codes "k9!") reply items_response
receive-Hides_example =
    receive-Hides network (codes "k9!") reply items_response refl refl unlike_marker received
