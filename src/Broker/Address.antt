-- ===== src/Broker/Address.antt =====
-- crates/sv-core/src/broker.rs: the addresses a request must not reach, and the screening of what a
-- host name resolves to. The masks of the source keep the high bits of a segment of 16 bits, so
-- they are a division. The methods of `std::net` are written out.
pub mod Blocks
pub mod Mapped
pub mod Screen
use sovereign_vault.Common.{
  is_nil, ℕ, ◌*◌, ◌/◌, ◌%◌, ◌+◌, ◌^◌, Bool, true, false, ◌&&◌, ◌||◌, not, Option, none, some, List,
  [], ◌∷◌, Text, codes, ltb, leb, ◌==◌, if◌then◌else◌,
}
use sovereign_vault.Common.Fallible.{Fallible, success, failure, ◌>>=◌, ◌>>◌, fail_if, ok_or}
use sovereign_vault.Broker.{
  Ipv4Addr, Ipv6Addr, IpAddr, v4, v6, BrokerError, disabled, invalid_url, scheme_not_https,
  not_allowed, blocked_address, dns, upstream, request_too_large, header_not_permitted,
  response_too_large, BrokerRequest, BrokerResponse, BrokerAllow, BrokerInjection, bearer_auth,
  header, ResolvedBrokerSecret, ValidatedTarget, lower, to_ascii_lowercase, eq_ignore_ascii_case,
  byte_length, max_response_bytes, max_request_body_bytes, max_request_headers,
  max_request_header_bytes, max_request_header_name_bytes, max_request_header_value_bytes,
  max_request_url_bytes, max_request_method_bytes, is_enabled,
}

-- `Ipv4Addr::is_loopback`, `is_private`, `is_link_local`, `is_broadcast`, `is_unspecified`.
unfoldable pub is_loopback_v4 : Ipv4Addr → Bool
is_loopback_v4 ip = ip.o0 == 127

unfoldable pub is_private : Ipv4Addr → Bool
is_private ip =
    ip.o0 == 10
    || (ip.o0 == 172 && (leb 16 ip.o1 && leb ip.o1 31))
    || (ip.o0 == 192 && ip.o1 == 168)

unfoldable pub is_link_local : Ipv4Addr → Bool
is_link_local ip = ip.o0 == 169 && ip.o1 == 254

unfoldable pub is_broadcast : Ipv4Addr → Bool
is_broadcast ip = ip.o0 == 255 && (ip.o1 == 255 && (ip.o2 == 255 && ip.o3 == 255))

unfoldable pub is_unspecified_v4 : Ipv4Addr → Bool
is_unspecified_v4 ip = ip.o0 == 0 && (ip.o1 == 0 && (ip.o2 == 0 && ip.o3 == 0))

unfoldable pub is_blocked_v4 : Ipv4Addr → Bool
unfolding is_loopback_v4 is_private is_link_local is_broadcast is_unspecified_v4
is_blocked_v4 ip =
    is_loopback_v4 ip
    || is_private ip
    || is_link_local ip
    || is_broadcast ip
    || is_unspecified_v4 ip
    || ip.o0 == 0
    || (ip.o0 == 100 && (leb 64 ip.o1 && leb ip.o1 127))
    || (ip.o0 == 192 && (ip.o1 == 0 && ip.o2 == 0))
    || (ip.o0 == 192 && (ip.o1 == 0 && ip.o2 == 2))
    || (ip.o0 == 192 && (ip.o1 == 88 && ip.o2 == 99))
    || (ip.o0 == 198 && (ip.o1 == 18 || ip.o1 == 19))
    || (ip.o0 == 198 && (ip.o1 == 51 && ip.o2 == 100))
    || (ip.o0 == 203 && (ip.o1 == 0 && ip.o2 == 113))
    || leb 224 ip.o0

-- Segments one to four, and five, are zero.
abbrev middle_zero : Ipv6Addr → Bool
middle_zero ip = ip.s2 == 0 && (ip.s3 == 0 && (ip.s4 == 0 && ip.s5 == 0))

-- `Ipv6Addr::is_loopback`, `is_unspecified`, `is_multicast`, `to_ipv4_mapped`.
unfoldable pub is_loopback_v6 : Ipv6Addr → Bool
is_loopback_v6 ip = ip.s0 == 0 && (ip.s1 == 0 && (middle_zero ip && (ip.s6 == 0 && ip.s7 == 1)))

unfoldable pub is_unspecified_v6 : Ipv6Addr → Bool
is_unspecified_v6 ip = ip.s0 == 0 && (ip.s1 == 0 && (middle_zero ip && (ip.s6 == 0 && ip.s7 == 0)))

unfoldable pub is_multicast : Ipv6Addr → Bool
is_multicast ip = (ip.s0 / 2 ^ 8 * 2 ^ 8) == 0xff00

-- The last two segments as four octets, as a shift and a cast to 8 bits.
abbrev pub last_octets : Ipv6Addr → Ipv4Addr
last_octets ip = record {
  o0 = ip.s6 / 2 ^ 8 % 2 ^ 8;
  o1 = ip.s6 % 2 ^ 8;
  o2 = ip.s7 / 2 ^ 8 % 2 ^ 8;
  o3 = ip.s7 % 2 ^ 8;
}

unfoldable pub to_ipv4_mapped : Ipv6Addr → Option Ipv4Addr
to_ipv4_mapped ip =
    if ip.s0 == 0 && (ip.s1 == 0 && (ip.s2 == 0 && (ip.s3 == 0 && (ip.s4 == 0 && ip.s5 == 0xffff))))
    then some (last_octets ip)
    else none

-- The tests behind the check for a mapped address.
unfoldable pub is_blocked_embedded : Ipv6Addr → Option Ipv4Addr → Bool
unfolding is_blocked_v4
is_blocked_embedded ip (some mapped) = is_blocked_v4 mapped
is_blocked_embedded ip none =
    if ip.s0 == 0x0064 && (ip.s1 == 0xff9b && middle_zero ip)
    then is_blocked_v4 (last_octets ip)
    else false

unfoldable pub is_blocked_v6 : Ipv6Addr → Bool
unfolding is_loopback_v6 is_unspecified_v6 is_multicast is_blocked_embedded to_ipv4_mapped
is_blocked_v6 ip =
    if is_loopback_v6 ip || is_unspecified_v6 ip || is_multicast ip
    then true
    else if (ip.s0 / 2 ^ 9 * 2 ^ 9) == 0xfc00
    then true
    else if (ip.s0 / 2 ^ 6 * 2 ^ 6) == 0xfe80
    then true
    else if (ip.s0 / 2 ^ 6 * 2 ^ 6) == 0xfec0 || (ip.s0 == 0x2001 && ip.s1 == 0x0db8)
    then true
    else is_blocked_embedded ip (to_ipv4_mapped ip)

unfoldable pub is_blocked_ip : IpAddr → Bool
unfolding is_blocked_v4 is_blocked_v6
is_blocked_ip (v4 ip) = is_blocked_v4 ip
is_blocked_ip (v6 ip) = is_blocked_v6 ip

-- The loop over the addresses.
unfoldable pub screen : List IpAddr → Fallible BrokerError (Unit {0})
unfolding is_blocked_ip
screen [] = success tt
screen (ip ∷ addrs) = do fail_if (is_blocked_ip ip) (blocked_address ip); screen addrs

-- `resolve_and_screen`, of what `to_socket_addrs` answered.
unfoldable pub screen_answer :
    (answer : Fallible Text (List IpAddr)) → BrokerAllow → Fallible BrokerError (List IpAddr)
unfolding screen
screen_answer (failure e) allow = failure (dns e)
screen_answer (success addrs) allow = do
  fail_if (is_nil addrs) (dns (codes "no addresses"))
  if allow.allow_private_ip then success tt else screen addrs
  success addrs

unfoldable pub resolve_and_screen :
    (resolve : Text → ℕ → Fallible Text (List IpAddr)) (host : Text) (port : ℕ)
    → BrokerAllow
    → Fallible BrokerError (List IpAddr)
unfolding screen_answer
resolve_and_screen resolve host port allow = screen_answer (resolve host port) allow
