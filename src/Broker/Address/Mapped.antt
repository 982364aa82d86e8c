-- ===== src/Broker/Address/Mapped.antt =====
-- crates/sv-core/src/broker.rs: IPv4 addresses written as IPv6 addresses.
use sovereign_vault.Common.{ℕ, ◌*◌, ◌/◌, ◌%◌, ◌+◌, ◌^◌, ◌≡◌, ap, arith, IsByte}
use sovereign_vault.Broker.{Ipv4Addr, Ipv6Addr}
use sovereign_vault.Broker.Address.{is_blocked_v4, is_blocked_v6, last_octets}
use sovereign_vault.Broker.Address.Blocks.{IsIpv4}

-- ::ffff:a.b.c.d, `Ipv4Addr::to_ipv6_mapped`.
abbrev pub to_ipv6_mapped : Ipv4Addr → Ipv6Addr
to_ipv6_mapped ip = record {
  s0 = 0;
  s1 = 0;
  s2 = 0;
  s3 = 0;
  s4 = 0;
  s5 = 0xffff;
  s6 = ip.o0 * 2 ^ 8 + ip.o1;
  s7 = ip.o2 * 2 ^ 8 + ip.o3;
}

-- 64:ff9b::a.b.c.d, the translation of RFC 6052.
abbrev pub to_dns64 : Ipv4Addr → Ipv6Addr
to_dns64 ip = record {
  s0 = 0x64;
  s1 = 0xff9b;
  s2 = 0;
  s3 = 0;
  s4 = 0;
  s5 = 0;
  s6 = ip.o0 * 2 ^ 8 + ip.o1;
  s7 = ip.o2 * 2 ^ 8 + ip.o3;
}

high_octet : (a b : ℕ) → IsByte a → IsByte b → (a * 2 ^ 8 + b) / 2 ^ 8 % 2 ^ 8 ≡ a
high_octet a b ha hb = omega arith

low_octet : (a b : ℕ) → IsByte b → (a * 2 ^ 8 + b) % 2 ^ 8 ≡ b
low_octet a b hb = omega arith

last_octets-mapped : (ip : Ipv4Addr) → IsIpv4 ip → last_octets (to_ipv6_mapped ip) ≡ ip
last_octets-mapped ip h =
    let a = high_octet ip.o0 ip.o1 h.b0 h.b1 in
    let b = low_octet ip.o0 ip.o1 h.b1 in
    let c = high_octet ip.o2 ip.o3 h.b2 h.b3 in let d = low_octet ip.o2 ip.o3 h.b3 in ground arith

-- An IPv4 address is blocked or not the same when it comes as an IPv4-mapped IPv6 address or
-- behind the DNS64 prefix.
pub is_blocked_v6-embedded :
    (ip : Ipv4Addr)
    → IsIpv4 ip
    → (is_blocked_v6 (to_ipv6_mapped ip) ≡ is_blocked_v4 ip)
      × (is_blocked_v6 (to_dns64 ip) ≡ is_blocked_v4 ip)
unfolding is_blocked_v6
is_blocked_v6-embedded ip h =
    (ap is_blocked_v4 (last_octets-mapped ip h), ap is_blocked_v4 (last_octets-mapped ip h))
