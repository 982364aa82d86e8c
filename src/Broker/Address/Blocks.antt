-- ===== src/Broker/Address/Blocks.antt =====
-- crates/sv-core/src/broker.rs: the blocked IPv4 addresses as a table of address blocks.
use sovereign_vault.Common.{
  sym, ◌∙◌, ℕ, ◌*◌, ◌/◌, ◌+◌, ◌-◌, ◌^◌, ◌≡◌, refl, Bool, true, false, ◌||◌, ◌&&◌, List, [], ◌∷◌,
  any, arith, ◌==◌, IsByte, leb,
}
use sovereign_vault.Broker.{Ipv4Addr}
use sovereign_vault.Broker.Address.{is_unspecified_v4, is_broadcast, is_blocked_v4}

-- A block in the notation a.b.c.d/size.
pub record Block : Type 0 where
  pub base : Ipv4Addr
  pub size : ℕ

abbrev pub address : Ipv4Addr → ℕ
address ip = ((ip.o0 * 2 ^ 8 + ip.o1) * 2 ^ 8 + ip.o2) * 2 ^ 8 + ip.o3

-- The first `size` bits are those of the base.
abbrev pub in_block : Ipv4Addr → Block → Bool
in_block ip block =
    (address ip / 2 ^ (32 - block.size)) == (address block.base / 2 ^ (32 - block.size))

abbrev at : (a b c d size : ℕ) → Block
at a b c d size = record { base = record { o0 = a; o1 = b; o2 = c; o3 = d }; size = size }

-- The special-purpose blocks of the IANA registry that the broker refuses.
abbrev pub blocked : List Block
blocked =
    at 127 0 0 0 8
    ∷ at 10 0 0 0 8
    ∷ at 172 16 0 0 12
    ∷ at 192 168 0 0 16
    ∷ at 169 254 0 0 16
    ∷ at 0 0 0 0 8
    ∷ at 100 64 0 0 10
    ∷ at 192 0 0 0 24
    ∷ at 192 0 2 0 24
    ∷ at 192 88 99 0 24
    ∷ at 198 18 0 0 15
    ∷ at 198 51 100 0 24
    ∷ at 203 0 113 0 24
    ∷ at 224 0 0 0 3
    ∷ []

pub record IsIpv4 (ip : Ipv4Addr) : Type 0 where
  pub b0 : IsByte ip.o0
  pub b1 : IsByte ip.o1
  pub b2 : IsByte ip.o2
  pub b3 : IsByte ip.o3

-- The broadcast and the unspecified address lie in larger blocks.
absorb :
    (t0 t1 t2 t3 t4 t5 t6 t7 t8 t9 t10 t11 t12 t13 broadcast unspecified : Bool)
    → (broadcast ≡ true → t13 ≡ true)
    → (unspecified ≡ true → t5 ≡ true)
    → (t0
        || (t1 || t2 || t3)
        || t4
        || broadcast
        || unspecified
        || t5
        || t6
        || t7
        || t8
        || t9
        || t10
        || t11
        || t12
        || t13)
      ≡ (t0
          || (t1
              || (t2
                  || (t3
                      || (t4
                          || (t5
                              || (t6
                                  || (t7
                                      || (t8
                                          || (t9
                                              || (t10 || (t11 || (t12 || (t13 || false))))))))))))))
absorb t0 t1 t2 t3 t4 t5 t6 t7 t8 t9 t10 t11 t12 t13 broadcast unspecified hb hu = ground arith

broadcast_in : (ip : Ipv4Addr) → is_broadcast ip ≡ true → leb 224 ip.o0 ≡ true
unfolding is_broadcast
broadcast_in ip h = ground arith

unspecified_in : (ip : Ipv4Addr) → is_unspecified_v4 ip ≡ true → (ip.o0 == 0) ≡ true
unfolding is_unspecified_v4
unspecified_in ip h = ground arith

or_cong : {a b c d : Bool} → a ≡ b → c ≡ d → (a || c) ≡ (b || d)
or_cong e f = ground arith

module _ (ip : Ipv4Addr) (h : IsIpv4 ip) where
  -- The leading bits of an address, in terms of its octets.
  leading3 : address ip / 2 ^ 29 ≡ ip.o0 / 32
  leading3 = omega (arith, h.b0, h.b1, h.b2, h.b3)

  leading8 : address ip / 2 ^ 24 ≡ ip.o0
  leading8 = omega (arith, h.b0, h.b1, h.b2, h.b3)

  leading10 : address ip / 2 ^ 22 ≡ ip.o0 * 4 + ip.o1 / 64
  leading10 = omega (arith, h.b0, h.b1, h.b2, h.b3)

  leading12 : address ip / 2 ^ 20 ≡ ip.o0 * 16 + ip.o1 / 16
  leading12 = omega (arith, h.b0, h.b1, h.b2, h.b3)

  leading15 : address ip / 2 ^ 17 ≡ ip.o0 * 128 + ip.o1 / 2
  leading15 = omega (arith, h.b0, h.b1, h.b2, h.b3)

  leading16 : address ip / 2 ^ 16 ≡ ip.o0 * 256 + ip.o1
  leading16 = omega (arith, h.b0, h.b1, h.b2, h.b3)

  leading24 : address ip / 2 ^ 8 ≡ (ip.o0 * 256 + ip.o1) * 256 + ip.o2
  leading24 = omega (arith, h.b0, h.b1, h.b2, h.b3)

  -- A block of 24 bits tests three octets.
  in_block24 :
      (a b c : ℕ)
      → IsByte a
      → IsByte b
      → IsByte c
      → in_block ip (at a b c 0 24) ≡ (ip.o0 == a && (ip.o1 == b && ip.o2 == c))
  in_block24 a b c ha hb hc = ground (arith, leading24, h.b0, h.b1, h.b2)

  in_block16 :
      (a b : ℕ) → IsByte a → IsByte b → in_block ip (at a b 0 0 16) ≡ (ip.o0 == a && ip.o1 == b)
  in_block16 a b ha hb = ground (arith, leading16, h.b0, h.b1)

  in_block8 : (a : ℕ) → IsByte a → in_block ip (at a 0 0 0 8) ≡ (ip.o0 == a)
  in_block8 a ha = ground (arith, leading8)

  in_shared : in_block ip (at 100 64 0 0 10) ≡ (ip.o0 == 100 && (leb 64 ip.o1 && leb ip.o1 127))
  in_shared = ground (arith, leading10, h.b1)

  in_private : in_block ip (at 172 16 0 0 12) ≡ (ip.o0 == 172 && (leb 16 ip.o1 && leb ip.o1 31))
  in_private = ground (arith, leading12, h.b1)

  in_benchmarking : in_block ip (at 198 18 0 0 15) ≡ (ip.o0 == 198 && (ip.o1 == 18 || ip.o1 == 19))
  in_benchmarking = ground (arith, leading15, h.b1)

  in_reserved : in_block ip (at 224 0 0 0 3) ≡ leb 224 ip.o0
  in_reserved = ground (arith, leading3, h.b0)

  -- An address is blocked exactly when it lies in one of the blocks of the table.
  pub is_blocked_v4-blocks : is_blocked_v4 ip ≡ any (in_block ip) blocked
  unfolding is_blocked_v4
  is_blocked_v4-blocks =
      absorb (ip.o0 == 127) (ip.o0 == 10) (ip.o0 == 172 && (leb 16 ip.o1 && leb ip.o1 31))
        (ip.o0 == 192 && ip.o1 == 168) (ip.o0 == 169 && ip.o1 == 254) (ip.o0 == 0)
        (ip.o0 == 100 && (leb 64 ip.o1 && leb ip.o1 127))
        (ip.o0 == 192 && (ip.o1 == 0 && ip.o2 == 0)) (ip.o0 == 192 && (ip.o1 == 0 && ip.o2 == 2))
        (ip.o0 == 192 && (ip.o1 == 88 && ip.o2 == 99))
        (ip.o0 == 198 && (ip.o1 == 18 || ip.o1 == 19))
        (ip.o0 == 198 && (ip.o1 == 51 && ip.o2 == 100))
        (ip.o0 == 203 && (ip.o1 == 0 && ip.o2 == 113)) (leb 224 ip.o0) (is_broadcast ip)
        (is_unspecified_v4 ip) (broadcast_in ip) (unspecified_in ip)
      ∙ sym (
          or_cong (in_block8 127 (omega arith)) (
            or_cong (in_block8 10 (omega arith)) (
              or_cong in_private (
                or_cong (in_block16 192 168 (omega arith) (omega arith)) (
                  or_cong (in_block16 169 254 (omega arith) (omega arith)) (
                    or_cong (in_block8 0 (omega arith)) (
                      or_cong in_shared (
                        or_cong (in_block24 192 0 0 (omega arith) (omega arith) (omega arith)) (
                          or_cong (in_block24 192 0 2 (omega arith) (omega arith) (omega arith)) (
                            or_cong (in_block24 192 88 99 (omega arith) (omega arith) (omega arith))
                              (or_cong in_benchmarking (
                                or_cong
                                  (in_block24 198 51 100 (omega arith) (omega arith) (omega arith))
                                  (or_cong
                                    (in_block24 203 0 113 (omega arith) (omega arith) (omega arith))
                                    (or_cong in_reserved refl))))))))))))))
