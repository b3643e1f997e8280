-- ===== src/UrlGuard/Blocks.antt =====
-- The public addresses, against the reserved blocks in CIDR notation.
use balances_watcher.Base.{
  ℕ, ◌+◌, ◌*◌, ◌/◌, ◌^◌, ◌-◌, ◌≤◌, ◌≡◌, ◌↔◌, true, List, [], ◌∷◌, nat_eq, arith, All,
}
use balances_watcher.UrlGuard.Ip.{Ipv4Addr, is_public_ipv4}
use balances_watcher.UrlGuard.Octets.{IsIpv4, ClearOctets, clear_public, public_clear}

abbrev pub address4 : Ipv4Addr → ℕ
address4 ip = ((ip.a * 256 + ip.b) * 256 + ip.c) * 256 + ip.d

abbrev pub octets : ℕ → ℕ → ℕ → ℕ → ℕ
octets a b c d = ((a * 256 + b) * 256 + c) * 256 + d

-- A number is in the block of an address and a prefix length: their first bits agree.
abbrev pub IsIn : ℕ → ℕ × ℕ → Type 0
IsIn n (base, prefix) = n / 2 ^ (32 - prefix) ≡ base / 2 ^ (32 - prefix)

abbrev pub reserved4 : List (ℕ × ℕ)
reserved4 =
    (octets 0 0 0 0, 8)
    ∷ (octets 10 0 0 0, 8)
    ∷ (octets 100 64 0 0, 10)
    ∷ (octets 127 0 0 0, 8)
    ∷ (octets 169 254 0 0, 16)
    ∷ (octets 172 16 0 0, 12)
    ∷ (octets 192 0 0 0, 24)
    ∷ (octets 192 0 2 0, 24)
    ∷ (octets 192 168 0 0, 16)
    ∷ (octets 198 18 0 0, 15)
    ∷ (octets 198 51 100 0, 24)
    ∷ (octets 203 0 113 0, 24)
    ∷ (octets 224 0 0 0, 4)
    ∷ (octets 240 0 0 0, 4)
    ∷ []

zero_block : (ip : Ipv4Addr) → IsIpv4 ip → IsIn (address4 ip) (octets 0 0 0 0, 8) ↔ ip.a ≡ 0
zero_block ip (la, lb, lc, ld) = ground arith

ten_block : (ip : Ipv4Addr) → IsIpv4 ip → IsIn (address4 ip) (octets 10 0 0 0, 8) ↔ ip.a ≡ 10
ten_block ip (la, lb, lc, ld) = ground arith

cgnat_block :
    (ip : Ipv4Addr)
    → IsIpv4 ip
    → IsIn (address4 ip) (octets 100 64 0 0, 10) ↔ ((ip.a ≡ 100) × ((64 ≤ ip.b) × (ip.b ≤ 127)))
cgnat_block ip (la, lb, lc, ld) = ground arith

loopback_block : (ip : Ipv4Addr) → IsIpv4 ip → IsIn (address4 ip) (octets 127 0 0 0, 8) ↔ ip.a ≡ 127
loopback_block ip (la, lb, lc, ld) = ground arith

link_local_block :
    (ip : Ipv4Addr)
    → IsIpv4 ip
    → IsIn (address4 ip) (octets 169 254 0 0, 16) ↔ ((ip.a ≡ 169) × (ip.b ≡ 254))
link_local_block ip (la, lb, lc, ld) = ground arith

private12_block :
    (ip : Ipv4Addr)
    → IsIpv4 ip
    → IsIn (address4 ip) (octets 172 16 0 0, 12) ↔ ((ip.a ≡ 172) × ((16 ≤ ip.b) × (ip.b ≤ 31)))
private12_block ip (la, lb, lc, ld) = ground arith

ietf_block :
    (ip : Ipv4Addr)
    → IsIpv4 ip
    → IsIn (address4 ip) (octets 192 0 0 0, 24) ↔ ((ip.a ≡ 192) × ((ip.b ≡ 0) × (ip.c ≡ 0)))
ietf_block ip (la, lb, lc, ld) = ground arith

doc1_block :
    (ip : Ipv4Addr)
    → IsIpv4 ip
    → IsIn (address4 ip) (octets 192 0 2 0, 24) ↔ ((ip.a ≡ 192) × ((ip.b ≡ 0) × (ip.c ≡ 2)))
doc1_block ip (la, lb, lc, ld) = ground arith

private16_block :
    (ip : Ipv4Addr)
    → IsIpv4 ip
    → IsIn (address4 ip) (octets 192 168 0 0, 16) ↔ ((ip.a ≡ 192) × (ip.b ≡ 168))
private16_block ip (la, lb, lc, ld) = ground arith

benchmark_block :
    (ip : Ipv4Addr)
    → IsIpv4 ip
    → IsIn (address4 ip) (octets 198 18 0 0, 15) ↔ ((ip.a ≡ 198) × ((18 ≤ ip.b) × (ip.b ≤ 19)))
benchmark_block ip (la, lb, lc, ld) = ground arith

doc2_block :
    (ip : Ipv4Addr)
    → IsIpv4 ip
    → IsIn (address4 ip) (octets 198 51 100 0, 24) ↔ ((ip.a ≡ 198) × ((ip.b ≡ 51) × (ip.c ≡ 100)))
doc2_block ip (la, lb, lc, ld) = ground arith

doc3_block :
    (ip : Ipv4Addr)
    → IsIpv4 ip
    → IsIn (address4 ip) (octets 203 0 113 0, 24) ↔ ((ip.a ≡ 203) × ((ip.b ≡ 0) × (ip.c ≡ 113)))
doc3_block ip (la, lb, lc, ld) = ground arith

multicast_block :
    (ip : Ipv4Addr)
    → IsIpv4 ip
    → IsIn (address4 ip) (octets 224 0 0 0, 4) ↔ ((224 ≤ ip.a) × (ip.a ≤ 239))
multicast_block ip (la, lb, lc, ld) = ground arith

reserved_block : (ip : Ipv4Addr) → IsIpv4 ip → IsIn (address4 ip) (octets 240 0 0 0, 4) ↔ 240 ≤ ip.a
reserved_block ip (la, lb, lc, ld) = ground arith

pub without : {A B : Type 0} → A ↔ B → (¬ A) ↔ (¬ B)
without both = ((λ no b. no (both.1 b)), (λ no a. no (both.0 a)))

pub pair_iff : {A B C D : Type 0} → A ↔ B → C ↔ D → (A × C) ↔ (B × D)
pair_iff first second = ((λ x. (first.0 x.0, second.0 x.1)), (λ x. (first.1 x.0, second.1 x.1)))

blocks_clear :
    (ip : Ipv4Addr)
    → IsIpv4 ip
    → All (λ block. ¬ IsIn (address4 ip) block) reserved4 ↔ ClearOctets ip
blocks_clear ip bytes = pair_iff (without (zero_block ip bytes)) (
    pair_iff (without (ten_block ip bytes)) (
      pair_iff (without (cgnat_block ip bytes)) (
        pair_iff (without (loopback_block ip bytes)) (
          pair_iff (without (link_local_block ip bytes)) (
            pair_iff (without (private12_block ip bytes)) (
              pair_iff (without (ietf_block ip bytes)) (
                pair_iff (without (doc1_block ip bytes)) (
                  pair_iff (without (private16_block ip bytes)) (
                    pair_iff (without (benchmark_block ip bytes)) (
                      pair_iff (without (doc2_block ip bytes)) (
                        pair_iff (without (doc3_block ip bytes)) (
                          pair_iff (without (multicast_block ip bytes)) (
                            pair_iff (without (reserved_block ip bytes))
                              (((λ x. x), (λ x. x))))))))))))))))

-- An IPv4 address is public exactly if it is in none of the fourteen reserved blocks.
pub is_public_ipv4_iff :
    (ip : Ipv4Addr)
    → IsIpv4 ip
    → is_public_ipv4 ip ≡ true ↔ All (λ block. ¬ IsIn (address4 ip) block) reserved4
is_public_ipv4_iff ip bytes = (
  (λ public. (blocks_clear ip bytes).1 (public_clear ip bytes public)),
  (λ outside. clear_public ip bytes ((blocks_clear ip bytes).0 outside)),
)
