-- ===== src/UrlGuard/Public.antt =====
-- The public addresses of both versions.
use balances_watcher.Base.{
  ◌/◌, ◌%◌, ◌^◌, ◌≡◌, ◌↔◌, ◌⊎◌, refl, inl, inr, true, none, some, All, arith, nat_eq, Bool-cases,
  ◌&&◌, ◌==◌,
}
use mathlib.Core.Path.{subst}
use balances_watcher.UrlGuard.Ip.{
  Ipv4Addr, Ipv6Addr, IpAddr, v4, v6, to_ipv4_mapped, is_public_ipv4, is_public_ipv6, is_public_ip,
}
use balances_watcher.UrlGuard.Octets.{IsIpv4}
use balances_watcher.UrlGuard.Blocks.{address4, IsIn, reserved4, is_public_ipv4_iff}
use balances_watcher.UrlGuard.Segments.{
  IsIpv6, address6, IsIn6, reserved6, mapped_block, mapped_iff, is_public_segments_iff,
}

-- The parts of an address are in their ranges.
abbrev pub IsAddress : IpAddr → Type 0
IsAddress (v4 ip) = IsIpv4 ip
IsAddress (v6 ip) = IsIpv6 ip

-- An address of version 6 that stands for one of version 4 is judged by its last 32 bits.
abbrev pub IsUnreserved : IpAddr → Type 0
IsUnreserved (v4 ip) = All (λ block. ¬ IsIn (address4 ip) block) reserved4
IsUnreserved (v6 ip) =
    (IsIn6 (address6 ip) mapped_block
      × All (λ block. ¬ IsIn (address6 ip % 2 ^ 32) block) reserved4)
    ⊎ (¬ IsIn6 (address6 ip) mapped_block × All (λ block. ¬ IsIn6 (address6 ip) block) reserved6)

abbrev last_octets : Ipv6Addr → Ipv4Addr
last_octets ip = record { a = ip.s6 / 256; b = ip.s6 % 256; c = ip.s7 / 256; d = ip.s7 % 256 }

last_octets-IsIpv4 : (ip : Ipv6Addr) → IsIpv6 ip → IsIpv4 (last_octets ip)
last_octets-IsIpv4 ip (l0, l1, l2, l3, l4, l5, l6, l7) =
    (omega arith, omega arith, omega arith, omega arith)

address4-last_octets :
    (ip : Ipv6Addr) → IsIpv6 ip → address4 (last_octets ip) ≡ address6 ip % 2 ^ 32
address4-last_octets ip (l0, l1, l2, l3, l4, l5, l6, l7) = omega arith

to_ipv4_mapped_cases :
    (ip : Ipv6Addr)
    → IsIpv6 ip
    → (IsIn6 (address6 ip) mapped_block × (to_ipv4_mapped ip ≡ some (last_octets ip)))
      ⊎ (¬ IsIn6 (address6 ip) mapped_block × (to_ipv4_mapped ip ≡ none))
unfolding to_ipv4_mapped
to_ipv4_mapped_cases ip bytes =
    elim (Bool-cases
      (ip.s0 == 0 && ip.s1 == 0 && ip.s2 == 0 && ip.s3 == 0 && ip.s4 == 0 && ip.s5 == 0xffff)) [
        | inl mapped ↦ inl ((mapped_iff ip bytes).1 (ground arith), rw mapped refl)
        | inr other ↦ inr (
          λ within. absurd (let these = (mapped_iff ip bytes).0 within in ground arith),
          rw other refl,
        )
      ]

-- An address is public exactly if it is in none of the reserved blocks of its version, fourteen and
-- six of them; where an address of version 6 is in ::ffff:0:0/96, the blocks are those of version
-- 4, and the address its last 32 bits.
pub is_public_ip_iff : (ip : IpAddr) → IsAddress ip → is_public_ip ip ≡ true ↔ IsUnreserved ip
unfolding is_public_ip is_public_ipv6
is_public_ip_iff (v4 ip) bytes = is_public_ipv4_iff ip bytes
is_public_ip_iff (v6 ip) bytes = elim (to_ipv4_mapped_cases ip bytes) [
  | inl (within, mapped) ↦
      let both =
        subst
          (λ n. is_public_ipv4 (last_octets ip) ≡ true ↔ All (λ block. ¬ IsIn n block) reserved4)
          (address4-last_octets ip bytes)
          (is_public_ipv4_iff (last_octets ip) (last_octets-IsIpv4 ip bytes)) in
      rw (mapped, is_public_ipv6)
        (
          λ public. inl (within, both.0 public),
          λ outside. elim outside [
            | inl (there, clear) ↦ both.1 clear
            | inr (never, clear) ↦ absurd (never within)
          ],
        )
  | inr (apart, unmapped) ↦
      let both = is_public_segments_iff ip bytes in
      rw (unmapped, is_public_ipv6)
        (
          λ public. inr (apart, both.0 public),
          λ outside. elim outside [
            | inl (there, clear) ↦ absurd (apart there)
            | inr (never, clear) ↦ both.1 clear
          ],
        )
]
