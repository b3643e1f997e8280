-- ===== src/UrlGuard/Segments.antt =====
-- The public addresses of IPv6, against the reserved blocks in CIDR notation.
use Prim.Native.Nat.{bit_and}
use balances_watcher.Base.{
  ℕ, ◌+◌, ◌*◌, ◌/◌, ◌%◌, ◌^◌, ◌-◌, ◌<◌, ◌≡◌, ◌↔◌, refl, Bool, true, List, [], ◌∷◌, nat_eq, nat_beq,
  arith, All,
}
use mathlib.Core.Path.{subst}
use balances_watcher.UrlGuard.Ip.{
  Ipv6Addr, is_public_segments, is_unspecified6, is_loopback6, is_multicast6,
}
use balances_watcher.UrlGuard.Blocks.{without, pair_iff}
use balances_watcher.UrlGuard.Octets.{holds_below, holds_below_at, same_bool, same_bool_iff}

-- The segments are numbers of 16 bits.
abbrev pub IsIpv6 : Ipv6Addr → Type 0
IsIpv6 ip =
    (ip.s0 < 65536)
    × (ip.s1 < 65536)
    × (ip.s2 < 65536)
    × (ip.s3 < 65536)
    × (ip.s4 < 65536)
    × (ip.s5 < 65536)
    × (ip.s6 < 65536)
    × (ip.s7 < 65536)

abbrev pub segments : ℕ → ℕ → ℕ → ℕ → ℕ → ℕ → ℕ → ℕ → ℕ
segments s0 s1 s2 s3 s4 s5 s6 s7 =
    ((((((s0 * 65536 + s1) * 65536 + s2) * 65536 + s3) * 65536 + s4) * 65536 + s5) * 65536 + s6)
      * 65536
    + s7

abbrev pub address6 : Ipv6Addr → ℕ
address6 ip = segments ip.s0 ip.s1 ip.s2 ip.s3 ip.s4 ip.s5 ip.s6 ip.s7

abbrev pub IsIn6 : ℕ → ℕ × ℕ → Type 0
IsIn6 n (base, prefix) = n / 2 ^ (128 - prefix) ≡ base / 2 ^ (128 - prefix)

abbrev pub reserved6 : List (ℕ × ℕ)
reserved6 =
    (segments 0 0 0 0 0 0 0 0, 128)
    ∷ (segments 0 0 0 0 0 0 0 1, 128)
    ∷ (segments 0xff00 0 0 0 0 0 0 0, 8)
    ∷ (segments 0xfc00 0 0 0 0 0 0 0, 7)
    ∷ (segments 0xfe80 0 0 0 0 0 0 0, 10)
    ∷ (segments 0x2001 0xdb8 0 0 0 0 0 0, 32)
    ∷ []

-- ::ffff:0:0/96.
abbrev pub mapped_block : ℕ × ℕ
mapped_block = (segments 0 0 0 0 0 0xffff 0 0, 96)

-- Seven segments are 0, and the last one is a given one.
abbrev OnlyLast : ℕ → Ipv6Addr → Type 0
OnlyLast last ip =
    (ip.s0 ≡ 0)
    × ((ip.s1 ≡ 0)
        × ((ip.s2 ≡ 0)
            × ((ip.s3 ≡ 0) × ((ip.s4 ≡ 0) × ((ip.s5 ≡ 0) × ((ip.s6 ≡ 0) × (ip.s7 ≡ last)))))))

unspecified_block :
    (ip : Ipv6Addr)
    → IsIpv6 ip
    → IsIn6 (address6 ip) (segments 0 0 0 0 0 0 0 0, 128) ↔ OnlyLast 0 ip
unspecified_block ip (l0, l1, l2, l3, l4, l5, l6, l7) = ground arith

loopback_block :
    (ip : Ipv6Addr)
    → IsIpv6 ip
    → IsIn6 (address6 ip) (segments 0 0 0 0 0 0 0 1, 128) ↔ OnlyLast 1 ip
loopback_block ip (l0, l1, l2, l3, l4, l5, l6, l7) = ground arith

multicast_block :
    (ip : Ipv6Addr)
    → IsIpv6 ip
    → IsIn6 (address6 ip) (segments 0xff00 0 0 0 0 0 0 0, 8) ↔ ip.s0 / 256 ≡ 255
multicast_block ip (l0, l1, l2, l3, l4, l5, l6, l7) = ground arith

unique_local_block :
    (ip : Ipv6Addr)
    → IsIpv6 ip
    → IsIn6 (address6 ip) (segments 0xfc00 0 0 0 0 0 0 0, 7) ↔ ip.s0 / 512 ≡ 126
unique_local_block ip (l0, l1, l2, l3, l4, l5, l6, l7) = ground arith

link_local_block :
    (ip : Ipv6Addr)
    → IsIpv6 ip
    → IsIn6 (address6 ip) (segments 0xfe80 0 0 0 0 0 0 0, 10) ↔ ip.s0 / 64 ≡ 1018
link_local_block ip (l0, l1, l2, l3, l4, l5, l6, l7) = ground arith

documentation_block :
    (ip : Ipv6Addr)
    → IsIpv6 ip
    → IsIn6 (address6 ip) (segments 0x2001 0xdb8 0 0 0 0 0 0, 32)
      ↔ ((ip.s0 ≡ 0x2001) × (ip.s1 ≡ 0xdb8))
documentation_block ip (l0, l1, l2, l3, l4, l5, l6, l7) = ground arith

pub mapped_iff :
    (ip : Ipv6Addr)
    → IsIpv6 ip
    → IsIn6 (address6 ip) mapped_block ↔ (
        (ip.s0 ≡ 0)
        × ((ip.s1 ≡ 0) × ((ip.s2 ≡ 0) × ((ip.s3 ≡ 0) × ((ip.s4 ≡ 0) × (ip.s5 ≡ 0xffff))))))
mapped_iff ip (l0, l1, l2, l3, l4, l5, l6, l7) = ground arith

-- A mask that keeps the first bits of a segment, by a table over the segment's two bytes.
abbrev masks : ℕ → ℕ → ℕ → Bool
masks mask base width =
    holds_below
      (λ hi.
        holds_below
          (λ lo.
            same_bool (nat_beq (bit_and (hi * 256 + lo) mask) base)
              (nat_beq ((hi * 256 + lo) / width) (base / width)))
          256)
      256

multicast_table : masks 0xff00 0xff00 256 ≡ true
unfolding holds_below same_bool
multicast_table = refl

unique_local_table : masks 0xfe00 0xfc00 512 ≡ true
unfolding holds_below same_bool
unique_local_table = refl

link_local_table : masks 0xffc0 0xfe80 64 ≡ true
unfolding holds_below same_bool
link_local_table = refl

masked :
    (mask base width s : ℕ)
    → s < 65536
    → masks mask base width ≡ true
    → nat_beq (bit_and s mask) base ≡ nat_beq (s / width) (base / width)
masked mask base width s small table =
    let whole : s / 256 * 256 + s % 256 ≡ s = omega arith in
    let row = holds_below_at _ 256 (s / 256) table (omega arith) in
    subst (λ x. nat_beq (bit_and x mask) base ≡ nat_beq (x / width) (base / width)) whole
      (same_bool_iff _ _ (holds_below_at _ 256 (s % 256) row (omega arith)))

-- What the segments of an address outside of every block are not, in the order of the blocks.
abbrev ClearSegments : Ipv6Addr → Type 0
ClearSegments ip =
    (¬ OnlyLast 0 ip)
    × ((¬ OnlyLast 1 ip)
        × ((¬ (ip.s0 / 256 ≡ 255))
            × ((¬ (ip.s0 / 512 ≡ 126))
                × ((¬ (ip.s0 / 64 ≡ 1018))
                    × ((¬ ((ip.s0 ≡ 0x2001) × (ip.s1 ≡ 0xdb8))) × Unit {0})))))

blocks_clear6 :
    (ip : Ipv6Addr)
    → IsIpv6 ip
    → All (λ block. ¬ IsIn6 (address6 ip) block) reserved6 ↔ ClearSegments ip
blocks_clear6 ip bytes = pair_iff (without (unspecified_block ip bytes)) (
    pair_iff (without (loopback_block ip bytes)) (
      pair_iff (without (multicast_block ip bytes)) (
        pair_iff (without (unique_local_block ip bytes)) (
          pair_iff (without (link_local_block ip bytes))
            (pair_iff (without (documentation_block ip bytes)) (((λ x. x), (λ x. x))))))))

segments_clear : (ip : Ipv6Addr) → IsIpv6 ip → is_public_segments ip ≡ true ↔ ClearSegments ip
unfolding is_public_segments is_unspecified6 is_loopback6 is_multicast6
segments_clear ip (l0, l1, l2, l3, l4, l5, l6, l7) =
    let multicast = masked 0xff00 0xff00 256 ip.s0 l0 multicast_table in
    let unique_local = masked 0xfe00 0xfc00 512 ip.s0 l0 unique_local_table in
    let link_local = masked 0xffc0 0xfe80 64 ip.s0 l0 link_local_table in ground arith

pub is_public_segments_iff :
    (ip : Ipv6Addr)
    → IsIpv6 ip
    → is_public_segments ip ≡ true ↔ All (λ block. ¬ IsIn6 (address6 ip) block) reserved6
is_public_segments_iff ip bytes = (
  (λ public. (blocks_clear6 ip bytes).1 ((segments_clear ip bytes).0 public)),
  (λ outside. (segments_clear ip bytes).1 ((blocks_clear6 ip bytes).0 outside)),
)
