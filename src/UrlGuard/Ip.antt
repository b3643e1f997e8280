-- ===== src/UrlGuard/Ip.antt =====
-- `is_public_ip` and its two halves of src/services/url_guard.rs, with the tests on addresses that
-- they take from the standard library. An address is the list of its octets or segments.
use Prim.Native.Nat.{bit_and}
use balances_watcher.Base.{
  ℕ, ◌/◌, ◌%◌, Bool, not, ◌&&◌, ◌||◌, Option, none, some, leb, if◌then◌else◌, ◌==◌, nat_eq,
}

pub record Ipv4Addr : Type 0 where
  pub a : ℕ
  pub b : ℕ
  pub c : ℕ
  pub d : ℕ

pub record Ipv6Addr : Type 0 where
  pub s0 : ℕ
  pub s1 : ℕ
  pub s2 : ℕ
  pub s3 : ℕ
  pub s4 : ℕ
  pub s5 : ℕ
  pub s6 : ℕ
  pub s7 : ℕ

pub data IpAddr : Type 0 where
  v4 : Ipv4Addr → IpAddr
  v6 : Ipv6Addr → IpAddr

unfoldable pub is_unspecified : Ipv4Addr → Bool
is_unspecified ip = ip.a == 0 && ip.b == 0 && ip.c == 0 && ip.d == 0

unfoldable pub is_loopback : Ipv4Addr → Bool
is_loopback ip = ip.a == 127

unfoldable pub is_private : Ipv4Addr → Bool
is_private ip =
    ip.a == 10 || ((ip.a == 172 && (leb 16 ip.b && leb ip.b 31)) || (ip.a == 192 && ip.b == 168))

unfoldable pub is_link_local : Ipv4Addr → Bool
is_link_local ip = ip.a == 169 && ip.b == 254

unfoldable pub is_broadcast : Ipv4Addr → Bool
is_broadcast ip = ip.a == 255 && ip.b == 255 && ip.c == 255 && ip.d == 255

unfoldable pub is_documentation : Ipv4Addr → Bool
is_documentation ip =
    (ip.a == 192 && ip.b == 0 && ip.c == 2)
    || ((ip.a == 198 && ip.b == 51 && ip.c == 100) || (ip.a == 203 && ip.b == 0 && ip.c == 113))

unfoldable pub is_multicast : Ipv4Addr → Bool
is_multicast ip = leb 224 ip.a && leb ip.a 239

unfoldable pub is_public_ipv4 : Ipv4Addr → Bool
unfolding is_unspecified is_loopback is_private is_link_local is_broadcast is_documentation
    is_multicast
is_public_ipv4 ip = not (
    is_unspecified ip
    || (is_loopback ip
        || (is_private ip
            || (is_link_local ip
                || (is_broadcast ip
                    || (is_documentation ip
                        || (is_multicast ip
                            || (ip.a == 0
                                || ((ip.a == 100 && bit_and ip.b 0xc0 == 64)
                                    || ((ip.a == 192 && ip.b == 0 && ip.c == 0)
                                        || ((ip.a == 198 && bit_and ip.b 0xfe == 18)
                                            || leb 240 ip.a)))))))))))

-- `to_ipv4_mapped`: ::ffff:a.b.c.d.
unfoldable pub to_ipv4_mapped : Ipv6Addr → Option Ipv4Addr
to_ipv4_mapped ip =
    if ip.s0 == 0 && ip.s1 == 0 && ip.s2 == 0 && ip.s3 == 0 && ip.s4 == 0 && ip.s5 == 0xffff
    then some (record { a = ip.s6 / 256; b = ip.s6 % 256; c = ip.s7 / 256; d = ip.s7 % 256 })
    else none

unfoldable pub is_unspecified6 : Ipv6Addr → Bool
is_unspecified6 ip =
    ip.s0 == 0
    && ip.s1 == 0
    && ip.s2 == 0
    && ip.s3 == 0
    && ip.s4 == 0
    && ip.s5 == 0
    && ip.s6 == 0
    && ip.s7 == 0

unfoldable pub is_loopback6 : Ipv6Addr → Bool
is_loopback6 ip =
    ip.s0 == 0
    && ip.s1 == 0
    && ip.s2 == 0
    && ip.s3 == 0
    && ip.s4 == 0
    && ip.s5 == 0
    && ip.s6 == 0
    && ip.s7 == 1

unfoldable pub is_multicast6 : Ipv6Addr → Bool
is_multicast6 ip = bit_and ip.s0 0xff00 == 0xff00

unfoldable pub is_public_segments : Ipv6Addr → Bool
unfolding is_unspecified6 is_loopback6 is_multicast6
is_public_segments ip = not (
    is_unspecified6 ip
    || (is_loopback6 ip
        || (is_multicast6 ip
            || (bit_and ip.s0 0xfe00 == 0xfc00
                || (bit_and ip.s0 0xffc0 == 0xfe80 || (ip.s0 == 0x2001 && ip.s1 == 0xdb8))))))

unfoldable pub is_public_ipv6 : Ipv6Addr → Bool
unfolding is_public_ipv4 is_public_segments
is_public_ipv6 ip = elim (to_ipv4_mapped ip) [
  | some mapped ↦ is_public_ipv4 mapped
  | none ↦ is_public_segments ip
]

unfoldable pub is_public_ip : IpAddr → Bool
unfolding is_public_ipv4 is_public_ipv6
is_public_ip (v4 ip) = is_public_ipv4 ip
is_public_ip (v6 ip) = is_public_ipv6 ip
