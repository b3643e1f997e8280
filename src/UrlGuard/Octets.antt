-- ===== src/UrlGuard/Octets.antt =====
-- The public addresses, octet by octet.
use Prim.Native.Nat.{bit_and}
use balances_watcher.Base.{
  ℕ, zero, suc, ◌<◌, ◌≤◌, ◌≡◌, refl, Bool, true, false, not, ◌&&◌, ◌||◌, leb, nat_beq, nat_eq,
  arith,
}
use balances_watcher.UrlGuard.Ip.{
  Ipv4Addr, is_unspecified, is_loopback, is_private, is_link_local, is_broadcast, is_documentation,
  is_public_ipv4,
}

-- A table of a test below a bound, and what it says of each number there.
unfoldable pub holds_below : (ℕ → Bool) → ℕ → Bool
holds_below test zero = true
holds_below test (suc n) = holds_below test n && test n

pub holds_below_at : (test : ℕ → Bool) (n x : ℕ) → holds_below test n ≡ true → x < n → test x ≡ true
unfolding holds_below
holds_below_at test zero x h lt = absurd (omega arith)
holds_below_at test (suc n) x h lt = ground (arith, holds_below_at test n x)

unfoldable pub same_bool : Bool → Bool → Bool
same_bool true b = b
same_bool false b = not b

pub same_bool_iff : (a b : Bool) → same_bool a b ≡ true → a ≡ b
unfolding same_bool
same_bool_iff true b h = ground arith
same_bool_iff false b h = ground arith

cgnat_table :
    holds_below (λ x. same_bool (nat_beq (bit_and x 0xc0) 64) (leb 64 x && leb x 127)) 256 ≡ true
unfolding holds_below same_bool
cgnat_table = refl

benchmark_table :
    holds_below (λ x. same_bool (nat_beq (bit_and x 0xfe) 18) (leb 18 x && leb x 19)) 256 ≡ true
unfolding holds_below same_bool
benchmark_table = refl

and_cgnat : (x : ℕ) → x < 256 → nat_beq (bit_and x 0xc0) 64 ≡ (leb 64 x && leb x 127)
and_cgnat x h = same_bool_iff _ _ (holds_below_at _ 256 x cgnat_table h)

and_benchmark : (x : ℕ) → x < 256 → nat_beq (bit_and x 0xfe) 18 ≡ (leb 18 x && leb x 19)
and_benchmark x h = same_bool_iff _ _ (holds_below_at _ 256 x benchmark_table h)

-- The octets are bytes.
abbrev pub IsIpv4 : Ipv4Addr → Type 0
IsIpv4 ip = (ip.a < 256) × (ip.b < 256) × (ip.c < 256) × (ip.d < 256)

-- What the octets of an address outside of every block are not, in the order of the blocks.
abbrev pub ClearOctets : Ipv4Addr → Type 0
ClearOctets ip =
    (¬ (ip.a ≡ 0))
    × ((¬ (ip.a ≡ 10))
        × ((¬ ((ip.a ≡ 100) × ((64 ≤ ip.b) × (ip.b ≤ 127))))
            × ((¬ (ip.a ≡ 127))
                × ((¬ ((ip.a ≡ 169) × (ip.b ≡ 254)))
                    × ((¬ ((ip.a ≡ 172) × ((16 ≤ ip.b) × (ip.b ≤ 31))))
                        × ((¬ ((ip.a ≡ 192) × ((ip.b ≡ 0) × (ip.c ≡ 0))))
                            × ((¬ ((ip.a ≡ 192) × ((ip.b ≡ 0) × (ip.c ≡ 2))))
                                × ((¬ ((ip.a ≡ 192) × (ip.b ≡ 168)))
                                    × ((¬ ((ip.a ≡ 198) × ((18 ≤ ip.b) × (ip.b ≤ 19))))
                                        × ((¬ ((ip.a ≡ 198) × ((ip.b ≡ 51) × (ip.c ≡ 100))))
                                            × ((¬ ((ip.a ≡ 203) × ((ip.b ≡ 0) × (ip.c ≡ 113))))
                                                × ((¬ ((224 ≤ ip.a) × (ip.a ≤ 239)))
                                                    × ((¬ (240 ≤ ip.a)) × Unit)))))))))))))

pub clear_public : (ip : Ipv4Addr) → IsIpv4 ip → ClearOctets ip → is_public_ipv4 ip ≡ true
unfolding is_public_ipv4
clear_public ip bytes clear = ground (arith, and_cgnat ip.b bytes.1, and_benchmark ip.b bytes.1)

tail_only : (front rest : Bool) → not (front || rest) ≡ true → not rest ≡ true
tail_only true rest public = ground arith
tail_only false rest public = public

public_small : (ip : Ipv4Addr) → is_public_ipv4 ip ≡ true → ip.a < 224
unfolding is_public_ipv4 is_unspecified is_loopback is_private is_link_local is_broadcast
    is_documentation
public_small ip public =
    let at_multicast = tail_only (is_documentation ip) _ (
      tail_only (is_broadcast ip) _ (
        tail_only (is_link_local ip) _ (
          tail_only (is_private ip) _
            (tail_only (is_loopback ip) _ (tail_only (is_unspecified ip) _ public))))) in
    ground arith

pub public_clear : (ip : Ipv4Addr) → IsIpv4 ip → is_public_ipv4 ip ≡ true → ClearOctets ip
unfolding is_public_ipv4
public_clear ip bytes public =
    let shared = and_cgnat ip.b bytes.1 in
    let testing = and_benchmark ip.b bytes.1 in
    let small = public_small ip public in
    (
      ground arith,
      (
        ground arith,
        (
          ground arith,
          (
            ground arith,
            (
              ground arith,
              (
                ground arith,
                (
                  ground arith,
                  (
                    ground arith,
                    (
                      ground arith,
                      (
                        ground arith,
                        (
                          ground arith,
                          (
                            ground arith,
                            ((λ c. omega (arith, c, small)), ((λ c. omega (arith, c, small)), tt)),
                          ),
                        ),
                      ),
                    ),
                  ),
                ),
              ),
            ),
          ),
        ),
      ),
    )
