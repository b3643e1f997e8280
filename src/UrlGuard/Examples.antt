-- ===== src/UrlGuard/Examples.antt =====
-- The theorems on requests, applied to a list on files.cow.fi and to two names.
use balances_watcher.Base.{
  suc, ◌≤◌, String, ◌≡◌, refl, ◌↔◌, true, false, List, [], ◌∷◌, Option, none, some, Result, ok, err,
  ◌==◌, length, arith, All, if◌then◌else◌,
}
use balances_watcher.Base.Text.{string_eq}
use balances_watcher.UrlGuard.Ip.{Ipv4Addr, Ipv6Addr, IpAddr, v4, v6, is_public_ipv4, is_public_ip}
use balances_watcher.UrlGuard.Segments.{IsIpv6}
use balances_watcher.UrlGuard.Public.{IsUnreserved, is_public_ip_iff}
use balances_watcher.UrlGuard.{Url, max_redirect_hops, redirect_policy, validate_url}
use balances_watcher.UrlGuard.Requests.{
  IsAllowedHost, Requested, first, redirected, Requested-allowed,
}

abbrev metadata : Ipv4Addr
metadata = record { a = 169; b = 254; c = 169; d = 254 }

abbrev parse_ip : String → Option IpAddr
parse_ip host = if host == "169.254.169.254" then some (v4 metadata) else none

abbrev list_url : String
list_url = "https://files.cow.fi/tokens/CowSwap.json"

abbrev parse : String → Result String Url
parse raw =
    if raw == list_url
    then ok (record { scheme = "https"; host_str = some "files.cow.fi" })
    else err "relative URL without a base"

abbrev urls : List Url
urls =
    record { scheme = "https"; host_str = some "ipfs.io" }
    ∷ record { scheme = "https"; host_str = some "files.cow.fi" }
    ∷ []

-- ::ffff:169.254.169.254.
abbrev mapped_metadata : Ipv6Addr
mapped_metadata = record {
  s0 = 0;
  s1 = 0;
  s2 = 0;
  s3 = 0;
  s4 = 0;
  s5 = 0xffff;
  s6 = 0xa9fe;
  s7 = 0xa9fe;
}

mapped_metadata-IsIpv6 : IsIpv6 mapped_metadata
mapped_metadata-IsIpv6 = (
  omega arith,
  omega arith,
  omega arith,
  omega arith,
  omega arith,
  omega arith,
  omega arith,
  omega arith,
)

is_public_ip_iff_example :
    is_public_ip (v6 mapped_metadata) ≡ true ↔ IsUnreserved (v6 mapped_metadata)
is_public_ip_iff_example = is_public_ip_iff (v6 mapped_metadata) mapped_metadata-IsIpv6

metadata_is_private : is_public_ipv4 metadata ≡ false
unfolding is_public_ipv4
metadata_is_private = refl

list_is_valid : validate_url parse_ip parse list_url false ≡ ok tt
unfolding validate_url
list_is_valid = refl

second_is_followed : redirect_policy parse_ip false 1 (some "ipfs.io") ≡ ok tt
unfolding redirect_policy
second_is_followed = refl

metadata_is_not_followed :
    redirect_policy parse_ip false 1 (some "169.254.169.254")
    ≡ err "host 169.254.169.254 is not a public address"
unfolding redirect_policy is_public_ip
metadata_is_not_followed = refl

requested : Requested parse_ip parse false list_url urls
requested = redirected _ _ (first _ refl list_is_valid) second_is_followed

Requested-allowed_example :
    (length urls ≤ suc max_redirect_hops)
    × All (λ url. (host : String) → url.host_str ≡ some host → IsAllowedHost parse_ip host) urls
Requested-allowed_example = Requested-allowed parse_ip parse list_url urls requested
