-- ===== src/UrlGuard.antt =====
-- src/services/url_guard.rs. The parser of URLs comes from the `url` crate, and is a parameter; so are
-- the parser of addresses and the name lookup of the standard library. Of a `Url`, only the scheme and
-- the host are read; of a redirect attempt, how many URLs were requested before and the host.
pub mod Ip
pub mod Octets
pub mod Blocks
pub mod Segments
pub mod Public
pub mod Requests
mod Examples
use balances_watcher.Base.{
  ℕ, Bool, true, false, not, ◌||◌, List, [], ◌∷◌, Option, none, some, String, Result, ok, err, ltb,
  if◌then◌else◌, ◌==◌, length, is_empty, keep_if,
}
use balances_watcher.Base.Text.{◌^^◌, string_eq, trim_start_matches, trim_end_matches}
use balances_watcher.Base.Set.{contains}
use balances_watcher.UrlGuard.Ip.{IpAddr, is_public_ip}

pub record Url : Type 0 where
  pub scheme : String
  pub host_str : Option String

abbrev pub max_redirect_hops : ℕ
max_redirect_hops = 5

abbrev pub allowed_token_list_hosts : List String
allowed_token_list_hosts =
    "files.cow.fi" ∷ "curvefi.github.io" ∷ "raw.githubusercontent.com" ∷ "static.optimism.io"
    ∷ "tokens.honeyswap.org" ∷ "ipfs.io" ∷ "tokens-uniswap-org.ipns.inbrowser.link" ∷ []

unfoldable pub is_allowed_token_list_host : String → Bool
unfolding contains
is_allowed_token_list_host host = contains host allowed_token_list_hosts

-- `Option::is_some_and`.
unfoldable pub is_some_and : {A : Type 0} → (A → Bool) → Option A → Bool
is_some_and p none = false
is_some_and p (some a) = p a

module _ (parse_ip : String → Option IpAddr) where
  unfoldable pub ip_literal : String → Option IpAddr
  unfolding trim_start_matches trim_end_matches
  ip_literal host = parse_ip (trim_end_matches b']' (trim_start_matches b'[' host))

  unfoldable pub host_is_allowed : String → Result String (Unit {0})
  unfolding ip_literal is_some_and is_public_ip is_allowed_token_list_host
  host_is_allowed host =
      if is_some_and (λ ip. not (is_public_ip ip)) (ip_literal host)
      then err ("host " ^^ host ^^ " is not a public address")
      else if not (is_allowed_token_list_host host)
      then err ("host " ^^ host ^^ " is not an allowed token-list source")
      else ok tt

  unfoldable pub validate_host : Option String → Bool → Result String (Unit {0})
  unfolding host_is_allowed
  validate_host none allow_private_hosts = err "url has no host"
  validate_host (some host) allow_private_hosts =
      if not allow_private_hosts then host_is_allowed host else ok tt

  unfoldable pub validate_parsed : Url → Bool → Result String (Unit {0})
  unfolding validate_host
  validate_parsed url allow_private_hosts =
      if url.scheme == "http" || url.scheme == "https"
      then validate_host url.host_str allow_private_hosts
      else err ("scheme '" ^^ url.scheme ^^ "' is not allowed, use http(s)")

  module _ (parse : String → Result String Url) where
    unfoldable pub validate_url : String → Bool → Result String (Unit {0})
    unfolding validate_parsed
    validate_url raw_url allow_private_hosts = elim (parse raw_url) [
      | err e ↦ err ("invalid url: " ^^ e)
      | ok url ↦ validate_parsed url allow_private_hosts
    ]

  -- The closure of `redirect_policy`, on the number of earlier requests and the host of the target;
  -- `ok` is `follow`.
  unfoldable pub redirect_policy : Bool → ℕ → Option String → Result String (Unit {0})
  unfolding host_is_allowed
  redirect_policy allow_private_hosts previous target =
      if ltb max_redirect_hops previous
      then err "too many redirects"
      else if not allow_private_hosts
      then elim target [ none ↦ ok tt | some host ↦ host_is_allowed host ]
      else ok tt

-- `PublicOnlyDnsResolver::resolve`. A socket address is an address and a port.
unfoldable pub resolve :
    (String → Result String (List (IpAddr × ℕ))) → String → Result String (List (IpAddr × ℕ))
unfolding is_public_ip
resolve lookup_host host = elim (lookup_host host) [
  | err e ↦ err e
  | ok resolved ↦
      let public = keep_if (λ addr. is_public_ip addr.0) resolved in
      if is_empty public
      then err ("host " ^^ host ^^ " does not resolve to any public address")
      else ok public
]
