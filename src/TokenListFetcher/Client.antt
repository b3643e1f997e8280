-- ===== src/TokenListFetcher/Client.antt =====
-- `new` and `build_client` of src/services/token_list_fetcher.rs. Of the HTTP client, the model has
-- what the builder is given; a redirect policy is the function that reqwest calls, and a resolver
-- the function that answers a name. A `Duration` is milliseconds. `user_agent` comes from the
-- package's manifest.
use balances_watcher.Base.{
  ℕ, ◌≡◌, ◌≢◌, sym, ◌∙◌, Bool, true, List, Option, String, Result, ok, err, Memᴰ, if◌then◌else◌,
  inl, inr, Result-cases,
}
use mathlib.Core.Path.{subst}
use balances_watcher.Domain.Network.{EvmNetwork}
use balances_watcher.RpcClient.Errors.{ExponentialBuilder}
use balances_watcher.UrlGuard.{redirect_policy, resolve}
use balances_watcher.UrlGuard.Ip.{IpAddr, is_public_ip}
use balances_watcher.UrlGuard.Requests.{resolve_cases}

abbrev token_list_fetch_timeout : ℕ
token_list_fetch_timeout = 20000

abbrev cache_capacity : ℕ
cache_capacity = 256

pub record Client : Type 0 where
  pub timeout : ℕ
  pub user_agent : String
  pub redirect : ℕ → Option String → Result String (Unit {0})
  pub resolver : String → Result String (List (IpAddr × ℕ))

pub record TokenListFetcher : Type 0 where
  pub cache_ttl : ℕ
  pub max_capacity : ℕ
  pub client : Client
  pub backoff_cfg : ExponentialBuilder
  pub network : EvmNetwork
  pub allow_private_hosts : Bool

module _ (parse_ip : String → Option IpAddr)
    (lookup_host : String → Result String (List (IpAddr × ℕ))) (user_agent : String) where
  -- Without a resolver of its own, the client asks the system's.
  unfoldable pub build_client : Bool → Client
  unfolding redirect_policy resolve
  build_client allow_private_hosts = record {
    timeout = token_list_fetch_timeout;
    user_agent = user_agent;
    redirect = redirect_policy parse_ip allow_private_hosts;
    resolver = if allow_private_hosts then lookup_host else resolve lookup_host;
  }

  unfoldable pub new_fetcher : ℕ → ExponentialBuilder → EvmNetwork → Bool → TokenListFetcher
  unfolding build_client
  new_fetcher cache_ttl backoff_cfg network allow_private_hosts = record {
    cache_ttl = cache_ttl;
    max_capacity = cache_capacity;
    client = build_client allow_private_hosts;
    backoff_cfg = backoff_cfg;
    network = network;
    allow_private_hosts = allow_private_hosts;
  }

module _ (lookup_host : String → Result String (List (IpAddr × ℕ))) where
  different :
      (e : String) (addrs : List (IpAddr × ℕ))
      → ◌≢◌ {A = Result String (List (IpAddr × ℕ))} (err e) (ok addrs)
  different e addrs h = cc

  ok-injective :
      {xs ys : List (IpAddr × ℕ)}
      → ◌≡◌ {A = Result String (List (IpAddr × ℕ))} (ok xs) (ok ys)
      → xs ≡ ys
  ok-injective h = cc

  -- A connection is to a public address.
  pub resolves_public :
      (host : String) (addrs : List (IpAddr × ℕ)) (addr : IpAddr × ℕ)
      → resolve lookup_host host ≡ ok addrs
      → Memᴰ addr addrs
      → is_public_ip addr.0 ≡ true
  unfolding resolve
  resolves_public host addrs addr e m = elim (Result-cases (lookup_host host)) [
    | inl (failure, failed) ↦ absurd (different failure addrs (rw (failed, resolve) at e))
    | inr (all, found) ↦ elim (resolve_cases lookup_host host all found) [
      | inr (reason, refused, private) ↦ absurd (different reason addrs (sym refused ∙ e))
      | inl (public, answer, these, some_left) ↦
          let same : public ≡ addrs = ok-injective (sym answer ∙ e) in
          ((these addr).0 (subst (Memᴰ addr) (sym same) m)).1
    ]
  ]
