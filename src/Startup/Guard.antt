-- ===== src/Startup/Guard.antt =====
-- Where the HTTP client of a started service goes.
use balances_watcher.Base.{
  ℕ, ◌≤◌, ◌≡◌, ap, ◌∙◌, true, false, List, Option, some, String, Result, ok, Memᴰ, arith,
}
use mathlib.Core.Path.{subst}
use balances_watcher.Config.{Args, from_args}
use balances_watcher.UrlGuard.{max_redirect_hops}
use balances_watcher.UrlGuard.Ip.{IpAddr, is_public_ip}
use balances_watcher.UrlGuard.Requests.{IsAllowedHost, redirect_policy-follows}
use balances_watcher.TokenListFetcher.Client.{build_client, resolves_public}
use balances_watcher.Startup.{
  ServerHandle, main, main-started, session_config, spawn_session_manager,
}

module _ {ℓ} {Log : Type ℓ} (parse_ip : String → Option IpAddr)
    (lookup_host : String → Result String (List (IpAddr × ℕ))) (user_agent : String)
    (connect : String → Result String (Unit {0})) (bind : String → Result String ℕ) where
  -- Take a service that `main` has started from arguments that do not allow private hosts. If its
  -- client for token lists follows a redirect to a host, with some requests before, and connects to
  -- an address that the host resolves to, then these requests are at most five, the host is on the
  -- list of hosts and no literal of an address that is not public, and the address is public.
  pub main-allowed :
      (args : Args) (handle : ServerHandle Log) (previous : ℕ) (target : Option String)
      (host : String) (addrs : List (IpAddr × ℕ)) (addr : IpAddr × ℕ)
      → main parse_ip lookup_host user_agent connect bind args ≡ ok handle
      → args.allow_private_token_lists ≡ false
      → let client = handle.app_state.session_manager.fetcher.client in
        client.redirect previous target ≡ ok tt
        → target ≡ some host
        → client.resolver host ≡ ok addrs
        → Memᴰ addr addrs
        → (previous ≤ max_redirect_hops)
          × IsAllowedHost parse_ip host
          × (is_public_ip addr.0 ≡ true)
  unfolding spawn_session_manager session_config from_args build_client
  main-allowed args handle previous target host addrs addr started guarded followed named resolved
        m =
      let same : handle.app_state.session_manager.fetcher.client
          ≡ build_client parse_ip lookup_host user_agent args.allow_private_token_lists =
        ap (λ m. m.fetcher.client)
          (main-started parse_ip lookup_host user_agent connect bind args handle started) in
      let client : handle.app_state.session_manager.fetcher.client
          ≡ build_client parse_ip lookup_host user_agent false =
        same ∙ ap (build_client parse_ip lookup_host user_agent) guarded in
      let (few, allowed) =
        redirect_policy-follows parse_ip previous target
          (subst (λ c. c.redirect previous target ≡ ok tt) client followed) in
      (
        omega (arith, few),
        allowed host named,
        resolves_public lookup_host host addrs addr
            (subst (λ c. c.resolver host ≡ ok addrs) client resolved) m,
      )
