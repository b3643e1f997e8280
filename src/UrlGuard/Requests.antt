-- ===== src/UrlGuard/Requests.antt =====
-- Which requests pass the guard.
use balances_watcher.Base.{
  ℕ, suc, ◌≤◌, String, ◌≡◌, refl, ◌⊎◌, inl, inr, ◌↔◌, Bool, true, false, List, [], ◌∷◌, Option,
  none, some, Result, ok, err, Result-cases, ◌<◌, ◌==◌, ◌||◌, length, arith, All, Memᴰ, Bool-cases,
  not, if◌then◌else◌, ltb, keep_if, one-le-length, is_empty-not_mem, mem-keep_if, keep_if-mem,
  is_empty,
}
use balances_watcher.Base.Text.{◌^^◌, string_eq}
use balances_watcher.Base.Set.{contains, mem_of_contains, contains_of_mem}
use balances_watcher.UrlGuard.Ip.{IpAddr, is_public_ip}
use balances_watcher.UrlGuard.{
  Url, max_redirect_hops, allowed_token_list_hosts, is_allowed_token_list_host, ip_literal,
  is_some_and, host_is_allowed, validate_host, validate_parsed, is_some_and, validate_url,
  redirect_policy, resolve,
}

past_guard :
    {E : Type 0} (fault : Bool) (e : E) (rest : Result E (Unit {0}))
    → (if fault then err e else rest) ≡ ok tt
    → (fault ≡ false) × (rest ≡ ok tt)
past_guard true e rest h = absurd cc
past_guard false e rest h = (refl, h)

-- Two guards in a row, the first on a fault and the second on a merit.
guards_iff :
    {E : Type 0} (fault merit : Bool) (e e' : E)
    → ◌≡◌ {A = Result E (Unit {0})}
        (if fault then err e else if not merit then err e' else ok tt)
        (ok tt)
      ↔ ((fault ≡ false) × (merit ≡ true))
guards_iff true merit e e' = ((λ h. absurd cc), (λ h. absurd (ground arith)))
guards_iff false true e e' = ground arith
guards_iff false false e e' = ((λ h. absurd cc), (λ h. absurd (ground arith)))

is_some_and-not_iff :
    {A : Type 0} (p : A → Bool) (o : Option A)
    → is_some_and (λ a. not (p a)) o ≡ false ↔ ((a : A) → o ≡ some a → p a ≡ true)
unfolding is_some_and
is_some_and-not_iff p none = ((λ h a e. absurd cc), (λ h. refl))
is_some_and-not_iff p (some a) = (λ h b e. ground (arith, h, e), λ h. ground (arith, h a refl))

schemes_iff :
    (scheme : String)
    → ((scheme == "http" || scheme == "https") ≡ true) ↔ ((scheme ≡ "http") ⊎ (scheme ≡ "https"))
schemes_iff scheme =
    ground (arith, string_eq.beq_iff scheme "http", string_eq.beq_iff scheme "https")

module _ (parse_ip : String → Option IpAddr) where
  -- On the list of hosts, and no literal of an address that is not public.
  abbrev pub IsAllowedHost : String → Type 0
  IsAllowedHost host =
      Memᴰ host allowed_token_list_hosts
      × ((ip : IpAddr) → ip_literal parse_ip host ≡ some ip → is_public_ip ip ≡ true)

  host_is_allowed_iff : (host : String) → host_is_allowed parse_ip host ≡ ok tt ↔ IsAllowedHost host
  unfolding host_is_allowed is_allowed_token_list_host
  host_is_allowed_iff host =
      let guards =
        guards_iff (is_some_and (λ ip. not (is_public_ip ip)) (ip_literal parse_ip host))
          (contains host allowed_token_list_hosts) _ _ in
      let literal = is_some_and-not_iff is_public_ip (ip_literal parse_ip host) in
      (
        (λ h. (mem_of_contains host _ (guards.0 h).1, literal.0 (guards.0 h).0)),
        (λ allowed. guards.1 (literal.1 allowed.1, contains_of_mem host _ allowed.0)),
      )

  validate_host_iff :
      (host_str : Option String) (allow_private_hosts : Bool)
      → validate_host parse_ip host_str allow_private_hosts ≡ ok tt ↔ (
          (host : String) × (host_str ≡ some host)
          × ((allow_private_hosts ≡ true) ⊎ IsAllowedHost host))
  unfolding validate_host
  validate_host_iff none allow_private_hosts =
      ((λ h. absurd cc), (λ (host, same, allowed). absurd cc))
  validate_host_iff (some host) true = ((λ h. (host, refl, inl refl)), (λ h. refl))
  validate_host_iff (some host) false = (
    λ h. (host, refl, inr ((host_is_allowed_iff host).0 h)),
    λ (other, same, allowed). elim allowed [
      | inl private ↦ absurd cc
      | inr held ↦ let here : other ≡ host = cc in (host_is_allowed_iff host).1 (rw (← here) held)
    ],
  )

  validate_parsed_iff :
      (url : Url) (allow_private_hosts : Bool)
      → validate_parsed parse_ip url allow_private_hosts ≡ ok tt ↔ (
          ((url.scheme ≡ "http") ⊎ (url.scheme ≡ "https"))
          × ((host : String) × (url.host_str ≡ some host)
              × ((allow_private_hosts ≡ true) ⊎ IsAllowedHost host)))
  unfolding validate_parsed
  validate_parsed_iff url allow_private_hosts =
      let scheme = schemes_iff url.scheme in
      let host = validate_host_iff url.host_str allow_private_hosts in
      elim (Bool-cases (url.scheme == "http" || url.scheme == "https")) [
        | inl web ↦ rw web (λ h. (scheme.0 web, host.0 h), λ h. host.1 h.1)
        | inr other ↦ rw other (λ h. absurd cc, λ h. absurd (let t = scheme.1 h.0 in cc))
      ]

  pub redirect_policy-follows :
      (previous : ℕ) (target : Option String)
      → redirect_policy parse_ip false previous target ≡ ok tt
      → (previous < suc max_redirect_hops)
        × ((host : String) → target ≡ some host → IsAllowedHost host)
  unfolding redirect_policy
  redirect_policy-follows previous none followed =
      let (few, end) = past_guard (ltb max_redirect_hops previous) _ _ followed in
      (ground (arith, few), λ host named. absurd cc)
  redirect_policy-follows previous (some target) followed =
      let (few, allowed) = past_guard (ltb max_redirect_hops previous) _ _ followed in
      (
        ground (arith, few),
        λ host named.
            let same : target ≡ host = cc in rw (← same) ((host_is_allowed_iff target).0 allowed),
      )

  module _ (parse : String → Result String Url) where
    -- A URL is valid exactly if it parses, with an http(s) scheme and a host that is an allowed one
    -- unless private hosts are allowed.
    pub validate_url_iff :
        (raw_url : String) (allow_private_hosts : Bool)
        → validate_url parse_ip parse raw_url allow_private_hosts ≡ ok tt ↔ (
            (url : Url) × (parse raw_url ≡ ok url)
            × (((url.scheme ≡ "http") ⊎ (url.scheme ≡ "https"))
                × ((host : String) × (url.host_str ≡ some host)
                    × ((allow_private_hosts ≡ true) ⊎ IsAllowedHost host))))
    unfolding validate_url
    validate_url_iff raw_url allow_private_hosts = elim (Result-cases (parse raw_url)) [
      | inl (e, failed) ↦
          rw (failed, validate_url) (λ h. absurd cc, λ (url, parsed, valid). absurd cc)
      | inr (url, found) ↦
          rw (found, validate_url)
            (
              λ h. (url, refl, (validate_parsed_iff url allow_private_hosts).0 h),
              λ (other, parsed, valid).
                  let here : other ≡ url = cc in
                  (validate_parsed_iff url allow_private_hosts).1 (rw (← here) valid),
            )
    ]

    -- The URLs that one fetch requests, the last one first.
    pub data Requested (allow_private_hosts : Bool) (raw_url : String) : List Url → Type 0 where
      first :
          (url : Url)
          → parse raw_url ≡ ok url
          → validate_url parse_ip parse raw_url allow_private_hosts ≡ ok tt
          → Requested allow_private_hosts raw_url (url ∷ [])
      redirected :
          (urls : List Url) (target : Url)
          → Requested allow_private_hosts raw_url urls
          → redirect_policy parse_ip allow_private_hosts (length urls) target.host_str ≡ ok tt
          → Requested allow_private_hosts raw_url (target ∷ urls)

    -- Where private hosts are not allowed, one fetch requests at most six URLs, redirects included, and
    -- each host of theirs is on the list of hosts and is no literal of an address that is not public.
    pub Requested-allowed :
        (raw_url : String) (urls : List Url)
        → Requested false raw_url urls
        → (length urls ≤ suc max_redirect_hops)
          × All (λ url. (host : String) → url.host_str ≡ some host → IsAllowedHost host) urls
    Requested-allowed raw_url urls (first url parsed valid) =
        let (other, found, (web, (host, has, private))) =
          (validate_url_iff raw_url false).0 valid in
        let here : other ≡ url = cc in
        (
          omega arith,
          (
            λ name named.
                let same : host ≡ name = cc in
                elim private [ inl never ↦ absurd cc | inr allowed ↦ rw (← same) allowed ],
            tt,
          ),
        )
    Requested-allowed raw_url urls (redirected before target requested followed) =
        let (few, allowed) = redirect_policy-follows (length before) target.host_str followed in
        let (fewer, rest) = Requested-allowed raw_url before requested in (few, (allowed, rest))

-- A name that is looked up resolves to its public addresses, of which there is one, or else fails and
-- has none.
pub resolve_cases :
    (lookup_host : String → Result String (List (IpAddr × ℕ))) (host : String)
    (addrs : List (IpAddr × ℕ))
    → (lookup_host host ≡ ok addrs)
    → ((public : List (IpAddr × ℕ)) × (resolve lookup_host host ≡ ok public)
        × ((addr : IpAddr × ℕ)
            → Memᴰ addr public ↔ (Memᴰ addr addrs × (is_public_ip addr.0 ≡ true)))
        × (1 ≤ length public))
      ⊎ ((reason : String) × (resolve lookup_host host ≡ err reason)
          × ((addr : IpAddr × ℕ) → Memᴰ addr addrs → is_public_ip addr.0 ≡ false))
unfolding resolve
resolve_cases lookup_host host addrs found =
    let passing = keep_if (λ addr. is_public_ip addr.0) addrs in
    elim (Bool-cases (is_empty passing)) [
      | inl none_left ↦ inr (
        "host " ^^ host ^^ " does not resolve to any public address",
        rw (found, resolve, none_left) refl,
        λ addr listed. elim (Bool-cases (is_public_ip addr.0)) [
          | inl public ↦
              absurd
                (is_empty-not_mem addr passing none_left (keep_if-mem _ addr addrs listed public))
          | inr private ↦ private
        ],
      )
      | inr some_left ↦ inl (
        passing,
        rw (found, resolve, some_left) refl,
        (λ addr.
            (mem-keep_if _ addr addrs, λ (listed, public). keep_if-mem _ addr addrs listed public)),
        one-le-length passing some_left,
      )
    ]
