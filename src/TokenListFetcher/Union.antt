-- ===== src/TokenListFetcher/Union.antt =====
-- What the lists of a request resolve to, over any cache that holds what the lists have.
use balances_watcher.Base.{
  ℕ, ◌≡◌, refl, sym, ap, ◌∙◌, ◌⊎◌, inl, inr, ◌↔◌, true, List, [], ◌∷◌, Option, some, String, ◌==◌,
  arith, nat_eq, Bool-cases, Option-cases, Memᴰ, Result, ok, err,
}
use mathlib.Core.List.{Permᴰ}
use mathlib.Core.List.Permᴰ
use balances_watcher.Base.Text.{string_eq}
use balances_watcher.Base.Sort.{perm_mem}
use balances_watcher.Base.Map.{lookup, insert, lookup-insert}
use balances_watcher.Base.Set.{contains, extend, contains-extend}
use balances_watcher.TokenListFetcher.Fetch.{IsListed, fetch_list_and_filter_by_chain_cases}
use balances_watcher.TokenListFetcher.{
  FetcherError, url_not_allowed, Counters, Fetcher, Services, load_and_parse,
  fetch_list_and_filter_by_chain, store_fetched, try_get_with, join_all, get_tokens,
}

module _ {TransportError Value : Type 0} (services : Services TransportError Value) where
  -- The set of a URL that the guard lets pass.
  abbrev pub Resolves : String → List ℕ → Type 0
  Resolves url set =
      (services.validate_url url ≡ ok tt)
      × ((address : ℕ) → contains address set ≡ true ↔ IsListed services url address)

  -- Why a URL does not resolve.
  abbrev pub Fails : String → FetcherError → Type 0
  Fails url e =
      ((reason : String) × (services.validate_url url ≡ err reason)
        × (e ≡ url_not_allowed url reason))
      ⊎ ((services.validate_url url ≡ ok tt) × (load_and_parse services url ≡ err e))

  abbrev pub IsSound : Fetcher → Type 0
  IsSound f = (url : String) (set : List ℕ) → lookup url f.cache ≡ some set → Resolves url set

  IsSound-insert :
      (url : String) (set : List ℕ) (f : Fetcher) (m : Counters)
      → IsSound f
      → Resolves url set
      → IsSound (record { cache = insert url set f.cache; counters = m })
  IsSound-insert url set f m sound resolves other found at_other =
      let stored = sym (lookup-insert url other set f.cache) ∙ at_other in
      elim (Bool-cases (url == other)) [
        | inl same ↦
            let one : ◌≡◌ {A = Option (List ℕ)} (some set) (some found) = rw same at stored in
            let set_is : set ≡ found = cc in
            rw (← (string_eq.beq_iff url other).0 same, ← set_is) resolves
        | inr differs ↦ sound other found (rw differs at stored)
      ]

  -- What a URL comes to.
  abbrev pub Answers : String → Result FetcherError (List ℕ) → Type 0
  Answers url answer =
      ((set : List ℕ) × (answer ≡ ok set) × Resolves url set)
      ⊎ ((e : FetcherError) × (answer ≡ err e) × Fails url e)

  fetch-Answers :
      (url : String) (m : Counters) → Answers url (fetch_list_and_filter_by_chain services url m).0
  fetch-Answers url m = elim (fetch_list_and_filter_by_chain_cases services url m) [
    | inl (reason, refused, answer) ↦
        inr (url_not_allowed url reason, ap (λ r. r.0) answer, inl (reason, refused, refl))
    | inr (allowed, inl (e, failed, answer)) ↦ inr (e, ap (λ r. r.0) answer, inr (allowed, failed))
    | inr (allowed, inr (set, answer, counted, listed)) ↦ inl (set, answer, (allowed, listed))
  ]

  store_fetched-IsSound :
      (url : String) (answer : Result FetcherError (List ℕ)) (m : Counters) (f : Fetcher)
      → IsSound f
      → Answers url answer
      → IsSound (store_fetched services url (answer, m) f).1
        × ((store_fetched services url (answer, m) f).0 ≡ answer)
  unfolding store_fetched
  store_fetched-IsSound url (err e) m f sound answers = (sound, refl)
  store_fetched-IsSound url (ok set) m f sound (inl (found, same, resolves)) =
      let set_is : set ≡ found = cc in (IsSound-insert url set f m sound (rw set_is resolves), refl)
  store_fetched-IsSound url (ok set) m f sound (inr (e, never, fails)) = absurd cc

  try_get_with-Answers :
      (url : String) (f : Fetcher)
      → IsSound f
      → IsSound (try_get_with services url f).1 × Answers url (try_get_with services url f).0
  unfolding try_get_with
  try_get_with-Answers url f sound = elim (Option-cases (lookup url f.cache)) [
    | inr (set, hit) ↦ rw (hit, try_get_with) (sound, inl (set, refl, sound url set hit))
    | inl missed ↦
        let answers = fetch-Answers url f.counters in
        let (sound', same) =
          store_fetched-IsSound url (fetch_list_and_filter_by_chain services url f.counters).0
            (fetch_list_and_filter_by_chain services url f.counters).1 f sound answers in
        rw (missed, try_get_with) (sound', rw same answers)
  ]

  -- An address of one of the lists.
  abbrev pub InSome : List String → ℕ → Type 0
  InSome urls address = (url : String) × Memᴰ url urls × IsListed services url address

  abbrev pub Joins : List String → List ℕ → Result FetcherError (List ℕ) → Type 0
  Joins urls union answer =
      ((tokens : List ℕ) × (answer ≡ ok tokens)
        × ((url : String) → Memᴰ url urls → services.validate_url url ≡ ok tt)
        × ((address : ℕ)
            → contains address tokens ≡ true
              ↔ ((contains address union ≡ true) ⊎ InSome urls address)))
      ⊎ ((e : FetcherError) × (url : String) × (answer ≡ err e) × Memᴰ url urls × Fails url e)

  Joins-cons :
      (url : String) (urls : List String) (union set : List ℕ)
      (answer : Result FetcherError (List ℕ))
      → Resolves url set
      → Joins urls (extend union set) answer
      → Joins (url ∷ urls) union answer
  Joins-cons url urls union set answer resolves (inr (e, other, failed, listed, fails)) =
      inr (e, other, failed, Memᴰ.tail listed, fails)
  Joins-cons url urls union set answer (allowed, of_list)
        (inl (tokens, done, all_allowed, members)) =
      inl (tokens, done, allow, λ address. (to address, from address))
    where
      allow : (other : String) → Memᴰ other (url ∷ urls) → services.validate_url other ≡ ok tt
      allow other (Memᴰ.head same) = rw same allowed
      allow other (Memᴰ.tail listed) = all_allowed other listed

      to :
          (address : ℕ)
          → contains address tokens ≡ true
          → (contains address union ≡ true) ⊎ InSome (url ∷ urls) address
      to address held = elim ((members address).0 held) [
        | inr (other, listed, found) ↦ inr (other, Memᴰ.tail listed, found)
        | inl sooner ↦ elim (Bool-cases (contains address union)) [
          | inl old ↦ inl old
          | inr new ↦ inr (
            url,
            Memᴰ.head refl,
            (of_list address).0 (ground (arith, contains-extend address union set, sooner, new)),
          )
        ]
      ]

      from :
          (address : ℕ)
          → (contains address union ≡ true) ⊎ InSome (url ∷ urls) address
          → contains address tokens ≡ true
      from address (inl old) =
          (members address).1 (inl (ground (arith, contains-extend address union set, old)))
      from address (inr (other, Memᴰ.head same, found)) =
          let here : contains address set ≡ true = (of_list address).1 (rw (← same) found) in
          (members address).1 (inl (ground (arith, contains-extend address union set, here)))
      from address (inr (other, Memᴰ.tail listed, found)) =
          (members address).1 (inr (other, listed, found))

  join_all-Joins :
      (urls : List String) (union : List ℕ) (f : Fetcher)
      → IsSound f
      → IsSound (join_all services urls union f).1
        × Joins urls union (join_all services urls union f).0
  unfolding join_all
  join_all-Joins [] union f sound = (
    sound,
    inl (
      union,
      refl,
      λ url never. elim never [ ],
      λ address. (λ h. inl h, λ h. elim h [ inl old ↦ old | inr (url, never, _) ↦ elim never [ ] ]),
    ),
  )
  join_all-Joins (url ∷ urls) union f sound =
      let (sound', answers) = try_get_with-Answers url f sound in
      elim answers [
        | inr (e, failed, fails) ↦
            rw (failed, join_all) (sound', inr (e, url, refl, Memᴰ.head refl, fails))
        | inl (set, found, resolves) ↦
            let rest =
              join_all-Joins urls (extend union set) (try_get_with services url f).1 sound' in
            rw (found, join_all) (rest.0, Joins-cons url urls union set _ resolves rest.1)
      ]

  -- Over a cache that holds what the lists have, a request for some URLs leaves such a cache, however
  -- their loads finish. It has the addresses of all of their lists, each URL being one that the guard
  -- lets pass, or else the error of one of the URLs.
  pub get_tokens_cases :
      (finish : List String → List String) (urls : List String) (f : Fetcher)
      → Permᴰ (finish urls) urls
      → IsSound f
      → IsSound (get_tokens services finish urls f).1
        × (((tokens : List ℕ) × ((get_tokens services finish urls f).0 ≡ ok tokens)
              × ((url : String) → Memᴰ url urls → services.validate_url url ≡ ok tt)
              × ((address : ℕ) → contains address tokens ≡ true ↔ InSome urls address))
            ⊎ ((e : FetcherError) × (url : String) × ((get_tokens services finish urls f).0 ≡ err e)
                × Memᴰ url urls
                × Fails url e))
  unfolding get_tokens contains
  get_tokens_cases finish urls f same sound =
      let (sound', joins) = join_all-Joins (finish urls) [] f sound in
      (
        sound',
        elim joins [
          | inr (e, url, failed, listed, fails) ↦ inr (e, url, failed, perm_mem same listed, fails)
          | inl (tokens, done, allowed, members) ↦ inl (
            tokens,
            done,
            λ url listed. allowed url (perm_mem (Permᴰ.symm same) listed),
            λ address. (
              λ h. elim ((members address).0 h) [
                | inl never ↦ absurd cc
                | inr (url, listed, found) ↦ (url, perm_mem same listed, found)
              ],
              λ (url, listed, found).
                  (members address).1 (inr (url, perm_mem (Permᴰ.symm same) listed, found)),
            ),
          )
        ],
      )
