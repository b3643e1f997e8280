-- ===== src/TokenListFetcher/Fetch.antt =====
-- What one list resolves to.
use balances_watcher.Base.{
  ℕ, ◌+◌, ◌≡◌, refl, ◌⊎◌, inl, inr, ◌↔◌, true, List, [], String, nat_eq, Result-cases, Memᴰ, ok,
  err,
}
use balances_watcher.Base.Set.{contains}
use balances_watcher.TokenListFetcher.Entries.{IsFor, entries_iff}
use balances_watcher.TokenListFetcher.{
  FetcherError, url_not_allowed, Counters, filter_entries, filter_list, load_and_parse, fetch_list,
  fetch_list_and_filter_by_chain, Services,
}

module _ {TransportError Value : Type 0} (services : Services TransportError Value) where
  -- An address of the list of a URL: of an entry for the chain, in a body that loads and parses.
  abbrev pub IsListed : String → ℕ → Type 0
  IsListed url address =
      (tokens : List Value) × (bytes : ℕ) × (load_and_parse services url ≡ ok (tokens, bytes))
      × ((raw : Value) × Memᴰ raw tokens
          × IsFor services.from_value services.parse_address services.chain_id raw address)

  collected : List Value → List ℕ
  collected tokens =
      (filter_entries services.from_value services.parse_address services.chain_id tokens
        (record { token_set = []; invalid_count = 0; invalid_samples = [] })).token_set

  collected_iff :
      (url : String) (tokens : List Value) (bytes : ℕ)
      → load_and_parse services url ≡ ok (tokens, bytes)
      → (address : ℕ) → contains address (collected tokens) ≡ true ↔ IsListed url address
  unfolding collected contains
  collected_iff url tokens bytes loaded address =
      let entries =
        entries_iff services.from_value services.parse_address services.chain_id tokens
          (record { token_set = []; invalid_count = 0; invalid_samples = [] }) address in
      (
        λ h. elim (entries.0 h) [
          | inl never ↦ absurd cc
          | inr found ↦ (tokens, bytes, loaded, found)
        ],
        λ (others, size, again, found).
            let same : others ≡ tokens = cc in entries.1 (inr (rw (← same) found)),
      )

  -- Either the guard refuses the URL, or the list does not load, or its addresses for the chain are
  -- the answer; one metric each counts which.
  pub fetch_list_and_filter_by_chain_cases :
      (url : String) (m : Counters)
      → ((reason : String) × (services.validate_url url ≡ err reason)
          × (fetch_list_and_filter_by_chain services url m ≡ (
            err (url_not_allowed url reason),
            record m { token_list_url_rejected_total = m.token_list_url_rejected_total + 1 },
          )))
        ⊎ ((services.validate_url url ≡ ok tt)
            × (((e : FetcherError) × (load_and_parse services url ≡ err e)
                  × (fetch_list_and_filter_by_chain services url m ≡ (
                    err e,
                    record m { token_list_load_failed_total = m.token_list_load_failed_total + 1 },
                  )))
                ⊎ ((set : List ℕ) × ((fetch_list_and_filter_by_chain services url m).0 ≡ ok set)
                    × ((fetch_list_and_filter_by_chain services url m).1.token_list_loaded_total
                        ≡ m.token_list_loaded_total + 1)
                    × ((address : ℕ) → contains address set ≡ true ↔ IsListed url address))))
  unfolding fetch_list_and_filter_by_chain fetch_list filter_list collected
  fetch_list_and_filter_by_chain_cases url m = elim (Result-cases (services.validate_url url)) [
    | inl (reason, refused) ↦
        inl (reason, refused, rw (refused, fetch_list_and_filter_by_chain) refl)
    | inr (passed, allowed) ↦ elim (Result-cases (load_and_parse services url)) [
      | inl (e, failed) ↦ inr (
        allowed,
        inl (e, failed, rw (allowed, fetch_list_and_filter_by_chain, failed, fetch_list) refl),
      )
      | inr ((tokens, bytes), loaded) ↦ inr (
        allowed,
        inr (
          collected tokens,
          rw (allowed, fetch_list_and_filter_by_chain, loaded, fetch_list) refl,
          rw (allowed, fetch_list_and_filter_by_chain, loaded, fetch_list) refl,
          collected_iff url tokens bytes loaded,
        ),
      )
    ]
  ]
