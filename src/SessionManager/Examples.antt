-- ===== src/SessionManager/Examples.antt =====
-- The theorems on sessions, applied to a session on Gnosis.
use balances_watcher.Base.{
  String, ℕ, ◌+◌, ◌≡◌, ◌⊎◌, List, [], ◌∷◌, ◌++◌, map, Result, ok, err, nat_eq,
}
use balances_watcher.Base.Set.{contains}
use balances_watcher.Domain.Network.{gnosis}
use balances_watcher.Domain.Session.{Session, BalanceEvent, balance_update, error}
use balances_watcher.TokenListFetcher.{FetcherError, unable_to_load_list, url_not_allowed}
use balances_watcher.SessionManager.{
  token_list_not_found, token_list_url_not_allowed, fetch_and_extend_tokens, StreamItem, event,
  lagged, broadcast_events_with_lag_close,
}
use balances_watcher.Base.{◌≤◌, ◌<◌, refl, length}
use balances_watcher.SubscriptionManager.{upsert, empty}
use balances_watcher.SessionManager.{Server, extend_tokens, token_limit_exceeded, upsert_session}
use balances_watcher.SessionManager.Limit.{Answered, upsert_session_cases}
use balances_watcher.SessionManager.WatchedSet.{is_wanted, fetch_and_extend_tokens_cases}
use balances_watcher.SessionManager.LagClose.{broadcast_events_with_lag_close-lagged}

abbrev client : Session
client = record { owner = 7; network = gnosis; client_id = 1 }

abbrev lists : List String → Result FetcherError (List ℕ)
lists urls = ok (3 ∷ 4 ∷ [])

abbrev urls : List String
urls = "https://files.cow.fi/tokens/CowSwap.json" ∷ []

abbrev custom : List ℕ
custom = 9 ∷ []

abbrev wanted_token : ℕ
wanted_token = 9

fetch_and_extend_tokens_cases_example :
    ((tokens : List ℕ) × (watched : List ℕ) × (lists urls ≡ ok tokens)
      × (fetch_and_extend_tokens lists client urls custom ≡ ok watched)
      × (contains wanted_token watched ≡ is_wanted client tokens custom wanted_token))
    ⊎ ((url : String) × (reason : String) × (((lists urls ≡ err (unable_to_load_list url reason))
            × (fetch_and_extend_tokens lists client urls custom ≡ err (token_list_not_found url)))
          ⊎ ((lists urls ≡ err (url_not_allowed url reason))
              × (fetch_and_extend_tokens lists client urls custom
                  ≡ err (token_list_url_not_allowed url reason)))))
fetch_and_extend_tokens_cases_example =
    fetch_and_extend_tokens_cases lists client urls custom wanted_token

abbrev in_time : List BalanceEvent
in_time = balance_update ((3, "10") ∷ []) ∷ []

abbrev too_late : List StreamItem
too_late = event (balance_update ((3, "12") ∷ [])) ∷ []

broadcast_events_with_lag_close-lagged_example :
    broadcast_events_with_lag_close (map event in_time ++ lagged ∷ too_late) 0
    ≡ (in_time ++ error 503 "event stream lagged; reconnect for a fresh snapshot" ∷ [], 0 + 1)
broadcast_events_with_lag_close-lagged_example =
    broadcast_events_with_lag_close-lagged in_time too_late 0

abbrev server : Server
server = record { manager = empty; tokens_limit_exceeded_total = 0; watchers = [] }

abbrev watched_set : List ℕ
watched_set = extend_tokens client (3 ∷ 4 ∷ []) custom

loaded : fetch_and_extend_tokens lists client urls custom ≡ ok watched_set
unfolding fetch_and_extend_tokens
loaded = refl

upsert_session_cases_example :
    let r = upsert (λ m. m) (λ m. m) client watched_set 100 empty in
    let after = upsert_session lists 1500 (λ m. m) (λ m. m) client urls custom 100 server in
    ((1500 < length watched_set)
      × (after ≡ (
        err (token_limit_exceeded (length watched_set) 1500),
        record server { tokens_limit_exceeded_total = 0 + 1 },
      )))
    ⊎ ((length watched_set ≤ 1500)
        × (after.1.manager ≡ r.1)
        × (after.1.tokens_limit_exceeded_total ≡ 0)
        × Answered r.0 [] after.0 after.1.watchers)
upsert_session_cases_example =
    upsert_session_cases lists 1500 (λ m. m) (λ m. m) client urls custom watched_set 100 server
      loaded
