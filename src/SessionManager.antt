-- ===== src/SessionManager.antt =====
-- src/services/session_manager.rs: requests to create or update a session, its watched set, and
-- the stream of its events to one client. The token lists come from the fetcher and what the
-- broadcast stream yields from tokio: parameters.
pub mod WatchedSet
pub mod LagClose
pub mod Limit
pub mod Sse
pub mod Connect
pub mod Stream
pub mod Listener
mod Examples
mod StreamExample
mod ListenerExample
use Prim.Native.String.{String}
use balances_watcher.Base.{
  ℕ, ◌+◌, ◌++◌, none, some, ltb, length, if◌then◌else◌, List, [], ◌∷◌, nat_eq, Result, ok, err,
}
use balances_watcher.Base.Set.{insert, extend, remove}
use balances_watcher.Domain.Network.{weth9_address, native_token_address}
use balances_watcher.Domain.Session.{Session, BalanceEvent, error}
use balances_watcher.TokenListFetcher.{FetcherError, unable_to_load_list, url_not_allowed}
use balances_watcher.SubscriptionManager.{
  Upserted, Manager, upsert, SubscriptionError, session_not_registered, owner_client_limit_exceeded,
}

pub data SessionError : Type 0 where
  token_list_not_found : String → SessionError
  token_list_url_not_allowed : String → String → SessionError
  token_limit_exceeded : ℕ → ℕ → SessionError
  session_is_not_created : SessionError
  client_limit_exceeded : ℕ → SessionError

unfoldable pub map_fetcher_error : FetcherError → SessionError
map_fetcher_error (unable_to_load_list url reason) = token_list_not_found url
map_fetcher_error (url_not_allowed url reason) = token_list_url_not_allowed url reason

unfoldable pub map_subscription_error : SubscriptionError → SessionError
map_subscription_error session_not_registered = session_is_not_created
map_subscription_error (owner_client_limit_exceeded limit) = client_limit_exceeded limit

-- The lists' tokens and the custom ones, with the wrapped token and without the native sentinel.
unfoldable pub extend_tokens : Session → List ℕ → List ℕ → List ℕ
extend_tokens session tokens custom_tokens =
    remove (native_token_address session.network)
      (insert (weth9_address session.network) (extend tokens custom_tokens))

module _ (get_tokens : List String → Result FetcherError (List ℕ)) where
  unfoldable pub fetch_and_extend_tokens :
      Session → List String → List ℕ → Result SessionError (List ℕ)
  unfolding map_fetcher_error extend_tokens
  fetch_and_extend_tokens session token_lists_urls custom_tokens =
      elim (get_tokens token_lists_urls) [
        | err e ↦ err (map_fetcher_error e)
        | ok tokens ↦ ok (extend_tokens session tokens custom_tokens)
      ]

-- The registry, the count of refused requests, and the subscriptions and queues for which watchers
-- were spawned.
pub record Server : Type 0 where
  pub manager : Manager
  pub tokens_limit_exceeded_total : ℕ
  pub watchers : List (ℕ × ℕ)

-- The part of `upsert` behind the registry's answer.
unfoldable pub finish_upsert : Upserted × Manager → Server → Result SessionError (Unit {0}) × Server
unfolding map_subscription_error
finish_upsert (err e, m) s = (err (map_subscription_error e), record s { manager = m })
finish_upsert (ok (id, none), m) s = (ok tt, record s { manager = m })
finish_upsert (ok (id, some queue), m) s =
    (ok tt, record s { manager = m; watchers = s.watchers ++ (id, queue) ∷ [] })

module _ (get_tokens : List String → Result FetcherError (List ℕ)) (token_limit : ℕ) where
  -- `SessionManager::upsert`; `others` and `later` are as in the registry's.
  unfoldable pub upsert_session :
      (Manager → Manager)
      → (Manager → Manager)
      → Session
      → List String
      → List ℕ
      → ℕ
      → Server
      → Result SessionError (Unit {0}) × Server
  unfolding finish_upsert
  upsert_session others later session urls custom_tokens now s =
      elim (fetch_and_extend_tokens get_tokens session urls custom_tokens) [
        | err e ↦ (err e, s)
        | ok watched ↦
            if ltb token_limit (length watched)
            then (
              err (token_limit_exceeded (length watched) token_limit),
              record s { tokens_limit_exceeded_total = s.tokens_limit_exceeded_total + 1 },
            )
            else finish_upsert (upsert others later session watched now s.manager) s
      ]

-- What the broadcast stream of a client yields.
pub data StreamItem : Type 0 where
  event : BalanceEvent → StreamItem
  lagged : StreamItem

-- The events that the client is sent, and the count of lagged clients.
unfoldable pub broadcast_events_with_lag_close : List StreamItem → ℕ → List BalanceEvent × ℕ
broadcast_events_with_lag_close [] total = ([], total)
broadcast_events_with_lag_close (event e ∷ items) total =
    let (events, total') = broadcast_events_with_lag_close items total in (e ∷ events, total')
broadcast_events_with_lag_close (lagged ∷ items) total =
    (error 503 "event stream lagged; reconnect for a fresh snapshot" ∷ [], total + 1)
