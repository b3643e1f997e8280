-- ===== src/SessionManager/Sse.antt =====
-- `create_sse_connection`, `balance_event_to_sse` and `StreamError` of
-- src/services/session_manager.rs, and src/services/cleanup_stream.rs. An event on the wire is its
-- name and its data; the data is of any type, and how it is written a parameter, `none` where it
-- cannot be; so is the text of a balance. The keep-alive comments of axum are left out.
use balances_watcher.Base.{
  ℕ, List, [], ◌∷◌, ◌++◌, Option, none, some, String, Result, ok, err, if◌then◌else◌, is_empty,
  nat_eq,
}
use balances_watcher.Base.Map.{lookup}
use balances_watcher.Domain.Session.{Session, BalanceEvent, balance_update, error}
use balances_watcher.Subscription.{Subscription, BalanceSnapshot, Diff, current_snapshot}
use balances_watcher.SubscriptionManager.{Manager, SubscriptionError, subscribe, unsubscribe}
use balances_watcher.SessionManager.{
  SessionError, session_is_not_created, map_subscription_error, StreamItem,
  broadcast_events_with_lag_close,
}

pub record StreamError : Type 0 where
  pub code : ℕ
  pub message : String

-- `StreamError::from`.
unfoldable pub stream_error_from : SessionError → StreamError
stream_error_from session_is_not_created = record { code = 404; message = "Session is not created" }
stream_error_from _ = record { code = 500; message = "Internal server error" }

unfoldable pub snapshot_amounts : (ℕ → String) → BalanceSnapshot → Diff
snapshot_amounts to_string [] = []
snapshot_amounts to_string ((address, balance) ∷ snapshot) =
    (address, to_string balance.amount) ∷ snapshot_amounts to_string snapshot

-- The name of an event, by its data.
abbrev pub event_name : BalanceEvent → String
event_name (balance_update balances) = "balance_update"
event_name (error code message) = "error"

-- The snapshot of the subscription with a number.
abbrev pub snapshot_of : Option Subscription → BalanceSnapshot
snapshot_of none = []
snapshot_of (some s) = current_snapshot s

module _ {Data : Type 0} (json_data : BalanceEvent → Option Data) where
  unfoldable pub balance_event_to_sse : BalanceEvent → Option (String × Data)
  balance_event_to_sse event = elim (json_data event) [
    | none ↦ none
    | some data' ↦ some (event_name event, data')
  ]

  -- `filter_map`: an event that cannot be written is left out.
  unfoldable pub to_sse_stream : List BalanceEvent → List (String × Data)
  unfolding balance_event_to_sse
  to_sse_stream [] = []
  to_sse_stream (event ∷ events) =
      let rest = to_sse_stream events in
      elim (balance_event_to_sse event) [ none ↦ rest | some sse ↦ sse ∷ rest ]

  unfoldable pub initial_stream : (ℕ → String) → BalanceSnapshot → List (String × Data)
  unfolding to_sse_stream snapshot_amounts
  initial_stream to_string snapshot =
      if is_empty snapshot
      then []
      else to_sse_stream (balance_update (snapshot_amounts to_string snapshot) ∷ [])

  -- What follows the subscription. `others` is what other tasks do between it and the reading of
  -- the snapshot, and `items` is what the receiver yields. The answer is the stream, with the count
  -- of lags.
  unfoldable pub connect :
      (ℕ → String)
      → (Manager → Manager)
      → List StreamItem
      → ℕ
      → Result SubscriptionError ℕ × Manager
      → Result StreamError (List (String × Data) × ℕ) × Manager
  unfolding current_snapshot stream_error_from map_subscription_error initial_stream
      broadcast_events_with_lag_close
  connect to_string others items lagged_total (err e, m) =
      (err (stream_error_from (map_subscription_error e)), m)
  connect to_string others items lagged_total (ok id, m) =
      let (events, total) = broadcast_events_with_lag_close items lagged_total in
      (
        ok (
          initial_stream to_string (snapshot_of (lookup id (others m).heap))
              ++ to_sse_stream events,
          total,
        ),
        others m,
      )

  unfoldable pub create_sse_connection :
      (ℕ → String)
      → (Manager → Manager)
      → List StreamItem
      → ℕ
      → Session
      → Manager
      → Result StreamError (List (String × Data) × ℕ) × Manager
  unfolding subscribe connect
  create_sse_connection to_string others items lagged_total session m =
      connect to_string others items lagged_total (subscribe session m)

-- The drop of a `CleanupStream`: an error is only logged.
unfoldable pub drop_cleanup_stream : Session → ℕ → Manager → Manager
unfolding unsubscribe
drop_cleanup_stream session now m = (unsubscribe session now m).1
