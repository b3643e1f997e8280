-- ===== src/SnapshotUpdater.antt =====
-- src/services/snapshot_updater.rs: how its two tasks treat what they receive. What a `select!` of a
-- task yields, round by round, is a list of messages; the chunks of balances come from the RPC client
-- and are a parameter. `receivers` are the answers of the broadcast sender, by the number of events
-- sent before.
pub mod Broadcast
pub mod Freshness
pub mod Interval
pub mod Parked
mod Examples
use Prim.Native.String.{String}
use balances_watcher.Base.{
  ℕ, Bool, not, List, [], ◌∷◌, Option, none, some, if◌then◌else◌, is_empty, length, Result, ok, err,
}
use balances_watcher.Domain.Session.{BalanceEvent, balance_update, error}
use balances_watcher.RefreshQueue.{BlockId, latest}
use balances_watcher.Subscription.{
  BalancesWithBlock, Subscription, send_event, cancel, clone_watched_tokens,
  update_balances_and_take_diff,
}

-- One round of `fetch_balances_and_broadcast`; the stream of results ends with the list.
pub data FetchMessage {ℓ} (RpcError : Type ℓ) : Type ℓ where
  fetch_cancelled : FetchMessage RpcError
  fetched : Result RpcError BalancesWithBlock → FetchMessage RpcError

-- One round of the queue receiver; `closed` is a `recv` that yields `None`.
pub data QueueMessage {ℓ} (RpcError : Type ℓ) : Type ℓ where
  queue_cancelled closed : QueueMessage RpcError
  received : Result RpcError BalancesWithBlock → QueueMessage RpcError

module _ (receivers : ℕ → Option ℕ) where
  unfoldable pub send_balance_update_event : Option BalanceEvent → Subscription → Subscription
  send_balance_update_event none s = s
  send_balance_update_event (some event) s = send_event (receivers (length s.sent)) event s

  module _ (to_string : ℕ → String) where
    unfoldable pub update_balances_and_send_event : BalancesWithBlock → Subscription → Subscription
    unfolding send_balance_update_event
    update_balances_and_send_event balances s =
        let (diff, s') = update_balances_and_take_diff to_string balances s in
        send_balance_update_event (if not (is_empty diff) then some (balance_update diff) else none)
          s'

    module _ {ℓ} {RpcError : Type ℓ} where
      -- The loop of `fetch_balances_and_broadcast`.
      unfoldable pub fetch_loop : List (FetchMessage RpcError) → Subscription → Subscription
      unfolding update_balances_and_send_event
      fetch_loop [] s = s
      fetch_loop (fetch_cancelled ∷ ms) s = s
      fetch_loop (fetched (ok balances) ∷ ms) s =
          fetch_loop ms (update_balances_and_send_event balances s)
      fetch_loop (fetched (err e) ∷ ms) s =
          fetch_loop ms
            (send_balance_update_event (some (error 500 "Error when make multicall3 request")) s)

      unfoldable pub fetch_balances_and_broadcast :
          (ℕ → List ℕ → BlockId → List (FetchMessage RpcError)) → ℕ → Subscription → Subscription
      unfolding fetch_loop
      fetch_balances_and_broadcast fetch_balances_by_chunks owner s =
          fetch_loop (fetch_balances_by_chunks owner (clone_watched_tokens s) latest) s

      -- The loop of `spawn_queue_result_receiver`.
      unfoldable pub receive_loop : List (QueueMessage RpcError) → Subscription → Subscription
      unfolding update_balances_and_send_event
      receive_loop [] s = s
      receive_loop (queue_cancelled ∷ ms) s = s
      receive_loop (closed ∷ ms) s = receive_loop ms s
      receive_loop (received (ok balances) ∷ ms) s =
          receive_loop ms (update_balances_and_send_event balances s)
      receive_loop (received (err e) ∷ ms) s = cancel (
          send_event (receivers (length s.sent))
            (error 503 "RPC provider connection lost permanently") s)
