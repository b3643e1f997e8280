-- ===== src/Pipeline/Client.antt =====
-- The whole way of a transfer: from a fetched block to the text that a client has.
use Prim.Native.String.{String}
use balances_watcher.Base.{ℕ, ◌≡◌, Bool, true, List, [], Option, some, Result, All, Memᴰ, nat_eq}
use mathlib.Core.Path.{subst}
use balances_watcher.Base.Sort.{concat}
use balances_watcher.Dispatcher.Logs.{Log, Erc20TransferEvent, Outbox, on_erc20_logs}
use balances_watcher.SubscriptionManager.{SubWithCounter}
use balances_watcher.RefreshQueue.{FetchRequest, BlockId, work}
use balances_watcher.RefreshQueue.Worker.{IsServed}
use balances_watcher.SessionManager.Listener.{ListenerMessage, IsTransfer, listen}
use balances_watcher.Subscription.{Diff, BalancesWithBlock, Subscription}
use balances_watcher.SnapshotUpdater.{receive_loop}
use balances_watcher.SnapshotUpdater.Broadcast.{UpToDate}
use balances_watcher.Pipeline.Emission.{IsEventOf}
use balances_watcher.Pipeline.Transfer.{events_of, IsWatched, handed_over-IsServed}
use balances_watcher.Pipeline.Balance.{messages_of, IsOk, Answers, Shows, IsServed-Shows}

module _ {ℓ} {RpcError : Type ℓ}
    (fetch_balances_via_multicall : ℕ → ℕ → List ℕ → BlockId → Result RpcError BalancesWithBlock)
    (receivers : ℕ → Option ℕ) (to_string : ℕ → String) (from_word : ℕ → ℕ) where
  -- A `Transfer` of block `n` that is handed to its handler, as one of some logs, is seen by a client.
  pub handed_over-Shows :
      (is_received : ℕ → Bool)
      → ((i : ℕ) → is_received i ≡ true)
      → (n : ℕ) (logs : List Log) (log : Log) → Memᴰ log logs
      → (event : Erc20TransferEvent) → IsEventOf from_word log event
      → event.block ≡ some n
      → (o : Outbox) (messages : List ListenerMessage) → All IsTransfer messages
      → ((e : Erc20TransferEvent)
          → Memᴰ e (on_erc20_logs from_word logs o).sent
          → Memᴰ e (events_of messages))
      → (entry : SubWithCounter) → All (IsWatched event entry) messages
      → (batches : List (List FetchRequest))
      → concat batches ≡ listen messages (λ k. []) entry.subscription
      → Answers receivers to_string fetch_balances_via_multicall event.token n
      → All IsOk (work fetch_balances_via_multicall is_received event.owner batches)
      → (view : Diff) (s : Subscription) → UpToDate receivers to_string view s
      → Shows to_string event.token n view (
          receive_loop receivers to_string
            (messages_of (work fetch_balances_via_multicall is_received event.owner batches))
            s)
  handed_over-Shows is_received heard n logs log over event of at_block o messages reads arrives
        entry watched batches taken law ok_answers view s agree =
      let served =
        handed_over-IsServed fetch_balances_via_multicall is_received heard from_word logs log over
          event of o messages reads arrives entry watched batches taken in
      let answers = work fetch_balances_via_multicall is_received event.owner batches in
      IsServed-Shows receivers to_string fetch_balances_via_multicall is_received event.owner
        event.token n law answers ok_answers view s agree
        (subst
          (λ block.
            IsServed fetch_balances_via_multicall is_received event.owner (event.token, block)
              answers)
          at_block served)
