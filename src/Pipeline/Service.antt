-- ===== src/Pipeline/Service.antt =====
-- The whole way of a transfer in a service that `main` has started.
use Prim.Native.String.{String}
use balances_watcher.Base.{
  ℕ, ◌≤◌, ◌≡◌, ◌≢◌, Bool, true, List, [], Option, some, Result, ok, ◌∷◌, All, Memᴰ, nat_eq,
}
use balances_watcher.Base.Sort.{concat}
use balances_watcher.Dispatcher.Logs.{Log, Erc20TransferEvent, Outbox, on_erc20_logs}
use balances_watcher.Dispatcher.Bisect.Blocks.{IsFaithful, HasFailed}
use balances_watcher.Dispatcher.Run.{Dispatcher, Message}
use balances_watcher.Dispatcher.Run.Heads.{IsBounded}
use balances_watcher.Dispatcher.Run.Delivery.Loop.{IsWithinCap}
use balances_watcher.SubscriptionManager.{SubWithCounter}
use balances_watcher.RefreshQueue.{FetchRequest, BlockId, work}
use balances_watcher.SessionManager.Listener.{ListenerMessage, IsTransfer, listen}
use balances_watcher.Subscription.{Diff, BalancesWithBlock, Subscription}
use balances_watcher.SnapshotUpdater.{receive_loop}
use balances_watcher.SnapshotUpdater.Broadcast.{UpToDate}
use balances_watcher.Pipeline.Emission.{IsEventOf}
use balances_watcher.Pipeline.Transfer.{events_of, IsWatched}
use balances_watcher.Pipeline.Balance.{messages_of, IsOk, Answers, Shows}
use balances_watcher.Config.{Args}
use balances_watcher.UrlGuard.Ip.{IpAddr}
use balances_watcher.Dispatcher.Run.{head, run}
use balances_watcher.Dispatcher.Run.Heads.{newest_of}
use balances_watcher.Dispatcher.Spawn.{config_for}
use balances_watcher.Startup.{ServerHandle, main}
use balances_watcher.Pipeline.Handed.{main-hands_over}
use balances_watcher.Pipeline.Client.{handed_over-Shows}

module _ {ℓ κ} {RpcError : Type ℓ} {Error : Type κ}
    (fetch_balances_via_multicall : ℕ → ℕ → List ℕ → BlockId → Result RpcError BalancesWithBlock)
    (receivers : ℕ → Option ℕ) (to_string : ℕ → String) (transfer_logs weth9_logs : ℕ → List Log)
    (fetch_transfer fetch_weth9 : ℕ → ℕ → ℕ → Result Error (List Log))
    (faithful : IsFaithful transfer_logs fetch_transfer)
    (faithful' : IsFaithful weth9_logs fetch_weth9) (from_word : ℕ → ℕ)
    (parse_ip : String → Option IpAddr) (lookup_host : String → Result String (List (IpAddr × ℕ)))
    (user_agent : String) (connect : String → Result String (Unit {0}))
    (bind : String → Result String ℕ) where
  -- Take a service that `main` has started, a run of its dispatcher over heads that leave room in 64
  -- bits, of which the first cycle takes one that is not 0 and none is further ahead than the cap of
  -- the network, and a `Transfer` in a block from this one on and up to the last cursor; the block is
  -- not lost, and the provider answers a range only with all of its logs. In a session that watches
  -- the token for one of the two parties, if the listener receives every event that is sent, the
  -- worker takes what its queue accepts, the node answers each multicall of the token with a balance
  -- that is not older than the block it was asked for, none of them fails, and no other task touches
  -- the subscription: a client that was up to date then has the text of the token's balance from the
  -- block of the transfer or from a later one.
  pub main-Shows :
      (is_received : ℕ → Bool)
      → ((i : ℕ) → is_received i ≡ true)
      → (args : Args) (handle : ServerHandle Log)
      → main parse_ip lookup_host user_agent connect bind args ≡ ok handle
      → (block : ℕ) (rx : List ℕ) (latest_head : ℕ) (ms : List Message) (d' : Dispatcher Log)
      → All (IsBounded (config_for args.network)) (head block rx latest_head ∷ ms)
      → newest_of block rx ≢ 0
      → IsWithinCap (config_for args.network) (newest_of block rx) ms
      → let s = handle.app_state.session_manager.event_dispatcher in
        run fetch_transfer fetch_weth9 s.config (head block rx latest_head ∷ ms) s.dispatcher
          ≡ some d'
        → (n : ℕ) (log : Log) → newest_of block rx ≤ n
        → n ≤ d'.latest_processed_block
        → ¬ HasFailed transfer_logs fetch_transfer n
        → Memᴰ log (transfer_logs n)
        → (event : Erc20TransferEvent) → IsEventOf from_word log event
        → event.block ≡ some n
        → (o : Outbox) (messages : List ListenerMessage) → All IsTransfer messages
        → ((e : Erc20TransferEvent)
            → Memᴰ e (on_erc20_logs from_word d'.erc20_logs o).sent
            → Memᴰ e (events_of messages))
        → (entry : SubWithCounter) → All (IsWatched event entry) messages
        → (batches : List (List FetchRequest))
        → concat batches ≡ listen messages (λ k. []) entry.subscription
        → Answers receivers to_string fetch_balances_via_multicall event.token n
        → All IsOk (work fetch_balances_via_multicall is_received event.owner batches)
        → (view : Diff) (s : Subscription) → UpToDate receivers to_string view s
        → Shows to_string event.token n view (
            receive_loop receivers to_string
              (messages_of (work fetch_balances_via_multicall is_received event.owner batches))
              s)
  main-Shows is_received heard args handle started block rx latest_head ms d' b some_block cap ran n
        log behind upto fine m event of at_block o messages reads arrives entry watched batches
        taken law ok_answers view s agree =
      handed_over-Shows fetch_balances_via_multicall receivers to_string from_word is_received heard
        n d'.erc20_logs log
        (main-hands_over transfer_logs weth9_logs fetch_transfer fetch_weth9 faithful faithful'
          parse_ip lookup_host user_agent connect bind args handle started block rx latest_head ms
          d' b some_block cap ran n log behind upto fine m)
        event of at_block o messages reads arrives entry watched batches taken law ok_answers view s
        agree
