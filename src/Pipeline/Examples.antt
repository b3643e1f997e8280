-- ===== src/Pipeline/Examples.antt =====
-- The theorem on the way of a transfer, applied to one block with one transfer in it.
use Prim.Native.String.{String}
use balances_watcher.Base.{
  ◌≢◌, ℕ, ◌≡◌, refl, ap, Bool, true, false, List, [], ◌∷◌, some, none, Result, ok, All, Memᴰ,
  nat_eq, nat_beq, if◌then◌else◌, arith, Option,
}
use balances_watcher.Base.Map.{lookup}
use balances_watcher.Base.Set.{contains}
use balances_watcher.Base.Sort.{concat}
use balances_watcher.Domain.Network.{gnosis, backfill_chunk_blocks, max_block_lag}
use balances_watcher.Domain.Session.{Session}
use balances_watcher.Dispatcher.Plan.{
  plan_fetch, drain_queued_heads, chunk_ranges, fetch_from, chunk_end,
}
use balances_watcher.Dispatcher.Bisect.{
  fetch_range_with_bisect, bisect_loop, midpoint, handle_batch,
}
use balances_watcher.Dispatcher.Logs.{Log, Erc20TransferEvent, Outbox, on_erc20_logs}
use balances_watcher.Dispatcher.Bisect.Blocks.{HasFailed}
use balances_watcher.Dispatcher.Bisect.Single.{single, single-IsFaithful}
use balances_watcher.Dispatcher.Run.{
  Dispatcher, Message, head, run, run_loop, fetch_erc20_and_process, fetch_weth9_and_process,
}
use balances_watcher.Dispatcher.Run.Heads.{IsBounded}
use balances_watcher.Dispatcher.Run.Delivery.Loop.{IsWithinCap}
use balances_watcher.Subscription.{new, BalancesWithBlock, is_watched_token}
use balances_watcher.SnapshotUpdater.{receive_loop}
use balances_watcher.SnapshotUpdater.Broadcast.{UpToDate}
use balances_watcher.SubscriptionManager.{
  Manager, SubWithCounter, empty, watches, owned_queues_watching, candidates, keep_watching,
}
use balances_watcher.RefreshQueue.{FetchRequest, BlockId, work, enqueue}
use balances_watcher.SessionManager.Listener.{
  enqueue_all, enqueue_into, ListenerMessage, transfer, Heaps, IsWatching, listen,
}
use balances_watcher.Pipeline.Transfer.{events_of, IsWatched}
use balances_watcher.Pipeline.Balance.{messages_of, IsOk, Answers, Shows}
use balances_watcher.Pipeline.Service.{main-Shows}
use balances_watcher.Dispatcher.Run.Heads.{newest_of}
use balances_watcher.Base.{err, ◌≤◌}
use balances_watcher.Config.{Args, from_args}
use balances_watcher.UrlGuard.Ip.{IpAddr}
use balances_watcher.Dispatcher.Spawn.{spawn_dispatcher, config_for}
use balances_watcher.Startup.{
  ServerHandle, main, spawn_server, build, session_config, spawn_session_manager,
}

abbrev payment : Log
payment = record { address = 3; topics = 1 ∷ 5 ∷ 7 ∷ []; block_number = some 102 }

abbrev transfers : ℕ → List Log
transfers n = if nat_beq n 102 then payment ∷ [] else []

abbrev no_logs : ℕ → List Log
no_logs n = []

never_failed : ¬ HasFailed transfers (single transfers) 102
never_failed (call, e, failed) = cc

abbrev args : Args
args = record {
  bind = "127.0.0.1:8080";
  network = gnosis;
  rpc_http_url = "http://node";
  rpc_ws_url = "ws://node";
  token_list_path = "configs/tokens_list.json";
  snapshot_interval = b'6' ∷ b'0' ∷ [];
  max_watched_tokens_limit = b'9' ∷ [];
  allow_private_token_lists = false;
}

abbrev parse_ip : String → Option IpAddr
parse_ip host = none

abbrev lookup_host : String → Result String (List (IpAddr × ℕ))
lookup_host host = err "no such host"

abbrev connect : String → Result String (Unit {0})
connect url = ok tt

abbrev bind : String → Result String ℕ
bind address = ok 8080

abbrev handle : ServerHandle Log
handle = record {
  app_state = record {
    session_manager =
        spawn_session_manager parse_ip lookup_host "balances-watcher"
          (session_config (from_args args)) args.rpc_ws_url;
    network = gnosis;
  };
  local_addr = 8080;
}

started : main parse_ip lookup_host "balances-watcher" connect bind args ≡ ok handle
unfolding main spawn_server build from_args
started = refl

-- The second head is two blocks ahead of the first one.
abbrev heads : List Message
heads = head 102 [] 102 ∷ []

abbrev after : Dispatcher Log
after = record {
  is_active = true;
  latest_processed_block = 102;
  erc20_logs = payment ∷ [];
  weth9_logs = [];
  backfilled_blocks_total = 1;
  blocks_processed_total = 3;
  missed_block_logs_total = 0;
  lag_blocks = 0;
}

ran :
    let s = handle.app_state.session_manager.event_dispatcher in
    run (single transfers) (single no_logs) s.config (head 100 [] 100 ∷ heads) s.dispatcher
    ≡ some after
unfolding run run_loop plan_fetch drain_queued_heads chunk_ranges fetch_from chunk_end
    fetch_erc20_and_process fetch_range_with_bisect bisect_loop midpoint fetch_weth9_and_process
    handle_batch spawn_session_manager spawn_dispatcher config_for backfill_chunk_blocks
    max_block_lag session_config from_args
ran = refl

heads-IsBounded : All (IsBounded (config_for gnosis)) (head 100 [] 100 ∷ heads)
unfolding drain_queued_heads config_for backfill_chunk_blocks
heads-IsBounded = (omega arith, (omega arith, tt))

some_block : newest_of 100 [] ≢ 0
unfolding drain_queued_heads
some_block = λ e. absurd (omega (arith, e))

heads-IsWithinCap : IsWithinCap (config_for gnosis) (newest_of 100 []) heads
unfolding drain_queued_heads config_for max_block_lag
heads-IsWithinCap = (omega arith, tt)

behind : newest_of 100 [] ≤ 102
unfolding drain_queued_heads
behind = omega arith

-- The receiver of the payment is a wallet with one session.
abbrev wallet : Session
wallet = record { owner = 7; network = gnosis; client_id = 1 }

abbrev entry : SubWithCounter
entry = record { clients = 1; subscription = 0; idle_since = none }

abbrev registry : Manager
registry = record empty {
  subscriptions = (wallet, entry) ∷ [];
  heap = (0, new (3 ∷ [])) ∷ [];
  fresh = 1;
}

abbrev heaps : Heaps
heaps check = registry.heap

abbrev nobody_gone : ℕ → Bool
nobody_gone queue = false

abbrev payer_event : Erc20TransferEvent
payer_event = record { owner = 5; token = 3; block = some 102 }

abbrev payee_event : Erc20TransferEvent
payee_event = record { owner = 7; token = 3; block = some 102 }

abbrev messages : List ListenerMessage
messages =
    transfer registry heaps nobody_gone payer_event
    ∷ transfer registry heaps nobody_gone payee_event
    ∷ []

abbrev word_address : ℕ → ℕ
word_address word = word

abbrev outbox : Outbox
outbox = record { sent = []; erc20_event_received_total = 0; weth9_events_received_total = 0 }

arrives :
    (e : Erc20TransferEvent)
    → Memᴰ e (on_erc20_logs word_address after.erc20_logs outbox).sent
    → Memᴰ e (events_of messages)
unfolding on_erc20_logs
arrives e m = m

wallet_watches : IsWatching registry heaps nobody_gone payee_event entry
unfolding watches new is_watched_token lookup empty contains
wallet_watches = (wallet, Memᴰ.head refl, refl, (λ i. refl), refl)

watched : All (IsWatched payee_event entry) messages
watched = ((λ same. absurd (other same)), ((λ same. wallet_watches), tt))
  where
    other : payer_event ≡ payee_event → ⊥
    other same = omega (arith, ap (λ (e : Erc20TransferEvent). e.owner) same)

abbrev batches : List (List FetchRequest)
batches = ((3, some 102) ∷ []) ∷ []

taken : concat batches ≡ listen messages (λ k. []) 0
unfolding listen enqueue_all enqueue_into enqueue owned_queues_watching candidates keep_watching
    watches new is_watched_token lookup empty contains
taken = refl

-- The node has a balance of 30 at block 102.
abbrev multicall : ℕ → ℕ → List ℕ → BlockId → Result Bool BalancesWithBlock
multicall round owner tokens block_id = ok ((3, 30) ∷ [], 102)

abbrev no_answer : ℕ → Option ℕ
no_answer sent = none

abbrev to_string : ℕ → String
to_string amount = if nat_beq amount 30 then "30" else "more"

node-Answers : Answers no_answer to_string multicall 3 102
unfolding lookup
node-Answers round owner tokens block_id balances n m current read = (
  30,
  ap (λ u. lookup 3 u.0) (same read),
  omega (arith, ap (λ (u : BalancesWithBlock). u.1) (same read)),
)
  where
    same :
        ◌≡◌ {A = Result Bool BalancesWithBlock} (ok ((3, 30) ∷ [], 102)) (ok (balances, n))
        → ◌≡◌ {A = BalancesWithBlock} (balances, n) ((3, 30) ∷ [], 102)
    same e = cc

all-IsOk : All IsOk (work multicall (λ i. true) 7 batches)
unfolding work
all-IsOk = (tt, tt)

fresh_client : UpToDate no_answer to_string [] (new (3 ∷ []))
unfolding new lookup
fresh_client t b h = cc

main-Shows_example : Shows to_string 3 102 [] (
    receive_loop no_answer to_string
      (messages_of (work multicall (λ i. true) 7 batches))
      (new (3 ∷ [])))
main-Shows_example =
    main-Shows multicall no_answer to_string transfers no_logs (single transfers) (single no_logs)
      (single-IsFaithful transfers) (single-IsFaithful no_logs) word_address parse_ip lookup_host
      "balances-watcher" connect bind (λ i. true) (λ i. refl) args handle started 100 [] 100 heads
      after heads-IsBounded some_block heads-IsWithinCap ran 102 payment behind (omega arith)
      never_failed (Memᴰ.head refl) payee_event (1, 5, 7, refl, Memᴰ.tail (Memᴰ.head refl)) refl
      outbox messages (tt, (tt, tt)) arrives entry watched batches taken node-Answers all-IsOk []
      (new (3 ∷ [])) fresh_client
