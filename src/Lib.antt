-- ===== src/Lib.antt =====
-- balances-watcher keeps the ERC-20 balances of wallets up to date and streams the changes to clients
-- over server-sent events. One instance serves one chain.
--
-- A block watcher (src/services/block_watcher.rs) reports heads. The event dispatcher
-- (src/services/event_dispatcher.rs) plans, for each head and its cursor, the ranges to fetch, fetches
-- the transfer and WETH9 logs of each range, bisecting a range that the provider refuses, and sends an
-- event for each owner that a log names.
-- The session manager (src/services/session_manager.rs) answers the requests of clients. The
-- subscription manager (src/services/subscription_manager.rs) keeps the sessions of each wallet
-- in a registry; an event for an owner goes to the refresh queues of the sessions that watch the
-- token. A refresh queue (src/services/balance_refresh_queue.rs) collects requests for a while,
-- coalesces them, and asks for the balances in one multicall. A subscription
-- (src/services/subscription.rs) merges the answer into its snapshot, under a guard on the block, and
-- broadcasts the difference; the two tasks of the snapshot updater (src/services/snapshot_updater.rs)
-- feed it, one from the refresh queue and one from a periodic read of every watched token.
--
-- Files:
--   Base          Boolean tests, lists, `Result`, hash maps and sets as lists, machine words.
--   Domain        src/domain: the networks and their tables (Network), sessions and events (Session).
--   Config        src/config/network_config.rs: `from_args`.
--   BlockWatcher  src/services/block_watcher.rs: heads, the stall check, and the two loops over what
--                 their rounds yield.
--   Dispatcher    src/services/event_dispatcher.rs: `plan_fetch` and `drain_queued_heads` (Plan),
--                 `fetch_range_with_bisect` (Bisect), the log handlers (Logs), and `run`, the two
--                 `fetch_…_and_process` methods and `health_status` (Run); what a run hands to the
--                 handlers is in Run/Delivery.
--   Health        src/services/health.rs and src/api/health.rs.
--   RefreshQueue  src/services/balance_refresh_queue.rs: `coalesce_by_token`, `resolve_block_id`,
--                 `process_batch`, `enqueue`, and the worker of `spawn` (`work`) over its batches.
--   Subscription  src/services/subscription.rs, each method under its own name.
--   SubscriptionManager  src/services/subscription_manager.rs; `upsert` is split where it releases the
--                 lock, into `decide` and `act`. SubscriptionManager/Interleaving has the steps that
--                 callers take under one lock each, in any order, and SubscriptionManager/Ticks the
--                 task of `spawn_cleanup`. What `upsert` answers and changes is described in
--                 Upsert/Effects. Numbers, Heap, Drops, Spared, Held and Leaks are about the
--                 numbers under which the subscriptions are kept and about which are cancelled.
--   SnapshotUpdater  src/services/snapshot_updater.rs: the queue receiver, one refresh of the
--                 snapshot, the loop that refreshes on ticks and signals (Interval), and the one
--                 that waits for the connection (Parked), over what their `select!`s yield.
--   SessionManager  src/services/session_manager.rs: `upsert` (`upsert_session`),
--                 `fetch_and_extend_tokens`, `broadcast_events_with_lag_close`, in Sse
--                 `create_sse_connection` with src/services/cleanup_stream.rs, and in Listener
--                 `spawn_erc20_transfer_listener` (`listen`).
--   RpcClient     src/services/rpc_client.rs: its methods under their own names, and in Errors the
--                 predicates on errors and the backoff.
--   TokenListFetcher  src/services/token_list_fetcher.rs, each method under its own name;
--                 `read_body_capped` in Body. The closure of `filter_map` is `filter_entry`.
--   UrlGuard      src/services/url_guard.rs: `validate_url`, `redirect_policy` and the resolver;
--                 the classes of addresses in Ip, and the reserved blocks in Blocks and Segments.
--   Api           src/app_error.rs, and the extractors and handlers of src/api; the handler of the
--                 stream in Sse, and src/api.rs in Router.
--   WsConnection  src/ws_connection/mod.rs.
--   Startup       The composition at the start: `main`, `spawn_server`, `AppState::build` and
--                 `SessionManager::spawn`; the states that they begin with are in Dispatcher/Spawn,
--                 `spawn_watcher` of BlockWatcher, and TokenListFetcher/Client.
--   Pipeline      The composition of these parts: from the run of the dispatcher that `main` starts
--                 (Handed), by its log handlers (Emission), the listener and the refresh queue
--                 (Transfer) and the queue receiver (Balance), to the client (Client, Service).
-- The files named Examples apply the theorems to concrete inputs.
--
-- An address, a `U256` and a `Uuid` are natural numbers. Block numbers are natural numbers on which
-- `+` and `-` wrap at 2 ^ 64. A `HashMap` is an association list and a `HashSet` a list; the theorems
-- on them speak of lookups and membership, since the order of iteration is not specified; only the
-- token limit counts the entries of a list, to which a value is added once. An `Arc<Subscription>`
-- is a number under which a heap holds the subscription.
--
-- Loops that are not over a list run on fuel and answer `none` where it runs out. `plan_fetch` has
-- `incoming + 2` rounds, and each of its rounds moves the start of the next range ahead.
-- `fetch_range_with_bisect` takes its fuel as an argument; the dispatcher gives it two rounds for each
-- block, and a traversal has fewer nodes than that.
--
-- Parameters: the provider, whose answer may differ from call to call, the decoding of a topic as an
-- address, the topics of the WETH9 events, and the text of a balance, which come from alloy and the
-- node; the retry loop of backon, under four laws that its documentation states; HTTP, JSON, and the
-- parsers of URLs, addresses and UUIDs; the connection of the HTTP provider, the binding of the
-- socket, and each attempt of a WebSocket connection. In the registry, what other tasks do while
-- `upsert` holds no lock is a parameter too, and so is what they do between the ticks of the cleanup
-- and between the two steps of a new connection.
--
-- Not modelled: the timers of the block watcher and of the snapshot updater, the tasks and channels
-- of tokio, the wait for the tasks at the end of `main`, the signal handlers, the parsing of the
-- command line, metrics registration, tracing and contract bindings: these are calls of libraries, or
-- generated.
pub mod Base
pub mod Domain
pub mod BlockWatcher
pub mod Config
pub mod Dispatcher
pub mod Health
pub mod RefreshQueue
pub mod Subscription
pub mod SubscriptionManager
pub mod SessionManager
pub mod SnapshotUpdater
pub mod RpcClient
pub mod TokenListFetcher
pub mod UrlGuard
pub mod Api
pub mod Pipeline
pub mod WsConnection
pub mod Startup
