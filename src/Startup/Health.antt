-- ===== src/Startup/Health.antt =====
-- What `/health` answers from the start of a service on.
use balances_watcher.Base.{
  ℕ, ◌+◌, ◌<◌, ◌≡◌, refl, ap, ◌∙◌, true, List, [], ◌∷◌, Option, some, String, Result, ok, arith,
  nat_eq, inr,
}
use balances_watcher.Base.Word.{u64_modulus}
use balances_watcher.Config.{Args, from_args}
use balances_watcher.UrlGuard.Ip.{IpAddr}
use balances_watcher.Domain.Network.{EvmNetwork, backfill_chunk_blocks}
use balances_watcher.BlockWatcher
use balances_watcher.BlockWatcher.{TrySend, record_connected, spawn_watcher, try_send}
use balances_watcher.Dispatcher.Run
use balances_watcher.Dispatcher.Plan.{drain_queued_heads}
use balances_watcher.Dispatcher.Run.{Dispatcher, Config, head, run_loop, run}
use balances_watcher.Dispatcher.Run.Lag.{health_status_iff}
use balances_watcher.Dispatcher.Run.Heads.{on_head_first}
use balances_watcher.Dispatcher.Spawn.{spawn_dispatcher, config_for, config_for-IsSound}
use balances_watcher.Health.{health_handler, app_is_healthy, is_healthy, healthy}
use balances_watcher.Startup.{
  SessionManager, ServerHandle, main, main-started, session_config, spawn_session_manager,
  app_health_status,
}

spawned_unhealthy {ℓ} :
    {Log : Type ℓ} (m : SessionManager Log)
    → m.block_watcher ≡ spawn_watcher
    → health_handler (app_health_status m) ≡ 503
unfolding health_handler app_health_status BlockWatcher.health_status spawn_watcher
spawned_unhealthy m fresh = rw fresh refl

try_send_keeps :
    (answer : TrySend) (n : ℕ) (w : BlockWatcher.BlockWatcher)
    → ((record_connected answer n w).connected ≡ true)
      × ((record_connected answer n w).latest_block ≡ n)
unfolding record_connected try_send
try_send_keeps BlockWatcher.taken n w = (refl, refl)
try_send_keeps BlockWatcher.full n w = (refl, refl)
try_send_keeps BlockWatcher.receiver_dropped n w = (refl, refl)

both_healthy {ℓ} :
    {Log : Type ℓ} (m : SessionManager Log)
    → m.block_watcher.connected ≡ true
    → Run.health_status m.event_dispatcher.config m.block_watcher.latest_block
        m.event_dispatcher.dispatcher
      ≡ healthy
    → health_handler (app_health_status m) ≡ 200
unfolding health_handler app_health_status BlockWatcher.health_status app_is_healthy is_healthy
both_healthy m connected in_time = rw (connected, in_time) refl

module _ {ℓ κ} {Log : Type ℓ} {Error : Type κ}
    (fetch_transfer fetch_weth9 : ℕ → ℕ → ℕ → Result Error (List Log)) where
  -- The first cycle of a spawned dispatcher, for a single head.
  first_cycle :
      (network : EvmNetwork) (n : ℕ)
      → n + backfill_chunk_blocks network < u64_modulus
      → (d' : Dispatcher Log) × (run fetch_transfer fetch_weth9
            (config_for network)
            (head n [] n ∷ [])
            (spawn_dispatcher network).dispatcher
          ≡ some d')
        × (d'.is_active ≡ true)
        × (d'.latest_processed_block ≡ n)
  unfolding run run_loop spawn_dispatcher drain_queued_heads config_for
  first_cycle network n room =
      let (d', e, active, cursor, rest) =
        on_head_first fetch_transfer fetch_weth9 (config_for network) (config_for-IsSound network) n
          [] n (record ((spawn_dispatcher network).dispatcher) { is_active = true }) room refl in
      (d', rw e refl, active, cursor)

  module _ (parse_ip : String → Option IpAddr)
      (lookup_host : String → Result String (List (IpAddr × ℕ))) (user_agent : String)
      (connect : String → Result String (Unit {0})) (bind : String → Result String ℕ) where
    -- A service that `main` has started answers 503 at first. Once the block watcher has recorded a
    -- header that leaves room in 64 bits, whatever the block channel says, and the dispatcher has
    -- processed this head, it answers 200.
    pub main-healthy :
        (args : Args) (handle : ServerHandle Log)
        → main parse_ip lookup_host user_agent connect bind args ≡ ok handle
        → (n : ℕ) (answer : TrySend) → n + backfill_chunk_blocks args.network < u64_modulus
        → let m = handle.app_state.session_manager in
          let s = m.event_dispatcher in
          (health_handler (app_health_status m) ≡ 503)
          × ((d' : Dispatcher Log) × (run fetch_transfer fetch_weth9 s.config
                  (head n [] n ∷ [])
                  s.dispatcher
                ≡ some d')
              × (health_handler (
                    app_health_status (record m {
                      block_watcher = record_connected answer n m.block_watcher;
                      event_dispatcher = record s { dispatcher = d' };
                    }))
                  ≡ 200))
    unfolding spawn_session_manager session_config from_args spawn_dispatcher
    main-healthy args handle started n answer room =
        let m = handle.app_state.session_manager in
        let same = main-started parse_ip lookup_host user_agent connect bind args handle started in
        let dispatcher : m.event_dispatcher ≡ spawn_dispatcher args.network =
          ap (λ x. x.event_dispatcher) same in
        let (d', ran, active, cursor) = first_cycle args.network n room in
        let (connected, latest) = try_send_keeps answer n m.block_watcher in
        (
          spawned_unhealthy m (ap (λ x. x.block_watcher) same),
          (
            d',
            ap (λ s. run fetch_transfer fetch_weth9 s.config (head n [] n ∷ []) s.dispatcher)
                  dispatcher
                ∙ ran,
            both_healthy _ connected (
                (health_status_iff m.event_dispatcher.config _ d').1
                  (active, inr (inr (omega (arith, latest, cursor))))),
          ),
        )
