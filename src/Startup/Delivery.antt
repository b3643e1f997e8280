-- ===== src/Startup/Delivery.antt =====
-- What the dispatcher of a started service hands over.
use balances_watcher.Base.{
  true, ℕ, ◌+◌, ◌-◌, ◌≤◌, ◌≡◌, ◌≢◌, refl, sym, ap, List, ◌∷◌, Option, some, String, Result, ok, All,
}
use mathlib.Core.Path.{subst}
use balances_watcher.Config.{Args, from_args}
use balances_watcher.UrlGuard.Ip.{IpAddr}
use balances_watcher.Dispatcher.Bisect.Blocks.{IsFaithful}
use balances_watcher.Dispatcher.Run.{Dispatcher, Message, head, run}
use balances_watcher.Dispatcher.Run.Heads.{newest_of, IsBounded}
use balances_watcher.Dispatcher.Run.Delivery.{Delivered, Delivered-from}
use balances_watcher.Dispatcher.Run.Delivery.Loop.{IsWithinCap}
use balances_watcher.Dispatcher.Run.Delivery.Start.{run_loop_first-Delivered}
use balances_watcher.Domain.Network.{EvmNetwork}
use balances_watcher.Dispatcher.Spawn.{Spawned, spawn_dispatcher, config_for, config_for-IsSound}
use balances_watcher.Startup.{
  ServerHandle, main, main-started, session_config, spawn_session_manager,
}

module _ {ℓ κ} {Log : Type ℓ} {Error : Type κ} (transfer_logs weth9_logs : ℕ → List Log)
    (fetch_transfer fetch_weth9 : ℕ → ℕ → ℕ → Result Error (List Log)) where
  -- The dispatcher's run over a first head and the messages behind it ends, and it has handed over
  -- the logs of the blocks from the newest of the heads that the first cycle takes up to the last
  -- cursor, in block order and each block once, or counted the block as missed.
  abbrev pub DeliversAll : ℕ → List ℕ → ℕ → List Message → Spawned Log → Type (ℓ ⊔ κ)
  DeliversAll block rx latest_head ms s =
      (d' : Dispatcher Log) × (run fetch_transfer fetch_weth9 s.config
          (head block rx latest_head ∷ ms) s.dispatcher
        ≡ some d')
      × (newest_of block rx ≤ d'.latest_processed_block)
      × Delivered transfer_logs weth9_logs fetch_transfer fetch_weth9 (newest_of block rx)
          (d'.latest_processed_block + 1 - newest_of block rx) s.dispatcher d'

module _ {ℓ κ} {Log : Type ℓ} {Error : Type κ} (transfer_logs weth9_logs : ℕ → List Log)
    (fetch_transfer fetch_weth9 : ℕ → ℕ → ℕ → Result Error (List Log))
    (faithful : IsFaithful transfer_logs fetch_transfer)
    (faithful' : IsFaithful weth9_logs fetch_weth9) where
  spawn_dispatcher-DeliversAll :
      (network : EvmNetwork) (block : ℕ) (rx : List ℕ) (latest_head : ℕ) (ms : List Message)
      → All (IsBounded (config_for network)) (head block rx latest_head ∷ ms)
      → newest_of block rx ≢ 0
      → IsWithinCap (config_for network) (newest_of block rx) ms
      → DeliversAll transfer_logs weth9_logs fetch_transfer fetch_weth9 block rx latest_head ms
          (spawn_dispatcher network)
  unfolding run spawn_dispatcher
  spawn_dispatcher-DeliversAll network block rx latest_head ms b some_block cap =
      let (d', e, up, all) =
        run_loop_first-Delivered transfer_logs weth9_logs fetch_transfer fetch_weth9 faithful
          faithful' (config_for network) (config_for-IsSound network) block rx latest_head ms
          (record ((spawn_dispatcher network).dispatcher) { is_active = true }) b refl some_block
          cap in
      (d', e, up, Delivered-from all refl refl refl)

  module _ (parse_ip : String → Option IpAddr)
      (lookup_host : String → Result String (List (IpAddr × ℕ))) (user_agent : String)
      (connect : String → Result String (Unit {0})) (bind : String → Result String ℕ) where
    -- Take a service that `main` has started from its arguments, heads that leave room in 64 bits,
    -- of which the first cycle takes one that is not 0 and none is further ahead than the network's
    -- cap, and a provider that answers a range only with all of its logs. Then the dispatcher's run
    -- ends, and from the newest head of its first cycle to its last cursor it has handed over the
    -- logs of each block once and in block order, or else it has counted the block as missed, and
    -- then a fetch of this block alone has failed.
    pub main-DeliversAll :
        (args : Args) (handle : ServerHandle Log)
        → main parse_ip lookup_host user_agent connect bind args ≡ ok handle
        → (block : ℕ) (rx : List ℕ) (latest_head : ℕ) (ms : List Message)
        → All (IsBounded (config_for args.network)) (head block rx latest_head ∷ ms)
        → newest_of block rx ≢ 0
        → IsWithinCap (config_for args.network) (newest_of block rx) ms
        → DeliversAll transfer_logs weth9_logs fetch_transfer fetch_weth9 block rx latest_head ms
            handle.app_state.session_manager.event_dispatcher
    unfolding spawn_session_manager session_config from_args
    main-DeliversAll args handle started block rx latest_head ms b some_block cap =
        subst
          (DeliversAll transfer_logs weth9_logs fetch_transfer fetch_weth9 block rx latest_head ms)
          (sym (
            ap (λ m. m.event_dispatcher)
              (main-started parse_ip lookup_host user_agent connect bind args handle started)))
          (spawn_dispatcher-DeliversAll args.network block rx latest_head ms b some_block cap)
