-- ===== src/Startup.antt =====
-- How the parts are put together: `main` of src/main.rs, `spawn_server` of src/lib.rs,
-- `AppState::build` of src/app_state.rs, and `SessionManager::spawn` and `health_status` of
-- src/services/session_manager.rs. The connection of the HTTP provider, which is answered by the
-- node, and the binding of the socket are parameters; the metrics recorder, whose installation may
-- fail before, is left out. Handles, channels and tasks are left out: what
-- the tasks do is modelled with the parts. A `Duration` is milliseconds.
pub mod Delivery
pub mod Guard
pub mod Health
mod Examples
use balances_watcher.Base.{
  ℕ, ◌≡◌, ◌≢◌, sym, ap, Bool, List, Option, [], inl, inr, String, Result, ok, err, Result-cases,
}
use balances_watcher.Domain.Network.{EvmNetwork}
use balances_watcher.Config.{Args, NetworkConfig, from_args}
use balances_watcher.UrlGuard.Ip.{IpAddr}
use balances_watcher.BlockWatcher
use balances_watcher.BlockWatcher.{BlockWatcher, spawn_watcher}
use balances_watcher.Dispatcher.Run
use balances_watcher.Dispatcher.Spawn.{Spawned, spawn_dispatcher}
use balances_watcher.Health.{AppHealth}
use balances_watcher.TokenListFetcher.{get_token_list_fetcher_backoff}
use balances_watcher.TokenListFetcher.Client.{TokenListFetcher, new_fetcher}
use balances_watcher.SubscriptionManager.{empty}
use balances_watcher.SessionManager.{Server}

-- Five hours.
abbrev token_list_cache_ttl : ℕ
token_list_cache_ttl = 18000000

pub record SessionConfig : Type 0 where
  pub snapshot_interval : ℕ
  pub token_limit : ℕ
  pub active_network : EvmNetwork
  pub allow_private_token_lists : Bool

-- The `SessionConfig` that `build` writes.
unfoldable pub session_config : NetworkConfig → SessionConfig
session_config network_config = record {
  snapshot_interval = network_config.snapshot_interval;
  token_limit = network_config.max_watched_tokens_limit;
  active_network = network_config.network;
  allow_private_token_lists = network_config.allow_private_token_lists;
}

-- `server` is the registry with what `upsert` counts and spawns. The WebSocket connection is known
-- by its URL.
pub record SessionManager {ℓ} (Log : Type ℓ) : Type ℓ where
  pub server : Server
  pub event_dispatcher : Spawned Log
  pub block_watcher : BlockWatcher
  pub ws_url : String
  pub fetcher : TokenListFetcher
  pub config : SessionConfig

pub record AppState {ℓ} (Log : Type ℓ) : Type ℓ where
  pub session_manager : SessionManager Log
  pub network : EvmNetwork

pub record ServerHandle {ℓ} (Log : Type ℓ) : Type ℓ where
  pub app_state : AppState Log
  pub local_addr : ℕ

unfoldable pub app_health_status {ℓ} : {Log : Type ℓ} → SessionManager Log → AppHealth
unfolding BlockWatcher.health_status Run.health_status
app_health_status manager = record {
  block_watcher = BlockWatcher.health_status manager.block_watcher;
  event_dispatcher =
      Run.health_status manager.event_dispatcher.config manager.block_watcher.latest_block
        manager.event_dispatcher.dispatcher;
}

module _ {ℓ} {Log : Type ℓ} (parse_ip : String → Option IpAddr)
    (lookup_host : String → Result String (List (IpAddr × ℕ))) (user_agent : String) where
  unfoldable pub spawn_session_manager : SessionConfig → String → SessionManager Log
  unfolding new_fetcher get_token_list_fetcher_backoff spawn_dispatcher spawn_watcher empty
  spawn_session_manager config ws_url = record {
    server = record { manager = empty; tokens_limit_exceeded_total = 0; watchers = [] };
    event_dispatcher = spawn_dispatcher config.active_network;
    block_watcher = spawn_watcher;
    ws_url = ws_url;
    fetcher =
        new_fetcher parse_ip lookup_host user_agent token_list_cache_ttl
          get_token_list_fetcher_backoff config.active_network config.allow_private_token_lists;
    config = config;
  }

  module _ (connect : String → Result String (Unit {0})) where
    unfoldable pub build : NetworkConfig → String → Result String (AppState Log)
    unfolding session_config spawn_session_manager
    build network_config ws_url = elim (connect network_config.rpc_http_url) [
      | err e ↦ err e
      | ok connected ↦ ok (record {
        session_manager = spawn_session_manager (session_config network_config) ws_url;
        network = network_config.network;
      })
    ]

    module _ (bind : String → Result String ℕ) where
      -- The address is parsed and bound once the state is built.
      unfoldable pub spawn_server :
          String → NetworkConfig → String → Result String (ServerHandle Log)
      unfolding build
      spawn_server address network_cfg ws_url = elim (build network_cfg ws_url) [
        | err e ↦ err e
        | ok app_state ↦ elim (bind address) [
          | err e ↦ err e
          | ok local_addr ↦ ok (record { app_state = app_state; local_addr = local_addr })
        ]
      ]

      -- `main` up to the point where the server runs.
      unfoldable pub main : Args → Result String (ServerHandle Log)
      unfolding from_args spawn_server
      main cfg = spawn_server cfg.bind (from_args cfg) cfg.rpc_ws_url

      spawn_server-started :
          (address : String) (network_cfg : NetworkConfig) (ws_url : String)
          (handle : ServerHandle Log)
          → spawn_server address network_cfg ws_url ≡ ok handle
          → handle.app_state.session_manager
            ≡ spawn_session_manager (session_config network_cfg) ws_url
      unfolding spawn_server build
      spawn_server-started address network_cfg ws_url handle e =
          elim (Result-cases (connect network_cfg.rpc_http_url)) [
            | inl (failure, failed) ↦ absurd (refused (rw (failed, build, spawn_server) at e))
            | inr (connected, found) ↦ elim (Result-cases (bind address)) [
              | inl (failure, failed) ↦
                  absurd (refused (rw (found, failed, build, spawn_server) at e))
              | inr (local_addr, bound) ↦
                  ap (λ h. h.app_state.session_manager)
                    (sym (ok-injective (rw (found, bound, build, spawn_server) at e)))
            ]
          ]
        where
          refused : {f : String} → ◌≢◌ {A = Result String (ServerHandle Log)} (err f) (ok handle)
          refused h = cc

          ok-injective :
              {a : ServerHandle Log}
              → ◌≡◌ {A = Result String (ServerHandle Log)} (ok a) (ok handle)
              → a ≡ handle
          ok-injective h = cc

      -- Where `main` gets to a server, its session manager is spawned with the configuration that
      -- the arguments give.
      pub main-started :
          (args : Args) (handle : ServerHandle Log)
          → main args ≡ ok handle
          → handle.app_state.session_manager
            ≡ spawn_session_manager (session_config (from_args args)) args.rpc_ws_url
      unfolding main
      main-started args handle e =
          spawn_server-started args.bind (from_args args) args.rpc_ws_url handle e
