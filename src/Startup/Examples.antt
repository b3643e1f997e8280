-- ===== src/Startup/Examples.antt =====
-- The theorems on a started service, applied to one on Gnosis.
use balances_watcher.Base.{
  ◌≤◌, true, Memᴰ, ℕ, ◌+◌, ◌<◌, ◌^◌, ◌≡◌, ◌≢◌, refl, false, List, [], ◌∷◌, Option, none, some,
  String, Result, ok, All, arith,
}
use balances_watcher.Config.{Args, from_args}
use balances_watcher.Domain.Network.{gnosis, backfill_chunk_blocks, max_block_lag}
use balances_watcher.UrlGuard.Ip.{IpAddr, v4, is_public_ip}
use balances_watcher.BlockWatcher.{taken, record_connected}
use balances_watcher.Dispatcher.Plan.{drain_queued_heads}
use balances_watcher.Dispatcher.Bisect.Single.{single, single-IsFaithful}
use balances_watcher.Dispatcher.Run.{Dispatcher, Message, head, closed, run}
use balances_watcher.Dispatcher.Run.Heads.{newest_of, IsBounded}
use balances_watcher.Dispatcher.Run.Delivery.Loop.{IsWithinCap}
use balances_watcher.Dispatcher.Spawn.{config_for}
use balances_watcher.Health.{health_handler}
use balances_watcher.TokenListFetcher.Client.{new_fetcher, build_client}
use balances_watcher.UrlGuard.{max_redirect_hops, redirect_policy, resolve}
use balances_watcher.UrlGuard.Requests.{IsAllowedHost}
use balances_watcher.Startup.{
  ServerHandle, main, spawn_server, build, session_config, spawn_session_manager, app_health_status,
}
use balances_watcher.Startup.Delivery.{DeliversAll, main-DeliversAll}
use balances_watcher.Startup.Guard.{main-allowed}
use balances_watcher.Startup.Health.{main-healthy}

abbrev args : Args
args = record {
  bind = "127.0.0.1:8080";
  network = gnosis;
  rpc_http_url = "http://node";
  rpc_ws_url = "ws://node";
  token_list_path = "configs/tokens_list.json";
  snapshot_interval = b'6' ∷ b'0' ∷ [];
  max_watched_tokens_limit = b'9' ∷ [];
  allow_private_token_lists = false;
}

abbrev parse_ip : String → Option IpAddr
parse_ip host = none

abbrev lookup_host : String → Result String (List (IpAddr × ℕ))
lookup_host host = ok (
    (v4 (record { a = 169; b = 254; c = 169; d = 254 }), 0)
    ∷ (v4 (record { a = 8; b = 8; c = 8; d = 8 }), 0)
    ∷ [])

abbrev connect : String → Result String (Unit {0})
connect url = ok tt

abbrev bind : String → Result String ℕ
bind address = ok 8080

abbrev handle : ServerHandle ℕ
handle = record {
  app_state = record {
    session_manager =
        spawn_session_manager parse_ip lookup_host "balances-watcher"
          (session_config (from_args args)) args.rpc_ws_url;
    network = gnosis;
  };
  local_addr = 8080;
}

started : main parse_ip lookup_host "balances-watcher" connect bind args ≡ ok handle
unfolding main spawn_server build from_args
started = refl

-- Each block has one log, its number.
abbrev block_logs : ℕ → List ℕ
block_logs block = block ∷ []

abbrev messages : List Message
messages = head 104 [] 104 ∷ closed ∷ []

messages-IsBounded : All (IsBounded (config_for gnosis)) (head 100 (101 ∷ []) 101 ∷ messages)
unfolding drain_queued_heads config_for backfill_chunk_blocks
messages-IsBounded = (omega arith, (omega arith, (tt, tt)))

some_block : newest_of 100 (101 ∷ []) ≢ 0
unfolding drain_queued_heads
some_block = λ e. absurd (omega (arith, e))

messages-IsWithinCap : IsWithinCap (config_for gnosis) (newest_of 100 (101 ∷ [])) messages
unfolding drain_queued_heads config_for max_block_lag
messages-IsWithinCap = (omega arith, tt)

main-DeliversAll_example :
    DeliversAll block_logs block_logs
      (single block_logs)
      (single block_logs)
      100
      (101 ∷ [])
      101
      messages
      handle.app_state.session_manager.event_dispatcher
main-DeliversAll_example =
    main-DeliversAll block_logs block_logs (single block_logs) (single block_logs)
      (single-IsFaithful block_logs) (single-IsFaithful block_logs) parse_ip lookup_host
      "balances-watcher" connect bind args handle started 100 (101 ∷ []) 101 messages
      messages-IsBounded some_block messages-IsWithinCap

abbrev public_addr : IpAddr × ℕ
public_addr = (v4 (record { a = 8; b = 8; c = 8; d = 8 }), 0)

redirect_followed :
    handle.app_state.session_manager.fetcher.client.redirect 1 (some "ipfs.io") ≡ ok tt
unfolding spawn_session_manager new_fetcher build_client redirect_policy session_config from_args
redirect_followed = refl

host_resolved :
    handle.app_state.session_manager.fetcher.client.resolver "ipfs.io" ≡ ok (public_addr ∷ [])
unfolding spawn_session_manager new_fetcher build_client resolve is_public_ip session_config
    from_args
host_resolved = refl

main-allowed_example :
    (1 ≤ max_redirect_hops) × IsAllowedHost parse_ip "ipfs.io" × (is_public_ip public_addr.0 ≡ true)
main-allowed_example =
    main-allowed parse_ip lookup_host "balances-watcher" connect bind args handle 1 (some "ipfs.io")
      "ipfs.io" (public_addr ∷ []) public_addr started refl redirect_followed refl host_resolved
      (Memᴰ.head refl)

room : 101 + backfill_chunk_blocks gnosis < 2 ^ 64
unfolding backfill_chunk_blocks
room = omega arith

main-healthy_example :
    let m = handle.app_state.session_manager in
    let s = m.event_dispatcher in
    (health_handler (app_health_status m) ≡ 503)
    × ((d' : Dispatcher ℕ) × (run
            (single block_logs)
            (single block_logs)
            s.config
            (head 101 [] 101 ∷ [])
            s.dispatcher
          ≡ some d')
        × (health_handler (
              app_health_status (record m {
                block_watcher = record_connected taken 101 m.block_watcher;
                event_dispatcher = record s { dispatcher = d' };
              }))
            ≡ 200))
main-healthy_example =
    main-healthy (single block_logs) (single block_logs) parse_ip lookup_host "balances-watcher"
      connect bind args handle started 101 taken room
