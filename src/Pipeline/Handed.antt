-- ===== src/Pipeline/Handed.antt =====
-- Which logs a run of the dispatcher hands to the handler of transfers.
use balances_watcher.Base.{
  some-injective, ℕ, ◌≤◌, ◌≡◌, ◌≢◌, sym, ap, ◌∙◌, List, ◌∷◌, Option, some, Result, arith, All, Memᴰ,
  mem_right, String, ok,
}
use balances_watcher.Config.{Args}
use balances_watcher.UrlGuard.Ip.{IpAddr}
use balances_watcher.Dispatcher.Bisect.Blocks.{IsFaithful, HasFailed}
use balances_watcher.Dispatcher.Run.{Dispatcher, Message, head, run}
use balances_watcher.Dispatcher.Run.Heads.{newest_of, IsBounded}
use balances_watcher.Dispatcher.Run.Delivery.Loop.{IsWithinCap}
use balances_watcher.Dispatcher.Spawn.{config_for}
use balances_watcher.Startup.{ServerHandle, main}
use balances_watcher.Startup.Delivery.{main-DeliversAll}
use balances_watcher.Pipeline.Emission.{Keeps-mem}

module _ {ℓ κ} {Log : Type ℓ} {Error : Type κ} (transfer_logs weth9_logs : ℕ → List Log)
    (fetch_transfer fetch_weth9 : ℕ → ℕ → ℕ → Result Error (List Log))
    (faithful : IsFaithful transfer_logs fetch_transfer)
    (faithful' : IsFaithful weth9_logs fetch_weth9) where
  -- In a service that `main` has started, every log of a block from the newest head of the first cycle
  -- to the last cursor is handed over, unless the block is lost.
  pub main-hands_over :
      (parse_ip : String → Option IpAddr) (lookup_host : String → Result String (List (IpAddr × ℕ)))
      (user_agent : String) (connect : String → Result String (Unit {0}))
      (bind : String → Result String ℕ) (args : Args) (handle : ServerHandle Log)
      → main parse_ip lookup_host user_agent connect bind args ≡ ok handle
      → (block : ℕ) (rx : List ℕ) (latest_head : ℕ) (ms : List Message) (d' : Dispatcher Log)
      → All (IsBounded (config_for args.network)) (head block rx latest_head ∷ ms)
      → newest_of block rx ≢ 0
      → IsWithinCap (config_for args.network) (newest_of block rx) ms
      → let s = handle.app_state.session_manager.event_dispatcher in
        run fetch_transfer fetch_weth9 s.config (head block rx latest_head ∷ ms) s.dispatcher
          ≡ some d'
        → (n : ℕ) (log : Log) → newest_of block rx ≤ n
        → n ≤ d'.latest_processed_block
        → ¬ HasFailed transfer_logs fetch_transfer n
        → Memᴰ log (transfer_logs n)
        → Memᴰ log d'.erc20_logs
  main-hands_over parse_ip lookup_host user_agent connect bind args handle started block rx
        latest_head ms d' b some_block cap ran n log behind upto fine m =
      let (d₁, ran₁, up, all) =
        main-DeliversAll transfer_logs weth9_logs fetch_transfer fetch_weth9 faithful faithful'
          parse_ip lookup_host user_agent connect bind args handle started block rx latest_head ms b
          some_block cap in
      let same : d₁ ≡ d' = some-injective (sym ran₁ ∙ ran) in
      let last : d₁.latest_processed_block ≡ d'.latest_processed_block =
        ap (λ x. x.latest_processed_block) same in
      let kept =
        Keeps-mem transfer_logs fetch_transfer n log fine m behind (omega (arith, last, up))
          all.erc20_kept in
      rw (← same, all.erc20_sent) (mem_right _ all.erc20 kept)
