-- ===== src/Dispatcher/Run/Delivery/Start.antt =====
-- A run of the dispatcher from its start, where the cursor has not been set.
use balances_watcher.Base.{
  ℕ, ◌+◌, ◌-◌, ◌≤◌, ◌<◌, ◌≡◌, ◌≢◌, refl, sym, ap, ◌∙◌, List, [], ◌∷◌, some, arith, Result, All,
  some-injective,
}
use balances_watcher.Base.Word.{u64_modulus}
use balances_watcher.Dispatcher.Plan.{FetchPlan, plan_fetch}
use balances_watcher.Dispatcher.Plan.Tiling.{plan_fetch_first}
use balances_watcher.Dispatcher.Bisect.Blocks.{IsFaithful}
use balances_watcher.Dispatcher.Run.{Dispatcher, Config, Message, head, on_head, run_loop}
use balances_watcher.Dispatcher.Run.Heads.{newest_of, IsSound, IsBounded, on_head_first}
use balances_watcher.Dispatcher.Run.Delivery.{Delivered, Delivered-append, Delivered-range}
use balances_watcher.Dispatcher.Run.Delivery.Cycle.{execute-Delivered, on_head-planned}
use balances_watcher.Dispatcher.Run.Delivery.Loop.{IsWithinCap, run_loop-Delivered}

module _ {ℓ κ} {Log : Type ℓ} {Error : Type κ} (transfer_logs weth9_logs : ℕ → List Log)
    (fetch_transfer fetch_weth9 : ℕ → ℕ → ℕ → Result Error (List Log))
    (faithful : IsFaithful transfer_logs fetch_transfer)
    (faithful' : IsFaithful weth9_logs fetch_weth9) where
  -- The first cycle hands over the logs of the newest head alone.
  on_head_first-Delivered :
      (c : Config) (sound : IsSound c) (block : ℕ) (rx : List ℕ) (latest_head : ℕ)
      (d : Dispatcher Log)
      → newest_of block rx + c.backfill_chunk_blocks < u64_modulus
      → d.latest_processed_block ≡ 0
      → (d' : Dispatcher Log) × (on_head fetch_transfer fetch_weth9 c block rx latest_head d
          ≡ some d')
        × (d'.latest_processed_block ≡ newest_of block rx)
        × Delivered transfer_logs weth9_logs fetch_transfer fetch_weth9 (newest_of block rx) 1 d d'
  on_head_first-Delivered c sound block rx latest_head d b fresh =
      let newest = newest_of block rx in
      let only : FetchPlan = record { skipped_blocks = 0; ranges = (newest, newest) ∷ [] } in
      let planned : plan_fetch d.latest_processed_block newest c.max_block_lag
            c.backfill_chunk_blocks
          ≡ some only =
        rw fresh
          (plan_fetch_first newest c.max_block_lag c.backfill_chunk_blocks sound.some_chunk b) in
      let (d', e, all) =
        execute-Delivered transfer_logs weth9_logs fetch_transfer fetch_weth9 faithful faithful'
          c.backfill_chunk_blocks newest newest latest_head only d
          (refl, omega arith, omega arith, omega (arith, sound.some_chunk), refl) (omega arith) in
      let ran =
        on_head-planned transfer_logs weth9_logs fetch_transfer fetch_weth9 faithful faithful' c
          block rx latest_head d d' planned e in
      let r = on_head_first fetch_transfer fetch_weth9 c sound block rx latest_head d b fresh in
      (
        d',
        ran,
        ap (λ x. x.latest_processed_block) (some-injective (sym ran ∙ r.1)) ∙ r.3,
        Delivered-range refl (omega arith) all,
      )

  -- A run whose cursor has not been set, from its first head on: as `run_loop-Delivered`, from the
  -- newest of the heads that the first cycle takes.
  pub run_loop_first-Delivered :
      (c : Config) (sound : IsSound c) (block : ℕ) (rx : List ℕ) (latest_head : ℕ)
      (ms : List Message) (d : Dispatcher Log)
      → All (IsBounded c) (head block rx latest_head ∷ ms)
      → d.latest_processed_block ≡ 0
      → newest_of block rx ≢ 0
      → IsWithinCap c (newest_of block rx) ms
      → (d' : Dispatcher Log) × (run_loop fetch_transfer fetch_weth9 c
            (head block rx latest_head ∷ ms)
            d
          ≡ some d')
        × (newest_of block rx ≤ d'.latest_processed_block)
        × Delivered transfer_logs weth9_logs fetch_transfer fetch_weth9
            (newest_of block rx)
            (d'.latest_processed_block + 1 - newest_of block rx)
            d
            d'
  unfolding run_loop
  run_loop_first-Delivered c sound block rx latest_head ms d b fresh some_block cap =
      let (d₁, e₁, cursor, first) =
        on_head_first-Delivered c sound block rx latest_head d b.0 fresh in
      let (d', e', up, later) =
        run_loop-Delivered transfer_logs weth9_logs fetch_transfer fetch_weth9 faithful faithful' c
          sound ms d₁ b.1 (λ zero_cursor. some_block (sym cursor ∙ zero_cursor)) (rw cursor cap) in
      let behind : Delivered transfer_logs weth9_logs fetch_transfer fetch_weth9
          (newest_of block rx + 1) (d'.latest_processed_block - newest_of block rx) d₁ d' =
        Delivered-range (omega (arith, cursor)) (omega (arith, cursor)) later in
      (
        d',
        rw e₁ e',
        omega (arith, up, cursor),
        Delivered-range refl (omega (arith, up, cursor))
            (Delivered-append (newest_of block rx) (newest_of block rx + 1) 1 refl first behind),
      )
