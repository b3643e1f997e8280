-- ===== src/Dispatcher/Run/Delivery/Cycle.antt =====
-- One cycle of the dispatcher, and the logs that it hands over.
use balances_watcher.Base.{
  ℕ, ◌+◌, ◌-◌, ◌*◌, ◌≤◌, ◌<◌, ◌≡◌, ◌≢◌, refl, inl, inr, List, [], ◌∷◌, ◌++◌, some, arith, Result,
  Bool-cases, is_empty, true,
}
use balances_watcher.Base.Word.{u64_modulus}
use balances_watcher.Dispatcher.Plan.{FetchPlan, plan_fetch}
use balances_watcher.Dispatcher.Plan.Tiling.{Tiles, total_blocks, plan_fetch-Tiles}
use balances_watcher.Dispatcher.Bisect.Blocks.{IsFaithful, fetch_range_with_bisect-Keeps}
use balances_watcher.Dispatcher.Run.{
  Dispatcher, Config, fetch_erc20_and_process, fetch_weth9_and_process, process_ranges, execute,
  on_head,
}
use balances_watcher.Dispatcher.Run.Heads.{newest_of, IsSound}
use balances_watcher.Dispatcher.Run.Delivery.{
  Delivered, Delivered-none, Delivered-same, Delivered-next, Delivered-range,
}

Tiles-empty :
    (chunk from to : ℕ) (ranges : List (ℕ × ℕ))
    → is_empty ranges ≡ true
    → Tiles chunk from to ranges
    → to + 1 - from ≡ 0
Tiles-empty chunk from to [] e t = omega arith
Tiles-empty chunk from to (r ∷ ranges) e t = cc

module _ {ℓ κ} {Log : Type ℓ} {Error : Type κ} (transfer_logs weth9_logs : ℕ → List Log)
    (fetch_transfer fetch_weth9 : ℕ → ℕ → ℕ → Result Error (List Log))
    (faithful : IsFaithful transfer_logs fetch_transfer)
    (faithful' : IsFaithful weth9_logs fetch_weth9) where
  -- One range, fetched by both sources.
  fetch_both-Delivered :
      (lo hi : ℕ) (d : Dispatcher Log)
      → lo ≤ hi
      → hi < u64_modulus
      → (d₁ : Dispatcher Log) × (d₂ : Dispatcher Log) × (fetch_erc20_and_process fetch_transfer
            fetch_weth9 lo hi d
          ≡ some d₁)
        × (fetch_weth9_and_process fetch_transfer fetch_weth9 lo hi d₁ ≡ some d₂)
        × Delivered transfer_logs weth9_logs fetch_transfer fetch_weth9 lo (hi + 1 - lo) d d₂
  unfolding fetch_erc20_and_process fetch_weth9_and_process
  fetch_both-Delivered lo hi d h b =
      let (p, found, keeps, count) =
        fetch_range_with_bisect-Keeps transfer_logs fetch_transfer lo hi (2 * (hi + 1 - lo))
          faithful h b (omega arith) in
      let (q, found', keeps', count') =
        fetch_range_with_bisect-Keeps weth9_logs fetch_weth9 lo hi (2 * (hi + 1 - lo)) faithful' h b
          (omega arith) in
      let d₁ : Dispatcher Log = record d {
        erc20_logs = d.erc20_logs ++ p.handled;
        missed_block_logs_total = d.missed_block_logs_total + p.lost_blocks;
      } in
      let d₂ : Dispatcher Log = record d₁ {
        weth9_logs = d₁.weth9_logs ++ q.handled;
        missed_block_logs_total = d₁.missed_block_logs_total + q.lost_blocks;
      } in
      (
        d₁,
        d₂,
        rw found,
        rw found',
        record {
          erc20 = p.handled;
          weth9 = q.handled;
          lost_erc20 = p.lost_blocks;
          lost_weth9 = q.lost_blocks;
          erc20_kept = keeps;
          weth9_kept = keeps';
          erc20_sent = refl;
          weth9_sent = refl;
          missed = refl;
        },
      )

  process_ranges-Delivered :
      (chunk from to : ℕ) (ranges : List (ℕ × ℕ)) (d : Dispatcher Log)
      → Tiles chunk from to ranges
      → to < u64_modulus
      → (d' : Dispatcher Log) × (process_ranges fetch_transfer fetch_weth9 ranges d ≡ some d')
        × Delivered transfer_logs weth9_logs fetch_transfer fetch_weth9 from (to + 1 - from) d d'
  unfolding process_ranges
  process_ranges-Delivered chunk from to [] d t b =
      let none_left : to + 1 - from ≡ 0 = omega arith in
      (d, refl, rw none_left (Delivered-none from d))
  process_ranges-Delivered chunk from to ((lo, hi) ∷ ranges) d t b =
      let (d₁, d₂, e₁, e₂, first) = fetch_both-Delivered lo hi d (omega arith) (omega arith) in
      let next : Dispatcher Log = record d₂ {
        latest_processed_block = hi;
        blocks_processed_total = d₂.blocks_processed_total + (hi - lo + 1);
      } in
      let (d', e', later) = process_ranges-Delivered chunk (hi + 1) to ranges next t.4 b in
      (
        d',
        rw (e₁, e₂) e',
        Delivered-next from to lo hi t.0 (omega arith) (omega arith)
            (Delivered-same next refl refl refl first) later,
      )

  pub execute-Delivered :
      (chunk from newest latest_head : ℕ) (plan : FetchPlan) (d : Dispatcher Log)
      → Tiles chunk from newest plan.ranges
      → newest < u64_modulus
      → (d' : Dispatcher Log) × (execute fetch_transfer fetch_weth9 newest latest_head plan d
          ≡ some d')
        × Delivered transfer_logs weth9_logs fetch_transfer fetch_weth9 from
            (newest + 1 - from)
            d
            d'
  unfolding execute
  execute-Delivered chunk from newest latest_head plan d t b =
      elim (Bool-cases (is_empty plan.ranges)) [
        | inl empty ↦ (
          d,
          rw empty,
          rw (Tiles-empty chunk from newest plan.ranges empty t) (Delivered-none from d),
        )
        | inr filled ↦
            let start : Dispatcher Log = record d {
              backfilled_blocks_total = d.backfilled_blocks_total + (total_blocks plan.ranges - 1);
            } in
            let (d', e, all) = process_ranges-Delivered chunk from newest plan.ranges start t b in
            (
              record d' { lag_blocks = latest_head - newest },
              rw (filled, e),
              record {
                erc20 = all.erc20;
                weth9 = all.weth9;
                lost_erc20 = all.lost_erc20;
                lost_weth9 = all.lost_weth9;
                erc20_kept = all.erc20_kept;
                weth9_kept = all.weth9_kept;
                erc20_sent = all.erc20_sent;
                weth9_sent = all.weth9_sent;
                missed = all.missed;
              },
            )
      ]

  pub on_head-planned :
      (c : Config) (block : ℕ) (rx : List ℕ) (latest_head : ℕ) (d d' : Dispatcher Log)
      {plan : FetchPlan}
      → plan_fetch d.latest_processed_block
          (newest_of block rx)
          c.max_block_lag
          c.backfill_chunk_blocks
        ≡ some plan
      → execute fetch_transfer fetch_weth9 (newest_of block rx) latest_head plan d ≡ some d'
      → on_head fetch_transfer fetch_weth9 c block rx latest_head d ≡ some d'
  unfolding on_head
  on_head-planned c block rx latest_head d d' planned e = rw planned e

  -- For a head ahead of a cursor that has been set, and room in 64 bits, a cycle hands over the logs
  -- of the blocks from behind the cursor to the newest queued head, but for the oldest ones where
  -- these are more than the cap: in block order and each block once, or else it counts the block as
  -- missed, and then a fetch of this block alone has failed.
  pub on_head-Delivered :
      (c : Config) (sound : IsSound c) (block : ℕ) (rx : List ℕ) (latest_head : ℕ)
      (d : Dispatcher Log)
      → newest_of block rx + c.backfill_chunk_blocks < u64_modulus
      → d.latest_processed_block ≢ 0
      → d.latest_processed_block < newest_of block rx
      → let skipped = newest_of block rx - d.latest_processed_block - c.max_block_lag in
        (d' : Dispatcher Log) × (on_head fetch_transfer fetch_weth9 c block rx latest_head d
          ≡ some d')
        × Delivered transfer_logs weth9_logs fetch_transfer fetch_weth9
            (d.latest_processed_block + 1 + skipped)
            (newest_of block rx - d.latest_processed_block - skipped)
            d
            d'
  on_head-Delivered c sound block rx latest_head d b started ahead =
      let newest = newest_of block rx in
      let (plan, planned, skipped, tiles, total) =
        plan_fetch-Tiles d.latest_processed_block newest c.max_block_lag c.backfill_chunk_blocks
          sound.some_chunk sound.some_lag b started ahead in
      let (d', e, all) =
        execute-Delivered c.backfill_chunk_blocks
          (d.latest_processed_block + 1 + plan.skipped_blocks) newest latest_head plan d tiles
          (omega (arith, sound.some_lag)) in
      (
        d',
        on_head-planned c block rx latest_head d d' planned e,
        Delivered-range (omega (arith, skipped)) (omega (arith, skipped)) all,
      )
