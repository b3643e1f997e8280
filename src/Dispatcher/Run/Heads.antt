-- ===== src/Dispatcher/Run/Heads.antt =====
-- One cycle of the dispatcher, and a whole run.
use balances_watcher.Base.{
  ℕ, ◌+◌, ◌-◌, ◌≤◌, ◌<◌, max, min, ◌≡◌, refl, ◌≢◌, ap, ◌∙◌, inl, inr, false, List, [], ◌∷◌, ◌++◌,
  some, arith, Result, leb, nat_beq, nat_beq_iff, All, Bool-cases,
}
use balances_watcher.Base.Word.{u64_modulus}
use balances_watcher.Dispatcher.Plan.{FetchPlan, plan_fetch, drain_queued_heads}
use balances_watcher.Dispatcher.Plan.Newest.{
  greatest, greatest-swap, greatest-append, greatest-bound, drain_queued_heads-greatest, All-split,
}
use balances_watcher.Dispatcher.Plan.Tiling.{plan_fetch-Tiles, plan_fetch_first, plan_fetch_stale}
use balances_watcher.Dispatcher.Run.Cursor.{execute-Advanced}
use balances_watcher.Dispatcher.Run.{
  Dispatcher, Config, Message, cancelled, closed, head, execute, on_head, run_loop,
}

-- The newest of a head and those queued behind it.
abbrev pub newest_of : ℕ → List ℕ → ℕ
newest_of block rx = (drain_queued_heads rx block 0).0

pub record IsSound (c : Config) : Type 0 where
  pub some_chunk : 1 ≤ c.backfill_chunk_blocks
  pub some_lag : 1 ≤ c.max_block_lag

-- The head and the queued heads leave room for a chunk in 64 bits.
abbrev pub IsBounded : Config → Message → Type 0
IsBounded c (head block rx latest_head) = newest_of block rx + c.backfill_chunk_blocks < u64_modulus
IsBounded c _ = Unit

-- The heads that arrive and those queued behind them, up to the message that ends the loop.
abbrev pub heads_before_end : List Message → List ℕ
heads_before_end [] = []
heads_before_end (head block rx latest_head ∷ ms) = (block ∷ rx) ++ heads_before_end ms
heads_before_end (m ∷ ms) = []

module _ {ℓ κ} {Log : Type ℓ} {Error : Type κ}
    (fetch_transfer fetch_weth9 : ℕ → ℕ → ℕ → Result Error (List Log)) (c : Config)
    (sound : IsSound c) where
  on_head_step :
      (block : ℕ) (rx : List ℕ) (latest_head : ℕ) (d d' : Dispatcher Log) {plan : FetchPlan}
      → plan_fetch d.latest_processed_block
          (newest_of block rx)
          c.max_block_lag
          c.backfill_chunk_blocks
        ≡ some plan
      → execute fetch_transfer fetch_weth9 (newest_of block rx) latest_head plan d ≡ some d'
      → on_head fetch_transfer fetch_weth9 c block rx latest_head d ≡ some d'
  unfolding on_head
  on_head_step block rx latest_head d d' planned e = rw planned e

  -- For a provider that answers in any way, a configuration with a chunk and a lag budget of at
  -- least one block, a head ahead of a cursor that has been set, and room in 64 bits: the cycle
  -- ends with the cursor at the newest head, the blocks processed are those of the gap up to the
  -- cap, all of them but the head itself count as backfilled, and the lag is the distance from the
  -- watcher's head.
  pub on_head_catches_up :
      (block : ℕ) (rx : List ℕ) (latest_head : ℕ) (d : Dispatcher Log)
      → newest_of block rx + c.backfill_chunk_blocks < u64_modulus
      → d.latest_processed_block ≢ 0
      → d.latest_processed_block < newest_of block rx
      → (d' : Dispatcher Log) × (on_head fetch_transfer fetch_weth9 c block rx latest_head d
          ≡ some d')
        × (d'.is_active ≡ d.is_active)
        × (d'.latest_processed_block ≡ newest_of block rx)
        × (d'.blocks_processed_total
            ≡ d.blocks_processed_total
              + min (newest_of block rx - d.latest_processed_block) c.max_block_lag)
        × (d'.backfilled_blocks_total
            ≡ d.backfilled_blocks_total
              + (min (newest_of block rx - d.latest_processed_block) c.max_block_lag - 1))
        × (d'.lag_blocks ≡ latest_head - newest_of block rx)
  on_head_catches_up block rx latest_head d b started ahead =
      let newest = newest_of block rx in
      let (plan, planned, skipped, tiles, total) =
        plan_fetch-Tiles d.latest_processed_block newest c.max_block_lag c.backfill_chunk_blocks
          sound.some_chunk sound.some_lag b started ahead in
      let (d', e, active, cursor, processed, backfilled, lag) =
        execute-Advanced fetch_transfer fetch_weth9 c.backfill_chunk_blocks
          (d.latest_processed_block + 1 + plan.skipped_blocks) newest latest_head plan d tiles
          (omega (arith, sound.some_lag)) (omega arith) in
      (
        d',
        on_head_step block rx latest_head d d' planned e,
        active,
        cursor,
        omega (arith, processed, total),
        omega (arith, backfilled, total),
        lag,
      )

  -- For a provider that answers in any way, a configuration with a chunk and a lag budget of at
  -- least one block, a cursor that has not been set, and room in 64 bits: the cycle ends with the
  -- cursor at the newest head, and one block is counted as processed.
  pub on_head_first :
      (block : ℕ) (rx : List ℕ) (latest_head : ℕ) (d : Dispatcher Log)
      → newest_of block rx + c.backfill_chunk_blocks < u64_modulus
      → d.latest_processed_block ≡ 0
      → (d' : Dispatcher Log) × (on_head fetch_transfer fetch_weth9 c block rx latest_head d
          ≡ some d')
        × (d'.is_active ≡ d.is_active)
        × (d'.latest_processed_block ≡ newest_of block rx)
        × (d'.blocks_processed_total ≡ d.blocks_processed_total + 1)
  on_head_first block rx latest_head d b fresh =
      let newest = newest_of block rx in
      let planned =
        plan_fetch_first newest c.max_block_lag c.backfill_chunk_blocks sound.some_chunk b in
      let only : FetchPlan = record { skipped_blocks = 0; ranges = (newest, newest) ∷ [] } in
      let (d', e, active, cursor, processed, backfilled, lag) =
        execute-Advanced fetch_transfer fetch_weth9 c.backfill_chunk_blocks newest newest
          latest_head only d (refl, omega arith, omega arith, omega (arith, sound.some_chunk), refl)
          (omega arith) (omega arith) in
      (
        d',
        on_head_step block rx latest_head d d' (rw fresh planned) e,
        active,
        cursor,
        omega (arith, processed),
      )

  -- A head that is not ahead of a cursor that has been set changes nothing.
  pub on_head_stale :
      (block : ℕ) (rx : List ℕ) (latest_head : ℕ) (d : Dispatcher Log)
      → d.latest_processed_block ≢ 0
      → newest_of block rx ≤ d.latest_processed_block
      → on_head fetch_transfer fetch_weth9 c block rx latest_head d ≡ some d
  unfolding on_head
  on_head_stale block rx latest_head d started behind = rw (
      plan_fetch_stale _ (newest_of block rx) c.max_block_lag c.backfill_chunk_blocks started
        behind)

  on_head-max :
      (block : ℕ) (rx : List ℕ) (latest_head : ℕ) (d : Dispatcher Log)
      → newest_of block rx + c.backfill_chunk_blocks < u64_modulus
      → (d' : Dispatcher Log) × (on_head fetch_transfer fetch_weth9 c block rx latest_head d
          ≡ some d')
        × (d'.latest_processed_block ≡ max d.latest_processed_block (newest_of block rx))
  on_head-max block rx latest_head d b = elim (Bool-cases (nat_beq d.latest_processed_block 0)) [
    | inl fresh ↦
        let (d', e, active, cursor, processed) =
          on_head_first block rx latest_head d b (ground arith) in
        (d', e, omega (arith, cursor, (nat_beq_iff _ _).0 fresh))
    | inr started ↦ elim (Bool-cases (leb (newest_of block rx) d.latest_processed_block)) [
      | inl behind ↦
          (d, on_head_stale block rx latest_head d (ground arith) (ground arith), ground arith)
      | inr ahead ↦
          let r = on_head_catches_up block rx latest_head d b (ground arith) (ground arith) in
          (r.0, r.1, ground (arith, r.3))
    ]
  ]

  on_head-greatest :
      (block : ℕ) (rx : List ℕ) (latest_head : ℕ) (d : Dispatcher Log)
      → All (λ h. h + c.backfill_chunk_blocks < u64_modulus) (block ∷ rx)
      → (d' : Dispatcher Log) × (on_head fetch_transfer fetch_weth9 c block rx latest_head d
          ≡ some d')
        × (d'.latest_processed_block ≡ greatest d.latest_processed_block (block ∷ rx))
  on_head-greatest block rx latest_head d b =
      let drained = drain_queued_heads-greatest rx block 0 in
      let room = greatest-bound c.backfill_chunk_blocks u64_modulus block rx b.0 b.1 in
      let (d', e, cursor) = on_head-max block rx latest_head d (omega (arith, drained, room)) in
      (
        d',
        e,
        cursor
            ∙ ap (max d.latest_processed_block) drained
            ∙ greatest-swap d.latest_processed_block block rx,
      )

  -- For a provider that answers in any way, a configuration with a chunk and a lag budget of at
  -- least one block, and heads up to the end that leave room for a chunk in 64 bits, the loop of a
  -- run ends, and its cursor is the greatest of where it began and every head, queued ones
  -- included, that came before the end.
  pub run_loop-reached :
      (ms : List Message) (d : Dispatcher Log)
      → All (λ h. h + c.backfill_chunk_blocks < u64_modulus) (heads_before_end ms)
      → (d' : Dispatcher Log) × (run_loop fetch_transfer fetch_weth9 c ms d ≡ some d')
        × (d'.latest_processed_block ≡ greatest d.latest_processed_block (heads_before_end ms))
  unfolding run_loop
  run_loop-reached [] d b = (d, refl, refl)
  run_loop-reached (cancelled ∷ ms) d b = (record d { is_active = false }, refl, refl)
  run_loop-reached (closed ∷ ms) d b = (d, refl, refl)
  run_loop-reached (head block rx latest_head ∷ ms) d b =
      let (here, later) = All-split _ (block ∷ rx) (heads_before_end ms) b in
      let (d₁, e₁, cursor) = on_head-greatest block rx latest_head d here in
      let (d', e, end) = run_loop-reached ms d₁ later in
      (
        d',
        rw e₁ e,
        end
            ∙ ap (λ n. greatest n (heads_before_end ms)) cursor
            ∙ greatest-append d.latest_processed_block (block ∷ rx) (heads_before_end ms),
      )
