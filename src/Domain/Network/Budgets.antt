-- ===== src/Domain/Network/Budgets.antt =====
-- The block budgets of each network, against its block time.
use balances_watcher.Base.{◌*◌, ◌≤◌, arith}
use balances_watcher.Domain.Network.{
  EvmNetwork, eth, block_time, max_block_lag, backfill_chunk_blocks,
}

-- A backfill chunk has at least one block and fits into the lag budget, and the lag budget is
-- between 30 and 36 seconds of blocks.
pub budgets :
    (n : EvmNetwork)
    → (1 ≤ backfill_chunk_blocks n)
      × (backfill_chunk_blocks n ≤ max_block_lag n)
      × (30000 ≤ max_block_lag n * block_time n)
      × (max_block_lag n * block_time n ≤ 36000)
unfolding backfill_chunk_blocks max_block_lag block_time
budgets eth = omega arith
budgets _ = omega arith
