-- ===== src/Dispatcher/Spawn.antt =====
-- `spawn` of src/services/event_dispatcher.rs: what the fields are set to for a network. A state of
-- the dispatcher begins with no logs handed over, and its metrics at 0.
use balances_watcher.Base.{ℕ, false, [], arith}
use balances_watcher.Domain.Network.{
  EvmNetwork, weth9_address, max_block_lag, backfill_chunk_blocks,
}
use balances_watcher.Domain.Network.Budgets.{budgets}
use balances_watcher.Dispatcher.Run.{Dispatcher, Config}
use balances_watcher.Dispatcher.Run.Heads.{IsSound}

-- The fields that `run` changes, and those that it only reads.
pub record Spawned {ℓ} (Log : Type ℓ) : Type ℓ where
  pub dispatcher : Dispatcher Log
  pub config : Config
  pub weth9_address : ℕ

unfoldable pub config_for : EvmNetwork → Config
config_for network = record {
  max_block_lag = max_block_lag network;
  backfill_chunk_blocks = backfill_chunk_blocks network;
}

unfoldable pub spawn_dispatcher {ℓ} : {Log : Type ℓ} → EvmNetwork → Spawned Log
unfolding config_for
spawn_dispatcher network = record {
  dispatcher = record {
    is_active = false;
    latest_processed_block = 0;
    erc20_logs = [];
    weth9_logs = [];
    backfilled_blocks_total = 0;
    blocks_processed_total = 0;
    missed_block_logs_total = 0;
    lag_blocks = 0;
  };
  config = config_for network;
  weth9_address = weth9_address network;
}

pub config_for-IsSound : (network : EvmNetwork) → IsSound (config_for network)
unfolding config_for
config_for-IsSound network =
    let b = budgets network in record { some_chunk = b.0; some_lag = omega (arith, b.0, b.1) }
