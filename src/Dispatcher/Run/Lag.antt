-- ===== src/Dispatcher/Run/Lag.antt =====
-- `/health` and the lag of the dispatcher.
use balances_watcher.Base.{ℕ, ◌+◌, ◌≤◌, ◌≡◌, ◌⊎◌, ◌↔◌, true, arith}
use balances_watcher.Dispatcher.Run.{Dispatcher, Config, health_status}
use balances_watcher.Health.{healthy}

-- The dispatcher is healthy exactly while it is active and one of these holds: the watcher has seen
-- no head yet, the dispatcher has processed none yet, or its cursor is no more than the lag budget
-- behind the watcher's head.
pub health_status_iff {ℓ} :
    {Log : Type ℓ} (c : Config) (current_head : ℕ) (d : Dispatcher Log)
    → (health_status c current_head d ≡ healthy) ↔ (
        (d.is_active ≡ true)
        × ((current_head ≡ 0)
            ⊎ (d.latest_processed_block ≡ 0)
            ⊎ (current_head ≤ d.latest_processed_block + c.max_block_lag)))
unfolding health_status
health_status_iff c current_head d = ground arith
