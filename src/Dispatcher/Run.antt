-- ===== src/Dispatcher/Run.antt =====
-- `run`, the two `fetch_…_and_process` methods and `health_status` of
-- src/services/event_dispatcher.rs. A message of the block channel comes with the heads that are
-- queued behind it. The two fetches of a range run at the same time, so their logs are kept apart:
-- the transfer channel receives an interleaving of the two.
pub mod Cursor
pub mod Heads
pub mod Delivery
pub mod Lag
use balances_watcher.Base.{
  ℕ, zero, suc, ◌+◌, ◌-◌, ◌*◌, ◌||◌, Bool, true, false, not, List, [], ◌∷◌, ◌++◌, Option, none,
  some, ltb, if◌then◌else◌, ◌==◌, nat_eq, Result, sum_of, is_empty,
}
use balances_watcher.Base.Word.{saturating_sub}
use balances_watcher.Dispatcher.Plan.{FetchPlan, plan_fetch, drain_queued_heads}
use balances_watcher.Dispatcher.Bisect.{Progress, fetch_range_with_bisect}
use balances_watcher.Health.{SubsystemHealth, healthy, unhealthy, dispatcher_not_active, block_lag}

pub record Dispatcher {ℓ} (Log : Type ℓ) : Type ℓ where
  pub is_active : Bool
  pub latest_processed_block : ℕ
  -- the logs handed to `on_erc20_log` and to `on_weth9_log`
  pub erc20_logs : List Log
  pub weth9_logs : List Log
  pub backfilled_blocks_total : ℕ
  pub blocks_processed_total : ℕ
  pub missed_block_logs_total : ℕ
  pub lag_blocks : ℕ

-- What never changes after `spawn`.
pub record Config : Type 0 where
  pub max_block_lag : ℕ
  pub backfill_chunk_blocks : ℕ

infixl 5 ◌>>=◌
abbrev ◌>>=◌ {ℓ κ} : {A : Type ℓ} {B : Type κ} → Option A → (A → Option B) → Option B
none >>= f = none
some a >>= f = f a

pub data Message : Type 0 where
  cancelled closed : Message
  -- a head, the heads queued behind it, and the head of the block watcher after the cycle
  head : ℕ → List ℕ → ℕ → Message

module _ {ℓ κ} {Log : Type ℓ} {Error : Type κ}
    (fetch_transfer fetch_weth9 : ℕ → ℕ → ℕ → Result Error (List Log)) where
  -- `fetch_erc20_transfer_logs_and_process`.
  unfoldable pub fetch_erc20_and_process : ℕ → ℕ → Dispatcher Log → Option (Dispatcher Log)
  fetch_erc20_and_process from to d = do
    p ← fetch_range_with_bisect fetch_transfer (2 * (to + 1 - from)) from to
    some (record d {
      erc20_logs = d.erc20_logs ++ p.handled;
      missed_block_logs_total = d.missed_block_logs_total + p.lost_blocks;
    })

  unfoldable pub fetch_weth9_and_process : ℕ → ℕ → Dispatcher Log → Option (Dispatcher Log)
  fetch_weth9_and_process from to d = do
    p ← fetch_range_with_bisect fetch_weth9 (2 * (to + 1 - from)) from to
    some (record d {
      weth9_logs = d.weth9_logs ++ p.handled;
      missed_block_logs_total = d.missed_block_logs_total + p.lost_blocks;
    })

  -- `for (from, to) in plan.ranges`.
  unfoldable pub process_ranges : List (ℕ × ℕ) → Dispatcher Log → Option (Dispatcher Log)
  process_ranges [] d = some d
  process_ranges ((from, to) ∷ ranges) d = do
    d₁ ← fetch_erc20_and_process from to d
    d₂ ← fetch_weth9_and_process from to d₁
    process_ranges ranges (record d₂ {
      latest_processed_block = to;
      blocks_processed_total = d₂.blocks_processed_total + (to - from + 1);
    })

  -- The part of a cycle behind `plan_fetch`; a plan with no range is skipped.
  unfoldable pub execute : ℕ → ℕ → FetchPlan → Dispatcher Log → Option (Dispatcher Log)
  unfolding process_ranges
  execute newest latest_head plan d =
      let total = sum_of (λ (r : ℕ × ℕ). r.1 - r.0 + 1) plan.ranges in
      let processed =
        process_ranges plan.ranges
          (record d { backfilled_blocks_total = d.backfilled_blocks_total + (total - 1) }) in
      if is_empty plan.ranges
      then some d
      else (processed >>= λ d'. some (record d' { lag_blocks = saturating_sub latest_head newest }))

  unfoldable pub on_head : Config → ℕ → List ℕ → ℕ → Dispatcher Log → Option (Dispatcher Log)
  unfolding execute
  on_head c block rx latest_head d = do
    let newest = (drain_queued_heads rx block 0).0
    plan ← plan_fetch d.latest_processed_block newest c.max_block_lag c.backfill_chunk_blocks
    execute newest latest_head plan d

  -- The loop of `run`, over the messages that it receives. It leaves `is_active` set where the
  -- channel is closed.
  unfoldable pub run_loop : Config → List Message → Dispatcher Log → Option (Dispatcher Log)
  unfolding on_head
  run_loop c [] d = some d
  run_loop c (cancelled ∷ ms) d = some (record d { is_active = false })
  run_loop c (closed ∷ ms) d = some d
  run_loop c (head block rx latest_head ∷ ms) d = do
    d' ← on_head c block rx latest_head d
    run_loop c ms d'

  unfoldable pub run : Config → List Message → Dispatcher Log → Option (Dispatcher Log)
  unfolding run_loop
  run c ms d = run_loop c ms (record d { is_active = true })

module _ {ℓ} {Log : Type ℓ} where
  unfoldable pub health_status : Config → ℕ → Dispatcher Log → SubsystemHealth
  health_status c current_head d =
      if not d.is_active
      then unhealthy dispatcher_not_active
      else if current_head == 0
      then healthy
      else if d.latest_processed_block == 0
      then healthy
      else if ltb c.max_block_lag (saturating_sub current_head d.latest_processed_block)
      then unhealthy (
          block_lag (saturating_sub current_head d.latest_processed_block) c.max_block_lag
            current_head d.latest_processed_block)
      else healthy
