-- ===== src/Dispatcher/Run/Cursor.antt =====
-- How the cursor moves.
use balances_watcher.Base.{
  ℕ, ◌+◌, ◌-◌, ◌≤◌, ◌<◌, ◌≡◌, refl, ◌∙◌, false, List, [], ◌∷◌, ◌++◌, some, arith, Result, is_empty,
  if◌then◌else◌,
}
use balances_watcher.Base.Word.{u64_modulus}
use balances_watcher.Dispatcher.Plan.{FetchPlan}
use balances_watcher.Dispatcher.Plan.Tiling.{Tiles, total_blocks}
use balances_watcher.Dispatcher.Bisect.Resolution.{fetch_range_with_bisect_total}
use balances_watcher.Dispatcher.Run.{
  Dispatcher, fetch_erc20_and_process, fetch_weth9_and_process, process_ranges, execute,
}

cursor-Tiles :
    (chunk hi to : ℕ) (ranges : List (ℕ × ℕ))
    → Tiles chunk (hi + 1) to ranges
    → (if is_empty ranges then hi else to) ≡ to
cursor-Tiles chunk hi to [] t = omega arith
cursor-Tiles chunk hi to (r ∷ ranges) t = refl

module _ {ℓ κ} {Log : Type ℓ} {Error : Type κ}
    (fetch_transfer fetch_weth9 : ℕ → ℕ → ℕ → Result Error (List Log)) where
  -- What a fetch leaves as it was.
  record SameCursor (d d' : Dispatcher Log) : Type ℓ where
    active : d'.is_active ≡ d.is_active
    cursor : d'.latest_processed_block ≡ d.latest_processed_block
    processed : d'.blocks_processed_total ≡ d.blocks_processed_total
    backfilled : d'.backfilled_blocks_total ≡ d.backfilled_blocks_total

  fetch_erc20-SameCursor :
      (from to : ℕ) (d : Dispatcher Log)
      → from ≤ to
      → to < u64_modulus
      → (d' : Dispatcher Log) × (fetch_erc20_and_process fetch_transfer fetch_weth9 from to d
          ≡ some d')
        × SameCursor d d'
  unfolding fetch_erc20_and_process
  fetch_erc20-SameCursor from to d h b =
      let (q, found) = fetch_range_with_bisect_total fetch_transfer from to h b in
      (
        record d {
          erc20_logs = d.erc20_logs ++ q.handled;
          missed_block_logs_total = d.missed_block_logs_total + q.lost_blocks;
        },
        rw found,
        record { active = refl; cursor = refl; processed = refl; backfilled = refl },
      )

  fetch_weth9-SameCursor :
      (from to : ℕ) (d : Dispatcher Log)
      → from ≤ to
      → to < u64_modulus
      → (d' : Dispatcher Log) × (fetch_weth9_and_process fetch_transfer fetch_weth9 from to d
          ≡ some d')
        × SameCursor d d'
  unfolding fetch_weth9_and_process
  fetch_weth9-SameCursor from to d h b =
      let (q, found) = fetch_range_with_bisect_total fetch_weth9 from to h b in
      (
        record d {
          weth9_logs = d.weth9_logs ++ q.handled;
          missed_block_logs_total = d.missed_block_logs_total + q.lost_blocks;
        },
        rw found,
        record { active = refl; cursor = refl; processed = refl; backfilled = refl },
      )

  record Advanced (ranges : List (ℕ × ℕ)) (to : ℕ) (d d' : Dispatcher Log) : Type ℓ where
    active : d'.is_active ≡ d.is_active
    cursor : d'.latest_processed_block ≡ (if is_empty ranges then d.latest_processed_block else to)
    processed : d'.blocks_processed_total ≡ d.blocks_processed_total + total_blocks ranges
    backfilled : d'.backfilled_blocks_total ≡ d.backfilled_blocks_total

  process_ranges-Advanced :
      (chunk from to : ℕ) (ranges : List (ℕ × ℕ)) (d : Dispatcher Log)
      → Tiles chunk from to ranges
      → to < u64_modulus
      → (d' : Dispatcher Log) × (process_ranges fetch_transfer fetch_weth9 ranges d ≡ some d')
        × Advanced ranges to d d'
  unfolding process_ranges
  process_ranges-Advanced chunk from to [] d t b =
      (d, refl, record { active = refl; cursor = refl; processed = omega arith; backfilled = refl })
  process_ranges-Advanced chunk from to ((lo, hi) ∷ ranges) d t b =
      let (d₁, e₁, s₁) = fetch_erc20-SameCursor lo hi d (omega arith) (omega arith) in
      let (d₂, e₂, s₂) = fetch_weth9-SameCursor lo hi d₁ (omega arith) (omega arith) in
      let next : Dispatcher Log = record d₂ {
        latest_processed_block = hi;
        blocks_processed_total = d₂.blocks_processed_total + (hi - lo + 1);
      } in
      let (d', e', a) = process_ranges-Advanced chunk (hi + 1) to ranges next t.4 b in
      (
        d',
        rw (e₁, e₂) e',
        record {
          active = a.active ∙ s₂.active ∙ s₁.active;
          cursor = a.cursor ∙ cursor-Tiles chunk hi to ranges t.4;
          processed = omega (arith, a.processed, s₁.processed, s₂.processed);
          backfilled = a.backfilled ∙ s₂.backfilled ∙ s₁.backfilled;
        },
      )

  pub execute-Advanced :
      (chunk from newest latest_head : ℕ) (plan : FetchPlan) (d : Dispatcher Log)
      → Tiles chunk from newest plan.ranges
      → from ≤ newest
      → newest < u64_modulus
      → (d' : Dispatcher Log) × (execute fetch_transfer fetch_weth9 newest latest_head plan d
          ≡ some d')
        × (d'.is_active ≡ d.is_active)
        × (d'.latest_processed_block ≡ newest)
        × (d'.blocks_processed_total ≡ d.blocks_processed_total + total_blocks plan.ranges)
        × (d'.backfilled_blocks_total ≡ d.backfilled_blocks_total + (total_blocks plan.ranges - 1))
        × (d'.lag_blocks ≡ latest_head - newest)
  unfolding execute
  execute-Advanced chunk from newest latest_head plan d t h b =
      let start : Dispatcher Log = record d {
        backfilled_blocks_total = d.backfilled_blocks_total + (total_blocks plan.ranges - 1);
      } in
      let (d', e, a) = process_ranges-Advanced chunk from newest plan.ranges start t b in
      let some_range = nonempty chunk from newest plan.ranges h t in
      (
        record d' { lag_blocks = latest_head - newest },
        rw (some_range, e),
        a.active,
        rw some_range at a.cursor,
        a.processed,
        a.backfilled,
        refl,
      )
    where
      nonempty :
          (chunk from to : ℕ) (ranges : List (ℕ × ℕ))
          → from ≤ to
          → Tiles chunk from to ranges
          → is_empty ranges ≡ false
      nonempty chunk from to [] h t = absurd (omega arith)
      nonempty chunk from to (r ∷ ranges) h t = refl
