-- ===== src/Dispatcher/Plan.antt =====
-- `plan_fetch` and `drain_queued_heads` of src/services/event_dispatcher.rs. Block numbers are
-- `u64`, and `+` and `-` wrap as in a release build.
pub mod Tiling
pub mod Newest
use balances_watcher.Base.{
  ℕ, zero, suc, ◌+◌, ◌-◌, max, min, Bool, not, ◌&&◌, List, [], ◌∷◌, Option, none, some, ltb, leb,
  if◌then◌else◌, ◌==◌, nat_eq,
}
use balances_watcher.Base.Word.{add_u64, sub_u64, saturating_sub}
use mathlib.Core.Option

pub record FetchPlan : Type 0 where
  pub skipped_blocks : ℕ
  pub ranges : List (ℕ × ℕ)

-- The end of the chunk that begins at `from`.
unfoldable pub chunk_end : ℕ → ℕ → ℕ → ℕ
chunk_end from incoming chunk_blocks = min incoming (sub_u64 (add_u64 from chunk_blocks) 1)

-- `while from <= incoming`, with one unit of fuel for each round; `none` where it runs out.
unfoldable pub chunk_ranges : ℕ → ℕ → ℕ → ℕ → Option (List (ℕ × ℕ))
chunk_ranges zero from incoming chunk_blocks = none
chunk_ranges (suc fuel) from incoming chunk_blocks =
    let to = chunk_end from incoming chunk_blocks in
    let later = chunk_ranges fuel (add_u64 to 1) incoming chunk_blocks in
    let ranges = Option.map (λ rs. (from, to) ∷ rs) later in
    if leb from incoming then ranges else some []

-- The first block to fetch.
unfoldable pub fetch_from : ℕ → ℕ → ℕ → ℕ
fetch_from latest_processed incoming max_backfill =
    if latest_processed == 0
    then incoming
    else max (add_u64 latest_processed 1) (add_u64 (saturating_sub incoming max_backfill) 1)

-- `from` takes a round for each chunk, so `incoming + 2` rounds suffice.
unfoldable pub plan_fetch : ℕ → ℕ → ℕ → ℕ → Option FetchPlan
plan_fetch latest_processed incoming max_backfill chunk_blocks =
    let from = fetch_from latest_processed incoming max_backfill in
    let skipped = if latest_processed == 0 then 0 else sub_u64 from (add_u64 latest_processed 1) in
    let fetched =
      Option.map (λ (rs : List (ℕ × ℕ)). plan skipped rs)
        (chunk_ranges (incoming + 2) from incoming chunk_blocks) in
    if not (latest_processed == 0) && leb incoming latest_processed
    then some (plan 0 [])
    else fetched
  where
    plan : ℕ → List (ℕ × ℕ) → FetchPlan
    plan n rs = record { skipped_blocks = n; ranges = rs }

-- `while let Ok(queued) = rx.try_recv()`, over the heads that the channel holds. Returns the
-- newest head and the number of drained heads.
unfoldable pub drain_queued_heads : List ℕ → ℕ → ℕ → ℕ × ℕ
drain_queued_heads [] newest drained = (newest, drained)
drain_queued_heads (queued ∷ rx) newest drained =
    drain_queued_heads rx (max newest queued) (drained + 1)
