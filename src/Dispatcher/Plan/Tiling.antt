-- ===== src/Dispatcher/Plan/Tiling.antt =====
-- What a plan fetches: exactly the blocks of the gap that the cap leaves, each once, in order.
use balances_watcher.Base.{
  ℕ, zero, suc, ◌+◌, ◌-◌, ◌≤◌, ◌<◌, max, min, ◌≡◌, refl, ◌≢◌, inl, inr, List, [], ◌∷◌, some, arith,
  sum_of, leb, nat_beq, true, false, Bool-cases,
}
use balances_watcher.Base.Word.{u64_modulus, add_u64, sub_u64}
use balances_watcher.Dispatcher.Plan.{FetchPlan, chunk_end, chunk_ranges, fetch_from, plan_fetch}

-- The ranges are adjacent, begin at `from`, end at `to`, and none is empty or wider than `chunk`.
abbrev pub Tiles : ℕ → ℕ → ℕ → List (ℕ × ℕ) → Type 0
Tiles chunk from to [] = from ≡ to + 1
Tiles chunk from to ((a, b) ∷ rs) =
    (a ≡ from) × (a ≤ b) × (b ≤ to) × (b + 1 ≤ a + chunk) × Tiles chunk (b + 1) to rs

chunk_end_lem :
    (from incoming chunk : ℕ)
    → 1 ≤ chunk
    → incoming + chunk < u64_modulus
    → from ≤ incoming
    → chunk_end from incoming chunk ≡ min incoming (from + chunk - 1)
unfolding chunk_end
chunk_end_lem from incoming chunk c b h = omega arith

chunk_ranges-Tiles :
    (fuel from incoming chunk : ℕ)
    → 1 ≤ chunk
    → incoming + chunk < u64_modulus
    → from ≤ incoming + 1
    → incoming + 1 < fuel + from
    → (rs : List (ℕ × ℕ)) × (chunk_ranges fuel from incoming chunk ≡ some rs)
      × Tiles chunk from incoming rs
unfolding chunk_ranges
chunk_ranges-Tiles zero from incoming chunk c b h f = absurd (omega arith)
chunk_ranges-Tiles (suc fuel) from incoming chunk c b h f = elim (Bool-cases (leb from incoming)) [
  | inl more ↦
      let to = chunk_end from incoming chunk in
      let e = chunk_end_lem from incoming chunk c b (ground arith) in
      let in_range : from ≤ incoming = ground arith in
      let (rs, found, tiles) =
        chunk_ranges-Tiles fuel (to + 1) incoming chunk c b (omega arith) (omega arith) in
      let step : add_u64 to 1 ≡ to + 1 = omega arith in
      (
        (from, to) ∷ rs,
        rw (more, step, found),
        (refl, omega arith, omega arith, omega arith, tiles),
      )
  | inr done ↦ ([], rw done, ground arith)
]

-- The number of blocks in a list of inclusive ranges.
abbrev pub total_blocks : List (ℕ × ℕ) → ℕ
total_blocks = sum_of (λ r. r.1 - r.0 + 1)

pub total_blocks-Tiles :
    (chunk from to : ℕ) (rs : List (ℕ × ℕ))
    → Tiles chunk from to rs
    → from + total_blocks rs ≡ to + 1
total_blocks-Tiles chunk from to [] h = omega arith
total_blocks-Tiles chunk from to ((a, b) ∷ rs) h =
    omega (arith, total_blocks-Tiles chunk (b + 1) to rs h.4)

fetch_from_lem :
    (latest incoming max_backfill : ℕ)
    → incoming + 1 < u64_modulus
    → latest ≢ 0
    → latest < incoming
    → fetch_from latest incoming max_backfill ≡ max (latest + 1) (incoming - max_backfill + 1)
unfolding fetch_from
fetch_from_lem latest incoming max_backfill b n h = ground arith

-- For a head ahead of a cursor that has been set, a chunk and a cap of at least one block, and sums
-- that fit into 64 bits, planning ends and the ranges of
-- the plan tile the blocks from behind the cursor to the head but for the skipped ones, which are
-- the oldest and as many as the gap exceeds the cap. Each range is at most a chunk wide, and all of
-- them together have as many blocks as the gap, or as the cap if that is less.
pub plan_fetch-Tiles :
    (latest incoming max_backfill chunk : ℕ)
    → 1 ≤ chunk
    → 1 ≤ max_backfill
    → incoming + chunk < u64_modulus
    → latest ≢ 0
    → latest < incoming
    → (p : FetchPlan) × (plan_fetch latest incoming max_backfill chunk ≡ some p)
      × (p.skipped_blocks ≡ incoming - latest - max_backfill)
      × Tiles chunk (latest + 1 + p.skipped_blocks) incoming p.ranges
      × (total_blocks p.ranges ≡ min (incoming - latest) max_backfill)
unfolding plan_fetch
plan_fetch-Tiles latest incoming max_backfill chunk c m b n h =
    let from = fetch_from latest incoming max_backfill in
    let e = fetch_from_lem latest incoming max_backfill (omega arith) n h in
    let (rs, found, tiles) =
      chunk_ranges-Tiles (incoming + 2) from incoming chunk c b (omega arith) (omega arith) in
    let k = incoming - latest - max_backfill in
    let start : from ≡ latest + 1 + k = omega arith in
    let skip : sub_u64 from (add_u64 latest 1) ≡ k = omega arith in
    let started : nat_beq latest 0 ≡ false = ground arith in
    let ahead : leb incoming latest ≡ false = ground arith in
    (
      record { skipped_blocks = k; ranges = rs },
      rw (started, ahead, found, skip),
      refl,
      rw (← start) tiles,
      omega (arith, total_blocks-Tiles chunk from incoming rs tiles),
    )

Tiles-single : (chunk i : ℕ) (rs : List (ℕ × ℕ)) → Tiles chunk i i rs → rs ≡ (i, i) ∷ []
Tiles-single chunk i [] h = absurd (omega arith)
Tiles-single chunk i ((a, b) ∷ []) h = ground arith
Tiles-single chunk i ((a, b) ∷ (c, d) ∷ rs) h = absurd (omega arith)

-- With no block processed yet, and sums that fit into 64 bits, the plan is the head alone.
pub plan_fetch_first :
    (incoming max_backfill chunk : ℕ)
    → 1 ≤ chunk
    → incoming + chunk < u64_modulus
    → plan_fetch 0 incoming max_backfill chunk
      ≡ some (record { skipped_blocks = 0; ranges = (incoming, incoming) ∷ [] })
unfolding plan_fetch fetch_from
plan_fetch_first incoming max_backfill chunk c b =
    let (rs, found, tiles) =
      chunk_ranges-Tiles (incoming + 2) incoming incoming chunk c b (omega arith) (omega arith) in
    rw (found, Tiles-single chunk incoming rs tiles)

-- A head at or behind a cursor that has been set leaves nothing to fetch and nothing skipped.
pub plan_fetch_stale :
    (latest incoming max_backfill chunk : ℕ)
    → latest ≢ 0
    → incoming ≤ latest
    → plan_fetch latest incoming max_backfill chunk
      ≡ some (record { skipped_blocks = 0; ranges = [] })
unfolding plan_fetch
plan_fetch_stale latest incoming max_backfill chunk n h =
    let started : nat_beq latest 0 ≡ false = ground arith in
    let behind : leb incoming latest ≡ true = ground arith in rw (started, behind)
