-- ===== src/Dispatcher/Examples.antt =====
-- The theorems on the dispatcher, applied to a provider that answers single blocks only and always
-- fails for block 103. A log is the number of its block.
use balances_watcher.Base.{
  ℕ, ◌+◌, ◌-◌, ◌^◌, ◌<◌, min, ◌≡◌, sym, inl, inr, Bool, true, false, List, [], ◌∷◌, some, Result,
  ok, err, arith, All, length, if◌then◌else◌, nat_beq, nat_beq_iff, Bool-cases, nat_eq,
}
use balances_watcher.Dispatcher.Plan.{FetchPlan, plan_fetch}
use balances_watcher.Dispatcher.Plan.Tiling.{Tiles, total_blocks, plan_fetch-Tiles}
use balances_watcher.Dispatcher.Bisect.{Progress, fetch_range_with_bisect}
use balances_watcher.Dispatcher.Bisect.Blocks.{IsFaithful, Keeps, fetch_range_with_bisect-Keeps}
use balances_watcher.Dispatcher.Run.{Dispatcher, Config, Message, closed, head, run_loop}
use balances_watcher.Dispatcher.Run.Heads.{IsSound, heads_before_end, run_loop-reached}
use balances_watcher.Dispatcher.Plan.Newest.{greatest}

plan_fetch-Tiles_example :
    (p : FetchPlan) × (plan_fetch 100 150 40 13 ≡ some p)
    × (p.skipped_blocks ≡ 150 - 100 - 40)
    × Tiles 13 (100 + 1 + p.skipped_blocks) 150 p.ranges
    × (total_blocks p.ranges ≡ min (150 - 100) 40)
plan_fetch-Tiles_example =
    plan_fetch-Tiles 100 150 40 13 (omega arith) (omega arith) (omega arith) (omega arith)
      (omega arith)

abbrev block_logs : ℕ → List ℕ
block_logs block = block ∷ []

abbrev provider : ℕ → ℕ → ℕ → Result Bool (List ℕ)
provider call from to =
    if nat_beq from to
    then (if nat_beq from 103 then err false else ok (block_logs from))
    else err true

ok-injective : {xs ys : List ℕ} → ◌≡◌ {A = Result Bool (List ℕ)} (ok xs) (ok ys) → xs ≡ ys
ok-injective h = cc

provider-IsFaithful : IsFaithful block_logs provider
provider-IsFaithful call from to ls h e = elim (Bool-cases (nat_beq from to)) [
  | inr many ↦ absurd (refused (rw many at e))
  | inl alone ↦ elim (Bool-cases (nat_beq from 103)) [
    | inl bad ↦ absurd (refused (rw (alone, bad) at e))
    | inr good ↦
        let one : to + 1 - from ≡ 1 = omega (arith, (nat_beq_iff from to).0 alone) in
        rw one (sym (ok-injective (rw (alone, good) at e)))
  ]
]
  where
    refused : {b : Bool} → ◌≡◌ {A = Result Bool (List ℕ)} (err b) (ok ls) → ⊥
    refused q = cc

fetch_range_with_bisect-Keeps_example :
    (q : Progress ℕ) × (fetch_range_with_bisect provider 10 101 105 ≡ some q)
    × Keeps block_logs provider 101 (105 + 1 - 101) q.handled q.lost_blocks
    × (q.handled_logs ≡ length q.handled)
fetch_range_with_bisect-Keeps_example =
    fetch_range_with_bisect-Keeps block_logs provider 101 105 10 provider-IsFaithful (omega arith)
      (omega arith) (omega arith)

abbrev config : Config
config = record { max_block_lag = 6; backfill_chunk_blocks = 2 }

config-IsSound : IsSound config
config-IsSound = record { some_chunk = omega arith; some_lag = omega arith }

abbrev dispatcher : ℕ → Dispatcher ℕ
dispatcher cursor = record {
  is_active = true;
  latest_processed_block = cursor;
  erc20_logs = [];
  weth9_logs = [];
  backfilled_blocks_total = 0;
  blocks_processed_total = 0;
  missed_block_logs_total = 0;
  lag_blocks = 0;
}

abbrev later_heads : List ℕ
later_heads = 104 ∷ []

abbrev messages : List Message
messages = head 102 later_heads 105 ∷ closed ∷ head 106 [] 106 ∷ []

messages_in_64_bits : All (λ h. h + 2 < 2 ^ 64) (heads_before_end messages)
messages_in_64_bits = (omega arith, (omega arith, tt))

run_loop-reached_example :
    (d' : Dispatcher ℕ) × (run_loop provider provider config messages (dispatcher 100) ≡ some d')
    × (d'.latest_processed_block ≡ greatest 100 (heads_before_end messages))
run_loop-reached_example =
    run_loop-reached provider provider config config-IsSound messages (dispatcher 100)
      messages_in_64_bits
