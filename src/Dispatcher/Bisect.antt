-- ===== src/Dispatcher/Bisect.antt =====
-- `fetch_range_with_bisect` of src/services/event_dispatcher.rs. The provider behind `fetch` is a
-- parameter that may answer each call differently: its first argument numbers the calls.
pub mod Resolution
pub mod Blocks
pub mod Single
use balances_watcher.Base.{
  ℕ, zero, suc, ◌+◌, ◌/◌, Bool, true, false, List, [], ◌∷◌, ◌++◌, Option, none, some, ltb, Result,
  ok, err,
}
use balances_watcher.Base.Word.{add_u64, sub_u64}

-- The logs handed to `handle_log`, in order, and the two counters.
pub record Progress {ℓ} (Log : Type ℓ) : Type ℓ where
  pub handled : List Log
  pub handled_logs : ℕ
  pub lost_blocks : ℕ

abbrev pub start {ℓ} : {Log : Type ℓ} → Progress Log
start = record { handled = []; handled_logs = 0; lost_blocks = 0 }

-- `for log in batch`.
unfoldable pub handle_batch {ℓ} : {Log : Type ℓ} → List Log → Progress Log → Progress Log
handle_batch [] p = p
handle_batch (log ∷ batch) p =
    handle_batch batch
      (record p { handled = p.handled ++ log ∷ []; handled_logs = p.handled_logs + 1 })

unfoldable pub midpoint : ℕ → ℕ → ℕ
midpoint from to = add_u64 from (sub_u64 to from / 2)

module _ {ℓ κ} {Log : Type ℓ} {Error : Type κ} (fetch : ℕ → ℕ → ℕ → Result Error (List Log)) where
  -- `while let Some((from, to)) = pending.pop()`. The head of the list is the top of the stack.
  -- A unit of fuel for each round; `none` where it runs out.
  unfoldable pub bisect_loop : ℕ → ℕ → List (ℕ × ℕ) → Progress Log → Option (Progress Log)
  bisect_loop zero call pending p = none
  bisect_loop (suc fuel) call [] p = some p
  bisect_loop (suc fuel) call ((from, to) ∷ pending) p = elim (fetch call from to) [
    | ok batch ↦ bisect_loop fuel (call + 1) pending (handle_batch batch p)
    | err e ↦ elim (ltb from to) [
      | true ↦
          bisect_loop fuel (call + 1)
            ((from, midpoint from to) ∷ (add_u64 (midpoint from to) 1, to) ∷ pending) p
      | false ↦ bisect_loop fuel (call + 1) pending (record p { lost_blocks = p.lost_blocks + 1 })
    ]
  ]

  unfoldable pub fetch_range_with_bisect : ℕ → ℕ → ℕ → Option (Progress Log)
  fetch_range_with_bisect fuel from to = bisect_loop fuel 0 ((from, to) ∷ []) start
