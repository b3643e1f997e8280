-- ===== src/Dispatcher/Run/Delivery.antt =====
-- Which logs a cycle, and a whole run, hands to the two log handlers.
pub mod Cycle
pub mod Loop
pub mod Start
use balances_watcher.Base.{
  some-injective, ℕ, ◌+◌, ◌-◌, ◌*◌, ◌≤◌, ◌<◌, ◌≡◌, ◌≢◌, refl, sym, ap, ◌∙◌, inl, inr, List, [], ◌∷◌,
  ◌++◌, some, false, arith, Result, All, Bool-cases, leb, max, is_empty, true,
}
use mathlib.Core.Path.{subst}
use mathlib.Core.List.{append-nil, append_assoc}
use balances_watcher.Base.Word.{u64_modulus}
use balances_watcher.Dispatcher.Plan.{FetchPlan, plan_fetch}
use balances_watcher.Dispatcher.Plan.Tiling.{Tiles, total_blocks, plan_fetch-Tiles}
use balances_watcher.Dispatcher.Bisect.Blocks.{
  IsFaithful, Keeps, end, Keeps-append, fetch_range_with_bisect-Keeps,
}
use balances_watcher.Dispatcher.Run.{
  Dispatcher, Config, Message, cancelled, closed, head, fetch_erc20_and_process,
  fetch_weth9_and_process, process_ranges, execute, on_head, run_loop,
}
use balances_watcher.Dispatcher.Run.Heads.{
  newest_of, IsSound, IsBounded, on_head_catches_up, on_head_stale,
}

module _ {ℓ κ} {Log : Type ℓ} {Error : Type κ} (transfer_logs weth9_logs : ℕ → List Log)
    (fetch_transfer fetch_weth9 : ℕ → ℕ → ℕ → Result Error (List Log)) where
  -- Between two states of the dispatcher the logs of `width` blocks from `from` on were handed over,
  -- in block order, but for those of blocks that were lost, which the counter has.
  pub record Delivered (from width : ℕ) (d d' : Dispatcher Log) : Type (ℓ ⊔ κ) where
    pub erc20 : List Log
    pub weth9 : List Log
    pub lost_erc20 : ℕ
    pub lost_weth9 : ℕ
    pub erc20_kept : Keeps transfer_logs fetch_transfer from width erc20 lost_erc20
    pub weth9_kept : Keeps weth9_logs fetch_weth9 from width weth9 lost_weth9
    pub erc20_sent : d'.erc20_logs ≡ d.erc20_logs ++ erc20
    pub weth9_sent : d'.weth9_logs ≡ d.weth9_logs ++ weth9
    pub missed : d'.missed_block_logs_total ≡ d.missed_block_logs_total + lost_erc20 + lost_weth9

module _ {ℓ κ} {Log : Type ℓ} {Error : Type κ} {transfer_logs weth9_logs : ℕ → List Log}
    {fetch_transfer fetch_weth9 : ℕ → ℕ → ℕ → Result Error (List Log)} where
  pub Delivered-none :
      (from : ℕ) (d : Dispatcher Log)
      → Delivered transfer_logs weth9_logs fetch_transfer fetch_weth9 from 0 d d
  Delivered-none from d = record {
    erc20 = [];
    weth9 = [];
    lost_erc20 = 0;
    lost_weth9 = 0;
    erc20_kept = end;
    weth9_kept = end;
    erc20_sent = sym (append-nil d.erc20_logs);
    weth9_sent = sym (append-nil d.weth9_logs);
    missed = omega arith;
  }

  pub Delivered-append :
      (from mid width : ℕ) {width' : ℕ} {d d₁ d' : Dispatcher Log}
      → from + width ≡ mid
      → Delivered transfer_logs weth9_logs fetch_transfer fetch_weth9 from width d d₁
      → Delivered transfer_logs weth9_logs fetch_transfer fetch_weth9 mid width' d₁ d'
      → Delivered transfer_logs weth9_logs fetch_transfer fetch_weth9 from (width + width') d d'
  Delivered-append from mid width {d = d} e a b = record {
    erc20 = a.erc20 ++ b.erc20;
    weth9 = a.weth9 ++ b.weth9;
    lost_erc20 = a.lost_erc20 + b.lost_erc20;
    lost_weth9 = a.lost_weth9 + b.lost_weth9;
    erc20_kept =
        Keeps-append transfer_logs fetch_transfer from mid width e a.erc20_kept b.erc20_kept;
    weth9_kept = Keeps-append weth9_logs fetch_weth9 from mid width e a.weth9_kept b.weth9_kept;
    erc20_sent =
        b.erc20_sent
        ∙ ap (λ ls. ls ++ b.erc20) a.erc20_sent
        ∙ append_assoc d.erc20_logs a.erc20 b.erc20;
    weth9_sent =
        b.weth9_sent
        ∙ ap (λ ls. ls ++ b.weth9) a.weth9_sent
        ∙ append_assoc d.weth9_logs a.weth9 b.weth9;
    missed = omega (arith, a.missed, b.missed);
  }

  -- The logs that were handed over and the counter of lost blocks are all that matters.
  pub Delivered-same :
      {from width : ℕ} {d d₁ : Dispatcher Log} (d' : Dispatcher Log)
      → d'.erc20_logs ≡ d₁.erc20_logs
      → d'.weth9_logs ≡ d₁.weth9_logs
      → d'.missed_block_logs_total ≡ d₁.missed_block_logs_total
      → Delivered transfer_logs weth9_logs fetch_transfer fetch_weth9 from width d d₁
      → Delivered transfer_logs weth9_logs fetch_transfer fetch_weth9 from width d d'
  Delivered-same d' erc20 weth9 missed a = record {
    erc20 = a.erc20;
    weth9 = a.weth9;
    lost_erc20 = a.lost_erc20;
    lost_weth9 = a.lost_weth9;
    erc20_kept = a.erc20_kept;
    weth9_kept = a.weth9_kept;
    erc20_sent = erc20 ∙ a.erc20_sent;
    weth9_sent = weth9 ∙ a.weth9_sent;
    missed = missed ∙ a.missed;
  }

  -- A range, and those behind it.
  pub Delivered-next :
      (from to lo hi : ℕ) {d d₁ d' : Dispatcher Log}
      → lo ≡ from
      → lo ≤ hi
      → hi ≤ to
      → Delivered transfer_logs weth9_logs fetch_transfer fetch_weth9 lo (hi + 1 - lo) d d₁
      → Delivered transfer_logs weth9_logs fetch_transfer fetch_weth9
          (hi + 1)
          (to + 1 - (hi + 1))
          d₁
          d'
      → Delivered transfer_logs weth9_logs fetch_transfer fetch_weth9 from (to + 1 - from) d d'
  Delivered-next from to lo hi here h h' first later =
      let both : to + 1 - lo ≡ hi + 1 - lo + (to + 1 - (hi + 1)) = omega arith in
      rw (← here, both) (Delivered-append lo (hi + 1) (hi + 1 - lo) (omega arith) first later)

  pub Delivered-range :
      {from width from' width' : ℕ} {d d' : Dispatcher Log}
      → from ≡ from'
      → width ≡ width'
      → Delivered transfer_logs weth9_logs fetch_transfer fetch_weth9 from width d d'
      → Delivered transfer_logs weth9_logs fetch_transfer fetch_weth9 from' width' d d'
  Delivered-range e e' a = rw (← e, ← e') a

  -- Nor does anything else in the state at the start.
  pub Delivered-from :
      {from width : ℕ} {d d₁ d' : Dispatcher Log}
      → Delivered transfer_logs weth9_logs fetch_transfer fetch_weth9 from width d₁ d'
      → d₁.erc20_logs ≡ d.erc20_logs
      → d₁.weth9_logs ≡ d.weth9_logs
      → d₁.missed_block_logs_total ≡ d.missed_block_logs_total
      → Delivered transfer_logs weth9_logs fetch_transfer fetch_weth9 from width d d'
  Delivered-from a erc20 weth9 missed = record {
    erc20 = a.erc20;
    weth9 = a.weth9;
    lost_erc20 = a.lost_erc20;
    lost_weth9 = a.lost_weth9;
    erc20_kept = a.erc20_kept;
    weth9_kept = a.weth9_kept;
    erc20_sent = a.erc20_sent ∙ ap (λ ls. ls ++ a.erc20) erc20;
    weth9_sent = a.weth9_sent ∙ ap (λ ls. ls ++ a.weth9) weth9;
    missed = a.missed ∙ ap (λ n. n + a.lost_erc20 + a.lost_weth9) missed;
  }
