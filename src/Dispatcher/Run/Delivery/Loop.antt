-- ===== src/Dispatcher/Run/Delivery/Loop.antt =====
-- A whole run of the dispatcher, and the logs that it hands over.
use balances_watcher.Base.{
  some-injective, ℕ, ◌+◌, ◌-◌, ◌≤◌, ◌<◌, ◌≡◌, ◌≢◌, refl, sym, ap, ◌∙◌, inl, inr, List, [], ◌∷◌,
  some, false, arith, Result, All, Bool-cases, leb, max,
}
use mathlib.Core.Path.{subst}
use balances_watcher.Base.Word.{u64_modulus}
use balances_watcher.Dispatcher.Bisect.Blocks.{IsFaithful}
use balances_watcher.Dispatcher.Run.{
  Dispatcher, Config, Message, cancelled, closed, head, on_head, run_loop,
}
use balances_watcher.Dispatcher.Run.Heads.{
  newest_of, IsSound, IsBounded, on_head_catches_up, on_head_stale,
}
use balances_watcher.Dispatcher.Run.Delivery.{
  Delivered, Delivered-none, Delivered-append, Delivered-same, Delivered-range,
}
use balances_watcher.Dispatcher.Run.Delivery.Cycle.{on_head-Delivered}

-- No head is further ahead of the cursor of its time than the cap; what ends the loop ends them.
abbrev pub IsWithinCap : Config → ℕ → List Message → Type 0
IsWithinCap c cursor (head block rx latest_head ∷ ms) =
    (newest_of block rx ≤ cursor + c.max_block_lag)
    × IsWithinCap c (max cursor (newest_of block rx)) ms
IsWithinCap c cursor ms = Unit

module _ {ℓ κ} {Log : Type ℓ} {Error : Type κ} (transfer_logs weth9_logs : ℕ → List Log)
    (fetch_transfer fetch_weth9 : ℕ → ℕ → ℕ → Result Error (List Log))
    (faithful : IsFaithful transfer_logs fetch_transfer)
    (faithful' : IsFaithful weth9_logs fetch_weth9) where
  cursor_behind :
      (c : Config) (sound : IsSound c) (block : ℕ) (rx : List ℕ) (latest_head : ℕ)
      (d d' : Dispatcher Log)
      → newest_of block rx + c.backfill_chunk_blocks < u64_modulus
      → d.latest_processed_block ≢ 0
      → d.latest_processed_block < newest_of block rx
      → on_head fetch_transfer fetch_weth9 c block rx latest_head d ≡ some d'
      → d'.latest_processed_block ≡ newest_of block rx
  cursor_behind c sound block rx latest_head d d' b started ahead e =
      let r =
        on_head_catches_up fetch_transfer fetch_weth9 c sound block rx latest_head d b started
          ahead in
      ap (λ x. x.latest_processed_block) (some-injective (sym e ∙ r.1)) ∙ r.3

  -- A cycle that skips nothing.
  on_head-Delivered_all :
      (c : Config) (sound : IsSound c) (block : ℕ) (rx : List ℕ) (latest_head : ℕ)
      (d : Dispatcher Log)
      → newest_of block rx + c.backfill_chunk_blocks < u64_modulus
      → d.latest_processed_block ≢ 0
      → d.latest_processed_block < newest_of block rx
      → newest_of block rx ≤ d.latest_processed_block + c.max_block_lag
      → (d' : Dispatcher Log) × (on_head fetch_transfer fetch_weth9 c block rx latest_head d
          ≡ some d')
        × (d'.latest_processed_block ≡ newest_of block rx)
        × Delivered transfer_logs weth9_logs fetch_transfer fetch_weth9
            (d.latest_processed_block + 1)
            (newest_of block rx - d.latest_processed_block)
            d
            d'
  on_head-Delivered_all c sound block rx latest_head d b started ahead cap =
      let (d', e, all) =
        on_head-Delivered transfer_logs weth9_logs fetch_transfer fetch_weth9 faithful faithful' c
          sound block rx latest_head d b started ahead in
      (
        d',
        e,
        cursor_behind c sound block rx latest_head d d' b started ahead e,
        Delivered-range (omega arith) (omega arith) all,
      )

  -- For a run whose cursor has been set, over heads that leave room in 64 bits and of which none is
  -- further ahead of the cursor than the cap: the loop ends, and it has handed over the logs of the
  -- blocks from behind the first cursor to the last one, in block order and each block once, or else
  -- it has counted the block as missed, and then a fetch of this block alone has failed.
  pub run_loop-Delivered :
      (c : Config) (sound : IsSound c) (ms : List Message) (d : Dispatcher Log)
      → All (IsBounded c) ms
      → d.latest_processed_block ≢ 0
      → IsWithinCap c d.latest_processed_block ms
      → (d' : Dispatcher Log) × (run_loop fetch_transfer fetch_weth9 c ms d ≡ some d')
        × (d.latest_processed_block ≤ d'.latest_processed_block)
        × Delivered transfer_logs weth9_logs fetch_transfer fetch_weth9
            (d.latest_processed_block + 1)
            (d'.latest_processed_block - d.latest_processed_block)
            d
            d'
  unfolding run_loop
  run_loop-Delivered c sound [] d b started cap =
      (d, refl, omega arith, Delivered-range refl (omega arith) (Delivered-none _ d))
  run_loop-Delivered c sound (cancelled ∷ ms) d b started cap = (
    record d { is_active = false },
    refl,
    omega arith,
    Delivered-same _ refl refl refl (Delivered-range refl (omega arith) (Delivered-none _ d)),
  )
  run_loop-Delivered c sound (closed ∷ ms) d b started cap =
      (d, refl, omega arith, Delivered-range refl (omega arith) (Delivered-none _ d))
  run_loop-Delivered c sound (head block rx latest_head ∷ ms) d b started cap =
      elim (Bool-cases (leb (newest_of block rx) d.latest_processed_block)) [
        | inl behind ↦
            let stale =
              on_head_stale fetch_transfer fetch_weth9 c sound block rx latest_head d started
                (ground arith) in
            let same : max d.latest_processed_block (newest_of block rx)
                ≡ d.latest_processed_block =
              ground arith in
            rw stale (run_loop-Delivered c sound ms d b.1 started (rw same at cap.1))
        | inr before ↦
            let (d₁, e₁, cursor, first) =
              on_head-Delivered_all c sound block rx latest_head d b.0 started (ground arith)
                cap.0 in
            let there : max d.latest_processed_block (newest_of block rx)
                ≡ d₁.latest_processed_block =
              ground (arith, cursor) in
            let (d', e, up, later) =
              run_loop-Delivered c sound ms d₁ b.1 (λ zero_cursor. ground arith)
                (subst (λ n. IsWithinCap c n ms) there cap.1) in
            (
              d',
              rw e₁ e,
              ground arith,
              Delivered-range refl (ground arith)
                  (Delivered-append _ _ _ (ground arith) first later),
            )
      ]
