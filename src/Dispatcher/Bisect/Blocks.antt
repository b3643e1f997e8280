-- ===== src/Dispatcher/Bisect/Blocks.antt =====
-- What a bisected fetch hands on, block by block.
use balances_watcher.Base.{
  ℕ, zero, suc, ◌+◌, ◌-◌, ◌*◌, ◌≤◌, ◌<◌, ◌≡◌, ap, List, [], ◌∷◌, ◌++◌, some, Result, ok, err, arith,
  length,
}
use balances_watcher.Base.Word.{u64_modulus}
use balances_watcher.Dispatcher.Bisect.{Progress, start, fetch_range_with_bisect}
use balances_watcher.Dispatcher.Bisect.Resolution.{
  Resolves, whole, lost, split, ResolvesAll, next_range, none_left, bisect_loop-Done,
}
use native.Mathlib.Nat.{zero-add, suc-add, add-zero}
use mathlib.Core.List.{append-nil, append_assoc}

module _ {ℓ κ} {Log : Type ℓ} {Error : Type κ} (logs_of : ℕ → List Log)
    (fetch : ℕ → ℕ → ℕ → Result Error (List Log)) where
  -- The logs of `width` blocks from `from` on.
  abbrev pub logs_in : ℕ → ℕ → List Log
  logs_in from zero = []
  logs_in from (suc width) = logs_of from ++ logs_in (from + 1) width

  -- A provider that answers a range answers with all of its logs, in block order.
  abbrev pub IsFaithful : Type (ℓ ⊔ κ)
  IsFaithful =
      (call from to : ℕ) (ls : List Log)
      → from ≤ to
      → fetch call from to ≡ ok ls
      → ls ≡ logs_in from (to + 1 - from)

  -- A block is lost only if a fetch of this block alone has failed.
  abbrev pub HasFailed : ℕ → Type (ℓ ⊔ κ)
  HasFailed block = (call : ℕ) × (e : Error) × (fetch call block block ≡ err e)

  -- The logs of `width` blocks from `from` on, in block order, without those of `n` lost blocks.
  pub data Keeps : ℕ → ℕ → List Log → ℕ → Type (ℓ ⊔ κ) where
    end : {from : ℕ} → Keeps from 0 [] 0
    kept :
        {from width n : ℕ} {ls : List Log}
        → Keeps (from + 1) width ls n
        → Keeps from (suc width) (logs_of from ++ ls) n
    dropped :
        {from width n : ℕ} {ls : List Log}
        → HasFailed from
        → Keeps (from + 1) width ls n
        → Keeps from (suc width) ls (suc n)

  Keeps-all : (from width : ℕ) → Keeps from width (logs_in from width) 0
  Keeps-all from zero = end
  Keeps-all from (suc width) = kept (Keeps-all (from + 1) width)

  pub Keeps-append :
      (from mid width : ℕ) {width' m n : ℕ} {front back : List Log}
      → from + width ≡ mid
      → Keeps from width front m
      → Keeps mid width' back n
      → Keeps from (width + width') (front ++ back) (m + n)
  Keeps-append from mid width e end k =
      let here : from ≡ mid = omega arith in rw (zero-add, zero-add, here) k
  Keeps-append from mid (suc width) e (kept {ls = ls} r) k =
      rw (suc-add, append_assoc (logs_of from) ls)
        (kept (Keeps-append (from + 1) mid width (omega arith) r k))
  Keeps-append from mid (suc width) e (dropped f r) k =
      rw (suc-add, suc-add) (dropped f (Keeps-append (from + 1) mid width (omega arith) r k))

  Resolves-Keeps :
      IsFaithful
      → {from to : ℕ} {ls : List Log} {n : ℕ} → from ≤ to
      → Resolves fetch from to ls n
      → Keeps from (to + 1 - from) ls n
  Resolves-Keeps faithful {from} {to} h (whole call {ls} e) =
      rw (faithful call from to ls h e) (Keeps-all from (to + 1 - from))
  Resolves-Keeps faithful {from} {to} h (lost call {e} same failed) =
      let one : to + 1 - from ≡ 1 = omega arith in
      rw one (dropped (call, e, rw (← same) at failed) end)
  Resolves-Keeps faithful {from} {to} h (split mid call failed low high front back) =
      let sum : to + 1 - from ≡ mid + 1 - from + (to + 1 - (mid + 1)) = omega arith in
      rw sum (
        Keeps-append from (mid + 1) (mid + 1 - from) (omega arith)
          (Resolves-Keeps faithful (omega arith) front)
          (Resolves-Keeps faithful (omega arith) back))

  Resolves-single :
      {from to : ℕ} {ls : List Log} {n : ℕ}
      → ResolvesAll fetch ((from, to) ∷ []) ls n
      → Resolves fetch from to ls n
  Resolves-single (next_range {front = ls} {m = m} r none_left) = rw (append-nil, add-zero) r

  -- For a range of `u64` block numbers and a provider that answers a range only with all of its
  -- logs, the fetch ends within two rounds for each block. It hands on the logs of every block of
  -- the range in block order, except those of the lost blocks, each of which failed when it was
  -- fetched alone; and the two counters that it returns are those of the logs and of these blocks.
  pub fetch_range_with_bisect-Keeps :
      (from to fuel : ℕ)
      → IsFaithful
      → from ≤ to
      → to < u64_modulus
      → 2 * (to + 1 - from) ≤ fuel
      → (q : Progress Log) × (fetch_range_with_bisect fetch fuel from to ≡ some q)
        × Keeps from (to + 1 - from) q.handled q.lost_blocks
        × (q.handled_logs ≡ length q.handled)
  unfolding fetch_range_with_bisect
  fetch_range_with_bisect-Keeps from to fuel faithful h b f =
      let (q, found, d) =
        bisect_loop-Done fetch fuel 0 ((from, to) ∷ []) start ((h, b), tt) (omega arith) in
      let keeps = Resolves-Keeps faithful h (Resolves-single d.resolved) in
      (
        q,
        found,
        rw (d.handled_eq, d.lost_eq, zero-add) keeps,
        omega (arith, d.count_eq, ap length d.handled_eq),
      )
