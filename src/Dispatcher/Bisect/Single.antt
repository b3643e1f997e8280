-- ===== src/Dispatcher/Bisect/Single.antt =====
-- A provider that answers single blocks only, which the witnesses use.
use balances_watcher.Base.{
  ℕ, ◌+◌, ◌-◌, ◌≡◌, sym, Bool, true, List, Result, ok, err, nat_beq, nat_beq_iff, if◌then◌else◌,
  Bool-cases, inl, inr, arith,
}
use mathlib.Core.List.{append-nil}
use balances_watcher.Dispatcher.Bisect.Blocks.{IsFaithful}

module _ {ℓ} {Log : Type ℓ} where
  abbrev pub single : (ℕ → List Log) → ℕ → ℕ → ℕ → Result Bool (List Log)
  single logs_of call from to = if nat_beq from to then ok (logs_of from) else err true

  pub single-IsFaithful : (logs_of : ℕ → List Log) → IsFaithful logs_of (single logs_of)
  single-IsFaithful logs_of call from to ls h e = elim (Bool-cases (nat_beq from to)) [
    | inr many ↦ absurd (refused (rw many at e))
    | inl alone ↦
        let one : to + 1 - from ≡ 1 = omega (arith, (nat_beq_iff from to).0 alone) in
        rw (one, append-nil) (sym (logs (rw alone at e)))
  ]
    where
      refused : ◌≡◌ {A = Result Bool (List Log)} (err true) (ok ls) → ⊥
      refused q = cc

      logs : ◌≡◌ {A = Result Bool (List Log)} (ok (logs_of from)) (ok ls) → logs_of from ≡ ls
      logs q = cc
