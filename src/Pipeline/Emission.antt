-- ===== src/Pipeline/Emission.antt =====
-- The logs that the dispatcher hands over, and the events that it sends for them.
use balances_watcher.Base.{
  ℕ, ◌+◌, ◌≤◌, ◌<◌, ◌≡◌, refl, sym, inl, inr, List, [], ◌∷◌, some, Result, arith, Memᴰ, mem_left,
  mem_right, nat_eq, nat_beq, nat_beq_iff, Bool-cases,
}
use mathlib.Core.Path.{subst}
use mathlib.Core.List.{append_assoc}
use balances_watcher.Dispatcher.Logs.{
  Log, Erc20TransferEvent, Outbox, send, on_erc20_log, on_erc20_logs, transfer_topics, send_each,
}
use balances_watcher.Dispatcher.Logs.Events.{transfer_events, on_erc20_log_cases}
use balances_watcher.Dispatcher.Bisect.Blocks.{HasFailed, Keeps, end, kept, dropped}

-- What was sent stays sent.
on_erc20_log-keeps :
    (from_word : ℕ → ℕ) (log : Log) (o : Outbox) (e : Erc20TransferEvent)
    → Memᴰ e o.sent
    → Memᴰ e (on_erc20_log from_word log o).sent
on_erc20_log-keeps from_word log o e m = elim (on_erc20_log_cases from_word log o) [
  | inl (other, same) ↦ rw same m
  | inr (topic0, from, to, shape, same) ↦ rw same (mem_left o.sent _ m)
]

on_erc20_logs-keeps :
    (from_word : ℕ → ℕ) (logs : List Log) (o : Outbox) (e : Erc20TransferEvent)
    → Memᴰ e o.sent
    → Memᴰ e (on_erc20_logs from_word logs o).sent
unfolding on_erc20_logs
on_erc20_logs-keeps from_word [] o e m = m
on_erc20_logs-keeps from_word (log ∷ logs) o e m =
    on_erc20_logs-keeps from_word logs (on_erc20_log from_word log o) e
      (on_erc20_log-keeps from_word log o e m)

-- The event of a transfer for one of its two parties.
abbrev pub IsEventOf : (ℕ → ℕ) → Log → Erc20TransferEvent → Type 0
IsEventOf from_word log e =
    (topic0 : ℕ) × (from : ℕ) × (to : ℕ) × (log.topics ≡ topic0 ∷ from ∷ to ∷ [])
    × Memᴰ e (transfer_events from_word log from to)

on_erc20_log-sends :
    (from_word : ℕ → ℕ) (log : Log) (o : Outbox) (e : Erc20TransferEvent)
    → IsEventOf from_word log e
    → Memᴰ e (on_erc20_log from_word log o).sent
unfolding on_erc20_log transfer_topics send_each send
on_erc20_log-sends from_word log o e (topic0, from, to, shape, m) =
    let topics : transfer_topics log.topics ≡ some (from, to) = rw shape refl in
    rw (topics, on_erc20_log) (rw append_assoc (mem_right o.sent _ m))

pub on_erc20_logs-sends :
    (from_word : ℕ → ℕ) (log : Log) (logs : List Log) (o : Outbox) (e : Erc20TransferEvent)
    → Memᴰ log logs
    → IsEventOf from_word log e
    → Memᴰ e (on_erc20_logs from_word logs o).sent
unfolding on_erc20_logs
on_erc20_logs-sends from_word log [] o e m of = elim m [ ]
on_erc20_logs-sends from_word log (x ∷ logs) o e (Memᴰ.head here) of =
    on_erc20_logs-keeps from_word logs _ e
      (on_erc20_log-sends from_word x o e (subst (λ l. IsEventOf from_word l e) here of))
on_erc20_logs-sends from_word log (x ∷ logs) o e (Memᴰ.tail m) of =
    on_erc20_logs-sends from_word log logs _ e m of

-- The logs of a block that is not lost are kept.
module _ {ℓ κ} {L : Type ℓ} {Error : Type κ} (logs_of : ℕ → List L)
    (fetch : ℕ → ℕ → ℕ → Result Error (List L)) where
  pub Keeps-mem :
      (n : ℕ) (log : L)
      → ¬ HasFailed logs_of fetch n
      → Memᴰ log (logs_of n)
      → {from width lost : ℕ} {ls : List L} → from ≤ n
      → n < from + width
      → Keeps logs_of fetch from width ls lost
      → Memᴰ log ls
  Keeps-mem n log fine m h h' end = absurd (omega arith)
  Keeps-mem n log fine m {from} h h' (kept {ls = ls} k) = elim (Bool-cases (nat_beq from n)) [
    | inl here ↦
        mem_left (logs_of from) ls
          (subst (λ b. Memᴰ log (logs_of b)) (sym ((nat_beq_iff from n).0 here)) m)
    | inr behind ↦
        mem_right (logs_of from) ls (Keeps-mem n log fine m (ground arith) (ground arith) k)
  ]
  Keeps-mem n log fine m {from} h h' (dropped failed k) = elim (Bool-cases (nat_beq from n)) [
    | inl here ↦
        absurd (fine (subst (HasFailed logs_of fetch) ((nat_beq_iff from n).0 here) failed))
    | inr behind ↦ Keeps-mem n log fine m (ground arith) (ground arith) k
  ]
