-- ===== src/SnapshotUpdater/Freshness.antt =====
-- How old the stored balances are that the queue receiver leaves.
use Prim.Native.String.{String}
use balances_watcher.Base.{
  ℕ, ◌≤◌, ◌≡◌, refl, sym, ap, ◌∙◌, not, List, [], ◌∷◌, Option, none, some, if◌then◌else◌, is_empty,
  length, ok, err, All, Memᴰ, nat_eq, arith, ltb, Bool-cases, inl, inr, some-injective, ◌⊎◌,
}
use mathlib.Core.Path.{subst}
use balances_watcher.Base.Map.{lookup}
use balances_watcher.Domain.Session.{balance_update}
use balances_watcher.Subscription.{
  Balance, Diff, BalancesWithBlock, Subscription, update_balances_and_take_diff,
}
use balances_watcher.Subscription.Update.{newer, update_balances_and_take_diff_lem}
use balances_watcher.SnapshotUpdater.{
  QueueMessage, queue_cancelled, closed, received, send_balance_update_event,
  update_balances_and_send_event, receive_loop,
}
use balances_watcher.SnapshotUpdater.Broadcast.{
  UpToDate, update-UpToDate, send_event_lem, Continues,
}

-- The stored balance of a token is from a block, or from a later one.
abbrev pub IsStoredSince : ℕ → ℕ → Subscription → Type 0
IsStoredSince t b s = (c : Balance) × (lookup t s.balances_snapshot ≡ some c) × (b ≤ c.block_number)

-- The newer of two is no older than either.
newer_cases :
    (b n : ℕ) (o : Balance) (a : ℕ)
    → (b ≤ o.block_number) ⊎ (b ≤ n)
    → (c : Balance) × (newer n (some o) (some a) ≡ some c) × (b ≤ c.block_number)
newer_cases b n o a h = elim (Bool-cases (ltb o.block_number n)) [
  | inl replaced ↦ (record { amount = a; block_number = n }, rw replaced refl, ground (arith, h))
  | inr stays ↦ (o, rw stays refl, ground (arith, h))
]

newer-keeps :
    (b n : ℕ) (old : Option Balance) (read : Option ℕ)
    → ((c : Balance) × (old ≡ some c) × (b ≤ c.block_number))
    → (c : Balance) × (newer n old read ≡ some c) × (b ≤ c.block_number)
newer-keeps b n none read (c, e, h) = cc
newer-keeps b n (some o) none (c, e, h) = (c, e, h)
newer-keeps b n (some o) (some a) (c, e, h) =
    let same : o ≡ c = some-injective e in
    newer_cases b n o a (inl (subst (λ x. b ≤ x.block_number) (sym same) h))

newer-read :
    (b n : ℕ) (old : Option Balance) (a : ℕ)
    → b ≤ n
    → (c : Balance) × (newer n old (some a) ≡ some c) × (b ≤ c.block_number)
newer-read b n none a h = (record { amount = a; block_number = n }, refl, h)
newer-read b n (some o) a h = newer_cases b n o a (inr h)

module _ (receivers : ℕ → Option ℕ) (to_string : ℕ → String) where
  abbrev applied : BalancesWithBlock → Subscription → Subscription
  applied = update_balances_and_send_event receivers to_string

  -- Sending an event leaves the balances alone.
  applied_stored :
      (u : BalancesWithBlock) (s : Subscription)
      → (applied u s).balances_snapshot
        ≡ (update_balances_and_take_diff to_string u s).1.balances_snapshot
  unfolding update_balances_and_send_event
  applied_stored u s =
      let (diff, s') = update_balances_and_take_diff to_string u s in stored diff s'
    where
      stored :
          (diff : Diff) (s' : Subscription)
          → (send_balance_update_event receivers
              (if not (is_empty diff) then some (balance_update diff) else none)
              s').balances_snapshot
            ≡ s'.balances_snapshot
      stored [] s' = refl
      stored (d ∷ diff) s' =
          (send_event_lem (receivers (length s'.sent)) (balance_update (d ∷ diff)) s').1

  applied-newer :
      (balances : List (ℕ × ℕ)) (n t : ℕ) (s : Subscription)
      → lookup t (applied (balances, n) s).balances_snapshot
        ≡ newer n (lookup t s.balances_snapshot) (lookup t balances)
  applied-newer balances n t s =
      ap (λ snapshot. lookup t snapshot) (applied_stored (balances, n) s)
      ∙ (update_balances_and_take_diff_lem to_string balances n t s).0

  applied-keeps :
      (t b : ℕ) (u : BalancesWithBlock) (s : Subscription)
      → IsStoredSince t b s
      → IsStoredSince t b (applied u s)
  applied-keeps t b (balances, n) s held =
      let (c, e, h) = newer-keeps b n (lookup t s.balances_snapshot) (lookup t balances) held in
      (c, applied-newer balances n t s ∙ e, h)

  applied-reads :
      (t b a : ℕ) (balances : List (ℕ × ℕ)) (n : ℕ) (s : Subscription)
      → lookup t balances ≡ some a
      → b ≤ n
      → IsStoredSince t b (applied (balances, n) s)
  applied-reads t b a balances n s read h =
      let (c, e, h') = newer-read b n (lookup t s.balances_snapshot) a h in
      (c, applied-newer balances n t s ∙ ap (newer n (lookup t s.balances_snapshot)) read ∙ e, h')

  module _ {ℓ} {RpcError : Type ℓ} where
    receive_loop-keeps :
        (ms : List (QueueMessage RpcError)) (t b : ℕ) (s : Subscription)
        → All (Continues receivers to_string) ms
        → IsStoredSince t b s
        → IsStoredSince t b (receive_loop receivers to_string ms s)
    unfolding receive_loop
    receive_loop-keeps [] t b s c held = held
    receive_loop-keeps (queue_cancelled ∷ ms) t b s c held = absurd c.0
    receive_loop-keeps (closed ∷ ms) t b s c held = receive_loop-keeps ms t b s c.1 held
    receive_loop-keeps (received (err e) ∷ ms) t b s c held = absurd c.0
    receive_loop-keeps (received (ok u) ∷ ms) t b s c held =
        receive_loop-keeps ms t b (applied u s) c.1 (applied-keeps t b u s held)

    -- While the queue gives no error, the receiver leaves every token that an answer has a balance of
    -- with a stored balance, from the answer's block or from a later one.
    pub receive_loop-IsStoredSince :
        (ms : List (QueueMessage RpcError)) (balances : List (ℕ × ℕ)) (t a n : ℕ) (s : Subscription)
        → All (Continues receivers to_string) ms
        → Memᴰ (received (ok (balances, n))) ms
        → lookup t balances ≡ some a
        → IsStoredSince t n (receive_loop receivers to_string ms s)
    unfolding receive_loop
    receive_loop-IsStoredSince [] balances t a n s c m read = elim m [ ]
    receive_loop-IsStoredSince (queue_cancelled ∷ ms) balances t a n s c m read = absurd c.0
    receive_loop-IsStoredSince (received (err e) ∷ ms) balances t a n s c m read = absurd c.0
    receive_loop-IsStoredSince (closed ∷ ms) balances t a n s c (Memᴰ.head e) read = cc
    receive_loop-IsStoredSince (closed ∷ ms) balances t a n s c (Memᴰ.tail m) read =
        receive_loop-IsStoredSince ms balances t a n s c.1 m read
    receive_loop-IsStoredSince (received (ok u) ∷ ms) balances t a n s c (Memᴰ.tail m) read =
        receive_loop-IsStoredSince ms balances t a n (applied u s) c.1 m read
    receive_loop-IsStoredSince (received (ok u) ∷ ms) balances t a n s c (Memᴰ.head e) read =
        receive_loop-keeps ms t n (applied u s) c.1 (
          subst (λ v. IsStoredSince t n (applied v s)) (same e)
            (applied-reads t n a balances n s read (omega arith)))
      where
        same :
            ◌≡◌ {A = QueueMessage RpcError} (received (ok (balances, n))) (received (ok u))
            → (balances, n) ≡ u
        same e = cc

    -- While the queue gives no error and no other task touches the session, a client that takes every
    -- event has the text of every stored balance, if it had it at first.
    pub receive_loop-UpToDate :
        (ms : List (QueueMessage RpcError)) (view : Diff) (s : Subscription)
        → All (Continues receivers to_string) ms
        → UpToDate receivers to_string view s
        → UpToDate receivers to_string view (receive_loop receivers to_string ms s)
    unfolding receive_loop
    receive_loop-UpToDate [] view s c agree = agree
    receive_loop-UpToDate (queue_cancelled ∷ ms) view s c agree = absurd c.0
    receive_loop-UpToDate (received (err e) ∷ ms) view s c agree = absurd c.0
    receive_loop-UpToDate (closed ∷ ms) view s c agree = receive_loop-UpToDate ms view s c.1 agree
    receive_loop-UpToDate (received (ok u) ∷ ms) view s c agree =
        receive_loop-UpToDate ms view (applied u s) c.1
          (update-UpToDate receivers to_string u view s agree)
