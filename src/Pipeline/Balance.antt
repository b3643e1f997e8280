-- ===== src/Pipeline/Balance.antt =====
-- What a client is shown of a transfer, in a session whose refresh queue answers without an error.
use Prim.Native.String.{String}
use balances_watcher.Base.{
  ℕ, ◌≤◌, ◌≡◌, ap, Bool, List, [], ◌∷◌, Option, some, Result, ok, err, All, Memᴰ, nat_eq, map,
  arith,
}
use mathlib.Core.Path.{subst}
use balances_watcher.Base.Map.{lookup}
use balances_watcher.RefreshQueue.{BlockId}
use balances_watcher.RefreshQueue.Worker.{IsCurrent, IsServed}
use balances_watcher.Subscription.{Balance, Diff, BalancesWithBlock, Subscription}
use balances_watcher.SnapshotUpdater.{QueueMessage, received, receive_loop}
use balances_watcher.SnapshotUpdater.Broadcast.{UpToDate, apply_events, Continues}
use balances_watcher.SnapshotUpdater.Freshness.{receive_loop-IsStoredSince, receive_loop-UpToDate}

-- What the receiver of a queue gets of the worker's answers.
abbrev pub messages_of {ℓ} :
    {RpcError : Type ℓ} → List (Result RpcError BalancesWithBlock) → List (QueueMessage RpcError)
messages_of answers = map received answers

abbrev pub IsOk {ℓ} : {RpcError : Type ℓ} → Result RpcError BalancesWithBlock → Type 0
IsOk (ok balances) = Unit {0}
IsOk (err e) = ⊥

-- What the client has of a token: the text of an amount that is stored, from block `b` or later.
abbrev pub Shows : (ℕ → String) → ℕ → ℕ → Diff → Subscription → Type 0
Shows to_string token b view s =
    (c : Balance) × (lookup token s.balances_snapshot ≡ some c)
    × (b ≤ c.block_number)
    × (lookup token (apply_events s.sent view) ≡ some (to_string c.amount))

module _ {ℓ} {RpcError : Type ℓ} (receivers : ℕ → Option ℕ) (to_string : ℕ → String) where
  all_continue :
      (answers : List (Result RpcError BalancesWithBlock))
      → All IsOk answers
      → All (Continues receivers to_string) (messages_of answers)
  all_continue [] h = tt
  all_continue (ok u ∷ answers) h = (tt, all_continue answers h.1)
  all_continue (err e ∷ answers) h = absurd h.0

  message_of :
      (answers : List (Result RpcError BalancesWithBlock))
      (answer : Result RpcError BalancesWithBlock)
      → Memᴰ answer answers
      → Memᴰ (received answer) (messages_of answers)
  message_of [] answer m = elim m [ ]
  message_of (x ∷ answers) answer (Memᴰ.head e) = Memᴰ.head (ap received e)
  message_of (x ∷ answers) answer (Memᴰ.tail m) = Memᴰ.tail (message_of answers answer m)

  All-mem :
      (answers : List (Result RpcError BalancesWithBlock))
      (answer : Result RpcError BalancesWithBlock)
      → All IsOk answers
      → Memᴰ answer answers
      → (u : BalancesWithBlock) × (answer ≡ ok u)
  All-mem [] answer h m = elim m [ ]
  All-mem (ok u ∷ answers) answer h (Memᴰ.head e) = (u, e)
  All-mem (err f ∷ answers) answer h (Memᴰ.head e) = absurd h.0
  All-mem (x ∷ answers) answer h (Memᴰ.tail m) = All-mem answers answer h.1 m

  -- The answer to a multicall that reads a token, at the latest block or at one not older than `b`,
  -- has a balance of the token, from a block not older than `b`.
  abbrev pub Answers :
      (ℕ → ℕ → List ℕ → BlockId → Result RpcError BalancesWithBlock) → ℕ → ℕ → Type ℓ
  Answers fetch_balances_via_multicall token b =
      (round owner : ℕ) (tokens : List ℕ) (block_id : BlockId) (balances : List (ℕ × ℕ)) (n : ℕ)
      → Memᴰ token tokens
      → IsCurrent (some b) block_id
      → fetch_balances_via_multicall round owner tokens block_id ≡ ok (balances, n)
      → (a : ℕ) × (lookup token balances ≡ some a) × (b ≤ n)

  pub IsServed-Shows :
      (fetch_balances_via_multicall : ℕ → ℕ → List ℕ → BlockId → Result RpcError BalancesWithBlock)
      (is_received : ℕ → Bool) (owner token b : ℕ)
      → Answers fetch_balances_via_multicall token b
      → (answers : List (Result RpcError BalancesWithBlock)) → All IsOk answers
      → (view : Diff) (s : Subscription) → UpToDate receivers to_string view s
      → IsServed fetch_balances_via_multicall is_received owner (token, some b) answers
      → Shows to_string token b view (receive_loop receivers to_string (messages_of answers) s)
  IsServed-Shows fetch is_received owner token b law answers fine view s agree (call, m) =
      let ((balances, n), read) = All-mem answers _ fine m in
      let (a, found, fresh) =
        law call.round owner call.tokens call.block_id balances n call.reads call.current read in
      let continue = all_continue answers fine in
      let there =
        subst (λ x. Memᴰ (received x) (messages_of answers)) read (message_of answers _ m) in
      let (c, stored, since) =
        receive_loop-IsStoredSince receivers to_string (messages_of answers) balances token a n s
          continue there found in
      (
        c,
        stored,
        omega (arith, fresh, since),
        receive_loop-UpToDate receivers to_string (messages_of answers) view s continue agree token
            c stored,
      )
