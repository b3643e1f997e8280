-- ===== src/Subscription.antt =====
-- src/services/subscription.rs. The methods that hold a lock to their end are one step each. The
-- channels of tokio are not modelled: an event that is handed to the broadcast sender is recorded
-- in `sent`, and the sender's answer (the number of receivers, or none for an error) is an argument.
-- The text of a balance, `U256::to_string`, is a parameter.
pub mod Update
pub mod Watched
pub mod Replay
mod Examples
use Prim.Native.String.{String}
use balances_watcher.Base.{
  ℕ, ◌+◌, Bool, true, false, not, List, [], ◌∷◌, ◌++◌, Option, none, some, ltb, if◌then◌else◌, ◌==◌,
  nat_eq, is_empty,
}
use balances_watcher.Base.Map.{lookup, insert, retain}
use balances_watcher.Base.Set.{contains, same}
use balances_watcher.Domain.Session.{BalanceEvent}

pub record Balance : Type 0 where
  pub amount : ℕ
  pub block_number : ℕ

abbrev pub BalanceSnapshot : Type 0
BalanceSnapshot = List (ℕ × Balance)

-- What a client is sent: the new text of each balance that changed.
abbrev pub Diff : Type 0
Diff = List (ℕ × String)

-- `(HashMap<Address, U256>, BlockNumber)` of rpc_client.rs.
abbrev pub BalancesWithBlock : Type 0
BalancesWithBlock = List (ℕ × ℕ) × ℕ

pub record Subscription : Type 0 where
  pub balances_snapshot : BalanceSnapshot
  pub tokens : List ℕ
  pub is_cancelled : Bool
  -- the calls of `notify_one`, the events handed to the sender, and the metric of sent events
  pub refresh_signals : ℕ
  pub sent : List BalanceEvent
  pub balance_updates_sent_total : ℕ

unfoldable pub new : List ℕ → Subscription
new tokens = record {
  balances_snapshot = [];
  tokens = tokens;
  is_cancelled = false;
  refresh_signals = 0;
  sent = [];
  balance_updates_sent_total = 0;
}

unfoldable pub emit_balance_snapshot_refresh : Subscription → Subscription
emit_balance_snapshot_refresh s = record s { refresh_signals = s.refresh_signals + 1 }

-- `cancellable().cancel()`.
unfoldable pub cancel : Subscription → Subscription
cancel s = record s { is_cancelled = true }

unfoldable pub clone_watched_tokens : Subscription → List ℕ
clone_watched_tokens s = s.tokens

unfoldable pub set_watched_tokens : List ℕ → Subscription → Bool × Subscription
set_watched_tokens new_tokens s = if same s.tokens new_tokens then (false, s) else (
  true,
  record s {
    tokens = new_tokens;
    balances_snapshot = retain (λ token _. contains token new_tokens) s.balances_snapshot;
  },
)

unfoldable pub send_event : Option ℕ → BalanceEvent → Subscription → Subscription
send_event none event s = record s { sent = s.sent ++ event ∷ [] }
send_event (some receivers) event s = record s {
  sent = s.sent ++ event ∷ [];
  balance_updates_sent_total = s.balance_updates_sent_total + 1;
}

unfoldable pub is_watched_token : ℕ → Subscription → Bool
is_watched_token address s = contains address s.tokens

module _ (to_string : ℕ → String) where
  -- One round of the loop over the new balances.
  unfoldable pub update_balance : ℕ → ℕ → ℕ → BalanceSnapshot × Diff → BalanceSnapshot × Diff
  update_balance block_number token new_balance (snapshot, diff) = elim (lookup token snapshot) [
    | some current ↦
        if ltb current.block_number block_number
        then (
          insert token fresh snapshot,
          (if not (current.amount == new_balance)
              then insert token (to_string new_balance) diff
              else diff),
        )
        else (snapshot, diff)
    | none ↦ (insert token fresh snapshot, insert token (to_string new_balance) diff)
  ]
    where
      fresh : Balance
      fresh = record { amount = new_balance; block_number = block_number }

  unfoldable pub update_balances :
      ℕ → List (ℕ × ℕ) → BalanceSnapshot × Diff → BalanceSnapshot × Diff
  unfolding update_balance
  update_balances block_number [] acc = acc
  update_balances block_number ((token, balance) ∷ new_balances) acc =
      update_balances block_number new_balances (update_balance block_number token balance acc)

  unfoldable pub update_balances_and_take_diff :
      BalancesWithBlock → Subscription → Diff × Subscription
  unfolding update_balances
  update_balances_and_take_diff (new_balances, block_number) s =
      let (snapshot, diff) = update_balances block_number new_balances (s.balances_snapshot, []) in
      if is_empty new_balances then ([], s) else (diff, record s { balances_snapshot = snapshot })

unfoldable pub current_snapshot : Subscription → BalanceSnapshot
current_snapshot s = s.balances_snapshot
