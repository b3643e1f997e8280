-- ===== src/Subscription/Examples.antt =====
-- The theorems on subscriptions, applied to a session with two tokens.
use Prim.Native.String.{String}
use balances_watcher.Base.{
  ℕ, ◌≡◌, refl, false, List, [], ◌∷◌, none, some, if◌then◌else◌, nat_beq, arith, nat_eq,
}
use balances_watcher.Base.Map.{lookup, insert, retain}
use balances_watcher.Base.Set.{contains, same, is_subset}
use balances_watcher.Subscription.{
  Subscription, Diff, set_watched_tokens, is_watched_token, update_balances_and_take_diff,
  update_balances, update_balance,
}
use balances_watcher.Subscription.Update.{
  newer, changed, text, stored_by, update_balances_and_take_diff_lem,
  update_balances_and_take_diff_comm,
}
use balances_watcher.Subscription.Watched.{update_revives_evicted}
use balances_watcher.Subscription.Replay.{
  apply_diff, snapshot_text, Change, updates, watches, follow, follow_all, replay-Agrees,
  late_broadcast,
}

abbrev to_text : ℕ → String
to_text n = if nat_beq n 0 then "0" else if nat_beq n 30 then "30" else "more"

abbrev session : Subscription
session = record {
  balances_snapshot =
      (1, record { amount = 10; block_number = 5 })
      ∷ (2, record { amount = 20; block_number = 8 })
      ∷ [];
  tokens = 1 ∷ 2 ∷ [];
  is_cancelled = false;
  refresh_signals = 0;
  sent = [];
  balance_updates_sent_total = 0;
}

abbrev events : List (Change to_text)
events = updates ((1, 30) ∷ (2, 0) ∷ [], 7) ∷ watches (1 ∷ []) ∷ []

abbrev after : Diff × Subscription
after = follow_all to_text events (snapshot_text to_text session.balances_snapshot, session)

stored_after : lookup 1 after.1.balances_snapshot ≡ some (record { amount = 30; block_number = 7 })
unfolding lookup insert retain contains same is_subset set_watched_tokens
    update_balances_and_take_diff update_balances update_balance follow follow_all apply_diff
stored_after = refl

replay-Agrees_example : lookup 1 after.0 ≡ some "30"
replay-Agrees_example =
    replay-Agrees to_text events session 1 (record { amount = 30; block_number = 7 }) stored_after

abbrev answered : List (ℕ × ℕ)
answered = (1, 30) ∷ []

update_balances_and_take_diff_lem_example :
    (lookup 1 (stored_by to_text (answered, 7) session)
      ≡ newer 7 (lookup 1 session.balances_snapshot) (lookup 1 answered))
    × (lookup 1 (update_balances_and_take_diff to_text (answered, 7) session).0
        ≡ text to_text (changed 7 (lookup 1 session.balances_snapshot) (lookup 1 answered)) none)
update_balances_and_take_diff_lem_example =
    update_balances_and_take_diff_lem to_text answered 7 1 session

update_balances_and_take_diff_comm_example :
    lookup 1 (
      stored_by to_text
        ((1, 40) ∷ [], 9)
        (update_balances_and_take_diff to_text ((1, 30) ∷ [], 7) session).1)
    ≡ lookup 1 (
        stored_by to_text
          ((1, 30) ∷ [], 7)
          (update_balances_and_take_diff to_text ((1, 40) ∷ [], 9) session).1)
update_balances_and_take_diff_comm_example =
    update_balances_and_take_diff_comm to_text ((1, 30) ∷ []) ((1, 40) ∷ []) 7 9 1 session
      (omega arith)

abbrev replaced : List ℕ
replaced = 1 ∷ 3 ∷ []

abbrev read : List (ℕ × ℕ)
read = (2, 21) ∷ []

differs : same session.tokens replaced ≡ false
unfolding same is_subset contains
differs = refl

evicted : contains 2 replaced ≡ false
unfolding contains
evicted = refl

was_read : lookup 2 read ≡ some 21
unfolding lookup
was_read = refl

update_revives_evicted_example :
    (is_watched_token 2
        (update_balances_and_take_diff to_text (read, 9) (set_watched_tokens replaced session).1).1
      ≡ false)
    × (lookup 2
          (update_balances_and_take_diff to_text
            (read, 9)
            (set_watched_tokens replaced session).1).1.balances_snapshot
        ≡ some (record { amount = 21; block_number = 9 }))
    × (lookup 2
          (update_balances_and_take_diff to_text
            (read, 9)
            (set_watched_tokens replaced session).1).0
        ≡ some "more")
update_revives_evicted_example =
    update_revives_evicted to_text replaced read 9 2 21 session differs evicted was_read

stored_first : lookup 1 session.balances_snapshot ≡ some (record { amount = 10; block_number = 5 })
unfolding lookup
stored_first = refl

abbrev first : Diff × Subscription
first = update_balances_and_take_diff to_text ((1, 30) ∷ [], 6) session

abbrev second : Diff × Subscription
second = update_balances_and_take_diff to_text ((1, 0) ∷ [], 7) first.1

late_broadcast_example :
    (lookup 1 second.1.balances_snapshot ≡ some (record { amount = 0; block_number = 7 }))
    × (lookup 1 (apply_diff first.0 (apply_diff second.0 [])) ≡ some "30")
    × (lookup 1 (apply_diff second.0 (apply_diff first.0 [])) ≡ some "0")
late_broadcast_example =
    late_broadcast to_text 1 30 0 6 7 (record { amount = 10; block_number = 5 }) [] session
      stored_first (omega arith) (omega arith) (omega arith) (omega arith)
