-- ===== src/SnapshotUpdater/Examples.antt =====
-- The theorems on the two tasks, applied to a short run.
use Prim.Native.String.{String}
use balances_watcher.Base.{
  ℕ, ◌≡◌, refl, Bool, true, false, List, [], ◌∷◌, ◌++◌, Option, none, some, ok, err, if◌then◌else◌,
  nat_beq, nat_eq,
}
use balances_watcher.Base.Map.{lookup, insert}
use balances_watcher.Domain.Session.{error}
use balances_watcher.Subscription.{clone_watched_tokens}
use balances_watcher.Subscription.{
  Subscription, new, send_event, update_balances_and_take_diff, update_balances, update_balance,
}
use balances_watcher.SnapshotUpdater.{
  FetchMessage, fetched, QueueMessage, closed, received, fetch_loop, receive_loop,
  send_balance_update_event, update_balances_and_send_event,
}
use balances_watcher.RefreshQueue.{BlockId}
use balances_watcher.SnapshotUpdater.{fetch_balances_and_broadcast}
use balances_watcher.SnapshotUpdater.Interval.{
  IntervalMessage, stopped, tick, notified, connection, Refresher, refresh_snapshot,
  run_snapshot_update_by_interval,
}
use balances_watcher.SnapshotUpdater.Parked.{
  Round, changed, wait_cancelled, is_unblocked, spawn_snapshot_updater,
  spawn_snapshot_updater-UpToDate,
}
use balances_watcher.SnapshotUpdater.Broadcast.{UpToDate, apply_events, receive_loop-error}

abbrev digits : ℕ → String
digits n = if nat_beq n 30 then "30" else "more"

-- The first event finds a client, the later ones do not.
abbrev answers : ℕ → Option ℕ
answers n = if nat_beq n 0 then some 1 else none

abbrev fresh_session : Subscription
fresh_session = new (1 ∷ 2 ∷ [])

abbrev chunks : List (FetchMessage Bool)
chunks = fetched (ok ((1, 30) ∷ [], 7)) ∷ fetched (err true) ∷ []

abbrev fetched_session : Subscription
fetched_session = fetch_loop answers digits chunks fresh_session

fresh-UpToDate : UpToDate answers digits [] fresh_session
unfolding new lookup
fresh-UpToDate t b h = cc

fetched_balance :
    lookup 1 fetched_session.balances_snapshot ≡ some (record { amount = 30; block_number = 7 })
unfolding new lookup insert send_event update_balances_and_take_diff update_balances update_balance
    send_balance_update_event update_balances_and_send_event fetch_loop
fetched_balance = refl

abbrev results : List (QueueMessage Bool)
results = received (ok ((1, 30) ∷ [], 7)) ∷ closed ∷ []

abbrev ignored : List (QueueMessage Bool)
ignored = received (ok ((2, 5) ∷ [], 9)) ∷ []

receive_loop-error_example :
    ((receive_loop answers digits
        (results ++ received (err true) ∷ ignored)
        fresh_session).is_cancelled
      ≡ true)
    × ((receive_loop answers digits (results ++ received (err true) ∷ ignored) fresh_session).sent
        ≡ (receive_loop answers digits results fresh_session).sent
          ++ error 503 "RPC provider connection lost permanently" ∷ [])
    × ((receive_loop answers digits
          (results ++ received (err true) ∷ ignored)
          fresh_session).balances_snapshot
        ≡ (receive_loop answers digits results fresh_session).balances_snapshot)
receive_loop-error_example =
    receive_loop-error answers digits results ignored true fresh_session (tt, (tt, tt))

-- Every refresh reads the same two chunks.
abbrev fetch_chunks : ℕ → ℕ → List ℕ → BlockId → List (FetchMessage Bool)
fetch_chunks run owner tokens block = chunks

abbrev refresher : Refresher
refresher = record { sub = fresh_session; snapshot_updater_runs_total = 0; resets = 0 }

abbrev messages : List IntervalMessage
messages = tick ∷ connection true ∷ notified ∷ connection false ∷ tick ∷ []

-- The watcher connects, is lost, and is there again until the session is cancelled.
abbrev rounds : List Round
rounds =
    record { is_cancelled = false; is_connected = false; waited = changed; messages = messages }
    ∷ record {
      is_cancelled = false;
      is_connected = true;
      waited = wait_cancelled;
      messages = notified ∷ stopped ∷ [];
    }
    ∷ record { is_cancelled = true; is_connected = true; waited = changed; messages = messages }
    ∷ []

abbrev refreshed : Refresher
refreshed = spawn_snapshot_updater answers digits fetch_chunks 4 rounds refresher

refreshed_runs : refreshed.snapshot_updater_runs_total ≡ 3
unfolding refresh_snapshot run_snapshot_update_by_interval spawn_snapshot_updater is_unblocked
refreshed_runs = refl

refreshed_balance :
    lookup 1 refreshed.sub.balances_snapshot ≡ some (record { amount = 30; block_number = 7 })
unfolding new lookup insert send_event update_balances_and_take_diff update_balances update_balance
    send_balance_update_event update_balances_and_send_event fetch_loop fetch_balances_and_broadcast
    refresh_snapshot run_snapshot_update_by_interval clone_watched_tokens spawn_snapshot_updater
    is_unblocked
refreshed_balance = refl

spawn_snapshot_updater-UpToDate_example : lookup 1 (apply_events refreshed.sub.sent []) ≡ some "30"
spawn_snapshot_updater-UpToDate_example =
    spawn_snapshot_updater-UpToDate answers digits fetch_chunks 4 rounds [] refresher 1
      (record { amount = 30; block_number = 7 }) fresh-UpToDate refreshed_balance
