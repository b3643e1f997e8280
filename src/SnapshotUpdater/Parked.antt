-- ===== src/SnapshotUpdater/Parked.antt =====
-- `spawn_snapshot_updater` of src/services/snapshot_updater.rs: the loop that waits for the
-- connection of the block watcher, and refreshes the snapshot while it lasts.
use Prim.Native.String.{String}
use balances_watcher.Base.{
  ℕ, ◌≡◌, Bool, true, false, List, [], ◌∷◌, Option, some, nat_eq, if◌then◌else◌,
}
use balances_watcher.Base.Map.{lookup}
use balances_watcher.RefreshQueue.{BlockId}
use balances_watcher.Subscription.{Balance, Diff}
use balances_watcher.SnapshotUpdater.{FetchMessage}
use balances_watcher.SnapshotUpdater.Broadcast.{UpToDate, apply_events}
use balances_watcher.SnapshotUpdater.Interval.{
  IntervalMessage, Refresher, run_snapshot_update_by_interval,
  run_snapshot_update_by_interval-UpToDate,
}

-- What the `select!` yields while the watcher is not connected.
pub data WaitMessage : Type 0 where
  wait_cancelled : WaitMessage
  changed : WaitMessage
  change_failed : WaitMessage

-- What a round of the loop finds: whether the session is cancelled, whether the watcher is connected,
-- what the wait for that yields if not, and what the refresh loop is given then.
pub record Round : Type 0 where
  pub is_cancelled : Bool
  pub is_connected : Bool
  pub waited : WaitMessage
  pub messages : List IntervalMessage

-- Whether a round gets to the refresh loop.
unfoldable pub is_unblocked : Round → Bool
is_unblocked round =
    if round.is_cancelled
    then false
    else if round.is_connected
    then true
    else elim round.waited [ wait_cancelled ↦ false | change_failed ↦ false | changed ↦ true ]

module _ {ℓ} {RpcError : Type ℓ} (receivers : ℕ → Option ℕ) (to_string : ℕ → String)
    (fetch_balances_by_chunks : ℕ → ℕ → List ℕ → BlockId → List (FetchMessage RpcError))
    (owner : ℕ) where
  unfoldable pub spawn_snapshot_updater : List Round → Refresher → Refresher
  unfolding is_unblocked
  spawn_snapshot_updater [] r = r
  spawn_snapshot_updater (round ∷ rounds) r =
      if is_unblocked round
      then spawn_snapshot_updater rounds (
          run_snapshot_update_by_interval receivers to_string fetch_balances_by_chunks owner
            round.messages r)
      else r

  spawn_snapshot_updater-step :
      (proceed : Bool) (view : Diff) (r r' : Refresher)
      → UpToDate receivers to_string view r.sub
      → UpToDate receivers to_string view r'.sub
      → UpToDate receivers to_string view (if proceed then r' else r).sub
  spawn_snapshot_updater-step true view r r' old new = new
  spawn_snapshot_updater-step false view r r' old new = old

  -- If no other task touches the session, its snapshot updater keeps a client that takes every event
  -- up to date, however often the connection is lost and found, and whatever the RPC client answers:
  -- if the client had the text of every stored balance at first, it has it afterwards.
  pub spawn_snapshot_updater-UpToDate :
      (rounds : List Round) (view : Diff) (r : Refresher) (t : ℕ) (b : Balance)
      → UpToDate receivers to_string view r.sub
      → lookup t (spawn_snapshot_updater rounds r).sub.balances_snapshot ≡ some b
      → lookup t (apply_events (spawn_snapshot_updater rounds r).sub.sent view)
        ≡ some (to_string b.amount)
  unfolding spawn_snapshot_updater
  spawn_snapshot_updater-UpToDate [] view r t b agree = agree t b
  spawn_snapshot_updater-UpToDate (round ∷ rounds) view r t b agree =
      let r' : Refresher =
        run_snapshot_update_by_interval receivers to_string fetch_balances_by_chunks owner
          round.messages r in
      spawn_snapshot_updater-step (is_unblocked round) view r (spawn_snapshot_updater rounds r')
        agree
        (λ t b. spawn_snapshot_updater-UpToDate rounds view r' t b (λ t b.
          run_snapshot_update_by_interval-UpToDate receivers to_string fetch_balances_by_chunks
            owner round.messages view r t b agree))
        t b
