-- ===== src/SnapshotUpdater/Interval.antt =====
-- `run_snapshot_update_by_interval` of src/services/snapshot_updater.rs: the loop that refreshes the
-- snapshot on each tick and each signal while the block watcher is connected.
use Prim.Native.String.{String}
use balances_watcher.Base.{ℕ, ◌+◌, ◌≡◌, Bool, true, false, List, [], ◌∷◌, Option, some, nat_eq}
use balances_watcher.Base.Map.{lookup}
use balances_watcher.RefreshQueue.{BlockId, latest}
use balances_watcher.Subscription.{Balance, Diff, Subscription, clone_watched_tokens}
use balances_watcher.SnapshotUpdater.{FetchMessage, fetch_balances_and_broadcast}
use balances_watcher.SnapshotUpdater.Broadcast.{UpToDate, apply_events, fetch_loop-UpToDate}

-- What a round of the `select!` yields.
pub data IntervalMessage : Type 0 where
  stopped tick notified : IntervalMessage
  connection : Bool → IntervalMessage

pub record Refresher : Type 0 where
  pub sub : Subscription
  pub snapshot_updater_runs_total : ℕ
  -- the calls of `interval.reset`
  pub resets : ℕ

module _ {ℓ} {RpcError : Type ℓ} (receivers : ℕ → Option ℕ) (to_string : ℕ → String)
    (fetch_balances_by_chunks : ℕ → ℕ → List ℕ → BlockId → List (FetchMessage RpcError))
    (owner : ℕ) where
  -- A refresh; the answers of the RPC client may differ from run to run.
  unfoldable pub refresh_snapshot : Refresher → Refresher
  refresh_snapshot r = record r {
    sub =
        fetch_balances_and_broadcast receivers to_string
          (fetch_balances_by_chunks (r.snapshot_updater_runs_total + 1)) owner r.sub;
    snapshot_updater_runs_total = r.snapshot_updater_runs_total + 1;
  }

  unfoldable pub run_snapshot_update_by_interval : List IntervalMessage → Refresher → Refresher
  unfolding refresh_snapshot
  run_snapshot_update_by_interval [] r = r
  run_snapshot_update_by_interval (stopped ∷ ms) r = r
  run_snapshot_update_by_interval (connection false ∷ ms) r = r
  run_snapshot_update_by_interval (connection true ∷ ms) r = run_snapshot_update_by_interval ms r
  run_snapshot_update_by_interval (tick ∷ ms) r =
      run_snapshot_update_by_interval ms (refresh_snapshot r)
  run_snapshot_update_by_interval (notified ∷ ms) r =
      run_snapshot_update_by_interval ms (refresh_snapshot (record r { resets = r.resets + 1 }))

  refresh_snapshot-UpToDate :
      (view : Diff) (r : Refresher)
      → UpToDate receivers to_string view r.sub
      → UpToDate receivers to_string view (refresh_snapshot r).sub
  unfolding refresh_snapshot fetch_balances_and_broadcast
  refresh_snapshot-UpToDate view r agree t b =
      let ms : List (FetchMessage RpcError) =
        fetch_balances_by_chunks (r.snapshot_updater_runs_total + 1) owner
          (clone_watched_tokens r.sub) latest in
      fetch_loop-UpToDate receivers to_string ms view r.sub t b agree

  -- If no other task touches the session, any number of refreshes, for ticks and signals and with
  -- any answers of the RPC client, keeps a client that takes every event up to date: if it had the
  -- text of every stored balance, it has it afterwards.
  pub run_snapshot_update_by_interval-UpToDate :
      (ms : List IntervalMessage) (view : Diff) (r : Refresher) (t : ℕ) (b : Balance)
      → UpToDate receivers to_string view r.sub
      → lookup t (run_snapshot_update_by_interval ms r).sub.balances_snapshot ≡ some b
      → lookup t (apply_events (run_snapshot_update_by_interval ms r).sub.sent view)
        ≡ some (to_string b.amount)
  unfolding run_snapshot_update_by_interval
  run_snapshot_update_by_interval-UpToDate [] view r t b agree h = agree t b h
  run_snapshot_update_by_interval-UpToDate (stopped ∷ ms) view r t b agree h = agree t b h
  run_snapshot_update_by_interval-UpToDate (connection false ∷ ms) view r t b agree h = agree t b h
  run_snapshot_update_by_interval-UpToDate (connection true ∷ ms) view r t b agree h =
      run_snapshot_update_by_interval-UpToDate ms view r t b agree h
  run_snapshot_update_by_interval-UpToDate (tick ∷ ms) view r t b agree h =
      run_snapshot_update_by_interval-UpToDate ms view (refresh_snapshot r) t b
        (refresh_snapshot-UpToDate view r agree) h
  run_snapshot_update_by_interval-UpToDate (notified ∷ ms) view r t b agree h =
      let reset : Refresher = record r { resets = r.resets + 1 } in
      run_snapshot_update_by_interval-UpToDate ms view (refresh_snapshot reset) t b
        (refresh_snapshot-UpToDate view reset agree) h
