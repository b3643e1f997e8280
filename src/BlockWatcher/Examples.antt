-- ===== src/BlockWatcher/Examples.antt =====
-- The theorems on the block watcher, applied to a timeout and to two subscriptions.
use balances_watcher.Base.{ℕ, ◌≡◌, refl, Bool, true, false, List, [], ◌∷◌, ok, err, arith}
use balances_watcher.BlockWatcher.{
  BlockWatcher, taken, full, terminated, header, timed_out, Attempt, subscribed, cancelled_before,
  run,
}
use balances_watcher.BlockWatcher.Connection.{Accounted, LosesAtMost, lost_in, run_disconnected}

abbrev watcher : ℕ → BlockWatcher
watcher block = record {
  connected = false;
  latest_block = block;
  on_connect = false;
  forwarded = [];
  block_accepted_total = 0;
  block_channel_overflow_total = 0;
  ws_provider_disconnected_total = 0;
}

abbrev attempts : List (Attempt Bool)
attempts =
    subscribed (header 101 taken ∷ timed_out (ok 101) ∷ terminated ∷ []) false
    ∷ subscribed (header 102 full ∷ timed_out (err true) ∷ []) false
    ∷ cancelled_before
    ∷ []

run_disconnected_example :
    ((run attempts (watcher 0)).connected ≡ false)
    × ((run attempts (watcher 0)).on_connect ≡ false)
    × Accounted (run attempts (watcher 0))
    × LosesAtMost (lost_in attempts) (watcher 0) (run attempts (watcher 0))
run_disconnected_example = run_disconnected attempts (watcher 0) refl refl (omega arith)
