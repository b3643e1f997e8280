-- ===== src/SubscriptionManager/Reachable.antt =====
-- What holds of the registry after any steps.
use balances_watcher.Base.{ℕ, ◌+◌, ◌≤◌, ◌≡◌, [], nat_eq, arith, length}
use balances_watcher.Domain.Session.{session_eq}
use balances_watcher.SubscriptionManager.{empty, max_clients_per_owner, existing_for_owner}
use balances_watcher.SubscriptionManager.Invariant.{existing_for_owner-sum}
use balances_watcher.SubscriptionManager.Interleaving.{
  World, Reach, here, next, WorldInv, Step-WorldInv,
}

abbrev pub start : World
start = record { manager = empty; pending = [] }

pub start-WorldInv : WorldInv start
unfolding empty
start-WorldInv = record {
  distinct = tt;
  capped = λ owner. omega arith;
  marked = tt;
  active = omega arith;
}

pub Reach-WorldInv : {w : World} → Reach start w → WorldInv w
Reach-WorldInv here = start-WorldInv
Reach-WorldInv (next r st) = Step-WorldInv st (Reach-WorldInv r)

-- After any steps from the empty registry, in any order, no owner ever has more sessions than the
-- limit.
pub Reach-capped :
    {w : World} (owner : ℕ)
    → Reach start w
    → existing_for_owner owner w.manager.subscriptions ≤ max_clients_per_owner
Reach-capped {w} owner r =
    omega
      (arith, (Reach-WorldInv r).capped owner, existing_for_owner-sum owner w.manager.subscriptions)

-- After any steps from the empty registry, if every `upsert` that has decided has also acted, the
-- gauge of active sessions is the number of sessions in the registry.
pub Reach-active :
    {w : World}
    → w.pending ≡ []
    → Reach start w
    → w.manager.metrics.active_sessions.ups
      ≡ w.manager.metrics.active_sessions.downs + length w.manager.subscriptions
Reach-active {w} settled r = omega (arith, (rw settled at (Reach-WorldInv r)).active)
