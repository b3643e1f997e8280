-- ===== src/SubscriptionManager/Examples.antt =====
-- The theorems on the registry, applied to a run in which one wallet opens two sessions.
use balances_watcher.Base.{
  none, some, true, false, nat_eq, ◌⊎◌, ℕ, ◌+◌, ◌≤◌, ◌≡◌, refl, [], ◌∷◌, length,
}
use balances_watcher.Base.{Memᴰ}
use balances_watcher.Base.Word.{saturating_add_u32}
use balances_watcher.Base.Map.{lookup, insert}
use balances_watcher.Base.Map.Laws.{Distinct}
use balances_watcher.Domain.Network.{gnosis, chain_id}
use balances_watcher.Domain.Session.{Session, session_eq, session_beq}
use balances_watcher.SubscriptionManager.{
  existing_for_owner, max_clients_per_owner, decide, act, subscribe, unsubscribe, upsert, Manager,
  SubWithCounter, create_session_locked, empty, replace_watched_tokens,
}
use balances_watcher.SubscriptionManager.Interleaving.{
  World, decides, acts, subscribes, unsubscribes, cleans, Reach, here, next,
}
use balances_watcher.Subscription.{Subscription, new, cancel, send_event}
use balances_watcher.SubscriptionManager.Shutdown.{closing, close_sse_connections-sent}
use balances_watcher.SubscriptionManager.Cleanup.{
  cleanup_subs, should_remove, close_sse_connections,
}
use balances_watcher.SubscriptionManager.Upsert.{upsert_cases}
use balances_watcher.SubscriptionManager.Upsert.Effects.{
  IsUpdated, IsRegistered, IsCreated, IsRefused,
}
use balances_watcher.SubscriptionManager.{owner_client_limit_exceeded}
use balances_watcher.Base.{err, ◌<◌}
use balances_watcher.Base.{Option, arith}
use balances_watcher.SubscriptionManager.Leaks.{Reach-no_leak}
use balances_watcher.SubscriptionManager.Numbers.{ids}
use balances_watcher.SubscriptionManager.Ticks.{spawn_cleanup, every, spawn_cleanup-removes}
use balances_watcher.SubscriptionManager.Expiry.{IsExpired, IsCancelled, cleanup_subs_cases}
use balances_watcher.SubscriptionManager.Reachable.{start, Reach-capped, Reach-active}

abbrev wallet : ℕ → Session
wallet id = record { owner = 7; network = gnosis; client_id = id }

-- The first `upsert` decides.
abbrev decided : World
decided = record {
  manager = (decide (wallet 1) (3 ∷ []) 100 start.manager).1;
  pending = (3 ∷ [], (decide (wallet 1) (3 ∷ []) 100 start.manager).0) ∷ [];
}

-- The second one decides before the first has acted.
abbrev both_decided : World
both_decided = record {
  manager = (decide (wallet 2) (4 ∷ []) 110 decided.manager).1;
  pending = (4 ∷ [], (decide (wallet 2) (4 ∷ []) 110 decided.manager).0) ∷ decided.pending;
}

abbrev second_acted : World
second_acted = record {
  manager =
      (act (4 ∷ []) (decide (wallet 2) (4 ∷ []) 110 decided.manager).0 both_decided.manager).1;
  pending = decided.pending;
}

abbrev settled : World
settled = record {
  manager = (act (3 ∷ []) (decide (wallet 1) (3 ∷ []) 100 start.manager).0 second_acted.manager).1;
  pending = [];
}

abbrev connected : World
connected = record settled { manager = (subscribe (wallet 1) settled.manager).1 }

reached_connected : Reach start connected
reached_connected =
    next
      (next
        (next (next (next here (decides (wallet 1) (3 ∷ []) 100)) (decides (wallet 2) (4 ∷ []) 110))
          (acts [] decided.pending (4 ∷ []) _ refl))
        (acts [] [] (3 ∷ []) _ refl))
      (subscribes (wallet 1))

Reach-capped_example : existing_for_owner 7 connected.manager.subscriptions ≤ max_clients_per_owner
Reach-capped_example = Reach-capped 7 reached_connected

Reach-active_example :
    connected.manager.metrics.active_sessions.ups
    ≡ connected.manager.metrics.active_sessions.downs + length connected.manager.subscriptions
Reach-active_example = Reach-active refl reached_connected

-- The first session stays connected while the service shuts down.
abbrev no_answer : ℕ → Option ℕ
no_answer id = none

abbrev connected_entry : SubWithCounter
connected_entry = record { clients = 1; subscription = 0; idle_since = none }

connected_there : Memᴰ (wallet 1, connected_entry) connected.manager.subscriptions
unfolding decide act subscribe create_session_locked existing_for_owner lookup insert empty
    session_beq saturating_add_u32 replace_watched_tokens chain_id
connected_there = Memᴰ.head refl

close_sse_connections-sent_example :
    ((close_sse_connections no_answer connected.manager).subscriptions ≡ [])
    × ((s : Subscription) × (lookup 0 connected.manager.heap ≡ some s)
        × (lookup 0 (close_sse_connections no_answer connected.manager).heap
            ≡ some (send_event none closing s)))
close_sse_connections-sent_example =
    close_sse_connections-sent no_answer (wallet 1) connected_entry reached_connected
      connected_there

-- Much later the first session, whose client has left, has been cleaned up.
abbrev left : World
left = record connected { manager = (unsubscribe (wallet 1) 200 connected.manager).1 }

abbrev cleaned : World
cleaned = record left { manager = cleanup_subs 90000 left.manager }

reached_cleaned : Reach start cleaned
reached_cleaned = next (next reached_connected (unsubscribes (wallet 1) 200)) (cleans 90000)

cleaned_heap : lookup 0 cleaned.manager.heap ≡ some (cancel (new (3 ∷ [])))
unfolding decide act subscribe unsubscribe create_session_locked existing_for_owner lookup insert
    empty session_beq replace_watched_tokens new chain_id cleanup_subs cancel should_remove
cleaned_heap = refl

Reach-no_leak_example :
    ((cancel (new (3 ∷ []))).is_cancelled ≡ true) ⊎ Memᴰ 0 (ids cleaned.manager.subscriptions)
Reach-no_leak_example = Reach-no_leak 0 (cancel (new (3 ∷ []))) reached_cleaned cleaned_heap

-- While one `upsert` holds no lock, another caller registers the session, and the cleanup runs.
abbrev other_caller : Manager → Manager
other_caller m = (decide (wallet 3) (8 ∷ []) 6900 m).1

upsert_cases_example :
    let found = other_caller settled.manager in
    let after = upsert other_caller (cleanup_subs 7000) (wallet 3) (9 ∷ []) 7000 settled.manager in
    ((e : SubWithCounter) × (lookup (wallet 3) settled.manager.subscriptions ≡ some e)
      × IsUpdated (9 ∷ []) e.subscription found after)
    ⊎ ((e : SubWithCounter) × (lookup (wallet 3) settled.manager.subscriptions ≡ none)
        × (lookup (wallet 3) found.subscriptions ≡ some e)
        × IsUpdated (9 ∷ []) e.subscription (cleanup_subs 7000 found) after)
    ⊎ ((with_session : Manager) × (lookup (wallet 3) settled.manager.subscriptions ≡ none)
        × (lookup (wallet 3) found.subscriptions ≡ none)
        × (existing_for_owner 7 found.subscriptions < max_clients_per_owner)
        × IsRegistered (wallet 3) (9 ∷ []) 7000 found with_session
        × IsCreated found.fresh (cleanup_subs 7000 with_session) after)
    ⊎ ((refused : Manager) × (lookup (wallet 3) settled.manager.subscriptions ≡ none)
        × (lookup (wallet 3) found.subscriptions ≡ none)
        × (max_clients_per_owner ≤ existing_for_owner 7 found.subscriptions)
        × IsRefused found refused
        × (after
            ≡ (err (owner_client_limit_exceeded max_clients_per_owner), cleanup_subs 7000 refused)))
upsert_cases_example =
    upsert_cases other_caller (cleanup_subs 7000) (wallet 3) (9 ∷ []) 7000 settled.manager

abbrev idle_entry : SubWithCounter
idle_entry = record { clients = 0; subscription = 4; idle_since = some 100 }

abbrev watched : Subscription
watched = record {
  balances_snapshot = [];
  tokens = [];
  is_cancelled = false;
  refresh_signals = 0;
  sent = [];
  balance_updates_sent_total = 0;
}

abbrev with_idle : Manager
with_idle = record start.manager {
  subscriptions = (wallet 1, idle_entry) ∷ [];
  heap = (4, watched) ∷ [];
}

entry_found : lookup (wallet 1) with_idle.subscriptions ≡ some idle_entry
unfolding lookup session_beq chain_id
entry_found = refl

watched_found : lookup 4 with_idle.heap ≡ some watched
unfolding lookup
watched_found = refl

with_idle-Distinct : Distinct with_idle.subscriptions
unfolding lookup
with_idle-Distinct = (refl, tt)

cleanup_subs_cases_example :
    (IsExpired 5101 idle_entry
      × (lookup (wallet 1) (cleanup_subs 5101 with_idle).subscriptions ≡ none)
      × IsCancelled 4 (cleanup_subs 5101 with_idle).heap)
    ⊎ (¬ IsExpired 5101 idle_entry
        × (lookup (wallet 1) (cleanup_subs 5101 with_idle).subscriptions ≡ some idle_entry)
        × (lookup 4 (cleanup_subs 5101 with_idle).heap ≡ some watched))
cleanup_subs_cases_example =
    cleanup_subs_cases 5101 (wallet 1) idle_entry watched with_idle with_idle-Distinct (tt, tt)
      entry_found watched_found

abbrev no_receivers : ℕ → Option ℕ
no_receivers id = none

abbrev nobody : ℕ → Manager → Manager
nobody t m = m

abbrev waiting : SubWithCounter
waiting = record { clients = 0; subscription = 0; idle_since = some 100 }

abbrev one_idle : Manager
one_idle = record start.manager { subscriptions = (wallet 1, waiting) ∷ [] }

one_idle-Distinct : Distinct one_idle.subscriptions
unfolding lookup
one_idle-Distinct = (refl, tt)

idle_found : lookup (wallet 1) one_idle.subscriptions ≡ some waiting
unfolding lookup session_beq chain_id
idle_found = refl

spawn_cleanup-removes_example :
    lookup (wallet 1) (spawn_cleanup no_receivers (every nobody 4000 3) one_idle).subscriptions
    ≡ none
spawn_cleanup-removes_example =
    spawn_cleanup-removes no_receivers (wallet 1) nobody (λ t m distinct. (distinct, refl)) 2 4000
      100 waiting one_idle one_idle-Distinct idle_found refl refl (omega arith)
