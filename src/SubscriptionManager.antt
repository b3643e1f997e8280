-- ===== src/SubscriptionManager.antt =====
-- src/services/subscription_manager.rs. The registry's write lock makes each method below one step;
-- `upsert` releases it between its phases, and what other tasks do there is an argument.
--
-- An `Arc<Subscription>` is a number under which the heap holds the subscription, so the registry,
-- the workers and the clients share it. The number also names the refresh queue that was spawned
-- with it. `Instant` and `Duration` are milliseconds. A gauge is the pair of its increments and
-- decrements.
pub mod Cleanup
pub mod Invariant
pub mod Interleaving
pub mod Reachable
pub mod Upsert
pub mod Spared
pub mod Expiry
pub mod Ticks
pub mod Numbers
pub mod Heap
pub mod Drops
pub mod Held
pub mod Leaks
pub mod Shutdown
mod Examples
use balances_watcher.Base.{
  ℕ, zero, suc, ◌+◌, ◌-◌, Bool, true, false, not, ◌&&◌, List, [], ◌∷◌, ◌++◌, Option, none, some,
  leb, ltb, if◌then◌else◌, ◌==◌, nat_eq, Result, ok, err, keep_if, length,
}
use balances_watcher.Base.Map.{lookup, insert}
use balances_watcher.Base.Word.{saturating_add_u32}
use balances_watcher.Domain.Session.{Session, session_eq, BalanceEvent, error}
use balances_watcher.Subscription
use balances_watcher.Subscription.{
  Subscription, set_watched_tokens, emit_balance_snapshot_refresh, cancel, send_event,
  is_watched_token,
}

-- `MAX_CLIENTS_PER_OWNER` and `SESSION_TTL` of src/config/constants.rs.
abbrev pub max_clients_per_owner : ℕ
max_clients_per_owner = 5

abbrev pub session_ttl : ℕ
session_ttl = 5000

pub data SubscriptionError : Type 0 where
  session_not_registered : SubscriptionError
  owner_client_limit_exceeded : ℕ → SubscriptionError

pub record SubWithCounter : Type 0 where
  pub clients : ℕ
  pub subscription : ℕ
  pub idle_since : Option ℕ

pub record Gauge : Type 0 where
  pub ups : ℕ
  pub downs : ℕ

unfoldable pub increment : Gauge → Gauge
increment g = record g { ups = g.ups + 1 }

unfoldable pub decrement : Gauge → Gauge
decrement g = record g { downs = g.downs + 1 }

pub record Metrics : Type 0 where
  pub sessions_created_total : ℕ
  pub sessions_updated_total : ℕ
  pub sessions_expired_total : ℕ
  pub active_sessions : Gauge
  pub owner_client_limit_exceeded_total : ℕ
  pub sse_connections_total : ℕ
  pub sse_connections_active : Gauge
  -- the values that the histogram has recorded
  pub sessions_per_owner : List ℕ

pub record Manager : Type 0 where
  pub subscriptions : List (Session × SubWithCounter)
  pub heap : List (ℕ × Subscription)
  -- the number of the next allocation
  pub fresh : ℕ
  pub metrics : Metrics

abbrev pub modify :
    ℕ → (Subscription → Subscription) → List (ℕ × Subscription) → List (ℕ × Subscription)
modify id f heap = elim (lookup id heap) [ none ↦ heap | some s ↦ insert id (f s) heap ]

unfoldable pub signal_if_changed : Bool × Subscription → Subscription
signal_if_changed (true, s) = emit_balance_snapshot_refresh s
signal_if_changed (false, s) = s

-- `SubscriptionManager::new`.
unfoldable pub empty : Manager
empty = record {
  subscriptions = [];
  heap = [];
  fresh = 0;
  metrics = record {
    sessions_created_total = 0;
    sessions_updated_total = 0;
    sessions_expired_total = 0;
    active_sessions = record { ups = 0; downs = 0 };
    owner_client_limit_exceeded_total = 0;
    sse_connections_total = 0;
    sse_connections_active = record { ups = 0; downs = 0 };
    sessions_per_owner = [];
  };
}

-- `PUT`: the refresh is signalled only if the set changed.
unfoldable pub replace_watched_tokens : ℕ → List ℕ → Manager → Manager
unfolding signal_if_changed
replace_watched_tokens id tokens m = record m {
  heap = modify id (λ s. signal_if_changed (set_watched_tokens tokens s)) m.heap;
  metrics = record counted { sessions_updated_total = counted.sessions_updated_total + 1 };
}
  where
    counted : Metrics
    counted = m.metrics

-- `subs.keys().filter(|s| s.owner == session.owner).count()`.
unfoldable pub existing_for_owner : ℕ → List (Session × SubWithCounter) → ℕ
existing_for_owner owner subs = length (keep_if (λ e. e.0.owner == owner) subs)

pub data UpsertOutcome : Type 0 where
  existing : ℕ → UpsertOutcome
  created : ℕ → UpsertOutcome

-- The receiver that `created` carries belongs to the queue with the subscription's number.
unfoldable pub create_session_locked :
    Session → List ℕ → ℕ → Manager → Result SubscriptionError UpsertOutcome × Manager
unfolding existing_for_owner
create_session_locked session tokens now m =
    if leb max_clients_per_owner (existing_for_owner session.owner m.subscriptions)
    then (
      err (owner_client_limit_exceeded max_clients_per_owner),
      record m {
        metrics = record counted {
          owner_client_limit_exceeded_total = counted.owner_client_limit_exceeded_total + 1;
        };
      },
    )
    else (
      ok (created m.fresh),
      record m {
        subscriptions =
            insert session (record { clients = 0; subscription = m.fresh; idle_since = some now })
              m.subscriptions;
        heap = insert m.fresh (Subscription.new tokens) m.heap;
        fresh = m.fresh + 1;
        metrics = record counted {
          sessions_per_owner =
              counted.sessions_per_owner
              ++ (existing_for_owner session.owner m.subscriptions + 1) ∷ [];
        };
      },
    )
  where
    counted : Metrics
    counted = m.metrics

-- The block under the write lock.
unfoldable pub decide :
    Session → List ℕ → ℕ → Manager → Result SubscriptionError UpsertOutcome × Manager
unfolding create_session_locked
decide session tokens now m = elim (lookup session m.subscriptions) [
  | some entry ↦ (ok (existing entry.subscription), m)
  | none ↦ create_session_locked session tokens now m
]

-- The subscription, and the queue receiver where the session is new.
abbrev pub Upserted : Type 0
Upserted = Result SubscriptionError (ℕ × Option ℕ)

-- The `match` on the outcome.
unfoldable pub act : List ℕ → Result SubscriptionError UpsertOutcome → Manager → Upserted × Manager
unfolding replace_watched_tokens increment
act tokens (err e) m = (err e, m)
act tokens (ok (existing id)) m = (ok (id, none), replace_watched_tokens id tokens m)
act tokens (ok (created id)) m = (
  ok (id, some id),
  record m {
    metrics = record counted {
      sessions_created_total = counted.sessions_created_total + 1;
      active_sessions = increment counted.active_sessions;
    };
  },
)
  where
    counted : Metrics
    counted = m.metrics

-- `others` and `later` are what other tasks do after the read lock and after the write lock.
unfoldable pub upsert :
    (Manager → Manager) → (Manager → Manager) → Session → List ℕ → ℕ → Manager → Upserted × Manager
unfolding decide act
upsert others later session tokens now m = elim (lookup session m.subscriptions) [
  | some entry ↦ act tokens (ok (existing entry.subscription)) (others m)
  | none ↦ let (outcome, m') = decide session tokens now (others m) in act tokens outcome (later m')
]

-- The receiver and the subscription are those of the number that is returned.
unfoldable pub subscribe : Session → Manager → Result SubscriptionError ℕ × Manager
unfolding increment
subscribe session m = elim (lookup session m.subscriptions) [
  | none ↦ (err session_not_registered, m)
  | some e ↦ (
    ok e.subscription,
    record m {
      subscriptions =
          insert session (record e { clients = saturating_add_u32 e.clients 1; idle_since = none })
            m.subscriptions;
      metrics = record counted {
        sse_connections_total = counted.sse_connections_total + 1;
        sse_connections_active = increment counted.sse_connections_active;
      };
    },
  )
]
  where
    counted : Metrics
    counted = m.metrics

-- `checked_sub(1)`.
abbrev pub checked_pred : ℕ → Option ℕ
checked_pred zero = none
checked_pred (suc n) = some n

-- `true` for the last client.
unfoldable pub unsubscribe : Session → ℕ → Manager → Result SubscriptionError Bool × Manager
unfolding decrement
unsubscribe session now m = elim (lookup session m.subscriptions) [
  | none ↦ (err session_not_registered, m)
  | some e ↦ elim (checked_pred e.clients) [
    | none ↦ (err session_not_registered, m)
    | some clients ↦ (
      ok (clients == 0),
      record m {
        subscriptions =
            insert session
              (record e {
                clients = clients;
                idle_since = (if clients == 0 then some now else e.idle_since);
              })
              m.subscriptions;
        metrics = record counted {
          sse_connections_active = decrement counted.sse_connections_active;
        };
      },
    )
  ]
]
  where
    counted : Metrics
    counted = m.metrics

-- `is_watched_token` of a candidate.
unfoldable pub watches : ℕ → Option Subscription → Bool
watches token none = false
watches token (some s) = is_watched_token token s

-- The first phase of `owned_queues_watching`: the owner's subscriptions, which number their queues.
unfoldable pub candidates : ℕ → List (Session × SubWithCounter) → List ℕ
candidates owner [] = []
candidates owner ((session, entry) ∷ subs) =
    let later = candidates owner subs in
    if session.owner == owner then entry.subscription ∷ later else later

-- The second phase. Other tasks go on between its checks: `heaps` has the heap at each of them.
unfoldable pub keep_watching : (ℕ → List (ℕ × Subscription)) → ℕ → ℕ → List ℕ → List ℕ
unfolding watches
keep_watching heaps check token [] = []
keep_watching heaps check token (id ∷ ids) =
    let later = keep_watching heaps (check + 1) token ids in
    if watches token (lookup id (heaps check)) then id ∷ later else later

unfoldable pub owned_queues_watching : (ℕ → List (ℕ × Subscription)) → ℕ → ℕ → Manager → List ℕ
unfolding candidates keep_watching
owned_queues_watching heaps owner token m =
    keep_watching heaps 0 token (candidates owner m.subscriptions)
