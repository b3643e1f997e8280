-- ===== src/SubscriptionManager/Cleanup.antt =====
-- `cleanup_subs` and `close_sse_connections` of src/services/subscription_manager.rs. The closure
-- of `retain` is split into what it keeps and what it does to each session that it drops.
use balances_watcher.Base.{
  ℕ, ◌+◌, ◌-◌, Bool, false, not, List, [], ◌∷◌, Option, none, some, ltb, if◌then◌else◌, ◌==◌,
  nat_eq,
}
use balances_watcher.Base.Map.{retain}
use balances_watcher.Domain.Session.{Session, session_eq, error}
use balances_watcher.Subscription.{Subscription, cancel, send_event}
use balances_watcher.SubscriptionManager.{
  SubWithCounter, Metrics, Manager, session_ttl, decrement, modify,
}

unfoldable pub idle_too_long : ℕ → Option ℕ → Bool
idle_too_long now (some idle_since) = ltb session_ttl (now - idle_since)
idle_too_long now none = false

unfoldable pub should_remove : ℕ → SubWithCounter → Bool
unfolding idle_too_long
should_remove now sub = if sub.clients == 0 then idle_too_long now sub.idle_since else false

-- The heap and the metrics behind the sessions that are dropped.
unfoldable pub drop_each :
    ℕ
    → List (Session × SubWithCounter)
    → List (ℕ × Subscription) × Metrics
    → List (ℕ × Subscription) × Metrics
unfolding cancel decrement
drop_each now [] acc = acc
drop_each now ((session, sub) ∷ subs) (heap, metrics) = drop_each now subs (
    if should_remove now sub
    then (
      modify sub.subscription cancel heap,
      record metrics {
        sessions_expired_total = metrics.sessions_expired_total + 1;
        active_sessions = decrement metrics.active_sessions;
      },
    )
    else (heap, metrics))

unfoldable pub cleanup_subs : ℕ → Manager → Manager
unfolding drop_each
cleanup_subs now m =
    let (heap, metrics) = drop_each now m.subscriptions (m.heap, m.metrics) in
    record m {
      subscriptions = retain (λ _ sub. not (should_remove now sub)) m.subscriptions;
      heap = heap;
      metrics = metrics;
    }

-- The senders' answers are arguments, by the subscription's number.
unfoldable pub send_close :
    (ℕ → Option ℕ)
    → List (Session × SubWithCounter)
    → List (ℕ × Subscription)
    → List (ℕ × Subscription)
send_close receivers [] heap = heap
send_close receivers ((session, sub) ∷ subs) heap = send_close receivers subs (
    modify sub.subscription
      (send_event (receivers sub.subscription) (error 503 "server is shutting down")) heap)

unfoldable pub close_sse_connections : (ℕ → Option ℕ) → Manager → Manager
unfolding send_close
close_sse_connections receivers m = record m {
  subscriptions = [];
  heap = send_close receivers m.subscriptions m.heap;
}
