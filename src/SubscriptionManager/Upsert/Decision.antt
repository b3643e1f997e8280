-- ===== src/SubscriptionManager/Upsert/Decision.antt =====
-- What the block of `upsert` under the write lock decides.
use balances_watcher.Base.{
  ℕ, ◌≤◌, ◌<◌, ◌≡◌, refl, true, false, List, none, some, ok, err, arith, nat_eq, leb,
}
use balances_watcher.Base.Map.{lookup, lookup-insert}
use balances_watcher.Domain.Session.{Session, session_eq}
use balances_watcher.Subscription
use balances_watcher.Subscription.{
  Subscription, set_watched_tokens, is_watched_token, emit_balance_snapshot_refresh,
}
use balances_watcher.SubscriptionManager.{
  Manager, SubWithCounter, decide, create_session_locked, existing, created, existing_for_owner,
  owner_client_limit_exceeded, max_clients_per_owner,
}
use balances_watcher.SubscriptionManager.Upsert.Effects.{IsRegistered, IsRefused}

pub create_registers :
    (session : Session) (tokens : List ℕ) (now : ℕ) (m : Manager)
    → existing_for_owner session.owner m.subscriptions < max_clients_per_owner
    → ((create_session_locked session tokens now m).0 ≡ ok (created m.fresh))
      × IsRegistered session tokens now m (create_session_locked session tokens now m).1
unfolding create_session_locked
create_registers session tokens now m below =
    let entry : SubWithCounter = record {
      clients = 0;
      subscription = m.fresh;
      idle_since = some now;
    } in
    let room : leb max_clients_per_owner (existing_for_owner session.owner m.subscriptions)
        ≡ false =
      ground arith in
    rw room (
      refl,
      record {
        entries = λ k. lookup-insert session k entry m.subscriptions;
        stored = λ n. lookup-insert m.fresh n (Subscription.new tokens) m.heap;
        allocated = refl;
        recorded = refl;
        uncounted = refl;
      },
    )

pub create_refuses :
    (session : Session) (tokens : List ℕ) (now : ℕ) (m : Manager)
    → max_clients_per_owner ≤ existing_for_owner session.owner m.subscriptions
    → ((create_session_locked session tokens now m).0
        ≡ err (owner_client_limit_exceeded max_clients_per_owner))
      × IsRefused m (create_session_locked session tokens now m).1
unfolding create_session_locked
create_refuses session tokens now m above =
    let full : leb max_clients_per_owner (existing_for_owner session.owner m.subscriptions) ≡ true =
      ground arith in
    rw full (
      refl,
      record {
        entries = refl;
        heap = refl;
        unallocated = refl;
        counted = refl;
        created_before = refl;
        active = refl;
      },
    )

pub decide_found :
    (session : Session) (tokens : List ℕ) (now : ℕ) (m : Manager) (e : SubWithCounter)
    → lookup session m.subscriptions ≡ some e
    → decide session tokens now m ≡ (ok (existing e.subscription), m)
unfolding decide
decide_found session tokens now m e there = rw (there, decide) refl

pub decide_absent :
    (session : Session) (tokens : List ℕ) (now : ℕ) (m : Manager)
    → lookup session m.subscriptions ≡ none
    → decide session tokens now m ≡ create_session_locked session tokens now m
unfolding decide
decide_absent session tokens now m absent = rw (absent, decide) refl
