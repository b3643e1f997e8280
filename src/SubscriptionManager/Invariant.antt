-- ===== src/SubscriptionManager/Invariant.antt =====
-- What every method of the registry keeps.
use balances_watcher.Base.{
  ℕ, zero, suc, ◌+◌, ◌≤◌, ◌<◌, ◌≡◌, refl, ◌⊎◌, inl, inr, false, not, List, [], ◌∷◌, none, some, leb,
  if◌then◌else◌, nat_beq, nat_beq_iff, nat_eq, arith, length, sum_of, All, Option-cases, Bool-cases,
}
use balances_watcher.Base.Map.{lookup, insert, retain}
use balances_watcher.Base.Map.Laws.{
  Distinct, Distinct-insert, Distinct-retain, All-insert, All-lookup, All-retain, sum_of-insert_new,
  sum_of-insert_old, sum_of-retain,
}
use balances_watcher.Subscription.{Subscription, cancel}
use balances_watcher.Domain.Session.{Session, session_eq}
use balances_watcher.SubscriptionManager.{
  SubWithCounter, Metrics, Manager, max_clients_per_owner, existing_for_owner,
  create_session_locked, replace_watched_tokens, subscribe, unsubscribe, decrement, checked_pred,
  modify,
}
use balances_watcher.SubscriptionManager.Cleanup.{should_remove, drop_each, cleanup_subs}

-- A session is idle since some moment exactly while it has no client.
abbrev pub IdleIsMarked : Session × SubWithCounter → Type 0
IdleIsMarked (session, entry) =
    ((entry.clients ≡ 0) × ((t : ℕ) × (entry.idle_since ≡ some t)))
    ⊎ ((0 < entry.clients) × (entry.idle_since ≡ none))

abbrev pub one_for : ℕ → Session × SubWithCounter → ℕ
one_for owner e = if nat_beq e.0.owner owner then 1 else 0

-- No session twice; no owner with more sessions than the limit; idle sessions marked; and the gauge
-- of active sessions, with those that are created but not yet counted, is their number.
pub record Inv (uncounted : ℕ) (m : Manager) : Type 0 where
  pub distinct : Distinct m.subscriptions
  pub capped : (owner : ℕ) → sum_of (one_for owner) m.subscriptions ≤ max_clients_per_owner
  pub marked : All IdleIsMarked m.subscriptions
  pub active :
      m.metrics.active_sessions.ups + uncounted
      ≡ m.metrics.active_sessions.downs + length m.subscriptions

pub existing_for_owner-sum :
    (owner : ℕ) (subs : List (Session × SubWithCounter))
    → existing_for_owner owner subs ≡ sum_of (one_for owner) subs
unfolding existing_for_owner
existing_for_owner-sum owner [] = refl
existing_for_owner-sum owner (e ∷ subs) = ground (arith, existing_for_owner-sum owner subs)

length-sum : (subs : List (Session × SubWithCounter)) → length subs ≡ sum_of (λ e. 1) subs
length-sum [] = refl
length-sum (e ∷ subs) = omega (arith, length-sum subs)

pub replace_watched_tokens-Inv :
    (n id : ℕ) (tokens : List ℕ) (m : Manager)
    → Inv n m
    → Inv n (replace_watched_tokens id tokens m)
unfolding replace_watched_tokens
replace_watched_tokens-Inv n id tokens m v = record {
  distinct = v.distinct;
  capped = v.capped;
  marked = v.marked;
  active = v.active;
}

room_for :
    (owner : ℕ) (session : Session) (entry : SubWithCounter)
    (subs : List (Session × SubWithCounter))
    → lookup session subs ≡ none
    → sum_of (one_for owner) subs ≤ max_clients_per_owner
    → leb max_clients_per_owner (existing_for_owner session.owner subs) ≡ false
    → sum_of (one_for owner) (insert session entry subs) ≤ max_clients_per_owner
room_for owner session entry subs new capped room =
    let grown = sum_of-insert_new (one_for owner) session entry subs new in
    elim (Bool-cases (nat_beq session.owner owner)) [
      | inl same ↦
          let e : session.owner ≡ owner = (nat_beq_iff _ _).0 same in
          let few : existing_for_owner owner subs < max_clients_per_owner =
            rw e at (lt_of_leb _ _ room) in
          omega (arith, grown, rw same at grown, existing_for_owner-sum owner subs, few)
      | inr other ↦ omega (arith, capped, rw other at grown)
    ]
  where
    lt_of_leb : (a b : ℕ) → leb a b ≡ false → b < a
    lt_of_leb a b h = ground arith

pub create_session_locked-Inv :
    (n : ℕ) (session : Session) (tokens : List ℕ) (now : ℕ) (m : Manager)
    → lookup session m.subscriptions ≡ none
    → Inv n m
    → leb max_clients_per_owner (existing_for_owner session.owner m.subscriptions) ≡ false
    → Inv (suc n) (create_session_locked session tokens now m).1
unfolding create_session_locked
create_session_locked-Inv n session tokens now m new v room = rw room (record {
  distinct = Distinct-insert session entry m.subscriptions v.distinct;
  capped = λ owner. room_for owner session entry m.subscriptions new (v.capped owner) room;
  marked = All-insert IdleIsMarked session entry m.subscriptions v.marked (inl (refl, (now, refl)));
  active = omega (
    arith,
    v.active,
    length-sum m.subscriptions,
    length-sum (insert session entry m.subscriptions),
    sum_of-insert_new (λ e. 1) session entry m.subscriptions new,
  );
})
  where
    entry : SubWithCounter
    entry = record { clients = 0; subscription = m.fresh; idle_since = some now }

-- Entries of a session that is there change only in place.
insert_old-Inv :
    (n : ℕ) (session : Session) (old new : SubWithCounter) (m m' : Manager)
    → lookup session m.subscriptions ≡ some old
    → m'.subscriptions ≡ insert session new m.subscriptions
    → m'.metrics.active_sessions ≡ m.metrics.active_sessions
    → IdleIsMarked (session, new)
    → Inv n m
    → Inv n m'
insert_old-Inv n session old new m m' found subs gauge marked v = record {
  distinct = rw subs (Distinct-insert session new m.subscriptions v.distinct);
  capped = λ owner. rw subs (
      omega (
        arith,
        v.capped owner,
        sum_of-insert_old (one_for owner) session new old m.subscriptions found,
      ));
  marked = rw subs (All-insert IdleIsMarked session new m.subscriptions v.marked marked);
  active =
      rw (subs, gauge)
        (omega (
          arith,
          v.active,
          length-sum m.subscriptions,
          length-sum (insert session new m.subscriptions),
          sum_of-insert_old (λ e. 1) session new old m.subscriptions found,
        ));
}

pub subscribe-Inv :
    (n : ℕ) (session : Session) (m : Manager) → Inv n m → Inv n (subscribe session m).1
unfolding subscribe
subscribe-Inv n session m v = elim (Option-cases (lookup session m.subscriptions)) [
  | inl none_there ↦ rw (none_there, subscribe) v
  | inr (e, found) ↦
      rw (found, subscribe)
        (insert_old-Inv n session e _ m _ found refl refl (inr (ground arith, refl)) v)
]

marked_less :
    (session : Session) (e : SubWithCounter) (clients now : ℕ)
    → checked_pred e.clients ≡ some clients
    → IdleIsMarked (session, e)
    → IdleIsMarked (
      session,
      record e {
        clients = clients;
        idle_since = (if nat_beq clients 0 then some now else e.idle_since);
      },
    )
marked_less session e clients now less marked = elim (Bool-cases (nat_beq clients 0)) [
  | inl last ↦ rw last (inl ((nat_beq_iff clients 0).0 last, (now, refl)))
  | inr more ↦ rw more (inr (positive clients more, unmarked (e.clients) less marked))
]
  where
    positive : (k : ℕ) → nat_beq k 0 ≡ false → 0 < k
    positive k h = ground arith

    unmarked :
        (k : ℕ)
        → checked_pred k ≡ some clients
        → ((k ≡ 0) × ((t : ℕ) × (e.idle_since ≡ some t))) ⊎ ((0 < k) × (e.idle_since ≡ none))
        → e.idle_since ≡ none
    unmarked zero h m = cc
    unmarked (suc k) h (inl m) = absurd (omega arith)
    unmarked (suc k) h (inr m) = m.1

pub unsubscribe-Inv :
    (n : ℕ) (session : Session) (now : ℕ) (m : Manager)
    → Inv n m
    → Inv n (unsubscribe session now m).1
unfolding unsubscribe
unsubscribe-Inv n session now m v = elim (Option-cases (lookup session m.subscriptions)) [
  | inl none_there ↦ rw (none_there, unsubscribe) v
  | inr (e, found) ↦ elim (Option-cases (checked_pred e.clients)) [
    | inl underflow ↦ rw (found, unsubscribe, underflow) v
    | inr (clients, less) ↦
        rw (found, unsubscribe, less)
          (insert_old-Inv n session e _ m _ found refl refl
            (marked_less session e clients now less
              (All-lookup IdleIsMarked session e m.subscriptions v.marked found))
            v)
  ]
]

abbrev one_dropped : ℕ → Session × SubWithCounter → ℕ
one_dropped now e = if not (should_remove now e.1) then 0 else 1

drop_each_gauge :
    (now : ℕ) (subs : List (Session × SubWithCounter)) (heap : List (ℕ × Subscription))
    (metrics : Metrics)
    → ((drop_each now subs (heap, metrics)).1.active_sessions.ups ≡ metrics.active_sessions.ups)
      × ((drop_each now subs (heap, metrics)).1.active_sessions.downs
          ≡ metrics.active_sessions.downs + sum_of (one_dropped now) subs)
      × ((drop_each now subs (heap, metrics)).1.sessions_expired_total
          ≡ metrics.sessions_expired_total + sum_of (one_dropped now) subs)
unfolding drop_each
drop_each_gauge now [] heap metrics = (refl, omega arith, omega arith)
drop_each_gauge now ((session, sub) ∷ subs) heap metrics =
    elim (Bool-cases (should_remove now sub)) [
      | inl gone ↦
          let (up, down, expired) =
            drop_each_gauge now subs (modify sub.subscription cancel heap) (record metrics {
              sessions_expired_total = metrics.sessions_expired_total + 1;
              active_sessions = decrement metrics.active_sessions;
            }) in
          rw (gone, drop_each) (up, omega (arith, down), omega (arith, expired))
      | inr here ↦
          let (up, down, expired) = drop_each_gauge now subs heap metrics in
          rw (here, drop_each) (up, omega (arith, down), omega (arith, expired))
    ]

pub cleanup_subs-Inv : (n now : ℕ) (m : Manager) → Inv n m → Inv n (cleanup_subs now m)
unfolding cleanup_subs
cleanup_subs-Inv n now m v =
    let stays = λ (session : Session) (sub : SubWithCounter). not (should_remove now sub) in
    let (up, down, expired) = drop_each_gauge now m.subscriptions m.heap m.metrics in
    record {
      distinct = Distinct-retain stays m.subscriptions v.distinct;
      capped = λ owner.
          omega (arith, v.capped owner, sum_of-retain (one_for owner) stays m.subscriptions);
      marked = All-retain IdleIsMarked stays m.subscriptions v.marked;
      active = omega (
        arith,
        v.active,
        up,
        down,
        length-sum m.subscriptions,
        length-sum (retain stays m.subscriptions),
        sum_of-retain (λ e. 1) stays m.subscriptions,
      );
    }
