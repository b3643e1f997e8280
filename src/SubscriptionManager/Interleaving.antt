-- ===== src/SubscriptionManager/Interleaving.antt =====
-- The registry under any interleaving of its callers, until shutdown. A step is what a caller does
-- under one lock; an `upsert` that has decided but not yet acted is kept in `pending`.
use balances_watcher.Base.{
  ℕ, suc, ◌+◌, ◌≡◌, ap, inl, inr, true, false, List, ◌∷◌, ◌++◌, none, some, leb, nat_eq, arith,
  Result, ok, err, sum_of, sum_of-append, Option-cases, Bool-cases,
}
use native.Mathlib.Nat.{zero-add}
use balances_watcher.Base.Map.{lookup}
use balances_watcher.Domain.Session.{Session, session_eq}
use balances_watcher.SubscriptionManager.{
  SubWithCounter, Manager, SubscriptionError, owner_client_limit_exceeded, max_clients_per_owner,
  existing_for_owner, create_session_locked, decide, act, subscribe, unsubscribe, UpsertOutcome,
  existing, created,
}
use balances_watcher.SubscriptionManager.Cleanup.{cleanup_subs}
use balances_watcher.SubscriptionManager.Invariant.{
  Inv, replace_watched_tokens-Inv, create_session_locked-Inv, subscribe-Inv, unsubscribe-Inv,
  cleanup_subs-Inv,
}

abbrev pub Outcome : Type 0
Outcome = Result SubscriptionError UpsertOutcome

pub record World : Type 0 where
  pub manager : Manager
  pub pending : List (List ℕ × Outcome)

pub data Step (w : World) : World → Type 0 where
  -- the fast path of `upsert`: the read lock finds the session
  finds :
      (session : Session) (tokens : List ℕ) (entry : SubWithCounter)
      → lookup session w.manager.subscriptions ≡ some entry
      → Step w (record w { pending = (tokens, ok (existing entry.subscription)) ∷ w.pending })
  -- the block under the write lock, after a read that missed, however long ago
  decides :
      (session : Session) (tokens : List ℕ) (now : ℕ)
      → Step w (record {
        manager = (decide session tokens now w.manager).1;
        pending = (tokens, (decide session tokens now w.manager).0) ∷ w.pending;
      })
  acts :
      (front back : List (List ℕ × Outcome)) (tokens : List ℕ) (outcome : Outcome)
      → w.pending ≡ front ++ (tokens, outcome) ∷ back
      → Step w (record { manager = (act tokens outcome w.manager).1; pending = front ++ back })
  subscribes : (session : Session) → Step w (record w { manager = (subscribe session w.manager).1 })
  unsubscribes :
      (session : Session) (now : ℕ)
      → Step w (record w { manager = (unsubscribe session now w.manager).1 })
  cleans : (now : ℕ) → Step w (record w { manager = cleanup_subs now w.manager })

pub data Reach (start : World) : World → Type 0 where
  here : Reach start start
  next : {v w : World} → Reach start v → Step v w → Reach start w

-- The sessions that are created but not yet counted.
abbrev pub uncounted : List ℕ × Outcome → ℕ
uncounted (tokens, ok (created id)) = 1
uncounted (tokens, ok (existing id)) = 0
uncounted (tokens, err e) = 0

abbrev pub WorldInv : World → Type 0
WorldInv w = Inv (sum_of uncounted w.pending) w.manager

create_full :
    (session : Session) (tokens : List ℕ) (now : ℕ) (m : Manager)
    → leb max_clients_per_owner (existing_for_owner session.owner m.subscriptions) ≡ true
    → create_session_locked session tokens now m ≡ (
      err (owner_client_limit_exceeded max_clients_per_owner),
      record m {
        metrics = record (m.metrics) {
          owner_client_limit_exceeded_total = m.metrics.owner_client_limit_exceeded_total + 1;
        };
      },
    )
unfolding create_session_locked
create_full session tokens now m full = rw full

create_room :
    (session : Session) (tokens : List ℕ) (now : ℕ) (m : Manager)
    → leb max_clients_per_owner (existing_for_owner session.owner m.subscriptions) ≡ false
    → (create_session_locked session tokens now m).0 ≡ ok (created m.fresh)
unfolding create_session_locked
create_room session tokens now m room = rw room

create-Inv :
    (n : ℕ) (session : Session) (tokens : List ℕ) (now : ℕ) (m : Manager)
    → lookup session m.subscriptions ≡ none
    → Inv n m
    → Inv
        (uncounted (tokens, (create_session_locked session tokens now m).0) + n)
        (create_session_locked session tokens now m).1
create-Inv n session tokens now m new v =
    elim (Bool-cases
      (leb max_clients_per_owner (existing_for_owner session.owner m.subscriptions))) [
        | inl full ↦
            rw (create_full session tokens now m full, zero-add)
              (record {
                distinct = v.distinct;
                capped = v.capped;
                marked = v.marked;
                active = v.active;
              })
        | inr room ↦
            let e : 1 + n ≡ suc n = omega arith in
            rw (create_room session tokens now m room, e)
              (create_session_locked-Inv n session tokens now m new v room)
      ]

decide-Inv :
    (n : ℕ) (session : Session) (tokens : List ℕ) (now : ℕ) (m : Manager)
    → Inv n m
    → Inv (uncounted (tokens, (decide session tokens now m).0) + n) (decide session tokens now m).1
unfolding decide
decide-Inv n session tokens now m v = elim (Option-cases (lookup session m.subscriptions)) [
  | inr (entry, found) ↦ rw (found, decide) (rw zero-add v)
  | inl new ↦ rw (new, decide) (create-Inv n session tokens now m new v)
]

act-Inv :
    (n : ℕ) (tokens : List ℕ) (outcome : Outcome) (m : Manager)
    → Inv (uncounted (tokens, outcome) + n) m
    → Inv n (act tokens outcome m).1
unfolding act
act-Inv n tokens (err e) m v = rw zero-add at v
act-Inv n tokens (ok (existing id)) m v =
    replace_watched_tokens-Inv n id tokens m (rw zero-add at v)
act-Inv n tokens (ok (created id)) m v = record {
  distinct = v.distinct;
  capped = v.capped;
  marked = v.marked;
  active = omega (arith, v.active);
}

-- Every step keeps the invariant: no session twice, no owner with more sessions than the limit, a
-- session idle since some moment exactly while it has no client, and the gauge of active sessions,
-- with those that are created but not yet counted, equal to their number.
pub Step-WorldInv : {v w : World} → Step v w → WorldInv v → WorldInv w
Step-WorldInv {v} (finds session tokens entry found) i = rw zero-add i
Step-WorldInv {v} (decides session tokens now) i =
    decide-Inv (sum_of uncounted v.pending) session tokens now v.manager i
Step-WorldInv {v} (acts front back tokens outcome e) i =
    act-Inv (sum_of uncounted (front ++ back)) tokens outcome v.manager (rw (← total) i)
  where
    total :
        sum_of uncounted v.pending ≡ uncounted (tokens, outcome) + sum_of uncounted (front ++ back)
    total = omega (
      arith,
      ap (sum_of uncounted) e,
      sum_of-append uncounted front ((tokens, outcome) ∷ back),
      sum_of-append uncounted front back,
    )
Step-WorldInv {v} (subscribes session) i =
    subscribe-Inv (sum_of uncounted v.pending) session v.manager i
Step-WorldInv {v} (unsubscribes session now) i =
    unsubscribe-Inv (sum_of uncounted v.pending) session now v.manager i
Step-WorldInv {v} (cleans now) i = cleanup_subs-Inv (sum_of uncounted v.pending) now v.manager i
