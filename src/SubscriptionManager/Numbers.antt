-- ===== src/SubscriptionManager/Numbers.antt =====
-- The numbers of the registered subscriptions: no two sessions ever share one.
use balances_watcher.Base.{
  ℕ, ◌+◌, ◌<◌, ◌≡◌, ◌≢◌, refl, sym, ap, ◌∙◌, Bool, not, List, [], ◌∷◌, ◌++◌, none, some, All,
  All-append, nat_eq, arith, inl, inr, Option-cases, Bool-cases, leb, ok, err, ◌==◌,
}
use mathlib.Core.Path.{subst}
use balances_watcher.Base.Map.{lookup, insert, retain}
use balances_watcher.Domain.Session.{Session, session_eq}
use balances_watcher.SubscriptionManager.{
  SubWithCounter, Manager, empty, replace_watched_tokens, create_session_locked, decide, act,
  subscribe, unsubscribe, checked_pred, existing, created, max_clients_per_owner,
  existing_for_owner,
}
use balances_watcher.SubscriptionManager.Cleanup.{cleanup_subs, should_remove}
use balances_watcher.SubscriptionManager.Interleaving.{
  Outcome, World, Step, finds, decides, acts, subscribes, unsubscribes, cleans, Reach, here, next,
}
use balances_watcher.SubscriptionManager.Reachable.{start}

abbrev pub ids : List (Session × SubWithCounter) → List ℕ
ids [] = []
ids ((session, entry) ∷ subs) = entry.subscription ∷ ids subs

abbrev pub Unshared : List ℕ → Type 0
Unshared [] = Unit {0}
Unshared (x ∷ xs) = All (λ y. x ≢ y) xs × Unshared xs

Unshared-snoc : (n : ℕ) (xs : List ℕ) → All (λ y. y < n) xs → Unshared xs → Unshared (xs ++ n ∷ [])
Unshared-snoc n [] below u = (tt, tt)
Unshared-snoc n (x ∷ xs) below u = (
  All-append (λ y. x ≢ y) xs (n ∷ []) u.0 ((λ e. omega (arith, below.0, e)), tt),
  Unshared-snoc n xs below.1 u.1,
)

below_mono : (n : ℕ) (xs : List ℕ) → All (λ y. y < n) xs → All (λ y. y < n + 1) xs
below_mono n [] below = tt
below_mono n (x ∷ xs) below = (omega (arith, below.0), below_mono n xs below.1)

pub ids-insert_new :
    (k : Session) (v : SubWithCounter) (subs : List (Session × SubWithCounter))
    → lookup k subs ≡ none
    → ids (insert k v subs) ≡ ids subs ++ v.subscription ∷ []
unfolding insert lookup
ids-insert_new k v [] absent = refl
ids-insert_new k v ((j, w) ∷ subs) absent = elim (Bool-cases (j == k)) [
  | inl at_j ↦ absurd (ground arith)
  | inr other ↦ rw other (ap (◌∷◌ w.subscription) (ids-insert_new k v subs (rw other at absent)))
]

pub ids-insert_old :
    (k : Session) (v w : SubWithCounter) (subs : List (Session × SubWithCounter))
    → lookup k subs ≡ some w
    → w.subscription ≡ v.subscription
    → ids (insert k v subs) ≡ ids subs
unfolding insert lookup
ids-insert_old k v w [] found same = cc
ids-insert_old k v w ((j, x) ∷ subs) found same = elim (Bool-cases (j == k)) [
  | inl at_j ↦
      let e : x ≡ w = ground arith in
      rw at_j (ap (λ y. y ∷ ids subs) (sym same ∙ sym (ap (λ z. z.subscription) e)))
  | inr other ↦
      rw other (ap (◌∷◌ x.subscription) (ids-insert_old k v w subs (rw other at found) same))
]

All-ids-retain :
    (P : ℕ → Type 0) (p : Session → SubWithCounter → Bool) (subs : List (Session × SubWithCounter))
    → All P (ids subs)
    → All P (ids (retain p subs))
unfolding retain
All-ids-retain P p [] a = tt
All-ids-retain P p ((j, w) ∷ subs) a = elim (Bool-cases (p j w)) [
  | inl keep ↦ rw keep (a.0, All-ids-retain P p subs a.1)
  | inr drop ↦ rw drop (All-ids-retain P p subs a.1)
]

Unshared-retain :
    (p : Session → SubWithCounter → Bool) (subs : List (Session × SubWithCounter))
    → Unshared (ids subs)
    → Unshared (ids (retain p subs))
unfolding retain
Unshared-retain p [] u = tt
Unshared-retain p ((j, w) ∷ subs) u = elim (Bool-cases (p j w)) [
  | inl keep ↦
      rw keep (All-ids-retain (λ y. w.subscription ≢ y) p subs u.0, Unshared-retain p subs u.1)
  | inr drop ↦ rw drop (Unshared-retain p subs u.1)
]

-- The numbers in use are those of one session each, and below the next one.
abbrev Numbered : Manager → Type 0
Numbered m = Unshared (ids m.subscriptions) × All (λ y. y < m.fresh) (ids m.subscriptions)

-- Numbers that are left as they are.
kept-Numbered :
    (n : ℕ) (xs ys : List ℕ)
    → ys ≡ xs
    → Unshared xs × All (λ y. y < n) xs
    → Unshared ys × All (λ y. y < n) ys
kept-Numbered n xs ys same v = subst (λ zs. Unshared zs × All (λ y. y < n) zs) (sym same) v

create-Numbered :
    (session : Session) (tokens : List ℕ) (now : ℕ) (m : Manager)
    → lookup session m.subscriptions ≡ none
    → Numbered m
    → Numbered (create_session_locked session tokens now m).1
unfolding create_session_locked
create-Numbered session tokens now m new (u, below) =
    let entry : SubWithCounter = record {
      clients = 0;
      subscription = m.fresh;
      idle_since = some now;
    } in
    let numbers = ids-insert_new session entry m.subscriptions new in
    elim (Bool-cases
      (leb max_clients_per_owner (existing_for_owner session.owner m.subscriptions))) [
        | inl full ↦ rw full (u, below)
        | inr room ↦
            rw (room, numbers)
              (
                Unshared-snoc m.fresh (ids m.subscriptions) below u,
                All-append (λ y. y < m.fresh + 1) (ids m.subscriptions) (m.fresh ∷ [])
                    (below_mono m.fresh (ids m.subscriptions) below) (omega arith, tt),
              )
      ]

decide-Numbered :
    (session : Session) (tokens : List ℕ) (now : ℕ) (m : Manager)
    → Numbered m
    → Numbered (decide session tokens now m).1
unfolding decide
decide-Numbered session tokens now m v = elim (Option-cases (lookup session m.subscriptions)) [
  | inr (entry, found) ↦ rw (found, decide) v
  | inl new ↦ rw (new, decide) (create-Numbered session tokens now m new v)
]

act-Numbered :
    (tokens : List ℕ) (outcome : Outcome) (m : Manager)
    → Numbered m
    → Numbered (act tokens outcome m).1
unfolding act replace_watched_tokens
act-Numbered tokens (err e) m v = v
act-Numbered tokens (ok (existing id)) m v = v
act-Numbered tokens (ok (created id)) m v = v

subscribe-Numbered :
    (session : Session) (m : Manager) → Numbered m → Numbered (subscribe session m).1
unfolding subscribe
subscribe-Numbered session m v = elim (Option-cases (lookup session m.subscriptions)) [
  | inl absent ↦ rw (absent, subscribe) v
  | inr (e, found) ↦
      rw (found, subscribe)
        (kept-Numbered m.fresh _ _ (ids-insert_old session _ e m.subscriptions found refl) v)
]

unsubscribe-Numbered :
    (session : Session) (now : ℕ) (m : Manager)
    → Numbered m
    → Numbered (unsubscribe session now m).1
unfolding unsubscribe
unsubscribe-Numbered session now m v = elim (Option-cases (lookup session m.subscriptions)) [
  | inl absent ↦ rw (absent, unsubscribe) v
  | inr (e, found) ↦ elim (Option-cases (checked_pred e.clients)) [
    | inl zero ↦ rw (found, zero, unsubscribe) v
    | inr (n, pred) ↦
        rw (found, pred, unsubscribe)
          (kept-Numbered m.fresh _ _ (ids-insert_old session _ e m.subscriptions found refl) v)
  ]
]

cleanup_subs-Numbered : (now : ℕ) (m : Manager) → Numbered m → Numbered (cleanup_subs now m)
unfolding cleanup_subs
cleanup_subs-Numbered now m (u, below) = (
  Unshared-retain (λ _ sub. not (should_remove now sub)) m.subscriptions u,
  All-ids-retain (λ y. y < m.fresh) (λ _ sub. not (should_remove now sub)) m.subscriptions below,
)

Step-Numbered : {v w : World} → Step v w → Numbered v.manager → Numbered w.manager
Step-Numbered (finds session tokens entry found) i = i
Step-Numbered {v} (decides session tokens now) i = decide-Numbered session tokens now v.manager i
Step-Numbered {v} (acts front back tokens outcome e) i = act-Numbered tokens outcome v.manager i
Step-Numbered {v} (subscribes session) i = subscribe-Numbered session v.manager i
Step-Numbered {v} (unsubscribes session now) i = unsubscribe-Numbered session now v.manager i
Step-Numbered {v} (cleans now) i = cleanup_subs-Numbered now v.manager i

Reach-Numbered : {w : World} → Reach start w → Numbered w.manager
unfolding empty
Reach-Numbered here = (tt, tt)
Reach-Numbered (next r st) = Step-Numbered st (Reach-Numbered r)

pub Reach-Unshared : {w : World} → Reach start w → Unshared (ids w.manager.subscriptions)
Reach-Unshared r = (Reach-Numbered r).0
