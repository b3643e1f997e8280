-- ===== src/SubscriptionManager/Expiry.antt =====
-- Which sessions the cleanup removes, and what becomes of their subscriptions.
use balances_watcher.Base.{
  ℕ, ◌+◌, ◌<◌, ◌≡◌, refl, ◌∙◌, ◌⊎◌, inl, inr, ◌↔◌, true, not, List, [], ◌∷◌, none, some, arith,
  Option-cases, Bool-cases, nat_beq, nat_eq, ◌==◌,
}
use balances_watcher.Base.Map.{lookup, lookup-insert}
use balances_watcher.Base.Map.Laws.{Distinct, lookup-retain}
use balances_watcher.Domain.Session.{Session, session_eq}
use balances_watcher.Subscription.{Subscription, cancel}
use balances_watcher.SubscriptionManager.{SubWithCounter, Metrics, Manager, session_ttl, modify}
use balances_watcher.SubscriptionManager.Numbers.{ids, Unshared}
use balances_watcher.SubscriptionManager.Spared.{drop_each_spares}
use balances_watcher.SubscriptionManager.Cleanup.{
  idle_too_long, should_remove, drop_each, cleanup_subs,
}

abbrev pub IsExpired : ℕ → SubWithCounter → Type 0
IsExpired now e = (e.clients ≡ 0) × ((i : ℕ) × (e.idle_since ≡ some i) × (i + session_ttl < now))

pub should_remove_iff :
    (now : ℕ) (e : SubWithCounter) → (should_remove now e ≡ true) ↔ IsExpired now e
unfolding should_remove idle_too_long
should_remove_iff now e = elim (Option-cases e.idle_since) [
  | inl active ↦ (λ h. ground arith, λ (c, (i, marked, late)). cc)
  | inr (t, idle) ↦
      (λ h. (ground arith, (t, idle, ground arith)), λ (c, (i, marked, late)). ground arith)
]

-- The subscription of a number is there and cancelled.
abbrev pub IsCancelled : ℕ → List (ℕ × Subscription) → Type 0
IsCancelled id heap = (s : Subscription) × (lookup id heap ≡ some s) × (s.is_cancelled ≡ true)

abbrev pub IsPresent : ℕ → List (ℕ × Subscription) → Type 0
IsPresent id heap = (s : Subscription) × (lookup id heap ≡ some s)

pub modify-cancel :
    (id : ℕ) (heap : List (ℕ × Subscription))
    → IsPresent id heap
    → IsCancelled id (modify id cancel heap)
unfolding cancel
modify-cancel id heap (s, found) =
    rw (found, modify) (cancel s, ground (arith, lookup-insert id id (cancel s) heap), refl)

pub IsPresent-modify :
    (id other : ℕ) (heap : List (ℕ × Subscription))
    → IsPresent id heap
    → IsPresent id (modify other cancel heap)
unfolding cancel
IsPresent-modify id other heap (s, found) = elim (Option-cases (lookup other heap)) [
  | inl missing ↦ rw (missing, modify) (s, found)
  | inr (t, there) ↦ elim (Bool-cases (nat_beq other id)) [
    | inl same ↦
        rw (there, modify) (cancel t, ground (arith, lookup-insert other id (cancel t) heap))
    | inr differs ↦ rw (there, modify) (s, ground (arith, lookup-insert other id (cancel t) heap))
  ]
]

IsCancelled-modify :
    (id other : ℕ) (heap : List (ℕ × Subscription))
    → IsCancelled id heap
    → IsCancelled id (modify other cancel heap)
unfolding cancel
IsCancelled-modify id other heap (s, found, gone) = elim (Option-cases (lookup other heap)) [
  | inl missing ↦ rw (missing, modify) (s, found, gone)
  | inr (t, there) ↦ elim (Bool-cases (nat_beq other id)) [
    | inl same ↦
        rw (there, modify) (cancel t, ground (arith, lookup-insert other id (cancel t) heap), refl)
    | inr differs ↦
        rw (there, modify) (s, ground (arith, lookup-insert other id (cancel t) heap), gone)
  ]
]

pub drop_each-IsCancelled :
    (now id : ℕ) (subs : List (Session × SubWithCounter)) (heap : List (ℕ × Subscription))
    (metrics : Metrics)
    → IsCancelled id heap
    → IsCancelled id (drop_each now subs (heap, metrics)).0
unfolding drop_each
drop_each-IsCancelled now id [] heap metrics c = c
drop_each-IsCancelled now id ((session, sub) ∷ subs) heap metrics c =
    elim (Bool-cases (should_remove now sub)) [
      | inl gone ↦
          rw (gone, drop_each)
            (drop_each-IsCancelled now id subs (modify sub.subscription cancel heap) _
              (IsCancelled-modify id sub.subscription heap c))
      | inr stays ↦ rw (stays, drop_each) (drop_each-IsCancelled now id subs heap metrics c)
    ]

drop_each_removed :
    (now : ℕ) (session : Session) (e : SubWithCounter) (subs : List (Session × SubWithCounter))
    (heap : List (ℕ × Subscription)) (metrics : Metrics)
    → lookup session subs ≡ some e
    → should_remove now e ≡ true
    → IsPresent e.subscription heap
    → IsCancelled e.subscription (drop_each now subs (heap, metrics)).0
unfolding drop_each lookup
drop_each_removed now session e [] heap metrics found gone there = cc
drop_each_removed now session e ((first, sub) ∷ subs) heap metrics found gone there =
    elim (Bool-cases (first == session)) [
      | inl here ↦
          let same : sub ≡ e = ground arith in
          rw (same, gone, drop_each)
            (drop_each-IsCancelled now e.subscription subs (modify e.subscription cancel heap) _
              (modify-cancel e.subscription heap there))
      | inr later ↦ elim (Bool-cases (should_remove now sub)) [
        | inl drops ↦
            rw (drops, drop_each)
              (drop_each_removed now session e subs (modify sub.subscription cancel heap) _
                (rw later at found) gone
                (IsPresent-modify e.subscription sub.subscription heap there))
        | inr stays ↦
            rw (stays, drop_each)
              (drop_each_removed now session e subs heap metrics (rw later at found) gone there)
      ]
    ]

-- The cleanup, for a session whose subscription exists, in a registry that has no session twice and
-- in which no two sessions share a subscription. Either the session has no client and has been idle
-- for more than the time to live: then it is removed and its subscription is cancelled. Or it is
-- not so, and its entry and its subscription stay as they are.
pub cleanup_subs_cases :
    (now : ℕ) (session : Session) (e : SubWithCounter) (s : Subscription) (m : Manager)
    → Distinct m.subscriptions
    → Unshared (ids m.subscriptions)
    → lookup session m.subscriptions ≡ some e
    → lookup e.subscription m.heap ≡ some s
    → (IsExpired now e
        × (lookup session (cleanup_subs now m).subscriptions ≡ none)
        × IsCancelled e.subscription (cleanup_subs now m).heap)
      ⊎ (¬ IsExpired now e
          × (lookup session (cleanup_subs now m).subscriptions ≡ some e)
          × (lookup e.subscription (cleanup_subs now m).heap ≡ some s))
unfolding cleanup_subs
cleanup_subs_cases now session e s m distinct unshared found there =
    let stays = λ (k : Session) (sub : SubWithCounter). not (should_remove now sub) in
    let kept = lookup-retain stays session m.subscriptions distinct in
    elim (Bool-cases (should_remove now e)) [
      | inl gone ↦ inl (
        (should_remove_iff now e).0 gone,
        kept ∙ rw (found, gone),
        drop_each_removed now session e m.subscriptions m.heap m.metrics found gone (s, there),
      )
      | inr fresh ↦ inr (
        λ x. cc (fresh, (should_remove_iff now e).1 x),
        kept ∙ rw (found, fresh),
        drop_each_spares now session e m.subscriptions m.heap m.metrics unshared found fresh
            ∙ there,
      )
    ]
