-- ===== src/SubscriptionManager/Drops.antt =====
-- What the cleanup's removal does to the subscriptions, and which sessions it leaves.
use balances_watcher.Base.{
  ℕ, ◌+◌, ◌≡◌, refl, sym, ap, ◌∙◌, ◌⊎◌, inl, inr, Bool, true, false, List, [], ◌∷◌, Memᴰ, nat_eq,
  Bool-cases,
}
use mathlib.Core.Path.{subst}
use balances_watcher.Base.Map.{lookup, retain}
use balances_watcher.Domain.Session.{Session, session_eq}
use balances_watcher.Subscription.{Subscription, cancel}
use balances_watcher.SubscriptionManager.{SubWithCounter, Metrics, modify, decrement}
use balances_watcher.SubscriptionManager.Heap.{
  Evolves, Evolves-refl, Evolves-trans, KeepsHeap, modify-KeepsHeap,
}
use balances_watcher.SubscriptionManager.Cleanup.{should_remove, drop_each}
use balances_watcher.SubscriptionManager.Expiry.{
  IsCancelled, IsPresent, modify-cancel, IsPresent-modify, drop_each-IsCancelled,
}
use balances_watcher.SubscriptionManager.Numbers.{ids}

cancel_again : (s : Subscription) → s.is_cancelled ≡ true → (cancel s).is_cancelled ≡ true
unfolding cancel
cancel_again s c = refl

drop_each_none :
    (now : ℕ) (heap : List (ℕ × Subscription)) (metrics : Metrics)
    → heap ≡ (drop_each now [] (heap, metrics)).0
unfolding drop_each
drop_each_none now heap metrics = refl

unfoldable expired : Metrics → Metrics
unfolding decrement
expired metrics = record metrics {
  sessions_expired_total = metrics.sessions_expired_total + 1;
  active_sessions = decrement metrics.active_sessions;
}

drop_each_step :
    (now : ℕ) (session : Session) (sub : SubWithCounter) (subs : List (Session × SubWithCounter))
    (heap : List (ℕ × Subscription)) (metrics : Metrics)
    → ((should_remove now sub ≡ false)
        × (drop_each now ((session, sub) ∷ subs) (heap, metrics)
            ≡ drop_each now subs (heap, metrics)))
      ⊎ ((should_remove now sub ≡ true)
          × ((metrics' : Metrics) × (drop_each now ((session, sub) ∷ subs) (heap, metrics)
                ≡ drop_each now subs (modify sub.subscription cancel heap, metrics'))))
unfolding drop_each expired
drop_each_step now session sub subs heap metrics = elim (Bool-cases (should_remove now sub)) [
  | inr stays ↦ inl (stays, rw (stays, drop_each) refl)
  | inl gone ↦ inr (gone, (expired metrics, rw (gone, drop_each) refl))
]

pub drop_each-KeepsHeap :
    (now : ℕ) (subs : List (Session × SubWithCounter)) (heap : List (ℕ × Subscription))
    (metrics : Metrics)
    → KeepsHeap heap (drop_each now subs (heap, metrics)).0
drop_each-KeepsHeap now [] heap metrics id =
    subst (λ acc. Evolves (lookup id heap) (lookup id acc)) (drop_each_none now heap metrics)
      (Evolves-refl (lookup id heap))
drop_each-KeepsHeap now ((session, sub) ∷ subs) heap metrics id =
    elim (drop_each_step now session sub subs heap metrics) [
      | inl (stays, e) ↦
          subst (λ acc. Evolves (lookup id heap) (lookup id acc.0)) (sym e)
            (drop_each-KeepsHeap now subs heap metrics id)
      | inr (gone, (metrics', e)) ↦
          subst (λ acc. Evolves (lookup id heap) (lookup id acc.0)) (sym e)
            (Evolves-trans (lookup id heap) (lookup id (modify sub.subscription cancel heap)) _
              (modify-KeepsHeap sub.subscription cancel heap cancel_again id)
              (drop_each-KeepsHeap now subs (modify sub.subscription cancel heap) metrics' id))
    ]

-- A dropped session's subscription is cancelled.
pub drop_each-cancels :
    (now : ℕ) (subs : List (Session × SubWithCounter)) (heap : List (ℕ × Subscription))
    (metrics : Metrics) (session : Session) (entry : SubWithCounter)
    → Memᴰ (session, entry) subs
    → should_remove now entry ≡ true
    → IsPresent entry.subscription heap
    → IsCancelled entry.subscription (drop_each now subs (heap, metrics)).0
drop_each-cancels now [] heap metrics session entry m gone there = elim m [ ]
drop_each-cancels now ((k, sub) ∷ subs) heap metrics session entry (Memᴰ.head at_k) gone there =
    let same : entry ≡ sub = ap (λ x. x.1) at_k in
    elim (drop_each_step now k sub subs heap metrics) [
      | inl (stays, e) ↦ absurd (cc (sym gone ∙ ap (should_remove now) same ∙ stays))
      | inr (drops, (metrics', e)) ↦
          subst (λ acc. IsCancelled entry.subscription acc.0) (sym e)
            (drop_each-IsCancelled now entry.subscription subs (modify sub.subscription cancel heap)
              metrics'
              (subst (λ x. IsCancelled entry.subscription (modify x.subscription cancel heap)) same
                (modify-cancel entry.subscription heap there)))
    ]
drop_each-cancels now ((k, sub) ∷ subs) heap metrics session entry (Memᴰ.tail m) gone there =
    elim (drop_each_step now k sub subs heap metrics) [
      | inl (stays, e) ↦
          subst (λ acc. IsCancelled entry.subscription acc.0) (sym e)
            (drop_each-cancels now subs heap metrics session entry m gone there)
      | inr (drops, (metrics', e)) ↦
          subst (λ acc. IsCancelled entry.subscription acc.0) (sym e)
            (drop_each-cancels now subs (modify sub.subscription cancel heap) metrics' session entry
              m gone (IsPresent-modify entry.subscription sub.subscription heap there))
    ]

-- A number in use stays in use, or its entry is removed.
pub retained_or_removed :
    (p : Session → SubWithCounter → Bool) (id : ℕ) (subs : List (Session × SubWithCounter))
    → Memᴰ id (ids subs)
    → Memᴰ id (ids (retain p subs))
      ⊎ ((session : Session) × (entry : SubWithCounter) × Memᴰ (session, entry) subs
          × (p session entry ≡ false)
          × (entry.subscription ≡ id))
unfolding retain
retained_or_removed p id [] m = elim m [ ]
retained_or_removed p id ((k, e) ∷ subs) (Memᴰ.head at_k) = elim (Bool-cases (p k e)) [
  | inl keep ↦ inl (rw keep (Memᴰ.head at_k))
  | inr drop ↦ inr (k, e, Memᴰ.head refl, drop, sym at_k)
]
retained_or_removed p id ((k, e) ∷ subs) (Memᴰ.tail m) = elim (retained_or_removed p id subs m) [
  | inr (session, entry, there, drop, same) ↦ inr (session, entry, Memᴰ.tail there, drop, same)
  | inl stays ↦ elim (Bool-cases (p k e)) [
    | inl keep ↦ inl (rw keep (Memᴰ.tail stays))
    | inr drop ↦ inl (rw drop stays)
  ]
]

pub retained :
    (p : Session → SubWithCounter → Bool) (id : ℕ) (subs : List (Session × SubWithCounter))
    → Memᴰ id (ids (retain p subs))
    → Memᴰ id (ids subs)
unfolding retain
retained p id [] m = m
retained p id ((k, e) ∷ subs) m = elim (Bool-cases (p k e)) [
  | inl keep ↦ elim (rw keep at m) [
    | Memᴰ.head at_k ↦ Memᴰ.head at_k
    | Memᴰ.tail later ↦ Memᴰ.tail (retained p id subs later)
  ]
  | inr drop ↦ Memᴰ.tail (retained p id subs (rw drop at m))
]
