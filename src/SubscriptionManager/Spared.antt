-- ===== src/SubscriptionManager/Spared.antt =====
-- The subscriptions that the cleanup leaves alone.
use balances_watcher.Base.{
  ℕ, ◌≡◌, ◌≢◌, refl, sym, ◌∙◌, inl, inr, false, List, [], ◌∷◌, some, All, nat_eq, arith, Bool-cases,
  ◌==◌,
}
use mathlib.Core.Path.{subst}
use balances_watcher.Base.Map.{lookup}
use balances_watcher.Domain.Session.{Session, session_eq}
use balances_watcher.Subscription.{Subscription, cancel}
use balances_watcher.SubscriptionManager.{SubWithCounter, Metrics, modify}
use balances_watcher.SubscriptionManager.Heap.{lookup-modify_ne}
use balances_watcher.SubscriptionManager.Numbers.{ids, Unshared}
use balances_watcher.SubscriptionManager.Cleanup.{should_remove, drop_each}

All-lookup :
    (P : ℕ → Type 0) (session : Session) (e : SubWithCounter)
    (subs : List (Session × SubWithCounter))
    → All P (ids subs)
    → lookup session subs ≡ some e
    → P e.subscription
unfolding lookup
All-lookup P session e [] a found = absurd (cc found)
All-lookup P session e ((k, sub) ∷ subs) a found = elim (Bool-cases (k == session)) [
  | inl here ↦ let same : sub ≡ e = ground arith in subst (λ x. P x.subscription) same a.0
  | inr other ↦ All-lookup P session e subs a.1 (rw other at found)
]

-- A number that no session of the list has.
drop_each-others :
    (now id : ℕ) (subs : List (Session × SubWithCounter)) (heap : List (ℕ × Subscription))
    (metrics : Metrics)
    → All (λ y. id ≢ y) (ids subs)
    → lookup id (drop_each now subs (heap, metrics)).0 ≡ lookup id heap
unfolding drop_each
drop_each-others now id [] heap metrics apart = refl
drop_each-others now id ((k, sub) ∷ subs) heap metrics apart =
    elim (Bool-cases (should_remove now sub)) [
      | inl gone ↦
          rw (gone, drop_each)
            (drop_each-others now id subs (modify sub.subscription cancel heap) _ apart.1
              ∙ lookup-modify_ne sub.subscription id cancel heap (λ e. apart.0 (sym e)))
      | inr stays ↦ rw (stays, drop_each) (drop_each-others now id subs heap metrics apart.1)
    ]

pub drop_each_spares :
    (now : ℕ) (session : Session) (e : SubWithCounter) (subs : List (Session × SubWithCounter))
    (heap : List (ℕ × Subscription)) (metrics : Metrics)
    → Unshared (ids subs)
    → lookup session subs ≡ some e
    → should_remove now e ≡ false
    → lookup e.subscription (drop_each now subs (heap, metrics)).0 ≡ lookup e.subscription heap
unfolding drop_each lookup
drop_each_spares now session e [] heap metrics unshared found live = absurd (cc found)
drop_each_spares now session e ((k, sub) ∷ subs) heap metrics unshared found live =
    elim (Bool-cases (k == session)) [
      | inl here ↦
          let same : sub ≡ e = ground arith in
          rw (same, live, drop_each)
            (drop_each-others now e.subscription subs heap metrics
              (subst (λ x. All (λ y. x.subscription ≢ y) (ids subs)) same unshared.0))
      | inr later ↦
          let found' : lookup session subs ≡ some e = rw later at found in
          elim (Bool-cases (should_remove now sub)) [
            | inr stays ↦
                rw (stays, drop_each)
                  (drop_each_spares now session e subs heap metrics unshared.1 found' live)
            | inl drops ↦
                rw (drops, drop_each)
                  (drop_each_spares now session e subs (modify sub.subscription cancel heap) _
                      unshared.1 found' live
                    ∙ lookup-modify_ne sub.subscription e.subscription cancel heap
                        (All-lookup (λ y. sub.subscription ≢ y) session e subs unshared.0 found'))
          ]
    ]
