-- ===== src/SubscriptionManager/Heap.antt =====
-- The heap of subscriptions, and what an update of one of them leaves.
use balances_watcher.Base.{
  ℕ, ◌≡◌, ◌≢◌, refl, inl, inr, true, List, Option, none, some, nat_eq, nat_beq, nat_beq_iff,
  Option-cases, Bool-cases, arith,
}
use mathlib.Core.Path.{subst}
use balances_watcher.Base.Map.{lookup, lookup-insert_self, lookup-insert_ne}
use balances_watcher.Subscription.{Subscription}
use balances_watcher.SubscriptionManager.{modify}

pub lookup-modify_ne :
    (k id : ℕ) (f : Subscription → Subscription) (heap : List (ℕ × Subscription))
    → k ≢ id
    → lookup id (modify k f heap) ≡ lookup id heap
lookup-modify_ne k id f heap other = elim (Option-cases (lookup k heap)) [
  | inl e ↦ rw (e, modify) refl
  | inr (s, e) ↦ rw (e, modify) (lookup-insert_ne k id (f s) heap other)
]

pub lookup-modify_self :
    (k : ℕ) (f : Subscription → Subscription) (s : Subscription) (heap : List (ℕ × Subscription))
    → lookup k heap ≡ some s
    → lookup k (modify k f heap) ≡ some (f s)
lookup-modify_self k f s heap found = rw (found, modify) (lookup-insert_self k (f s) heap)

-- A subscription is still there, and still cancelled if it was.
abbrev pub Evolves : Option Subscription → Option Subscription → Type 0
Evolves none none = Unit
Evolves (some s) (some s') = s.is_cancelled ≡ true → s'.is_cancelled ≡ true
Evolves _ _ = ⊥

pub Evolves-refl : (o : Option Subscription) → Evolves o o
Evolves-refl none = tt
Evolves-refl (some s) = λ h. h

pub Evolves-trans : (o p q : Option Subscription) → Evolves o p → Evolves p q → Evolves o q
Evolves-trans none none none e f = tt
Evolves-trans (some s) (some t) (some u) e f = λ h. f (e h)
Evolves-trans none (some t) q e f = absurd e
Evolves-trans (some s) none q e f = absurd e
Evolves-trans none none (some u) e f = absurd f
Evolves-trans (some s) (some t) none e f = absurd f

abbrev pub KeepsHeap : List (ℕ × Subscription) → List (ℕ × Subscription) → Type 0
KeepsHeap heap heap' = (id : ℕ) → Evolves (lookup id heap) (lookup id heap')

pub modify-KeepsHeap :
    (k : ℕ) (f : Subscription → Subscription) (heap : List (ℕ × Subscription))
    → ((s : Subscription) → s.is_cancelled ≡ true → (f s).is_cancelled ≡ true)
    → KeepsHeap heap (modify k f heap)
modify-KeepsHeap k f heap keeps id = elim (Bool-cases (nat_beq k id)) [
  | inr other ↦
      rw (lookup-modify_ne k id f heap (λ e. absurd (ground (arith, e))))
        (Evolves-refl (lookup id heap))
  | inl here ↦
      subst (λ i. Evolves (lookup i heap) (lookup i (modify k f heap))) ((nat_beq_iff k id).0 here)
        (elim (Option-cases (lookup k heap)) [
          | inl e ↦ rw (e, modify) (rw e tt)
          | inr (s, e) ↦ rw (lookup-modify_self k f s heap e, e) (keeps s)
        ])
]
