-- ===== src/SubscriptionManager/Held.antt =====
-- Each subscription is registered, or its workers are cancelled: what the methods but the cleanup
-- keep.
use balances_watcher.Base.{
  ℕ, ◌≡◌, ◌≢◌, refl, sym, ap, ◌∙◌, ◌⊎◌, inl, inr, true, false, List, [], ◌∷◌, ◌++◌, Option, none,
  some, Memᴰ, mem_left, mem_right, mem_split, nat_eq, nat_beq, nat_beq_iff, arith, leb, ok, err,
  Option-cases, Bool-cases, some-injective,
}
use mathlib.Core.Path.{subst}
use balances_watcher.Base.Map.{lookup, insert, lookup-insert_self, lookup-insert_ne}
use balances_watcher.Domain.Session.{Session, session_eq}
use balances_watcher.Subscription
use balances_watcher.Subscription.{
  Subscription, cancel, set_watched_tokens, emit_balance_snapshot_refresh,
}
use balances_watcher.SubscriptionManager.{
  Manager, signal_if_changed, replace_watched_tokens, create_session_locked, decide, act, subscribe,
  unsubscribe, checked_pred, existing, created, max_clients_per_owner, existing_for_owner,
}
use balances_watcher.SubscriptionManager.Heap.{Evolves, Evolves-refl, KeepsHeap, modify-KeepsHeap}
use balances_watcher.SubscriptionManager.Numbers.{ids, ids-insert_new, ids-insert_old}
use balances_watcher.SubscriptionManager.Interleaving.{Outcome}

-- No workers are left over, and every session has its subscription.
pub record Held (m : Manager) : Type 0 where
  pub stored :
      (id : ℕ) → Memᴰ id (ids m.subscriptions) → (s : Subscription) × (lookup id m.heap ≡ some s)
  pub no_leak :
      (id : ℕ) (s : Subscription)
      → lookup id m.heap ≡ some s
      → (s.is_cancelled ≡ true) ⊎ Memᴰ id (ids m.subscriptions)

pub Evolves-some :
    (o o' : Option Subscription) (s : Subscription)
    → Evolves o o'
    → o ≡ some s
    → (s' : Subscription) × (o' ≡ some s')
Evolves-some none o' s e h = cc
Evolves-some (some t) none s e h = absurd e
Evolves-some (some t) (some s') s e h = (s', refl)

pub Evolves-back :
    (o o' : Option Subscription) (s' : Subscription)
    → Evolves o o'
    → o' ≡ some s'
    → (s : Subscription) × (o ≡ some s) × (s.is_cancelled ≡ true → s'.is_cancelled ≡ true)
Evolves-back none none s' e h = cc
Evolves-back none (some t) s' e h = absurd e
Evolves-back (some s) none s' e h = absurd e
Evolves-back (some s) (some t) s' e h =
    (s, refl, λ c. ap (λ x. x.is_cancelled) (sym (some-injective h)) ∙ e c)

-- Steps that register and remove nothing.
kept-Held :
    (m m' : Manager)
    → ids m'.subscriptions ≡ ids m.subscriptions
    → KeepsHeap m.heap m'.heap
    → Held m
    → Held m'
kept-Held m m' same keeps h = record {
  stored = λ id there.
      let (s, e) = h.stored id (subst (Memᴰ id) same there) in
      Evolves-some (lookup id m.heap) (lookup id m'.heap) s (keeps id) e;
  no_leak = λ id s' e'.
      let (s, e, cancelled) =
        Evolves-back (lookup id m.heap) (lookup id m'.heap) s' (keeps id) e' in
      elim (h.no_leak id s e) [
        | inl c ↦ inl (cancelled c)
        | inr there ↦ inr (subst (Memᴰ id) (sym same) there)
      ];
}

-- A new session with a new subscription.
grown-Held :
    (m m' : Manager) (k : ℕ) (t : Subscription)
    → ids m'.subscriptions ≡ ids m.subscriptions ++ k ∷ []
    → m'.heap ≡ insert k t m.heap
    → Held m
    → Held m'
grown-Held m m' k t numbers heap h = record {
  stored = λ id there. elim (Bool-cases (nat_beq k id)) [
    | inl same ↦ (
      t,
      subst (λ x. lookup id x ≡ some t) (sym heap)
          (subst (λ i. lookup i (insert k t m.heap) ≡ some t) ((nat_beq_iff k id).0 same)
            (lookup-insert_self k t m.heap)),
    )
    | inr other ↦
        let apart : k ≢ id = λ e. absurd (ground (arith, e)) in
        let (s, e) = h.stored id (old_one id other (subst (Memᴰ id) numbers there)) in
        (s, ap (λ x. lookup id x) heap ∙ lookup-insert_ne k id t m.heap apart ∙ e)
  ];
  no_leak = λ id s e. elim (Bool-cases (nat_beq k id)) [
    | inl same ↦ inr (
        subst (Memᴰ id) (sym numbers)
          (mem_right (ids m.subscriptions) (k ∷ []) (Memᴰ.head (sym ((nat_beq_iff k id).0 same)))))
    | inr other ↦
        let apart : k ≢ id = λ e. absurd (ground (arith, e)) in
        elim (h.no_leak id s
          (sym (lookup-insert_ne k id t m.heap apart) ∙ ap (λ x. lookup id x) (sym heap) ∙ e)) [
            | inl c ↦ inl c
            | inr there ↦
                inr (subst (Memᴰ id) (sym numbers) (mem_left (ids m.subscriptions) (k ∷ []) there))
          ]
  ];
}
  where
    old_one :
        (id : ℕ)
        → nat_beq k id ≡ false
        → Memᴰ id (ids m.subscriptions ++ k ∷ [])
        → Memᴰ id (ids m.subscriptions)
    old_one id other there = elim (mem_split (ids m.subscriptions) (k ∷ []) there) [
      | inl old ↦ old
      | inr (Memᴰ.head e) ↦ absurd (ground (arith, e))
      | inr (Memᴰ.tail none_left) ↦ elim none_left [ ]
    ]

create-Held :
    (session : Session) (tokens : List ℕ) (now : ℕ) (m : Manager)
    → lookup session m.subscriptions ≡ none
    → Held m
    → Held (create_session_locked session tokens now m).1
unfolding create_session_locked
create-Held session tokens now m absent h =
    elim (Bool-cases
      (leb max_clients_per_owner (existing_for_owner session.owner m.subscriptions))) [
        | inl full ↦ rw full (kept-Held m _ refl (λ id. Evolves-refl (lookup id m.heap)) h)
        | inr room ↦ rw room (
            grown-Held m _ m.fresh (Subscription.new tokens)
              (ids-insert_new session _ m.subscriptions absent) refl h)
      ]

pub decide-Held :
    (session : Session) (tokens : List ℕ) (now : ℕ) (m : Manager)
    → Held m
    → Held (decide session tokens now m).1
unfolding decide
decide-Held session tokens now m h = elim (Option-cases (lookup session m.subscriptions)) [
  | inr (entry, found) ↦ rw (found, decide) h
  | inl new ↦ rw (new, decide) (create-Held session tokens now m new h)
]

replaced_cancelled :
    (tokens : List ℕ) (s : Subscription)
    → s.is_cancelled ≡ true
    → (signal_if_changed (set_watched_tokens tokens s)).is_cancelled ≡ true
unfolding signal_if_changed set_watched_tokens emit_balance_snapshot_refresh
replaced_cancelled tokens s c = ground arith

pub act-Held :
    (tokens : List ℕ) (outcome : Outcome) (m : Manager) → Held m → Held (act tokens outcome m).1
unfolding act replace_watched_tokens
act-Held tokens (err e) m h = h
act-Held tokens (ok (existing id)) m h =
    kept-Held m _ refl
      (modify-KeepsHeap id (λ s. signal_if_changed (set_watched_tokens tokens s)) m.heap
        (replaced_cancelled tokens))
      h
act-Held tokens (ok (created id)) m h = kept-Held m _ refl (λ id. Evolves-refl (lookup id m.heap)) h

pub subscribe-Held : (session : Session) (m : Manager) → Held m → Held (subscribe session m).1
unfolding subscribe
subscribe-Held session m h = elim (Option-cases (lookup session m.subscriptions)) [
  | inl absent ↦ rw (absent, subscribe) h
  | inr (e, found) ↦
      rw (found, subscribe)
        (kept-Held m _ (ids-insert_old session _ e m.subscriptions found refl)
          (λ id. Evolves-refl (lookup id m.heap)) h)
]

pub unsubscribe-Held :
    (session : Session) (now : ℕ) (m : Manager) → Held m → Held (unsubscribe session now m).1
unfolding unsubscribe
unsubscribe-Held session now m h = elim (Option-cases (lookup session m.subscriptions)) [
  | inl absent ↦ rw (absent, unsubscribe) h
  | inr (e, found) ↦ elim (Option-cases (checked_pred e.clients)) [
    | inl no_client ↦ rw (found, no_client, unsubscribe) h
    | inr (n, pred) ↦
        rw (found, pred, unsubscribe)
          (kept-Held m _ (ids-insert_old session _ e m.subscriptions found refl)
            (λ id. Evolves-refl (lookup id m.heap)) h)
  ]
]
