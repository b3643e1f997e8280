-- ===== src/SubscriptionManager/Leaks.antt =====
-- What becomes of the subscriptions: each is registered, or its workers are cancelled.
use balances_watcher.Base.{
  ℕ, ◌≡◌, ◌≢◌, sym, ap, ◌∙◌, ◌⊎◌, inl, inr, true, not, none, some, Memᴰ, nat_eq, arith,
  some-injective,
}
use balances_watcher.Base.Map.{lookup}
use balances_watcher.Domain.Session.{session_eq}
use balances_watcher.Subscription.{Subscription}
use balances_watcher.SubscriptionManager.{Manager, empty}
use balances_watcher.SubscriptionManager.Drops.{
  drop_each-KeepsHeap, drop_each-cancels, retained_or_removed, retained,
}
use balances_watcher.SubscriptionManager.Cleanup.{cleanup_subs, should_remove, drop_each}
use balances_watcher.SubscriptionManager.Numbers.{ids}
use balances_watcher.SubscriptionManager.Interleaving.{
  World, Step, finds, decides, acts, subscribes, unsubscribes, cleans, Reach, here, next,
}
use balances_watcher.SubscriptionManager.Reachable.{start}
use balances_watcher.SubscriptionManager.Held.{
  Held, Evolves-some, Evolves-back, decide-Held, act-Held, subscribe-Held, unsubscribe-Held,
}

cleanup_subs-Held : (now : ℕ) (m : Manager) → Held m → Held (cleanup_subs now m)
unfolding cleanup_subs
cleanup_subs-Held now m h = record {
  stored = λ id there.
      let (s, e) = h.stored id (retained _ id m.subscriptions there) in
      Evolves-some (lookup id m.heap) _ s
        (drop_each-KeepsHeap now m.subscriptions m.heap m.metrics id) e;
  no_leak = λ id s' e'.
      let (s, e, cancelled) =
        Evolves-back (lookup id m.heap) _ s'
          (drop_each-KeepsHeap now m.subscriptions m.heap m.metrics id) e' in
      elim (h.no_leak id s e) [
        | inl c ↦ inl (cancelled c)
        | inr there ↦
            elim (retained_or_removed (λ _ sub. not (should_remove now sub)) id m.subscriptions
              there) [
                | inl stays ↦ inr stays
                | inr (session, entry, among, drop, same) ↦
                    let (t, found, gone) =
                      drop_each-cancels now m.subscriptions m.heap m.metrics session entry among
                        (ground (arith, drop)) (s, ap (λ i. lookup i m.heap) same ∙ e) in
                    let one : t ≡ s' = some-injective (
                      sym found
                      ∙ ap (λ i. lookup i (drop_each now m.subscriptions (m.heap, m.metrics)).0)
                          same
                      ∙ e') in
                    inl (ap (λ x. x.is_cancelled) (sym one) ∙ gone)
              ]
      ];
}

Step-Held : {v w : World} → Step v w → Held v.manager → Held w.manager
Step-Held (finds session tokens entry found) h = h
Step-Held {v} (decides session tokens now) h = decide-Held session tokens now v.manager h
Step-Held {v} (acts front back tokens outcome e) h = act-Held tokens outcome v.manager h
Step-Held {v} (subscribes session) h = subscribe-Held session v.manager h
Step-Held {v} (unsubscribes session now) h = unsubscribe-Held session now v.manager h
Step-Held {v} (cleans now) h = cleanup_subs-Held now v.manager h

none_found : (s : Subscription) → none ≢ some s
none_found s e = cc

empty-Held : Held empty
unfolding empty lookup
empty-Held = record {
  stored = λ id there. elim there [ ];
  no_leak = λ id s e. absurd (none_found s e);
}

Reach-Held : {w : World} → Reach start w → Held w.manager
Reach-Held here = empty-Held
Reach-Held (next r st) = Step-Held st (Reach-Held r)

-- After any steps from the empty registry, the subscription of every registered session exists.
pub Reach-stored :
    {w : World}
    → Reach start w
    → (id : ℕ) → Memᴰ id (ids w.manager.subscriptions)
    → (s : Subscription) × (lookup id w.manager.heap ≡ some s)
Reach-stored r = (Reach-Held r).stored

-- After any steps from the empty registry, every subscription that exists is cancelled or is that of
-- a registered session: the workers of a session that was removed never run on.
pub Reach-no_leak :
    {w : World} (id : ℕ) (s : Subscription)
    → Reach start w
    → lookup id w.manager.heap ≡ some s
    → (s.is_cancelled ≡ true) ⊎ Memᴰ id (ids w.manager.subscriptions)
Reach-no_leak id s r found = (Reach-Held r).no_leak id s found
