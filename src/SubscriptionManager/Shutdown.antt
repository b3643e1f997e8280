-- ===== src/SubscriptionManager/Shutdown.antt =====
-- The shutdown of src/services/subscription_manager.rs: what `close_sse_connections` sends.
use balances_watcher.Base.{
  ℕ, ◌≡◌, ◌≢◌, refl, sym, ap, ◌∙◌, List, [], ◌∷◌, Option, some, All, Memᴰ, nat_eq,
}
use mathlib.Core.Path.{subst}
use balances_watcher.Base.Map.{lookup}
use balances_watcher.Domain.Session.{Session, BalanceEvent, error}
use balances_watcher.Subscription.{Subscription, send_event}
use balances_watcher.SubscriptionManager.{SubWithCounter}
use balances_watcher.SubscriptionManager.Heap.{lookup-modify_ne, lookup-modify_self}
use balances_watcher.SubscriptionManager.Numbers.{ids, Unshared, Reach-Unshared}
use balances_watcher.SubscriptionManager.Interleaving.{World, Reach}
use balances_watcher.SubscriptionManager.Reachable.{start}
use balances_watcher.SubscriptionManager.Leaks.{Reach-stored}
use balances_watcher.SubscriptionManager.Cleanup.{send_close, close_sse_connections}

abbrev pub closing : BalanceEvent
closing = error 503 "server is shutting down"

ids-mem :
    (session : Session) (entry : SubWithCounter) (subs : List (Session × SubWithCounter))
    → Memᴰ (session, entry) subs
    → Memᴰ entry.subscription (ids subs)
ids-mem session entry [] m = elim m [ ]
ids-mem session entry (x ∷ subs) (Memᴰ.head e) = Memᴰ.head (ap (λ y. y.1.subscription) e)
ids-mem session entry (x ∷ subs) (Memᴰ.tail m) = Memᴰ.tail (ids-mem session entry subs m)

module _ (receivers : ℕ → Option ℕ) where
  send_close-others :
      (id : ℕ) (subs : List (Session × SubWithCounter)) (heap : List (ℕ × Subscription))
      → All (λ y. id ≢ y) (ids subs)
      → lookup id (send_close receivers subs heap) ≡ lookup id heap
  unfolding send_close
  send_close-others id [] heap apart = refl
  send_close-others id ((session, entry) ∷ subs) heap apart =
      send_close-others id subs _ apart.1
      ∙ lookup-modify_ne entry.subscription id _ heap (λ e. apart.0 (sym e))

  Unshared-mem :
      (session : Session) (entry : SubWithCounter) (id : ℕ) (subs : List (Session × SubWithCounter))
      → All (λ y. id ≢ y) (ids subs)
      → Memᴰ (session, entry) subs
      → id ≢ entry.subscription
  Unshared-mem session entry id [] apart m = elim m [ ]
  Unshared-mem session entry id (x ∷ subs) apart (Memᴰ.head e) =
      λ same. apart.0 (same ∙ ap (λ y. y.1.subscription) e)
  Unshared-mem session entry id (x ∷ subs) apart (Memᴰ.tail m) =
      λ same. Unshared-mem session entry id subs apart.1 m same

  send_close-sent :
      (session : Session) (entry : SubWithCounter) (s : Subscription)
      (subs : List (Session × SubWithCounter)) (heap : List (ℕ × Subscription))
      → Unshared (ids subs)
      → Memᴰ (session, entry) subs
      → lookup entry.subscription heap ≡ some s
      → lookup entry.subscription (send_close receivers subs heap)
        ≡ some (send_event (receivers entry.subscription) closing s)
  unfolding send_close
  send_close-sent session entry s [] heap unshared m found = elim m [ ]
  send_close-sent session entry s ((k, x) ∷ subs) heap unshared (Memᴰ.head e) found =
      let same : entry.subscription ≡ x.subscription = ap (λ y. y.1.subscription) e in
      subst
        (λ id.
          lookup id (send_close receivers ((k, x) ∷ subs) heap)
          ≡ some (send_event (receivers id) closing s))
        (sym same)
        (send_close-others x.subscription subs _ unshared.0
          ∙ lookup-modify_self x.subscription _ s heap
              (ap (λ id. lookup id heap) (sym same) ∙ found))
  send_close-sent session entry s ((k, x) ∷ subs) heap unshared (Memᴰ.tail m) found =
      send_close-sent session entry s subs _ unshared.1 m (
        lookup-modify_ne x.subscription entry.subscription _ heap
          (Unshared-mem session entry x.subscription subs unshared.0 m)
        ∙ found)

  -- After any steps from the empty registry, the shutdown leaves no session registered, and the
  -- subscription of each session that was registered exists and has been sent one event more, the
  -- 503 of the shutdown.
  pub close_sse_connections-sent :
      {w : World} (session : Session) (entry : SubWithCounter)
      → Reach start w
      → Memᴰ (session, entry) w.manager.subscriptions
      → ((close_sse_connections receivers w.manager).subscriptions ≡ [])
        × ((s : Subscription) × (lookup entry.subscription w.manager.heap ≡ some s)
            × (lookup entry.subscription (close_sse_connections receivers w.manager).heap
                ≡ some (send_event (receivers entry.subscription) closing s)))
  unfolding close_sse_connections
  close_sse_connections-sent {w} session entry reached there =
      let (s, found) =
        Reach-stored reached entry.subscription
          (ids-mem session entry w.manager.subscriptions there) in
      (
        refl,
        (
          s,
          found,
          send_close-sent session entry s w.manager.subscriptions w.manager.heap
              (Reach-Unshared reached) there found,
        ),
      )
