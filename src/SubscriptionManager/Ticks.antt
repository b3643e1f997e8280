-- ===== src/SubscriptionManager/Ticks.antt =====
-- `spawn_cleanup` of src/services/subscription_manager.rs, over what the rounds of its `select!` yield,
-- and when an idle session is gone. A tick comes with what other tasks have done before it.
use balances_watcher.Base.{
  ℕ, zero, suc, ◌+◌, ◌*◌, ◌<◌, ◌≡◌, refl, ◌∙◌, ◌⊎◌, inl, inr, not, List, [], ◌∷◌, Option, none,
  some, arith, Bool-cases, nat_eq,
}
use balances_watcher.Base.Map.{lookup}
use balances_watcher.Base.Map.Laws.{Distinct, Distinct-retain, lookup-retain}
use balances_watcher.Domain.Session.{Session, session_eq}
use balances_watcher.SubscriptionManager.{SubWithCounter, Manager, session_ttl}
use balances_watcher.SubscriptionManager.Expiry.{should_remove_iff}
use balances_watcher.SubscriptionManager.Cleanup.{
  should_remove, cleanup_subs, close_sse_connections,
}

pub data CleanupMessage : Type 0 where
  cleanup_cancelled : CleanupMessage
  tick : (Manager → Manager) → ℕ → CleanupMessage

unfoldable pub spawn_cleanup : (ℕ → Option ℕ) → List CleanupMessage → Manager → Manager
unfolding cleanup_subs close_sse_connections
spawn_cleanup receivers [] m = m
spawn_cleanup receivers (cleanup_cancelled ∷ messages) m = close_sse_connections receivers m
spawn_cleanup receivers (tick others now ∷ messages) m =
    spawn_cleanup receivers messages (cleanup_subs now (others m))

-- Ticks at the interval of the task.
unfoldable pub every : (ℕ → Manager → Manager) → ℕ → ℕ → List CleanupMessage
every others start zero = []
every others start (suc n) = tick (others start) start ∷ every others (start + session_ttl) n

-- A session that other tasks leave alone.
abbrev pub Untouched : Session → (Manager → Manager) → Type 0
Untouched session others =
    (m : Manager)
    → Distinct m.subscriptions
    → Distinct (others m).subscriptions
      × (lookup session (others m).subscriptions ≡ lookup session m.subscriptions)

cleanup_subs-Distinct :
    (now : ℕ) (m : Manager) → Distinct m.subscriptions → Distinct (cleanup_subs now m).subscriptions
unfolding cleanup_subs
cleanup_subs-Distinct now m distinct =
    Distinct-retain (λ k sub. not (should_remove now sub)) m.subscriptions distinct

cleanup_subs-absent :
    (now : ℕ) (session : Session) (m : Manager)
    → Distinct m.subscriptions
    → lookup session m.subscriptions ≡ none
    → lookup session (cleanup_subs now m).subscriptions ≡ none
unfolding cleanup_subs
cleanup_subs-absent now session m distinct absent =
    lookup-retain (λ k sub. not (should_remove now sub)) session m.subscriptions distinct
    ∙ rw absent refl

cleanup_subs-idle :
    (now i : ℕ) (session : Session) (e : SubWithCounter) (m : Manager)
    → Distinct m.subscriptions
    → lookup session m.subscriptions ≡ some e
    → e.clients ≡ 0
    → e.idle_since ≡ some i
    → i + session_ttl < now
    → lookup session (cleanup_subs now m).subscriptions ≡ none
unfolding cleanup_subs
cleanup_subs-idle now i session e m distinct found alone idle late =
    lookup-retain (λ k sub. not (should_remove now sub)) session m.subscriptions distinct
    ∙ rw (found, (should_remove_iff now e).1 (alone, (i, idle, late))) refl

cleanup_subs-or :
    (now : ℕ) (session : Session) (e : SubWithCounter) (m : Manager)
    → Distinct m.subscriptions
    → lookup session m.subscriptions ≡ some e
    → (lookup session (cleanup_subs now m).subscriptions ≡ none)
      ⊎ (lookup session (cleanup_subs now m).subscriptions ≡ some e)
unfolding cleanup_subs
cleanup_subs-or now session e m distinct found =
    let kept =
      lookup-retain (λ k sub. not (should_remove now sub)) session m.subscriptions distinct in
    elim (Bool-cases (should_remove now e)) [
      | inl gone ↦ inl (kept ∙ rw (found, gone))
      | inr stays ↦ inr (kept ∙ rw (found, stays))
    ]

module _ (receivers : ℕ → Option ℕ) (session : Session) (others : ℕ → Manager → Manager)
    (untouched : (t : ℕ) → Untouched session (others t)) where
  stays_gone :
      (n start : ℕ) (m : Manager)
      → Distinct m.subscriptions
      → lookup session m.subscriptions ≡ none
      → lookup session (spawn_cleanup receivers (every others start n) m).subscriptions ≡ none
  unfolding spawn_cleanup every
  stays_gone zero start m distinct absent = absent
  stays_gone (suc n) start m distinct absent =
      let (distinct', same) = untouched start m distinct in
      stays_gone n (start + session_ttl) (cleanup_subs start (others start m))
        (cleanup_subs-Distinct start (others start m) distinct')
        (cleanup_subs-absent start session (others start m) distinct' (same ∙ absent))

  -- A session without clients that other tasks leave alone is gone behind ticks of the cleanup every
  -- `SESSION_TTL`, if the last of them comes later than `SESSION_TTL` after the session went idle.
  pub spawn_cleanup-removes :
      (n start i : ℕ) (e : SubWithCounter) (m : Manager)
      → Distinct m.subscriptions
      → lookup session m.subscriptions ≡ some e
      → e.clients ≡ 0
      → e.idle_since ≡ some i
      → i + session_ttl < start + n * session_ttl
      → lookup session (spawn_cleanup receivers (every others start (suc n)) m).subscriptions ≡ none
  unfolding spawn_cleanup every
  spawn_cleanup-removes zero start i e m distinct found alone idle late =
      let (distinct', same) = untouched start m distinct in
      cleanup_subs-idle start i session e (others start m) distinct' (same ∙ found) alone idle
        (omega arith)
  spawn_cleanup-removes (suc n) start i e m distinct found alone idle late =
      let (distinct', same) = untouched start m distinct in
      let next = cleanup_subs start (others start m) in
      let distinct'' = cleanup_subs-Distinct start (others start m) distinct' in
      elim (cleanup_subs-or start session e (others start m) distinct' (same ∙ found)) [
        | inl gone ↦ stays_gone (suc n) (start + session_ttl) next distinct'' gone
        | inr stays ↦
            spawn_cleanup-removes n (start + session_ttl) i e next distinct'' stays alone idle
              (omega arith)
      ]
