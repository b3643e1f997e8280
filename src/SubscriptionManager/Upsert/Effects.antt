-- ===== src/SubscriptionManager/Upsert/Effects.antt =====
-- What `upsert` answers and changes, by what is registered when it looks.
use balances_watcher.Base.{
  ℕ, ◌+◌, ◌≡◌, refl, inl, inr, Bool, true, false, List, [], ◌∷◌, ◌++◌, Option, none, some, ok, err,
  Option-cases, Bool-cases, arith, if◌then◌else◌, ◌==◌, nat_eq, nat_beq, nat_beq_iff, ==-self,
}
use mathlib.Core.Path.{subst}
use balances_watcher.Base.Map.{lookup}
use balances_watcher.Base.Set.{contains, same, contains-same}
use balances_watcher.Domain.Session.{Session, session_eq}
use balances_watcher.Subscription
use balances_watcher.Subscription.{
  Subscription, set_watched_tokens, is_watched_token, emit_balance_snapshot_refresh,
}
use balances_watcher.Subscription.Watched.{lookup-retain}
use balances_watcher.SubscriptionManager.{
  Manager, Upserted, act, existing, created, replace_watched_tokens, signal_if_changed, increment,
  modify, existing_for_owner, SubscriptionError,
}
use balances_watcher.SubscriptionManager.Heap.{lookup-modify_ne, lookup-modify_self}

-- What a replacement of the watched tokens makes of a subscription.
pub record IsRewatched (tokens : List ℕ) (s s' : Subscription) : Type 0 where
  pub watched : (t : ℕ) → is_watched_token t s' ≡ contains t tokens
  pub balances :
      (t : ℕ)
      → lookup t s'.balances_snapshot ≡ (
          if same s.tokens tokens
          then lookup t s.balances_snapshot
          else (if contains t tokens then lookup t s.balances_snapshot else none))
  pub signals :
      s'.refresh_signals
      ≡ (if same s.tokens tokens then s.refresh_signals else s.refresh_signals + 1)
  pub as_open : s'.is_cancelled ≡ s.is_cancelled
  pub quiet : s'.sent ≡ s.sent

-- What the heap has under the number of the subscription. Under any other it stays.
abbrev pub IsReplaced : Bool → List ℕ → Option Subscription → Option Subscription → Type 0
IsReplaced false tokens before after = after ≡ before
IsReplaced true tokens none none = Unit {0}
IsReplaced true tokens (some s) (some s') = IsRewatched tokens s s'
IsReplaced true tokens _ _ = ⊥

-- The subscription of an entry is answered without a queue, and its watched tokens are replaced.
pub record IsUpdated (tokens : List ℕ) (id : ℕ) (m : Manager) (r : Upserted × Manager)
    : Type 0 where
  pub answer : r.0 ≡ ok (id, none)
  pub entries : r.1.subscriptions ≡ m.subscriptions
  pub unallocated : r.1.fresh ≡ m.fresh
  pub replaced : (n : ℕ) → IsReplaced (id == n) tokens (lookup n m.heap) (lookup n r.1.heap)
  pub updated : r.1.metrics.sessions_updated_total ≡ m.metrics.sessions_updated_total + 1
  pub created_before : r.1.metrics.sessions_created_total ≡ m.metrics.sessions_created_total
  pub active : r.1.metrics.active_sessions ≡ m.metrics.active_sessions

-- The session is registered under the next number, without a client, beside what was registered.
pub record IsRegistered (session : Session) (tokens : List ℕ) (now : ℕ) (m m' : Manager)
    : Type 0 where
  pub entries :
      (k : Session)
      → lookup k m'.subscriptions ≡ (
          if session == k
          then some (record { clients = 0; subscription = m.fresh; idle_since = some now })
          else lookup k m.subscriptions)
  pub stored :
      (n : ℕ)
      → lookup n m'.heap
        ≡ (if m.fresh == n then some (Subscription.new tokens) else lookup n m.heap)
  pub allocated : m'.fresh ≡ m.fresh + 1
  pub recorded :
      m'.metrics.sessions_per_owner
      ≡ m.metrics.sessions_per_owner ++ (existing_for_owner session.owner m.subscriptions + 1) ∷ []
  pub uncounted : m'.metrics.active_sessions ≡ m.metrics.active_sessions

-- The new subscription is answered with its queue, and counted once the lock is free.
pub record IsCreated (id : ℕ) (m : Manager) (r : Upserted × Manager) : Type 0 where
  pub answer : r.0 ≡ ok (id, some id)
  pub entries : r.1.subscriptions ≡ m.subscriptions
  pub heap : r.1.heap ≡ m.heap
  pub created_total : r.1.metrics.sessions_created_total ≡ m.metrics.sessions_created_total + 1
  pub active_ups : r.1.metrics.active_sessions.ups ≡ m.metrics.active_sessions.ups + 1
  pub active_downs : r.1.metrics.active_sessions.downs ≡ m.metrics.active_sessions.downs
  pub updated : r.1.metrics.sessions_updated_total ≡ m.metrics.sessions_updated_total

-- A refusal is counted, and registers nothing.
pub record IsRefused (m m' : Manager) : Type 0 where
  pub entries : m'.subscriptions ≡ m.subscriptions
  pub heap : m'.heap ≡ m.heap
  pub unallocated : m'.fresh ≡ m.fresh
  pub counted :
      m'.metrics.owner_client_limit_exceeded_total ≡ m.metrics.owner_client_limit_exceeded_total + 1
  pub created_before : m'.metrics.sessions_created_total ≡ m.metrics.sessions_created_total
  pub active : m'.metrics.active_sessions ≡ m.metrics.active_sessions

rewatch :
    (tokens : List ℕ) (s : Subscription)
    → IsRewatched tokens s (signal_if_changed (set_watched_tokens tokens s))
unfolding signal_if_changed set_watched_tokens emit_balance_snapshot_refresh is_watched_token
rewatch tokens s = elim (Bool-cases (same s.tokens tokens)) [
  | inl equal ↦ rw equal (record {
    watched = λ t. contains-same t s.tokens tokens equal;
    balances = λ t. rw equal refl;
    signals = rw equal refl;
    as_open = refl;
    quiet = refl;
  })
  | inr differ ↦ rw differ (record {
    watched = λ t. refl;
    balances = λ t. rw differ (lookup-retain tokens t s.balances_snapshot);
    signals = rw differ refl;
    as_open = refl;
    quiet = refl;
  })
]

replaced_here :
    (tokens : List ℕ) (id : ℕ) (f : Subscription → Subscription) (heap : List (ℕ × Subscription))
    → ((s : Subscription) → IsRewatched tokens s (f s))
    → IsReplaced true tokens (lookup id heap) (lookup id (modify id f heap))
replaced_here tokens id f heap rewatches = elim (Option-cases (lookup id heap)) [
  | inl missing ↦ rw (missing, modify) (rw missing tt)
  | inr (s, found) ↦ rw (lookup-modify_self id f s heap found, found) (rewatches s)
]

replaced_at :
    (tokens : List ℕ) (id : ℕ) (f : Subscription → Subscription) (heap : List (ℕ × Subscription))
    (n : ℕ)
    → ((s : Subscription) → IsRewatched tokens s (f s))
    → IsReplaced (id == n) tokens (lookup n heap) (lookup n (modify id f heap))
replaced_at tokens id f heap n rewatches = elim (Bool-cases (nat_beq id n)) [
  | inl here ↦
      subst (λ k. IsReplaced (id == k) tokens (lookup k heap) (lookup k (modify id f heap)))
        ((nat_beq_iff id n).0 here) (rw (==-self id) (replaced_here tokens id f heap rewatches))
  | inr other ↦ rw other (lookup-modify_ne id n f heap (λ e. absurd (ground (arith, e))))
]

pub act_existing :
    (tokens : List ℕ) (id : ℕ) (m : Manager)
    → IsUpdated tokens id m (act tokens (ok (existing id)) m)
unfolding act replace_watched_tokens
act_existing tokens id m = record {
  answer = refl;
  entries = refl;
  unallocated = refl;
  replaced = λ n. replaced_at tokens id _ m.heap n (rewatch tokens);
  updated = refl;
  created_before = refl;
  active = refl;
}

pub act_created :
    (tokens : List ℕ) (id : ℕ) (m : Manager) → IsCreated id m (act tokens (ok (created id)) m)
unfolding act increment
act_created tokens id m = record {
  answer = refl;
  entries = refl;
  heap = refl;
  created_total = refl;
  active_ups = refl;
  active_downs = refl;
  updated = refl;
}

pub act_err :
    (tokens : List ℕ) (error : SubscriptionError) (m : Manager)
    → act tokens (err error) m ≡ (err error, m)
unfolding act
act_err tokens error m = refl
