-- ===== src/SubscriptionManager/Upsert.antt =====
-- `upsert` of src/services/subscription_manager.rs: the steps that it takes, with the steps of other
-- tasks in between, and what it answers and changes.
pub mod Effects
pub mod Decision
use balances_watcher.Base.{
  ℕ, ◌≤◌, ◌<◌, ◌≡◌, refl, ◌⊎◌, inl, inr, List, [], ◌∷◌, none, some, ok, err, arith, leb,
  Option-cases, Bool-cases,
}
use balances_watcher.Base.Map.{lookup}
use balances_watcher.Domain.Session.{Session, session_eq}
use balances_watcher.SubscriptionManager.{
  Manager, SubWithCounter, decide, upsert, existing, existing_for_owner, max_clients_per_owner,
  owner_client_limit_exceeded,
}
use balances_watcher.SubscriptionManager.Upsert.Effects.{
  IsUpdated, IsRegistered, IsCreated, IsRefused, act_existing, act_created, act_err,
}
use balances_watcher.SubscriptionManager.Upsert.Decision.{
  create_registers, create_refuses, decide_found, decide_absent,
}
use balances_watcher.SubscriptionManager.Interleaving.{
  World, finds, decides, acts, Reach, here, next, Outcome,
}

abbrev pub Pending : Type 0
Pending = List (List ℕ × Outcome)

abbrev pub world : Manager → Pending → World
world m p = record { manager = m; pending = p }

-- Other tasks take steps, and leave the callers alone that have decided and not yet acted.
abbrev pub IsOthers : (Manager → Manager) → Type 0
IsOthers f = (m : Manager) (p : Pending) → Reach (world m p) (world (f m) p)

Reach-trans : {u v w : World} → Reach u v → Reach v w → Reach u w
Reach-trans r here = r
Reach-trans r (next q st) = next (Reach-trans r q) st

-- An `upsert` during which other tasks take any steps of their own between its locks is itself a
-- sequence of steps of the registry, and leaves nothing pending of its own.
pub upsert-Reach :
    (others later : Manager → Manager) (session : Session) (tokens : List ℕ) (now : ℕ) (m : Manager)
    (p : Pending)
    → IsOthers others
    → IsOthers later
    → Reach (world m p) (world (upsert others later session tokens now m).1 p)
unfolding upsert
upsert-Reach others later session tokens now m p so sl =
    elim (Option-cases (lookup session m.subscriptions)) [
      | inr (entry, found) ↦
          let outcome : Outcome = ok (existing entry.subscription) in
          rw (found, upsert)
            (next
              (Reach-trans (next here (finds session tokens entry found))
                (so m ((tokens, outcome) ∷ p)))
              (acts [] p tokens outcome refl))
      | inl missed ↦
          let (outcome, m') = decide session tokens now (others m) in
          rw (missed, upsert)
            (next
              (Reach-trans (next (so m p) (decides session tokens now))
                (sl m' ((tokens, outcome) ∷ p)))
              (acts [] p tokens outcome refl))
    ]

-- An `upsert` while other tasks do anything between its locks, and the entries that they leave. If
-- the session is registered when it first looks, or when it looks again under the write lock, the
-- entries stay; the entry's subscription is answered without a queue, watches exactly the new
-- tokens and is signalled exactly if the set changed, and the update is counted. If it is registered
-- at neither time and its owner has fewer sessions than the limit, it is registered without a client
-- under the next number, its subscription is answered with its queue, and the creation is counted.
-- Otherwise it is refused with the limit, which is counted, and nothing is registered.
pub upsert_cases :
    (others later : Manager → Manager) (session : Session) (tokens : List ℕ) (now : ℕ) (m : Manager)
    → let found = others m in
      let after = upsert others later session tokens now m in
      ((e : SubWithCounter) × (lookup session m.subscriptions ≡ some e)
        × IsUpdated tokens e.subscription found after)
      ⊎ ((e : SubWithCounter) × (lookup session m.subscriptions ≡ none)
          × (lookup session found.subscriptions ≡ some e)
          × IsUpdated tokens e.subscription (later found) after)
      ⊎ ((with_session : Manager) × (lookup session m.subscriptions ≡ none)
          × (lookup session found.subscriptions ≡ none)
          × (existing_for_owner session.owner found.subscriptions < max_clients_per_owner)
          × IsRegistered session tokens now found with_session
          × IsCreated found.fresh (later with_session) after)
      ⊎ ((refused : Manager) × (lookup session m.subscriptions ≡ none)
          × (lookup session found.subscriptions ≡ none)
          × (max_clients_per_owner ≤ existing_for_owner session.owner found.subscriptions)
          × IsRefused found refused
          × (after ≡ (err (owner_client_limit_exceeded max_clients_per_owner), later refused)))
unfolding upsert
upsert_cases others later session tokens now m =
    let found = others m in
    elim (Option-cases (lookup session m.subscriptions)) [
      | inr (e, there) ↦
          rw (there, upsert) (inl (e, refl, act_existing tokens e.subscription found))
      | inl missed ↦ elim (Option-cases (lookup session found.subscriptions)) [
        | inr (e, there) ↦
            let decided = decide_found session tokens now found e there in
            rw (missed, upsert, decided)
              (inr (inl (e, refl, there, act_existing tokens e.subscription (later found))))
        | inl absent ↦
            let decided = decide_absent session tokens now found absent in
            elim (Bool-cases
              (leb max_clients_per_owner (existing_for_owner session.owner found.subscriptions))) [
                | inr room ↦
                    let below : existing_for_owner session.owner found.subscriptions
                        < max_clients_per_owner =
                      ground arith in
                    let (answer, registers) = create_registers session tokens now found below in
                    rw (missed, upsert, decided, answer)
                      (inr (
                        inr (
                          inl
                            (_, refl, absent, below, registers, act_created tokens found.fresh _))))
                | inl full ↦
                    let above : max_clients_per_owner
                        ≤ existing_for_owner session.owner found.subscriptions =
                      ground arith in
                    let (answer, refuses) = create_refuses session tokens now found above in
                    rw (missed, upsert, decided, answer)
                      (inr (inr (inr (_, refl, absent, above, refuses, act_err tokens _ _))))
              ]
      ]
    ]
