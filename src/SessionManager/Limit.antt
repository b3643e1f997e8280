-- ===== src/SessionManager/Limit.antt =====
-- What a request to create or update a session changes.
use balances_watcher.Base.{
  ℕ, ◌+◌, ◌≤◌, ◌<◌, ◌≡◌, refl, ◌⊎◌, inl, inr, List, [], ◌∷◌, ◌++◌, none, some, ltb, length, arith,
  Result, ok, err, Bool-cases, String,
}
use balances_watcher.Domain.Session.{Session}
use balances_watcher.SubscriptionManager.{
  Upserted, Manager, upsert, session_not_registered, owner_client_limit_exceeded,
}
use balances_watcher.TokenListFetcher.{FetcherError}
use balances_watcher.SessionManager.{
  SessionError, token_limit_exceeded, session_is_not_created, client_limit_exceeded,
  map_subscription_error, fetch_and_extend_tokens, Server, finish_upsert, upsert_session,
}

-- The answer and the watchers, against what the registry answered.
abbrev pub Answered :
    Upserted → List (ℕ × ℕ) → Result SessionError (Unit {0}) → List (ℕ × ℕ) → Type 0
Answered (err session_not_registered) before answer after =
    (answer ≡ err session_is_not_created) × (after ≡ before)
Answered (err (owner_client_limit_exceeded limit)) before answer after =
    (answer ≡ err (client_limit_exceeded limit)) × (after ≡ before)
Answered (ok (id, none)) before answer after = (answer ≡ ok tt) × (after ≡ before)
Answered (ok (id, some queue)) before answer after =
    (answer ≡ ok tt) × (after ≡ before ++ (id, queue) ∷ [])

finish_upsert-Answered :
    (r : Upserted × Manager) (s : Server)
    → ((finish_upsert r s).1.manager ≡ r.1)
      × ((finish_upsert r s).1.tokens_limit_exceeded_total ≡ s.tokens_limit_exceeded_total)
      × Answered r.0 s.watchers (finish_upsert r s).0 (finish_upsert r s).1.watchers
unfolding finish_upsert map_subscription_error
finish_upsert-Answered (err session_not_registered, m) s = (refl, refl, (refl, refl))
finish_upsert-Answered (err (owner_client_limit_exceeded limit), m) s = (refl, refl, (refl, refl))
finish_upsert-Answered (ok (id, none), m) s = (refl, refl, (refl, refl))
finish_upsert-Answered (ok (id, some queue), m) s = (refl, refl, (refl, refl))

-- A request whose tokens load. With more of them than the limit it is refused and counted, and
-- changes neither the registry nor the watchers. Otherwise the registry is as its own `upsert` leaves
-- it, and watchers are spawned exactly for a subscription that came with a queue.
pub upsert_session_cases :
    (get_tokens : List String → Result FetcherError (List ℕ)) (token_limit : ℕ)
    (others later : Manager → Manager) (session : Session) (urls : List String)
    (custom_tokens watched : List ℕ) (now : ℕ) (s : Server)
    → fetch_and_extend_tokens get_tokens session urls custom_tokens ≡ ok watched
    → let r = upsert others later session watched now s.manager in
      let after =
        upsert_session get_tokens token_limit others later session urls custom_tokens now s in
      ((token_limit < length watched)
        × (after ≡ (
          err (token_limit_exceeded (length watched) token_limit),
          record s { tokens_limit_exceeded_total = s.tokens_limit_exceeded_total + 1 },
        )))
      ⊎ ((length watched ≤ token_limit)
          × (after.1.manager ≡ r.1)
          × (after.1.tokens_limit_exceeded_total ≡ s.tokens_limit_exceeded_total)
          × Answered r.0 s.watchers after.0 after.1.watchers)
unfolding upsert_session
upsert_session_cases get_tokens token_limit others later session urls custom_tokens watched now s
      e =
    elim (Bool-cases (ltb token_limit (length watched))) [
      | inl many ↦ inl (ground arith, rw (e, upsert_session, many))
      | inr few ↦
          let r = finish_upsert-Answered (upsert others later session watched now s.manager) s in
          inr (
            ground arith,
            rw (e, upsert_session, few) r.0,
            rw (e, upsert_session, few) r.1,
            rw (e, upsert_session, few) r.2,
          )
    ]
