-- ===== src/Api/Sse/Cases.antt =====
-- What a request for a stream is answered.
use balances_watcher.Base.{
  ℕ, ◌≡◌, refl, ap, ◌∙◌, ◌⊎◌, inl, inr, List, Option, none, some, String, Result, ok, err, nat_eq,
  nat_beq, Option-cases, Bool-cases, Result-cases,
}
use mathlib.Core.Path.{subst}
use balances_watcher.Base.Map.{lookup}
use balances_watcher.Domain.Network.{EvmNetwork, chain_id}
use balances_watcher.Domain.Session.{Session, session_eq, BalanceEvent}
use balances_watcher.SubscriptionManager.{Manager, SubWithCounter, subscribe}
use balances_watcher.SessionManager.{StreamItem, map_subscription_error}
use balances_watcher.SessionManager.Sse.{stream_error_from, create_sse_connection, connect}
use balances_watcher.Api.{
  AppError, status, into_response, Parts, session_path_from_parts, client_id_from_parts,
  try_from_headers, try_from_query,
}
use balances_watcher.Api.Requests.{HasClientId, client_id_to, session_path_iff}
use balances_watcher.Api.Sse.{
  Body, streams, status_from, stream_error_into_response, app_error_into_response,
  sse_into_response, create_sse_session, sse_route,
}

-- A refusal has the status 400 or 404.
abbrev IsRefusal : ℕ → Type 0
IsRefusal code = (code ≡ 400) ⊎ (code ≡ 404)

abbrev Refuses {ℓ} : {A : Type ℓ} → Result AppError A → Type 0
Refuses (ok a) = Unit
Refuses (err e) = IsRefusal (status e)

path-Refuses :
    (parse_uuid : String → Option ℕ) (network_text : EvmNetwork → String) (configured : EvmNetwork)
    (parts : Parts)
    → Refuses (session_path_from_parts parse_uuid network_text configured parts)
unfolding session_path_from_parts status
path-Refuses parse_uuid network_text configured parts = elim (Result-cases parts.path) [
  | inl (e, bad) ↦ rw (bad, session_path_from_parts) (inl refl)
  | inr ((network, owner), found) ↦
      elim (Bool-cases (nat_beq (chain_id network) (chain_id configured))) [
        | inl here ↦ rw (found, session_path_from_parts, here) tt
        | inr elsewhere ↦ rw (found, session_path_from_parts, elsewhere) (inr refl)
      ]
]

client_id-Refuses :
    (parse_uuid : String → Option ℕ) (parts : Parts)
    → Refuses (client_id_from_parts parse_uuid parts)
unfolding client_id_from_parts try_from_headers try_from_query status
client_id-Refuses parse_uuid parts = elim (Option-cases parts.header) [
  | inl silent ↦ elim (Result-cases parts.query) [
    | inl (e, bad) ↦
        rw (silent, client_id_from_parts, try_from_headers, bad, try_from_query) (inl refl)
    | inr (none, nothing) ↦
        rw (silent, client_id_from_parts, try_from_headers, nothing, try_from_query) (inl refl)
    | inr (some found, asked) ↦
        rw (silent, client_id_from_parts, try_from_headers, asked, try_from_query) tt
  ]
  | inr (none, garbled) ↦ rw (garbled, client_id_from_parts, try_from_headers) (inl refl)
  | inr (some text, sent) ↦ elim (Option-cases (parse_uuid text)) [
    | inl bad ↦ rw (sent, client_id_from_parts, try_from_headers, bad) (inl refl)
    | inr (found, parsed) ↦ rw (sent, client_id_from_parts, try_from_headers, parsed) tt
  ]
]

not_created :
    (Data : Type 0) (m : Manager)
    → ((sse_into_response {Data = Data}
          (err (record { code = 404; message = "Session is not created" }), m)).0.0
        ≡ 404)
      × ((sse_into_response {Data = Data}
            (err (record { code = 404; message = "Session is not created" }), m)).1
          ≡ m)
unfolding sse_into_response stream_error_into_response status_from
not_created Data m = (refl, refl)

module _ {Data : Type 0} where
  sse_route_cases :
      (parse_uuid : String → Option ℕ) (network_text : EvmNetwork → String)
      (configured : EvmNetwork) (handler : EvmNetwork × ℕ → ℕ → Manager → (ℕ × Body Data) × Manager)
      (parts : Parts) (m : Manager)
      → (IsRefusal (sse_route parse_uuid network_text configured handler parts m).0.0
          × ((sse_route parse_uuid network_text configured handler parts m).1 ≡ m))
        ⊎ ((owner : ℕ) × (client_id : ℕ) × (parts.path ≡ ok (configured, owner))
            × HasClientId parse_uuid parts client_id
            × (sse_route parse_uuid network_text configured handler parts m
                ≡ handler (configured, owner) client_id m))
  unfolding sse_route app_error_into_response into_response
  sse_route_cases parse_uuid network_text configured handler parts m =
      elim (Result-cases (session_path_from_parts parse_uuid network_text configured parts)) [
        | inl (e, bad) ↦ inl (
          rw (bad, sse_route)
              (subst Refuses bad (path-Refuses parse_uuid network_text configured parts)),
          rw (bad, sse_route) refl,
        )
        | inr ((network, owner), found) ↦
            let (path, same) =
              session_path_iff parse_uuid network_text configured network parts owner found in
            elim (Result-cases (client_id_from_parts parse_uuid parts)) [
              | inl (e, bad) ↦ inl (
                rw (found, sse_route, bad) (subst Refuses bad (client_id-Refuses parse_uuid parts)),
                rw (found, sse_route, bad) refl,
              )
              | inr (client_id, has) ↦ inr (
                owner,
                client_id,
                path ∙ ap (λ n. ok (n, owner)) same,
                client_id_to parse_uuid parts client_id has,
                rw (found, sse_route, has, same) refl,
              )
            ]
      ]

  streams_200 :
      (stream : List (String × Data) × ℕ) (m : Manager)
      → sse_into_response (ok stream, m) ≡ ((200, streams stream), m)
  unfolding sse_into_response
  streams_200 stream m = refl

module _ {Data : Type 0} (json_data : BalanceEvent → Option Data) (to_string : ℕ → String)
    (others : Manager → Manager) (items : List StreamItem) (lagged_total : ℕ) where
  unregistered :
      (session : Session) (m : Manager)
      → lookup session m.subscriptions ≡ none
      → create_sse_connection json_data to_string others items lagged_total session m
        ≡ (err (record { code = 404; message = "Session is not created" }), m)
  unfolding create_sse_connection connect stream_error_from map_subscription_error subscribe
  unregistered session m absent = rw (absent, subscribe) refl

  connect-ok :
      (id : ℕ) (m : Manager)
      → (stream : List (String × Data) × ℕ) × (connect json_data to_string others items lagged_total
            (ok id, m)
          ≡ (ok stream, others m))
  unfolding connect
  connect-ok id m = (_, refl)

  subscribe-pair :
      (session : Session) (entry : SubWithCounter) (m : Manager)
      → lookup session m.subscriptions ≡ some entry
      → subscribe session m ≡ (ok entry.subscription, (subscribe session m).1)
  unfolding subscribe
  subscribe-pair session entry m found = rw (found, subscribe) refl

  registered :
      (session : Session) (entry : SubWithCounter) (m : Manager)
      → lookup session m.subscriptions ≡ some entry
      → (stream : List (String × Data) × ℕ) × (create_sse_connection json_data to_string others
            items lagged_total session m
          ≡ (ok stream, others (subscribe session m).1))
  unfolding create_sse_connection
  registered session entry m found =
      let (stream, same) = connect-ok entry.subscription (subscribe session m).1 in
      (
        stream,
        ap (connect json_data to_string others items lagged_total)
              (subscribe-pair session entry m found)
            ∙ same,
      )

  module _ (parse_uuid : String → Option ℕ) (network_text : EvmNetwork → String)
      (configured : EvmNetwork) where
    -- The answer to a request for a stream.
    abbrev pub answer : Parts → Manager → (ℕ × Body Data) × Manager
    answer parts m =
        sse_route parse_uuid network_text configured
          (create_sse_session json_data to_string others items lagged_total) parts m

    -- A request for a stream either is refused with 400 or 404 and leaves the registry as it is; or
    -- it names this instance's chain, an owner and a client id whose session is registered, and then
    -- it is answered 200 with the stream of the session manager, and the client is subscribed.
    pub create_sse_session_cases :
        (parts : Parts) (m : Manager)
        → (((answer parts m).0.0 ≡ 400) ⊎ ((answer parts m).0.0 ≡ 404)) × ((answer parts m).1 ≡ m)
          ⊎ ((owner : ℕ) × (client_id : ℕ) × (entry : SubWithCounter) × (stream : List
                  (String × Data)
                × ℕ)
              × (parts.path ≡ ok (configured, owner))
              × HasClientId parse_uuid parts client_id
              × (let session : Session = record {
                owner = owner;
                network = configured;
                client_id = client_id;
              } in
                  (lookup session m.subscriptions ≡ some entry)
                  × (create_sse_connection json_data to_string others items lagged_total session m
                      ≡ (ok stream, others (subscribe session m).1))
                  × (answer parts m ≡ ((200, streams stream), others (subscribe session m).1))))
    unfolding create_sse_session
    create_sse_session_cases parts m =
        elim (sse_route_cases parse_uuid network_text configured
          (create_sse_session json_data to_string others items lagged_total) parts m) [
            | inl refused ↦ inl refused
            | inr (owner, client_id, path, has, handled) ↦
                let session : Session = record {
                  owner = owner;
                  network = configured;
                  client_id = client_id;
                } in
                elim (Option-cases (lookup session m.subscriptions)) [
                  | inl absent ↦
                      let same = handled ∙ ap sse_into_response (unregistered session m absent) in
                      inl (
                        inr (ap (λ a. a.0.0) same ∙ (not_created Data m).0),
                        ap (λ a. a.1) same ∙ (not_created Data m).1,
                      )
                  | inr (entry, found) ↦
                      let (stream, same) = registered session entry m found in
                      inr (
                        owner,
                        client_id,
                        entry,
                        stream,
                        path,
                        has,
                        (found, same, handled ∙ ap sse_into_response same ∙ streams_200 stream _),
                      )
                ]
          ]
