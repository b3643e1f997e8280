-- ===== src/Api/Sse/Examples.antt =====
-- The theorem on requests for a stream, applied to a client of a session on Gnosis.
use balances_watcher.Base.{
  ℕ, ◌≡◌, ◌⊎◌, List, [], ◌∷◌, Option, none, some, String, ok, nat_eq, ◌==◌, if◌then◌else◌,
}
use balances_watcher.Base.Text.{string_eq}
use balances_watcher.Base.Map.{lookup}
use balances_watcher.Domain.Network.{EvmNetwork, gnosis}
use balances_watcher.Domain.Session.{Session, session_eq, BalanceEvent}
use balances_watcher.Subscription.{new}
use balances_watcher.SubscriptionManager.{Manager, SubWithCounter, empty, subscribe}
use balances_watcher.SessionManager.Sse.{create_sse_connection}
use balances_watcher.Api.{Parts}
use balances_watcher.Api.Requests.{HasClientId}
use balances_watcher.Api.Sse.{streams}
use balances_watcher.Api.Sse.Cases.{answer, create_sse_session_cases}

abbrev parse_uuid : String → Option ℕ
parse_uuid text = if text == "550e8400-e29b-41d4-a716-446655440000" then some 7 else none

abbrev network_text : EvmNetwork → String
network_text network = "a chain"

abbrev to_string : ℕ → String
to_string n = "a number"

abbrev json_data : BalanceEvent → Option String
json_data event = some "{}"

abbrev unchanged : Manager → Manager
unchanged m = m

abbrev parts : Parts
parts = record { header = none; query = ok (some 7); path = ok (gnosis, 30) }

abbrev registry : Manager
registry = record empty {
  subscriptions =
      (
        record { owner = 30; network = gnosis; client_id = 7 },
        record { clients = 0; subscription = 0; idle_since = some 10 },
      )
      ∷ [];
  heap = (0, new (3 ∷ [])) ∷ [];
}

create_sse_session_cases_example :
    let response =
      answer json_data to_string unchanged [] 0 parse_uuid network_text gnosis parts registry in
    ((response.0.0 ≡ 400) ⊎ (response.0.0 ≡ 404)) × (response.1 ≡ registry)
    ⊎ ((owner : ℕ) × (client_id : ℕ) × (entry : SubWithCounter) × (stream : List (String × String)
          × ℕ)
        × (parts.path ≡ ok (gnosis, owner))
        × HasClientId parse_uuid parts client_id
        × (let session : Session = record {
          owner = owner;
          network = gnosis;
          client_id = client_id;
        } in
            (lookup session registry.subscriptions ≡ some entry)
            × (create_sse_connection json_data to_string unchanged [] 0 session registry
                ≡ (ok stream, unchanged (subscribe session registry).1))
            × (response ≡ ((200, streams stream), unchanged (subscribe session registry).1))))
create_sse_session_cases_example =
    create_sse_session_cases json_data to_string unchanged [] 0 parse_uuid network_text gnosis parts
      registry
