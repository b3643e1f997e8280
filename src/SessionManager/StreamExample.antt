-- ===== src/SessionManager/StreamExample.antt =====
-- The theorem on connections, applied to a client that connects while the balance of a token goes
-- from 10 to 12. The data on the wire is the event.
use balances_watcher.Base.{
  ℕ, ◌≡◌, refl, List, [], ◌∷◌, ◌++◌, map, Option, some, String, ok, nat_eq, if◌then◌else◌, ◌==◌,
}
use balances_watcher.Base.Map.{lookup}
use balances_watcher.Domain.Network.{gnosis, chain_id}
use balances_watcher.Domain.Session.{Session, session_eq, session_beq, BalanceEvent}
use balances_watcher.Subscription.{Balance, Subscription, new}
use balances_watcher.Subscription.Replay.{Change, updates}
use balances_watcher.SubscriptionManager.{Manager, SubWithCounter, subscribe, empty}
use balances_watcher.SessionManager.{event}
use balances_watcher.SessionManager.Sse.{create_sse_connection}
use balances_watcher.SessionManager.Connect.{broadcasts, read_events, state_after}
use balances_watcher.SessionManager.Stream.{parsed, create_sse_connection-Agrees}

abbrev client : Session
client = record { owner = 7; network = gnosis; client_id = 1 }

abbrev to_string : ℕ → String
to_string n = if n == 12 then "12" else "10"

abbrev json_data : BalanceEvent → Option BalanceEvent
json_data e = some e

abbrev parse_data : BalanceEvent → BalanceEvent
parse_data e = e

abbrev early : List (Change to_string)
early = updates ((3, 10) ∷ [], 5) ∷ []

abbrev late : List (Change to_string)
late = updates ((3, 12) ∷ [], 6) ∷ []

abbrev fresh_session : Subscription
fresh_session = new (3 ∷ [])

abbrev entry : SubWithCounter
entry = record { clients = 0; subscription = 0; idle_since = some 100 }

abbrev registry : Manager
registry = record empty {
  subscriptions = (client, entry) ∷ [];
  heap = (0, fresh_session) ∷ [];
  fresh = 1;
}

abbrev others : Manager → Manager
others m = record m { heap = (0, state_after to_string early fresh_session) ∷ [] }

registered : lookup client registry.subscriptions ≡ some entry
unfolding lookup empty session_beq chain_id
registered = refl

snapshot_read :
    lookup entry.subscription (others (subscribe client registry).1).heap
    ≡ some (state_after to_string early fresh_session)
unfolding lookup
snapshot_read = refl

create_sse_connection-Agrees_example :
    (stream : List (String × BalanceEvent)) × ((create_sse_connection json_data to_string others
        (map event (broadcasts to_string (early ++ late) fresh_session))
        0
        client
        registry).0
      ≡ ok (stream, 0))
    × ((t : ℕ) (b : Balance)
        → lookup t (state_after to_string (early ++ late) fresh_session).balances_snapshot ≡ some b
        → lookup t (read_events (parsed parse_data stream) []) ≡ some (to_string b.amount))
create_sse_connection-Agrees_example =
    create_sse_connection-Agrees to_string json_data parse_data (λ e. (e, refl, refl)) others early
      late client registry entry fresh_session 0 registered snapshot_read
