-- ===== src/Api/Examples.antt =====
-- The theorems on requests, applied to a POST for a session on Gnosis.
use balances_watcher.Base.{
  ℕ, ◌≡◌, refl, ◌⊎◌, false, ◌&&◌, List, [], ◌∷◌, Option, none, some, String, Result, ok, err,
  is_empty, ◌==◌, if◌then◌else◌, nat_eq,
}
use balances_watcher.Base.Text.{string_eq}
use balances_watcher.Domain.Network.{EvmNetwork, gnosis}
use balances_watcher.TokenListFetcher.{FetcherError}
use balances_watcher.SubscriptionManager.{Manager, empty}
use balances_watcher.SessionManager.{Server}
use balances_watcher.Api.{
  AppError, Parts, client_id_from_parts, SessionRequest, create_session, with_session,
}
use balances_watcher.Api.Requests.{HasClientId, upserted, create_session_cases}

abbrev parse_uuid : String → Option ℕ
parse_uuid text = if text == "550e8400-e29b-41d4-a716-446655440000" then some 7 else none

abbrev network_text : EvmNetwork → String
network_text network = "a chain"

abbrev to_text : ℕ → String
to_text n = "a number"

abbrev lists : List String → Result FetcherError (List ℕ)
lists urls = ok []

abbrev parts : Parts
parts = record {
  header = some (some "550e8400-e29b-41d4-a716-446655440000");
  query = ok none;
  path = ok (gnosis, 30);
}

abbrev body : SessionRequest
body = record { tokens_lists_urls = []; custom_tokens = 4 ∷ [] }

abbrev server : Server
server = record { manager = empty; tokens_limit_exceeded_total = 0; watchers = [] }

abbrev device : ℕ
device = 7

abbrev unchanged : Manager → Manager
unchanged m = m

device_is_found : client_id_from_parts parse_uuid parts ≡ ok device
unfolding client_id_from_parts
device_is_found = refl

create_session_cases_example :
    let answer =
      with_session parse_uuid network_text gnosis
        (λ path client_id.
          create_session to_text lists 1500 unchanged unchanged path client_id body 100)
        parts
        server in
    ((e : AppError) × (answer ≡ (err e, server)))
    ⊎ ((owner : ℕ) × (client_id : ℕ) × (parts.path ≡ ok (gnosis, owner))
        × HasClientId parse_uuid parts client_id
        × (is_empty body.tokens_lists_urls && is_empty body.custom_tokens ≡ false)
        × (answer
            ≡ upserted to_text lists 1500 unchanged unchanged gnosis owner client_id body 100
                server))
create_session_cases_example =
    create_session_cases to_text lists 1500 unchanged unchanged parse_uuid network_text gnosis parts
      body 100 server
