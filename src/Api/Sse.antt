-- ===== src/Api/Sse.antt =====
-- The handler of src/api/create_sse_session.rs behind its extractors, and `into_response` of the
-- `StreamError` of src/services/session_manager.rs. A response is its status with what it carries.
pub mod Cases
mod Examples
use balances_watcher.Base.{ℕ, ◌&&◌, List, Option, String, Result, ok, err, leb, ltb, if◌then◌else◌}
use balances_watcher.Domain.Network.{EvmNetwork}
use balances_watcher.Domain.Session.{Session, BalanceEvent}
use balances_watcher.SubscriptionManager.{Manager}
use balances_watcher.SessionManager.{StreamItem}
use balances_watcher.SessionManager.Sse.{StreamError, create_sse_connection}
use balances_watcher.Api.{
  AppError, ErrorBody, into_response, Parts, session_path_from_parts, client_id_from_parts,
}

-- The events of the stream, with the count of lagged clients.
abbrev pub EventStream : Type 0 → Type 0
EventStream Data = List (String × Data) × ℕ

pub data Body (Data : Type 0) : Type 0 where
  app_error : ErrorBody → Body Data
  stream_error : StreamError → Body Data
  streams : EventStream Data → Body Data

-- `StatusCode::from_u16` takes 100 to 999.
unfoldable pub status_from : ℕ → ℕ
status_from code = if leb 100 code && ltb code 1000 then code else 500

module _ {Data : Type 0} where
  unfoldable pub stream_error_into_response : StreamError → ℕ × Body Data
  unfolding status_from
  stream_error_into_response e = (status_from e.code, stream_error e)

  unfoldable pub app_error_into_response : AppError → ℕ × Body Data
  unfolding into_response
  app_error_into_response e = let (code, body) = into_response e in (code, app_error body)

  -- A `Result` as a response.
  unfoldable pub sse_into_response :
      Result StreamError (EventStream Data) × Manager → (ℕ × Body Data) × Manager
  unfolding stream_error_into_response
  sse_into_response (ok stream, m) = ((200, streams stream), m)
  sse_into_response (err e, m) = (stream_error_into_response e, m)

  -- `create_sse_connection` of the API; `others` and `items` are as in the session manager's.
  unfoldable pub create_sse_session :
      (BalanceEvent → Option Data)
      → (ℕ → String)
      → (Manager → Manager)
      → List StreamItem
      → ℕ
      → EvmNetwork × ℕ
      → ℕ
      → Manager
      → (ℕ × Body Data) × Manager
  unfolding create_sse_connection sse_into_response
  create_sse_session json_data to_string others items lagged_total (network, owner) client_id m =
      sse_into_response (
        create_sse_connection json_data to_string others items lagged_total
          (record { owner = owner; network = network; client_id = client_id }) m)

  -- The route: the extractors, and then the handler.
  unfoldable pub sse_route :
      (String → Option ℕ)
      → (EvmNetwork → String)
      → EvmNetwork
      → (EvmNetwork × ℕ → ℕ → Manager → (ℕ × Body Data) × Manager)
      → Parts
      → Manager
      → (ℕ × Body Data) × Manager
  unfolding session_path_from_parts client_id_from_parts app_error_into_response
  sse_route parse_uuid network_text configured handler parts m =
      elim (session_path_from_parts parse_uuid network_text configured parts) [
        | err e ↦ (app_error_into_response e, m)
        | ok path ↦ elim (client_id_from_parts parse_uuid parts) [
          | err e ↦ (app_error_into_response e, m)
          | ok client_id ↦ handler path client_id m
        ]
      ]
