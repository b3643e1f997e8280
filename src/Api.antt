-- ===== src/Api.antt =====
-- src/app_error.rs, the extractors and the handlers of src/api. What axum and uuid parse is a
-- parameter: the header, its text, a UUID, the query and the path. `to_text` writes a number in a
-- message. A response is its status and its body.
pub mod Requests
pub mod Router
pub mod Sse
mod Examples
use balances_watcher.Base.{
  ℕ, Bool, not, ◌&&◌, List, [], ◌∷◌, Option, none, some, String, Result, ok, err, if◌then◌else◌,
  is_empty, ◌==◌, nat_eq,
}
use balances_watcher.Base.Text.{◌^^◌}
use balances_watcher.Domain.Network.{EvmNetwork, chain_id}
use balances_watcher.Domain.Session.{Session}
use balances_watcher.TokenListFetcher.{FetcherError}
use balances_watcher.SubscriptionManager.{Manager}
use balances_watcher.SessionManager.{
  SessionError, token_list_not_found, token_list_url_not_allowed, token_limit_exceeded,
  session_is_not_created, client_limit_exceeded, Server, upsert_session,
}

pub data AppError : Type 0 where
  not_found bad_request too_many_requests : String → AppError

module _ (to_text : ℕ → String) where
  -- `to_string` of a `SessionError`.
  unfoldable pub session_error_text : SessionError → String
  session_error_text (token_list_not_found url) = "Token list not found: " ^^ url
  session_error_text (token_list_url_not_allowed url reason) =
      "Token list url not allowed: " ^^ url ^^ " (" ^^ reason ^^ ")"
  session_error_text (token_limit_exceeded first second) =
      "Token limit exceeded, max count is "
      ^^ to_text first
      ^^ ", current count is "
      ^^ to_text second
  session_error_text session_is_not_created = "Session is not created"
  session_error_text (client_limit_exceeded limit) =
      "Too many client_ids for this owner (limit: " ^^ to_text limit ^^ ")"

  unfoldable pub app_error_from : SessionError → AppError
  unfolding session_error_text
  app_error_from (token_list_not_found url) =
      bad_request (session_error_text (token_list_not_found url))
  app_error_from (token_list_url_not_allowed url reason) =
      bad_request (session_error_text (token_list_url_not_allowed url reason))
  app_error_from (token_limit_exceeded first second) =
      bad_request (session_error_text (token_limit_exceeded first second))
  app_error_from session_is_not_created = not_found (session_error_text session_is_not_created)
  app_error_from (client_limit_exceeded limit) =
      too_many_requests (session_error_text (client_limit_exceeded limit))

pub record ErrorBody : Type 0 where
  pub code : ℕ
  pub message : String

unfoldable pub status : AppError → ℕ
status (not_found message) = 404
status (bad_request message) = 400
status (too_many_requests message) = 429

-- `to_string` of an `AppError`.
unfoldable pub app_error_text : AppError → String
app_error_text (not_found message) = "Not found: " ^^ message
app_error_text (bad_request message) = "Bad request: " ^^ message
app_error_text (too_many_requests message) = "Too many requests: " ^^ message

unfoldable pub into_response : AppError → ℕ × ErrorBody
unfolding status app_error_text
into_response e = (status e, record { code = status e; message = app_error_text e })

-- What the extractors read of a request. The value of a header is `none` where it is not ASCII.
pub record Parts : Type 0 where
  pub header : Option (Option String)
  pub query : Result String (Option ℕ)
  pub path : Result String (EvmNetwork × ℕ)

module _ (parse_uuid : String → Option ℕ) where
  unfoldable pub try_from_headers : Parts → Result AppError (Option ℕ)
  try_from_headers parts = elim parts.header [
    | none ↦ ok none
    | some value ↦ elim value [
      | none ↦ err (bad_request "x-client-id is not valid ASCII")
      | some text ↦ elim (parse_uuid text) [
        | none ↦ err (bad_request "x-client-id is not a valid UUID")
        | some client_id ↦ ok (some client_id)
      ]
    ]
  ]

  unfoldable pub try_from_query : Parts → Result AppError (Option ℕ)
  try_from_query parts = elim parts.query [
    | err e ↦ err (bad_request ("invalid client_id query: " ^^ e))
    | ok client_id ↦ ok client_id
  ]

  -- `ClientId::from_request_parts`.
  unfoldable pub client_id_from_parts : Parts → Result AppError ℕ
  unfolding try_from_headers try_from_query
  client_id_from_parts parts = elim (try_from_headers parts) [
    | err e ↦ err e
    | ok in_header ↦ elim in_header [
      | some client_id ↦ ok client_id
      | none ↦ elim (try_from_query parts) [
        | err e ↦ err e
        | ok in_query ↦ elim in_query [
          | some client_id ↦ ok client_id
          | none ↦
              err (bad_request "missing client id (send x-client-id header or ?client_id= query)")
        ]
      ]
    ]
  ]

  -- `SessionPath::from_request_parts`; `network_text` is `fmt`.
  unfoldable pub session_path_from_parts :
      (EvmNetwork → String) → EvmNetwork → Parts → Result AppError (EvmNetwork × ℕ)
  session_path_from_parts network_text configured parts = elim parts.path [
    | err e ↦ err (bad_request ("invalid path: " ^^ e))
    | ok (network, owner) ↦
        if not (chain_id network == chain_id configured)
        then err (
            not_found (
              "chain_id "
              ^^ network_text network
              ^^ " is not served by this instance (configured: "
              ^^ network_text configured
              ^^ ")"))
        else ok (network, owner)
  ]

-- `CreateSessionRequest` and `UpdateSessionRequest` have the same fields.
pub record SessionRequest : Type 0 where
  pub tokens_lists_urls : List String
  pub custom_tokens : List ℕ

-- `map_err(AppError::from)`.
unfoldable pub as_app_error :
    (ℕ → String) → Result SessionError (Unit {0}) × Server → Result AppError (Unit {0}) × Server
unfolding app_error_from
as_app_error to_text (ok done, s) = (ok done, s)
as_app_error to_text (err e, s) = (err (app_error_from to_text e), s)

module _ (to_text : ℕ → String) (get_tokens : List String → Result FetcherError (List ℕ))
    (token_limit : ℕ) (others later : Manager → Manager) where
  unfoldable pub create_session :
      EvmNetwork × ℕ → ℕ → SessionRequest → ℕ → Server → Result AppError (Unit {0}) × Server
  unfolding as_app_error upsert_session
  create_session (network, owner) client_id body now s =
      if is_empty body.tokens_lists_urls && is_empty body.custom_tokens
      then (err (bad_request "tokens_lists_urls or custom_tokens should not be empty both"), s)
      else as_app_error to_text (
          upsert_session get_tokens token_limit others later
            (record { owner = owner; network = network; client_id = client_id })
            body.tokens_lists_urls body.custom_tokens now s)

  unfoldable pub update_session :
      EvmNetwork × ℕ → ℕ → SessionRequest → ℕ → Server → Result AppError (Unit {0}) × Server
  unfolding as_app_error upsert_session
  update_session (network, owner) client_id body now s =
      if is_empty body.custom_tokens && is_empty body.tokens_lists_urls
      then (err (bad_request "tokens_lists_urls && custom_tokens are empty"), s)
      else as_app_error to_text (
          upsert_session get_tokens token_limit others later
            (record { owner = owner; network = network; client_id = client_id })
            body.tokens_lists_urls body.custom_tokens now s)

-- A route whose handler takes a `SessionPath` and then a `ClientId`.
unfoldable pub with_session {ℓ} :
    {S : Type ℓ}
    → (String → Option ℕ)
    → (EvmNetwork → String)
    → EvmNetwork
    → (EvmNetwork × ℕ → ℕ → S → Result AppError (Unit {0}) × S)
    → Parts
    → S
    → Result AppError (Unit {0}) × S
unfolding session_path_from_parts client_id_from_parts
with_session parse_uuid network_text configured handler parts s =
    elim (session_path_from_parts parse_uuid network_text configured parts) [
      | err e ↦ (err e, s)
      | ok path ↦ elim (client_id_from_parts parse_uuid parts) [
        | err e ↦ (err e, s)
        | ok client_id ↦ handler path client_id s
      ]
    ]
