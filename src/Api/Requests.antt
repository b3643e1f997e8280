-- ===== src/Api/Requests.antt =====
-- Which requests reach a session, and what the others change.
use balances_watcher.Base.{
  ℕ, ◌≡◌, refl, sym, ap, ◌∙◌, ◌⊎◌, inl, inr, ◌↔◌, false, ◌&&◌, List, Option, none, some, String,
  Result, ok, err, is_empty, nat_eq, nat_beq, nat_beq_iff, Option-cases, Bool-cases, Result-cases,
}
use balances_watcher.Base.Text.{◌^^◌}
use balances_watcher.Domain.Network.{EvmNetwork, chain_id}
use balances_watcher.Domain.Network.Ids.{chain_id-injective}
use balances_watcher.TokenListFetcher.{FetcherError}
use balances_watcher.SubscriptionManager.{Manager}
use balances_watcher.SessionManager.{Server, upsert_session}
use balances_watcher.Api.{
  AppError, bad_request, not_found, Parts, try_from_headers, try_from_query, client_id_from_parts,
  session_path_from_parts, SessionRequest, as_app_error, create_session, with_session,
}

module _ (parse_uuid : String → Option ℕ) where
  -- The client id of a request: the header's, or the query's where there is no header.
  abbrev pub HasClientId : Parts → ℕ → Type 0
  HasClientId parts client_id =
      ((text : String) × (parts.header ≡ some (some text)) × (parse_uuid text ≡ some client_id))
      ⊎ ((parts.header ≡ none) × (parts.query ≡ ok (some client_id)))

  pub client_id_to :
      (parts : Parts) (client_id : ℕ)
      → client_id_from_parts parse_uuid parts ≡ ok client_id
      → HasClientId parts client_id
  unfolding client_id_from_parts try_from_headers try_from_query
  client_id_to parts client_id h = elim (Option-cases parts.header) [
    | inl silent ↦ elim (Result-cases parts.query) [
      | inl (e, bad) ↦ absurd (
          let fails : client_id_from_parts parse_uuid parts
              ≡ err (bad_request ("invalid client_id query: " ^^ e)) =
            rw (silent, client_id_from_parts, try_from_headers, bad, try_from_query) refl in
          cc)
      | inr (none, nothing) ↦ absurd (
          let fails : client_id_from_parts parse_uuid parts
              ≡ err
                  (bad_request "missing client id (send x-client-id header or ?client_id= query)") =
            rw (silent, client_id_from_parts, try_from_headers, nothing, try_from_query) refl in
          cc)
      | inr (some found, asked) ↦
          let is : client_id_from_parts parse_uuid parts ≡ ok found =
            rw (silent, client_id_from_parts, try_from_headers, asked, try_from_query) refl in
          let same : found ≡ client_id = cc in inr (silent, asked ∙ ap (λ c. ok (some c)) same)
    ]
    | inr (none, garbled) ↦ absurd (
        let fails : client_id_from_parts parse_uuid parts
            ≡ err (bad_request "x-client-id is not valid ASCII") =
          rw (garbled, client_id_from_parts, try_from_headers) refl in
        cc)
    | inr (some text, sent) ↦ elim (Option-cases (parse_uuid text)) [
      | inl bad ↦ absurd (
          let fails : client_id_from_parts parse_uuid parts
              ≡ err (bad_request "x-client-id is not a valid UUID") =
            rw (sent, client_id_from_parts, try_from_headers, bad) refl in
          cc)
      | inr (found, parsed) ↦
          let is : client_id_from_parts parse_uuid parts ≡ ok found =
            rw (sent, client_id_from_parts, try_from_headers, parsed) refl in
          let same : found ≡ client_id = cc in inl (text, sent, parsed ∙ ap some same)
    ]
  ]

  client_id_of :
      (parts : Parts) (client_id : ℕ)
      → HasClientId parts client_id
      → client_id_from_parts parse_uuid parts ≡ ok client_id
  unfolding client_id_from_parts try_from_headers try_from_query
  client_id_of parts client_id (inl (text, sent, parsed)) =
      rw (sent, client_id_from_parts, try_from_headers, parsed) refl
  client_id_of parts client_id (inr (silent, asked)) =
      rw (silent, client_id_from_parts, try_from_headers, asked, try_from_query) refl

  -- A request has a client id exactly if its header is one, or it has no header and its query is one.
  pub client_id_from_parts_iff :
      (parts : Parts) (client_id : ℕ)
      → client_id_from_parts parse_uuid parts ≡ ok client_id ↔ HasClientId parts client_id
  client_id_from_parts_iff parts client_id =
      (client_id_to parts client_id, client_id_of parts client_id)

  pub session_path_iff :
      (network_text : EvmNetwork → String) (configured network : EvmNetwork) (parts : Parts)
      (owner : ℕ)
      → session_path_from_parts parse_uuid network_text configured parts ≡ ok (network, owner)
      → (parts.path ≡ ok (network, owner)) × (network ≡ configured)
  unfolding session_path_from_parts
  session_path_iff network_text configured network parts owner h = elim (Result-cases parts.path) [
    | inl (e, bad) ↦ absurd (
        let fails : session_path_from_parts parse_uuid network_text configured parts
            ≡ err (bad_request ("invalid path: " ^^ e)) =
          rw (bad, session_path_from_parts) refl in
        cc)
    | inr ((other, o), found) ↦ elim (Bool-cases (nat_beq (chain_id other) (chain_id configured))) [
      | inr elsewhere ↦ absurd (
          let fails : session_path_from_parts parse_uuid network_text configured parts
              ≡ err (
                  not_found (
                    "chain_id "
                    ^^ network_text other
                    ^^ " is not served by this instance (configured: "
                    ^^ network_text configured
                    ^^ ")")) =
            rw (found, session_path_from_parts, elsewhere) refl in
          cc)
      | inl here ↦
          let is : session_path_from_parts parse_uuid network_text configured parts
              ≡ ok (other, o) =
            rw (found, session_path_from_parts, here) refl in
          let pair : (other, o) ≡ (network, owner) = cc in
          (
            found ∙ ap (λ p. ok p) pair,
            sym (ap (λ p. p.0) pair)
                ∙ chain_id-injective other configured
                    ((nat_beq_iff (chain_id other) (chain_id configured)).0 here),
          )
    ]
  ]

with_session_cases {ℓ} :
    {S : Type ℓ} (parse_uuid : String → Option ℕ) (network_text : EvmNetwork → String)
    (configured : EvmNetwork) (handler : EvmNetwork × ℕ → ℕ → S → Result AppError (Unit {0}) × S)
    (parts : Parts) (s : S)
    → ((e : AppError) × (with_session parse_uuid network_text configured handler parts s
          ≡ (err e, s)))
      ⊎ ((owner : ℕ) × (client_id : ℕ) × (parts.path ≡ ok (configured, owner))
          × HasClientId parse_uuid parts client_id
          × (with_session parse_uuid network_text configured handler parts s
              ≡ handler (configured, owner) client_id s))
unfolding with_session
with_session_cases parse_uuid network_text configured handler parts s =
    elim (Result-cases (session_path_from_parts parse_uuid network_text configured parts)) [
      | inl (e, bad) ↦ inl (e, rw (bad, with_session) refl)
      | inr ((network, owner), found) ↦
          let (path, same) =
            session_path_iff parse_uuid network_text configured network parts owner found in
          elim (Result-cases (client_id_from_parts parse_uuid parts)) [
            | inl (e, bad) ↦ inl (e, rw (found, with_session, bad) refl)
            | inr (client_id, has) ↦ inr (
              owner,
              client_id,
              path ∙ ap (λ n. ok (n, owner)) same,
              client_id_to parse_uuid parts client_id has,
              rw (found, with_session, has, same) refl,
            )
          ]
    ]

module _ (to_text : ℕ → String) (get_tokens : List String → Result FetcherError (List ℕ))
    (token_limit : ℕ) (others later : Manager → Manager) where
  -- What an update of a session with some tokens answers.
  abbrev pub upserted :
      EvmNetwork → ℕ → ℕ → SessionRequest → ℕ → Server → Result AppError (Unit {0}) × Server
  upserted network owner client_id body now s = as_app_error to_text (
      upsert_session get_tokens token_limit others later
        (record { owner = owner; network = network; client_id = client_id }) body.tokens_lists_urls
        body.custom_tokens now s)

  -- A POST either is refused and changes nothing, or names this instance's chain, an owner and a client
  -- id and has a list or a token, and then does what the session manager's update does.
  pub create_session_cases :
      (parse_uuid : String → Option ℕ) (network_text : EvmNetwork → String)
      (configured : EvmNetwork) (parts : Parts) (body : SessionRequest) (now : ℕ) (s : Server)
      → let answer =
          with_session parse_uuid network_text configured
            (λ path client_id.
              create_session to_text get_tokens token_limit others later path client_id body now)
            parts
            s in
        ((e : AppError) × (answer ≡ (err e, s)))
        ⊎ ((owner : ℕ) × (client_id : ℕ) × (parts.path ≡ ok (configured, owner))
            × HasClientId parse_uuid parts client_id
            × (is_empty body.tokens_lists_urls && is_empty body.custom_tokens ≡ false)
            × (answer ≡ upserted configured owner client_id body now s))
  unfolding create_session
  create_session_cases parse_uuid network_text configured parts body now s =
      elim (with_session_cases parse_uuid network_text configured
        (λ path client_id.
          create_session to_text get_tokens token_limit others later path client_id body now)
        parts s) [
          | inl (e, refused) ↦ inl (e, refused)
          | inr (owner, client_id, found, has, handled) ↦
              elim (Bool-cases (is_empty body.tokens_lists_urls && is_empty body.custom_tokens)) [
                | inl nothing ↦ inl (
                  bad_request "tokens_lists_urls or custom_tokens should not be empty both",
                  handled ∙ rw nothing refl,
                )
                | inr something ↦
                    inr (owner, client_id, found, has, something, handled ∙ rw something refl)
              ]
        ]
