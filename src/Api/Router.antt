-- ===== src/Api/Router.antt =====
-- `create_router` of src/api.rs: which handler a request goes to, by its method and the segments of
-- its path. The pages of the Swagger UI and what axum answers where no route fits are left out.
use balances_watcher.Base.{
  ◌≡◌, refl, List, [], ◌∷◌, Option, none, some, String, ◌==◌, ◌&&◌, if◌then◌else◌,
}
use balances_watcher.Base.Text.{string_eq}

pub data Method : Type 0 where
  get post put other : Method

-- A handler with the texts of its path's parameters.
pub data Handler : Type 0 where
  health_handler render_metrics : Handler
  create_sse_connection create_session update_session : String → String → Handler

unfoldable pub session_route : Method → String → String → Option Handler
session_route post chain_id owner = some (create_session chain_id owner)
session_route put chain_id owner = some (update_session chain_id owner)
session_route _ chain_id owner = none

unfoldable pub create_router : Method → List String → Option Handler
unfolding session_route
create_router get (page ∷ []) =
    if page == "health"
    then some health_handler
    else if page == "metrics"
    then some render_metrics
    else none
create_router get (sse ∷ chain_id ∷ balances ∷ owner ∷ []) =
    if sse == "sse" && balances == "balances"
    then some (create_sse_connection chain_id owner)
    else none
create_router method (chain_id ∷ sessions ∷ owner ∷ []) =
    if sessions == "sessions" then session_route method chain_id owner else none
create_router _ _ = none

-- The methods of one session path lead to two handlers, and a GET to none.
session_paths :
    (chain_id owner : String)
    → (create_router post (chain_id ∷ "sessions" ∷ owner ∷ [])
        ≡ some (create_session chain_id owner))
      × (create_router put (chain_id ∷ "sessions" ∷ owner ∷ [])
          ≡ some (update_session chain_id owner))
      × (create_router get (chain_id ∷ "sessions" ∷ owner ∷ []) ≡ none)
unfolding create_router
session_paths chain_id owner = (refl, refl, refl)
