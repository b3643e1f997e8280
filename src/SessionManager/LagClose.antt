-- ===== src/SessionManager/LagClose.antt =====
-- What a client that lags is sent.
use balances_watcher.Base.{ℕ, ◌+◌, ◌≡◌, refl, List, [], ◌∷◌, ◌++◌, map}
use balances_watcher.Domain.Session.{BalanceEvent, error}
use balances_watcher.SessionManager.{StreamItem, event, lagged, broadcast_events_with_lag_close}

-- At the first lag the stream ends: the client is sent the events before it and one 503, nothing of
-- what comes behind, and the lag is counted once.
pub broadcast_events_with_lag_close-lagged :
    (events : List BalanceEvent) (rest : List StreamItem) (total : ℕ)
    → broadcast_events_with_lag_close (map event events ++ lagged ∷ rest) total
      ≡ (events ++ error 503 "event stream lagged; reconnect for a fresh snapshot" ∷ [], total + 1)
unfolding broadcast_events_with_lag_close
broadcast_events_with_lag_close-lagged [] rest total = refl
broadcast_events_with_lag_close-lagged (e ∷ events) rest total =
    rw (broadcast_events_with_lag_close-lagged events rest total) refl
