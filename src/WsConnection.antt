-- ===== src/WsConnection.antt =====
-- src/ws_connection/mod.rs. The connection and the subscription of each attempt come from alloy, and
-- the retry loop from backon, under the laws that its documentation states: parameters. The delays
-- that backon chooses are left out, and with them the metric that records them.
pub mod Retry
mod Examples
use balances_watcher.Base.{
  ℕ, zero, suc, ◌+◌, ◌-◌, Bool, true, List, [], ◌∷◌, Option, none, some, Result, ok, err,
}
use balances_watcher.Base.Word.{u64_modulus}
use balances_watcher.RpcClient.Errors.{Backon, ExponentialBuilder}

-- The provider is kept with the stream, which ends with it.
pub record ManagedWsSubscription (Provider Stream : Type 0) : Type 0 where
  pub provider : Provider
  pub stream : Stream

-- In milliseconds.
abbrev min_reconnect_attempt_delay : ℕ
min_reconnect_attempt_delay = 1000

abbrev max_reconnect_attempt_delay : ℕ
max_reconnect_attempt_delay = 30000

-- `usize::MAX`.
abbrev pub usize_max : ℕ
usize_max = u64_modulus - 1

unfoldable pub reconnect_backoff : ExponentialBuilder
reconnect_backoff = record {
  min_delay = min_reconnect_attempt_delay;
  max_delay = max_reconnect_attempt_delay;
  max_times = usize_max;
  jitter = true;
}

-- Which branch of the `select!` is ready first: the token is cancelled when some attempts have failed,
-- or the retries end.
pub data Selected : Type 0 where
  cancelled_after : ℕ → Selected
  retries_end : Selected

unfoldable pub notify_reconnect_error : ℕ → ℕ
notify_reconnect_error ws_reconnect_attempts_total = ws_reconnect_attempts_total + 1

unfoldable pub notify_each : {E : Type 0} → List E → ℕ → ℕ
unfolding notify_reconnect_error
notify_each [] total = total
notify_each (e ∷ es) total = notify_each es (notify_reconnect_error total)

unfoldable pub first_of : {E : Type 0} → ℕ → List E → List E
first_of zero es = []
first_of (suc n) [] = []
first_of (suc n) (e ∷ es) = e ∷ first_of n es

-- `res.ok()`.
unfoldable pub to_option : {E A : Type 0} → Result E A → Option A
to_option (ok a) = some a
to_option (err e) = none

-- The closure of `subscribe_blocks`.
unfoldable pub subscribe_heads :
    {Provider Stream Error : Type 0}
    → (ℕ → Provider → Result Error Stream)
    → ℕ
    → Provider
    → Result Error (ManagedWsSubscription Provider Stream)
subscribe_heads subscribe i provider = elim (subscribe i provider) [
  | err e ↦ err e
  | ok stream ↦ ok (record { provider = provider; stream = stream })
]

module _ {Provider Stream Error : Type 0} (backon : Backon)
    (connect_ws : ℕ → Result Error Provider) where
  -- Attempt `i`.
  unfoldable pub attempt_to_connect :
      (ℕ → Provider → Result Error (ManagedWsSubscription Provider Stream))
      → ℕ
      → Result Error (ManagedWsSubscription Provider Stream)
  attempt_to_connect subscribe_fn i = elim (connect_ws i) [
    | err e ↦ err e
    | ok provider ↦ subscribe_fn i provider
  ]

  -- `ws_reconnect_attempts_total` goes in and comes out.
  unfoldable pub with_retry :
      (ℕ → Provider → Result Error (ManagedWsSubscription Provider Stream))
      → Selected
      → ℕ
      → Option (ManagedWsSubscription Provider Stream) × ℕ
  unfolding attempt_to_connect reconnect_backoff notify_each first_of to_option
  with_retry subscribe_fn selected total =
      let (res, notified) =
        backon.retry reconnect_backoff (attempt_to_connect subscribe_fn) (λ e. true) in
      elim selected [
        | cancelled_after n ↦ (none, notify_each (first_of n notified) total)
        | retries_end ↦ (to_option res, notify_each notified total)
      ]

  unfoldable pub subscribe_blocks :
      (ℕ → Provider → Result Error Stream)
      → Selected
      → ℕ
      → Option (ManagedWsSubscription Provider Stream) × ℕ
  unfolding subscribe_heads with_retry
  subscribe_blocks subscribe selected total = with_retry (subscribe_heads subscribe) selected total
