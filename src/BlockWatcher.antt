-- ===== src/BlockWatcher.antt =====
-- src/services/block_watcher.rs. What a round of the `select!` yields is a message; the subscription,
-- the HTTP head and the answer of the block channel come with it. A `Duration` is milliseconds.
pub mod Connection
mod Examples
use balances_watcher.Base.{
  ℕ, ◌+◌, ◌*◌, max, Bool, true, false, List, [], ◌∷◌, ◌++◌, leb, if◌then◌else◌, ◌==◌, nat_eq,
  Result, ok, err,
}
use balances_watcher.Health.{SubsystemHealth, healthy, unhealthy, heads_disconnected}

pub data StallVerdict : Type 0 where
  chain_idle unconfirmed : StallVerdict
  stream_stalled : ℕ → StallVerdict

-- The last value sent on `on_connect_tx`, and the blocks that the block channel took.
pub record BlockWatcher : Type 0 where
  pub connected : Bool
  pub latest_block : ℕ
  pub on_connect : Bool
  pub forwarded : List ℕ
  pub block_accepted_total : ℕ
  pub block_channel_overflow_total : ℕ
  pub ws_provider_disconnected_total : ℕ

-- The state that `spawn` begins with; its metrics begin at 0.
unfoldable pub spawn_watcher : BlockWatcher
spawn_watcher = record {
  connected = false;
  latest_block = 0;
  on_connect = false;
  forwarded = [];
  block_accepted_total = 0;
  block_channel_overflow_total = 0;
  ws_provider_disconnected_total = 0;
}

abbrev min_stall_duration : ℕ
min_stall_duration = 2000

abbrev stall_timeout_blocks : ℕ
stall_timeout_blocks = 3

unfoldable pub stall_timeout : ℕ → ℕ
stall_timeout block_time = max (block_time * stall_timeout_blocks) min_stall_duration

-- The answer of `try_send`.
pub data TrySend : Type 0 where
  taken full receiver_dropped : TrySend

unfoldable pub try_send : TrySend → ℕ → BlockWatcher → BlockWatcher
try_send taken block_number w = record w { forwarded = w.forwarded ++ block_number ∷ [] }
try_send full block_number w = record w {
  block_channel_overflow_total = w.block_channel_overflow_total + 1;
}
try_send receiver_dropped block_number w = w

unfoldable pub record_connected : TrySend → ℕ → BlockWatcher → BlockWatcher
unfolding try_send
record_connected answer block_number w = try_send answer block_number (record w {
  block_accepted_total = w.block_accepted_total + 1;
  connected = true;
  latest_block = block_number;
})

unfoldable pub stall_verdict : ℕ → ℕ → StallVerdict
stall_verdict last_observed http_head =
    if leb http_head last_observed then chain_idle else stream_stalled http_head

unfoldable pub health_status : BlockWatcher → SubsystemHealth
health_status w = if w.connected then healthy else unhealthy (heads_disconnected w.latest_block)

module _ {ℓ} {RpcError : Type ℓ} where
  unfoldable pub confirm_stall : Result RpcError ℕ → BlockWatcher → StallVerdict
  unfolding stall_verdict
  confirm_stall (ok http_head) w =
      if w.latest_block == 0 then unconfirmed else stall_verdict w.latest_block http_head
  confirm_stall (err e) w = unconfirmed

pub data StreamMessage {ℓ} (RpcError : Type ℓ) : Type ℓ where
  cancelled terminated : StreamMessage RpcError
  header : ℕ → TrySend → StreamMessage RpcError
  timed_out : Result RpcError ℕ → StreamMessage RpcError

-- One round of the outer loop: cancelled at its start, no subscription, or a subscription with what
-- it yields and whether the wait behind it is cancelled.
pub data Attempt {ℓ} (RpcError : Type ℓ) : Type ℓ where
  cancelled_before no_subscription : Attempt RpcError
  subscribed : List (StreamMessage RpcError) → Bool → Attempt RpcError

module _ {ℓ} {RpcError : Type ℓ} where
  unfoldable pub consume_until_disconnect :
      List (StreamMessage RpcError) → BlockWatcher → BlockWatcher
  unfolding record_connected confirm_stall
  consume_until_disconnect [] w = w
  consume_until_disconnect (cancelled ∷ ms) w = w
  consume_until_disconnect (header number answer ∷ ms) w =
      consume_until_disconnect ms (record_connected answer number w)
  consume_until_disconnect (terminated ∷ ms) w = record w {
    ws_provider_disconnected_total = w.ws_provider_disconnected_total + 1;
  }
  consume_until_disconnect (timed_out answer ∷ ms) w = elim (confirm_stall answer w) [
    | chain_idle ↦ consume_until_disconnect ms (record w { connected = true })
    | stream_stalled http_head ↦ w
    | unconfirmed ↦ w
  ]

  unfoldable pub run : List (Attempt RpcError) → BlockWatcher → BlockWatcher
  unfolding consume_until_disconnect
  run [] w = w
  run (cancelled_before ∷ rounds) w = w
  run (no_subscription ∷ rounds) w = w
  run (subscribed ms stops ∷ rounds) w =
      let ended = consume_until_disconnect ms (record w { on_connect = true }) in
      let off = record ended { connected = false; on_connect = false } in
      let later = run rounds off in if stops then off else later
