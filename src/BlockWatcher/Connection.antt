-- ===== src/BlockWatcher/Connection.antt =====
-- When the watcher is healthy, and what it forwards.
use balances_watcher.Base.{
  ℕ, ◌+◌, ◌≤◌, ◌≡◌, refl, ◌≢◌, ◌⊎◌, inl, inr, ◌↔◌, true, false, List, [], ◌∷◌, arith, Result, ok,
  err, length, length-append,
}
use balances_watcher.BlockWatcher.{
  StallVerdict, chain_idle, unconfirmed, stream_stalled, BlockWatcher, TrySend, taken, full,
  receiver_dropped, try_send, record_connected, stall_verdict, confirm_stall, StreamMessage,
  cancelled, terminated, header, timed_out, Attempt, cancelled_before, no_subscription, subscribed,
  consume_until_disconnect, run,
}

-- Whether the block channel's receiver was gone when a header came.
abbrev pub receiver_gone : TrySend → ℕ
receiver_gone receiver_dropped = 1
receiver_gone _ = 0

-- The blocks that were forwarded and those that overflowed are no more than the accepted ones.
abbrev pub Accounted : BlockWatcher → Type 0
Accounted w = length w.forwarded + w.block_channel_overflow_total ≤ w.block_accepted_total

record_connected-Accounted :
    (answer : TrySend) (n : ℕ) (w : BlockWatcher)
    → Accounted w
    → Accounted (record_connected answer n w)
unfolding record_connected try_send
record_connected-Accounted taken n w a = omega (arith, length-append w.forwarded (n ∷ []))
record_connected-Accounted full n w a = omega arith
record_connected-Accounted receiver_dropped n w a = omega arith

-- Of the blocks accepted from `w` to `w'`, all but `n` have been forwarded or counted as overflowed.
abbrev pub LosesAtMost : ℕ → BlockWatcher → BlockWatcher → Type 0
LosesAtMost n w w' =
    w'.block_accepted_total + (length w.forwarded + w.block_channel_overflow_total)
    ≤ w.block_accepted_total + (length w'.forwarded + w'.block_channel_overflow_total) + n

record_connected-LosesAtMost :
    (answer : TrySend) (n : ℕ) (w : BlockWatcher)
    → LosesAtMost (receiver_gone answer) w (record_connected answer n w)
unfolding record_connected try_send
record_connected-LosesAtMost taken n w = omega (arith, length-append w.forwarded (n ∷ []))
record_connected-LosesAtMost full n w = omega arith
record_connected-LosesAtMost receiver_dropped n w = omega arith

verdict-cases :
    (v : StallVerdict) → (v ≡ chain_idle) ⊎ (v ≡ unconfirmed) ⊎ ((n : ℕ) × (v ≡ stream_stalled n))
verdict-cases chain_idle = inl refl
verdict-cases unconfirmed = inr (inl refl)
verdict-cases (stream_stalled n) = inr (inr (n, refl))

module _ {ℓ} {RpcError : Type ℓ} where
  -- A stall is taken for an idle chain exactly if a header has been seen and the HTTP head could be
  -- read and is not ahead of it.
  pub confirm_stall_iff :
      (answer : Result RpcError ℕ) (w : BlockWatcher)
      → (confirm_stall answer w ≡ chain_idle) ↔ (
          (w.latest_block ≢ 0)
          × ((http_head : ℕ) × (answer ≡ ok http_head) × (http_head ≤ w.latest_block)))
  unfolding confirm_stall stall_verdict
  confirm_stall_iff (err e) w = (λ h. cc, λ (n, (k, q, l)). cc)
  confirm_stall_iff (ok k) w =
      (λ h. (ground arith, (k, refl, ground arith)), λ (n, (j, q, l)). back j q n l)
    where
      ok-inj : (j : ℕ) → ◌≡◌ {A = Result RpcError ℕ} (ok k) (ok j) → k ≡ j
      ok-inj j q = cc

      back :
          (j : ℕ)
          → ◌≡◌ {A = Result RpcError ℕ} (ok k) (ok j)
          → w.latest_block ≢ 0
          → j ≤ w.latest_block
          → confirm_stall {RpcError = RpcError} (ok k) w ≡ chain_idle
      back j q n l = let e = ok-inj j q in ground arith

  consume-Accounted :
      (ms : List (StreamMessage RpcError)) (w : BlockWatcher)
      → Accounted w
      → Accounted (consume_until_disconnect ms w)
  unfolding consume_until_disconnect
  consume-Accounted [] w a = a
  consume-Accounted (cancelled ∷ ms) w a = a
  consume-Accounted (terminated ∷ ms) w a = a
  consume-Accounted (header n answer ∷ ms) w a =
      consume-Accounted ms (record_connected answer n w) (record_connected-Accounted answer n w a)
  consume-Accounted (timed_out answer ∷ ms) w a = elim (verdict-cases (confirm_stall answer w)) [
    | inl idle ↦
        rw (idle, consume_until_disconnect) (consume-Accounted ms (record w { connected = true }) a)
    | inr (inl unsure) ↦ rw (unsure, consume_until_disconnect) a
    | inr (inr (n, stalled)) ↦ rw (stalled, consume_until_disconnect) a
  ]

  -- The headers that came when the block channel's receiver was gone.
  abbrev pub headers_lost : List (StreamMessage RpcError) → ℕ
  headers_lost [] = 0
  headers_lost (header n answer ∷ ms) = receiver_gone answer + headers_lost ms
  headers_lost (m ∷ ms) = headers_lost ms

  abbrev pub lost_in : List (Attempt RpcError) → ℕ
  lost_in [] = 0
  lost_in (subscribed ms stops ∷ rounds) = headers_lost ms + lost_in rounds
  lost_in (r ∷ rounds) = lost_in rounds

  consume-LosesAtMost :
      (ms : List (StreamMessage RpcError)) (w : BlockWatcher)
      → LosesAtMost (headers_lost ms) w (consume_until_disconnect ms w)
  unfolding consume_until_disconnect
  consume-LosesAtMost [] w = omega arith
  consume-LosesAtMost (cancelled ∷ ms) w = omega arith
  consume-LosesAtMost (terminated ∷ ms) w = omega arith
  consume-LosesAtMost (header n answer ∷ ms) w = omega (
    arith,
    consume-LosesAtMost ms (record_connected answer n w),
    record_connected-LosesAtMost answer n w,
  )
  consume-LosesAtMost (timed_out answer ∷ ms) w = elim (verdict-cases (confirm_stall answer w)) [
    | inl idle ↦
        rw (idle, consume_until_disconnect) (consume-LosesAtMost ms (record w { connected = true }))
    | inr (inl unsure) ↦ rw (unsure, consume_until_disconnect) (omega arith)
    | inr (inr (n, stalled)) ↦ rw (stalled, consume_until_disconnect) (omega arith)
  ]

  run-LosesAtMost :
      (rounds : List (Attempt RpcError)) (w : BlockWatcher)
      → LosesAtMost (lost_in rounds) w (run rounds w)
  unfolding run
  run-LosesAtMost [] w = omega arith
  run-LosesAtMost (cancelled_before ∷ rounds) w = omega arith
  run-LosesAtMost (no_subscription ∷ rounds) w = omega arith
  run-LosesAtMost (subscribed ms true ∷ rounds) w =
      omega (arith, consume-LosesAtMost ms (record w { on_connect = true }))
  run-LosesAtMost (subscribed ms false ∷ rounds) w =
      let ended = consume_until_disconnect ms (record w { on_connect = true }) in
      omega (
        arith,
        consume-LosesAtMost ms (record w { on_connect = true }),
        run-LosesAtMost rounds (record ended { connected = false; on_connect = false }),
      )

  run-Accounted :
      (rounds : List (Attempt RpcError)) (w : BlockWatcher)
      → w.connected ≡ false
      → w.on_connect ≡ false
      → Accounted w
      → ((run rounds w).connected ≡ false)
        × ((run rounds w).on_connect ≡ false)
        × Accounted (run rounds w)
  unfolding run
  run-Accounted [] w c o a = (c, o, a)
  run-Accounted (cancelled_before ∷ rounds) w c o a = (c, o, a)
  run-Accounted (no_subscription ∷ rounds) w c o a = (c, o, a)
  run-Accounted (subscribed ms true ∷ rounds) w c o a =
      (refl, refl, consume-Accounted ms (record w { on_connect = true }) a)
  run-Accounted (subscribed ms false ∷ rounds) w c o a =
      let ended = consume_until_disconnect ms (record w { on_connect = true }) in
      run-Accounted rounds (record ended { connected = false; on_connect = false }) refl refl
        (consume-Accounted ms (record w { on_connect = true }) a)

  -- A watcher that is disconnected and has told its listeners so is in this state again after any
  -- subscriptions, whatever they yielded. If the forwarded and the overflowed blocks were no more
  -- than the accepted ones, they are no more afterwards. Of the blocks accepted meanwhile, all have
  -- been forwarded or counted as overflowed but at most as many as came when the receiver was gone.
  pub run_disconnected :
      (rounds : List (Attempt RpcError)) (w : BlockWatcher)
      → w.connected ≡ false
      → w.on_connect ≡ false
      → Accounted w
      → ((run rounds w).connected ≡ false)
        × ((run rounds w).on_connect ≡ false)
        × Accounted (run rounds w)
        × LosesAtMost (lost_in rounds) w (run rounds w)
  run_disconnected rounds w c o a =
      let (off, told, accounted) = run-Accounted rounds w c o a in
      (off, told, accounted, run-LosesAtMost rounds w)
