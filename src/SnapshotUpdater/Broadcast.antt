-- ===== src/SnapshotUpdater/Broadcast.antt =====
-- What a client makes of the events that the two tasks send.
use Prim.Native.String.{String}
use balances_watcher.Base.{
  ℕ, ◌≡◌, refl, true, not, List, [], ◌∷◌, ◌++◌, Option, none, some, if◌then◌else◌, is_empty, length,
  ok, err, All, nat_eq,
}
use balances_watcher.Base.Map.{lookup}
use balances_watcher.Domain.Session.{BalanceEvent, balance_update, error}
use balances_watcher.Subscription.{
  Balance, Diff, BalancesWithBlock, Subscription, send_event, cancel, update_balances_and_take_diff,
}
use balances_watcher.Subscription.Replay.{apply_diff, Agrees, updates, follow, follow-Agrees}
use balances_watcher.SnapshotUpdater.{
  FetchMessage, fetch_cancelled, fetched, QueueMessage, queue_cancelled, closed, received,
  send_balance_update_event, update_balances_and_send_event, fetch_loop, receive_loop,
}

-- A client takes the balances of an update, and leaves its view as it is on an error.
abbrev pub apply_event : BalanceEvent → Diff → Diff
apply_event (balance_update diff) view = apply_diff diff view
apply_event (error code message) view = view

abbrev pub apply_events : List BalanceEvent → Diff → Diff
apply_events [] view = view
apply_events (e ∷ es) view = apply_events es (apply_event e view)

apply_events-append :
    (es : List BalanceEvent) (e : BalanceEvent) (view : Diff)
    → apply_events (es ++ e ∷ []) view ≡ apply_event e (apply_events es view)
apply_events-append [] e view = refl
apply_events-append (d ∷ es) e view = apply_events-append es e (apply_event d view)

pub send_event_lem :
    (answer : Option ℕ) (e : BalanceEvent) (s : Subscription)
    → ((send_event answer e s).sent ≡ s.sent ++ e ∷ [])
      × ((send_event answer e s).balances_snapshot ≡ s.balances_snapshot)
unfolding send_event
send_event_lem none e s = (refl, refl)
send_event_lem (some n) e s = (refl, refl)

module _ (receivers : ℕ → Option ℕ) (to_string : ℕ → String) where
  -- A client that began with `view` and took every event has the text of every stored balance.
  abbrev pub UpToDate : Diff → Subscription → Type 0
  UpToDate view s = Agrees to_string (apply_events s.sent view) s

  send_event-UpToDate :
      (answer : Option ℕ) (e : BalanceEvent) (view : Diff) (s : Subscription)
      → Agrees to_string (apply_event e (apply_events s.sent view)) s
      → UpToDate view (send_event answer e s)
  send_event-UpToDate answer e view s agree t b h =
      rw ((send_event_lem answer e s).0, apply_events-append s.sent e view)
        (agree t b (rw (send_event_lem answer e s).1 at h))

  sent-update :
      (u : BalancesWithBlock) (s : Subscription)
      → (update_balances_and_take_diff to_string u s).1.sent ≡ s.sent
  unfolding update_balances_and_take_diff
  sent-update ([], block) s = refl
  sent-update (b ∷ balances, block) s = refl

  pub update-UpToDate :
      (u : BalancesWithBlock) (view : Diff) (s : Subscription)
      → UpToDate view s
      → UpToDate view (update_balances_and_send_event receivers to_string u s)
  unfolding update_balances_and_send_event send_balance_update_event follow
  update-UpToDate u view s agree =
      let (diff, s') = update_balances_and_take_diff to_string u s in
      let fresh = follow-Agrees to_string (updates u) (apply_events s.sent view) s agree in
      split diff s' (sent-update u s) fresh
    where
      split :
          (diff : Diff) (s' : Subscription)
          → s'.sent ≡ s.sent
          → Agrees to_string (apply_diff diff (apply_events s.sent view)) s'
          → UpToDate view (
              send_balance_update_event receivers
                (if not (is_empty diff) then some (balance_update diff) else none)
                s')
      split [] s' same agrees = rw same agrees
      split (d ∷ diff) s' same agrees =
          send_event-UpToDate (receivers (length s'.sent)) (balance_update (d ∷ diff)) view s'
            (rw same agrees)

  -- If no other task touches the session, the snapshot task keeps a client up to date: one that has
  -- the text of every stored balance from what it began with and the events sent so far has it
  -- again after any results of the chunks, failed ones included, and any cancellation.
  pub fetch_loop-UpToDate {ℓ} :
      {RpcError : Type ℓ} (ms : List (FetchMessage RpcError)) (view : Diff) (s : Subscription)
      (t : ℕ) (b : Balance)
      → UpToDate view s
      → lookup t (fetch_loop receivers to_string ms s).balances_snapshot ≡ some b
      → lookup t (apply_events (fetch_loop receivers to_string ms s).sent view)
        ≡ some (to_string b.amount)
  unfolding fetch_loop send_balance_update_event
  fetch_loop-UpToDate [] view s t b agree h = agree t b h
  fetch_loop-UpToDate (fetch_cancelled ∷ ms) view s t b agree h = agree t b h
  fetch_loop-UpToDate (fetched (ok u) ∷ ms) view s t b agree h =
      fetch_loop-UpToDate ms view (update_balances_and_send_event receivers to_string u s) t b
        (update-UpToDate u view s agree) h
  fetch_loop-UpToDate (fetched (err e) ∷ ms) view s t b agree h =
      let failure : BalanceEvent = error 500 "Error when make multicall3 request" in
      fetch_loop-UpToDate ms view (send_event (receivers (length s.sent)) failure s) t b
        (send_event-UpToDate (receivers (length s.sent)) failure view s agree) h

  module _ {ℓ} {RpcError : Type ℓ} where
    -- Rounds of the queue receiver that do not end its loop.
    abbrev pub Continues : QueueMessage RpcError → Type 0
    Continues (received (ok balances)) = Unit
    Continues closed = Unit
    Continues _ = ⊥

    -- The first error from the queue ends the receiver: what comes behind it changes nothing, the
    -- last event sent is the error, and the session is cancelled. The stored balances and the
    -- events before are those of the rounds in front of the error.
    pub receive_loop-error :
        (front rest : List (QueueMessage RpcError)) (e : RpcError) (s : Subscription)
        → All Continues front
        → let before = receive_loop receivers to_string front s in
          let after = receive_loop receivers to_string (front ++ received (err e) ∷ rest) s in
          (after.is_cancelled ≡ true)
          × (after.sent ≡ before.sent ++ error 503 "RPC provider connection lost permanently" ∷ [])
          × (after.balances_snapshot ≡ before.balances_snapshot)
    unfolding receive_loop cancel
    receive_loop-error [] rest e s c =
        let failure : BalanceEvent = error 503 "RPC provider connection lost permanently" in
        let (sent, stored) = send_event_lem (receivers (length s.sent)) failure s in
        (refl, sent, stored)
    receive_loop-error (closed ∷ front) rest e s c = receive_loop-error front rest e s c.1
    receive_loop-error (received (ok u) ∷ front) rest e s c =
        receive_loop-error front rest e (update_balances_and_send_event receivers to_string u s) c.1
    receive_loop-error (received (err f) ∷ front) rest e s c = absurd c.0
    receive_loop-error (queue_cancelled ∷ front) rest e s c = absurd c.0
