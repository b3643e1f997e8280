-- ===== src/SessionManager/Stream.antt =====
-- The stream that a client gets that connects while its session is being updated.
use balances_watcher.Base.{
  ℕ, ◌≡◌, refl, sym, ap, ◌∙◌, List, [], ◌∷◌, ◌++◌, map, Option, none, some, String, Result, ok,
  nat_eq,
}
use balances_watcher.Base.Map.{lookup}
use balances_watcher.Domain.Session.{Session, session_eq, BalanceEvent, balance_update, error}
use balances_watcher.Subscription.{Balance, BalanceSnapshot, Diff, Subscription, current_snapshot}
use balances_watcher.Subscription.Replay.{
  Change, apply_diff, lookup-apply_diff, prefer, snapshot_text,
}
use balances_watcher.SubscriptionManager.{Manager, SubWithCounter, SubscriptionError, subscribe}
use balances_watcher.SessionManager.{event, broadcast_events_with_lag_close}
use balances_watcher.SessionManager.Sse.{
  snapshot_amounts, to_sse_stream, initial_stream, connect, create_sse_connection,
}
use balances_watcher.SessionManager.Connect.{
  broadcasts, read_events, state_after, replay_overlapping,
}

snapshot_amounts-text :
    (to_string : ℕ → String) (snapshot : BalanceSnapshot)
    → snapshot_amounts to_string snapshot ≡ snapshot_text to_string snapshot
unfolding snapshot_amounts snapshot_text
snapshot_amounts-text to_string [] = refl
snapshot_amounts-text to_string ((t, b) ∷ snapshot) =
    ap (λ d. (t, to_string b.amount) ∷ d) (snapshot_amounts-text to_string snapshot)

no_lag :
    (events : List BalanceEvent) (total : ℕ)
    → broadcast_events_with_lag_close (map event events) total ≡ (events, total)
unfolding broadcast_events_with_lag_close
no_lag [] total = refl
no_lag (e ∷ events) total = rw (no_lag events total) refl

read_events-same :
    (events : List BalanceEvent) (v w : Diff)
    → ((t : ℕ) → lookup t v ≡ lookup t w)
    → (t : ℕ) → lookup t (read_events events v) ≡ lookup t (read_events events w)
unfolding read_events
read_events-same [] v w same = same
read_events-same (error code message ∷ events) v w same = read_events-same events v w same
read_events-same (balance_update diff ∷ events) v w same =
    read_events-same events (apply_diff diff v) (apply_diff diff w) (λ t.
      lookup-apply_diff t diff v
      ∙ ap (λ x. prefer (lookup t diff) x) (same t)
      ∙ sym (lookup-apply_diff t diff w))

subscribe-ok :
    (session : Session) (m : Manager) (entry : SubWithCounter)
    → lookup session m.subscriptions ≡ some entry
    → (subscribe session m).0 ≡ ok entry.subscription
unfolding subscribe
subscribe-ok session m entry registered = rw (registered, subscribe) refl

prefer-none : (a : Option String) → prefer a none ≡ a
prefer-none none = refl
prefer-none (some a) = refl

module _ {Data : Type 0} where
  -- The events that a client reads from the stream.
  unfoldable pub parsed : (Data → BalanceEvent) → List (String × Data) → List BalanceEvent
  parsed parse_data [] = []
  parsed parse_data ((name, d) ∷ stream) = parse_data d ∷ parsed parse_data stream

module _ (to_string : ℕ → String) {Data : Type 0} (json_data : BalanceEvent → Option Data)
    (parse_data : Data → BalanceEvent)
    (writes : (e : BalanceEvent) → (d : Data) × (json_data e ≡ some d) × (parse_data d ≡ e)) where
  parsed-to_sse_stream :
      (events : List BalanceEvent) → parsed parse_data (to_sse_stream json_data events) ≡ events
  unfolding parsed to_sse_stream
  parsed-to_sse_stream [] = refl
  parsed-to_sse_stream (e ∷ events) =
      let (d, written, read) = writes e in
      rw (written, to_sse_stream, parsed) rw (read, parsed-to_sse_stream events) refl

  parsed-first :
      (e : BalanceEvent) (events : List BalanceEvent)
      → parsed parse_data (to_sse_stream json_data (e ∷ []) ++ to_sse_stream json_data events)
        ≡ e ∷ events
  unfolding parsed to_sse_stream
  parsed-first e events =
      let (d, written, read) = writes e in
      rw (written, to_sse_stream) (rw (read, parsed-to_sse_stream events) refl)

  parsed-stream :
      (t : ℕ) (snapshot : BalanceSnapshot) (events : List BalanceEvent)
      → lookup t (
          read_events
            (parsed parse_data
              (initial_stream json_data to_string snapshot ++ to_sse_stream json_data events))
            [])
        ≡ lookup t (read_events events (snapshot_text to_string snapshot))
  unfolding initial_stream snapshot_text read_events lookup
  parsed-stream t [] events = ap (λ e. lookup t (read_events e [])) (parsed-to_sse_stream events)
  parsed-stream t ((token, b) ∷ snapshot) events =
      let first = snapshot_amounts to_string ((token, b) ∷ snapshot) in
      ap (λ e. lookup t (read_events e [])) (parsed-first (balance_update first) events)
      ∙ read_events-same events (apply_diff first [])
          (snapshot_text to_string ((token, b) ∷ snapshot))
          (λ u.
            lookup-apply_diff u first []
            ∙ prefer-none (lookup u first)
            ∙ ap (λ d. lookup u d) (snapshot_amounts-text to_string ((token, b) ∷ snapshot)))
          t

  connect-ok :
      (others : Manager → Manager) (sent : List BalanceEvent) (total : ℕ)
      (answer : Result SubscriptionError ℕ) (m : Manager) (id : ℕ) (s : Subscription)
      → answer ≡ ok id
      → lookup id (others m).heap ≡ some s
      → (connect json_data to_string others (map event sent) total (answer, m)).0
        ≡ ok (
          initial_stream json_data to_string s.balances_snapshot ++ to_sse_stream json_data sent,
          total,
        )
  unfolding connect current_snapshot
  connect-ok others sent total answer m id s done read =
      rw (done, connect) (rw (read, no_lag sent total) refl)

  -- A client connects to a session that is registered, each diff of which is broadcast before
  -- anything else happens to it. Whatever changes come between the subscription and the reading of
  -- the snapshot, and whatever come later, once it has read all that was sent it has the text of
  -- every stored balance.
  pub create_sse_connection-Agrees :
      (others : Manager → Manager) (early later : List (Change to_string)) (session : Session)
      (m : Manager) (entry : SubWithCounter) (s : Subscription) (total : ℕ)
      → lookup session m.subscriptions ≡ some entry
      → lookup entry.subscription (others (subscribe session m).1).heap
        ≡ some (state_after to_string early s)
      → (stream : List (String × Data)) × ((create_sse_connection json_data to_string others
            (map event (broadcasts to_string (early ++ later) s))
            total
            session
            m).0
          ≡ ok (stream, total))
        × ((t : ℕ) (b : Balance)
            → lookup t (state_after to_string (early ++ later) s).balances_snapshot ≡ some b
            → lookup t (read_events (parsed parse_data stream) []) ≡ some (to_string b.amount))
  unfolding create_sse_connection current_snapshot
  create_sse_connection-Agrees others early later session m entry s total registered read =
      let sent = broadcasts to_string (early ++ later) s in
      (
        initial_stream json_data to_string (state_after to_string early s).balances_snapshot
            ++ to_sse_stream json_data sent,
        connect-ok others sent total (subscribe session m).0 (subscribe session m).1
            entry.subscription (state_after to_string early s)
            (subscribe-ok session m entry registered) read,
        λ t b h.
            parsed-stream t (state_after to_string early s).balances_snapshot sent
            ∙ replay_overlapping to_string early later s t b h,
      )
