-- ===== src/Pipeline/Transfer.antt =====
-- A `Transfer` that is handed to its handler reaches a multicall in every session that watches the token.
use balances_watcher.Base.{
  ℕ, ◌≡◌, sym, ap, ◌∙◌, Bool, true, List, [], ◌∷◌, ◌++◌, Result, All, Memᴰ, nat_eq,
}
use balances_watcher.Base.Sort.{concat}
use balances_watcher.Dispatcher.Logs.{Log, Erc20TransferEvent, Outbox, on_erc20_logs}
use balances_watcher.SubscriptionManager.{Manager, SubWithCounter}
use balances_watcher.RefreshQueue.{FetchRequest, BlockId, work}
use balances_watcher.RefreshQueue.Worker.{IsServed}
use balances_watcher.SessionManager.Listener.{
  ListenerMessage, listener_cancelled, listener_closed, transfer, Heaps, IsTransfer, IsWatching,
  listen, listen-IsServed,
}
use balances_watcher.Pipeline.Emission.{IsEventOf, on_erc20_logs-sends}

-- The events that a listener has received.
abbrev pub events_of : List ListenerMessage → List Erc20TransferEvent
events_of [] = []
events_of (listener_cancelled ∷ messages) = events_of messages
events_of (listener_closed ∷ messages) = events_of messages
events_of (transfer m heaps is_gone event ∷ messages) = event ∷ events_of messages

-- A session watches the token of an event whenever the event comes, and its worker is there.
abbrev pub IsWatched : Erc20TransferEvent → SubWithCounter → ListenerMessage → Type 0
IsWatched event entry listener_cancelled = Unit {0}
IsWatched event entry listener_closed = Unit {0}
IsWatched event entry (transfer m heaps is_gone e) =
    e ≡ event → IsWatching m heaps is_gone event entry

-- Where the event stands among the messages.
record Found (event : Erc20TransferEvent) (entry : SubWithCounter) (messages : List ListenerMessage)
    : Type 0 where
  front : List ListenerMessage
  back : List ListenerMessage
  manager : Manager
  heaps : Heaps
  is_gone : ℕ → Bool
  split : messages ≡ front ++ transfer manager heaps is_gone event ∷ back
  reads : All IsTransfer front
  watching : IsWatching manager heaps is_gone event entry

find_event :
    (event : Erc20TransferEvent) (entry : SubWithCounter) (messages : List ListenerMessage)
    → All IsTransfer messages
    → All (IsWatched event entry) messages
    → Memᴰ event (events_of messages)
    → Found event entry messages
find_event event entry [] r w m = elim m [ ]
find_event event entry (listener_cancelled ∷ messages) r w m = absurd r.0
find_event event entry (listener_closed ∷ messages) r w m = absurd r.0
find_event event entry (transfer manager heaps is_gone e ∷ messages) r w (Memᴰ.head same) = record {
  front = [];
  back = messages;
  manager = manager;
  heaps = heaps;
  is_gone = is_gone;
  split = ap (λ x. transfer manager heaps is_gone x ∷ messages) (sym same);
  reads = tt;
  watching = w.0 (sym same);
}
find_event event entry (transfer manager heaps is_gone e ∷ messages) r w (Memᴰ.tail m) =
    let f = find_event event entry messages r.1 w.1 m in
    record {
      front = transfer manager heaps is_gone e ∷ f.front;
      back = f.back;
      manager = f.manager;
      heaps = f.heaps;
      is_gone = f.is_gone;
      split = ap (λ x. transfer manager heaps is_gone e ∷ x) f.split;
      reads = (tt, f.reads);
      watching = f.watching;
    }

module _ {ℓ κ} {Balances : Type ℓ} {RpcError : Type κ}
    (fetch_balances_via_multicall : ℕ → ℕ → List ℕ → BlockId → Result RpcError Balances)
    (is_received : ℕ → Bool) (heard : (i : ℕ) → is_received i ≡ true) where
  received-IsServed :
      (messages : List ListenerMessage) (event : Erc20TransferEvent) (entry : SubWithCounter)
      (batches : List (List FetchRequest))
      → concat batches ≡ listen messages (λ k. []) entry.subscription
      → Found event entry messages
      → IsServed fetch_balances_via_multicall is_received event.owner
          (event.token, event.block)
          (work fetch_balances_via_multicall is_received event.owner batches)
  received-IsServed messages event entry batches taken f =
      listen-IsServed fetch_balances_via_multicall is_received heard f.front f.back f.manager
        f.heaps f.is_gone event entry f.reads f.watching batches
        (taken ∙ ap (λ ms. listen ms (λ k. []) entry.subscription) f.split)

  -- A `Transfer` that is handed to its handler, as one of some logs.
  pub handed_over-IsServed :
      (from_word : ℕ → ℕ) (logs : List Log) (log : Log)
      → Memᴰ log logs
      → (event : Erc20TransferEvent) → IsEventOf from_word log event
      → (o : Outbox) (messages : List ListenerMessage) → All IsTransfer messages
      → ((e : Erc20TransferEvent)
          → Memᴰ e (on_erc20_logs from_word logs o).sent
          → Memᴰ e (events_of messages))
      → (entry : SubWithCounter) → All (IsWatched event entry) messages
      → (batches : List (List FetchRequest))
      → concat batches ≡ listen messages (λ k. []) entry.subscription
      → IsServed fetch_balances_via_multicall is_received event.owner
          (event.token, event.block)
          (work fetch_balances_via_multicall is_received event.owner batches)
  handed_over-IsServed from_word logs log over event of o messages reads arrives entry watched
        batches taken =
      let sent = on_erc20_logs-sends from_word log logs o event over of in
      received-IsServed messages event entry batches taken
        (find_event event entry messages reads watched (arrives event sent))
