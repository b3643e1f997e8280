-- ===== src/SessionManager/ListenerExample.antt =====
-- The theorem on transfers, applied to a wallet that two sessions watch.
use balances_watcher.Base.{
  ℕ, ◌≡◌, refl, Bool, true, false, List, [], ◌∷◌, ◌++◌, some, nat_eq, Memᴰ, Result, ok,
}
use balances_watcher.Base.Sort.{concat}
use balances_watcher.Base.Map.{lookup}
use balances_watcher.Base.Set.{contains}
use balances_watcher.Domain.Network.{gnosis}
use balances_watcher.Domain.Session.{Session}
use balances_watcher.Dispatcher.Logs.{Erc20TransferEvent}
use balances_watcher.Subscription.{new, is_watched_token}
use balances_watcher.SubscriptionManager.{
  Manager, SubWithCounter, empty, watches, owned_queues_watching, candidates, keep_watching,
}
use balances_watcher.RefreshQueue.{FetchRequest, BlockId, enqueue, work}
use balances_watcher.RefreshQueue.Worker.{IsServed}
use balances_watcher.SessionManager.Listener.{
  Heaps, ListenerMessage, listener_closed, transfer, IsWatching, listen, enqueue_all, enqueue_into,
  listen-IsServed,
}

abbrev laptop : Session
laptop = record { owner = 7; network = gnosis; client_id = 1 }

abbrev phone : Session
phone = record { owner = 7; network = gnosis; client_id = 2 }

abbrev laptop_entry : SubWithCounter
laptop_entry = record { clients = 1; subscription = 0; idle_since = some 3 }

abbrev phone_entry : SubWithCounter
phone_entry = record { clients = 2; subscription = 1; idle_since = some 3 }

abbrev registry : Manager
registry = record empty {
  subscriptions = (laptop, laptop_entry) ∷ (phone, phone_entry) ∷ [];
  heap = (0, new (3 ∷ [])) ∷ (1, new (3 ∷ 4 ∷ [])) ∷ [];
  fresh = 2;
}

abbrev nobody_gone : ℕ → Bool
nobody_gone queue = false

abbrev heaps : Heaps
heaps check = registry.heap

abbrev first_event : Erc20TransferEvent
first_event = record { owner = 7; token = 3; block = some 20 }

abbrev second_event : Erc20TransferEvent
second_event = record { owner = 7; token = 4; block = some 21 }

abbrev before : List ListenerMessage
before = transfer registry heaps nobody_gone first_event ∷ []

abbrev after : List ListenerMessage
after = listener_closed ∷ before

abbrev taken : List (List FetchRequest)
taken = ((3, some 20) ∷ []) ∷ ((4, some 21) ∷ []) ∷ []

taken_lem :
    concat taken
    ≡ listen (before ++ transfer registry heaps nobody_gone second_event ∷ after) (λ k. []) 1
unfolding listen enqueue_all enqueue_into enqueue owned_queues_watching candidates keep_watching
    watches new is_watched_token lookup empty contains
taken_lem = refl

phone_watches : IsWatching registry heaps nobody_gone second_event phone_entry
unfolding watches new is_watched_token lookup empty contains
phone_watches = (phone, Memᴰ.tail (Memᴰ.head refl), refl, (λ i. refl), refl)

-- The node answers with the round, here.
abbrev answer : ℕ → ℕ → List ℕ → BlockId → Result Bool ℕ
answer round owner tokens block = ok round

listen-IsServed_example :
    IsServed answer (λ i. true) 7 (4, some 21) (work answer (λ i. true) 7 taken)
listen-IsServed_example =
    listen-IsServed answer (λ i. true) (λ i. refl) before after registry heaps nobody_gone
      second_event phone_entry (tt, tt) phone_watches taken taken_lem
