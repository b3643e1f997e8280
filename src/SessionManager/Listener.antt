-- ===== src/SessionManager/Listener.antt =====
-- `spawn_erc20_transfer_listener` of src/services/session_manager.rs, over what the rounds of its
-- `select!` yield, and what becomes of a transfer: it is asked for, and a multicall answers.
use balances_watcher.Base.{
  ℕ, ◌+◌, inl, inr, ◌≡◌, refl, sym, ap, Bool, true, false, List, [], ◌∷◌, ◌++◌, if◌then◌else◌,
  nat_eq, nat_beq, arith, All, Memᴰ, mem_left, mem_right, Bool-cases, ◌==◌, Result,
}
use mathlib.Core.Path.{subst}
use balances_watcher.Base.Sort.{concat}
use balances_watcher.Base.Map.{lookup}
use balances_watcher.Domain.Session.{Session}
use balances_watcher.Dispatcher.Logs.{Erc20TransferEvent}
use balances_watcher.SubscriptionManager.{
  Manager, SubWithCounter, owned_queues_watching, candidates, keep_watching, watches,
}
use balances_watcher.Subscription.{Subscription}
use balances_watcher.RefreshQueue.{FetchRequest, BlockId, enqueue, work}
use balances_watcher.RefreshQueue.Worker.{IsServed, work-IsServed}

-- What each refresh queue has accepted, by the number of its subscription.
abbrev pub Channels : Type 0
Channels = ℕ → List FetchRequest

abbrev pub Heaps : Type 0
Heaps = ℕ → List (ℕ × Subscription)

-- A transfer comes with the registry of its round, with the heap at each check of a candidate, and
-- with the queues whose worker is gone by then.
pub data ListenerMessage : Type 0 where
  listener_cancelled : ListenerMessage
  listener_closed : ListenerMessage
  transfer : Manager → Heaps → (ℕ → Bool) → Erc20TransferEvent → ListenerMessage

unfoldable pub enqueue_into : (ℕ → Bool) → Erc20TransferEvent → ℕ → Channels → Channels
unfolding enqueue
enqueue_into is_gone event queue channels k =
    if nat_beq queue k
    then enqueue (is_gone queue) event.token event.block (channels k)
    else channels k

-- `join_all`: the queues are different channels, so the order of the sends does not matter.
unfoldable pub enqueue_all : (ℕ → Bool) → Erc20TransferEvent → List ℕ → Channels → Channels
unfolding enqueue_into
enqueue_all is_gone event [] channels = channels
enqueue_all is_gone event (queue ∷ queues) channels =
    enqueue_all is_gone event queues (enqueue_into is_gone event queue channels)

unfoldable pub listen : List ListenerMessage → Channels → Channels
unfolding enqueue_all
listen [] channels = channels
listen (listener_cancelled ∷ messages) channels = channels
listen (listener_closed ∷ messages) channels = channels
listen (transfer m heaps is_gone event ∷ messages) channels =
    listen messages
      (enqueue_all is_gone event (owned_queues_watching heaps event.owner event.token m) channels)

enqueue_into-keeps :
    (is_gone : ℕ → Bool) (event : Erc20TransferEvent) (queue k : ℕ) (channels : Channels)
    (r : FetchRequest)
    → Memᴰ r (channels k)
    → Memᴰ r (enqueue_into is_gone event queue channels k)
unfolding enqueue_into enqueue
enqueue_into-keeps is_gone event queue k channels r m = elim (Bool-cases (nat_beq queue k)) [
  | inr other ↦ rw other m
  | inl here ↦ elim (Bool-cases (is_gone queue)) [
    | inl gone ↦ rw (here, gone) m
    | inr there ↦ rw (here, there) (mem_left (channels k) _ m)
  ]
]

enqueue_all-keeps :
    (is_gone : ℕ → Bool) (event : Erc20TransferEvent) (queues : List ℕ) (k : ℕ)
    (channels : Channels) (r : FetchRequest)
    → Memᴰ r (channels k)
    → Memᴰ r (enqueue_all is_gone event queues channels k)
unfolding enqueue_all
enqueue_all-keeps is_gone event [] k channels r m = m
enqueue_all-keeps is_gone event (queue ∷ queues) k channels r m =
    enqueue_all-keeps is_gone event queues k _ r
      (enqueue_into-keeps is_gone event queue k channels r m)

enqueue_all-mem :
    (is_gone : ℕ → Bool) (event : Erc20TransferEvent) (queues : List ℕ) (k : ℕ)
    (channels : Channels)
    → Memᴰ k queues
    → is_gone k ≡ false
    → Memᴰ (event.token, event.block) (enqueue_all is_gone event queues channels k)
unfolding enqueue_all enqueue_into enqueue
enqueue_all-mem is_gone event [] k channels m there = elim m [ ]
enqueue_all-mem is_gone event (queue ∷ queues) k channels (Memᴰ.head e) there =
    enqueue_all-keeps is_gone event queues k _ _ (accepted e)
  where
    accepted :
        k ≡ queue → Memᴰ (event.token, event.block) (enqueue_into is_gone event queue channels k)
    accepted e =
        let here : nat_beq queue k ≡ true = ground arith in
        let present : is_gone queue ≡ false = rw (← e) there in
        rw (here, present) (mem_right (channels k) _ (Memᴰ.head refl))
enqueue_all-mem is_gone event (queue ∷ queues) k channels (Memᴰ.tail m) there =
    enqueue_all-mem is_gone event queues k _ m there

listen-keeps :
    (messages : List ListenerMessage) (k : ℕ) (channels : Channels) (r : FetchRequest)
    → Memᴰ r (channels k)
    → Memᴰ r (listen messages channels k)
unfolding listen
listen-keeps [] k channels r m = m
listen-keeps (listener_cancelled ∷ messages) k channels r m = m
listen-keeps (listener_closed ∷ messages) k channels r m = m
listen-keeps (transfer manager heaps is_gone event ∷ messages) k channels r m =
    listen-keeps messages k _ r (
      enqueue_all-keeps is_gone event (owned_queues_watching heaps event.owner event.token manager)
        k channels r m)

candidates-mem :
    (owner : ℕ) (subs : List (Session × SubWithCounter)) (session : Session)
    (entry : SubWithCounter)
    → Memᴰ (session, entry) subs
    → session.owner ≡ owner
    → Memᴰ entry.subscription (candidates owner subs)
unfolding candidates
candidates-mem owner [] session entry m own = elim m [ ]
candidates-mem owner ((s, e) ∷ subs) session entry (Memᴰ.head p) own =
    let same_session : session ≡ s = ap (λ x. x.0) p in
    let owns : (s.owner == owner) ≡ true = ground (arith, same_session, own) in
    rw owns (Memᴰ.head (ap (λ x. x.1.subscription) p))
candidates-mem owner ((s, e) ∷ subs) session entry (Memᴰ.tail m) own =
    elim (Bool-cases (s.owner == owner)) [
      | inl too ↦ rw too (Memᴰ.tail (candidates-mem owner subs session entry m own))
      | inr out ↦ rw out (candidates-mem owner subs session entry m own)
    ]

keep_watching-mem :
    (heaps : Heaps) (check token id : ℕ) (ids : List ℕ)
    → Memᴰ id ids
    → ((i : ℕ) → watches token (lookup id (heaps i)) ≡ true)
    → Memᴰ id (keep_watching heaps check token ids)
unfolding keep_watching
keep_watching-mem heaps check token id [] m watched = elim m [ ]
keep_watching-mem heaps check token id (x ∷ ids) (Memᴰ.head e) watched =
    let watching : watches token (lookup x (heaps check)) ≡ true = rw (← e) (watched check) in
    rw watching (Memᴰ.head e)
keep_watching-mem heaps check token id (x ∷ ids) (Memᴰ.tail m) watched =
    elim (Bool-cases (watches token (lookup x (heaps check)))) [
      | inl too ↦ rw too (Memᴰ.tail (keep_watching-mem heaps (check + 1) token id ids m watched))
      | inr out ↦ rw out (keep_watching-mem heaps (check + 1) token id ids m watched)
    ]

-- Messages that the listener reads past.
abbrev pub IsTransfer : ListenerMessage → Type 0
IsTransfer listener_cancelled = ⊥
IsTransfer listener_closed = ⊥
IsTransfer (transfer m heaps is_gone event) = Unit {0}

listen-append :
    (front back : List ListenerMessage) (channels : Channels)
    → All IsTransfer front
    → listen (front ++ back) channels ≡ listen back (listen front channels)
unfolding listen
listen-append [] back channels h = refl
listen-append (listener_cancelled ∷ front) back channels h = absurd h.0
listen-append (listener_closed ∷ front) back channels h = absurd h.0
listen-append (transfer m heaps is_gone event ∷ front) back channels h =
    listen-append front back _ h.1

-- A session of the event's owner that watches its token all the while, and whose worker is there.
abbrev pub IsWatching : Manager → Heaps → (ℕ → Bool) → Erc20TransferEvent → SubWithCounter → Type 0
IsWatching m heaps is_gone event entry =
    (session : Session) × Memᴰ (session, entry) m.subscriptions
    × (session.owner ≡ event.owner)
    × ((i : ℕ) → watches event.token (lookup entry.subscription (heaps i)) ≡ true)
    × (is_gone entry.subscription ≡ false)

listen-accepts :
    (front back : List ListenerMessage) (m : Manager) (heaps : Heaps) (is_gone : ℕ → Bool)
    (event : Erc20TransferEvent) (entry : SubWithCounter) (channels : Channels)
    → All IsTransfer front
    → IsWatching m heaps is_gone event entry
    → Memᴰ
        (event.token, event.block)
        (listen (front ++ transfer m heaps is_gone event ∷ back) channels entry.subscription)
unfolding listen owned_queues_watching
listen-accepts front back m heaps is_gone event entry channels reads
      (session, there, own, watched, alive) =
    rw (listen-append front (transfer m heaps is_gone event ∷ back) channels reads) (
      listen-keeps back entry.subscription _ (event.token, event.block)
        (enqueue_all-mem is_gone event _ entry.subscription _
          (keep_watching-mem heaps 0 event.token entry.subscription _
            (candidates-mem event.owner m.subscriptions session entry there own) watched)
          alive))

module _ {ℓ κ} {Balances : Type ℓ} {RpcError : Type κ}
    (fetch_balances_via_multicall : ℕ → ℕ → List ℕ → BlockId → Result RpcError Balances)
    (is_received : ℕ → Bool) where
  -- A transfer that the listener receives is answered in each session of its owner that watches its
  -- token while the queues are looked up, and whose worker is there: if the worker takes what its
  -- queue accepts, in whatever batches, and its consumer stays, some answer has a multicall for the
  -- token, at the latest block or at one that is not older than the transfer's.
  pub listen-IsServed :
      ((i : ℕ) → is_received i ≡ true)
      → (front back : List ListenerMessage) (m : Manager) (heaps : Heaps) (is_gone : ℕ → Bool)
        (event : Erc20TransferEvent) (entry : SubWithCounter)
      → All IsTransfer front
      → IsWatching m heaps is_gone event entry
      → (batches : List (List FetchRequest))
      → concat batches
        ≡ listen (front ++ transfer m heaps is_gone event ∷ back) (λ k. []) entry.subscription
      → IsServed fetch_balances_via_multicall is_received event.owner
          (event.token, event.block)
          (work fetch_balances_via_multicall is_received event.owner batches)
  listen-IsServed heard front back m heaps is_gone event entry reads watching batches taken =
      work-IsServed fetch_balances_via_multicall is_received heard event.owner batches _ (
        subst (Memᴰ (event.token, event.block)) (sym taken)
          (listen-accepts front back m heaps is_gone event entry (λ k. []) reads watching))
