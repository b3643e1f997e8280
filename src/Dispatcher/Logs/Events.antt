-- ===== src/Dispatcher/Logs/Events.antt =====
-- Which events the two log handlers send.
use balances_watcher.Base.{
  ℕ, ◌+◌, ◌≡◌, refl, ◌⊎◌, inl, inr, ◌↔◌, List, [], ◌∷◌, ◌++◌, Option, none, some, arith,
  Option-cases, nat_eq, length, ◌≢◌,
}
use mathlib.Core.List.{append_assoc}
use balances_watcher.Dispatcher.Logs.{
  Log, Erc20TransferEvent, Outbox, on_erc20_log, weth9_owner, on_weth9_log, owner_topic,
  transfer_topics,
}

transfer_topics_cases :
    (topics : List ℕ)
    → ((length topics ≢ 3) × (transfer_topics topics ≡ none))
      ⊎ ((topic0 : ℕ) × (from : ℕ) × (to : ℕ) × (topics ≡ topic0 ∷ from ∷ to ∷ [])
          × (transfer_topics topics ≡ some (from, to)))
unfolding transfer_topics
transfer_topics_cases (a ∷ b ∷ c ∷ []) = inr (a, b, c, refl, refl)
transfer_topics_cases _ = inl (omega arith, refl)

module _ (from_word : ℕ → ℕ) where
  -- The events of one `Transfer`: for the sender, then for the receiver.
  abbrev pub transfer_events : Log → ℕ → ℕ → List Erc20TransferEvent
  transfer_events log from to =
      record { owner = from_word from; token = log.address; block = log.block_number }
      ∷ record { owner = from_word to; token = log.address; block = log.block_number }
      ∷ []

  abbrev pub TransferHandled : Log → Outbox → Outbox → Type 0
  TransferHandled log o o' =
      ((length log.topics ≢ 3) × (o' ≡ o))
      ⊎ ((topic0 : ℕ) × (from : ℕ) × (to : ℕ) × (log.topics ≡ topic0 ∷ from ∷ to ∷ [])
          × (o' ≡ record o {
            sent = o.sent ++ transfer_events log from to;
            erc20_event_received_total = o.erc20_event_received_total + 1;
          }))

  -- A log with exactly three topics is counted once and sends two events for its contract and
  -- block, one for the address in the second topic and then one for that in the third. A log with
  -- any other number of topics changes nothing.
  pub on_erc20_log_cases :
      (log : Log) (o : Outbox) → TransferHandled log o (on_erc20_log from_word log o)
  unfolding on_erc20_log
  on_erc20_log_cases log o = elim (transfer_topics_cases log.topics) [
    | inl (other, e) ↦ inl (other, rw (e, on_erc20_log))
    | inr (topic0, from, to, shape, e) ↦
        inr (topic0, from, to, shape, rw (e, on_erc20_log) (simp append_assoc))
  ]

  module _ (weth9_address deposit withdrawal : ℕ) where
    abbrev owner_of : Log → Option ℕ
    owner_of = weth9_owner from_word weth9_address deposit withdrawal

    abbrev pub IsWrapEvent : Log → ℕ → Type 0
    IsWrapEvent log owner =
        (log.address ≡ weth9_address)
        × ((topic0 : ℕ) × (topic1 : ℕ) × (rest : List ℕ) × (log.topics ≡ topic0 ∷ topic1 ∷ rest)
            × ((topic0 ≡ deposit) ⊎ (topic0 ≡ withdrawal))
            × (owner ≡ from_word topic1))

    owner_topic-some :
        (topics : List ℕ) (a : ℕ)
        → owner_topic from_word weth9_address deposit withdrawal topics ≡ some a
        → (topic0 : ℕ) × (topic1 : ℕ) × (rest : List ℕ) × (topics ≡ topic0 ∷ topic1 ∷ rest)
          × ((topic0 ≡ deposit) ⊎ (topic0 ≡ withdrawal))
          × (a ≡ from_word topic1)
    unfolding owner_topic
    owner_topic-some [] a h = cc
    owner_topic-some (topic0 ∷ []) a h = cc
    owner_topic-some (topic0 ∷ topic1 ∷ rest) a h =
        (topic0, topic1, rest, refl, ground arith, ground arith)

    -- A log names an owner exactly when the WETH9 contract emitted it, its first topic is that of a
    -- deposit or a withdrawal, and its second topic holds the owner.
    pub weth9_owner_iff : (log : Log) (a : ℕ) → (owner_of log ≡ some a) ↔ IsWrapEvent log a
    unfolding weth9_owner owner_topic
    weth9_owner_iff log a =
        (λ h. (ground arith, owner_topic-some log.topics a (ground arith)), λ w. ground arith)

    -- Handling a log that names an owner counts it and sends one event, for this owner and the
    -- WETH9 contract, with the log's block; handling any other log changes nothing.
    pub on_weth9_log_cases :
        (log : Log) (o : Outbox)
        → (((a : ℕ) → ¬ IsWrapEvent log a)
            × (on_weth9_log from_word weth9_address deposit withdrawal log o ≡ o))
          ⊎ ((a : ℕ) × IsWrapEvent log a
              × (on_weth9_log from_word weth9_address deposit withdrawal log o ≡ record o {
                sent =
                    o.sent
                    ++ record { owner = a; token = weth9_address; block = log.block_number } ∷ [];
                weth9_events_received_total = o.weth9_events_received_total + 1;
              }))
    unfolding on_weth9_log
    on_weth9_log_cases log o = elim (Option-cases (owner_of log)) [
      | inl e ↦ inl (λ a w. cc (e, (weth9_owner_iff log a).1 w), rw (e, on_weth9_log))
      | inr (a, e) ↦
          let w = (weth9_owner_iff log a).0 e in inr (a, w, rw (e, on_weth9_log) (rw w.0))
    ]
