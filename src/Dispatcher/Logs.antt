-- ===== src/Dispatcher/Logs.antt =====
-- `on_erc20_log`, `on_weth9_log` and `weth9_owner` of src/services/event_dispatcher.rs. The decoding
-- of a topic as an address and the topics of the two WETH9 events come from alloy: parameters.
pub mod Events
use balances_watcher.Base.{
  ℕ, ◌+◌, Bool, not, ◌&&◌, List, [], ◌∷◌, ◌++◌, Option, none, some, if◌then◌else◌, ◌==◌, nat_eq,
}

pub record Log : Type 0 where
  pub address : ℕ
  pub topics : List ℕ
  pub block_number : Option ℕ

pub record Erc20TransferEvent : Type 0 where
  pub owner : ℕ
  pub token : ℕ
  pub block : Option ℕ

-- The events handed to the transfer channel, in order, and the two counters of received logs. A
-- `send` that fails is ignored by the code.
pub record Outbox : Type 0 where
  pub sent : List Erc20TransferEvent
  pub erc20_event_received_total : ℕ
  pub weth9_events_received_total : ℕ

unfoldable pub send : Erc20TransferEvent → Outbox → Outbox
send e o = record o { sent = o.sent ++ e ∷ [] }

-- The second and third of exactly three topics.
unfoldable pub transfer_topics : List ℕ → Option (ℕ × ℕ)
transfer_topics (topic0 ∷ topic1 ∷ topic2 ∷ []) = some (topic1, topic2)
transfer_topics _ = none

module _ (from_word : ℕ → ℕ) where
  -- `for owner in [from, to]`.
  unfoldable pub send_each : ℕ → Option ℕ → List ℕ → Outbox → Outbox
  unfolding send
  send_each token block [] o = o
  send_each token block (owner ∷ owners) o =
      send_each token block owners (send (record { owner = owner; token = token; block = block }) o)

  -- A `Transfer` of an ERC-20 has three topics; anything else is skipped.
  unfoldable pub on_erc20_log : Log → Outbox → Outbox
  unfolding send_each transfer_topics
  on_erc20_log log o = elim (transfer_topics log.topics) [
    | none ↦ o
    | some (from, to) ↦
        send_each log.address log.block_number (from_word from ∷ from_word to ∷ [])
          (record o { erc20_event_received_total = o.erc20_event_received_total + 1 })
  ]

  -- `handle_log` of each log that a fetch hands over.
  unfoldable pub on_erc20_logs : List Log → Outbox → Outbox
  unfolding on_erc20_log
  on_erc20_logs [] o = o
  on_erc20_logs (log ∷ logs) o = on_erc20_logs logs (on_erc20_log log o)

  module _ (weth9_address deposit withdrawal : ℕ) where
    -- The tests of `weth9_owner` on the topics: two at least, the first a known event.
    unfoldable pub owner_topic : List ℕ → Option ℕ
    owner_topic (topic0 ∷ topic1 ∷ topics) =
        if not (topic0 == deposit) && not (topic0 == withdrawal)
        then none
        else some (from_word topic1)
    owner_topic _ = none

    unfoldable pub weth9_owner : Log → Option ℕ
    unfolding owner_topic
    weth9_owner log = if not (log.address == weth9_address) then none else owner_topic log.topics

    unfoldable pub on_weth9_log : Log → Outbox → Outbox
    unfolding send
    on_weth9_log log o = elim (weth9_owner log) [
      | none ↦ o
      | some owner ↦
          send (record { owner = owner; token = log.address; block = log.block_number })
            (record o { weth9_events_received_total = o.weth9_events_received_total + 1 })
    ]
