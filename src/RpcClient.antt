-- ===== src/RpcClient.antt =====
-- src/services/rpc_client.rs. The node's answers are parameters: an attempt is numbered, since two
-- attempts of one call may be answered in different ways. A filter, the tokens of a multicall and the
-- block it is pinned to are what the code hands to alloy's builders. A semaphore permit delays a call
-- and is not modelled. A log is of any type.
pub mod Errors
pub mod Retries
pub mod Loop
pub mod Balances
pub mod Snapshot
mod Examples
use balances_watcher.Base.{
  ℕ, zero, suc, ◌+◌, Bool, List, [], ◌∷◌, Option, none, some, String, Result, ok, err, length,
  nat_eq,
}
use balances_watcher.Base.Map.{insert}
use balances_watcher.Base.Sort.{sort, chunks}
use balances_watcher.RefreshQueue.{BlockId}
use balances_watcher.Subscription.{BalancesWithBlock}
use balances_watcher.RpcClient.Errors.{Backon, backoff}

pub data RpcError : Type 0 where
  exhausted : String → RpcError

abbrev pub multicall_chunk_size : ℕ
multicall_chunk_size = 500

-- The metrics that the client increments.
pub record Counters : Type 0 where
  pub eth_get_logs_failed_total : ℕ
  pub multicall_total : ℕ
  pub multicall_event_triggered_total : ℕ
  pub multicall_periodic_total : ℕ
  pub multicall_failed_total : ℕ
  pub multicall_subcall_failed_total : ℕ
  pub provider_exhausted_with_retries_total : ℕ

pub record Filter : Type 0 where
  pub from_block : ℕ
  pub to_block : ℕ
  pub address : Option ℕ
  pub event_signature : List ℕ

-- `eth_blockNumber`; `none` is an answer that does not come within `HEADER_TIMEOUT`.
unfoldable pub latest_block_number :
    {TransportError : Type 0}
    → (TransportError → String)
    → Option (Result TransportError ℕ)
    → Result RpcError ℕ
latest_block_number to_string (some (ok block)) = ok block
latest_block_number to_string (some (err e)) = err (exhausted (to_string e))
latest_block_number to_string none = err (exhausted "eth_blockNumber timed out after 3s")

unfoldable pub exhausted_from : {A E : Type 0} → (E → String) → Result E A → Result RpcError A
exhausted_from to_string (ok a) = ok a
exhausted_from to_string (err e) = err (exhausted (to_string e))

module _ {TransportError Log : Type 0} (backon : Backon) (retryable : TransportError → Bool)
    (to_string : TransportError → String)
    (get_logs : Filter → ℕ → Result TransportError (List Log)) where
  -- `retryable` is `is_get_logs_retryable`.
  unfoldable pub get_logs_with_retries : Filter → Counters → Result RpcError (List Log) × Counters
  unfolding backoff exhausted_from
  get_logs_with_retries filter m =
      let (answer, failed) = backon.retry backoff (get_logs filter) retryable in
      (
        exhausted_from to_string answer,
        record m { eth_get_logs_failed_total = m.eth_get_logs_failed_total + length failed },
      )

  unfoldable pub fetch_transfer_logs_in_range :
      ℕ → ℕ → ℕ → Counters → Result RpcError (List Log) × Counters
  unfolding get_logs_with_retries
  fetch_transfer_logs_in_range transfer_signature from to m =
      get_logs_with_retries
        (record {
          from_block = from;
          to_block = to;
          address = none;
          event_signature = transfer_signature ∷ [];
        })
        m

  unfoldable pub fetch_weth9_logs_in_range :
      ℕ → ℕ → ℕ → ℕ → ℕ → Counters → Result RpcError (List Log) × Counters
  unfolding get_logs_with_retries
  fetch_weth9_logs_in_range deposit_signature withdrawal_signature weth9_address from to m =
      get_logs_with_retries
        (record {
          from_block = from;
          to_block = to;
          address = some weth9_address;
          event_signature = deposit_signature ∷ withdrawal_signature ∷ [];
        })
        m

module _ {Failure : Type 0} where
  -- The loop over the tokens, against the answers that are left.
  unfoldable pub insert_answers :
      List ℕ → List (Result Failure ℕ) → List (ℕ × ℕ) × Counters → List (ℕ × ℕ) × Counters
  insert_answers [] results (balances, m) = (balances, m)
  insert_answers (token ∷ tokens) [] (balances, m) =
      insert_answers tokens [] (
        balances,
        record m { multicall_subcall_failed_total = m.multicall_subcall_failed_total + 1 },
      )
  insert_answers (token ∷ tokens) (ok balance ∷ results) (balances, m) =
      insert_answers tokens results (insert token balance balances, m)
  insert_answers (token ∷ tokens) (err failure ∷ results) (balances, m) =
      insert_answers tokens results (
        balances,
        record m { multicall_subcall_failed_total = m.multicall_subcall_failed_total + 1 },
      )

  unfoldable pub map_balance_result :
      List ℕ → List (Result Failure ℕ) → Counters → List (ℕ × ℕ) × Counters
  unfolding insert_answers
  map_balance_result tokens results m = insert_answers tokens results ([], m)

-- `(block_number, block_hash, results)`.
abbrev pub Aggregate : Type 0 → Type 0
Aggregate Failure = ℕ × ℕ × List (Result Failure ℕ)

-- The `map` on the answer of an attempt drops the hash.
unfoldable pub without_hash :
    {E Failure : Type 0} → Result E (Aggregate Failure) → Result E (ℕ × List (Result Failure ℕ))
without_hash (ok (block_number, block_hash, results)) = ok (block_number, results)
without_hash (err e) = err e

module _ {MulticallError Failure : Type 0} (backon : Backon) (retryable : MulticallError → Bool)
    (to_string : MulticallError → String)
    (multicall : ℕ → List ℕ → BlockId → ℕ → Result MulticallError (Aggregate Failure)) where
  -- `retryable` is `is_multicall_retryable`, and `multicall` answers the one that
  -- `build_balance_of_multicall` builds.
  unfoldable pub try_block_and_aggregate_with_retries :
      ℕ → List ℕ → BlockId → Counters → Result RpcError (ℕ × List (Result Failure ℕ)) × Counters
  unfolding backoff exhausted_from without_hash
  try_block_and_aggregate_with_retries owner tokens block_id m =
      let (answer, failed) =
        backon.retry backoff (λ i. without_hash (multicall owner tokens block_id i)) retryable in
      (
        exhausted_from to_string answer,
        record m { multicall_failed_total = m.multicall_failed_total + length failed },
      )

  -- What follows the multicall, behind the counter of the caller.
  unfoldable pub finish_multicall :
      (Counters → Counters)
      → List ℕ
      → Result RpcError (ℕ × List (Result Failure ℕ)) × Counters
      → Result RpcError BalancesWithBlock × Counters
  unfolding map_balance_result
  finish_multicall count tokens (ok (block_number, results), m) =
      let (balances, m') =
        map_balance_result tokens results
          (count (record m { multicall_total = m.multicall_total + 1 })) in
      (ok (balances, block_number), m')
  finish_multicall count tokens (err e, m) = (
    err e,
    record m {
      provider_exhausted_with_retries_total = m.provider_exhausted_with_retries_total + 1;
    },
  )

  unfoldable pub fetch_balances_via_multicall :
      ℕ → List ℕ → BlockId → Counters → Result RpcError BalancesWithBlock × Counters
  unfolding sort try_block_and_aggregate_with_retries finish_multicall
  fetch_balances_via_multicall owner tokens block_id m =
      let erc20_tokens = sort tokens in
      finish_multicall
        (λ c. record c { multicall_event_triggered_total = c.multicall_event_triggered_total + 1 })
        erc20_tokens (try_block_and_aggregate_with_retries owner erc20_tokens block_id m)

  unfoldable pub fetch_chunk :
      ℕ → BlockId → List ℕ → Counters → Result RpcError BalancesWithBlock × Counters
  unfolding try_block_and_aggregate_with_retries finish_multicall
  fetch_chunk owner block_id chunk m =
      finish_multicall (λ c. record c { multicall_periodic_total = c.multicall_periodic_total + 1 })
        chunk (try_block_and_aggregate_with_retries owner chunk block_id m)

  -- `stream::iter(chunks).then(…)`: the chunks one after the other.
  unfoldable pub fetch_each :
      ℕ → BlockId → List (List ℕ) → Counters → List (Result RpcError BalancesWithBlock) × Counters
  unfolding fetch_chunk
  fetch_each owner block_id [] m = ([], m)
  fetch_each owner block_id (chunk ∷ rest) m =
      let (item, m') = fetch_chunk owner block_id chunk m in
      let (items, m'') = fetch_each owner block_id rest m' in (item ∷ items, m'')

  unfoldable pub fetch_balances_by_chunks :
      ℕ → List ℕ → BlockId → Counters → List (Result RpcError BalancesWithBlock) × Counters
  unfolding sort chunks fetch_each
  fetch_balances_by_chunks owner tokens block_id m =
      fetch_each owner block_id (chunks multicall_chunk_size (sort tokens)) m
