-- ===== src/RefreshQueue.antt =====
-- src/services/balance_refresh_queue.rs: what the worker does with one batch of requests. The
-- batches come from `chunks_timeout`, and the multicall goes to the RPC client: parameters.
pub mod Coalesce
pub mod Block
pub mod Worker
pub mod Orderless
mod Examples
use balances_watcher.Base.{
  ℕ, max, ◌+◌, ◌≡◌, Bool, List, [], ◌∷◌, ◌++◌, map, Option, none, some, ltb, if◌then◌else◌, nat_eq,
  Result,
}
use balances_watcher.Base.Map.{lookup, insert}

-- A token, and the block of the event that made its balance stale.
abbrev pub FetchRequest : Type 0
FetchRequest = ℕ × Option ℕ

abbrev pub LatestBlockByToken : Type 0
LatestBlockByToken = List (ℕ × Option ℕ)

-- `BlockId`: a number, or the latest block.
pub data BlockId : Type 0 where
  number : ℕ → BlockId
  latest : BlockId

-- The `match` of `and_modify`.
unfoldable pub merge_block : Option ℕ → Option ℕ → Option ℕ
merge_block none current = none
merge_block (some saved) none = none
merge_block (some saved) (some current) = some (max saved current)

-- `entry(token).and_modify(…).or_insert(current_block)`.
unfoldable pub coalesce_entry : FetchRequest → LatestBlockByToken → LatestBlockByToken
unfolding merge_block
coalesce_entry (token, current) acc = elim (lookup token acc) [
  | none ↦ insert token current acc
  | some saved ↦ insert token (merge_block saved current) acc
]

unfoldable pub coalesce_from : LatestBlockByToken → List FetchRequest → LatestBlockByToken
unfolding coalesce_entry
coalesce_from acc [] = acc
coalesce_from acc (r ∷ batch) = coalesce_from (coalesce_entry r acc) batch

unfoldable pub coalesce_by_token : List FetchRequest → LatestBlockByToken
unfolding coalesce_from
coalesce_by_token batch = coalesce_from [] batch

-- `try_fold` over the values.
unfoldable pub max_block : ℕ → LatestBlockByToken → Option ℕ
max_block max_so_far [] = some max_so_far
max_block max_so_far ((token, none) ∷ batch) = none
max_block max_so_far ((token, some block) ∷ batch) = max_block (max max_so_far block) batch

-- The `match` on the highest block.
unfoldable pub block_id_of : Option ℕ → BlockId
block_id_of none = latest
block_id_of (some n) = if ltb 0 n then number n else latest

unfoldable pub resolve_block_id : LatestBlockByToken → BlockId
unfolding max_block block_id_of
resolve_block_id batch = block_id_of (max_block 0 batch)

module _ {ℓ κ} {Balances : Type ℓ} {RpcError : Type κ}
    (fetch_balances_via_multicall : ℕ → List ℕ → BlockId → Result RpcError Balances) where
  unfoldable pub process_batch : ℕ → LatestBlockByToken → Result RpcError Balances
  unfolding resolve_block_id
  process_batch owner batch =
      fetch_balances_via_multicall owner (map (λ e. e.0) batch) (resolve_block_id batch)

  -- The body of the worker's loop.
  unfoldable pub refresh : ℕ → List FetchRequest → Result RpcError Balances
  unfolding process_batch coalesce_by_token
  refresh owner batch = process_batch owner (coalesce_by_token batch)

-- The requests that a channel has accepted so far; `is_gone` tells that its worker has dropped the
-- receiver. A request that waits for room in the channel is accepted when the wait is over.
unfoldable pub enqueue : Bool → ℕ → Option ℕ → List FetchRequest → List FetchRequest
enqueue is_gone token block accepted = if is_gone then accepted else accepted ++ (token, block) ∷ []

-- The worker's loop over the batches that `chunks_timeout` makes of its requests. The node is asked
-- again for each batch, and `is_received` tells of each answer whether its consumer was there.
module _ {ℓ κ} {Balances : Type ℓ} {RpcError : Type κ}
    (fetch_balances_via_multicall : ℕ → ℕ → List ℕ → BlockId → Result RpcError Balances)
    (is_received : ℕ → Bool) where
  unfoldable pub work_from : ℕ → ℕ → List (List FetchRequest) → List (Result RpcError Balances)
  unfolding refresh
  work_from round owner [] = []
  work_from round owner (batch ∷ batches) =
      let later = work_from (round + 1) owner batches in
      if is_received round
      then refresh (fetch_balances_via_multicall round) owner batch ∷ later
      else []

  unfoldable pub work : ℕ → List (List FetchRequest) → List (Result RpcError Balances)
  unfolding work_from
  work owner batches = work_from 0 owner batches
