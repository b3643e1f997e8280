-- ===== src/RpcClient/Examples.antt =====
-- The theorems on the RPC client, applied to a retry loop without delays and a node that answers its
-- second attempt.
use balances_watcher.Base.{
  ℕ, zero, suc, ◌+◌, ◌≤◌, ◌<◌, ◌≡◌, refl, ◌⊎◌, inl, inr, Bool, true, false, List, [], ◌∷◌, map,
  Option, none, some, String, Result, ok, err, length, arith, All, Memᴰ, nat_eq, if◌then◌else◌,
}
use balances_watcher.Base.Map.{lookup}
use balances_watcher.Base.Text.{string_eq}
use balances_watcher.RefreshQueue.{BlockId, latest}
use balances_watcher.Subscription.{BalancesWithBlock}
use balances_watcher.RpcClient.Errors.{is_get_logs_retryable, is_message_retryable}
use balances_watcher.RpcClient.Loop.{without_delay}
use balances_watcher.RpcClient.Retries.{Stops, get_logs_with_retries_lem}
use balances_watcher.RpcClient.Balances.{get, answered, IsDistinct, map_balance_result_lem}
use balances_watcher.RpcClient.Snapshot.{Responds, fetch_balances_by_chunks_complete}
use balances_watcher.RpcClient.{
  Counters, Filter, Aggregate, exhausted_from, map_balance_result, multicall_chunk_size,
  get_logs_with_retries, fetch_balances_by_chunks,
}

rate_limit_is_retried : is_message_retryable "rate limit exceeded" ≡ true
unfolding is_message_retryable
rate_limit_is_retried = refl

query_cap_is_permanent :
    is_message_retryable "query exceeds max results 20000, retry with the range 100-150" ≡ false
unfolding is_message_retryable
query_cap_is_permanent = refl

abbrev error_message : String → Option String
error_message e = some e

abbrev same_text : String → String
same_text s = s

abbrev retryable : String → Bool
retryable e = is_get_logs_retryable error_message same_text same_text e

abbrev get_logs : Filter → ℕ → Result String (List ℕ)
get_logs filter zero = err "block not found"
get_logs filter (suc i) = ok (31 ∷ [])

abbrev no_errors : Counters
no_errors = record {
  eth_get_logs_failed_total = 0;
  multicall_total = 0;
  multicall_event_triggered_total = 0;
  multicall_periodic_total = 0;
  multicall_failed_total = 0;
  multicall_subcall_failed_total = 0;
  provider_exhausted_with_retries_total = 0;
}

abbrev one_block : Filter
one_block = record { from_block = 20; to_block = 20; address = none; event_signature = 5 ∷ [] }

get_logs_with_retries_lem_example :
    (i : ℕ) × Stops retryable 3 (get_logs one_block) i
    × ((get_logs_with_retries without_delay retryable same_text get_logs one_block no_errors).0
        ≡ exhausted_from same_text (get_logs one_block i))
    × ((get_logs_with_retries without_delay retryable same_text get_logs one_block
          no_errors).1.eth_get_logs_failed_total
        ≡ no_errors.eth_get_logs_failed_total + i)
get_logs_with_retries_lem_example =
    get_logs_with_retries_lem without_delay retryable same_text get_logs one_block no_errors

abbrev tokens : List ℕ
tokens = 3 ∷ 9 ∷ 4 ∷ []

abbrev results : List (Result ℕ ℕ)
results = ok 70 ∷ err 0 ∷ []

tokens-IsDistinct : IsDistinct tokens
unfolding balances_watcher.Base.Set.contains
tokens-IsDistinct = (refl, (refl, (refl, tt)))

map_balance_result_lem_example :
    ((i token : ℕ)
      → get i tokens ≡ some token
      → lookup token (map_balance_result tokens results no_errors).0 ≡ answered (get i results))
    × (length (map_balance_result tokens results no_errors).0
          + (map_balance_result tokens results no_errors).1.multicall_subcall_failed_total
        ≡ length tokens + no_errors.multicall_subcall_failed_total)
map_balance_result_lem_example = map_balance_result_lem tokens results no_errors tokens-IsDistinct

abbrev answer : ℕ → Result ℕ ℕ
answer token = if nat_eq.beq token 9 then err 0 else ok (token + 100)

abbrev multicall : ℕ → List ℕ → BlockId → ℕ → Result String (Aggregate ℕ)
multicall owner chunk block_id zero = err "connection reset"
multicall owner chunk block_id (suc i) = ok (20, 5, map answer chunk)

abbrev always : String → Bool
always e = true

abbrev asked_token : ℕ
asked_token = 4

abbrev its_balance : ℕ
its_balance = 104

first : (j : ℕ) → j < 1 → j ≡ 0
first j before = omega arith

responds :
    (chunk : List ℕ)
    → 1 ≤ length chunk
    → length chunk ≤ multicall_chunk_size
    → Responds without_delay always same_text multicall answer 7 latest chunk
responds chunk low high =
    (1, 20, 5, omega arith, λ j before. ("connection reset", rw (first j before) refl, refl), refl)

fetch_balances_by_chunks_complete_example :
    (item : BalancesWithBlock) × Memᴰ
      (ok item)
      (fetch_balances_by_chunks without_delay always same_text multicall 7 tokens latest
        no_errors).0
    × (lookup asked_token item.0 ≡ some its_balance)
fetch_balances_by_chunks_complete_example =
    fetch_balances_by_chunks_complete without_delay always same_text multicall answer 7 latest
      tokens no_errors asked_token its_balance responds (Memᴰ.tail (Memᴰ.tail (Memᴰ.head refl)))
      refl
