-- ===== src/RpcClient/Snapshot.antt =====
-- A snapshot that is read in chunks has every balance.
use balances_watcher.Base.{
  ℕ, ◌+◌, ◌≤◌, ◌<◌, ◌≡◌, refl, sym, ap, ◌∙◌, ◌⊎◌, inl, inr, Bool, true, false, List, [], ◌∷◌, ◌++◌,
  map, some, String, Result, ok, err, Result-cases, Bool-cases, length, arith, All, Memᴰ, nat_beq,
  nat_eq,
}
use mathlib.Core.List.{Permᴰ}
use mathlib.Core.List.Permᴰ
use balances_watcher.Base.Map.{lookup, insert, lookup-insert, lookup-insert_self}
use balances_watcher.Base.Sort.{
  sort, chunks, concat, perm_mem, sort-perm, concat-chunks, chunks-sizes,
}
use balances_watcher.RefreshQueue.{BlockId}
use balances_watcher.Subscription.{BalancesWithBlock}
use balances_watcher.RpcClient.Errors.{Backon, backoff}
use balances_watcher.RpcClient.Retries.{by_answer, Stops-unique, retry_lem}
use balances_watcher.RpcClient.{
  RpcError, Counters, Aggregate, exhausted_from, insert_answers, map_balance_result,
  multicall_chunk_size, try_block_and_aggregate_with_retries, fetch_chunk, fetch_each,
  fetch_balances_by_chunks, without_hash, finish_multicall,
}

-- The chunks are of 1 to 500 tokens, and are together the tokens in another order.
pub chunks-partition :
    (tokens : List ℕ)
    → All
        (λ chunk. (1 ≤ length chunk) × (length chunk ≤ multicall_chunk_size))
        (chunks multicall_chunk_size (sort tokens))
      × Permᴰ (concat (chunks multicall_chunk_size (sort tokens))) tokens
chunks-partition tokens =
    (chunks-sizes 499 (sort tokens), rw (concat-chunks 499 (sort tokens)) (sort-perm tokens))

module _ {ℓ} {A : Type ℓ} where
  mem_append : (a : A) (xs ys : List A) → Memᴰ a (xs ++ ys) → Memᴰ a xs ⊎ Memᴰ a ys
  mem_append a [] ys m = inr m
  mem_append a (x ∷ xs) ys (Memᴰ.head here) = inl (Memᴰ.head here)
  mem_append a (x ∷ xs) ys (Memᴰ.tail m) = elim (mem_append a xs ys m) [
    | inl left ↦ inl (Memᴰ.tail left)
    | inr right ↦ inr right
  ]

module _ {Failure : Type 0} (answer : ℕ → Result Failure ℕ) where
  insert_answers-keeps :
      (token balance : ℕ) (tokens : List ℕ) (balances : List (ℕ × ℕ)) (m : Counters)
      → answer token ≡ ok balance
      → lookup token balances ≡ some balance
      → lookup token (insert_answers tokens (map answer tokens) (balances, m)).0 ≡ some balance
  unfolding insert_answers
  insert_answers-keeps token balance [] balances m said stored = stored
  insert_answers-keeps token balance (t ∷ tokens) balances m said stored =
      elim (Result-cases (answer t)) [
        | inl (f, failed) ↦
            rw (failed, insert_answers)
              (insert_answers-keeps token balance tokens balances _ said stored)
        | inr (b, found) ↦
            rw (found, insert_answers)
              (insert_answers-keeps token balance tokens (insert t b balances) m said
                (kept t b found (Bool-cases (nat_beq t token))))
      ]
    where
      kept :
          (t b : ℕ)
          → answer t ≡ ok b
          → (nat_beq t token ≡ true) ⊎ (nat_beq t token ≡ false)
          → lookup token (insert t b balances) ≡ some balance
      kept t b found (inl same) =
          let here : t ≡ token = ground arith in
          let both : answer token ≡ ok b = rw (← here) found in
          let equal : b ≡ balance = cc in
          rw (here, equal) (lookup-insert_self token balance balances)
      kept t b found (inr other) = rw (lookup-insert t token b balances, other) stored

  insert_answers-all :
      (token balance : ℕ) (tokens : List ℕ) (balances : List (ℕ × ℕ)) (m : Counters)
      → answer token ≡ ok balance
      → Memᴰ token tokens
      → lookup token (insert_answers tokens (map answer tokens) (balances, m)).0 ≡ some balance
  unfolding insert_answers
  insert_answers-all token balance [] balances m said asked = elim asked [ ]
  insert_answers-all token balance (t ∷ tokens) balances m said (Memᴰ.head here) =
      let found : answer t ≡ ok balance = rw (← here) said in
      rw (found, insert_answers)
        (insert_answers-keeps token balance tokens (insert t balance balances) m said
          (rw here (lookup-insert_self t balance balances)))
  insert_answers-all token balance (t ∷ tokens) balances m said (Memᴰ.tail asked) =
      elim (Result-cases (answer t)) [
        | inl (f, failed) ↦
            rw (failed, insert_answers)
              (insert_answers-all token balance tokens balances _ said asked)
        | inr (b, found) ↦
            rw (found, insert_answers)
              (insert_answers-all token balance tokens (insert t b balances) m said asked)
      ]

finish_multicall-ok :
    {MulticallError Failure : Type 0} (backon : Backon) (retryable : MulticallError → Bool)
    (to_string : MulticallError → String)
    (multicall : ℕ → List ℕ → BlockId → ℕ → Result MulticallError (Aggregate Failure))
    (count : Counters → Counters) (tokens : List ℕ)
    (r : Result RpcError (ℕ × List (Result Failure ℕ))) (m : Counters) (block : ℕ)
    (results : List (Result Failure ℕ))
    → r ≡ ok (block, results)
    → (counted : Counters) × ((finish_multicall backon retryable to_string multicall count tokens
          (r, m)).0
        ≡ ok ((insert_answers tokens results ([], counted)).0, block))
unfolding finish_multicall map_balance_result
finish_multicall-ok backon retryable to_string multicall count tokens r m block results done =
    (count (record m { multicall_total = m.multicall_total + 1 }), rw (done, finish_multicall) refl)

module _ {MulticallError Failure : Type 0} (backon : Backon) (retryable : MulticallError → Bool)
    (to_string : MulticallError → String)
    (multicall : ℕ → List ℕ → BlockId → ℕ → Result MulticallError (Aggregate Failure))
    (answer : ℕ → Result Failure ℕ) (owner : ℕ) (block_id : BlockId) where
  -- One of the four attempts for a chunk brings the answers of its tokens, and those before it failed
  -- in a way that is retried.
  abbrev pub Responds : List ℕ → Type 0
  Responds chunk =
      (i : ℕ) × (block : ℕ) × (hash : ℕ) × (i ≤ 3)
      × ((j : ℕ)
          → j < i
          → (e : MulticallError) × (multicall owner chunk block_id j ≡ err e)
            × (retryable e ≡ true))
      × (multicall owner chunk block_id i ≡ ok (block, hash, map answer chunk))

  answered_once :
      (chunk : List ℕ) (m : Counters)
      → Responds chunk
      → (block : ℕ) × ((try_block_and_aggregate_with_retries backon retryable to_string multicall
            owner chunk block_id m).0
          ≡ ok (block, map answer chunk))
  unfolding try_block_and_aggregate_with_retries backoff exhausted_from without_hash
  answered_once chunk m (i, block, hash, within, earlier, reached) =
      let attempt : ℕ → Result MulticallError (ℕ × List (Result Failure ℕ)) =
        λ j. without_hash (multicall owner chunk block_id j) in
      let (k, (stops, same, notified)) = retry_lem retryable backon 3 backoff attempt refl in
      let here : attempt i ≡ ok (block, map answer chunk) = rw reached refl in
      let first : k ≡ i = Stops-unique retryable 3 attempt k i stops (
        within,
        λ j before. let (e, failed, retried) = earlier j before in (e, rw failed refl, retried),
        inr (by_answer retryable _ _ here tt),
      ) in
      (block, ap (exhausted_from to_string) (same ∙ (ap attempt first ∙ here)))

  chunk_has :
      (token balance : ℕ) (chunk : List ℕ) (m : Counters)
      → Responds chunk
      → answer token ≡ ok balance
      → Memᴰ token chunk
      → (item : BalancesWithBlock) × ((fetch_chunk backon retryable to_string multicall owner
            block_id chunk m).0
          ≡ ok item)
        × (lookup token item.0 ≡ some balance)
  unfolding fetch_chunk
  chunk_has token balance chunk m responds said asked =
      let (block, done) = answered_once chunk m responds in
      let (counted, item_is) =
        finish_multicall-ok backon retryable to_string multicall
          (λ c. record c { multicall_periodic_total = c.multicall_periodic_total + 1 }) chunk
          (try_block_and_aggregate_with_retries backon retryable to_string multicall owner chunk
            block_id m).0
          (try_block_and_aggregate_with_retries backon retryable to_string multicall owner chunk
            block_id m).1
          block (map answer chunk) done in
      (
        ((insert_answers chunk (map answer chunk) ([], counted)).0, block),
        item_is,
        insert_answers-all answer token balance chunk [] counted said asked,
      )

  each_has :
      (token balance : ℕ) (chunks' : List (List ℕ)) (m : Counters)
      → All (λ chunk. (1 ≤ length chunk) × (length chunk ≤ multicall_chunk_size)) chunks'
      → ((chunk : List ℕ) → 1 ≤ length chunk → length chunk ≤ multicall_chunk_size → Responds chunk)
      → answer token ≡ ok balance
      → Memᴰ token (concat chunks')
      → (item : BalancesWithBlock) × Memᴰ
          (ok item)
          (fetch_each backon retryable to_string multicall owner block_id chunks' m).0
        × (lookup token item.0 ≡ some balance)
  unfolding fetch_each
  each_has token balance [] m sizes responds said asked = elim asked [ ]
  each_has token balance (chunk ∷ rest) m ((low, high), sizes) responds said asked =
      elim (mem_append token chunk (concat rest) asked) [
        | inl here ↦
            let (item, is_item, has) =
              chunk_has token balance chunk m (responds chunk low high) said here in
            (item, Memᴰ.head (sym is_item), has)
        | inr behind ↦
            let (item, listed, has) = each_has token balance rest _ sizes responds said behind in
            (item, Memᴰ.tail listed, has)
      ]

  -- If every multicall of 1 to 500 tokens is answered by one of four attempts, those before it having
  -- failed in a way that is retried, then each asked token whose own call has a balance is in some
  -- item of the stream, with this balance.
  pub fetch_balances_by_chunks_complete :
      (tokens : List ℕ) (m : Counters) (token balance : ℕ)
      → ((chunk : List ℕ) → 1 ≤ length chunk → length chunk ≤ multicall_chunk_size → Responds chunk)
      → Memᴰ token tokens
      → answer token ≡ ok balance
      → (item : BalancesWithBlock) × Memᴰ
          (ok item)
          (fetch_balances_by_chunks backon retryable to_string multicall owner tokens block_id m).0
        × (lookup token item.0 ≡ some balance)
  unfolding fetch_balances_by_chunks
  fetch_balances_by_chunks_complete tokens m token balance responds asked said =
      let (sizes, partition) = chunks-partition tokens in
      each_has token balance (chunks multicall_chunk_size (sort tokens)) m sizes responds said
        (perm_mem (Permᴰ.symm partition) asked)
