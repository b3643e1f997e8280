-- ===== src/RefreshQueue/Worker.antt =====
-- What becomes of a request that a worker has taken: a multicall that answers it.
use balances_watcher.Base.{
  mem_split, ℕ, ◌+◌, ◌≤◌, ◌≡◌, refl, sym, ap, Bool, true, List, [], ◌∷◌, Option, none, some, map,
  nat_beq, nat_eq, arith, Option-cases, Bool-cases, All, Memᴰ, inl, inr, Result,
}
use mathlib.Core.Path.{subst}
use balances_watcher.Base.Sort.{concat}
use balances_watcher.Base.Map.{lookup}
use balances_watcher.RefreshQueue.{
  FetchRequest, LatestBlockByToken, BlockId, number, latest, coalesce_by_token, resolve_block_id,
  refresh, process_batch, work_from, work,
}
use balances_watcher.RefreshQueue.Coalesce.{
  AtMost, Summarises, blocks_of, coalesce_by_token-Summarises,
}
use balances_watcher.RefreshQueue.Block.{Reads, resolve_block_id-coalesce_by_token}

-- A multicall is not older than a request: at the latest block, or at the request's block or behind.
abbrev pub IsCurrent : Option ℕ → BlockId → Type 0
IsCurrent block latest = Unit {0}
IsCurrent none (number n) = ⊥
IsCurrent (some b) (number n) = b ≤ n

mem-lookup :
    (token : ℕ) (block : Option ℕ) (acc : LatestBlockByToken)
    → lookup token acc ≡ some block
    → Memᴰ token (map (λ e. e.0) acc)
unfolding lookup
mem-lookup token block [] found = ground arith
mem-lookup token block ((t, b) ∷ acc) found = elim (Bool-cases (nat_beq t token)) [
  | inl here ↦ Memᴰ.head (ground arith)
  | inr other ↦ Memᴰ.tail (mem-lookup token block acc (ground arith))
]

blocks_of-mem :
    (token : ℕ) (block : Option ℕ) (batch : List FetchRequest)
    → Memᴰ (token, block) batch
    → Memᴰ block (blocks_of token batch)
blocks_of-mem token block [] asked = elim asked [ ]
blocks_of-mem token block ((t, b) ∷ batch) (Memᴰ.head e) =
    let same : nat_beq t token ≡ true = ground (arith, ap (λ r. r.0) e) in
    rw same (Memᴰ.head (ap (λ r. r.1) e))
blocks_of-mem token block ((t, b) ∷ batch) (Memᴰ.tail m) = elim (Bool-cases (nat_beq t token)) [
  | inl here ↦ rw here (Memᴰ.tail (blocks_of-mem token block batch m))
  | inr other ↦ rw other (blocks_of-mem token block batch m)
]

not_mem : {x : Option ℕ} {xs : List (Option ℕ)} → xs ≡ [] → Memᴰ x xs → ⊥
not_mem e m = elim (subst (Memᴰ _) e m) [ ]

mem-coalesce_by_token :
    (token : ℕ) (block : Option ℕ) (batch : List FetchRequest)
    → Memᴰ (token, block) batch
    → Memᴰ token (map (λ e. e.0) (coalesce_by_token batch))
mem-coalesce_by_token token block batch asked =
    elim (Option-cases (lookup token (coalesce_by_token batch))) [
      | inl e ↦ absurd (
          not_mem
            (subst (Summarises (blocks_of token batch)) e
              (coalesce_by_token-Summarises token batch))
            (blocks_of-mem token block batch asked))
      | inr (saved, e) ↦ mem-lookup token saved _ e
    ]

AtMost-mem : (n b : ℕ) (xs : List (Option ℕ)) → All (AtMost n) xs → Memᴰ (some b) xs → b ≤ n
AtMost-mem n b [] h m = elim m [ ]
AtMost-mem n b (x ∷ xs) h (Memᴰ.head e) = subst (AtMost n) (sym e) h.0
AtMost-mem n b (x ∷ xs) h (Memᴰ.tail m) = AtMost-mem n b xs h.1 m

AtMost-none : (n : ℕ) (xs : List (Option ℕ)) → All (AtMost n) xs → Memᴰ none xs → ⊥
AtMost-none n [] h m = elim m [ ]
AtMost-none n (x ∷ xs) h (Memᴰ.head e) = subst (AtMost n) (sym e) h.0
AtMost-none n (x ∷ xs) h (Memᴰ.tail m) = AtMost-none n xs h.1 m

IsCurrent-Reads :
    (block : Option ℕ) (blocks : List (Option ℕ)) (id : BlockId)
    → Memᴰ block blocks
    → Reads blocks id
    → IsCurrent block id
IsCurrent-Reads block blocks latest m h = tt
IsCurrent-Reads none blocks (number n) m h = AtMost-none n blocks h.2 m
IsCurrent-Reads (some b) blocks (number n) m h = AtMost-mem n b blocks h.2 m

mem-blocks :
    (token : ℕ) (block : Option ℕ) (batch : List FetchRequest)
    → Memᴰ (token, block) batch
    → Memᴰ block (map (λ r. r.1) batch)
mem-blocks token block [] m = elim m [ ]
mem-blocks token block (r ∷ batch) (Memᴰ.head e) = Memᴰ.head (ap (λ q. q.1) e)
mem-blocks token block (r ∷ batch) (Memᴰ.tail m) = Memᴰ.tail (mem-blocks token block batch m)

-- A multicall that reads the token of a request, and is not older than it.
pub record Call (request : FetchRequest) : Type 0 where
  pub round : ℕ
  pub tokens : List ℕ
  pub block_id : BlockId
  pub reads : Memᴰ request.0 tokens
  pub current : IsCurrent request.1 block_id

module _ {ℓ κ} {Balances : Type ℓ} {RpcError : Type κ}
    (fetch_balances_via_multicall : ℕ → ℕ → List ℕ → BlockId → Result RpcError Balances)
    (is_received : ℕ → Bool) where
  -- Some answers have the one to such a multicall.
  abbrev pub IsServed : ℕ → FetchRequest → List (Result RpcError Balances) → Type (ℓ ⊔ κ)
  IsServed owner request answers =
      (c : Call request) × Memᴰ (fetch_balances_via_multicall c.round owner c.tokens c.block_id)
        answers

  work_from-IsServed :
      ((i : ℕ) → is_received i ≡ true)
      → (round owner : ℕ) (batches : List (List FetchRequest)) (request : FetchRequest)
      → Memᴰ request (concat batches)
      → IsServed owner request
          (work_from fetch_balances_via_multicall is_received round owner batches)
  unfolding work_from refresh process_batch
  work_from-IsServed heard round owner [] request asked = elim asked [ ]
  work_from-IsServed heard round owner (batch ∷ batches) request asked =
      rw (heard round) (elim (mem_split batch (concat batches) asked) [
        | inl now ↦ (call now, Memᴰ.head refl)
        | inr later ↦
            let (c, m) = work_from-IsServed heard (round + 1) owner batches request later in
            (c, Memᴰ.tail m)
      ])
    where
      call : Memᴰ request batch → Call request
      call now = record {
        round = round;
        tokens = map (λ e. e.0) (coalesce_by_token batch);
        block_id = resolve_block_id (coalesce_by_token batch);
        reads = mem-coalesce_by_token request.0 request.1 batch now;
        current =
            IsCurrent-Reads request.1 (map (λ r. r.1) batch) _
              (mem-blocks request.0 request.1 batch now) (resolve_block_id-coalesce_by_token batch);
      }

  -- While the consumer of its answers is there, the worker answers every request that it takes, in
  -- whatever batches: one of its multicalls reads the token, at the latest block or at one that is not
  -- older than the request's.
  pub work-IsServed :
      ((i : ℕ) → is_received i ≡ true)
      → (owner : ℕ) (batches : List (List FetchRequest)) (request : FetchRequest)
      → Memᴰ request (concat batches)
      → IsServed owner request (work fetch_balances_via_multicall is_received owner batches)
  unfolding work
  work-IsServed heard owner batches request asked =
      work_from-IsServed heard 0 owner batches request asked
