-- ===== src/RefreshQueue/Examples.antt =====
-- The theorems on refresh batches, applied to a batch with two requests for one token.
use mathlib.Core.Quot
use balances_watcher.Base.{◌≡◌, Memᴰ, nat_eq, List, [], ◌∷◌, some, map}
use balances_watcher.RefreshQueue.{FetchRequest, coalesce_by_token, resolve_block_id}
use balances_watcher.RefreshQueue.Orderless.{HashMap, coalesce_by_token-SameMembers}
use balances_watcher.RefreshQueue.Block.{Reads, resolve_block_id-coalesce_by_token}

abbrev requests : List FetchRequest
requests = (1, some 7) ∷ (2, some 3) ∷ (1, some 5) ∷ []

-- The same requests in another order, one of them twice.
abbrev again : List FetchRequest
again = (1, some 5) ∷ (1, some 7) ∷ (2, some 3) ∷ (1, some 7) ∷ []

there : (r : FetchRequest) → Memᴰ r requests → Memᴰ r again
there r (Memᴰ.head e) = Memᴰ.tail (Memᴰ.head e)
there r (Memᴰ.tail (Memᴰ.head e)) = Memᴰ.tail (Memᴰ.tail (Memᴰ.head e))
there r (Memᴰ.tail (Memᴰ.tail (Memᴰ.head e))) = Memᴰ.head e
there r (Memᴰ.tail (Memᴰ.tail (Memᴰ.tail m))) = elim m [ ]

back : (r : FetchRequest) → Memᴰ r again → Memᴰ r requests
back r (Memᴰ.head e) = Memᴰ.tail (Memᴰ.tail (Memᴰ.head e))
back r (Memᴰ.tail (Memᴰ.head e)) = Memᴰ.head e
back r (Memᴰ.tail (Memᴰ.tail (Memᴰ.head e))) = Memᴰ.tail (Memᴰ.head e)
back r (Memᴰ.tail (Memᴰ.tail (Memᴰ.tail (Memᴰ.head e)))) = Memᴰ.head e
back r (Memᴰ.tail (Memᴰ.tail (Memᴰ.tail (Memᴰ.tail m)))) = elim m [ ]

coalesce_by_token-SameMembers_example :
    (◌≡◌ {A = HashMap} (Quot.mk (coalesce_by_token requests)) (Quot.mk (coalesce_by_token again)))
    × (resolve_block_id (coalesce_by_token requests) ≡ resolve_block_id (coalesce_by_token again))
coalesce_by_token-SameMembers_example =
    coalesce_by_token-SameMembers requests again (λ r. (there r, back r))

resolve_block_id-coalesce_by_token_example :
    Reads (map (λ r. r.1) requests) (resolve_block_id (coalesce_by_token requests))
resolve_block_id-coalesce_by_token_example = resolve_block_id-coalesce_by_token requests
