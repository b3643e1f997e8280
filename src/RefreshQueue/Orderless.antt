-- ===== src/RefreshQueue/Orderless.antt =====
-- What a batch is read for does not depend on the order of its requests, nor on their repetition. The
-- coalesced map is a `HashMap`, whose order of iteration is not specified: a quotient of the lists.
use balances_watcher.Base.{
  ℕ, ◌<◌, ◌≡◌, refl, sym, ap, true, inl, inr, List, [], ◌∷◌, Option, none, some, ◌↔◌, map, nat_eq,
  nat_beq, nat_beq_iff, arith, All, Memᴰ, Bool-cases,
}
use mathlib.Core.Path.{subst}
use mathlib.Core.Quot
use mathlib.Core.Quot.{Quot, Quot-set}
use balances_watcher.Base.Map.{lookup}
use balances_watcher.RefreshQueue.{
  FetchRequest, LatestBlockByToken, BlockId, number, latest, coalesce_by_token, resolve_block_id,
}
use balances_watcher.RefreshQueue.Coalesce.{
  AtMost, Summarises, blocks_of, coalesce_by_token-Summarises,
}
use balances_watcher.RefreshQueue.Block.{Reads, resolve_block_id-coalesce_by_token}

-- Two lists have the same elements, in any order and any number of times.
abbrev pub SameMembers {ℓ} : {A : Type ℓ} → List A → List A → Type ℓ
SameMembers xs ys = (x : _) → Memᴰ x xs ↔ Memᴰ x ys

-- Two lists are the same map.
abbrev pub SameMap : LatestBlockByToken → LatestBlockByToken → Type 0
SameMap xs ys = (token : ℕ) → lookup token xs ≡ lookup token ys

abbrev pub HashMap : Type 0
HashMap = Quot SameMap

All-at {ℓ κ} : {A : Type ℓ} (P : A → Type κ) (x : A) (xs : List A) → All P xs → Memᴰ x xs → P x
All-at P x [] a m = elim m [ ]
All-at P x (y ∷ xs) a (Memᴰ.head e) = subst P (sym e) a.0
All-at P x (y ∷ xs) a (Memᴰ.tail m) = All-at P x xs a.1 m

no_member {ℓ} : {A : Type ℓ} (x : A) (xs : List A) → Memᴰ x xs → xs ≡ [] → ⊥
no_member x [] m e = elim m [ ]
no_member x (y ∷ xs) m e = cc

Summarises-unique :
    (xs ys : List (Option ℕ)) (o o' : Option (Option ℕ))
    → SameMembers xs ys
    → Summarises xs o
    → Summarises ys o'
    → o ≡ o'
Summarises-unique xs ys none none same s t = refl
Summarises-unique xs ys none (some none) same s t = absurd (no_member none xs ((same none).1 t) s)
Summarises-unique xs ys none (some (some n)) same s t =
    absurd (no_member (some n) xs ((same (some n)).1 t.0) s)
Summarises-unique xs ys (some none) none same s t = absurd (no_member none ys ((same none).0 s) t)
Summarises-unique xs ys (some none) (some none) same s t = refl
Summarises-unique xs ys (some none) (some (some n)) same s t =
    absurd (All-at (AtMost n) none ys t.1 ((same none).0 s))
Summarises-unique xs ys (some (some m)) none same s t =
    absurd (no_member (some m) ys ((same (some m)).0 s.0) t)
Summarises-unique xs ys (some (some m)) (some none) same s t =
    absurd (All-at (AtMost m) none xs s.1 ((same none).1 t))
Summarises-unique xs ys (some (some m)) (some (some n)) same s t =
    let up = All-at (AtMost n) (some m) ys t.1 ((same (some m)).0 s.0) in
    let down = All-at (AtMost m) (some n) xs s.1 ((same (some n)).1 t.0) in
    ap (λ k. some (some k)) (omega (arith, up, down))

-- A batch is not read at the latest block where every request names a block and one is above 0.
apart :
    (xs : List (Option ℕ)) (n : ℕ)
    → Memᴰ (some n) xs
    → 0 < n
    → (Memᴰ none xs → ⊥)
    → Reads xs latest
    → ⊥
apart xs n m positive pinned (inl unpinned) = pinned unpinned
apart xs n m positive pinned (inr zeros) =
    absurd (omega (arith, positive, All-at (AtMost 0) (some n) xs zeros m))

Reads-unique :
    (xs ys : List (Option ℕ)) (b b' : BlockId)
    → SameMembers xs ys
    → Reads xs b
    → Reads ys b'
    → b ≡ b'
Reads-unique xs ys latest latest same r s = refl
Reads-unique xs ys latest (number n) same r s = absurd (
    apart xs n ((same (some n)).1 s.1) s.0 (λ m. All-at (AtMost n) none ys s.2 ((same none).0 m)) r)
Reads-unique xs ys (number m) latest same r s = absurd (
    apart ys m ((same (some m)).0 r.1) r.0 (λ k. All-at (AtMost m) none xs r.2 ((same none).1 k)) s)
Reads-unique xs ys (number m) (number n) same r s =
    let up = All-at (AtMost n) (some m) ys s.2 ((same (some m)).0 r.1) in
    let down = All-at (AtMost m) (some n) xs r.2 ((same (some n)).1 s.1) in
    ap number (omega (arith, up, down))

mem-blocks_of :
    (token : ℕ) (b : Option ℕ) (batch : List FetchRequest)
    → Memᴰ b (blocks_of token batch)
    → Memᴰ (token, b) batch
mem-blocks_of token b [] m = elim m [ ]
mem-blocks_of token b ((t, block) ∷ batch) m = elim (Bool-cases (nat_beq t token)) [
  | inr other ↦ Memᴰ.tail (mem-blocks_of token b batch (rw other at m))
  | inl here ↦ elim (rw here at m) [
    | Memᴰ.head e ↦ Memᴰ.head (λ i. (sym ((nat_beq_iff t token).0 here) i, e i))
    | Memᴰ.tail later ↦ Memᴰ.tail (mem-blocks_of token b batch later)
  ]
]

blocks_of-mem :
    (token : ℕ) (b : Option ℕ) (batch : List FetchRequest)
    → Memᴰ (token, b) batch
    → Memᴰ b (blocks_of token batch)
blocks_of-mem token b [] m = elim m [ ]
blocks_of-mem token b ((t, block) ∷ batch) (Memᴰ.head e) =
    let here : nat_beq t token ≡ true = (nat_beq_iff t token).1 (sym (ap (λ r. r.0) e)) in
    rw here (Memᴰ.head (ap (λ r. r.1) e))
blocks_of-mem token b ((t, block) ∷ batch) (Memᴰ.tail m) = elim (Bool-cases (nat_beq t token)) [
  | inl here ↦ rw here (Memᴰ.tail (blocks_of-mem token b batch m))
  | inr other ↦ rw other (blocks_of-mem token b batch m)
]

mem-blocks :
    (b : Option ℕ) (batch : List FetchRequest)
    → Memᴰ b (map (λ r. r.1) batch)
    → (token : ℕ) × Memᴰ (token, b) batch
mem-blocks b [] m = elim m [ ]
mem-blocks b ((t, block) ∷ batch) (Memᴰ.head e) = (t, Memᴰ.head (λ i. (t, e i)))
mem-blocks b ((t, block) ∷ batch) (Memᴰ.tail m) =
    let (token, there) = mem-blocks b batch m in (token, Memᴰ.tail there)

blocks-mem :
    (token : ℕ) (b : Option ℕ) (batch : List FetchRequest)
    → Memᴰ (token, b) batch
    → Memᴰ b (map (λ r. r.1) batch)
blocks-mem token b [] m = elim m [ ]
blocks-mem token b (r ∷ batch) (Memᴰ.head e) = Memᴰ.head (ap (λ x. x.1) e)
blocks-mem token b (r ∷ batch) (Memᴰ.tail m) = Memᴰ.tail (blocks-mem token b batch m)

-- Two batches with the same requests, in any order and any number of times, coalesce to the same
-- map, and are read at the same block.
pub coalesce_by_token-SameMembers :
    (xs ys : List FetchRequest)
    → SameMembers xs ys
    → (◌≡◌ {A = HashMap} (Quot.mk (coalesce_by_token xs)) (Quot.mk (coalesce_by_token ys)))
      × (resolve_block_id (coalesce_by_token xs) ≡ resolve_block_id (coalesce_by_token ys))
coalesce_by_token-SameMembers xs ys same = (
  Quot.sound (λ token.
      Summarises-unique (blocks_of token xs) (blocks_of token ys) _ _
        (λ b. (
          λ m. blocks_of-mem token b ys ((same (token, b)).0 (mem-blocks_of token b xs m)),
          λ m. blocks_of-mem token b xs ((same (token, b)).1 (mem-blocks_of token b ys m)),
        ))
        (coalesce_by_token-Summarises token xs) (coalesce_by_token-Summarises token ys)),
  Reads-unique (map (λ r. r.1) xs) (map (λ r. r.1) ys) _ _
      (λ b. (
        λ m. let (token, there) = mem-blocks b xs m in blocks-mem token b ys ((same _).0 there),
        λ m. let (token, there) = mem-blocks b ys m in blocks-mem token b xs ((same _).1 there),
      ))
      (resolve_block_id-coalesce_by_token xs) (resolve_block_id-coalesce_by_token ys),
)
