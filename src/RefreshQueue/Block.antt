-- ===== src/RefreshQueue/Block.antt =====
-- The block at which a batch is read.
use balances_watcher.Base.{
  ℕ, zero, suc, ap, true, max, ◌≤◌, ◌<◌, ◌≡◌, refl, sym, ◌⊎◌, inl, inr, List, [], ◌∷◌, Option, none,
  some, map, nat_beq, nat_eq, arith, Option-cases, Bool-cases, All, Memᴰ, leb, ltb,
}
use mathlib.Core.Path.{subst}
use balances_watcher.Base.Map.{lookup, insert}
use balances_watcher.RefreshQueue.{
  FetchRequest, LatestBlockByToken, BlockId, number, latest, merge_block, coalesce_entry,
  coalesce_from, coalesce_by_token, max_block, resolve_block_id, block_id_of,
}
use balances_watcher.RefreshQueue.Coalesce.{AtMost}

merge_block-none : (a : Option ℕ) → merge_block a none ≡ none
unfolding merge_block
merge_block-none none = refl
merge_block-none (some n) = refl

merge_block_assoc :
    (a b c : Option ℕ) → merge_block (merge_block a b) c ≡ merge_block a (merge_block b c)
unfolding merge_block
merge_block_assoc none b c = refl
merge_block_assoc (some m) none c = refl
merge_block_assoc (some m) (some n) none = refl
merge_block_assoc (some m) (some n) (some k) = ground arith

merge_block_swap :
    (a b c : Option ℕ) → merge_block (merge_block a b) c ≡ merge_block (merge_block a c) b
unfolding merge_block
merge_block_swap none b c = refl
merge_block_swap (some m) none none = refl
merge_block_swap (some m) none (some n) = refl
merge_block_swap (some m) (some n) none = refl
merge_block_swap (some m) (some n) (some k) = ground arith

max_block-max :
    (m n : ℕ) (acc : LatestBlockByToken)
    → max_block (max m n) acc ≡ merge_block (max_block m acc) (some n)
unfolding max_block merge_block
max_block-max m n [] = refl
max_block-max m n ((t, none) ∷ acc) = refl
max_block-max m n ((t, some b) ∷ acc) =
    let swap : max (max m n) b ≡ max (max m b) n = omega arith in
    rw swap (max_block-max (max m b) n acc)

max_block-cons :
    (m t : ℕ) (b : Option ℕ) (acc : LatestBlockByToken)
    → max_block m ((t, b) ∷ acc) ≡ merge_block (max_block m acc) b
unfolding max_block
max_block-cons m t none acc = sym (merge_block-none (max_block m acc))
max_block-cons m t (some b) acc = max_block-max m b acc

max_block-insert_new :
    (m token : ℕ) (block : Option ℕ) (acc : LatestBlockByToken)
    → lookup token acc ≡ none
    → max_block m (insert token block acc) ≡ merge_block (max_block m acc) block
unfolding insert lookup
max_block-insert_new m token block [] h = max_block-cons m token block []
max_block-insert_new m token block ((t, b) ∷ acc) h = elim (Bool-cases (nat_beq t token)) [
  | inl here ↦ absurd (ground arith)
  | inr other ↦
      rw
        (
          other,
          max_block-cons m t b (insert token block acc),
          max_block-cons m t b acc,
          max_block-insert_new m token block acc (ground arith),
        )
        (merge_block_swap (max_block m acc) block b)
]

max_block-insert_merged :
    (m token : ℕ) (block saved : Option ℕ) (acc : LatestBlockByToken)
    → lookup token acc ≡ some saved
    → max_block m (insert token (merge_block saved block) acc) ≡ merge_block (max_block m acc) block
unfolding insert lookup
max_block-insert_merged m token block saved [] h = cc
max_block-insert_merged m token block saved ((t, b) ∷ acc) h = elim (Bool-cases (nat_beq t token)) [
  | inl here ↦
      let same : b ≡ saved = ground arith in
      rw (here, max_block-cons m t (merge_block saved block) acc, max_block-cons m t b acc, same)
        (sym (merge_block_assoc (max_block m acc) saved block))
  | inr other ↦
      rw
        (
          other,
          max_block-cons m t b (insert token (merge_block saved block) acc),
          max_block-cons m t b acc,
          max_block-insert_merged m token block saved acc (ground arith),
        )
        (merge_block_swap (max_block m acc) block b)
]

max_block-coalesce_entry :
    (m t : ℕ) (block : Option ℕ) (acc : LatestBlockByToken)
    → max_block m (coalesce_entry (t, block) acc) ≡ merge_block (max_block m acc) block
unfolding coalesce_entry
max_block-coalesce_entry m t block acc = elim (Option-cases (lookup t acc)) [
  | inl e ↦ rw (e, coalesce_entry) (max_block-insert_new m t block acc e)
  | inr (saved, e) ↦ rw (e, coalesce_entry) (max_block-insert_merged m t block saved acc e)
]

merge_all : Option ℕ → List FetchRequest → Option ℕ
merge_all a [] = a
merge_all a ((t, block) ∷ batch) = merge_all (merge_block a block) batch

max_block-coalesce_from :
    (m : ℕ) (batch : List FetchRequest) (acc : LatestBlockByToken)
    → max_block m (coalesce_from acc batch) ≡ merge_all (max_block m acc) batch
unfolding coalesce_from merge_all
max_block-coalesce_from m [] acc = refl
max_block-coalesce_from m ((t, block) ∷ batch) acc =
    rw (← max_block-coalesce_entry m t block acc)
      (max_block-coalesce_from m batch (coalesce_entry (t, block) acc))

-- The result of `merge_all`, against the blocks of the requests.
abbrev Highest : ℕ → List FetchRequest → Option ℕ → Type 0
Highest m batch none = Memᴰ none (map (λ r. r.1) batch)
Highest m batch (some n) =
    (m ≤ n)
    × ((n ≡ m) ⊎ Memᴰ (some n) (map (λ r. r.1) batch))
    × All (AtMost n) (map (λ r. r.1) batch)

merge_all-none : (batch : List FetchRequest) → merge_all none batch ≡ none
unfolding merge_all merge_block
merge_all-none [] = refl
merge_all-none (r ∷ batch) = merge_all-none batch

Highest-merge_all : (m : ℕ) (batch : List FetchRequest) → Highest m batch (merge_all (some m) batch)
unfolding merge_all merge_block
Highest-merge_all m [] = (omega arith, inl refl, tt)
Highest-merge_all m ((t, none) ∷ batch) = rw (merge_all-none batch) (Memᴰ.head refl)
Highest-merge_all m ((t, some b) ∷ batch) =
    weaken (merge_all (some (max m b)) batch) (Highest-merge_all (max m b) batch)
  where
    weaken : (o : Option ℕ) → Highest (max m b) batch o → Highest m ((t, some b) ∷ batch) o
    weaken none h = Memᴰ.tail h
    weaken (some n) h = (omega (arith, h.0), among h.1, (omega (arith, h.0), h.2))
      where
        among :
            (n ≡ max m b) ⊎ Memᴰ (some n) (map (λ r. r.1) batch)
            → (n ≡ m) ⊎ Memᴰ (some n) (some b ∷ map (λ r. r.1) batch)
        among (inr later) = inr (Memᴰ.tail later)
        among (inl e) = elim (Bool-cases (leb m b)) [
          | inl up ↦ inr (Memᴰ.head (ap some (ground arith)))
          | inr down ↦ inl (ground arith)
        ]

-- The block that some requests ask for: the latest one if a request names none, or if none names
-- one above 0; otherwise the greatest that is named.
abbrev pub Reads : List (Option ℕ) → BlockId → Type 0
Reads blocks latest = Memᴰ none blocks ⊎ All (AtMost 0) blocks
Reads blocks (number n) = (0 < n) × Memᴰ (some n) blocks × All (AtMost n) blocks

block_id_of-Reads :
    (batch : List FetchRequest) (o : Option ℕ)
    → Highest 0 batch o
    → Reads (map (λ r. r.1) batch) (block_id_of o)
unfolding block_id_of
block_id_of-Reads batch none h = inl h
block_id_of-Reads batch (some zero) h = inr h.2
block_id_of-Reads batch (some (suc n)) h = elim h.1 [
  | inl e ↦ absurd (omega arith)
  | inr m ↦ let e : ltb 0 (suc n) ≡ true = ground arith in rw e (omega arith, m, h.2)
]

-- A coalesced batch is read at the latest block if one of its requests names no block, or if none
-- names one above 0; and otherwise at the greatest block that a request names.
pub resolve_block_id-coalesce_by_token :
    (batch : List FetchRequest)
    → Reads (map (λ r. r.1) batch) (resolve_block_id (coalesce_by_token batch))
unfolding resolve_block_id coalesce_by_token max_block
resolve_block_id-coalesce_by_token batch =
    subst (λ o. Reads (map (λ r. r.1) batch) (block_id_of o))
      (sym (max_block-coalesce_from 0 batch []))
      (block_id_of-Reads batch (merge_all (some 0) batch) (Highest-merge_all 0 batch))
