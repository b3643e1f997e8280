-- ===== src/RefreshQueue/Coalesce.antt =====
-- The coalesced batch against the requests that went into it, token by token.
use balances_watcher.Base.{
  ℕ, max, ◌≤◌, ◌≡◌, refl, inl, inr, List, [], ◌∷◌, ◌++◌, Option, none, some, if◌then◌else◌, nat_beq,
  nat_eq, arith, Option-cases, Bool-cases, All, All-append, Memᴰ, leb, mem_left, mem_right,
}
use mathlib.Core.List.{append-nil, append_assoc}
use balances_watcher.Base.Map.{lookup, lookup-insert}
use balances_watcher.RefreshQueue.{
  FetchRequest, LatestBlockByToken, merge_block, coalesce_entry, coalesce_from, coalesce_by_token,
}

-- The blocks of the requests for a token.
abbrev pub blocks_of : ℕ → List FetchRequest → List (Option ℕ)
blocks_of token [] = []
blocks_of token ((t, block) ∷ batch) =
    if nat_beq t token then block ∷ blocks_of token batch else blocks_of token batch

abbrev pub AtMost : ℕ → Option ℕ → Type 0
AtMost n none = ⊥
AtMost n (some m) = m ≤ n

-- What is kept of some blocks: nothing of none; no block if one is not pinned; otherwise the
-- greatest.
abbrev pub Summarises : List (Option ℕ) → Option (Option ℕ) → Type 0
Summarises blocks none = blocks ≡ []
Summarises blocks (some none) = Memᴰ none blocks
Summarises blocks (some (some n)) = Memᴰ (some n) blocks × All (AtMost n) blocks

-- What an entry holds after one more request for its token.
abbrev join : Option (Option ℕ) → Option ℕ → Option ℕ
join none current = current
join (some saved) current = merge_block saved current

AtMost-mono : (m n : ℕ) → m ≤ n → (bs : List (Option ℕ)) → All (AtMost m) bs → All (AtMost n) bs
AtMost-mono m n h [] a = tt
AtMost-mono m n h (none ∷ bs) a = absurd a.0
AtMost-mono m n h (some b ∷ bs) a = (omega arith, AtMost-mono m n h bs a.1)

Summarises-join :
    (bs : List (Option ℕ)) (saved : Option (Option ℕ)) (current : Option ℕ)
    → Summarises bs saved
    → Summarises (bs ++ current ∷ []) (some (join saved current))
unfolding merge_block
Summarises-join bs none none s = mem_right bs (none ∷ []) (Memᴰ.head refl)
Summarises-join bs (some none) none s = mem_right bs (none ∷ []) (Memᴰ.head refl)
Summarises-join bs (some (some n)) none s = mem_right bs (none ∷ []) (Memᴰ.head refl)
Summarises-join bs none (some c) s = rw s (Memᴰ.head refl, (omega arith, tt))
Summarises-join bs (some none) (some c) s = mem_left bs (some c ∷ []) s
Summarises-join bs (some (some n)) (some c) s = (
  greatest,
  All-append (AtMost (max n c)) bs (some c ∷ []) (AtMost-mono n (max n c) (omega arith) bs s.1)
      (omega arith, tt),
)
  where
    greatest : Memᴰ (some (max n c)) (bs ++ some c ∷ [])
    greatest = elim (Bool-cases (leb n c)) [
      | inl h ↦
          let e : max n c ≡ c = ground arith in rw e (mem_right bs (some c ∷ []) (Memᴰ.head refl))
      | inr h ↦ let e : max n c ≡ n = ground arith in rw e (mem_left bs (some c ∷ []) s.0)
    ]

lookup-coalesce_entry :
    (token t : ℕ) (block : Option ℕ) (acc : LatestBlockByToken)
    → lookup token (coalesce_entry (t, block) acc)
      ≡ (if nat_beq t token then some (join (lookup token acc) block) else lookup token acc)
unfolding coalesce_entry
lookup-coalesce_entry token t block acc = elim (Option-cases (lookup t acc)) [
  | inl e ↦ rw (e, coalesce_entry) (ground (arith, lookup-insert t token block acc, e))
  | inr (saved, e) ↦
      rw (e, coalesce_entry)
        (ground (arith, lookup-insert t token (merge_block saved block) acc, e))
]

coalesce_from-Summarises :
    (token : ℕ) (batch : List FetchRequest) (acc : LatestBlockByToken) (bs : List (Option ℕ))
    → Summarises bs (lookup token acc)
    → Summarises (bs ++ blocks_of token batch) (lookup token (coalesce_from acc batch))
unfolding coalesce_from
coalesce_from-Summarises token [] acc bs s = rw append-nil s
coalesce_from-Summarises token ((t, block) ∷ batch) acc bs s = elim (Bool-cases (nat_beq t token)) [
  | inl here ↦
      rw (here, ← append_assoc bs (block ∷ []) (blocks_of token batch))
        (coalesce_from-Summarises token batch (coalesce_entry (t, block) acc) (bs ++ block ∷ []) (
          rw (lookup-coalesce_entry token t block acc, here)
            (Summarises-join bs (lookup token acc) block s)))
  | inr other ↦ rw other (
      coalesce_from-Summarises token batch (coalesce_entry (t, block) acc) bs
        (rw (lookup-coalesce_entry token t block acc, other) s))
]

-- After coalescing, a token is absent exactly if nothing asked for it; it has no block if one of
-- its requests had none; otherwise it has the block of one of its requests, and none of them has a
-- higher one.
pub coalesce_by_token-Summarises :
    (token : ℕ) (batch : List FetchRequest)
    → Summarises (blocks_of token batch) (lookup token (coalesce_by_token batch))
unfolding coalesce_by_token lookup
coalesce_by_token-Summarises token batch = coalesce_from-Summarises token batch [] [] refl
