-- ===== src/Subscription/Update.antt =====
-- What an update does to one token, whatever else is in the batch.
use Prim.Native.String.{String}
use balances_watcher.Base.{
  ℕ, ◌≡◌, refl, ◌∙◌, ◌≢◌, inl, inr, List, [], ◌∷◌, Option, none, some, ltb, if◌then◌else◌, nat_beq,
  nat_beq_iff, nat_eq, arith, Bool-cases,
}
use balances_watcher.Base.Map.{lookup, lookup-insert}
use balances_watcher.Subscription.{
  Balance, BalanceSnapshot, Diff, BalancesWithBlock, Subscription, update_balance, update_balances,
  update_balances_and_take_diff,
}

-- The balance of a token behind an update that read `new` at `block`.
abbrev pub newer : ℕ → Option Balance → Option ℕ → Option Balance
newer block old none = old
newer block none (some new) = some (record { amount = new; block_number = block })
newer block (some old) (some new) =
    if ltb old.block_number block
    then some (record { amount = new; block_number = block })
    else some old

-- Whether the client must be told, and the balance to tell.
abbrev pub changed : ℕ → Option Balance → Option ℕ → Option ℕ
changed block old none = none
changed block none (some new) = some new
changed block (some old) (some new) =
    if ltb old.block_number block then (if nat_beq old.amount new then none else some new) else none

module _ (to_string : ℕ → String) where
  abbrev pub text : Option ℕ → Option String → Option String
  text none d = d
  text (some n) d = some (to_string n)

  update_balance_lem :
      (block token new t : ℕ) (snapshot : BalanceSnapshot) (diff : Diff)
      → (lookup t (update_balance to_string block token new (snapshot, diff)).0
          ≡ newer block (lookup t snapshot) (if nat_beq token t then some new else none))
        × (lookup t (update_balance to_string block token new (snapshot, diff)).1
            ≡ text
                (changed block (lookup t snapshot) (if nat_beq token t then some new else none))
                (lookup t diff))
  unfolding update_balance
  update_balance_lem block token new t snapshot diff =
      let fresh : Balance = record { amount = new; block_number = block } in
      let stored = lookup-insert token t fresh snapshot in
      let told = lookup-insert token t (to_string new) diff in
      (
        ground (arith, stored, told, nat_beq_iff token t),
        ground (arith, stored, told, nat_beq_iff token t),
      )

  newer_once :
      (block new : ℕ) (old : Option Balance) (later : Option ℕ)
      → newer block (newer block old (some new)) later ≡ newer block old (some new)
  newer_once block new old none = refl
  newer_once block new none (some n) = ground arith
  newer_once block new (some b) (some n) = ground arith

  changed_once :
      (block new : ℕ) (old : Option Balance) (later : Option ℕ) (d : Option String)
      → text (changed block (newer block old (some new)) later) d ≡ d
  changed_once block new old none d = refl
  changed_once block new none (some n) d = ground arith
  changed_once block new (some b) (some n) d = ground arith

  update_balances_lem :
      (block t : ℕ) (balances : List (ℕ × ℕ)) (snapshot : BalanceSnapshot) (diff : Diff)
      → (lookup t (update_balances to_string block balances (snapshot, diff)).0
          ≡ newer block (lookup t snapshot) (lookup t balances))
        × (lookup t (update_balances to_string block balances (snapshot, diff)).1
            ≡ text (changed block (lookup t snapshot) (lookup t balances)) (lookup t diff))
  unfolding update_balances lookup
  update_balances_lem block t [] snapshot diff = (refl, refl)
  update_balances_lem block t ((token, new) ∷ balances) snapshot diff =
      let next = update_balance to_string block token new (snapshot, diff) in
      let (stored, told) = update_balance_lem block token new t snapshot diff in
      let (stored', told') = update_balances_lem block t balances next.0 next.1 in
      elim (Bool-cases (nat_beq token t)) [
        | inl here ↦ (
          stored'
              ∙ rw (stored, here) (newer_once block new (lookup t snapshot) (lookup t balances)),
          told'
              ∙ rw (stored, told, here)
                  (changed_once block new (lookup t snapshot) (lookup t balances) _),
        )
        | inr other ↦ (stored' ∙ rw (stored, other), told' ∙ rw (stored, told, other))
      ]

  abbrev pub stored_by : BalancesWithBlock → Subscription → BalanceSnapshot
  stored_by u s = (update_balances_and_take_diff to_string u s).1.balances_snapshot

  -- For each token on its own, an update stores the balance that was read unless the stored one is
  -- from the same or a later block; and the diff has the token exactly if it was not stored before,
  -- or was stored from an earlier block with another amount.
  pub update_balances_and_take_diff_lem :
      (balances : List (ℕ × ℕ)) (block t : ℕ) (s : Subscription)
      → (lookup t (stored_by (balances, block) s)
          ≡ newer block (lookup t s.balances_snapshot) (lookup t balances))
        × (lookup t (update_balances_and_take_diff to_string (balances, block) s).0
            ≡ text (changed block (lookup t s.balances_snapshot) (lookup t balances)) none)
  unfolding update_balances_and_take_diff lookup
  update_balances_and_take_diff_lem [] block t s = (refl, refl)
  update_balances_and_take_diff_lem (b ∷ balances) block t s =
      update_balances_lem block t (b ∷ balances) s.balances_snapshot []

  newer_swap :
      (b c : ℕ) (old : Option Balance) (m n : Option ℕ)
      → b ≢ c
      → newer c (newer b old m) n ≡ newer b (newer c old n) m
  newer_swap b c old none none h = refl
  newer_swap b c old none (some n) h = refl
  newer_swap b c old (some m) none h = refl
  newer_swap b c none (some m) (some n) h = ground arith
  newer_swap b c (some old) (some m) (some n) h = ground arith

  -- Two updates read at different blocks leave every token with the same stored balance, in
  -- whichever order they are applied.
  pub update_balances_and_take_diff_comm :
      (xs ys : List (ℕ × ℕ)) (b c t : ℕ) (s : Subscription)
      → b ≢ c
      → lookup t (stored_by (ys, c) (update_balances_and_take_diff to_string (xs, b) s).1)
        ≡ lookup t (stored_by (xs, b) (update_balances_and_take_diff to_string (ys, c) s).1)
  update_balances_and_take_diff_comm xs ys b c t s h =
      let first = update_balances_and_take_diff to_string (xs, b) s in
      let second = update_balances_and_take_diff to_string (ys, c) s in
      rw
        (
          (update_balances_and_take_diff_lem ys c t first.1).0,
          (update_balances_and_take_diff_lem xs b t s).0,
          (update_balances_and_take_diff_lem xs b t second.1).0,
          (update_balances_and_take_diff_lem ys c t s).0,
        )
        (newer_swap b c (lookup t s.balances_snapshot) (lookup t xs) (lookup t ys) h)
