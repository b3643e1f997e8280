-- ===== src/Subscription/Watched.antt =====
-- The watched set against the stored balances.
use Prim.Native.String.{String}
use balances_watcher.Base.{
  ℕ, ◌≡◌, refl, sym, ◌∙◌, ◌⊎◌, inl, inr, true, false, List, [], ◌∷◌, none, some, if◌then◌else◌,
  nat_beq_iff, nat_eq, arith, Option-cases,
}
use balances_watcher.Base.Map.{lookup, retain}
use balances_watcher.Base.Set.{contains, same, contains-same}
use balances_watcher.Subscription.{
  Balance, BalanceSnapshot, Subscription, set_watched_tokens, update_balances_and_take_diff,
  is_watched_token,
}
use balances_watcher.Subscription.Update.{newer, update_balances_and_take_diff_lem}

-- Every stored balance is of a watched token.
abbrev pub OnlyWatched : Subscription → Type 0
OnlyWatched s =
    (t : ℕ) (b : Balance) → lookup t s.balances_snapshot ≡ some b → is_watched_token t s ≡ true

pub lookup-retain :
    (tokens : List ℕ) (t : ℕ) (m : BalanceSnapshot)
    → lookup t (retain (λ token _. contains token tokens) m)
      ≡ (if contains t tokens then lookup t m else none)
unfolding lookup retain
lookup-retain tokens t [] = ground arith
lookup-retain tokens t ((k, b) ∷ m) = ground (arith, lookup-retain tokens t m, nat_beq_iff k t)

-- Replacing the watched set reports a change exactly if the sets differ. Afterwards a token is
-- watched exactly if it is in the new set, and a stored balance is there exactly if it was there
-- and, where the sets differ, its token is in the new set.
pub set_watched_tokens_lem :
    (new : List ℕ) (s : Subscription) (t : ℕ)
    → ((set_watched_tokens new s).0 ≡ (if same s.tokens new then false else true))
      × (is_watched_token t (set_watched_tokens new s).1 ≡ contains t new)
      × (lookup t (set_watched_tokens new s).1.balances_snapshot ≡ (
          if same s.tokens new
          then lookup t s.balances_snapshot
          else (if contains t new then lookup t s.balances_snapshot else none)))
unfolding set_watched_tokens is_watched_token
set_watched_tokens_lem new s t =
    ground (arith, lookup-retain new t s.balances_snapshot, contains-same t s.tokens new)

-- After a replacement that changes the set, every stored balance is of a watched token, whatever
-- was stored before.
pub set_watched_tokens-OnlyWatched :
    (new : List ℕ) (s : Subscription)
    → same s.tokens new ≡ false
    → OnlyWatched (set_watched_tokens new s).1
unfolding set_watched_tokens is_watched_token
set_watched_tokens-OnlyWatched new s h t b e =
    ground (arith, lookup-retain new t s.balances_snapshot)

is_watched_token-update :
    (to_string : ℕ → String) (balances : List (ℕ × ℕ)) (block t : ℕ) (s : Subscription)
    → is_watched_token t (update_balances_and_take_diff to_string (balances, block) s).1
      ≡ is_watched_token t s
unfolding is_watched_token update_balances_and_take_diff
is_watched_token-update to_string [] block t s = refl
is_watched_token-update to_string (b ∷ balances) block t s = refl

-- If a replacement changes the watched set and leaves a token out, an update behind it that has read
-- a balance of the token stores it and tells it to the clients, although the token is not watched.
pub update_revives_evicted :
    (to_string : ℕ → String) (new : List ℕ) (balances : List (ℕ × ℕ)) (block t amount : ℕ)
    (s : Subscription)
    → same s.tokens new ≡ false
    → contains t new ≡ false
    → lookup t balances ≡ some amount
    → let s' = (set_watched_tokens new s).1 in
      (is_watched_token t (update_balances_and_take_diff to_string (balances, block) s').1 ≡ false)
      × (lookup t (update_balances_and_take_diff to_string (balances, block) s').1.balances_snapshot
          ≡ some (record { amount = amount; block_number = block }))
      × (lookup t (update_balances_and_take_diff to_string (balances, block) s').0
          ≡ some (to_string amount))
update_revives_evicted to_string new balances block t amount s changes gone read =
    let s' = (set_watched_tokens new s).1 in
    let evicted : lookup t s'.balances_snapshot ≡ none =
      ground (arith, set_watched_tokens_lem new s t) in
    let (stored, told) = update_balances_and_take_diff_lem to_string balances block t s' in
    (
      is_watched_token-update to_string balances block t s'
          ∙ (set_watched_tokens_lem new s t).1
          ∙ gone,
      stored ∙ rw (evicted, read),
      told ∙ rw (evicted, read),
    )

-- It keeps to the watched tokens if all that it reads are watched.
pub update-OnlyWatched :
    (to_string : ℕ → String) (balances : List (ℕ × ℕ)) (block : ℕ) (s : Subscription)
    → OnlyWatched s
    → ((t amount : ℕ) → lookup t balances ≡ some amount → is_watched_token t s ≡ true)
    → OnlyWatched (update_balances_and_take_diff to_string (balances, block) s).1
update-OnlyWatched to_string balances block s only read t b e =
    is_watched_token-update to_string balances block t s
    ∙ watched (Option-cases (lookup t balances))
  where
    stored : newer block (lookup t s.balances_snapshot) (lookup t balances) ≡ some b
    stored = sym (update_balances_and_take_diff_lem to_string balances block t s).0 ∙ e

    watched :
        (lookup t balances ≡ none) ⊎ ((a : ℕ) × (lookup t balances ≡ some a))
        → is_watched_token t s ≡ true
    watched (inl absent) = only t b (rw absent at stored)
    watched (inr (a, found)) = read t a found
