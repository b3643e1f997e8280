-- ===== src/Subscription/Replay.antt =====
-- The wire protocol, a snapshot and then diffs, against the stored balances.
use Prim.Native.String.{String}
use balances_watcher.Base.{
  ℕ, ◌<◌, ◌≡◌, refl, sym, ◌∙◌, ◌≢◌, List, [], ◌∷◌, Option, none, some, nat_eq, arith,
}
use balances_watcher.Base.Map.{lookup, insert, lookup-insert}
use balances_watcher.Subscription.{
  Balance, BalanceSnapshot, Diff, BalancesWithBlock, Subscription, set_watched_tokens,
  update_balances_and_take_diff,
}
use balances_watcher.Subscription.Update.{newer, changed, text, update_balances_and_take_diff_lem}
use balances_watcher.Subscription.Watched.{set_watched_tokens_lem}

-- A client that keeps the last text of each token. The keys of a diff are distinct, so the order
-- in which its entries are taken does not matter.
unfoldable pub apply_diff : Diff → Diff → Diff
apply_diff [] view = view
apply_diff ((token, amount) ∷ diff) view = insert token amount (apply_diff diff view)

abbrev pub prefer : Option String → Option String → Option String
prefer none b = b
prefer (some a) b = some a

pub lookup-apply_diff :
    (t : ℕ) (diff view : Diff)
    → lookup t (apply_diff diff view) ≡ prefer (lookup t diff) (lookup t view)
unfolding apply_diff lookup
lookup-apply_diff t [] view = refl
lookup-apply_diff t ((token, amount) ∷ diff) view =
    ground
      (arith, lookup-insert token t amount (apply_diff diff view), lookup-apply_diff t diff view)

module _ (to_string : ℕ → String) where
  -- The first event of a stream: the text of each stored balance.
  unfoldable pub snapshot_text : BalanceSnapshot → Diff
  snapshot_text [] = []
  snapshot_text ((token, b) ∷ snapshot) = (token, to_string b.amount) ∷ snapshot_text snapshot

  -- The client has the text of every stored balance.
  abbrev pub Agrees : Diff → Subscription → Type 0
  Agrees view s =
      (t : ℕ) (b : Balance)
      → lookup t s.balances_snapshot ≡ some b
      → lookup t view ≡ some (to_string b.amount)

  pub snapshot_text-Agrees :
      (t : ℕ) (snapshot : BalanceSnapshot) (b : Balance)
      → lookup t snapshot ≡ some b
      → lookup t (snapshot_text snapshot) ≡ some (to_string b.amount)
  unfolding snapshot_text lookup
  snapshot_text-Agrees t [] b h = cc
  snapshot_text-Agrees t ((k, c) ∷ snapshot) b h = ground (arith, snapshot_text-Agrees t snapshot b)

  -- What happens to a session while a client is connected: an update whose diff is broadcast before
  -- anything else happens, or a replacement of the watched set, which is not broadcast.
  pub data Change : Type 0 where
    updates : BalancesWithBlock → Change
    watches : List ℕ → Change

  unfoldable pub follow : Change → Diff × Subscription → Diff × Subscription
  unfolding apply_diff
  follow (updates u) (view, s) =
      let (diff, s') = update_balances_and_take_diff to_string u s in (apply_diff diff view, s')
  follow (watches tokens) (view, s) = (view, (set_watched_tokens tokens s).1)

  unfoldable pub follow_all : List Change → Diff × Subscription → Diff × Subscription
  unfolding follow
  follow_all [] p = p
  follow_all (c ∷ cs) p = follow_all cs (follow c p)

  pub agrees_after :
      (block : ℕ) (old : Option Balance) (new : Option ℕ) (view : Option String) (b : Balance)
      → ((c : Balance) → old ≡ some c → view ≡ some (to_string c.amount))
      → newer block old new ≡ some b
      → prefer (text to_string (changed block old new) none) view ≡ some (to_string b.amount)
  agrees_after block old none view b agree h = agree b h
  agrees_after block none (some n) view b agree h = ground arith
  agrees_after block (some c) (some n) view b agree h = ground (arith, agree c refl)

  pub follow-Agrees :
      (c : Change) (view : Diff) (s : Subscription)
      → Agrees view s
      → Agrees (follow c (view, s)).0 (follow c (view, s)).1
  unfolding follow
  follow-Agrees (updates (balances, block)) view s agree t b h =
      let (stored, told) = update_balances_and_take_diff_lem to_string balances block t s in
      lookup-apply_diff t (update_balances_and_take_diff to_string (balances, block) s).0 view
      ∙ rw told (
          agrees_after block (lookup t s.balances_snapshot) (lookup t balances) (lookup t view) b
            (agree t) (sym stored ∙ h))
  follow-Agrees (watches tokens) view s agree t b h =
      agree t b (ground (arith, set_watched_tokens_lem tokens s t))

  pub follow_all-Agrees :
      (cs : List Change) (view : Diff) (s : Subscription)
      → Agrees view s
      → Agrees (follow_all cs (view, s)).0 (follow_all cs (view, s)).1
  unfolding follow_all
  follow_all-Agrees [] view s agree = agree
  follow_all-Agrees (c ∷ cs) view s agree =
      follow_all-Agrees cs (follow c (view, s)).0 (follow c (view, s)).1
        (follow-Agrees c view s agree)

  -- A client that was sent the snapshot of a session, and then every diff in the order of the
  -- updates, has the text of every stored balance after any updates and replacements of the
  -- watched set.
  pub replay-Agrees :
      (cs : List Change) (s : Subscription) (t : ℕ) (b : Balance)
      → lookup t (follow_all cs (snapshot_text s.balances_snapshot, s)).1.balances_snapshot ≡ some b
      → lookup t (follow_all cs (snapshot_text s.balances_snapshot, s)).0
        ≡ some (to_string b.amount)
  replay-Agrees cs s =
      follow_all-Agrees cs (snapshot_text s.balances_snapshot) s
        (λ t b h. snapshot_text-Agrees t s.balances_snapshot b h)

  -- The lock is released between an update and its broadcast, so a second task can update and
  -- broadcast in between. If both updates then have one token, at growing blocks and with another
  -- amount each time, the client keeps the text of the older amount while the newer one is stored.
  pub late_broadcast :
      (t v w b c : ℕ) (old : Balance) (view : Diff) (s : Subscription)
      → lookup t s.balances_snapshot ≡ some old
      → old.block_number < b
      → b < c
      → old.amount ≢ v
      → v ≢ w
      → let first = update_balances_and_take_diff to_string ((t, v) ∷ [], b) s in
        let second = update_balances_and_take_diff to_string ((t, w) ∷ [], c) first.1 in
        (lookup t second.1.balances_snapshot ≡ some (record { amount = w; block_number = c }))
        × (lookup t (apply_diff first.0 (apply_diff second.0 view)) ≡ some (to_string v))
        × (lookup t (apply_diff second.0 (apply_diff first.0 view)) ≡ some (to_string w))
  unfolding lookup
  late_broadcast t v w b c old view s h p q m n =
      let first = update_balances_and_take_diff to_string ((t, v) ∷ [], b) s in
      let second = update_balances_and_take_diff to_string ((t, w) ∷ [], c) first.1 in
      let (stored, told) = update_balances_and_take_diff_lem to_string ((t, v) ∷ []) b t s in
      let (stored', told') =
        update_balances_and_take_diff_lem to_string ((t, w) ∷ []) c t first.1 in
      let kept : lookup t first.1.balances_snapshot
          ≡ some (record { amount = v; block_number = b }) =
        ground (arith, stored) in
      let sent : lookup t first.0 ≡ some (to_string v) = ground (arith, told) in
      let sent' : lookup t second.0 ≡ some (to_string w) = ground (arith, told', kept) in
      (
        ground (arith, stored', kept),
        lookup-apply_diff t first.0 (apply_diff second.0 view) ∙ rw sent,
        lookup-apply_diff t second.0 (apply_diff first.0 view) ∙ rw sent',
      )
