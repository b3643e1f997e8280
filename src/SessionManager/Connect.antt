-- ===== src/SessionManager/Connect.antt =====
-- What a client knows that connects while its session is being updated.
use balances_watcher.Base.{
  ℕ, ◌≡◌, refl, sym, ap, ◌∙◌, ◌⊎◌, inl, inr, List, [], ◌∷◌, ◌++◌, Option, none, some, String,
  is_empty, if◌then◌else◌, nat_eq, arith, Option-cases,
}
use balances_watcher.Base.Map.{lookup}
use balances_watcher.Domain.Session.{session_eq, BalanceEvent, balance_update, error}
use balances_watcher.Subscription.{
  Balance, BalanceSnapshot, Diff, Subscription, set_watched_tokens, update_balances_and_take_diff,
}
use balances_watcher.Subscription.Update.{newer, changed, update_balances_and_take_diff_lem}
use balances_watcher.Subscription.Watched.{set_watched_tokens_lem}
use balances_watcher.Subscription.Replay.{
  Change, updates, watches, follow, follow_all, follow_all-Agrees, apply_diff, lookup-apply_diff,
  agrees_after, snapshot_text, snapshot_text-Agrees, Agrees,
}

changed-newer :
    (block : ℕ) (old : Option Balance) (new : Option ℕ) (amount : ℕ) (b : Balance)
    → changed block old new ≡ some amount
    → newer block old new ≡ some b
    → amount ≡ b.amount
changed-newer block old none amount b tell h = absurd cc
changed-newer block none (some n) amount b tell h = ground (arith, tell, h)
changed-newer block (some c) (some n) amount b tell h = ground (arith, tell, h)

-- A client that merges each diff into what it has.
unfoldable pub read_events : List BalanceEvent → Diff → Diff
unfolding apply_diff
read_events [] view = view
read_events (balance_update diff ∷ events) view = read_events events (apply_diff diff view)
read_events (error code message ∷ events) view = read_events events view

module _ (to_string : ℕ → String) where
  -- What is sent during the changes of a session: each diff that is not empty.
  unfoldable pub broadcasts : List (Change to_string) → Subscription → List BalanceEvent
  broadcasts [] s = []
  broadcasts (updates u ∷ cs) s =
      let (diff, s') = update_balances_and_take_diff to_string u s in
      let rest = broadcasts cs s' in if is_empty diff then rest else balance_update diff ∷ rest
  broadcasts (watches tokens ∷ cs) s = broadcasts cs (set_watched_tokens tokens s).1

  read_events-broadcasts :
      (cs : List (Change to_string)) (s : Subscription) (view : Diff)
      → read_events (broadcasts cs s) view ≡ (follow_all to_string cs (view, s)).0
  unfolding broadcasts read_events follow_all follow
  read_events-broadcasts [] s view = refl
  read_events-broadcasts (watches tokens ∷ cs) s view =
      read_events-broadcasts cs (set_watched_tokens tokens s).1 view
  read_events-broadcasts (updates u ∷ cs) s view =
      skip_empty (update_balances_and_take_diff to_string u s).0
        (broadcasts cs (update_balances_and_take_diff to_string u s).1) view
        (read_events-broadcasts cs (update_balances_and_take_diff to_string u s).1)
    where
      skip_empty :
          (diff : Diff) (rest : List BalanceEvent) (seen : Diff) {end : Diff → Diff}
          → ((v : Diff) → read_events rest v ≡ end v)
          → read_events (if is_empty diff then rest else balance_update diff ∷ rest) seen
            ≡ end (apply_diff diff seen)
      skip_empty [] rest seen same = same seen
      skip_empty (d ∷ diff) rest seen same = same (apply_diff (d ∷ diff) seen)

  -- The session behind some changes.
  abbrev pub state_after : List (Change to_string) → Subscription → Subscription
  state_after cs s = (follow_all to_string cs ([], s)).1

  follow_all-state :
      (cs : List (Change to_string)) (view : Diff) (s : Subscription)
      → (follow_all to_string cs (view, s)).1 ≡ state_after cs s
  unfolding follow_all follow
  follow_all-state [] view s = refl
  follow_all-state (updates u ∷ cs) view s =
      follow_all-state cs _ (update_balances_and_take_diff to_string u s).1
      ∙ sym (follow_all-state cs _ (update_balances_and_take_diff to_string u s).1)
  follow_all-state (watches tokens ∷ cs) view s =
      follow_all-state cs view (set_watched_tokens tokens s).1

  -- A client's text of a token is either right, or still the one of a snapshot.
  abbrev pub IsCurrent : BalanceSnapshot → ℕ → Diff → Subscription → Type 0
  IsCurrent snapshot t view s =
      ((b : Balance)
        → lookup t s.balances_snapshot ≡ some b
        → lookup t view ≡ some (to_string b.amount))
      ⊎ (lookup t view ≡ lookup t (snapshot_text to_string snapshot))

  follow-IsCurrent :
      (c : Change to_string) (snapshot : BalanceSnapshot) (t : ℕ) (view : Diff) (s : Subscription)
      → IsCurrent snapshot t view s
      → IsCurrent snapshot t (follow to_string c (view, s)).0 (follow to_string c (view, s)).1
  unfolding follow
  follow-IsCurrent (watches tokens) snapshot t view s (inr old) = inr old
  follow-IsCurrent (watches tokens) snapshot t view s (inl agree) =
      inl (λ b h. agree b (ground (arith, set_watched_tokens_lem tokens s t)))
  follow-IsCurrent (updates (balances, block)) snapshot t view s (inl agree) =
      let (stored, told) = update_balances_and_take_diff_lem to_string balances block t s in
      inl (λ b h.
        lookup-apply_diff t (update_balances_and_take_diff to_string (balances, block) s).0 view
        ∙ rw told (
            agrees_after to_string block (lookup t s.balances_snapshot) (lookup t balances)
              (lookup t view) b agree (sym stored ∙ h)))
  follow-IsCurrent (updates (balances, block)) snapshot t view s (inr old) =
      let (stored, told) = update_balances_and_take_diff_lem to_string balances block t s in
      let seen =
        lookup-apply_diff t (update_balances_and_take_diff to_string (balances, block) s).0 view in
      elim (Option-cases (changed block (lookup t s.balances_snapshot) (lookup t balances))) [
        | inl quiet ↦ inr (seen ∙ rw (told, quiet) old)
        | inr (amount, tell) ↦ inl (λ b h.
            seen
            ∙ rw (told, tell)
                (ap (λ n. some (to_string n))
                  (changed-newer block (lookup t s.balances_snapshot) (lookup t balances) amount b
                    tell (sym stored ∙ h))))
      ]

  follow_all-append :
      (early later : List (Change to_string)) (view : Diff) (s : Subscription)
      → follow_all to_string (early ++ later) (view, s)
        ≡ follow_all to_string later (follow_all to_string early (view, s))
  unfolding follow_all
  follow_all-append [] later view s = refl
  follow_all-append (c ∷ early) later view s =
      follow_all-append early later (follow to_string c (view, s)).0
        (follow to_string c (view, s)).1

  follow_all-IsCurrent :
      (cs : List (Change to_string)) (snapshot : BalanceSnapshot) (t : ℕ) (view : Diff)
      (s : Subscription)
      → IsCurrent snapshot t view s
      → IsCurrent snapshot t
          (follow_all to_string cs (view, s)).0
          (follow_all to_string cs (view, s)).1
  unfolding follow_all
  follow_all-IsCurrent [] snapshot t view s current = current
  follow_all-IsCurrent (c ∷ cs) snapshot t view s current =
      follow_all-IsCurrent cs snapshot t (follow to_string c (view, s)).0
        (follow to_string c (view, s)).1 (follow-IsCurrent c snapshot t view s current)

  -- Diffs that the snapshot already has do no harm.
  overlap-Agrees :
      (early : List (Change to_string)) (s : Subscription)
      → let snapshot = (state_after early s).balances_snapshot in
        Agrees to_string
          (follow_all to_string early (snapshot_text to_string snapshot, s)).0
          (follow_all to_string early (snapshot_text to_string snapshot, s)).1
  overlap-Agrees early s t b h =
      let snapshot = (state_after early s).balances_snapshot in
      let same = follow_all-state early (snapshot_text to_string snapshot) s in
      elim (follow_all-IsCurrent early snapshot t (snapshot_text to_string snapshot) s (inr refl)) [
        | inl agree ↦ agree b h
        | inr untouched ↦
            untouched
            ∙ snapshot_text-Agrees to_string t snapshot b
                (sym (ap (λ x. lookup t x.balances_snapshot) same) ∙ h)
      ]

  pub replay_overlapping :
      (early later : List (Change to_string)) (s : Subscription) (t : ℕ) (b : Balance)
      → lookup t (state_after (early ++ later) s).balances_snapshot ≡ some b
      → lookup t (
          read_events
            (broadcasts (early ++ later) s)
            (snapshot_text to_string (state_after early s).balances_snapshot))
        ≡ some (to_string b.amount)
  replay_overlapping early later s t b h =
      let view = snapshot_text to_string (state_after early s).balances_snapshot in
      let read = read_events-broadcasts (early ++ later) s view in
      let joined = follow_all-append early later view s in
      let same = follow_all-state (early ++ later) view s in
      let agree =
        follow_all-Agrees to_string later (follow_all to_string early (view, s)).0
          (follow_all to_string early (view, s)).1 (overlap-Agrees early s) t b in
      ap (λ v. lookup t v) (read ∙ ap (λ p. p.0) joined)
      ∙ agree (ap (λ x. lookup t x.balances_snapshot) (sym (ap (λ p. p.1) joined) ∙ same) ∙ h)
