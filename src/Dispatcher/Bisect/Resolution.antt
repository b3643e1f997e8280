-- ===== src/Dispatcher/Bisect/Resolution.antt =====
-- The loop ends, and resolves every range that is on its stack.
use balances_watcher.Base.{
  ℕ, zero, suc, ◌+◌, ◌-◌, ◌*◌, ◌≤◌, ◌<◌, ◌≡◌, refl, ◌∙◌, ◌⊎◌, inl, inr, true, List, [], ◌∷◌, ◌++◌,
  some, ltb, ltb→lt, Result, ok, err, arith, length, length-append, All, Bool-cases,
}
use balances_watcher.Base.Word.{u64_modulus, add_u64}
use balances_watcher.Dispatcher.Bisect.{
  Progress, handle_batch, midpoint, bisect_loop, fetch_range_with_bisect, start,
}
use native.Mathlib.Nat.{add_assoc}
use mathlib.Core.List.{append-nil, append_assoc}

pub Result-cases {ℓ κ} :
    {E : Type ℓ} {A : Type κ} (r : Result E A) → ((a : A) × (r ≡ ok a)) ⊎ ((e : E) × (r ≡ err e))
Result-cases (ok a) = inl (a, refl)
Result-cases (err e) = inr (e, refl)

-- The part of a progress that a batch leaves behind it.
pub handled-handle_batch {ℓ} :
    {Log : Type ℓ} (batch : List Log) (p : Progress Log)
    → ((handle_batch batch p).handled ≡ p.handled ++ batch)
      × ((handle_batch batch p).handled_logs ≡ p.handled_logs + length batch)
      × ((handle_batch batch p).lost_blocks ≡ p.lost_blocks)
unfolding handle_batch
handled-handle_batch [] p = (simp append-nil, omega arith, refl)
handled-handle_batch (log ∷ batch) p =
    let next = record p { handled = p.handled ++ log ∷ []; handled_logs = p.handled_logs + 1 } in
    let (logs, count, same_lost) = handled-handle_batch batch next in
    (logs ∙ append_assoc p.handled (log ∷ []) batch, omega arith, same_lost)

pub midpoint_bounds :
    (from to : ℕ)
    → to < u64_modulus
    → from < to
    → (from ≤ midpoint from to)
      × (midpoint from to < to)
      × (add_u64 (midpoint from to) 1 ≡ midpoint from to + 1)
unfolding midpoint
midpoint_bounds from to b h = omega arith

-- An upper bound on the rounds that a stack needs.
abbrev pub weight : List (ℕ × ℕ) → ℕ
weight [] = 0
weight ((from, to) ∷ rs) = 2 * (to - from) + 1 + weight rs

abbrev pub IsRange : ℕ × ℕ → Type 0
IsRange (from, to) = (from ≤ to) × (to < u64_modulus)

module _ {ℓ κ} {Log : Type ℓ} {Error : Type κ} (fetch : ℕ → ℕ → ℕ → Result Error (List Log)) where
  -- How a range comes to its logs and its number of lost blocks.
  pub data Resolves : ℕ → ℕ → List Log → ℕ → Type (ℓ ⊔ κ) where
    whole :
        {from to : ℕ} (call : ℕ) {ls : List Log}
        → fetch call from to ≡ ok ls
        → Resolves from to ls 0
    lost :
        {from to : ℕ} (call : ℕ) {e : Error}
        → from ≡ to
        → fetch call from to ≡ err e
        → Resolves from to [] 1
    split :
        {from to : ℕ} (mid call : ℕ) {e : Error} {front back : List Log} {m n : ℕ}
        → fetch call from to ≡ err e
        → from ≤ mid
        → mid < to
        → Resolves from mid front m
        → Resolves (mid + 1) to back n
        → Resolves from to (front ++ back) (m + n)

  pub data ResolvesAll : List (ℕ × ℕ) → List Log → ℕ → Type (ℓ ⊔ κ) where
    none_left : ResolvesAll [] [] 0
    next_range :
        {from to : ℕ} {rs : List (ℕ × ℕ)} {front back : List Log} {m n : ℕ}
        → Resolves from to front m
        → ResolvesAll rs back n
        → ResolvesAll ((from, to) ∷ rs) (front ++ back) (m + n)

  pub record Done (pending : List (ℕ × ℕ)) (p q : Progress Log) : Type (ℓ ⊔ κ) where
    pub logs : List Log
    pub lost_here : ℕ
    pub resolved : ResolvesAll pending logs lost_here
    pub handled_eq : q.handled ≡ p.handled ++ logs
    pub count_eq : q.handled_logs ≡ p.handled_logs + length logs
    pub lost_eq : q.lost_blocks ≡ p.lost_blocks + lost_here

  Done-nil : (p : Progress Log) → Done [] p p
  Done-nil p = record {
    logs = [];
    lost_here = 0;
    resolved = none_left;
    handled_eq = simp append-nil;
    count_eq = omega arith;
    lost_eq = omega arith;
  }

  Done-whole :
      (from to call : ℕ) (batch : List Log) (rs : List (ℕ × ℕ)) (p q : Progress Log)
      → fetch call from to ≡ ok batch
      → Done rs (handle_batch batch p) q
      → Done ((from, to) ∷ rs) p q
  Done-whole from to call batch rs p q e d =
      let (logs, count, same_lost) = handled-handle_batch batch p in
      record {
        logs = batch ++ d.logs;
        lost_here = 0 + d.lost_here;
        resolved = next_range (whole call e) d.resolved;
        handled_eq = d.handled_eq ∙ rw logs (append_assoc p.handled batch d.logs);
        count_eq = omega (arith, d.count_eq, length-append batch d.logs);
        lost_eq = omega (arith, d.lost_eq);
      }

  Done-lost :
      (from to call : ℕ) (e : Error) (rs : List (ℕ × ℕ)) (p q : Progress Log)
      → from ≡ to
      → fetch call from to ≡ err e
      → Done rs (record p { lost_blocks = p.lost_blocks + 1 }) q
      → Done ((from, to) ∷ rs) p q
  Done-lost from to call e rs p q same failed d = record {
    logs = d.logs;
    lost_here = 1 + d.lost_here;
    resolved = next_range (lost call same failed) d.resolved;
    handled_eq = d.handled_eq;
    count_eq = d.count_eq;
    lost_eq = omega (arith, d.lost_eq);
  }

  Resolves-split :
      (from mid to call : ℕ) {e : Error} (rs : List (ℕ × ℕ)) {logs : List Log} {n : ℕ}
      → fetch call from to ≡ err e
      → from ≤ mid
      → mid < to
      → ResolvesAll ((from, mid) ∷ (mid + 1, to) ∷ rs) logs n
      → ResolvesAll ((from, to) ∷ rs) logs n
  Resolves-split from mid to call rs failed h k
        (next_range {front = x} {m = i} a (next_range {front = y} {back = z} {m = j} {n = l} b r)) =
      rw (← append_assoc x y z, ← add_assoc i j l) (next_range (split mid call failed h k a b) r)

  Done-split :
      (from mid to call : ℕ) {e : Error} (rs : List (ℕ × ℕ)) (p q : Progress Log)
      → fetch call from to ≡ err e
      → from ≤ mid
      → mid < to
      → Done ((from, mid) ∷ (mid + 1, to) ∷ rs) p q
      → Done ((from, to) ∷ rs) p q
  Done-split from mid to call rs p q failed h k d = record {
    logs = d.logs;
    lost_here = d.lost_here;
    resolved = Resolves-split from mid to call rs failed h k d.resolved;
    handled_eq = d.handled_eq;
    count_eq = d.count_eq;
    lost_eq = d.lost_eq;
  }

  bisect_loop_split :
      (fuel call from to : ℕ) {e : Error} (rs : List (ℕ × ℕ)) (p : Progress Log)
      → to < u64_modulus
      → fetch call from to ≡ err e
      → ltb from to ≡ true
      → bisect_loop fetch (suc fuel) call ((from, to) ∷ rs) p
        ≡ bisect_loop fetch fuel
            (call + 1)
            ((from, midpoint from to) ∷ (midpoint from to + 1, to) ∷ rs)
            p
  unfolding bisect_loop
  bisect_loop_split fuel call from to rs p b failed wide =
      let (h, k, one) = midpoint_bounds from to b (ltb→lt from to wide) in
      rw (failed, wide, one, bisect_loop)

  pub bisect_loop-Done :
      (fuel call : ℕ) (pending : List (ℕ × ℕ)) (p : Progress Log)
      → All IsRange pending
      → weight pending < fuel
      → (q : Progress Log) × (bisect_loop fetch fuel call pending p ≡ some q) × Done pending p q
  unfolding bisect_loop
  bisect_loop-Done zero call pending p v w = absurd (omega arith)
  bisect_loop-Done (suc fuel) call [] p v w = (p, refl, Done-nil p)
  bisect_loop-Done (suc fuel) call ((from, to) ∷ rs) p v w =
      elim (Result-cases (fetch call from to)) [
        | inl (batch, e) ↦
            let (q, found, d) =
              bisect_loop-Done fuel (call + 1) rs (handle_batch batch p) v.1 (omega arith) in
            (q, rw (e, bisect_loop) found, Done-whole from to call batch rs p q e d)
        | inr (e, failed) ↦ elim (Bool-cases (ltb from to)) [
          | inl wide ↦
              let (h, k, one) = midpoint_bounds from to v.0.1 (ltb→lt from to wide) in
              let mid = midpoint from to in
              let (q, found, d) =
                bisect_loop-Done fuel (call + 1) ((from, mid) ∷ (mid + 1, to) ∷ rs) p
                  ((omega arith, omega arith), ((omega arith, omega arith), v.1)) (omega arith) in
              (
                q,
                bisect_loop_split fuel call from to rs p v.0.1 failed wide ∙ found,
                Done-split from mid to call rs p q failed h k d,
              )
          | inr single ↦
              let same : from ≡ to = ground arith in
              let (q, found, d) =
                bisect_loop-Done fuel (call + 1) rs (record p { lost_blocks = p.lost_blocks + 1 })
                  v.1 (omega arith) in
              (
                q,
                rw (failed, single, bisect_loop) found,
                Done-lost from to call e rs p q same failed d,
              )
        ]
      ]

  -- Two rounds for each block of a range are enough.
  pub fetch_range_with_bisect_total :
      (from to : ℕ)
      → from ≤ to
      → to < u64_modulus
      → (q : Progress Log) × (fetch_range_with_bisect fetch (2 * (to + 1 - from)) from to ≡ some q)
  unfolding fetch_range_with_bisect
  fetch_range_with_bisect_total from to h b =
      let (q, found, d) =
        bisect_loop-Done (2 * (to + 1 - from)) 0 ((from, to) ∷ []) start ((h, b), tt)
          (omega arith) in
      (q, found)
