-- ===== src/Base/Map/Laws.antt =====
-- Sums and predicates over the entries of a map, and distinct keys.
use Prim.Native.Nat.{ℕ, ◌+◌}
use mathlib.Core.Path.{◌≡◌, refl, subst, sym}
use mathlib.Core.Logic.{inl, inr}
use mathlib.Core.Bool.{Bool}
use mathlib.Core.Option.{Option, none, some}
use mathlib.Core.List.{List, [], ◌∷◌}
use native.Mathlib.Omega.{arith}
use balances_watcher.Base.Tests.{Eq, ◌==◌, if◌then◌else◌, Bool-cases, ==-self}
use balances_watcher.Base.Lists.{sum_of, All}
use balances_watcher.Base.Map.{lookup, insert, retain, lookup-insert}

abbrev pub kept_if {κ} : {V : Type κ} → (V → Bool) → Option V → Option V
kept_if p none = none
kept_if p (some v) = if p v then some v else none

module _ {ℓ κ} {K : Type ℓ} {V : Type κ} ⦃e : Eq K⦄ where
  pub sum_of-insert_new :
      (f : K × V → ℕ) (k : K) (v : V) (m : List (K × V))
      → lookup k m ≡ none
      → sum_of f (insert k v m) ≡ sum_of f m + f (k, v)
  unfolding lookup insert
  sum_of-insert_new f k v [] h = omega arith
  sum_of-insert_new f k v ((j, w) ∷ m) h = elim (Bool-cases (j == k)) [
    | inl here ↦ absurd (ground arith)
    | inr other ↦ rw other (omega (arith, sum_of-insert_new f k v m (rw other at h)))
  ]

  pub sum_of-insert_old :
      (f : K × V → ℕ) (k : K) (v w : V) (m : List (K × V))
      → lookup k m ≡ some w
      → sum_of f (insert k v m) + f (k, w) ≡ sum_of f m + f (k, v)
  unfolding lookup insert
  sum_of-insert_old f k v w [] h = cc
  sum_of-insert_old f k v w ((j, x) ∷ m) h = elim (Bool-cases (j == k)) [
    | inl here ↦
        let same : j ≡ k = (e.beq_iff j k).0 here in
        let stored : x ≡ w = ground arith in rw (here, same, stored) (omega arith)
    | inr other ↦ rw other (omega (arith, sum_of-insert_old f k v w m (rw other at h)))
  ]

  pub All-insert {ν} :
      (P : K × V → Type ν) (k : K) (v : V) (m : List (K × V))
      → All P m
      → P (k, v)
      → All P (insert k v m)
  unfolding insert
  All-insert P k v [] a p = (p, tt)
  All-insert P k v ((j, w) ∷ m) a p = elim (Bool-cases (j == k)) [
    | inl here ↦ rw here (subst (λ x. P (x, v)) (sym ((e.beq_iff j k).0 here)) p, a.1)
    | inr other ↦ rw other (a.0, All-insert P k v m a.1 p)
  ]

  pub All-lookup {ν} :
      (P : K × V → Type ν) (k : K) (v : V) (m : List (K × V))
      → All P m
      → lookup k m ≡ some v
      → P (k, v)
  unfolding lookup
  All-lookup P k v [] a h = cc
  All-lookup P k v ((j, w) ∷ m) a h = elim (Bool-cases (j == k)) [
    | inl here ↦
        let stored : w ≡ v = ground arith in
        subst (λ x. P (x, v)) ((e.beq_iff j k).0 here) (subst (λ x. P (j, x)) stored a.0)
    | inr other ↦ All-lookup P k v m a.1 (rw other at h)
  ]

  -- No key occurs twice.
  abbrev pub Distinct : List (K × V) → Type κ
  Distinct [] = Unit
  Distinct ((k, v) ∷ m) = (lookup k m ≡ none) × Distinct m

  pub Distinct-insert : (k : K) (v : V) (m : List (K × V)) → Distinct m → Distinct (insert k v m)
  unfolding insert lookup
  Distinct-insert k v [] d = (refl, tt)
  Distinct-insert k v ((j, w) ∷ m) d = elim (Bool-cases (j == k)) [
    | inl here ↦ rw here d
    | inr other ↦ rw other (
      ground (arith, lookup-insert k j v m, e.beq_iff j k, e.beq_iff k j),
      Distinct-insert k v m d.1,
    )
  ]

  lookup-retain_absent :
      (p : K → V → Bool) (k : K) (m : List (K × V))
      → lookup k m ≡ none
      → lookup k (retain p m) ≡ none
  unfolding lookup retain
  lookup-retain_absent p k [] h = refl
  lookup-retain_absent p k ((j, w) ∷ m) h = ground (arith, lookup-retain_absent p k m)

  pub Distinct-retain : (p : K → V → Bool) (m : List (K × V)) → Distinct m → Distinct (retain p m)
  unfolding retain
  Distinct-retain p [] d = tt
  Distinct-retain p ((j, w) ∷ m) d = elim (Bool-cases (p j w)) [
    | inl keep ↦ rw keep (lookup-retain_absent p j m d.0, Distinct-retain p m d.1)
    | inr drop ↦ rw drop (Distinct-retain p m d.1)
  ]

  pub lookup-retain :
      (p : K → V → Bool) (k : K) (m : List (K × V))
      → Distinct m
      → lookup k (retain p m) ≡ kept_if (p k) (lookup k m)
  unfolding lookup retain
  lookup-retain p k [] d = refl
  lookup-retain p k ((j, w) ∷ m) d = elim (Bool-cases (j == k)) [
    | inl here ↦
        let same : j ≡ k = (e.beq_iff j k).0 here in
        ground (arith, same, lookup-retain_absent p j m, lookup-retain p k m d.1, ==-self j)
    | inr other ↦ ground (arith, lookup-retain p k m d.1)
  ]

  pub sum_of-retain :
      (f : K × V → ℕ) (p : K → V → Bool) (m : List (K × V))
      → sum_of f m ≡ sum_of f (retain p m) + sum_of (λ x. if p x.0 x.1 then 0 else f x) m
  unfolding retain
  sum_of-retain f p [] = omega arith
  sum_of-retain f p ((j, w) ∷ m) = elim (Bool-cases (p j w)) [
    | inl keep ↦ rw keep (omega (arith, sum_of-retain f p m))
    | inr drop ↦ rw drop (omega (arith, sum_of-retain f p m))
  ]

  pub All-retain {ν} :
      (P : K × V → Type ν) (p : K → V → Bool) (m : List (K × V)) → All P m → All P (retain p m)
  unfolding retain
  All-retain P p [] a = tt
  All-retain P p ((j, w) ∷ m) a = elim (Bool-cases (p j w)) [
    | inl keep ↦ rw keep (a.0, All-retain P p m a.1)
    | inr drop ↦ rw drop (All-retain P p m a.1)
  ]
