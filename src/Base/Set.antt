-- ===== src/Base/Set.antt =====
-- `HashSet` as a list, of which only the membership of a value is read.
use balances_watcher.Base.Tests.{Eq, ◌==◌, if◌then◌else◌, Bool-cases}
use balances_watcher.Base.Lists.{all}
use mathlib.Core.Path.{◌≡◌, sym}
use mathlib.Core.Logic.{inl, inr}
use mathlib.Core.Bool.{Bool, true, false, ◌&&◌, ◌||◌}
use mathlib.Core.List.{Memᴰ, List, [], ◌∷◌}
use native.Mathlib.Omega.{arith}

module _ {ℓ} {A : Type ℓ} ⦃e : Eq A⦄ where
  unfoldable pub contains : A → List A → Bool
  contains a [] = false
  contains a (x ∷ xs) = x == a || contains a xs

  -- Adds a value once.
  unfoldable pub insert : A → List A → List A
  insert a xs = if contains a xs then xs else a ∷ xs

  unfoldable pub remove : A → List A → List A
  remove a [] = []
  remove a (x ∷ xs) = if x == a then remove a xs else x ∷ remove a xs

  -- `extend`: every value of a sequence is inserted.
  unfoldable pub extend : List A → List A → List A
  extend xs [] = xs
  extend xs (y ∷ ys) = extend (insert y xs) ys

  unfoldable pub is_subset : List A → List A → Bool
  is_subset xs ys = all (λ x. contains x ys) xs

  -- `==` of two sets.
  unfoldable pub same : List A → List A → Bool
  unfolding is_subset
  same xs ys = is_subset xs ys && is_subset ys xs

  pub contains-insert :
      (a b : A) (xs : List A) → contains b (insert a xs) ≡ (a == b || contains b xs)
  unfolding insert contains
  contains-insert a b xs = elim (Bool-cases (contains a xs)) [
    | inl old ↦ elim (Bool-cases (a == b)) [
      | inl eq ↦ ground (arith, e.beq_iff a b)
      | inr ne ↦ ground arith
    ]
    | inr new ↦ ground arith
  ]

  pub contains-remove :
      (a b : A) (xs : List A) → contains b (remove a xs) ≡ (if a == b then false else contains b xs)
  unfolding remove contains
  contains-remove a b [] = ground arith
  contains-remove a b (x ∷ xs) =
      ground (arith, e.beq_iff a b, e.beq_iff x a, e.beq_iff x b, contains-remove a b xs)

  pub contains-extend :
      (b : A) (xs ys : List A) → contains b (extend xs ys) ≡ (contains b xs || contains b ys)
  unfolding extend contains
  contains-extend b xs [] = ground arith
  contains-extend b xs (y ∷ ys) =
      ground (arith, contains-extend b (insert y xs) ys, contains-insert y b xs)

  contains_of_subset :
      (a : A) (xs ys : List A)
      → is_subset xs ys ≡ true
      → contains a xs ≡ true
      → contains a ys ≡ true
  unfolding is_subset contains
  contains_of_subset a [] ys h m = cc
  contains_of_subset a (x ∷ xs) ys h m = ground (arith, e.beq_iff x a, contains_of_subset a xs ys)

  -- Equal sets have the same members.
  pub contains-same : (a : A) (xs ys : List A) → same xs ys ≡ true → contains a xs ≡ contains a ys
  unfolding same
  contains-same a xs ys h = ground (arith, contains_of_subset a xs ys, contains_of_subset a ys xs)

  pub contains_of_mem : (a : A) (xs : List A) → Memᴰ a xs → contains a xs ≡ true
  unfolding contains
  contains_of_mem a [] m = elim m [ ]
  contains_of_mem a (x ∷ xs) (Memᴰ.head here) = ground (arith, (e.beq_iff x a).1 (sym here))
  contains_of_mem a (x ∷ xs) (Memᴰ.tail m) = ground (arith, contains_of_mem a xs m)

  pub mem_of_contains : (a : A) (xs : List A) → contains a xs ≡ true → Memᴰ a xs
  unfolding contains
  mem_of_contains a [] h = absurd (ground arith)
  mem_of_contains a (x ∷ xs) h = elim (Bool-cases (x == a)) [
    | inl here ↦ Memᴰ.head (sym ((e.beq_iff x a).0 here))
    | inr other ↦ Memᴰ.tail (mem_of_contains a xs (ground (arith, other, h)))
  ]
