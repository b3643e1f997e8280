-- ===== src/Base/Lists.antt =====
-- Lists measured by native numbers, and predicates over their entries.
use Prim.Native.Nat.{ℕ, suc, ◌+◌, ◌≤◌}
use mathlib.Core.Path.{◌≡◌, refl}
use mathlib.Core.Bool.{Bool, true, false, ◌&&◌}
use mathlib.Core.List.{Memᴰ, List, [], ◌∷◌, ◌++◌}
use native.Mathlib.Omega.{arith}
use balances_watcher.Base.Tests.{if◌then◌else◌, Bool-cases}
use mathlib.Core.Logic.{◌⊎◌, inl, inr}

module _ {ℓ} {A : Type ℓ} where
  abbrev pub length : List A → ℕ
  length [] = 0
  length (x ∷ xs) = suc (length xs)

  abbrev pub is_empty : List A → Bool
  is_empty [] = true
  is_empty (x ∷ xs) = false

  -- The entries that pass a test, in order.
  abbrev pub keep_if : (A → Bool) → List A → List A
  keep_if p [] = []
  keep_if p (x ∷ xs) = if p x then x ∷ keep_if p xs else keep_if p xs

  abbrev pub all : (A → Bool) → List A → Bool
  all p [] = true
  all p (x ∷ xs) = p x && all p xs

  abbrev pub sum_of : (A → ℕ) → List A → ℕ
  sum_of f [] = 0
  sum_of f (x ∷ xs) = f x + sum_of f xs

  abbrev pub All {κ} : (A → Type κ) → List A → Type κ
  All P [] = Unit
  All P (x ∷ xs) = P x × All P xs

  pub length-append : (xs ys : List A) → length (xs ++ ys) ≡ length xs + length ys
  length-append [] ys = omega arith
  length-append (x ∷ xs) ys = omega (arith, length-append xs ys)

  pub sum_of-append : (f : A → ℕ) (xs ys : List A) → sum_of f (xs ++ ys) ≡ sum_of f xs + sum_of f ys
  sum_of-append f [] ys = omega arith
  sum_of-append f (x ∷ xs) ys = omega (arith, sum_of-append f xs ys)

  pub All-append {κ} :
      (P : A → Type κ) (front back : List A) → All P front → All P back → All P (front ++ back)
  All-append P [] back none_there held = held
  All-append P (first ∷ front) back (here, later) held = (here, All-append P front back later held)

  pub length-keep_if-le : (p : A → Bool) (xs : List A) → length (keep_if p xs) ≤ length xs
  length-keep_if-le p [] = omega arith
  length-keep_if-le p (x ∷ xs) = ground (arith, length-keep_if-le p xs)

module _ {ℓ} {A : Type ℓ} where
  pub mem_left : {x : A} (xs ys : List A) → Memᴰ x xs → Memᴰ x (xs ++ ys)
  mem_left [] ys m = elim m [ ]
  mem_left (y ∷ xs) ys (Memᴰ.head e) = Memᴰ.head e
  mem_left (y ∷ xs) ys (Memᴰ.tail m) = Memᴰ.tail (mem_left xs ys m)

  pub mem_right : {x : A} (xs ys : List A) → Memᴰ x ys → Memᴰ x (xs ++ ys)
  mem_right [] ys m = m
  mem_right (y ∷ xs) ys m = Memᴰ.tail (mem_right xs ys m)

  pub mem_split : {x : A} (xs ys : List A) → Memᴰ x (xs ++ ys) → Memᴰ x xs ⊎ Memᴰ x ys
  mem_split [] ys m = inr m
  mem_split (y ∷ xs) ys (Memᴰ.head e) = inl (Memᴰ.head e)
  mem_split (y ∷ xs) ys (Memᴰ.tail m) = elim (mem_split xs ys m) [
    | inl there ↦ inl (Memᴰ.tail there)
    | inr behind ↦ inr behind
  ]

  mem_if :
      (b : Bool) (a x : A) (xs : List A)
      → Memᴰ a (if b then x ∷ xs else xs)
      → ((b ≡ true) × (a ≡ x)) ⊎ Memᴰ a xs
  mem_if true a x xs (Memᴰ.head e) = inl (refl, e)
  mem_if true a x xs (Memᴰ.tail m) = inr m
  mem_if false a x xs m = inr m

  pub mem-keep_if :
      (p : A → Bool) (a : A) (xs : List A) → Memᴰ a (keep_if p xs) → Memᴰ a xs × (p a ≡ true)
  mem-keep_if p a [] m = elim m [ ]
  mem-keep_if p a (x ∷ xs) m = elim (mem_if (p x) a x (keep_if p xs) m) [
    | inl (keep, e) ↦ (Memᴰ.head e, rw e keep)
    | inr behind ↦ let (there, passes) = mem-keep_if p a xs behind in (Memᴰ.tail there, passes)
  ]

  pub keep_if-mem :
      (p : A → Bool) (a : A) (xs : List A) → Memᴰ a xs → p a ≡ true → Memᴰ a (keep_if p xs)
  keep_if-mem p a [] m passes = elim m [ ]
  keep_if-mem p a (x ∷ xs) (Memᴰ.head e) passes =
      let keep : p x ≡ true = rw (← e) passes in rw keep (Memᴰ.head e)
  keep_if-mem p a (x ∷ xs) (Memᴰ.tail m) passes = elim (Bool-cases (p x)) [
    | inl keep ↦ rw keep (Memᴰ.tail (keep_if-mem p a xs m passes))
    | inr drop ↦ rw drop (keep_if-mem p a xs m passes)
  ]

  pub one-le-length : (xs : List A) → is_empty xs ≡ false → 1 ≤ length xs
  one-le-length [] h = absurd (ground arith)
  one-le-length (x ∷ xs) h = omega arith

  pub is_empty-not_mem : (a : A) (xs : List A) → is_empty xs ≡ true → Memᴰ a xs → ⊥
  is_empty-not_mem a [] h m = elim m [ ]
  is_empty-not_mem a (x ∷ xs) h m = absurd (ground arith)
