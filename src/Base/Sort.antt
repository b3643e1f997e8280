-- ===== src/Base/Sort.antt =====
-- `sort` of numbers, as insertion sort, and `chunks` of a slice.
use Prim.Native.Nat.{ℕ, zero, suc, ◌-◌, ◌≤◌}
use mathlib.Core.Path.{◌≡◌, refl, ap, ◌∙◌}
use mathlib.Core.Logic.{inl, inr}
use mathlib.Core.List.{Memᴰ, List, [], ◌∷◌, ◌++◌, Permᴰ}
use mathlib.Core.List.Permᴰ
use native.Mathlib.Omega.{arith}
use balances_watcher.Base.Tests.{leb, if◌then◌else◌, Bool-cases}
use balances_watcher.Base.Lists.{length, All}

unfoldable pub insert_sorted : ℕ → List ℕ → List ℕ
insert_sorted a [] = a ∷ []
insert_sorted a (x ∷ xs) = if leb a x then a ∷ x ∷ xs else x ∷ insert_sorted a xs

unfoldable pub sort : List ℕ → List ℕ
unfolding insert_sorted
sort [] = []
sort (x ∷ xs) = insert_sorted x (sort xs)

insert_sorted-perm : (a : ℕ) (xs : List ℕ) → Permᴰ (insert_sorted a xs) (a ∷ xs)
unfolding insert_sorted
insert_sorted-perm a [] = Permᴰ.refl (a ∷ [])
insert_sorted-perm a (x ∷ xs) = elim (Bool-cases (leb a x)) [
  | inl front ↦ rw front (Permᴰ.refl (a ∷ x ∷ xs))
  | inr behind ↦
      rw behind (Permᴰ.trans (Permᴰ.cons refl (insert_sorted-perm a xs)) (Permᴰ.swap refl refl))
]

pub sort-perm : (xs : List ℕ) → Permᴰ (sort xs) xs
unfolding sort
sort-perm [] = Permᴰ.nil
sort-perm (x ∷ xs) = Permᴰ.trans (insert_sorted-perm x (sort xs)) (Permᴰ.cons refl (sort-perm xs))

module _ {ℓ} {A : Type ℓ} where
  abbrev pub take : ℕ → List A → List A
  take zero xs = []
  take (suc n) [] = []
  take (suc n) (x ∷ xs) = x ∷ take n xs

  abbrev pub drop : ℕ → List A → List A
  drop zero xs = xs
  drop (suc n) [] = []
  drop (suc n) (x ∷ xs) = drop n xs

  abbrev pub concat : List (List A) → List A
  concat [] = []
  concat (xs ∷ xss) = xs ++ concat xss

  -- The fuel bounds the number of chunks; the length of the slice is enough.
  unfoldable pub chunks_from : ℕ → ℕ → List A → List (List A)
  chunks_from zero size xs = []
  chunks_from (suc fuel) size [] = []
  chunks_from (suc fuel) size (x ∷ xs) =
      take size (x ∷ xs) ∷ chunks_from fuel size (drop size (x ∷ xs))

  unfoldable pub chunks : ℕ → List A → List (List A)
  unfolding chunks_from
  chunks size xs = chunks_from (length xs) size xs

  take-append-drop : (n : ℕ) (xs : List A) → take n xs ++ drop n xs ≡ xs
  take-append-drop zero xs = refl
  take-append-drop (suc n) [] = refl
  take-append-drop (suc n) (x ∷ xs) = ap (◌∷◌ x) (take-append-drop n xs)

  length-drop_le : (n : ℕ) (xs : List A) → length (drop n xs) ≤ length xs - n
  length-drop_le zero xs = omega arith
  length-drop_le (suc n) [] = omega arith
  length-drop_le (suc n) (x ∷ xs) = omega (arith, length-drop_le n xs)

  length-take_le : (n : ℕ) (xs : List A) → length (take n xs) ≤ n
  length-take_le zero xs = omega arith
  length-take_le (suc n) [] = omega arith
  length-take_le (suc n) (x ∷ xs) = omega (arith, length-take_le n xs)

  concat-chunks_from :
      (fuel n : ℕ) (xs : List A) → length xs ≤ fuel → concat (chunks_from fuel (suc n) xs) ≡ xs
  unfolding chunks_from
  concat-chunks_from zero n [] h = refl
  concat-chunks_from zero n (x ∷ xs) h = absurd (omega arith)
  concat-chunks_from (suc fuel) n [] h = refl
  concat-chunks_from (suc fuel) n (x ∷ xs) h =
      rw (concat-chunks_from fuel n (drop n xs) (omega (arith, length-drop_le n xs)))
        (ap (◌∷◌ x) (take-append-drop n xs))

  chunks_from-sizes :
      (fuel n : ℕ) (xs : List A)
      → All (λ chunk. (1 ≤ length chunk) × (length chunk ≤ suc n)) (chunks_from fuel (suc n) xs)
  unfolding chunks_from
  chunks_from-sizes zero n xs = tt
  chunks_from-sizes (suc fuel) n [] = tt
  chunks_from-sizes (suc fuel) n (x ∷ xs) =
      ((omega arith, omega (arith, length-take_le n xs)), chunks_from-sizes fuel n (drop n xs))

  pub concat-chunks : (n : ℕ) (xs : List A) → concat (chunks (suc n) xs) ≡ xs
  unfolding chunks
  concat-chunks n xs = concat-chunks_from (length xs) n xs (omega arith)

  pub chunks-sizes :
      (n : ℕ) (xs : List A)
      → All (λ chunk. (1 ≤ length chunk) × (length chunk ≤ suc n)) (chunks (suc n) xs)
  unfolding chunks
  chunks-sizes n xs = chunks_from-sizes (length xs) n xs

module _ {ℓ} {A : Type ℓ} where
  pub perm_mem : {a : A} {xs ys : List A} → Permᴰ xs ys → Memᴰ a xs → Memᴰ a ys
  perm_mem Permᴰ.nil m = m
  perm_mem (Permᴰ.cons e p) (Memᴰ.head here) = Memᴰ.head (here ∙ e)
  perm_mem (Permᴰ.cons e p) (Memᴰ.tail m) = Memᴰ.tail (perm_mem p m)
  perm_mem (Permᴰ.swap e f) (Memᴰ.head here) = Memᴰ.tail (Memᴰ.head (here ∙ e))
  perm_mem (Permᴰ.swap e f) (Memᴰ.tail (Memᴰ.head here)) = Memᴰ.head (here ∙ f)
  perm_mem (Permᴰ.swap e f) (Memᴰ.tail (Memᴰ.tail m)) = Memᴰ.tail (Memᴰ.tail m)
  perm_mem (Permᴰ.trans p q) m = perm_mem q (perm_mem p m)
