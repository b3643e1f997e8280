-- ===== src/Dispatcher/Plan/Newest.antt =====
-- The newest of the drained heads, beside the greatest number of a list.
use balances_watcher.Base.{
  ℕ, ◌+◌, ◌<◌, max, ◌≡◌, refl, sym, ap, ◌∙◌, List, [], ◌∷◌, ◌++◌, arith, All,
}
use balances_watcher.Dispatcher.Plan.{drain_queued_heads}

-- The greatest of a number and those of a list.
abbrev pub greatest : ℕ → List ℕ → ℕ
greatest n [] = n
greatest n (x ∷ xs) = max x (greatest n xs)

greatest-max : (m n : ℕ) (xs : List ℕ) → max m (greatest n xs) ≡ greatest (max m n) xs
greatest-max m n [] = refl
greatest-max m n (x ∷ xs) = omega (arith, greatest-max m n xs)

pub greatest-swap : (m n : ℕ) (xs : List ℕ) → max m (greatest n xs) ≡ max n (greatest m xs)
greatest-swap m n [] = omega arith
greatest-swap m n (x ∷ xs) = omega (arith, greatest-swap m n xs)

pub greatest-append : (n : ℕ) (xs ys : List ℕ) → greatest (greatest n xs) ys ≡ greatest n (xs ++ ys)
greatest-append n [] ys = refl
greatest-append n (x ∷ xs) ys =
    sym (greatest-max x (greatest n xs) ys) ∙ ap (max x) (greatest-append n xs ys)

pub drain_queued_heads-greatest :
    (rx : List ℕ) (newest drained : ℕ)
    → (drain_queued_heads rx newest drained).0 ≡ greatest newest rx
unfolding drain_queued_heads
drain_queued_heads-greatest [] newest drained = refl
drain_queued_heads-greatest (q ∷ rx) newest drained =
    drain_queued_heads-greatest rx (max newest q) (drained + 1)
    ∙ sym (greatest-max newest q rx)
    ∙ greatest-swap newest q rx

pub greatest-bound :
    (chunk bound n : ℕ) (xs : List ℕ)
    → n + chunk < bound
    → All (λ x. x + chunk < bound) xs
    → greatest n xs + chunk < bound
greatest-bound chunk bound n [] b a = b
greatest-bound chunk bound n (x ∷ xs) b a =
    omega (arith, a.0, greatest-bound chunk bound n xs b a.1)

pub All-split : (P : ℕ → Type 0) (xs ys : List ℕ) → All P (xs ++ ys) → All P xs × All P ys
All-split P [] ys a = (tt, a)
All-split P (x ∷ xs) ys (here, later) =
    let (front, back) = All-split P xs ys later in ((here, front), back)
