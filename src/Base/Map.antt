-- ===== src/Base/Map.antt =====
-- `HashMap` as an association list. The order of the list stands for the unspecified order of
-- iteration, so nothing that is proved may depend on it.
pub mod Laws
use balances_watcher.Base.Tests.{Eq, ◌==◌, if◌then◌else◌, ==-self}
use mathlib.Core.Path.{◌≡◌, refl}
use mathlib.Core.Logic.{◌≢◌}
use mathlib.Core.Bool.{Bool}
use mathlib.Core.Option.{Option, none, some}
use mathlib.Core.List.{List, [], ◌∷◌}
use native.Mathlib.Omega.{arith}

module _ {ℓ κ} {K : Type ℓ} {V : Type κ} ⦃e : Eq K⦄ where
  unfoldable pub lookup : K → List (K × V) → Option V
  lookup k [] = none
  lookup k ((j, v) ∷ m) = if j == k then some v else lookup k m

  -- `retain`: the entries that pass the test.
  unfoldable pub retain : (K → V → Bool) → List (K × V) → List (K × V)
  retain p [] = []
  retain p ((j, v) ∷ m) = if p j v then (j, v) ∷ retain p m else retain p m

  -- Overwrites the value of a key that is there, in its place.
  unfoldable pub insert : K → V → List (K × V) → List (K × V)
  insert k v [] = (k, v) ∷ []
  insert k v ((j, w) ∷ m) = if j == k then (j, v) ∷ m else (j, w) ∷ insert k v m

  pub lookup-insert :
      (new k : K) (value : V) (m : List (K × V))
      → lookup k (insert new value m) ≡ (if new == k then some value else lookup k m)
  unfolding insert lookup
  lookup-insert new k value [] = refl
  lookup-insert new k value ((first, w) ∷ m) =
      ground (
        arith,
        e.beq_iff new k,
        e.beq_iff first new,
        e.beq_iff first k,
        lookup-insert new k value m,
      )

  pub lookup-insert_self : (k : K) (v : V) (m : List (K × V)) → lookup k (insert k v m) ≡ some v
  lookup-insert_self k v m = rw (lookup-insert k k v m, ==-self k)

  pub lookup-insert_ne :
      (k j : K) (v : V) (m : List (K × V)) → k ≢ j → lookup j (insert k v m) ≡ lookup j m
  lookup-insert_ne k j v m h = ground (arith, lookup-insert k j v m, e.beq_iff k j)
