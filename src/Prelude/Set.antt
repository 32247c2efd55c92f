-- ===== src/Prelude/Set.antt =====
-- `HashSet` as a list without an order that the program relies on.
use mathlib.Core.Path.{◌≡◌, refl}
use mathlib.Core.Bool.{Bool, false, ◌||◌, ◌&&◌, not}
use mathlib.Core.List.{List, [], ◌∷◌}
use native.Mathlib.Omega.{arith}
use plasmoid.Prelude.Tests.{Eq, ◌==◌, if◌then◌else◌, beq_refl}

module _ {ℓ} {K : Type ℓ} ⦃e : Eq K⦄ where
  unfoldable pub contains : K → List K → Bool
  contains k [] = false
  contains k (j ∷ s) = j == k || contains k s

  unfoldable pub remove : K → List K → List K
  remove k [] = []
  remove k (j ∷ s) = let rest = remove k s in if j == k then rest else j ∷ rest

  unfoldable pub insert : K → List K → List K
  unfolding contains
  insert k s = if contains k s then s else k ∷ s

  pub contains-remove :
      (k j : K) (s : List K) → contains j (remove k s) ≡ (not (k == j) && contains j s)
  unfolding contains remove
  contains-remove k j [] = ground arith
  contains-remove k j (i ∷ s) =
      ground (arith, contains-remove k j s, e.beq_iff i k, e.beq_iff i j, e.beq_iff k j)

  pub contains-insert : (k j : K) (s : List K) → contains j (insert k s) ≡ (k == j || contains j s)
  unfolding insert contains
  contains-insert k j s = ground (arith, e.beq_iff k j)

  -- A set that contains nothing is empty.
  pub contains-empty : (s : List K) → ((k : K) → contains k s ≡ false) → s ≡ []
  unfolding contains
  contains-empty [] h = refl
  contains-empty (j ∷ s) h = absurd (ground (arith, h j, beq_refl j))

pub ruleset set_laws = (contains-insert, contains-remove)
