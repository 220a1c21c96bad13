-- ===== src/Base/Dict/Sum.antt =====
-- Sums over the values of a dictionary, whose keys are distinct.
use mathlib.Core.Logic.{inl, inr}
use agentfork.Base.Tests.{Bool-cases}
use agentfork.Base.Text.{same, same→eq, same_refl}
use agentfork.Base.Dict.{Dict, lookup, insert, erase, lookup-insert, lookup-erase}
use Prim.Native.Nat.{ℕ, ◌+◌}
use Prim.Native.String.{String}
use mathlib.Core.Path.{◌≡◌, refl}
use mathlib.Core.Option.{none, some}
use mathlib.Core.List.{[], ◌∷◌}
use native.Mathlib.Omega.{arith}

module _ {ℓ} {V : Type ℓ} where
  -- No key is listed twice.
  abbrev pub IsUnique : Dict V → Type ℓ
  IsUnique [] = Unit
  IsUnique ((k, v) ∷ d) = (lookup k d ≡ none) × IsUnique d

  pub insert-IsUnique : (k : String) (v : V) (d : Dict V) → IsUnique d → IsUnique (insert k v d)
  unfolding insert lookup
  insert-IsUnique k v [] u = (refl, tt)
  insert-IsUnique k v ((j, w) ∷ d) u = ground (
    arith,
    insert-IsUnique k v d u.1,
    lookup-insert k j v d,
    same→eq j k,
    same→eq k j,
    same_refl k,
  )

  pub erase_absent : (k : String) (d : Dict V) → lookup k d ≡ none → erase k d ≡ d
  unfolding erase lookup
  erase_absent k [] h = refl
  erase_absent k ((j, w) ∷ d) h = ground (arith, erase_absent k d)

  pub erase-IsUnique : (k : String) (d : Dict V) → IsUnique d → IsUnique (erase k d)
  unfolding erase lookup
  erase-IsUnique k [] u = tt
  erase-IsUnique k ((j, w) ∷ d) u = ground (arith, erase-IsUnique k d u.1, lookup-erase k j d)

module _ {ℓ} {V : Type ℓ} (f : V → ℕ) where
  unfoldable pub sum : Dict V → ℕ
  sum [] = 0
  sum ((k, v) ∷ d) = f v + sum d

  pub sum-insert_new :
      (k : String) (v : V) (d : Dict V) → lookup k d ≡ none → sum (insert k v d) ≡ sum d + f v
  unfolding sum insert lookup
  sum-insert_new k v [] h = omega arith
  sum-insert_new k v ((j, w) ∷ d) h = ground (arith, sum-insert_new k v d)

  pub sum-insert :
      (k : String) (v old : V) (d : Dict V)
      → lookup k d ≡ some old
      → sum (insert k v d) + f old ≡ sum d + f v
  unfolding sum insert lookup
  sum-insert k v old [] h = cc
  sum-insert k v old ((j, w) ∷ d) h = ground (arith, sum-insert k v old d)

  pub sum-erase :
      (k : String) (old : V) (d : Dict V)
      → IsUnique d
      → lookup k d ≡ some old
      → sum (erase k d) + f old ≡ sum d
  unfolding sum erase lookup
  sum-erase k old [] u h = cc
  sum-erase k old ((j, w) ∷ d) u h =
      ground (arith, sum-erase k old d u.1, same→eq j k, erase_absent k d)

  -- one value is no more than the sum
  pub le-sum : (k : String) (v : V) (d : Dict V) → lookup k d ≡ some v → (r : ℕ) × (sum d ≡ f v + r)
  unfolding sum lookup
  le-sum k v [] h = cc
  le-sum k v ((j, w) ∷ d) h = elim (Bool-cases (same j k)) [
    | inl e ↦ (sum d, ground arith)
    | inr e ↦ let (r, le) = le-sum k v d (ground arith) in (f w + r, omega arith)
  ]
