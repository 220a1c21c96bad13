-- ===== src/Base/Dict.antt =====
-- Python's `dict` with text keys, in insertion order, and its `set` of texts without repetition.
pub mod Sum
use agentfork.Base.Tests.{if◌then◌else◌, is_some, Bool-cases}
use agentfork.Base.Text.{same, same→eq, same_refl}
use Prim.Native.Nat.{suc}
use Prim.Native.String.{String}
use mathlib.Core.Path.{◌≡◌, refl}
use mathlib.Core.Logic.{inl, inr}
use mathlib.Core.Bool.{Bool, true, false}
use mathlib.Core.Option.{Option, none, some}
use mathlib.Core.List.{List, [], ◌∷◌}
use native.Mathlib.Omega.{arith}
use agentfork.Base.Lists.{length}

abbrev pub Dict {ℓ} : Type ℓ → Type ℓ
Dict V = List (String × V)

module _ {ℓ} {V : Type ℓ} where
  -- `d.get(k)`
  unfoldable pub lookup : String → Dict V → Option V
  lookup k [] = none
  lookup k ((j, v) ∷ d) = if same j k then some v else lookup k d

  -- `d[k] = v`: a key that is there keeps its place
  unfoldable pub insert : String → V → Dict V → Dict V
  insert k v [] = (k, v) ∷ []
  insert k v ((j, w) ∷ d) = if same j k then (k, v) ∷ d else (j, w) ∷ insert k v d

  -- `d.pop(k, None)`; a key is never listed twice
  unfoldable pub erase : String → Dict V → Dict V
  erase k [] = []
  erase k ((j, v) ∷ d) = if same j k then erase k d else (j, v) ∷ erase k d

  -- `k in d`
  abbrev pub contains : String → Dict V → Bool
  contains k d = is_some (lookup k d)

  -- `list(d)`
  unfoldable pub keys : Dict V → List String
  keys [] = []
  keys ((j, v) ∷ d) = j ∷ keys d

  pub lookup-insert :
      (k j : String) (v : V) (d : Dict V)
      → lookup j (insert k v d) ≡ (if same k j then some v else lookup j d)
  unfolding lookup insert
  lookup-insert k j v [] = refl
  lookup-insert k j v ((i, w) ∷ d) = ground (
    arith,
    lookup-insert k j v d,
    same→eq i k,
    same→eq i j,
    same→eq k j,
    same_refl k,
    same_refl i,
  )

  pub lookup-erase :
      (k j : String) (d : Dict V) → lookup j (erase k d) ≡ (if same k j then none else lookup j d)
  unfolding lookup erase
  lookup-erase k j [] = ground arith
  lookup-erase k j ((i, w) ∷ d) =
      ground
        (arith, lookup-erase k j d, same→eq i k, same→eq i j, same→eq k j, same_refl k, same_refl i)

-- Sets of texts.
unfoldable pub mem : String → List String → Bool
mem k [] = false
mem k (j ∷ s) = if same j k then true else mem k s

-- `s.add(k)`
unfoldable pub add : String → List String → List String
add k s = if mem k s then s else k ∷ s

-- `s.discard(k)`
unfoldable pub discard : String → List String → List String
discard k [] = []
discard k (j ∷ s) = if same j k then discard k s else j ∷ discard k s

-- No text is listed twice.
abbrev pub IsDistinct : List String → Type 0
IsDistinct [] = Unit
IsDistinct (k ∷ s) = (mem k s ≡ false) × IsDistinct s

pub mem-add :
    (k j : String) (s : List String) → mem j (add k s) ≡ (if same k j then true else mem j s)
unfolding add mem
mem-add k j s = ground (arith, same→eq k j)

pub mem-discard :
    (k j : String) (s : List String) → mem j (discard k s) ≡ (if same k j then false else mem j s)
unfolding discard mem
mem-discard k j [] = ground arith
mem-discard k j (i ∷ s) =
    ground
      (arith, mem-discard k j s, same→eq i k, same→eq i j, same→eq k j, same_refl k, same_refl i)

pub add-IsDistinct : (k : String) (s : List String) → IsDistinct s → IsDistinct (add k s)
unfolding add
add-IsDistinct k s h = elim (Bool-cases (mem k s)) [
  | inl old ↦ rw old h
  | inr new ↦ rw new (new, h)
]

pub discard-IsDistinct : (k : String) (s : List String) → IsDistinct s → IsDistinct (discard k s)
unfolding discard
discard-IsDistinct k [] h = tt
discard-IsDistinct k (j ∷ s) h = elim (Bool-cases (same j k)) [
  | inl e ↦ rw e (discard-IsDistinct k s h.1)
  | inr e ↦ rw e (ground (arith, mem-discard k j s, h), discard-IsDistinct k s h.1)
]

discard_absent : (k : String) (s : List String) → mem k s ≡ false → discard k s ≡ s
unfolding discard mem
discard_absent k [] h = refl
discard_absent k (j ∷ s) h = ground (arith, discard_absent k s)

pub length-discard :
    (k : String) (s : List String)
    → IsDistinct s
    → length s ≡ (if mem k s then suc (length (discard k s)) else length (discard k s))
unfolding discard mem
length-discard k [] h = refl
length-discard k (j ∷ s) h = ground (arith, length-discard k s h.1, discard_absent k s, same→eq j k)
