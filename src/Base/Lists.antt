-- ===== src/Base/Lists.antt =====
-- Lists measured by native numbers, under the library's names, and prefixes of lists of tokens.
use Prim.Native.Nat.{ℕ, zero, suc, ◌+◌, ◌-◌, ◌≤◌, ◌<◌}
use mathlib.Core.Path.{◌≡◌, refl, ap}
use mathlib.Core.List.{List, [], ◌∷◌, ◌++◌}
use mathlib.Core.Option.{Option, none, some}
use native.Mathlib.Omega.{arith}
use mathlib.Core.Bool.{false}
use mathlib.Core.Logic.{inl, inr}
use agentfork.Base.Tests.{◌==◌, if◌then◌else◌, Bool-cases}

module _ {ℓ} {A : Type ℓ} where
  abbrev pub length : List A → ℕ
  length [] = 0
  length (x ∷ xs) = suc (length xs)

  abbrev pub take : ℕ → List A → List A
  take zero xs = []
  take (suc n) [] = []
  take (suc n) (x ∷ xs) = x ∷ take n xs

  abbrev pub drop : ℕ → List A → List A
  drop zero xs = xs
  drop (suc n) [] = []
  drop (suc n) (x ∷ xs) = drop n xs

  pub length-append : (xs ys : List A) → length (xs ++ ys) ≡ length xs + length ys
  length-append [] ys = omega arith
  length-append (x ∷ xs) ys = omega (arith, length-append xs ys)

-- What is left of `xs` behind the prefix `p`, where it has it.
abbrev pub strip : List ℕ → List ℕ → Option (List ℕ)
strip [] xs = some xs
strip (p ∷ ps) [] = none
strip (p ∷ ps) (x ∷ xs) = if p == x then strip ps xs else none

-- The length of the longest common prefix.
abbrev pub common : List ℕ → List ℕ → ℕ
common [] ys = 0
common (x ∷ xs) [] = 0
common (x ∷ xs) (y ∷ ys) = if x == y then suc (common xs ys) else 0

module _ {ℓ} {A : Type ℓ} where
  pub take-append-drop : (n : ℕ) (xs : List A) → take n xs ++ drop n xs ≡ xs
  take-append-drop zero xs = refl
  take-append-drop (suc n) [] = refl
  take-append-drop (suc n) (x ∷ xs) = ap (◌∷◌ x) (take-append-drop n xs)

  pub length-drop : (n : ℕ) (xs : List A) → length (drop n xs) ≡ length xs - n
  length-drop zero xs = omega arith
  length-drop (suc n) [] = omega arith
  length-drop (suc n) (x ∷ xs) = omega (arith, length-drop n xs)

  pub length-take_of_le : (n : ℕ) (xs : List A) → n ≤ length xs → length (take n xs) ≡ n
  length-take_of_le zero xs h = refl
  length-take_of_le (suc n) [] h = absurd (omega arith)
  length-take_of_le (suc n) (x ∷ xs) h = ap suc (length-take_of_le n xs (omega arith))

-- `strip`, then `strip` again
abbrev pub after : List ℕ → Option (List ℕ) → Option (List ℕ)
after p none = none
after p (some s) = strip p s

pub strip-append : (p q s : List ℕ) → strip (p ++ q) s ≡ after q (strip p s)
strip-append [] q s = refl
strip-append (x ∷ p) q [] = refl
strip-append (x ∷ p) q (y ∷ s) = ground (arith, strip-append p q s)

pub length-strip : (p s left : List ℕ) → strip p s ≡ some left → length s ≡ length p + length left
length-strip [] s left h = ground arith
length-strip (x ∷ p) [] left h = cc
length-strip (x ∷ p) (y ∷ s) left h = ground (arith, length-strip p s left)

pub strip_self : (s : List ℕ) → strip s s ≡ some []
strip_self [] = refl
strip_self (x ∷ s) = ground (arith, strip_self s)

pub append-strip : (p s left : List ℕ) → strip p s ≡ some left → s ≡ p ++ left
append-strip [] s left h = ground arith
append-strip (x ∷ p) [] left h = cc
append-strip (x ∷ p) (y ∷ s) left h = ground (arith, append-strip p s left)

-- The longest common prefix of `p` and `s` is all of `p` exactly if `p` is stripped.
pub common-strip : (p s left : List ℕ) → strip p s ≡ some left → common p s ≡ length p
common-strip [] s left h = refl
common-strip (x ∷ p) [] left h = cc
common-strip (x ∷ p) (y ∷ s) left h = ground (arith, common-strip p s left)

pub common-lt : (p s : List ℕ) → strip p s ≡ none → common p s < length p
common-lt [] s h = cc
common-lt (x ∷ p) [] h = omega arith
common-lt (x ∷ p) (y ∷ s) h = ground (arith, common-lt p s)

pub common-le_right : (p s : List ℕ) → common p s ≤ length s
common-le_right [] s = omega arith
common-le_right (x ∷ p) [] = omega arith
common-le_right (x ∷ p) (y ∷ s) = ground (arith, common-le_right p s)

-- Behind a prefix that both have, the common prefixes go on.
pub common-strip_both :
    (p s t r left : List ℕ)
    → strip p s ≡ some r
    → strip p t ≡ some left
    → common s t ≡ length p + common r left
common-strip_both [] s t r left hs ht = ground arith
common-strip_both (x ∷ p) [] t r left hs ht = cc
common-strip_both (x ∷ p) (y ∷ s) [] r left hs ht = cc
common-strip_both (x ∷ p) (y ∷ s) (z ∷ t) r left hs ht =
    ground (arith, common-strip_both p s t r left)

-- A list with the prefix `p` leaves one without it where `p` does.
pub common_diverge :
    (p s t r : List ℕ) → strip p s ≡ some r → strip p t ≡ none → common s t ≡ common p t
common_diverge [] s t r hs ht = cc
common_diverge (x ∷ p) [] t r hs ht = cc
common_diverge (x ∷ p) (y ∷ s) [] r hs ht = refl
common_diverge (x ∷ p) (y ∷ s) (z ∷ t) r hs ht = ground (arith, common_diverge p s t r)

-- Where two lists part: the common prefix, and the tokens behind it.
pub strip-take-common : (p s : List ℕ) → strip (take (common p s) p) s ≡ some (drop (common p s) s)
strip-take-common [] s = refl
strip-take-common (x ∷ p) [] = refl
strip-take-common (x ∷ p) (y ∷ s) = ground (arith, strip-take-common p s)

-- The head of a list, where there is one.
abbrev pub first : List ℕ → ℕ
first [] = 0
first (x ∷ xs) = x

pub common_parts :
    (p s : List ℕ) (y : ℕ) (ys : List ℕ)
    → strip p s ≡ none
    → drop (common p s) s ≡ y ∷ ys
    → (first (drop (common p s) p) == y) ≡ false
common_parts [] s y ys h e = cc
common_parts (x ∷ p) [] y ys h e = cc
common_parts (x ∷ p) (z ∷ s) y ys h e = elim (Bool-cases (x == z)) [
  | inl same_token ↦
      let rest : drop (common p s) s ≡ y ∷ ys = rw same_token at e in
      let miss : strip p s ≡ none = rw same_token at h in
      rw same_token (common_parts p s y ys miss rest)
  | inr other ↦ let here : z ∷ s ≡ y ∷ ys = rw other at e in rw other (ground arith)
]

pub strip-append_self : (p s : List ℕ) → strip p (p ++ s) ≡ some s
strip-append_self [] s = refl
strip-append_self (x ∷ p) s = ground (arith, strip-append_self p s)

pub common_self : (s : List ℕ) → common s s ≡ length s
common_self [] = refl
common_self (x ∷ s) = ground (arith, common_self s)

-- A list shares itself with what goes on behind it.
pub common-append : (s t : List ℕ) → common s (s ++ t) ≡ length s
common-append [] t = refl
common-append (x ∷ s) t = ground (arith, common-append s t)
