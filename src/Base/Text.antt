-- ===== src/Base/Text.antt =====
-- Texts as identifiers: their test for equality, and the names `f"{parent_id}/{seq}"`.
use Prim.Native.Nat.{ℕ, zero, suc, ◌/◌, ◌%◌}
use Prim.Native.String.{String, ◌++◌}
use text.Mathlib.Text.{◌==◌ as str_eq}
use text.Mathlib.TextEquality.{eq_iff}
use text.Mathlib.TextPositions.{eq_refl}
use mathlib.Core.Path.{◌≡◌, refl, ap}
use mathlib.Core.Logic.{◌≢◌, inl, inr}
use mathlib.Core.Bool.{Bool, true, false}
use native.Mathlib.Omega.{arith}
use agentfork.Base.Tests.{ltb, ◌==◌, if◌then◌else◌, Bool-cases}

-- `s == t`; its lemmas are used in place of its definition.
unfoldable pub same : String → String → Bool
same s t = str_eq s t

pub same→eq : (s t : String) → same s t ≡ true → s ≡ t
unfolding same
same→eq s t h = (eq_iff s t).0 h

pub same_refl : (s : String) → same s s ≡ true
unfolding same
same_refl s = eq_refl s

pub same_ne : (s t : String) → s ≢ t → same s t ≡ false
unfolding same
same_ne s t h = ground (arith, eq_iff s t)

digit : ℕ → String
digit d =
    if d == 0
    then "0"
    else if d == 1
    then "1"
    else if d == 2
    then "2"
    else if d == 3
    then "3"
    else if d == 4
    then "4"
    else if d == 5
    then "5"
    else if d == 6
    then "6"
    else if d == 7
    then "7"
    else if d == 8
    then "8"
    else "9"

decimal_from : ℕ → ℕ → String
unfolding digit
decimal_from zero n = ""
decimal_from (suc f) n =
    let high = decimal_from f (n / 10) in if ltb n 10 then digit n else high ++ digit (n % 10)

-- `str(n)` of an integer that is not negative; a number has fewer digits than its value plus one.
unfoldable pub decimal : ℕ → String
unfolding decimal_from
decimal n = decimal_from (suc n) n

-- `f"{parent_id}/{seq}"`
unfoldable pub child_name : String → ℕ → String
unfolding decimal
child_name parent_id seq = parent_id ++ ("/" ++ decimal seq)

child_name_twelve : child_name "a" 12 ≡ "a/12"
unfolding child_name
child_name_twelve = refl

pub same_sym : (s t : String) → same s t ≡ false → same t s ≡ false
same_sym s t h = elim (Bool-cases (same t s)) [
  | inl e ↦ absurd (cc (h, same_refl s, ap (same s) (same→eq t s e)))
  | inr e ↦ e
]
