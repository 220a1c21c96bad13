-- ===== src/Harness/Lineage/Best.antt =====
-- The winner that `select_winner` (agentfork/harness/agent.py) takes has the greatest score.
use agentfork.Base.{
  Option, some, ℕ, ◌≡◌, refl, ap, subst, Bool, true, false, none, some, List, [], ◌∷◌, arith,
  if◌then◌else◌,
}
use mathlib.Core.Logic.Or
use mathlib.Core.List.{Mem, mem-cons}
use agentfork.Harness.{Raised, Answer, gave, raised, Host}
use agentfork.Harness.Round.{BranchResult, is_live, live, best, winner_of, select_winner}
use agentfork.Harness.Lineage.{Each}

-- `greater` orders the scores, as `>` does numbers: no score is above itself, and what is not above
-- another is not above what is at least that.
pub record IsOrder {Score : Type 0} (greater : Score → Score → Bool) : Type 0 where
  pub irreflexive : (s : Score) → greater s s ≡ false
  pub negative : (a b c : Score) → greater a b ≡ false → greater b c ≡ false → greater a c ≡ false
  pub antisym : (a b : Score) → greater a b ≡ true → greater b a ≡ false

is_live-error : (o : Option Raised) → elim o [ none ↦ true | some e ↦ false ] ≡ true → o ≡ none
is_live-error none h = refl
is_live-error (some e) h = absurd (ground (arith, h))

module _ {O Params Out Score : Type 0} (host : Host O Params) (on_text : Bool)
    (encode : List ℕ → List ℕ) (lowest : Score) (greater : Score → Score → Bool) where
  -- No score of the list is above this one.
  abbrev pub Tops : Score → List (BranchResult Out Score) → Type 0
  Tops s rs = Each (λ r. greater r.score s ≡ false) rs

  above_either :
      (s : Score) (x r : BranchResult Out Score) (first : Bool)
      → (first ≡ true → greater s x.score ≡ false)
      → (first ≡ false → greater s r.score ≡ false)
      → greater s (if first then x else r).score ≡ false
  above_either s x r true h k = h refl
  above_either s x r false h k = k refl

  best-above :
      (order : IsOrder greater) (s : Score) (r : BranchResult Out Score)
      (rs : List (BranchResult Out Score))
      → greater s r.score ≡ false
      → greater s (best host on_text encode lowest greater r rs).score ≡ false
  best-above order s r [] h = h
  best-above order s r (x ∷ xs) h =
      best-above order s (if greater x.score r.score then x else r) xs (
        above_either s x r (greater x.score r.score)
          (λ e. order.negative s r.score x.score h (order.antisym x.score r.score e)) (λ e. h))

  best-Tops :
      (order : IsOrder greater) (r : BranchResult Out Score) (rs : List (BranchResult Out Score))
      → Tops (best host on_text encode lowest greater r rs).score rs
  best-Tops order r [] = tt
  best-Tops order r (x ∷ xs) =
      let next = if greater x.score r.score then x else r in
      (
        best-above order x.score next xs (
            above_either x.score x r (greater x.score r.score) (λ e. order.irreflexive x.score)
              (λ e. e)),
        best-Tops order next xs,
      )

  Topped : List (BranchResult Out Score) → Answer (BranchResult Out Score) → Type 0
  Topped rs (gave w) = Tops w.score rs
  Topped rs (raised e) = Unit

  winner_of-Topped :
      (order : IsOrder greater) (rs : List (BranchResult Out Score))
      → Topped rs (winner_of host on_text encode lowest greater rs)
  unfolding Topped
  winner_of-Topped order [] = tt
  winner_of-Topped order (r ∷ rs) =
      (best-above order r.score r rs (order.irreflexive r.score), best-Tops order r rs)

  split-Tops :
      (s : Score) (r : BranchResult Out Score) (rest : List (BranchResult Out Score)) (first : Bool)
      → Tops s (if first then r ∷ rest else rest)
      → (first ≡ true → greater r.score s ≡ false) × Tops s rest
  split-Tops s r rest true h = ((λ e. h.0), h.1)
  split-Tops s r rest false h = ((λ e. absurd (ground (arith, e))), h)

  live-Tops :
      (s : Score) (rs : List (BranchResult Out Score))
      → Tops s (live host on_text encode lowest greater rs)
      → Each (λ r. r.error ≡ none → greater r.score s ≡ false) rs
  live-Tops s [] h = tt
  live-Tops s (r ∷ rs) h =
      let split =
        split-Tops s r (live host on_text encode lowest greater rs)
          (is_live host on_text encode lowest greater r) h in
      ((λ q. split.0 (ap (λ o. elim o [ none ↦ true | some e ↦ false ]) q)), live-Tops s rs split.1)

  -- A result without an error that is one of the list
  abbrev pub IsLiveIn : List (BranchResult Out Score) → BranchResult Out Score → Type 0
  IsLiveIn rs w = (w.error ≡ none) × Mem w rs

  either_IsLiveIn :
      (rs : List (BranchResult Out Score)) (x r : BranchResult Out Score) (first : Bool)
      → IsLiveIn rs x
      → IsLiveIn rs r
      → IsLiveIn rs (if first then x else r)
  either_IsLiveIn rs x r true h k = h
  either_IsLiveIn rs x r false h k = k

  best-IsLiveIn :
      (rs : List (BranchResult Out Score)) (r : BranchResult Out Score)
      (xs : List (BranchResult Out Score))
      → IsLiveIn rs r
      → Each (IsLiveIn rs) xs
      → IsLiveIn rs (best host on_text encode lowest greater r xs)
  best-IsLiveIn rs r [] h k = h
  best-IsLiveIn rs r (x ∷ xs) h k =
      best-IsLiveIn rs (if greater x.score r.score then x else r) xs
        (either_IsLiveIn rs x r (greater x.score r.score) k.0 h) k.1

  live_keep :
      (rs : List (BranchResult Out Score)) (r : BranchResult Out Score)
      (rest : List (BranchResult Out Score)) (first : Bool)
      → is_live host on_text encode lowest greater r ≡ first
      → Mem r rs
      → Each (IsLiveIn rs) rest
      → Each (IsLiveIn rs) (if first then r ∷ rest else rest)
  live_keep rs r rest true h m k = ((is_live-error r.error h, m), k)
  live_keep rs r rest false h m k = k

  live-IsLiveIn :
      (all rs : List (BranchResult Out Score))
      → ((r : BranchResult Out Score) → Mem r rs → Mem r all)
      → Each (IsLiveIn all) (live host on_text encode lowest greater rs)
  live-IsLiveIn all [] h = tt
  live-IsLiveIn all (r ∷ rs) h =
      live_keep all r (live host on_text encode lowest greater rs)
        (is_live host on_text encode lowest greater r) refl (h r (mem-cons.1 (Or.inl refl)))
        (live-IsLiveIn all rs (λ x m. h x (mem-cons.1 (Or.inr m))))

  Chosen : List (BranchResult Out Score) → Answer (BranchResult Out Score) → Type 0
  Chosen rs (gave w) = IsLiveIn rs w
  Chosen rs (raised e) = Unit

  winner_of-Chosen :
      (rs xs : List (BranchResult Out Score))
      → Each (IsLiveIn rs) xs
      → Chosen rs (winner_of host on_text encode lowest greater xs)
  unfolding Chosen
  winner_of-Chosen rs [] h = tt
  winner_of-Chosen rs (x ∷ xs) h = best-IsLiveIn rs x xs h.0 h.1

  -- If `greater` orders the scores, the result that `select_winner` returns is one of the given
  -- ones, has no error, and no result without an error has a score above its own.
  pub select_winner_best :
      (order : IsOrder greater) (rs : List (BranchResult Out Score)) (w : BranchResult Out Score)
      → select_winner host on_text encode lowest greater rs ≡ gave w
      → IsLiveIn rs w × Each (λ r. r.error ≡ none → greater r.score w.score ≡ false) rs
  unfolding select_winner Topped Chosen
  select_winner_best order rs w h = (
    subst (Chosen rs) h (
        winner_of-Chosen rs (live host on_text encode lowest greater rs)
          (live-IsLiveIn rs rs (λ r m. m))),
    live-Tops w.score rs (
        subst (Topped (live host on_text encode lowest greater rs)) h
          (winner_of-Topped order (live host on_text encode lowest greater rs))),
  )
