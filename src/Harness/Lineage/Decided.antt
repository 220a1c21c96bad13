-- ===== src/Harness/Lineage/Decided.antt =====
-- What is left of the losers after one `run_round` (agentfork/harness/agent.py)
use agentfork.Base.{
  ℕ, ◌≡◌, refl, ◌∙◌, String, Bool, true, false, ◌&&◌, ◌||◌, none, List, [], ◌∷◌, if◌then◌else◌,
  same, arith,
}
use agentfork.Base.Dict.{Dict, lookup, erase, lookup-erase}
use agentfork.Harness.{Prefix, Answer, gave, raised, continued, Host, TreeAgent, forget}
use agentfork.Harness.Round.{BranchResult, Round, fan_out, select_winner, kept, run_round}
use agentfork.Harness.Lineage.{Each}
use agentfork.Harness.Lineage.Best.{IsOrder, IsLiveIn, select_winner_best}

-- The branch has a receipt that says that it was reaped.
unfoldable pub reaps : String → List (String × Bool) → Bool
reaps j [] = false
reaps j ((id, reaped) ∷ rs) = (reaped && same id j) || reaps j rs

module _ {O Params : Type 0} (host : Host O Params) where
  lookup-forget :
      (j : String) (rs : List (String × Bool)) (d : Dict Prefix)
      → lookup j (forget host rs d) ≡ (if reaps j rs then none else lookup j d)
  unfolding reaps
  lookup-forget j [] d = refl
  lookup-forget j ((id, true) ∷ rs) d =
      lookup-forget j rs (erase id d) ∙ ground (arith, lookup-erase id j d)
  lookup-forget j ((id, false) ∷ rs) d = lookup-forget j rs d

  -- `kill_losers` of the orchestrator was called once, and what it reaped is out of the ledger.
  abbrev pub Forgets : String → TreeAgent O → TreeAgent O → Type 0
  Forgets id a b =
      (receipts : List (String × Bool)) × (host.kill_losers id a.orch ≡ (gave receipts, b.orch))
      × ((j : String) → lookup j b.prefix ≡ (if reaps j receipts then none else lookup j a.prefix))

module _ {O Params Out Score : Type 0} (host : Host O Params) (on_text : Bool)
    (encode : List ℕ → List ℕ) (lowest : Score) (greater : Score → Score → Bool) where
  -- A round that returns has the best of the results without an error, and only what was reaped is
  -- gone from the ledger; one that raises leaves the ledger.
  abbrev pub Decides :
      List (BranchResult Out Score)
      → TreeAgent O
      → Answer (BranchResult Out Score) × TreeAgent O
      → Type 0
  Decides rs a (raised e, b) = b.prefix ≡ a.prefix
  Decides rs a (gave w, b) =
      IsLiveIn host on_text encode lowest greater rs w
      × Each (λ r. r.error ≡ none → greater r.score w.score ≡ false) rs
      × Forgets host w.branch_id a b

  -- By what `fan_out` gave: its error is that of the round.
  abbrev pub Rounds :
      Answer (List (BranchResult Out Score)) × TreeAgent O
      → Answer (BranchResult Out Score) × TreeAgent O
      → Type 0
  Rounds (raised e, a) r = r ≡ (raised e, a)
  Rounds (gave rs, a) r = Decides rs a r

  kept-Decides :
      (rs : List (BranchResult Out Score)) (w : BranchResult Out Score) (a : TreeAgent O)
      (x : Answer (List (String × Bool)) × O)
      → host.kill_losers w.branch_id a.orch ≡ x
      → IsLiveIn host on_text encode lowest greater rs w
      → Each (λ r. r.error ≡ none → greater r.score w.score ≡ false) rs
      → Decides rs a (kept host on_text encode lowest greater w a)
  kept-Decides rs w a (gave receipts, o) h live best =
      rw h (live, best, (receipts, h, λ j. lookup-forget host j receipts a.prefix))
  kept-Decides rs w a (raised e, o) h live best = rw h refl

  selected-Decides :
      (order : IsOrder greater) (rs : List (BranchResult Out Score)) (a : TreeAgent O)
      (x : Answer (BranchResult Out Score))
      → select_winner host on_text encode lowest greater rs ≡ x
      → Decides rs a (continued (x, a) (λ w b. kept host on_text encode lowest greater w b))
  selected-Decides order rs a (raised e) h = refl
  selected-Decides order rs a (gave w) h =
      let top = select_winner_best host on_text encode lowest greater order rs w h in
      kept-Decides rs w a (host.kill_losers w.branch_id a.orch) refl top.0 top.1

  rounds_lem :
      (order : IsOrder greater) (x : Answer (List (BranchResult Out Score)) × TreeAgent O)
      → Rounds x (
          continued x (λ rs b.
            continued
              (select_winner host on_text encode lowest greater rs, b)
              (λ w c. kept host on_text encode lowest greater w c)))
  rounds_lem order (raised e, a) = refl
  rounds_lem order (gave rs, a) =
      selected-Decides order rs a (select_winner host on_text encode lowest greater rs) refl

  -- If `greater` orders the scores: where `fan_out` raises, `run_round` raises the same and does
  -- no more; where `fan_out` returns and `run_round` too, its result is one of the results of
  -- `fan_out`, has no error, no result without an error has a score above its own, and the
  -- orchestrator's `kill_losers` was called for it on what `fan_out` left and the branches that it
  -- reports as reaped, and no others, are out of the ledger; where only `fan_out` returns, the
  -- ledger stays as it left it.
  pub run_round-Rounds :
      (order : IsOrder greater) (parent_id : String) (round : Round O Params Out Score)
      (a : TreeAgent O)
      → Rounds
          (fan_out host on_text encode lowest greater parent_id round a)
          (run_round host on_text encode lowest greater parent_id round a)
  unfolding run_round
  run_round-Rounds order parent_id round a =
      rounds_lem order (fan_out host on_text encode lowest greater parent_id round a)
