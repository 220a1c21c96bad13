-- ===== src/Harness/Round.antt =====
-- One round of `TreeAgent` (agentfork/harness/agent.py) and the chain of rounds: `fan_out`,
-- `select_winner`, `run_round` and `solve`
use agentfork.Base.{
  ℕ, String, Bool, true, false, Option, none, some, List, [], ◌∷◌, length, if◌then◌else◌,
}
use agentfork.Harness.{
  Prefix, Raised, prefix_violation, no_winner, value_error, Answer, gave, raised, Action, continued,
  Host, TreeAgent, targets_of, all_extend, committed_prefix, of_orch, commit, kill_losers,
  prepare_root, inherit,
}

-- `score` is the least number, and `output` none, until they are set.
pub record BranchResult (Out Score : Type 0) : Type 0 where
  pub branch_id : String
  pub prefix : Prefix
  pub output : Option Out
  pub score : Score
  pub error : Option Raised

pub record Round (O Params Out Score : Type 0) : Type 0 where
  pub continuations : List Prefix
  pub work : String → Prefix → Action O Out
  pub evaluator : BranchResult Out Score → Action O Score
  pub child_ids : Option (List String)
  pub sampling_params : Params

-- `lowest` is `float("-inf")`, and `greater a b` is `a > b`.
module _ {O Params Out Score : Type 0} (host : Host O Params) (on_text : Bool)
    (encode : List ℕ → List ℕ) (lowest : Score) (greater : Score → Score → Bool) where
  abbrev pub judged :
      BranchResult Out Score → Answer Score × TreeAgent O → BranchResult Out Score × TreeAgent O
  judged r (gave s, a) = (record r { score = s }, a)
  judged r (raised e, a) = (record r { error = some e }, a)

  -- The evaluator of a result with its output
  abbrev pub scored :
      Round O Params Out Score
      → BranchResult Out Score
      → Answer Out × TreeAgent O
      → BranchResult Out Score × TreeAgent O
  scored round r (raised e, a) = (record r { error = some e }, a)
  scored round r (gave out, a) =
      let done = record r { output = some out } in
      judged done (of_orch host (round.evaluator done a.orch) a)

  abbrev pub worked :
      Round O Params Out Score
      → BranchResult Out Score
      → Answer Unit × TreeAgent O
      → BranchResult Out Score × TreeAgent O
  worked round r (raised e, a) = (record r { error = some e }, a)
  worked round r (gave u, a) =
      scored round r (of_orch host (round.work r.branch_id r.prefix a.orch) a)

  -- The body of the loop of `fan_out`
  abbrev pub one_result :
      Round O Params Out Score
      → String
      → Prefix
      → TreeAgent O
      → BranchResult Out Score × TreeAgent O
  one_result round child target a =
      worked round
        (record { branch_id = child; prefix = target; output = none; score = lowest; error = none })
        (commit host on_text child target round.sampling_params a)

  -- The loop over the children and their targets
  unfoldable pub results_of :
      Round O Params Out Score
      → List String
      → List Prefix
      → TreeAgent O
      → List (BranchResult Out Score) × TreeAgent O
  results_of round [] ts a = ([], a)
  results_of round (c ∷ cs) [] a = ([], a)
  results_of round (c ∷ cs) (t ∷ ts) a =
      let (r, a1) = one_result round c t a in
      let (rs, a2) = results_of round cs ts a1 in (r ∷ rs, a2)

  abbrev pub forked :
      Round O Params Out Score
      → Prefix
      → List Prefix
      → Answer (List String) × TreeAgent O
      → Answer (List (BranchResult Out Score)) × TreeAgent O
  forked round base targets (raised e, a) = (raised e, a)
  forked round base targets (gave children, a) =
      let (rs, a) = results_of round children targets (inherit host base children a) in (gave rs, a)

  -- The targets are tested before anything is forked.
  abbrev pub checked :
      Bool
      → String
      → Round O Params Out Score
      → Prefix
      → List Prefix
      → TreeAgent O
      → Answer (List (BranchResult Out Score)) × TreeAgent O
  checked false parent_id round base targets a = (raised prefix_violation, a)
  checked true parent_id round base targets a =
      forked round base targets
        (of_orch host (host.fork parent_id (length targets) round.child_ids a.orch) a)

  unfoldable pub fan_out :
      String
      → Round O Params Out Score
      → TreeAgent O
      → Answer (List (BranchResult Out Score)) × TreeAgent O
  fan_out parent_id round a =
      continued (committed_prefix host parent_id a, a)
        (λ base a.
          continued (targets_of on_text encode round.continuations, a)
            (λ targets a. checked (all_extend base targets) parent_id round base targets a))

  abbrev pub is_live : BranchResult Out Score → Bool
  is_live r = elim r.error [ none ↦ true | some e ↦ false ]

  abbrev pub live : List (BranchResult Out Score) → List (BranchResult Out Score)
  live [] = []
  live (r ∷ rs) = let rest = live rs in if is_live r then r ∷ rest else rest

  -- `max` by score: the first of the greatest
  abbrev pub best : BranchResult Out Score → List (BranchResult Out Score) → BranchResult Out Score
  best r [] = r
  best r (x ∷ xs) = best (if greater x.score r.score then x else r) xs

  abbrev pub winner_of : List (BranchResult Out Score) → Answer (BranchResult Out Score)
  winner_of [] = raised no_winner
  winner_of (r ∷ rs) = gave (best r rs)

  unfoldable pub select_winner : List (BranchResult Out Score) → Answer (BranchResult Out Score)
  select_winner rs = winner_of (live rs)

  abbrev pub kept :
      BranchResult Out Score → TreeAgent O → Answer (BranchResult Out Score) × TreeAgent O
  kept w a = continued (kill_losers host w.branch_id a) (λ receipts a. (gave w, a))

  unfoldable pub run_round :
      String
      → Round O Params Out Score
      → TreeAgent O
      → Answer (BranchResult Out Score) × TreeAgent O
  unfolding fan_out select_winner
  run_round parent_id round a =
      continued (fan_out parent_id round a)
        (λ results a. continued (select_winner results, a) (λ w a. kept w a))

  -- The loop of `solve`: a round, and the rounds after it
  unfoldable pub run_rounds :
      String
      → Round O Params Out Score
      → List (Round O Params Out Score)
      → TreeAgent O
      → Answer (BranchResult Out Score) × TreeAgent O
  run_rounds parent_id round [] a = run_round parent_id round a
  run_rounds parent_id round (next ∷ rounds) a =
      continued (run_round parent_id round a) (λ w a. run_rounds w.branch_id next rounds a)

  -- `prepare_root` has no `sampling_params` here, so that `no_params` stands for the default.
  unfoldable pub solve :
      String
      → Prefix
      → List (Round O Params Out Score)
      → Option ℕ
      → Params
      → TreeAgent O
      → Answer (BranchResult Out Score) × TreeAgent O
  solve root_id context [] lease no_params a = (raised value_error, a)
  solve root_id context (round ∷ rounds) lease no_params a =
      continued (prepare_root host on_text encode root_id context lease no_params a)
        (λ u a. run_rounds root_id round rounds a)
