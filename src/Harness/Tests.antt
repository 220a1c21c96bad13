-- ===== src/Harness/Tests.antt =====
-- A run of `TreeAgent` (agentfork/harness/agent.py) on an orchestrator that counts its branches
use agentfork.Base.{
  ℕ, ◌≡◌, refl, String, Bool, true, false, none, some, List, [], ◌∷◌, ltb, arith, same,
  if◌then◌else◌, ◌==◌, ◌+◌, ◌<◌, length,
}
use agentfork.Base.Dict.{lookup, insert, erase, mem, IsDistinct}
use agentfork.Harness.{
  Prefix, tokens, prefix_violation, no_winner, Answer, gave, raised, call_failed, Host, TreeAgent,
  prepare_root, inherit, commit,
}
use agentfork.Harness.Round.{
  BranchResult, Round, fan_out, results_of, select_winner, run_round, run_rounds, solve,
}
use agentfork.Harness.Lineage.{Each, Charges, commit-Charges}
use agentfork.Harness.Lineage.Children.{FansOut, fan_out_lem}
use agentfork.Harness.Lineage.Decided.{Rounds, run_round-Rounds, reaps}
use agentfork.Harness.Lineage.Best.{IsOrder, IsLiveIn, select_winner_best}

program : Unit {0}
unfolding lookup insert erase mem same prepare_root inherit fan_out results_of select_winner
    run_round run_rounds solve reaps
program = tt

-- Two children at a time; the one that is not the winner is reaped.
abbrev children_of : ℕ → Answer (List String)
children_of n =
    if n == 0
    then gave ("a" ∷ "b" ∷ [])
    else (if n == 1 then gave ("c" ∷ []) else raised call_failed)

abbrev losers_of : String → List (String × Bool)
losers_of winner = if same winner "a" then ("b", true) ∷ [] else []

-- The state counts the forks.
abbrev host : Host ℕ Unit
host = record {
  create_parent = λ id lease n. (gave tt, n);
  extend = λ id ts n. (gave tt, n);
  generate = λ id s params n. (gave tt, n);
  fork = λ parent k ids n. (children_of n, n + 1);
  kill_losers = λ winner n. (gave (losers_of winner), n);
}

abbrev greater : ℕ → ℕ → Bool
greater a b = ltb b a

-- A branch scores by its length; `fails` is a branch whose work raises.
abbrev round_of : List Prefix → String → Round ℕ Unit ℕ ℕ
round_of cs fails = record {
  continuations = cs;
  work = λ id p n. (if same id fails then raised call_failed else gave 0, n);
  evaluator = λ r n. (if same r.branch_id "a" then gave 9 else gave 5, n);
  child_ids = none;
  sampling_params = tt;
}

abbrev context : Prefix
context = tokens (1 ∷ [])

abbrev first_round : Round ℕ Unit ℕ ℕ
first_round = round_of (tokens (1 ∷ 2 ∷ []) ∷ tokens (1 ∷ 3 ∷ []) ∷ []) ""

abbrev second_round : Round ℕ Unit ℕ ℕ
second_round = round_of (tokens (1 ∷ 2 ∷ 4 ∷ []) ∷ []) ""

abbrev agent : TreeAgent ℕ
agent = record { orch = 0; prefix = [] }

abbrev run : List (Round ℕ Unit ℕ ℕ) → Answer (BranchResult ℕ ℕ) × TreeAgent ℕ
run rounds = solve host false (λ s. s) 0 greater "root" context rounds none tt agent

abbrev winner : BranchResult ℕ ℕ
winner = record {
  branch_id = "c";
  prefix = tokens (1 ∷ 2 ∷ 4 ∷ []);
  output = some 0;
  score = 5;
  error = none;
}

abbrev after_solve : TreeAgent ℕ
after_solve = (run (first_round ∷ second_round ∷ [])).1

solves : run (first_round ∷ second_round ∷ []) ≡ (gave winner, after_solve)
unfolding program
solves = refl

stops :
    ((run (round_of (tokens (1 ∷ []) ∷ []) "" ∷ [])).0 ≡ raised prefix_violation)
    × ((run (second_round ∷ round_of (tokens (1 ∷ 2 ∷ []) ∷ []) "" ∷ [])).0
        ≡ raised prefix_violation)
    × ((run (round_of (tokens (1 ∷ 2 ∷ []) ∷ []) "a" ∷ [])).0 ≡ raised no_winner)
unfolding program
stops = (refl, refl, refl)

greater-IsOrder : IsOrder greater
greater-IsOrder = record {
  irreflexive = λ s. ground arith;
  negative = λ a b c h k. ground arith;
  antisym = λ a b h. ground arith;
}

-- The root is committed to its context.
abbrev rooted : TreeAgent ℕ
rooted = record { orch = 0; prefix = ("root", context) ∷ [] }

holds_context : lookup "root" rooted.prefix ≡ some context
unfolding program
holds_context = refl

commit-Charges_example :
    (suffix : List ℕ) × (1 ∷ suffix ≡ 1 ∷ 2 ∷ 4 ∷ [])
    × (0 < length suffix)
    × Charges host "root"
        (1 ∷ [])
        (1 ∷ 2 ∷ 4 ∷ [])
        (host.extend "root" suffix 0)
        (commit host false "root" (tokens (1 ∷ 2 ∷ 4 ∷ [])) tt rooted)
commit-Charges_example =
    commit-Charges host "root" (1 ∷ []) (1 ∷ 2 ∷ 4 ∷ []) tt rooted holds_context refl

abbrev two_targets : List Prefix
two_targets = tokens (1 ∷ 2 ∷ []) ∷ tokens (1 ∷ 3 ∷ []) ∷ []

two_children : IsDistinct ("a" ∷ "b" ∷ [])
unfolding program
two_children = (refl, (refl, tt))

fan_out_lem_example :
    FansOut host false
      (λ s. s)
      0
      greater
      true
      context
      ("a" ∷ "b" ∷ [])
      two_targets
      rooted
      (fan_out host false (λ s. s) 0 greater "root" first_round rooted)
fan_out_lem_example =
    fan_out_lem host false (λ s. s) 0 greater "root" first_round context ("a" ∷ "b" ∷ [])
      two_targets rooted 1 holds_context refl refl refl two_children

abbrev result : String → ℕ → BranchResult ℕ ℕ
result id s = record { branch_id = id; prefix = context; output = none; score = s; error = none }

abbrev results : List (BranchResult ℕ ℕ)
results =
    result "a" 3
    ∷ result "b" 7
    ∷ result "c" 7
    ∷ record (result "d" 9) { error = some call_failed }
    ∷ []

takes_b : select_winner host false (λ s. s) 0 greater results ≡ gave (result "b" 7)
unfolding program
takes_b = refl

select_winner_best_example :
    IsLiveIn host false (λ s. s) 0 greater results (result "b" 7)
    × Each (λ r. r.error ≡ none → greater r.score 7 ≡ false) results
select_winner_best_example =
    select_winner_best host false (λ s. s) 0 greater greater-IsOrder results (result "b" 7) takes_b

run_round-Rounds_example :
    Rounds host false
      (λ s. s)
      0
      greater
      (fan_out host false (λ s. s) 0 greater "root" first_round rooted)
      (run_round host false (λ s. s) 0 greater "root" first_round rooted)
run_round-Rounds_example =
    run_round-Rounds host false (λ s. s) 0 greater greater-IsOrder "root" first_round rooted

-- The round takes the first child and forgets the second.
takes_a :
    let r = run_round host false (λ s. s) 0 greater "root" first_round rooted in
    (lookup "a" r.1.prefix ≡ some (tokens (1 ∷ 2 ∷ []))) × (lookup "b" r.1.prefix ≡ none)
unfolding program
takes_a = (refl, refl)
