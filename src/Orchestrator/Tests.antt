-- ===== src/Orchestrator/Tests.antt =====
-- Runs of the orchestrator, as in tests/test_orchestrator.py, and its theorems at concrete systems.
use agentfork.Base.{
  child_name, List, Option, String, ◌≡◌, refl, Bool, true, false, none, some, [], ◌∷◌, same,
}
use agentfork.Base.Dict.{Dict, keys, lookup, insert, erase, mem, add, discard}
use agentfork.Orchestrator.{
  Branch, BranchState, forking, live, ForkOrchestrator, System, Reply, done, failed, backend_failed,
  bad_value,
}
use agentfork.Orchestrator.Backends.{Backends, persist, record_branch, replace_branch, forget}
use agentfork.Orchestrator.Kill.{kill_branch, reap, end_kill}
use agentfork.Orchestrator.Spawn.{create_parent, set_up, spawn_one, rollback_branch}
use agentfork.Orchestrator.Collect.{
  reconcile, kill_all, stuck_branches, partials, loaded_stuck, expired_branches, count_reaped,
}
use agentfork.Orchestrator.Durable.{IsDurable}
use agentfork.Orchestrator.Keeps.{
  kill_branch-IsDurable, create_parent-IsDurable, spawn_one-IsDurable, reconcile-IsDurable,
}
use agentfork.Orchestrator.Retry.{IsLeft, kill_branch_retried}
use agentfork.Orchestrator.Reaped.{IsForgotten, BothKilled, kill_branch_reaped}
use agentfork.Orchestrator.Losers.{
  kept, keep_from, losers, kill_losers, settle, settle_all, by_branch,
}
use agentfork.Orchestrator.Fork.{
  fork, next_child_id, add_child, numbered_children, named_children, is_among, insert_all, pop_all,
  add_all, journal_children, spawn_all,
}
use agentfork.Orchestrator.Calls.{close}
use agentfork.Orchestrator.Winner.{here, up, EndLeaves, kill_losers_spares}
use agentfork.Orchestrator.Created.{
  Settles, Creates, IsForked, create_parent-Settles, spawn_one-Settles,
}

program : Unit {0}
unfolding lookup insert erase mem add discard same persist record_branch replace_branch forget
    kill_branch reap end_kill create_parent set_up spawn_one rollback_branch reconcile kill_all
    stuck_branches partials loaded_stuck expired_branches count_reaped kept keep_from losers
    kill_losers settle settle_all by_branch fork next_child_id add_child numbered_children
    named_children is_among insert_all pop_all add_all journal_children spawn_all close keys
    child_name
program = tt

-- Backends whose sandbox works while the world is `true`
abbrev backends : Backends Bool
backends = record {
  write = λ d w. (true, w);
  spawn = λ id parent_id w. (w, w);
  wait_ready = λ id w. (w, w);
  sandbox_kill = λ id w. (w, w);
  create_tree = λ id w. (true, w);
  fork_branch = λ parent_id id w. (true, w);
  extend = λ id tokens w. (true, w);
  kv_kill = λ id w. (some 3, w);
  external_data_path = false;
}

abbrev branch_in : BranchState → String → Branch
branch_in state id = record {
  branch_id = id;
  parent_id = none;
  state = state;
  created_at = 1;
  lease_expires_at = some 9;
}

abbrev idle : ForkOrchestrator
idle = record {
  registry_path = some "registry.json";
  default_lease_s = none;
  seq = 0;
  is_closing = false;
  is_closed = false;
  branches = ("r", branch_in live "r") ∷ [];
  loaded_branch_ids = [];
  in_spawn = [];
  in_kill = [];
  metrics = record {
    forks = 0;
    kills = 0;
    kill_failures = 0;
    execs = 0;
    reconciles = 0;
    reaped_expired = 0;
    swept_dead = 0;
    restarted = 0;
  };
}

abbrev at_rest : Bool → System Bool
at_rest works = record { orch = idle; file = ("r", branch_in live "r") ∷ []; world = works }

abbrev forking_child : Bool → System Bool
forking_child works = record {
  orch = record idle {
    branches = ("r", branch_in live "r") ∷ ("r/1", branch_in forking "r/1") ∷ [];
    in_spawn = "r/1" ∷ [];
  };
  file = ("r", branch_in live "r") ∷ ("r/1", branch_in forking "r/1") ∷ [];
  world = works;
}

-- A kill, and a pass after it
retries :
    ((kill_branch backends false "r" (at_rest false)).0 ≡ failed backend_failed)
    × ((reconcile backends 5
          (record (kill_branch backends false "r" (at_rest false)).1 { world = true })).1.file
        ≡ [])
    × (stuck_branches idle ≡ [])
    × ((reconcile backends 12 (at_rest true)).1.orch.metrics.reaped_expired ≡ 1)
unfolding program
retries = (refl, refl, refl, refl)

rest-IsDurable : (works : Bool) → IsDurable (at_rest works)
rest-IsDurable works id = refl

forking_child-IsDurable : (works : Bool) → IsDurable (forking_child works)
forking_child-IsDurable works id = refl

kill_branch-IsDurable_example : IsDurable (kill_branch backends false "r" (at_rest false)).1
kill_branch-IsDurable_example =
    kill_branch-IsDurable backends false "r" (at_rest false) (rest-IsDurable false)

create_parent-IsDurable_example :
    IsDurable (create_parent backends 4 "q" (7 ∷ []) none (at_rest true)).1
create_parent-IsDurable_example =
    create_parent-IsDurable backends 4 "q" (7 ∷ []) none (at_rest true) (rest-IsDurable true)

spawn_one-IsDurable_example : IsDurable (spawn_one backends "r" "r/1" (forking_child false)).1
spawn_one-IsDurable_example =
    spawn_one-IsDurable backends "r" "r/1" (forking_child false) (forking_child-IsDurable false)

reconcile-IsDurable_example : IsDurable (reconcile backends 12 (at_rest true)).1
reconcile-IsDurable_example = reconcile-IsDurable backends 12 (at_rest true) (rest-IsDurable true)

kill_branch_retried_example :
    IsLeft "r" (kill_branch backends false "r" (at_rest false)).1.orch
    × (mem "r" (stuck_branches (kill_branch backends false "r" (at_rest false)).1.orch) ≡ true)
unfolding program
kill_branch_retried_example = kill_branch_retried backends false "r" (at_rest false) refl

kill_branch_reaped_example :
    IsForgotten "r"
      (("r", branch_in live "r") ∷ [])
      (kill_branch backends false "r" (at_rest true)).1.orch.branches
    × BothKilled backends "r" 3
unfolding program
kill_branch_reaped_example =
    kill_branch_reaped backends false "r" (at_rest true)
      (record { branch_id = "r"; kv_freed_tokens = 3; reaped = true }) refl refl

create_parent-Settles_example :
    Creates backends "q"
      (7 ∷ [])
      (at_rest true)
      (create_parent backends 4 "q" (7 ∷ []) none (at_rest true))
unfolding program
create_parent-Settles_example =
    create_parent-Settles backends 4 "q" (7 ∷ []) none (at_rest true) refl refl

spawn_one-Settles_example :
    Settles backends
      (IsForked backends "r" "r/1" (forking_child true))
      "r/1"
      (spawn_one backends "r" "r/1" (forking_child true))
unfolding program
spawn_one-Settles_example =
    spawn_one-Settles backends "r" "r/1" (forking_child true)
      (branch_in forking "r/1", refl, refl, refl)

-- A parent with two children, and a sibling of the root
abbrev family : Dict Branch
family =
    ("r", branch_in live "r")
    ∷ ("r/1", record (branch_in live "r/1") { parent_id = some "r" })
    ∷ ("r/2", record (branch_in live "r/2") { parent_id = some "r" })
    ∷ []

abbrev together : System Bool
together = record { orch = record idle { branches = family; seq = 2 }; file = family; world = true }

abbrev ids : List Branch → List String
ids [] = []
ids (c ∷ cs) = c.branch_id ∷ ids cs

abbrev ids_of : Option (Reply (List Branch) × System Bool) → List String
ids_of none = []
ids_of (some (done cs, s)) = ids cs
ids_of (some (failed e, s)) = []

sweeps :
    (kept family "r/1" ≡ "r" ∷ "r/1" ∷ [])
    × (losers (kept family "r/1") family ≡ "r/2" ∷ [])
    × ((close backends together).1.file ≡ [])
    × (ids_of (fork backends 3 none "r" 2 none together) ≡ "r/3" ∷ "r/4" ∷ [])
    × ((fork backends 3 none "r" 1 (some ("r/1" ∷ [])) together)
        ≡ some (failed bad_value, together))
unfolding program
sweeps = (refl, refl, refl, refl, refl)

kill_losers_spares_example :
    EndLeaves backends
      (λ s. s)
      "r"
      (λ s. refl)
      together
      (kill_losers backends (λ s. s) 9 "r/1" together)
unfolding program
kill_losers_spares_example =
    kill_losers_spares backends (λ s. s) "r" (λ s. refl) 9 "r/1" together (up "r" here refl)
