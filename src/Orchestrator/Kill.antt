-- ===== src/Orchestrator/Kill.antt =====
-- `ForkOrchestrator.kill` (agentfork/orchestrator.py): the two sections under the lock, and the
-- calls of the backends between them.
use agentfork.Base.{ℕ, ◌+◌, String, Bool, true, false, not, ◌||◌, Option, none, some}
use agentfork.Base.Dict.{contains, mem, add, discard}
use agentfork.Orchestrator.{
  Branch, KillReceipt, System, Reply, done, failed, closed, write_failed, backend_failed, killing,
  ensure_open,
}
use agentfork.Orchestrator.Backends.{Backends, replace_branch, forget}

module _ {W : Type 0} (b : Backends W) where
  abbrev pub end_killing : String → System W → System W
  end_killing id s = record s { orch = record s.orch { in_kill = discard id s.orch.in_kill } }

  abbrev pub start_killing : String → System W → System W
  start_killing id s = record s { orch = record s.orch { in_kill = add id s.orch.in_kill } }

  abbrev pub count_failure : System W → System W
  count_failure s = record s {
    orch = record s.orch {
      metrics = record s.orch.metrics { kill_failures = s.orch.metrics.kill_failures + 1 };
    };
  }

  abbrev pub count_kill : System W → System W
  count_kill s = record s {
    orch = record s.orch { metrics = record s.orch.metrics { kills = s.orch.metrics.kills + 1 } };
  }

  -- The handler around the two backend calls
  abbrev pub fail_kill : String → System W → Reply KillReceipt × System W
  fail_kill id s = (failed backend_failed, count_failure (end_killing id s))

  abbrev pub forgotten : String → ℕ → Bool × System W → Reply KillReceipt × System W
  forgotten id freed (true, s) =
      (done (record { branch_id = id; kv_freed_tokens = freed; reaped = true }), count_kill s)
  forgotten id freed (false, s) = (failed write_failed, s)

  -- The last section
  unfoldable pub end_kill : String → ℕ → System W → Reply KillReceipt × System W
  end_kill id freed s = forgotten id freed (forget b id (end_killing id s))

  abbrev pub kv_killed : String → System W → Option ℕ × W → Reply KillReceipt × System W
  kv_killed id s (none, w) = fail_kill id (record s { world = w })
  kv_killed id s (some freed, w) = end_kill id freed (record s { world = w })

  abbrev pub sandbox_killed : String → System W → Bool × W → Reply KillReceipt × System W
  sandbox_killed id s (false, w) = fail_kill id (record s { world = w })
  sandbox_killed id s (true, w) = kv_killed id s (b.kv_kill id w)

  -- `self.sandbox.kill(branch_id)` and then `self.kv.kill(branch_id)`
  unfoldable pub reap : String → System W → Reply KillReceipt × System W
  unfolding end_kill
  reap id s = sandbox_killed id s (b.sandbox_kill id s.world)

  abbrev pub journaled : String → Reply Branch × System W → Reply KillReceipt × System W
  journaled id (failed e, s) = (failed e, end_killing id s)
  journaled id (done branch, s) = reap id s

  abbrev pub to_killing : Branch → Branch
  to_killing branch = record branch { state = killing }

  -- unknown, or in flight on another thread
  abbrev pub is_busy : String → System W → Bool
  is_busy id s =
      not (contains id s.orch.branches) || mem id s.orch.in_kill || mem id s.orch.in_spawn

  -- The first section, by whether the orchestrator is open and whether the branch is busy
  abbrev pub guarded_kill : Bool → Bool → String → System W → Reply KillReceipt × System W
  guarded_kill false busy id s = (failed closed, s)
  guarded_kill true true id s =
      (done (record { branch_id = id; kv_freed_tokens = 0; reaped = false }), s)
  guarded_kill true false id s = journaled id (replace_branch b id to_killing (start_killing id s))

  -- `_kill`, which `kill` calls with `allow_closing=False`
  unfoldable pub kill_branch : Bool → String → System W → Reply KillReceipt × System W
  unfolding reap
  kill_branch allow_closing id s =
      guarded_kill (ensure_open allow_closing s.orch) (is_busy id s) id s
