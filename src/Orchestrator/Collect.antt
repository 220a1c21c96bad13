-- ===== src/Orchestrator/Collect.antt =====
-- What `ForkOrchestrator.reconcile`, `reap_expired` and `renew_lease` (agentfork/orchestrator.py)
-- choose, and the kills they make one after the other.
use agentfork.Base.{
  ℕ, ◌+◌, String, Bool, true, false, not, ◌&&◌, ◌||◌, Option, none, some, List, [], ◌∷◌, ◌++◌, leb,
  if◌then◌else◌,
}
use agentfork.Base.Int.{ℤ}
use agentfork.Base.Dict.{Dict, lookup, mem}
use agentfork.Orchestrator.{
  Branch, BranchState, forking, live, killing, KillReceipt, ForkOrchestrator, System, Reply, done,
  failed, Failure, closed, no_branch, ensure_open, expiry,
}
use agentfork.Orchestrator.Backends.{Backends, replace_branch}
use agentfork.Orchestrator.Kill.{kill_branch}
use agentfork.Orchestrator.Spawn.{is_live_branch}

-- `b.state in (_STATE_FORKING, _STATE_KILLING)`
abbrev pub is_partial : BranchState → Bool
is_partial forking = true
is_partial live = false
is_partial killing = true

-- in flight in this process
abbrev pub is_in_flight : ForkOrchestrator → String → Bool
is_in_flight o id = mem id o.in_spawn || mem id o.in_kill

-- the first comprehension of `reconcile`
unfoldable pub partials : ForkOrchestrator → Dict Branch → List String
partials o [] = []
partials o ((id, branch) ∷ d) =
    if is_partial branch.state && not (is_in_flight o id) then id ∷ partials o d else partials o d

-- the branches loaded from a previous owner
unfoldable pub loaded_stuck : ForkOrchestrator → List String → List String → List String
loaded_stuck o stuck [] = []
loaded_stuck o stuck (id ∷ ids) =
    if not (mem id stuck) && not (is_in_flight o id)
    then id ∷ loaded_stuck o stuck ids
    else loaded_stuck o stuck ids

unfoldable pub stuck_branches : ForkOrchestrator → List String
unfolding partials loaded_stuck
stuck_branches o =
    let stuck = partials o o.branches in stuck ++ loaded_stuck o stuck o.loaded_branch_ids

abbrev pub is_expired : ℕ → Branch → Bool
is_expired now branch = elim branch.lease_expires_at [ none ↦ false | some at ↦ leb at now ]

unfoldable pub expired_branches : ℕ → ForkOrchestrator → List String → Dict Branch → List String
expired_branches now o stuck [] = []
expired_branches now o stuck ((id, branch) ∷ d) =
    if is_expired now branch && not (is_in_flight o id) && not (mem id stuck)
    then id ∷ expired_branches now o stuck d
    else expired_branches now o stuck d

module _ {W : Type 0} (b : Backends W) where
  abbrev pub first_error : Option Failure → Reply KillReceipt → Option Failure
  first_error (some e) r = some e
  first_error none (done r) = none
  first_error none (failed e) = some e

  abbrev pub receipts_with : List KillReceipt → Reply KillReceipt → List KillReceipt
  receipts_with rs (done r) = rs ++ (r ∷ [])
  receipts_with rs (failed e) = rs

  -- The loop of `_fan_out` with `kill`, where the backends are not parallel: all are attempted.
  unfoldable pub kill_all :
      Bool
      → List String
      → Option Failure
      → List KillReceipt
      → System W
      → Option Failure × (List KillReceipt × System W)
  kill_all allow [] error rs s = (error, (rs, s))
  kill_all allow (id ∷ ids) error rs s =
      let (r, s') = kill_branch b allow id s in
      kill_all allow ids (first_error error r) (receipts_with rs r) s'

  abbrev pub renewed : String → Reply (Option ℕ) → System W → Reply Branch × System W
  renewed id (failed e) s = (failed e, s)
  renewed id (done expires) s =
      replace_branch b id (λ branch. record branch { lease_expires_at = expires }) s

  -- The guards: is the orchestrator open, and the branch live
  abbrev pub guarded_renew :
      Bool → Bool → String → Reply (Option ℕ) → System W → Reply Branch × System W
  guarded_renew false found id expires s = (failed closed, s)
  guarded_renew true false id expires s = (failed no_branch, s)
  guarded_renew true true id expires s = renewed id expires s

  unfoldable pub renew_lease : ℕ → String → ℤ → System W → Reply Branch × System W
  renew_lease now id lease_s s =
      guarded_renew (ensure_open false s.orch) (is_live_branch (lookup id s.orch.branches)) id
        (expiry now (some lease_s)) s

  -- `reconcile`, by whether the orchestrator is open. The last test counts the expired branches
  -- that were killed.
  unfoldable pub count_reaped : List String → List KillReceipt → ℕ
  count_reaped expired [] = 0
  count_reaped expired (r ∷ rs) =
      if r.reaped && mem r.branch_id expired
      then count_reaped expired rs + 1
      else count_reaped expired rs

  abbrev pub count_reconcile : System W → System W
  count_reconcile s = record s {
    orch = record s.orch {
      metrics = record s.orch.metrics { reconciles = s.orch.metrics.reconciles + 1 };
    };
  }

  abbrev pub count_expired : ℕ → System W → System W
  count_expired n s = record s {
    orch = record s.orch {
      metrics = record s.orch.metrics { reaped_expired = s.orch.metrics.reaped_expired + n };
    };
  }

  abbrev pub collected :
      List String
      → Option Failure × (List KillReceipt × System W)
      → Reply (List KillReceipt) × System W
  collected expired (some e, (rs, s)) = (failed e, count_reconcile s)
  collected expired (none, (rs, s)) =
      (done rs, count_expired (count_reaped expired rs) (count_reconcile s))

  abbrev pub guarded_reconcile : Bool → ℕ → System W → Reply (List KillReceipt) × System W
  guarded_reconcile false now s = (failed closed, s)
  guarded_reconcile true now s =
      let stuck = stuck_branches s.orch in
      let expired = expired_branches now s.orch stuck s.orch.branches in
      collected expired (kill_all false (stuck ++ expired) none [] s)

  unfoldable pub reconcile : ℕ → System W → Reply (List KillReceipt) × System W
  unfolding kill_all stuck_branches expired_branches count_reaped
  reconcile now s = guarded_reconcile (ensure_open false s.orch) now s
