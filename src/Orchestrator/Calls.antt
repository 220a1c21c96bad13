-- ===== src/Orchestrator/Calls.antt =====
-- The calls that `ForkOrchestrator` (agentfork/orchestrator.py) passes on to a backend, `reap_expired`,
-- the sweep of the background thread, and `close`
use agentfork.Base.{
  ℕ, ◌+◌, String, Bool, true, false, not, ◌&&◌, Option, none, some, List, [], ◌∷◌, if◌then◌else◌,
}
use agentfork.Base.Dict.{Dict, lookup, keys, mem}
use agentfork.Orchestrator.{
  Branch, KillReceipt, System, Reply, done, failed, Failure, closed, unsupported, no_branch,
  backend_failed, ensure_open,
}
use agentfork.Orchestrator.Backends.{Backends}
use agentfork.Orchestrator.Kill.{kill_branch}
use agentfork.Orchestrator.Spawn.{is_live_branch}
use agentfork.Orchestrator.Collect.{is_expired, kill_all, count_expired}

-- The calls that a backend may offer: `none` is an attribute that it lacks, and a call that raises
-- gives no value.
abbrev pub Call : Type 0 → Type 0 → Type 0
Call W A = Option (W → Option A × W)

module _ {W : Type 0} (b : Backends W) where
  abbrev pub replied : {A : Type 0} → System W → Option A × W → Reply A × System W
  replied s (none, w) = (failed backend_failed, record s { world = w })
  replied s (some a, w) = (done a, record s { world = w })

  abbrev pub count_exec : System W → System W
  count_exec s = record s {
    orch = record s.orch { metrics = record s.orch.metrics { execs = s.orch.metrics.execs + 1 } };
  }

  -- The section that the calls share: open, live, and offered
  abbrev pub guarded_call :
      {A : Type 0} → Bool → Bool → Call W A → (System W → System W) → System W → Reply A × System W
  guarded_call false live call count s = (failed closed, s)
  guarded_call true false call count s = (failed no_branch, s)
  guarded_call true true none count s = (failed unsupported, s)
  guarded_call true true (some call) count s = replied (count s) (call s.world)

  abbrev pub pass_on :
      {A : Type 0} → Call W A → (System W → System W) → String → System W → Reply A × System W
  pass_on call count id s =
      guarded_call (ensure_open false s.orch) (is_live_branch (lookup id s.orch.branches)) call
        count s

  -- `extend`, with the call of the KV backend
  unfoldable pub extend_branch :
      {A : Type 0} → (W → Option A × W) → String → System W → Reply A × System W
  extend_branch call id s = pass_on (some call) (λ t. t) id s

  unfoldable pub exec_branch : {A : Type 0} → Call W A → String → System W → Reply A × System W
  exec_branch call id s = pass_on call count_exec id s

  -- `exec_detached` differs in the call only.
  unfoldable pub exec_branch_detached :
      {A : Type 0} → Call W A → String → System W → Reply A × System W
  exec_branch_detached call id s = pass_on call count_exec id s

  unfoldable pub export_artifact : {A : Type 0} → Call W A → String → System W → Reply A × System W
  export_artifact call id s = pass_on call (λ t. t) id s

  abbrev pub ended_branch : {A : Type 0} → A → Reply KillReceipt × System W → Reply A × System W
  ended_branch a (done r, s) = (done a, s)
  ended_branch a (failed e, s) = (failed e, s)

  abbrev pub generated : {A : Type 0} → Bool → String → Reply A × System W → Reply A × System W
  generated branch_end id (failed e, s) = (failed e, s)
  generated false id (done a, s) = (done a, s)
  generated true id (done a, s) = ended_branch a (kill_branch b false id s)

  -- `generate`: the branch is killed after an inference that ends it
  unfoldable pub generate : {A : Type 0} → Call W A → Bool → String → System W → Reply A × System W
  generate call branch_end id s = generated branch_end id (pass_on call (λ t. t) id s)

  -- `alive`, with what the sandbox and the KV backend say
  unfoldable pub alive : (W → Bool) → Option (W → Bool) → String → System W → Bool
  alive sandbox_alive has_tree id s =
      is_live_branch (lookup id s.orch.branches)
      && sandbox_alive s.world
      && elim has_tree [ none ↦ true | some ask ↦ ask s.world ]

  -- The comprehension of `reap_expired`
  unfoldable pub lapsed : ℕ → List String → Dict Branch → List String
  lapsed now in_spawn [] = []
  lapsed now in_spawn ((id, branch) ∷ d) =
      if is_expired now branch && not (mem id in_spawn)
      then id ∷ lapsed now in_spawn d
      else lapsed now in_spawn d

  unfoldable pub all_reaped : List KillReceipt → ℕ
  all_reaped [] = 0
  all_reaped (r ∷ rs) = if r.reaped then all_reaped rs + 1 else all_reaped rs

  abbrev pub reaped :
      Option Failure × (List KillReceipt × System W) → Reply (List KillReceipt) × System W
  reaped (some e, (rs, s)) = (failed e, s)
  reaped (none, (rs, s)) = (done rs, count_expired b (all_reaped rs) s)

  abbrev pub guarded_reap : Bool → ℕ → System W → Reply (List KillReceipt) × System W
  guarded_reap false now s = (failed closed, s)
  guarded_reap true now s =
      reaped (kill_all b false (lapsed now s.orch.in_spawn s.orch.branches) none [] s)

  unfoldable pub reap_expired : ℕ → System W → Reply (List KillReceipt) × System W
  unfolding lapsed all_reaped
  reap_expired now s = guarded_reap (ensure_open false s.orch) now s

  abbrev pub count_restart : System W → System W
  count_restart s = record s {
    orch = record s.orch {
      metrics = record s.orch.metrics { restarted = s.orch.metrics.restarted + 1 };
    };
  }

  abbrev pub count_swept : System W → System W
  count_swept s = record s {
    orch = record s.orch {
      metrics = record s.orch.metrics { swept_dead = s.orch.metrics.swept_dead + 1 };
    };
  }

  abbrev pub collected_dead : Reply KillReceipt × System W → Option Failure × System W
  collected_dead (failed e, s) = (some e, s)
  collected_dead (done r, s) = elim r.reaped [ true ↦ (none, count_swept s) | false ↦ (none, s) ]

  abbrev pub restarted_or : String → Bool × W → System W → Option Failure × System W
  restarted_or id (true, w) s = (none, count_restart (record s { world = w }))
  restarted_or id (false, w) s = collected_dead (kill_branch b false id (record s { world = w }))

  -- `_try_restart` of a live branch whose sandbox died, where the backend can restart, and its
  -- collection otherwise; a `restart` that raises counts as one that says no.
  abbrev pub handle_dead :
      Option (String → W → Bool × W) → Bool → String → System W → Option Failure × System W
  handle_dead none live id s = collected_dead (kill_branch b false id s)
  handle_dead (some restart) false id s = collected_dead (kill_branch b false id s)
  handle_dead (some restart) true id s = restarted_or id (restart id s.world) s

  -- The loop of `_reaper_loop` over the dead branches; an error ends the pass.
  unfoldable pub sweep_dead :
      Option (String → W → Bool × W) → List String → System W → Option Failure × System W
  sweep_dead restart [] s = (none, s)
  sweep_dead restart (id ∷ ids) s =
      let live = is_live_branch (lookup id s.orch.branches) && not (mem id s.orch.in_kill) in
      let (e, s') = handle_dead restart live id s in
      elim e [ none ↦ sweep_dead restart ids s' | some e' ↦ (some e', s') ]

  abbrev pub close_down : Bool → System W → System W
  close_down ended s = record s {
    orch = record s.orch { is_closing = not ended; is_closed = ended };
  }

  abbrev pub closed_with :
      Option Failure × (List KillReceipt × System W) → Option Failure × System W
  closed_with (e, (rs, s)) = (e, close_down true s)

  -- `close` once no spawn and no kill is in flight
  unfoldable pub close : System W → Option Failure × System W
  unfolding kill_all
  close s = elim s.orch.is_closed [
    | true ↦ (none, s)
    | false ↦ closed_with (kill_all b true (keys s.orch.branches) none [] (close_down false s))
  ]
