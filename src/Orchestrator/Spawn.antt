-- ===== src/Orchestrator/Spawn.antt =====
-- `ForkOrchestrator.create_parent` and the `spawn_one` of `fork` (agentfork/orchestrator.py): intent
-- is journaled first, and a branch whose backends fail is rolled back.
use agentfork.Base.{ℕ, String, Bool, true, false, not, ◌&&◌, Option, none, some, List, [], ◌∷◌}
use agentfork.Base.Int.{ℤ}
use agentfork.Base.Dict.{lookup, contains, add, discard}
use agentfork.Orchestrator.{
  Branch, System, Reply, done, failed, Failure, closed, unsupported, bad_value, write_failed,
  backend_failed, forking, live, is_live, ensure_open, lease_expiry,
}
use agentfork.Orchestrator.Backends.{Backends, record_branch, replace_branch, forget}

-- `branch is not None and branch.state == _STATE_LIVE`
abbrev pub is_live_branch : Option Branch → Bool
is_live_branch none = false
is_live_branch (some branch) = is_live branch.state

module _ {W : Type 0} (b : Backends W) where
  abbrev pub start_spawning : String → System W → System W
  start_spawning id s = record s { orch = record s.orch { in_spawn = add id s.orch.in_spawn } }

  abbrev pub end_spawning : String → System W → System W
  end_spawning id s = record s { orch = record s.orch { in_spawn = discard id s.orch.in_spawn } }

  abbrev pub raising : Failure → Bool × System W → Failure × System W
  raising e (true, s) = (e, s)
  raising e (false, s) = (write_failed, s)

  abbrev pub cleaned : Failure → String → Option ℕ → Bool × W → System W → Failure × System W
  cleaned e id (some freed) (true, w) s = raising e (forget b id (record s { world = w }))
  cleaned e id (some freed) (false, w) s = (e, record s { world = w })
  cleaned e id none (reaped, w) s = (e, record s { world = w })

  -- `_rollback_branch`, and what is raised after it
  unfoldable pub rollback_branch : Failure → String → System W → Failure × System W
  rollback_branch e id s =
      let (freed, w) = b.kv_kill id s.world in cleaned e id freed (b.sandbox_kill id w) s

  abbrev pub raised : String → Failure × System W → Reply Branch × System W
  raised id (e, s) = (failed e, end_spawning id s)

  -- the `except` and the `finally`
  abbrev pub roll_back : Failure → String → System W → Reply Branch × System W
  roll_back e id s = raised id (rollback_branch e id s)

  abbrev pub settled : String → Reply Branch × System W → Reply Branch × System W
  settled id (done branch, s) = (done branch, end_spawning id s)
  settled id (failed e, s) = roll_back e id s

  abbrev pub to_live : Branch → Branch
  to_live branch = record branch { state = live }

  abbrev pub go_live : String → System W → Reply Branch × System W
  go_live id s = settled id (replace_branch b id to_live s)

  -- `if tokens: self.kv.extend(branch_id, tokens)`
  abbrev pub fill : String → List ℕ → W → Bool × W
  fill id [] w = (true, w)
  fill id (t ∷ ts) w = b.extend id (t ∷ ts) w

  abbrev pub then_do : Bool × W → (W → Bool × W) → Bool × W
  then_do (true, w) f = f w
  then_do (false, w) f = (false, w)

  abbrev pub finish : String → System W → Bool × W → Reply Branch × System W
  finish id s (true, w) = go_live id (record s { world = w })
  finish id s (false, w) = roll_back backend_failed id (record s { world = w })

  -- `create_parent` after the record is written
  unfoldable pub set_up : String → List ℕ → System W → Reply Branch × System W
  unfolding rollback_branch
  set_up id tokens s = finish id s (
      then_do (then_do (then_do (b.create_tree id s.world) (b.spawn id none)) (b.wait_ready id))
        (fill id tokens))

  abbrev pub recorded : String → List ℕ → Bool × System W → Reply Branch × System W
  recorded id tokens (false, s) = (failed write_failed, s)
  recorded id tokens (true, s) = set_up id tokens (start_spawning id s)

  abbrev pub is_empty : List ℕ → Bool
  is_empty [] = true
  is_empty (t ∷ ts) = false

  abbrev pub new_branch : ℕ → String → Option String → Option ℕ → Branch
  new_branch now id parent_id expires = record {
    branch_id = id;
    parent_id = parent_id;
    state = forking;
    created_at = now;
    lease_expires_at = expires;
  }

  abbrev pub leased : ℕ → String → List ℕ → System W → Reply (Option ℕ) → Reply Branch × System W
  leased now id tokens s (failed e) = (failed e, s)
  leased now id tokens s (done expires) =
      recorded id tokens (record_branch b (new_branch now id none expires) s)

  -- The guards: is the orchestrator open, are tokens refused, is the name taken
  abbrev pub guarded_create :
      Bool → Bool → Bool → ℕ → String → List ℕ → Option ℤ → System W → Reply Branch × System W
  guarded_create false refused taken now id tokens lease_s s = (failed closed, s)
  guarded_create true true taken now id tokens lease_s s = (failed unsupported, s)
  guarded_create true false true now id tokens lease_s s = (failed bad_value, s)
  guarded_create true false false now id tokens lease_s s =
      leased now id tokens s (lease_expiry now s.orch.default_lease_s lease_s)

  unfoldable pub create_parent : ℕ → String → List ℕ → Option ℤ → System W → Reply Branch × System W
  unfolding set_up
  create_parent now id tokens lease_s s =
      guarded_create (ensure_open false s.orch) (not (is_empty tokens) && b.external_data_path)
        (contains id s.orch.branches) now id tokens lease_s s

  -- The last section of `spawn_one`, by whether the parent is still live
  abbrev pub commit_child : Bool → String → System W → Reply Branch × System W
  commit_child true id s = go_live id s
  commit_child false id s = roll_back unsupported id s

  abbrev pub forked : String → String → System W → Bool × W → Reply Branch × System W
  forked parent_id id s (false, w) = roll_back backend_failed id (record s { world = w })
  forked parent_id id s (true, w) =
      commit_child (is_live_branch (lookup parent_id s.orch.branches)) id (record s { world = w })

  -- The `spawn_one` of `fork`, for a child that is recorded
  unfoldable pub spawn_one : String → String → System W → Reply Branch × System W
  unfolding rollback_branch
  spawn_one parent_id id s =
      forked parent_id id s
        (then_do (b.fork_branch parent_id id s.world) (b.spawn id (some parent_id)))
