-- ===== src/Orchestrator/Keeps.antt =====
-- The methods of `ForkOrchestrator` (agentfork/orchestrator.py) and the registry file
use agentfork.Base.{ℕ, String, Bool, true, false, Option, none, some, List, [], ◌∷◌}
use agentfork.Base.Int.{ℤ}
use agentfork.Orchestrator.{
  Branch, KillReceipt, System, Reply, done, failed, Failure, ensure_open, lease_expiry,
}
use agentfork.Orchestrator.Backends.{Backends, replace_branch, record_branch, forget}
use agentfork.Orchestrator.Kill.{
  kill_branch, journaled, reap, end_kill, forgotten, kv_killed, sandbox_killed, is_busy, to_killing,
  guarded_kill, end_killing, start_killing,
}
use agentfork.Orchestrator.Spawn.{
  create_parent, guarded_create, commit_child, leased, recorded, set_up, finish, go_live, settled,
  roll_back, raising, rollback_branch, cleaned, spawn_one, forked, to_live, start_spawning,
  new_branch,
}
use agentfork.Orchestrator.Collect.{kill_all, collected, guarded_reconcile, reconcile}
use agentfork.Orchestrator.Durable.{
  IsDurable, record_branch-IsDurable, forget-IsDurable, replace_branch-IsDurable,
}

module _ {W : Type 0} (b : Backends W) where
  forgotten-IsDurable :
      (id : String) (freed : ℕ) (r : Bool × System W)
      → IsDurable r.1
      → IsDurable (forgotten b id freed r).1
  forgotten-IsDurable id freed (true, s) h = h
  forgotten-IsDurable id freed (false, s) h = h

  end_kill-IsDurable :
      (id : String) (freed : ℕ) (s : System W) → IsDurable s → IsDurable (end_kill b id freed s).1
  unfolding end_kill
  end_kill-IsDurable id freed s h =
      forgotten-IsDurable id freed (forget b id (end_killing b id s))
        (forget-IsDurable b id (end_killing b id s) h)

  kv_killed-IsDurable :
      (id : String) (s : System W) (r : Option ℕ × W)
      → IsDurable s
      → IsDurable (kv_killed b id s r).1
  kv_killed-IsDurable id s (none, w) h = h
  kv_killed-IsDurable id s (some freed, w) h =
      end_kill-IsDurable id freed (record s { world = w }) h

  sandbox_killed-IsDurable :
      (id : String) (s : System W) (r : Bool × W)
      → IsDurable s
      → IsDurable (sandbox_killed b id s r).1
  sandbox_killed-IsDurable id s (false, w) h = h
  sandbox_killed-IsDurable id s (true, w) h = kv_killed-IsDurable id s (b.kv_kill id w) h

  journaled-IsDurable :
      (id : String) (r : Reply Branch × System W) → IsDurable r.1 → IsDurable (journaled b id r).1
  unfolding reap
  journaled-IsDurable id (failed e, s) h = h
  journaled-IsDurable id (done branch, s) h =
      sandbox_killed-IsDurable id s (b.sandbox_kill id s.world) h

  guarded_kill-IsDurable :
      (open_ busy : Bool) (id : String) (s : System W)
      → IsDurable s
      → IsDurable (guarded_kill b open_ busy id s).1
  guarded_kill-IsDurable false busy id s h = h
  guarded_kill-IsDurable true true id s h = h
  guarded_kill-IsDurable true false id s h =
      journaled-IsDurable id (replace_branch b id (to_killing b) (start_killing b id s))
        (replace_branch-IsDurable b id (to_killing b) (start_killing b id s) h)

  -- A kill keeps the registry file in step with memory, also where it raises.
  pub kill_branch-IsDurable :
      (allow_closing : Bool) (id : String) (s : System W)
      → IsDurable s
      → IsDurable (kill_branch b allow_closing id s).1
  unfolding kill_branch
  kill_branch-IsDurable allow id s h =
      guarded_kill-IsDurable (ensure_open allow s.orch) (is_busy b id s) id s h

  raising-IsDurable :
      (e : Failure) (r : Bool × System W) → IsDurable r.1 → IsDurable (raising b e r).1
  raising-IsDurable e (true, s) h = h
  raising-IsDurable e (false, s) h = h

  cleaned-IsDurable :
      (e : Failure) (id : String) (freed : Option ℕ) (r : Bool × W) (s : System W)
      → IsDurable s
      → IsDurable (cleaned b e id freed r s).1
  cleaned-IsDurable e id (some freed) (true, w) s h =
      raising-IsDurable e (forget b id (record s { world = w }))
        (forget-IsDurable b id (record s { world = w }) h)
  cleaned-IsDurable e id (some freed) (false, w) s h = h
  cleaned-IsDurable e id none r s h = h

  roll_back-IsDurable :
      (e : Failure) (id : String) (s : System W) → IsDurable s → IsDurable (roll_back b e id s).1
  unfolding rollback_branch
  roll_back-IsDurable e id s h =
      let r = b.kv_kill id s.world in cleaned-IsDurable e id r.0 (b.sandbox_kill id r.1) s h

  settled-IsDurable :
      (id : String) (r : Reply Branch × System W) → IsDurable r.1 → IsDurable (settled b id r).1
  settled-IsDurable id (done branch, s) h = h
  settled-IsDurable id (failed e, s) h = roll_back-IsDurable e id s h

  go_live-IsDurable : (id : String) (s : System W) → IsDurable s → IsDurable (go_live b id s).1
  go_live-IsDurable id s h =
      settled-IsDurable id (replace_branch b id (to_live b) s)
        (replace_branch-IsDurable b id (to_live b) s h)

  finish-IsDurable :
      (id : String) (s : System W) (r : Bool × W) → IsDurable s → IsDurable (finish b id s r).1
  finish-IsDurable id s (true, w) h = go_live-IsDurable id (record s { world = w }) h
  finish-IsDurable id s (false, w) h = roll_back-IsDurable _ id (record s { world = w }) h

  recorded-IsDurable :
      (id : String) (tokens : List ℕ) (r : Bool × System W)
      → IsDurable r.1
      → IsDurable (recorded b id tokens r).1
  unfolding set_up
  recorded-IsDurable id tokens (false, s) h = h
  recorded-IsDurable id tokens (true, s) h = finish-IsDurable id (start_spawning b id s) _ h

  leased-IsDurable :
      (now : ℕ) (id : String) (tokens : List ℕ) (s : System W) (expires : Reply (Option ℕ))
      → IsDurable s
      → IsDurable (leased b now id tokens s expires).1
  leased-IsDurable now id tokens s (failed e) h = h
  leased-IsDurable now id tokens s (done at) h =
      recorded-IsDurable id tokens (record_branch b (new_branch b now id none at) s)
        (record_branch-IsDurable b (new_branch b now id none at) s h)

  guarded_create-IsDurable :
      (open_ refused taken : Bool) (now : ℕ) (id : String) (tokens : List ℕ) (lease_s : Option ℤ)
      (s : System W)
      → IsDurable s
      → IsDurable (guarded_create b open_ refused taken now id tokens lease_s s).1
  guarded_create-IsDurable false refused taken now id tokens lease_s s h = h
  guarded_create-IsDurable true true taken now id tokens lease_s s h = h
  guarded_create-IsDurable true false true now id tokens lease_s s h = h
  guarded_create-IsDurable true false false now id tokens lease_s s h =
      leased-IsDurable now id tokens s (lease_expiry now s.orch.default_lease_s lease_s) h

  -- The creation of a root keeps the registry file in step with memory, also where it is rolled
  -- back.
  pub create_parent-IsDurable :
      (now : ℕ) (id : String) (tokens : List ℕ) (lease_s : Option ℤ) (s : System W)
      → IsDurable s
      → IsDurable (create_parent b now id tokens lease_s s).1
  unfolding create_parent
  create_parent-IsDurable now id tokens lease_s s h =
      guarded_create-IsDurable _ _ _ now id tokens lease_s s h

  commit_child-IsDurable :
      (alive : Bool) (id : String) (s : System W)
      → IsDurable s
      → IsDurable (commit_child b alive id s).1
  commit_child-IsDurable true id s h = go_live-IsDurable id s h
  commit_child-IsDurable false id s h = roll_back-IsDurable _ id s h

  forked-IsDurable :
      (parent_id id : String) (s : System W) (r : Bool × W)
      → IsDurable s
      → IsDurable (forked b parent_id id s r).1
  forked-IsDurable parent_id id s (false, w) h = roll_back-IsDurable _ id (record s { world = w }) h
  forked-IsDurable parent_id id s (true, w) h =
      commit_child-IsDurable _ id (record s { world = w }) h

  -- The start of a forked child keeps the registry file in step with memory, also where it is
  -- rolled back.
  pub spawn_one-IsDurable :
      (parent_id id : String) (s : System W)
      → IsDurable s
      → IsDurable (spawn_one b parent_id id s).1
  unfolding spawn_one
  spawn_one-IsDurable parent_id id s h = forked-IsDurable parent_id id s _ h

  kill_all-IsDurable :
      (allow : Bool) (ids : List String) (e : Option Failure) (rs : List KillReceipt) (s : System W)
      → IsDurable s
      → IsDurable (kill_all b allow ids e rs s).1.1
  unfolding kill_all
  kill_all-IsDurable allow [] e rs s h = h
  kill_all-IsDurable allow (id ∷ ids) e rs s h =
      kill_all-IsDurable allow ids _ _ (kill_branch b allow id s).1
        (kill_branch-IsDurable allow id s h)

  collected-IsDurable :
      (expired : List String) (r : Option Failure × (List KillReceipt × System W))
      → IsDurable r.1.1
      → IsDurable (collected b expired r).1
  collected-IsDurable expired (some e, (rs, s)) h = h
  collected-IsDurable expired (none, (rs, s)) h = h

  guarded_reconcile-IsDurable :
      (open_ : Bool) (now : ℕ) (s : System W)
      → IsDurable s
      → IsDurable (guarded_reconcile b open_ now s).1
  guarded_reconcile-IsDurable false now s h = h
  guarded_reconcile-IsDurable true now s h =
      collected-IsDurable _ _ (kill_all-IsDurable false _ none [] s h)

  -- A pass of `reconcile` over backends that are not parallel keeps the registry file in step with
  -- memory, whatever the kills do.
  pub reconcile-IsDurable : (now : ℕ) (s : System W) → IsDurable s → IsDurable (reconcile b now s).1
  unfolding reconcile
  reconcile-IsDurable now s h = guarded_reconcile-IsDurable _ now s h
