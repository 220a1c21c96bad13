-- ===== src/Orchestrator/Fork.antt =====
-- `ForkOrchestrator.fork` (agentfork/orchestrator.py): the children are named and journaled at once,
-- and then started one after the other.
use agentfork.Base.{
  ℕ, zero, suc, ◌+◌, String, Bool, true, false, ◌||◌, Option, none, some, List, [], ◌∷◌, ◌++◌, ◌==◌,
  length, if◌then◌else◌, same, child_name,
}
use agentfork.Base.Int.{ℤ}
use agentfork.Base.Dict.{Dict, lookup, insert, erase, contains, add}
use agentfork.Orchestrator.{
  Branch, System, Reply, done, failed, Failure, closed, bad_value, no_branch, write_failed,
  ensure_open, lease_expiry,
}
use agentfork.Orchestrator.Backends.{Backends, persist, with_branches}
use agentfork.Orchestrator.Spawn.{new_branch, spawn_one, is_live_branch}

-- `_next_child_id`, on fuel: the first name from `seq` on that no record has, and its number
unfoldable pub next_child_id : ℕ → String → Dict Branch → ℕ → Option (String × ℕ)
next_child_id zero parent_id d seq = none
next_child_id (suc n) parent_id d seq =
    let later = next_child_id n parent_id d (seq + 1) in
    if contains (child_name parent_id (seq + 1)) d
    then later
    else some (child_name parent_id (seq + 1), seq + 1)

-- `any(c.branch_id == child_id for c in children)`
unfoldable pub is_among : String → List Branch → Bool
is_among id [] = false
is_among id (c ∷ cs) = if same c.branch_id id then true else is_among id cs

-- The children so far, or what is raised; and `_seq`
abbrev pub Prepared : Type 0
Prepared = Reply (List Branch) × ℕ

module _ {W : Type 0} (b : Backends W) where
  abbrev pub leased_child :
      ℕ → String → String → List Branch → Reply (Option ℕ) → Reply (List Branch)
  leased_child now parent_id id cs (failed e) = failed e
  leased_child now parent_id id cs (done expires) =
      done (cs ++ new_branch b now id (some parent_id) expires ∷ [])

  -- One round of the loop that makes the children, once the child has its name
  unfoldable pub add_child :
      ℕ → Option ℤ → String → String → List Branch → System W → Reply (List Branch)
  unfolding is_among
  add_child now lease_s parent_id id cs s =
      if contains id s.orch.branches || is_among id cs
      then failed bad_value
      else leased_child now parent_id id cs (lease_expiry now s.orch.default_lease_s lease_s)

  -- The loop where the caller names the children
  unfoldable pub named_children :
      ℕ → Option ℤ → String → List String → List Branch → System W → Reply (List Branch)
  unfolding add_child
  named_children now lease_s parent_id [] cs s = done cs
  named_children now lease_s parent_id (id ∷ ids) cs s =
      elim (add_child now lease_s parent_id id cs s) [
        | failed e ↦ failed e
        | done cs' ↦ named_children now lease_s parent_id ids cs' s
      ]

  -- The loop where it does not: the count of children left, and `_seq`
  unfoldable pub numbered_children :
      ℕ → Option ℤ → String → ℕ → List Branch → ℕ → System W → Option Prepared
  unfolding add_child
  numbered_children now lease_s parent_id zero cs seq s = some (done cs, seq)
  numbered_children now lease_s parent_id (suc n) cs seq s =
      elim (next_child_id (length s.orch.branches + 1) parent_id s.orch.branches seq) [
        | none ↦ none
        | some named ↦ elim (add_child now lease_s parent_id named.0 cs s) [
          | failed e ↦ some (failed e, named.1)
          | done cs' ↦ numbered_children now lease_s parent_id n cs' named.1 s
        ]
      ]

  unfoldable pub insert_all : List Branch → Dict Branch → Dict Branch
  insert_all [] d = d
  insert_all (c ∷ cs) d = insert_all cs (insert c.branch_id c d)

  unfoldable pub pop_all : List Branch → Dict Branch → Dict Branch
  pop_all [] d = d
  pop_all (c ∷ cs) d = pop_all cs (erase c.branch_id d)

  unfoldable pub add_all : List Branch → List String → List String
  add_all [] ids = ids
  add_all (c ∷ cs) ids = add_all cs (add c.branch_id ids)

  abbrev pub journaled_children : List Branch → Bool × System W → Reply (List Branch) × System W
  journaled_children cs (false, s) =
      (failed write_failed, with_branches b (pop_all cs s.orch.branches) s)
  journaled_children cs (true, s) =
      (done cs, record s { orch = record s.orch { in_spawn = add_all cs s.orch.in_spawn } })

  -- The children are recorded at once
  unfoldable pub journal_children : List Branch → System W → Reply (List Branch) × System W
  unfolding insert_all pop_all add_all
  journal_children cs s =
      journaled_children cs (persist b (with_branches b (insert_all cs s.orch.branches) s))

  abbrev pub first_failure : Option Failure → Reply Branch → Option Failure
  first_failure (some e) r = some e
  first_failure none (done c) = none
  first_failure none (failed e) = some e

  abbrev pub started_with : List Branch → Reply Branch → List Branch
  started_with cs (done c) = cs ++ c ∷ []
  started_with cs (failed e) = cs

  -- `_fan_out` with `spawn_one`, where the backends are not parallel
  unfoldable pub spawn_all :
      String
      → List Branch
      → Option Failure
      → List Branch
      → System W
      → Option Failure × (List Branch × System W)
  spawn_all parent_id [] error cs s = (error, (cs, s))
  spawn_all parent_id (c ∷ more) error cs s =
      let (r, s') = spawn_one b parent_id c.branch_id s in
      spawn_all parent_id more (first_failure error r) (started_with cs r) s'

  abbrev pub count_forks : ℕ → System W → System W
  count_forks n s = record s {
    orch = record s.orch { metrics = record s.orch.metrics { forks = s.orch.metrics.forks + n } };
  }

  abbrev pub settled_children :
      Option Failure × (List Branch × System W) → Reply (List Branch) × System W
  settled_children (some e, (cs, s)) = (failed e, s)
  settled_children (none, (cs, s)) = (done cs, count_forks (length cs) s)

  abbrev pub start_children :
      String → Reply (List Branch) × System W → Reply (List Branch) × System W
  start_children parent_id (failed e, s) = (failed e, s)
  start_children parent_id (done cs, s) = settled_children (spawn_all parent_id cs none [] s)

  abbrev pub prepared_fork :
      String → Reply (List Branch) → System W → Reply (List Branch) × System W
  prepared_fork parent_id (failed e) s = (failed e, s)
  prepared_fork parent_id (done cs) s = start_children parent_id (journal_children cs s)

  abbrev pub at_seq : ℕ → System W → System W
  at_seq n s = record s { orch = record s.orch { seq = n } }

  abbrev pub numbered_fork :
      String → Option Prepared → System W → Option (Reply (List Branch) × System W)
  numbered_fork parent_id none s = none
  numbered_fork parent_id (some (r, n)) s = some (prepared_fork parent_id r (at_seq n s))

  abbrev pub named_fork :
      ℕ
      → Option ℤ
      → String
      → ℕ
      → Option (List String)
      → System W
      → Option (Reply (List Branch) × System W)
  named_fork now lease_s parent_id n none s =
      numbered_fork parent_id (numbered_children now lease_s parent_id n [] s.orch.seq s) s
  named_fork now lease_s parent_id n (some ids) s =
      if length ids == n
      then some (prepared_fork parent_id (named_children now lease_s parent_id ids [] s) s)
      else some (failed bad_value, s)

  -- `fork`, by whether the orchestrator is open and the parent live
  abbrev pub guarded_fork :
      Bool
      → Bool
      → ℕ
      → Option ℤ
      → String
      → ℕ
      → Option (List String)
      → System W
      → Option (Reply (List Branch) × System W)
  guarded_fork false live now lease_s parent_id n ids s = some (failed closed, s)
  guarded_fork true false now lease_s parent_id n ids s = some (failed no_branch, s)
  guarded_fork true true now lease_s parent_id n ids s = named_fork now lease_s parent_id n ids s

  -- `none` is a search for a name that does not end.
  unfoldable pub fork :
      ℕ
      → Option ℤ
      → String
      → ℕ
      → Option (List String)
      → System W
      → Option (Reply (List Branch) × System W)
  unfolding named_children numbered_children journal_children spawn_all next_child_id
  fork now lease_s parent_id n ids s =
      guarded_fork (ensure_open false s.orch) (is_live_branch (lookup parent_id s.orch.branches))
        now lease_s parent_id n ids s
