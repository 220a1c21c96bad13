-- ===== src/Orchestrator/Backends.antt =====
-- What agentfork/orchestrator.py asks of the world: its `SandboxBackend`, its `KVBackend`, and the
-- file system; and the registry's writes.
use agentfork.Base.{ℕ, String, Bool, true, false, Option, none, some, List}
use agentfork.Base.Dict.{Dict, lookup, insert, erase, discard}
use agentfork.Orchestrator.{Branch, System, Reply, done, failed, write_failed, no_branch, restore}

-- A call tells whether it returned, or what it returned; `none` and `false` stand for an error that
-- it raised. `write` is what `_persist` does up to the `os.replace`.
pub record Backends (W : Type 0) : Type 0 where
  pub write : Dict Branch → W → Bool × W
  pub spawn : String → Option String → W → Bool × W
  pub wait_ready : String → W → Bool × W
  pub sandbox_kill : String → W → Bool × W
  pub create_tree : String → W → Bool × W
  pub fork_branch : String → String → W → Bool × W
  pub extend : String → List ℕ → W → Bool × W
  pub kv_kill : String → W → Option ℕ × W
  pub external_data_path : Bool

module _ {W : Type 0} (b : Backends W) where
  abbrev pub wrote : System W → Bool × W → Bool × System W
  wrote s (true, w) = (true, record s { file = s.orch.branches; world = w })
  wrote s (false, w) = (false, record s { world = w })

  abbrev pub persist_to : Option String → System W → Bool × System W
  persist_to none s = (true, s)
  persist_to (some path) s = wrote s (b.write s.orch.branches s.world)

  -- `_persist`
  unfoldable pub persist : System W → Bool × System W
  persist s = persist_to s.orch.registry_path s

  abbrev pub with_branches : Dict Branch → System W → System W
  with_branches d s = record s { orch = record s.orch { branches = d } }

  abbrev pub saved_or : String → Option Branch → Bool × System W → Bool × System W
  saved_or k previous (true, s) = (true, s)
  saved_or k previous (false, s) = (false, with_branches (restore k previous s.orch.branches) s)

  -- `_record`, and the last lines of `_replace_branch`
  unfoldable pub record_branch : Branch → System W → Bool × System W
  unfolding persist
  record_branch branch s =
      saved_or branch.branch_id (lookup branch.branch_id s.orch.branches)
        (persist (with_branches (insert branch.branch_id branch s.orch.branches) s))

  abbrev pub put_back : String → Option Branch → Bool × System W → Bool × System W
  put_back k none (false, s) = (false, s)
  put_back k (some previous) (false, s) =
      (false, with_branches (insert k previous s.orch.branches) s)
  put_back k previous (true, s) = (
    true,
    record s { orch = record s.orch { loaded_branch_ids = discard k s.orch.loaded_branch_ids } },
  )

  -- `_forget`
  unfoldable pub forget : String → System W → Bool × System W
  unfolding persist
  forget k s =
      put_back k (lookup k s.orch.branches) (persist (with_branches (erase k s.orch.branches) s))

  abbrev pub replaced : Branch → Bool × System W → Reply Branch × System W
  replaced current (true, s) = (done current, s)
  replaced current (false, s) = (failed write_failed, s)

  -- `_replace_branch`, with the change that is made
  unfoldable pub replace_branch : String → (Branch → Branch) → System W → Reply Branch × System W
  unfolding record_branch
  replace_branch k change s = elim (lookup k s.orch.branches) [
    | none ↦ (failed no_branch, s)
    | some previous ↦ replaced (change previous) (
        saved_or k (some previous)
          (persist (with_branches (insert k (change previous) s.orch.branches) s)))
  ]
