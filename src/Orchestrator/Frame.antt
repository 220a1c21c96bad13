-- ===== src/Orchestrator/Frame.antt =====
-- A kill by the orchestrator (agentfork/orchestrator.py) and the records of other branches
use agentfork.Base.{
  ℕ, String, ◌≡◌, refl, sym, ◌∙◌, subst, inl, inr, Bool, true, false, Option, none, some, arith,
  Option-cases, same,
}
use agentfork.Base.Dict.{Dict, lookup, insert, erase, lookup-insert, lookup-erase}
use agentfork.Orchestrator.{Branch, System, Reply, ensure_open}
use agentfork.Orchestrator.Backends.{Backends, replace_branch, forget, with_branches}
use agentfork.Orchestrator.Kill.{
  kill_branch, guarded_kill, journaled, reap, end_kill, forgotten, kv_killed, sandbox_killed,
  is_busy, to_killing, end_killing, start_killing,
}
use agentfork.Orchestrator.Durable.{persist-Writes}
use agentfork.Orchestrator.Retry.{replace-cases, written}

module _ {W : Type 0} (b : Backends W) (j : String) where
  -- The record of `j` is what it was.
  abbrev pub Leaves : System W → System W → Type 0
  Leaves s s' = lookup j s'.orch.branches ≡ lookup j s.orch.branches

  module _ (id : String) (other : same id j ≡ false) where
    inserted : (p : Branch) (d : Dict Branch) → lookup j (insert id p d) ≡ lookup j d
    inserted p d = rw (lookup-insert id j p d, other) refl

    erased : (d : Dict Branch) → lookup j (erase id d) ≡ lookup j d
    erased d = rw (lookup-erase id j d, other) refl

    forget-Leaves : (s : System W) → Leaves s (forget b id s).1
    unfolding forget
    forget-Leaves s =
        let d = s.orch.branches in
        elim (persist-Writes b (with_branches b (erase id d) s)) [
          | inl (w, e) ↦ elim (Option-cases (lookup id d)) [
            | inl absent ↦ rw (e, absent) (erased d)
            | inr (p, found) ↦ rw (e, found) (inserted p (erase id d) ∙ erased d)
          ]
          | inr (f, w, e, a) ↦ rw (e) (erased d)
        ]

    forgotten-Leaves :
        (freed : ℕ) (s : System W) (r : Bool × System W)
        → Leaves s r.1
        → Leaves s (forgotten b id freed r).1
    forgotten-Leaves freed s (true, s') h = h
    forgotten-Leaves freed s (false, s') h = h

    end_kill-Leaves : (freed : ℕ) (s : System W) → Leaves s (end_kill b id freed s).1
    unfolding end_kill
    end_kill-Leaves freed s =
        forgotten-Leaves freed s (forget b id (end_killing b id s))
          (forget-Leaves (end_killing b id s))

    kv_killed-Leaves : (s : System W) (r : Option ℕ × W) → Leaves s (kv_killed b id s r).1
    kv_killed-Leaves s (none, w) = refl
    kv_killed-Leaves s (some freed, w) = end_kill-Leaves freed (record s { world = w })

    sandbox_killed-Leaves : (s : System W) (r : Bool × W) → Leaves s (sandbox_killed b id s r).1
    sandbox_killed-Leaves s (false, w) = refl
    sandbox_killed-Leaves s (true, w) = kv_killed-Leaves s (b.kv_kill id w)

    abbrev JournaledLeaves : System W → Reply Branch × System W → Type 0
    JournaledLeaves s r = Leaves s (journaled b id r).1

    journaled-Leaves :
        (previous : Branch) (s : System W)
        → lookup id s.orch.branches ≡ some previous
        → JournaledLeaves s (replace_branch b id (to_killing b) s)
    unfolding reap
    journaled-Leaves p s found =
        let d = s.orch.branches in
        let q = to_killing b p in
        elim (replace-cases b id (to_killing b) p s found) [
          | inl (w, e) ↦
              subst (JournaledLeaves s) (sym e) (inserted p (insert id q d) ∙ inserted q d)
          | inr (f, w, e) ↦
              subst (JournaledLeaves s) (sym e)
                (sandbox_killed-Leaves (written b id q s f w) (b.sandbox_kill id w) ∙ inserted q d)
        ]

    guarded_kill-Leaves :
        (open_ busy : Bool) (s : System W)
        → is_busy b id s ≡ busy
        → Leaves s (guarded_kill b open_ busy id s).1
    guarded_kill-Leaves false busy s e = refl
    guarded_kill-Leaves true true s e = refl
    guarded_kill-Leaves true false s e = elim (Option-cases (lookup id s.orch.branches)) [
      | inl absent ↦ absurd (ground (arith, absent, e))
      | inr (p, found) ↦ journaled-Leaves p (start_killing b id s) found
    ]

    -- A kill of another branch leaves the record of `j`, also where it raises.
    pub kill_branch-Leaves : (allow : Bool) (s : System W) → Leaves s (kill_branch b allow id s).1
    unfolding kill_branch
    kill_branch-Leaves allow s =
        guarded_kill-Leaves (ensure_open allow s.orch) (is_busy b id s) s refl
