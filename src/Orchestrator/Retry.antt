-- ===== src/Orchestrator/Retry.antt =====
-- How `ForkOrchestrator.kill` (agentfork/orchestrator.py) ends where a backend fails
use agentfork.Base.{
  ℕ, String, ◌≡◌, refl, sym, ◌∙◌, ap, subst, ◌⊎◌, inl, inr, Bool, true, false, not, ◌&&◌, Option,
  none, some, List, [], ◌∷◌, ◌++◌, arith, Bool-cases, Option-cases, same, same→eq, same_refl,
}
use agentfork.Base.Dict.{Dict, lookup, insert, mem, lookup-insert, mem-discard}
use agentfork.Orchestrator.{
  Branch, ForkOrchestrator, System, Reply, done, failed, write_failed, backend_failed, killing,
  ensure_open,
}
use agentfork.Orchestrator.Backends.{Backends, replace_branch, with_branches}
use agentfork.Orchestrator.Kill.{
  kill_branch, guarded_kill, journaled, reap, end_kill, forgotten, kv_killed, sandbox_killed,
  is_busy, to_killing, end_killing, start_killing,
}
use agentfork.Orchestrator.Collect.{is_partial, is_in_flight, partials, stuck_branches}
use agentfork.Orchestrator.Durable.{persist-Writes}

-- A branch that nobody works on and whose record says that it was to be killed
abbrev pub IsLeft : String → ForkOrchestrator → Type 0
IsLeft id o =
    (branch : Branch) × (lookup id o.branches ≡ some branch)
    × (branch.state ≡ killing)
    × (mem id o.in_kill ≡ false)
    × (mem id o.in_spawn ≡ false)

pub mem-append : (k : String) (s t : List String) → mem k s ≡ true → mem k (s ++ t) ≡ true
unfolding mem
mem-append k [] t h = cc
mem-append k (j ∷ s) t h = ground (arith, mem-append k s t)

pub mem-partials :
    (id : String) (branch : Branch) (o : ForkOrchestrator) (d : Dict Branch)
    → lookup id d ≡ some branch
    → is_partial branch.state ≡ true
    → is_in_flight o id ≡ false
    → mem id (partials o d) ≡ true
unfolding lookup mem partials
mem-partials id branch o [] e partial idle = cc
mem-partials id branch o ((j, p) ∷ d) e partial idle =
    let both = is_partial p.state && not (is_in_flight o j) in
    elim (Bool-cases (same j id)) [
      | inl here ↦
          let q : p ≡ branch = ground (arith, here, e) in
          let chosen : both ≡ true =
            rw
              (
                ap (λ x. is_partial x.state) q ∙ partial,
                ap (λ x. is_in_flight o x) (same→eq j id here) ∙ idle,
              )
              refl in
          rw (chosen) (rw (here) refl)
      | inr away ↦
          let later = mem-partials id branch o d (ground (arith, away, e)) partial idle in
          ground (arith, away, later)
    ]

pub stuck-IsLeft :
    (id : String) (o : ForkOrchestrator) → IsLeft id o → mem id (stuck_branches o) ≡ true
unfolding stuck_branches
stuck-IsLeft id o (branch, e, k, idle_kill, idle_spawn) =
    mem-append id (partials o o.branches) _
      (mem-partials id branch o o.branches e (rw k refl) (rw (idle_kill, idle_spawn) refl))

module _ {W : Type 0} (b : Backends W) where
  -- The states between the two sections of a kill
  abbrev IsReady : String → System W → Type 0
  IsReady id s =
      (branch : Branch) × (lookup id s.orch.branches ≡ some branch)
      × (branch.state ≡ killing)
      × (mem id s.orch.in_spawn ≡ false)

  ended-IsLeft : (id : String) (s : System W) → IsReady id s → IsLeft id (end_killing b id s).orch
  ended-IsLeft id s (branch, e, k, idle) =
      (branch, e, k, rw (mem-discard id id s.orch.in_kill, same_refl id) refl, idle)

  forgotten_fails :
      (id : String) (freed : ℕ) (r : Bool × System W)
      → (forgotten b id freed r).0 ≡ failed backend_failed
      → IsLeft id (forgotten b id freed r).1.orch
  forgotten_fails id freed (true, s) h = cc
  forgotten_fails id freed (false, s) h = cc

  kv_killed_fails :
      (id : String) (s : System W) (r : Option ℕ × W)
      → IsReady id s
      → (kv_killed b id s r).0 ≡ failed backend_failed
      → IsLeft id (kv_killed b id s r).1.orch
  unfolding end_kill
  kv_killed_fails id s (none, w) ready h = ended-IsLeft id s ready
  kv_killed_fails id s (some freed, w) ready h = forgotten_fails id freed _ h

  sandbox_killed_fails :
      (id : String) (s : System W) (r : Bool × W)
      → IsReady id s
      → (sandbox_killed b id s r).0 ≡ failed backend_failed
      → IsLeft id (sandbox_killed b id s r).1.orch
  sandbox_killed_fails id s (false, w) ready h = ended-IsLeft id s ready
  sandbox_killed_fails id s (true, w) ready h = kv_killed_fails id s (b.kv_kill id w) ready h

  abbrev pub written : String → Branch → System W → Dict Branch → W → System W
  written id branch s f w = record (with_branches b (insert id branch s.orch.branches) s) {
    file = f;
    world = w;
  }

  abbrev pub unwritten : String → Branch → Branch → System W → W → System W
  unwritten id previous branch s w =
      record (with_branches b (insert id previous (insert id branch s.orch.branches)) s) {
        world = w;
      }

  -- How a change to a record ends
  pub replace-cases :
      (id : String) (change : Branch → Branch) (previous : Branch) (s : System W)
      → lookup id s.orch.branches ≡ some previous
      → ((w : W) × (replace_branch b id change s
            ≡ (failed write_failed, unwritten id previous (change previous) s w)))
        ⊎ ((f : Dict Branch) × (w : W) × (replace_branch b id change s
              ≡ (done (change previous), written id (change previous) s f w)))
  unfolding replace_branch
  replace-cases id change p s found =
      elim (persist-Writes b (with_branches b (insert id (change p) s.orch.branches) s)) [
        | inl (w, e) ↦ rw (found, replace_branch) (rw (e) (inl (w, refl)))
        | inr (f, w, e, a) ↦ rw (found, replace_branch) (rw (e) (inr (f, w, refl)))
      ]

  abbrev FailsLeft : String → Reply Branch × System W → Type 0
  FailsLeft id r =
      (journaled b id r).0 ≡ failed backend_failed → IsLeft id (journaled b id r).1.orch

  journaled_fails :
      (id : String) (previous : Branch) (s : System W)
      → lookup id s.orch.branches ≡ some previous
      → mem id s.orch.in_spawn ≡ false
      → FailsLeft id (replace_branch b id (to_killing b) s)
  unfolding reap
  journaled_fails id p s found idle = elim (replace-cases id (to_killing b) p s found) [
    | inl (s', e) ↦ subst (FailsLeft id) (sym e) (λ h. cc)
    | inr (f, w, e) ↦ subst (FailsLeft id) (sym e) (λ h.
        sandbox_killed_fails id (written id (to_killing b p) s f w) (b.sandbox_kill id w)
          (
            to_killing b p,
            rw (lookup-insert id id (to_killing b p) s.orch.branches, same_refl id) refl,
            refl,
            idle,
          )
          h)
  ]

  guarded_kill_fails :
      (open_ busy : Bool) (id : String) (s : System W)
      → is_busy b id s ≡ busy
      → (guarded_kill b open_ busy id s).0 ≡ failed backend_failed
      → IsLeft id (guarded_kill b open_ busy id s).1.orch
  guarded_kill_fails false busy id s e h = cc
  guarded_kill_fails true true id s e h = cc
  guarded_kill_fails true false id s e h = elim (Option-cases (lookup id s.orch.branches)) [
    | inl absent ↦ absurd (ground (arith, absent, e))
    | inr (p, found) ↦ journaled_fails id p (start_killing b id s) found (ground (arith, e)) h
  ]

  -- A kill that raises because a backend failed leaves a record of its intent that nobody works
  -- on, and the next `reconcile` takes it up.
  pub kill_branch_retried :
      (allow_closing : Bool) (id : String) (s : System W)
      → (kill_branch b allow_closing id s).0 ≡ failed backend_failed
      → IsLeft id (kill_branch b allow_closing id s).1.orch
        × (mem id (stuck_branches (kill_branch b allow_closing id s).1.orch) ≡ true)
  unfolding kill_branch
  kill_branch_retried allow id s h =
      let left = guarded_kill_fails (ensure_open allow s.orch) (is_busy b id s) id s refl h in
      (left, stuck-IsLeft id _ left)
