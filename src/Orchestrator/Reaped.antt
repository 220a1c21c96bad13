-- ===== src/Orchestrator/Reaped.antt =====
-- What holds when `ForkOrchestrator.kill` (agentfork/orchestrator.py) returns a receipt for a branch
-- that it reaped.
use agentfork.Base.{
  ℕ, String, ◌≡◌, refl, sym, ◌∙◌, ap, subst, inl, inr, Bool, true, false, Option, none, some, arith,
  Bool-cases, Option-cases, same, same_refl,
}
use agentfork.Base.Dict.{Dict, lookup, insert, erase, lookup-insert, lookup-erase}
use agentfork.Orchestrator.{Branch, KillReceipt, System, Reply, done, ensure_open}
use agentfork.Orchestrator.Backends.{Backends, replace_branch, forget, with_branches}
use agentfork.Orchestrator.Kill.{
  kill_branch, guarded_kill, journaled, reap, end_kill, forgotten, kv_killed, is_busy, to_killing,
  end_killing, start_killing,
}
use agentfork.Orchestrator.Durable.{persist-Writes}
use agentfork.Orchestrator.Retry.{replace-cases, written}

-- The record is gone, and the others are what they were.
abbrev pub IsForgotten : String → Dict Branch → Dict Branch → Type 0
IsForgotten id d e =
    (lookup id e ≡ none) × ((j : String) → same id j ≡ false → lookup j e ≡ lookup j d)

erase-IsForgotten : (id : String) (d : Dict Branch) → IsForgotten id d (erase id d)
erase-IsForgotten id d =
    (rw (lookup-erase id id d, same_refl id) refl, λ j other. rw (lookup-erase id j d, other) refl)

module _ {W : Type 0} (b : Backends W) where
  -- Both backends have killed the branch, in this order.
  abbrev pub BothKilled : String → ℕ → Type 0
  BothKilled id freed =
      (w : W) × ((b.sandbox_kill id w).0 ≡ true)
      × ((b.kv_kill id (b.sandbox_kill id w).1).0 ≡ some freed)

  abbrev Forgets : String → System W → Reply KillReceipt × System W → Type 0
  Forgets id s r =
      (receipt : KillReceipt)
      → r.0 ≡ done receipt
      → IsForgotten id s.orch.branches r.1.orch.branches

  forgotten-IsForgotten :
      (id : String) (freed : ℕ) (s : System W) → Forgets id s (forgotten b id freed (forget b id s))
  unfolding forget
  forgotten-IsForgotten id freed s receipt =
      elim (persist-Writes b (with_branches b (erase id s.orch.branches) s)) [
        | inl (w, e) ↦ elim (Option-cases (lookup id s.orch.branches)) [
          | inl absent ↦ rw (e, absent) (λ h. cc)
          | inr (p, found) ↦ rw (e, found) (λ h. cc)
        ]
        | inr (f, w, e, a) ↦ rw (e) (λ h. erase-IsForgotten id s.orch.branches)
      ]

  forgotten_freed :
      (id : String) (freed : ℕ) (r : Bool × System W) (receipt : KillReceipt)
      → (forgotten b id freed r).0 ≡ done receipt
      → freed ≡ receipt.kv_freed_tokens
  forgotten_freed id freed (true, s) receipt h = cc
  forgotten_freed id freed (false, s) receipt h = cc

  abbrev Reaps : String → System W → Reply KillReceipt × System W → Type 0
  Reaps id s r =
      (receipt : KillReceipt)
      → r.0 ≡ done receipt
      → IsForgotten id s.orch.branches r.1.orch.branches × BothKilled id receipt.kv_freed_tokens

  kv_killed-Reaps :
      (id : String) (s : System W) (w : W)
      → (b.sandbox_kill id w).0 ≡ true
      → (freed? : Option ℕ) (w' : W) → (b.kv_kill id (b.sandbox_kill id w).1).0 ≡ freed?
      → Reaps id s (kv_killed b id s (freed?, w'))
  unfolding end_kill
  kv_killed-Reaps id s w reaped none w' e receipt h = cc
  kv_killed-Reaps id s w reaped (some freed) w' e receipt h = (
    forgotten-IsForgotten id freed (end_killing b id (record s { world = w' })) receipt h,
    (w, reaped, e ∙ ap some (forgotten_freed id freed _ receipt h)),
  )

  reap-Reaps : (id : String) (s : System W) → Reaps id s (reap b id s)
  unfolding reap
  reap-Reaps id s = elim (Bool-cases (b.sandbox_kill id s.world).0) [
    | inl killed ↦ rw (killed) (kv_killed-Reaps id s s.world killed _ _ refl)
    | inr alive ↦ rw (alive) (λ receipt h. cc)
  ]

  abbrev JournaledReaps : String → System W → Reply Branch × System W → Type 0
  JournaledReaps id s r = Reaps id s (journaled b id r)

  IsForgotten-insert :
      (id : String) (branch : Branch) (d e : Dict Branch)
      → IsForgotten id (insert id branch d) e
      → IsForgotten id d e
  IsForgotten-insert id branch d e (gone, others) =
      (gone, λ j other. others j other ∙ rw (lookup-insert id j branch d, other) refl)

  journaled-Reaps :
      (id : String) (previous : Branch) (s : System W)
      → lookup id s.orch.branches ≡ some previous
      → JournaledReaps id s (replace_branch b id (to_killing b) s)
  journaled-Reaps id p s found = elim (replace-cases b id (to_killing b) p s found) [
    | inl (s', e) ↦ subst (JournaledReaps id s) (sym e) (λ receipt h. cc)
    | inr (f, w, e) ↦ subst (JournaledReaps id s) (sym e) (λ receipt h.
        let (gone, killed) = reap-Reaps id (written b id (to_killing b p) s f w) receipt h in
        (IsForgotten-insert id (to_killing b p) s.orch.branches _ gone, killed))
  ]

  guarded_kill-Reaps :
      (open_ busy : Bool) (id : String) (s : System W) (receipt : KillReceipt)
      → is_busy b id s ≡ busy
      → (guarded_kill b open_ busy id s).0 ≡ done receipt
      → receipt.reaped ≡ true
      → IsForgotten id s.orch.branches (guarded_kill b open_ busy id s).1.orch.branches
        × BothKilled id receipt.kv_freed_tokens
  guarded_kill-Reaps false busy id s receipt e h reaped = cc
  guarded_kill-Reaps true true id s receipt e h reaped = cc
  guarded_kill-Reaps true false id s receipt e h reaped =
      elim (Option-cases (lookup id s.orch.branches)) [
        | inl absent ↦ absurd (ground (arith, absent, e))
        | inr (p, found) ↦ journaled-Reaps id p (start_killing b id s) found receipt h
      ]

  -- A kill that reports a branch as reaped has had the sandbox kill and then the KV kill return,
  -- with the number of freed tokens that it reports; the record is gone, and no other has changed.
  pub kill_branch_reaped :
      (allow_closing : Bool) (id : String) (s : System W) (receipt : KillReceipt)
      → (kill_branch b allow_closing id s).0 ≡ done receipt
      → receipt.reaped ≡ true
      → IsForgotten id s.orch.branches (kill_branch b allow_closing id s).1.orch.branches
        × BothKilled id receipt.kv_freed_tokens
  unfolding kill_branch
  kill_branch_reaped allow id s receipt h reaped =
      guarded_kill-Reaps (ensure_open allow s.orch) (is_busy b id s) id s receipt refl h reaped
