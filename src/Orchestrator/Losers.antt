-- ===== src/Orchestrator/Losers.antt =====
-- `ForkOrchestrator.kill_losers`, `reap_expired` and `close` (agentfork/orchestrator.py)
use agentfork.Base.{
  ℕ, zero, suc, ◌+◌, String, Bool, true, false, Option, none, some, List, [], ◌∷◌, length,
  if◌then◌else◌,
}
use agentfork.Base.Dict.{Dict, lookup, insert, contains, mem, add}
use agentfork.Orchestrator.{
  Branch, KillReceipt, System, Reply, done, failed, Failure, closed, no_branch, ensure_open,
}
use agentfork.Orchestrator.Backends.{Backends}
use agentfork.Orchestrator.Kill.{kill_branch}
use agentfork.Orchestrator.Spawn.{is_live_branch}
use agentfork.Orchestrator.Collect.{is_in_flight, kill_all}

-- `branch.parent_id if branch else None`
abbrev pub parent_of : Option Branch → Option String
parent_of none = none
parent_of (some branch) = branch.parent_id

-- The loop over the winner's ancestors, on fuel
unfoldable pub keep_from : ℕ → Dict Branch → Option String → List String → List String
keep_from zero d cursor keep = keep
keep_from (suc n) d none keep = keep
keep_from (suc n) d (some c) keep = elim (mem c keep) [
  | true ↦ keep
  | false ↦ keep_from n d (parent_of (lookup c d)) (add c keep)
]

unfoldable pub kept : Dict Branch → String → List String
unfolding keep_from
kept d winner_id = keep_from (length d + 2) d (some winner_id) []

-- `[bid for bid in self._branches if bid not in keep]`
unfoldable pub losers : List String → Dict Branch → List String
losers keep [] = []
losers keep ((id, branch) ∷ d) = if mem id keep then losers keep d else id ∷ losers keep d

-- `{r.branch_id: r for r in ...}`
unfoldable pub by_branch : List KillReceipt → Dict KillReceipt → Dict KillReceipt
by_branch [] rs = rs
by_branch (r ∷ more) rs = by_branch more (insert r.branch_id r rs)

abbrev pub is_reaped : Option KillReceipt → Bool
is_reaped none = false
is_reaped (some r) = r.reaped

-- `list(receipts.values())`
unfoldable pub values : Dict KillReceipt → List KillReceipt
values [] = []
values ((id, r) ∷ rs) = r ∷ values rs

-- How a loop over branches stands: an error that was raised, the receipts, and the system
abbrev pub Swept : Type 0 → Type 0
Swept W = Option Failure × (Dict KillReceipt × System W)

module _ {W : Type 0} (b : Backends W) (others : System W → System W) where
  abbrev pub killed_again : String → Dict KillReceipt → Reply KillReceipt × System W → Swept W
  killed_again id rs (done r, s) = (none, (insert id r rs, s))
  killed_again id rs (failed e, s) = (some e, (rs, s))

  abbrev pub looked : Swept W → Bool × Swept W
  looked (none, r) = (false, (none, r))
  looked (some e, r) = (true, (some e, r))

  -- One look of the `while` at a loser, and what other threads do in `time.sleep(0.01)`; the first
  -- part says whether the loop is over.
  abbrev pub look : Bool → Bool → Bool → String → Dict KillReceipt → System W → Bool × Swept W
  look true known busy id rs s = (true, (none, (rs, s)))
  look false false busy id rs s = (true, (none, (rs, s)))
  look false true true id rs s = (false, (none, (rs, others s)))
  look false true false id rs s = looked (killed_again id rs (kill_branch b false id s))

  -- The `while` for one loser, on fuel; `none` is a call that still waits.
  unfoldable pub settle : ℕ → String → Dict KillReceipt → System W → Option (Swept W)
  settle zero id rs s = none
  settle (suc n) id rs s =
      let (over, swept) =
        look (is_reaped (lookup id rs)) (contains id s.orch.branches) (is_in_flight s.orch id) id rs
          s in
      elim over [ true ↦ some swept | false ↦ settle n id swept.1.0 swept.1.1 ]

  unfoldable pub settle_all : ℕ → List String → Swept W → Option (Swept W)
  unfolding settle
  settle_all n ids (some e, r) = some (some e, r)
  settle_all n [] (none, r) = some (none, r)
  settle_all n (id ∷ ids) (none, (rs, s)) = elim (settle n id rs s) [
    | none ↦ none
    | some swept ↦ settle_all n ids swept
  ]

  abbrev pub first_sweep : Option Failure × (List KillReceipt × System W) → Swept W
  first_sweep (error, (rs, s)) = (error, (by_branch rs [], s))

  -- `kill_losers`, by whether the orchestrator is open and the winner live
  abbrev pub guarded_losers : Bool → Bool → ℕ → String → System W → Option (Swept W)
  guarded_losers false live n winner_id s = some (some closed, ([], s))
  guarded_losers true false n winner_id s = some (some no_branch, ([], s))
  guarded_losers true true n winner_id s =
      let ids = losers (kept s.orch.branches winner_id) s.orch.branches in
      settle_all n ids (first_sweep (kill_all b false ids none [] s))

  unfoldable pub kill_losers : ℕ → String → System W → Option (Swept W)
  unfolding settle_all
  kill_losers n winner_id s =
      guarded_losers (ensure_open false s.orch) (is_live_branch (lookup winner_id s.orch.branches))
        n winner_id s
