-- ===== src/Harness/Lineage/Children.antt =====
-- The children of one `fan_out` (agentfork/harness/agent.py) and their prefixes
use agentfork.Base.{
  ℕ, ◌≡◌, refl, ◌∙◌, ap, String, Bool, true, false, none, some, List, [], ◌∷◌, Option-cases, inl,
  inr, arith, same, same_refl, length,
}
use agentfork.Base.Dict.{lookup, lookup-insert, mem, IsDistinct}
use agentfork.Harness.{
  Prefix, Answer, gave, raised, continued, Host, TreeAgent, strictly_extends, all_extend,
  set_prefix, of_orch, charge, commit, targets_of, prefix_violation, inherit,
}
use agentfork.Harness.Round.{
  BranchResult, Round, scored, worked, judged, one_result, results_of, checked, fan_out,
}
use agentfork.Harness.Lineage.{Each}

module _ {O : Type 0} where
  -- Only the prefix of the child may differ.
  abbrev pub Apart : String → TreeAgent O → TreeAgent O → Type 0
  Apart child a b = (j : String) → same child j ≡ false → lookup j b.prefix ≡ lookup j a.prefix

  abbrev pub Commits : String → Prefix → TreeAgent O → Answer Unit × TreeAgent O → Type 0
  Commits child target a (gave u, b) = Apart child a b × (lookup child b.prefix ≡ some target)
  Commits child target a (raised e, b) = Apart child a b

module _ {O Params : Type 0} (host : Host O Params) where
  charged-Commits :
      (child : String) (target : Prefix) (a : TreeAgent O) (x : Answer Unit × TreeAgent O)
      → x.1.prefix ≡ a.prefix
      → Commits child target a (continued x (λ u b. (gave tt, set_prefix host child target b)))
  charged-Commits child target a (gave u, b) h = (
    (λ j e. ground (arith, lookup-insert child j target b.prefix, e, ap (lookup j) h)),
    ground (arith, lookup-insert child child target b.prefix, same_refl child),
  )
  charged-Commits child target a (raised e, b) h = λ j q. ap (lookup j) h

  charge_prefix :
      (on_text : Bool) (id : String) (base target : Prefix) (params : Params) (a : TreeAgent O)
      → (charge host on_text id base target params a).1.prefix ≡ a.prefix
  charge_prefix true id base target params a = refl
  charge_prefix false id base target params a = refl

  pub commit-Commits :
      (on_text : Bool) (child : String) (target : Prefix) (params : Params) (a : TreeAgent O)
      → Commits child target a (commit host on_text child target params a)
  commit-Commits on_text child target params a = elim (Option-cases (lookup child a.prefix)) [
    | inl e ↦ rw e (λ j q. refl)
    | inr (base, e) ↦ rw e (
        charged-Commits child target a (charge host on_text child base target params a)
          (charge_prefix on_text child base target params a))
  ]

-- The result is that of the child, and it is committed where there is no error.
abbrev pub Made :
    {O Out Score : Type 0}
    → String
    → Prefix
    → TreeAgent O
    → BranchResult Out Score × TreeAgent O
    → Type 0
Made child target a (r, b) =
    Apart child a b
    × (r.branch_id ≡ child)
    × (r.prefix ≡ target)
    × (r.error ≡ none → lookup child b.prefix ≡ some target)

module _ {Out Score : Type 0} where
  -- The results are those of the children and their targets, in order.
  abbrev pub branch_ids : List (BranchResult Out Score) → List String
  branch_ids [] = []
  branch_ids (r ∷ rs) = r.branch_id ∷ branch_ids rs

  abbrev pub prefixes : List (BranchResult Out Score) → List Prefix
  prefixes [] = []
  prefixes (r ∷ rs) = r.prefix ∷ prefixes rs

  abbrev pub Names : List String → List Prefix → List (BranchResult Out Score) → Type 0
  Names children targets rs = (branch_ids rs ≡ children) × (prefixes rs ≡ targets)

module _ {O Params Out Score : Type 0} (host : Host O Params) (on_text : Bool)
    (encode : List ℕ → List ℕ) (lowest : Score) (greater : Score → Score → Bool) where
  judged-Made :
      (child : String) (target : Prefix) (a : TreeAgent O) (r : BranchResult Out Score)
      (x : Answer Score × TreeAgent O)
      → Made child target a (r, x.1)
      → Made child target a (judged host on_text encode lowest greater r x)
  judged-Made child target a r (gave s, b) h = h
  judged-Made child target a r (raised e, b) h = (h.0, h.1, h.2, λ q. absurd (ground (arith, q)))

  scored-Made :
      (round : Round O Params Out Score) (child : String) (target : Prefix) (a : TreeAgent O)
      (r : BranchResult Out Score) (x : Answer Out × TreeAgent O)
      → Made child target a (r, x.1)
      → Made child target a (scored host on_text encode lowest greater round r x)
  scored-Made round child target a r (gave out, b) h =
      let done = record r { output = some out } in
      judged-Made child target a done (of_orch host (round.evaluator done b.orch) b) h
  scored-Made round child target a r (raised e, b) h =
      (h.0, h.1, h.2, λ q. absurd (ground (arith, q)))

  worked-Made :
      (round : Round O Params Out Score) (child : String) (target : Prefix) (a : TreeAgent O)
      (r : BranchResult Out Score) (x : Answer Unit × TreeAgent O)
      → r.branch_id ≡ child
      → r.prefix ≡ target
      → Commits child target a x
      → Made child target a (worked host on_text encode lowest greater round r x)
  worked-Made round child target a r (gave u, b) h k c =
      scored-Made round child target a r (of_orch host (round.work r.branch_id r.prefix b.orch) b)
        (c.0, h, k, λ q. c.1)
  worked-Made round child target a r (raised e, b) h k c =
      (c, h, k, λ q. absurd (ground (arith, q)))

  one_result-Made :
      (round : Round O Params Out Score) (child : String) (target : Prefix) (a : TreeAgent O)
      → Made child target a (one_result host on_text encode lowest greater round child target a)
  one_result-Made round child target a =
      worked-Made round child target a _ _ refl refl
        (commit-Commits host on_text child target round.sampling_params a)

  -- The prefix strictly extends that of the parent, and is committed where there is no error.
  abbrev pub Committed : Prefix → TreeAgent O → BranchResult Out Score → Type 0
  Committed base a r =
      (strictly_extends base r.prefix ≡ true)
      × (r.error ≡ none → lookup r.branch_id a.prefix ≡ some r.prefix)

  results_of-frame :
      (round : Round O Params Out Score) (children : List String) (targets : List Prefix)
      (a : TreeAgent O) (j : String)
      → mem j children ≡ false
      → lookup j (results_of host on_text encode lowest greater round children targets a).1.prefix
        ≡ lookup j a.prefix
  unfolding results_of mem
  results_of-frame round [] ts a j h = refl
  results_of-frame round (c ∷ cs) [] a j h = refl
  results_of-frame round (c ∷ cs) (t ∷ ts) a j h =
      let made = one_result-Made round c t a in
      results_of-frame round cs ts _ j (ground (arith, h)) ∙ made.0 j (ground (arith, h))

  child-Committed :
      (base t : Prefix) (c : String) (r : BranchResult Out Score) (b : TreeAgent O)
      → r.branch_id ≡ c
      → r.prefix ≡ t
      → (r.error ≡ none → lookup c b.prefix ≡ some t)
      → strictly_extends base t ≡ true
      → Committed base b r
  child-Committed base t c r b h k l m = (rw k m, λ q. rw (h, k) (l q))

  results_of-Committed :
      (round : Round O Params Out Score) (base : Prefix) (children : List String)
      (targets : List Prefix) (a : TreeAgent O)
      → IsDistinct children
      → all_extend base targets ≡ true
      → Each
          (Committed base
            (results_of host on_text encode lowest greater round children targets a).1)
          (results_of host on_text encode lowest greater round children targets a).0
  unfolding results_of
  results_of-Committed round base [] ts a d h = tt
  results_of-Committed round base (c ∷ cs) [] a d h = tt
  results_of-Committed round base (c ∷ cs) (t ∷ ts) a d h =
      let now = one_result host on_text encode lowest greater round c t a in
      let made = one_result-Made round c t a in
      (
        child-Committed base t c now.0
            (results_of host on_text encode lowest greater round cs ts now.1).1 made.1 made.2
            (λ q. results_of-frame round cs ts now.1 c d.0 ∙ made.3 q) (ground (arith, h)),
        results_of-Committed round base cs ts now.1 d.1 (ground (arith, h)),
      )

  results_of-Names :
      (round : Round O Params Out Score) (children : List String) (targets : List Prefix)
      (a : TreeAgent O)
      → length children ≡ length targets
      → Names children targets
          (results_of host on_text encode lowest greater round children targets a).0
  unfolding results_of
  results_of-Names round [] [] a h = (refl, refl)
  results_of-Names round [] (t ∷ ts) a h = absurd (omega (arith, h))
  results_of-Names round (c ∷ cs) [] a h = absurd (omega (arith, h))
  results_of-Names round (c ∷ cs) (t ∷ ts) a h =
      let made = one_result-Made round c t a in
      let rest =
        results_of-Names round cs ts (one_result host on_text encode lowest greater round c t a).1
          (omega (arith, h)) in
      (rw (made.1, rest.0) refl, rw (made.2, rest.1) refl)

  -- Without the test nothing is done; with it there is a result for each child.
  abbrev pub FansOut :
      Bool
      → Prefix
      → List String
      → List Prefix
      → TreeAgent O
      → Answer (List (BranchResult Out Score)) × TreeAgent O
      → Type 0
  FansOut false base children targets a r = r ≡ (raised prefix_violation, a)
  FansOut true base children targets a r =
      (rs : List (BranchResult Out Score)) × (r.0 ≡ gave rs)
      × Names children targets rs
      × Each (Committed base r.1) rs

  checked-FansOut :
      (ok : Bool) (parent_id : String) (round : Round O Params Out Score) (base : Prefix)
      (children : List String) (targets : List Prefix) (a : TreeAgent O) (o : O)
      → all_extend base targets ≡ ok
      → host.fork parent_id (length targets) round.child_ids a.orch ≡ (gave children, o)
      → length children ≡ length targets
      → IsDistinct children
      → FansOut ok base children targets a
          (checked host on_text encode lowest greater ok parent_id round base targets a)
  checked-FansOut false parent_id round base children targets a o h f l d = refl
  checked-FansOut true parent_id round base children targets a o h f l d =
      let b = inherit host base children (record a { orch = o }) in
      rw f (
        (results_of host on_text encode lowest greater round children targets b).0,
        refl,
        results_of-Names round children targets b l,
        results_of-Committed round base children targets b d h,
      )

  -- Where the parent is committed, the continuations can be converted, and the fork names children
  -- apart and as many as there are targets, `fan_out` raises and changes nothing if a target does
  -- not strictly extend the parent's prefix; else it returns a result for each child in order,
  -- with the target of the child as its prefix, and at its end each child whose result has no
  -- error is committed to this prefix.
  pub fan_out_lem :
      (parent_id : String) (round : Round O Params Out Score) (base : Prefix)
      (children : List String) (targets : List Prefix) (a : TreeAgent O) (o : O)
      → lookup parent_id a.prefix ≡ some base
      → targets_of on_text encode round.continuations ≡ gave targets
      → host.fork parent_id (length targets) round.child_ids a.orch ≡ (gave children, o)
      → length children ≡ length targets
      → IsDistinct children
      → FansOut
          (all_extend base targets)
          base
          children
          targets
          a
          (fan_out host on_text encode lowest greater parent_id round a)
  unfolding fan_out
  fan_out_lem parent_id round base children targets a o p t f l d =
      rw (p, t)
        (checked-FansOut (all_extend base targets) parent_id round base children targets a o refl f
          l d)
