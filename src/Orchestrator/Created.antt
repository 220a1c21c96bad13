-- ===== src/Orchestrator/Created.antt =====
-- What `create_parent` and a child's part of `fork` (agentfork/orchestrator.py) leave behind
use agentfork.Base.{
  ap, Bool-cases, is_some, ℕ, String, ◌≡◌, refl, sym, subst, ◌⊎◌, inl, inr, Bool, true, false,
  Option, none, some, List, same_refl,
}
use agentfork.Base.Int.{ℤ}
use agentfork.Base.Dict.{Dict, lookup, insert, erase, mem, lookup-insert, lookup-erase, mem-discard}
use agentfork.Orchestrator.{Branch, System, Reply, done, failed, Failure, live}
use agentfork.Orchestrator.Backends.{
  Backends, record_branch, forget, with_branches, persist, persist_to,
}
use agentfork.Orchestrator.Spawn.{
  create_parent, guarded_create, commit_child, leased, recorded, set_up, finish, go_live, settled,
  roll_back, raised, raising, rollback_branch, cleaned, spawn_one, forked, to_live, start_spawning,
  end_spawning, new_branch, then_do, fill, is_live_branch,
}
use agentfork.Orchestrator.Collect.{is_partial, partials, stuck_branches}
use agentfork.Orchestrator.Durable.{persist-Writes}
use agentfork.Orchestrator.Retry.{replace-cases, written, unwritten, mem-partials, mem-append}

abbrev pub is_done : Reply Branch → Bool
is_done (done branch) = true
is_done (failed e) = false

-- The branch has a record that is not live yet, and nobody kills it.
abbrev pub IsBegun : {W : Type 0} → String → System W → Type 0
IsBegun id s =
    (branch : Branch) × (lookup id s.orch.branches ≡ some branch)
    × (is_partial branch.state ≡ true)
    × (mem id s.orch.in_kill ≡ false)

module _ {W : Type 0} (b : Backends W) where
  -- The KV cache and then the sandbox killed the branch.
  abbrev pub IsCleaned : String → Type 0
  IsCleaned id =
      (w : W) × (is_some (b.kv_kill id w).0 ≡ true)
      × ((b.sandbox_kill id (b.kv_kill id w).1).0 ≡ true)

  -- The next `reconcile` kills the branch, or it has no record and both backends have killed it.
  abbrev pub IsUndone : String → System W → Type 0
  IsUndone id s =
      (mem id (stuck_branches s.orch) ≡ true) ⊎ ((lookup id s.orch.branches ≡ none) × IsCleaned id)

  begun-IsUndone : (id : String) (s : System W) → IsBegun id s → IsUndone id (end_spawning b id s)
  unfolding stuck_branches
  begun-IsUndone id s (branch, e, partial, idle) =
      let o = (end_spawning b id s).orch in
      inl (
        mem-append id (partials o o.branches) _ (
          mem-partials id branch o o.branches e partial
            (rw (mem-discard id id s.orch.in_spawn, same_refl id, idle) refl)))

  abbrev Undoes : String → Failure × System W → Type 0
  Undoes id r = IsUndone id (raised b id r).1

  raising-Undoes :
      (e : Failure) (id : String) (s : System W)
      → IsBegun id s
      → IsCleaned id
      → Undoes id (raising b e (forget b id s))
  unfolding forget
  raising-Undoes e id s (branch, found, partial, idle) killed =
      elim (persist-Writes b (with_branches b (erase id s.orch.branches) s)) [
        | inl (w, run) ↦
            rw (run, found)
              (begun-IsUndone id
                (record (with_branches b (insert id branch (erase id s.orch.branches)) s) {
                  world = w;
                })
                (
                  branch,
                  rw (lookup-insert id id branch (erase id s.orch.branches), same_refl id) refl,
                  partial,
                  idle,
                ))
        | inr (f, w, run, a) ↦
            rw (run) (inr (rw (lookup-erase id id s.orch.branches, same_refl id) refl, killed))
      ]

  cleaned-Undoes :
      (e : Failure) (id : String) (freed : Option ℕ) (r : Bool × W) (s : System W)
      → IsBegun id s
      → (is_some freed ≡ true → r.0 ≡ true → IsCleaned id)
      → Undoes id (cleaned b e id freed r s)
  cleaned-Undoes e id (some freed) (true, w) s h k =
      raising-Undoes e id (record s { world = w }) h (k refl refl)
  cleaned-Undoes e id (some freed) (false, w) s h k = begun-IsUndone id (record s { world = w }) h
  cleaned-Undoes e id none (reaped, w) s h k = begun-IsUndone id (record s { world = w }) h

  roll_back-IsUndone :
      (e : Failure) (id : String) (s : System W) → IsBegun id s → IsUndone id (roll_back b e id s).1
  unfolding rollback_branch
  roll_back-IsUndone e id s h =
      let r = b.kv_kill id s.world in
      cleaned-Undoes e id r.0 (b.sandbox_kill id r.1) s h (λ p q. (s.world, p, q))

  -- A reply is a live branch, where what is said of its making holds, or an error and a branch that
  -- is undone.
  abbrev pub Settles : Type 0 → String → Reply Branch × System W → Type 0
  Settles P id (done branch, s) =
      P
      × (lookup id s.orch.branches ≡ some branch)
      × (branch.state ≡ live)
      × (mem id s.orch.in_spawn ≡ false)
  Settles P id (failed e, s) = IsUndone id s

  abbrev SettledSettles : Type 0 → String → Reply Branch × System W → Type 0
  SettledSettles P id r = Settles P id (settled b id r)

  roll_back-Settles :
      (P : Type 0) (e : Failure) (id : String) (s : System W)
      → IsBegun id s
      → Settles P id (roll_back b e id s)
  roll_back-Settles P e id s h = roll_back-IsUndone e id s h

  go_live-Settles :
      (P : Type 0) (id : String) (s : System W) → P → IsBegun id s → Settles P id (go_live b id s)
  go_live-Settles P id s made (p, found, partial, idle) =
      let d = s.orch.branches in
      let q = to_live b p in
      elim (replace-cases b id (to_live b) p s found) [
        | inl (w, e) ↦ subst (SettledSettles P id) (sym e) (
            roll_back-Settles P _ id (unwritten b id p q s w)
              (p, rw (lookup-insert id id p (insert id q d), same_refl id) refl, partial, idle))
        | inr (f, w, e) ↦ subst (SettledSettles P id) (sym e) (
          made,
          rw (lookup-insert id id q d, same_refl id) refl,
          refl,
          rw (mem-discard id id s.orch.in_spawn, same_refl id) refl,
        )
      ]

  finish-Settles :
      (P : Type 0) (id : String) (s : System W) (r : Bool × W)
      → (r.0 ≡ true → P)
      → IsBegun id s
      → Settles P id (finish b id s r)
  finish-Settles P id s (true, w) made h =
      go_live-Settles P id (record s { world = w }) (made refl) h
  finish-Settles P id s (false, w) made h = roll_back-Settles P _ id (record s { world = w }) h

  -- The KV tree, the sandbox, its readiness and the tokens, one after the other and none raised
  abbrev pub IsBuilt : String → List ℕ → Type 0
  IsBuilt id tokens =
      (w : W) × ((then_do b
          (then_do b (then_do b (b.create_tree id w) (b.spawn id none)) (b.wait_ready id))
          (fill b id tokens)).0
        ≡ true)

  -- No backend was called: nothing was, or the write of the registry alone.
  abbrev pub IsUntouched : System W → System W → Type 0
  IsUntouched s t = (t.world ≡ s.world) ⊎ ((d : Dict Branch) × (t.world ≡ (b.write d s.world).1))

  -- As `Settles`, or an error of a branch that was not begun
  abbrev pub Creates : String → List ℕ → System W → Reply Branch × System W → Type 0
  Creates id tokens s r =
      Settles (IsBuilt id tokens) id r
      ⊎ ((is_done r.0 ≡ false) × (lookup id r.1.orch.branches ≡ none) × IsUntouched s r.1)

  persist_to_touches :
      (path : Option String) (s : System W)
      → ((persist_to b path s).1.world ≡ s.world)
        ⊎ ((d : Dict Branch) × ((persist_to b path s).1.world ≡ (b.write d s.world).1))
  persist_to_touches none s = inl refl
  persist_to_touches (some path) s = elim (Bool-cases (b.write s.orch.branches s.world).0) [
    | inl saved ↦ rw saved (inr (s.orch.branches, refl))
    | inr lost ↦ rw lost (inr (s.orch.branches, refl))
  ]

  persist_touches :
      (s : System W)
      → ((persist b s).1.world ≡ s.world)
        ⊎ ((d : Dict Branch) × ((persist b s).1.world ≡ (b.write d s.world).1))
  unfolding persist
  persist_touches s = persist_to_touches s.orch.registry_path s

  abbrev RecordedCreates : String → List ℕ → System W → Bool × System W → Type 0
  RecordedCreates id tokens s r = Creates id tokens s (recorded b id tokens r)

  recorded-Creates :
      (branch : Branch) (tokens : List ℕ) (s : System W)
      → lookup branch.branch_id s.orch.branches ≡ none
      → is_partial branch.state ≡ true
      → mem branch.branch_id s.orch.in_kill ≡ false
      → RecordedCreates branch.branch_id tokens s (record_branch b branch s)
  unfolding record_branch set_up
  recorded-Creates branch tokens s fresh partial idle =
      let id = branch.branch_id in
      let d = s.orch.branches in
      elim (persist-Writes b (with_branches b (insert id branch d) s)) [
        | inl (w, e) ↦
            rw (e, fresh)
              (inr (
                refl,
                rw (lookup-erase id id (insert id branch d), same_refl id) refl,
                subst (λ x. (x ≡ s.world) ⊎ ((d' : Dict Branch) × (x ≡ (b.write d' s.world).1)))
                    (ap (λ r. r.1.world) e)
                    (persist_touches (with_branches b (insert id branch d) s)),
              ))
        | inr (f, w, e, a) ↦ rw (e) (
            inl (
              finish-Settles (IsBuilt id tokens) id
                (start_spawning b id (written b id branch s f w)) _
                (λ ok. ((written b id branch s f w).world, ok))
                (branch, rw (lookup-insert id id branch d, same_refl id) refl, partial, idle)))
      ]

  leased-Creates :
      (now : ℕ) (id : String) (tokens : List ℕ) (s : System W) (expires : Reply (Option ℕ))
      → lookup id s.orch.branches ≡ none
      → mem id s.orch.in_kill ≡ false
      → Creates id tokens s (leased b now id tokens s expires)
  leased-Creates now id tokens s (failed e) fresh idle = inr (refl, fresh, inl refl)
  leased-Creates now id tokens s (done at) fresh idle =
      recorded-Creates (new_branch b now id none at) tokens s fresh refl idle

  guarded_create-Creates :
      (open_ refused taken : Bool) (now : ℕ) (id : String) (tokens : List ℕ) (lease_s : Option ℤ)
      (s : System W)
      → lookup id s.orch.branches ≡ none
      → mem id s.orch.in_kill ≡ false
      → Creates id tokens s (guarded_create b open_ refused taken now id tokens lease_s s)
  guarded_create-Creates false refused taken now id tokens lease_s s fresh idle =
      inr (refl, fresh, inl refl)
  guarded_create-Creates true true taken now id tokens lease_s s fresh idle =
      inr (refl, fresh, inl refl)
  guarded_create-Creates true false true now id tokens lease_s s fresh idle =
      inr (refl, fresh, inl refl)
  guarded_create-Creates true false false now id tokens lease_s s fresh idle =
      leased-Creates now id tokens s _ fresh idle

  -- Where a name has no record and nobody kills it, `create_parent` returns its live record, which
  -- is in the registry and no longer in flight, and then the backends' calls that make the branch
  -- with its tokens have all returned; or it raises, and then the next `reconcile` takes the
  -- branch up, or it has no record and both backends have killed it, or no backend was called but
  -- for at most a write of the registry and it has no record.
  pub create_parent-Settles :
      (now : ℕ) (id : String) (tokens : List ℕ) (lease_s : Option ℤ) (s : System W)
      → lookup id s.orch.branches ≡ none
      → mem id s.orch.in_kill ≡ false
      → Creates id tokens s (create_parent b now id tokens lease_s s)
  unfolding create_parent
  create_parent-Settles now id tokens lease_s s fresh idle =
      guarded_create-Creates _ _ _ now id tokens lease_s s fresh idle

  -- The fork and the child's sandbox did not raise, and the parent was live after them.
  abbrev pub IsForked : String → String → System W → Type 0
  IsForked parent_id id s =
      ((then_do b (b.fork_branch parent_id id s.world) (b.spawn id (some parent_id))).0 ≡ true)
      × (is_live_branch (lookup parent_id s.orch.branches) ≡ true)

  commit_child-Settles :
      (P : Type 0) (alive : Bool) (id : String) (s : System W)
      → (alive ≡ true → P)
      → IsBegun id s
      → Settles P id (commit_child b alive id s)
  commit_child-Settles P true id s made h = go_live-Settles P id s (made refl) h
  commit_child-Settles P false id s made h = roll_back-Settles P _ id s h

  forked-Settles :
      (P : Type 0) (parent_id id : String) (s : System W) (r : Bool × W)
      → (r.0 ≡ true → is_live_branch (lookup parent_id s.orch.branches) ≡ true → P)
      → IsBegun id s
      → Settles P id (forked b parent_id id s r)
  forked-Settles P parent_id id s (false, w) made h =
      roll_back-Settles P _ id (record s { world = w }) h
  forked-Settles P parent_id id s (true, w) made h =
      commit_child-Settles P _ id (record s { world = w }) (made refl) h

  -- Where a forked child's record is written and not yet live and nobody kills it, its start
  -- returns its live record, which is in the registry and no longer in flight, and then the fork
  -- of the cache and the start of the sandbox have returned and the parent is live; or it raises,
  -- and then the next `reconcile` takes the child up, or it has no record and both backends have
  -- killed it.
  pub spawn_one-Settles :
      (parent_id id : String) (s : System W)
      → IsBegun id s
      → Settles (IsForked parent_id id s) id (spawn_one b parent_id id s)
  unfolding spawn_one
  spawn_one-Settles parent_id id s h =
      forked-Settles (IsForked parent_id id s) parent_id id s _ (λ p q. (p, q)) h
