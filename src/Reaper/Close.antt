-- ===== src/Reaper/Close.antt =====
-- What `kill` and `close` of agentfork/kill/reaper.py leave of the table
use agentfork.Base.{
  ℕ, String, ◌≡◌, refl, ◌∙◌, ap, Bool, true, Option, none, some, List, [], ◌∷◌, Bool-cases, inl,
  inr, arith, same, same→eq, if◌then◌else◌,
}
use agentfork.Base.Dict.{Dict, lookup, erase, keys, lookup-erase, mem}
use agentfork.Reaper.{
  System, BranchReaper, Fault, signaled, settled, kill_found, kill, first_fault, kill_each,
  close_all,
}
use agentfork.Reaper.Over.{
  Lawful, trans, Over, Over-Still, Still, then_cache_branches, kill_found-Still, kill_found-Over,
}

keys-mem :
    {V : Type 0} (d : Dict V) (k : String) (v : V) → lookup k d ≡ some v → mem k (keys d) ≡ true
unfolding lookup keys mem
keys-mem [] k v h = absurd (ground (arith, h))
keys-mem ((i, w) ∷ d) k v h = elim (Bool-cases (same i k)) [
  | inl e ↦ ground (arith, e)
  | inr e ↦ ground (arith, e, h, keys-mem d k v)
]

module _ {W : Type 0} (os : System W) (executable own_pid : String)
    (is_running is_open : ℕ → W → Bool) (law : Lawful os is_running is_open) where
  kill_found_branches :
      (has_kv : Bool) (id j : String) (x : Option (ℕ × ℕ)) (r : BranchReaper W)
      → lookup id r.branches ≡ x
      → lookup j (kill_found os executable own_pid has_kv id x r).1.branches
        ≡ (if same id j then none else lookup j r.branches)
  kill_found_branches has_kv id j none r h =
      ground (arith, h, same→eq id j, ap (λ k. lookup k r.branches))
  kill_found_branches has_kv id j (some (pid, fd)) r h =
      let x = signaled os executable own_pid pid fd (os.send_sigkill fd r.world) in
      let next : BranchReaper W = record {
        branches = erase id r.branches;
        world = settled os executable own_pid pid fd x.1;
      } in
      ap (lookup j)
        (then_cache_branches os executable own_pid is_running is_open law has_kv id pid x.0 next)
      ∙ lookup-erase id j r.branches

  kill_branches :
      (has_kv : Bool) (id j : String) (r : BranchReaper W)
      → lookup j (kill os executable own_pid has_kv id r).1.branches
        ≡ (if same id j then none else lookup j r.branches)
  unfolding kill
  kill_branches has_kv id j r = kill_found_branches has_kv id j (lookup id r.branches) r refl

  kill-Still :
      (has_kv : Bool) (id : String) (r : BranchReaper W)
      → Still os executable own_pid is_running is_open law r.world
          (kill os executable own_pid has_kv id r).1.world
  unfolding kill
  kill-Still has_kv id r =
      kill_found-Still os executable own_pid is_running is_open law has_kv id (lookup id r.branches)
        r

  kill-Over :
      (has_kv : Bool) (id : String) (pid fd : ℕ) (r : BranchReaper W)
      → lookup id r.branches ≡ some (pid, fd)
      → Over os executable own_pid is_running is_open law pid fd
          (kill os executable own_pid has_kv id r).1.world
  unfolding kill
  kill-Over has_kv id pid fd r h =
      rw h (kill_found-Over os executable own_pid is_running is_open law has_kv id pid fd r)

  kill_each-Still :
      (has_kv : Bool) (ids : List String) (error : Option Fault) (r : BranchReaper W)
      → Still os executable own_pid is_running is_open law r.world
          (kill_each os executable own_pid has_kv ids error r).1.world
  unfolding kill_each
  kill_each-Still has_kv [] error r = ((λ p e. e), λ f e. e)
  kill_each-Still has_kv (id ∷ ids) error r =
      let x = kill os executable own_pid has_kv id r in
      trans os executable own_pid is_running is_open law r.world x.1.world _
        (kill-Still has_kv id r)
        (kill_each-Still has_kv ids (first_fault os executable own_pid error x.0) x.1)

  -- A branch of the list is out of the table in the end, and one that was not in it stays out.
  kill_each_branches :
      (has_kv : Bool) (ids : List String) (error : Option Fault) (r : BranchReaper W) (j : String)
      → lookup j (kill_each os executable own_pid has_kv ids error r).1.branches
        ≡ (if mem j ids then none else lookup j r.branches)
  unfolding kill_each mem
  kill_each_branches has_kv [] error r j = refl
  kill_each_branches has_kv (id ∷ ids) error r j =
      let x = kill os executable own_pid has_kv id r in
      kill_each_branches has_kv ids (first_fault os executable own_pid error x.0) x.1 j
      ∙ ground (arith, kill_branches has_kv id j r)

  kill_each-Over :
      (has_kv : Bool) (ids : List String) (error : Option Fault) (r : BranchReaper W) (j : String)
      (pid fd : ℕ)
      → mem j ids ≡ true
      → lookup j r.branches ≡ some (pid, fd)
      → Over os executable own_pid is_running is_open law pid fd
          (kill_each os executable own_pid has_kv ids error r).1.world
  unfolding kill_each mem
  kill_each-Over has_kv [] error r j pid fd m h = absurd (ground (arith, m))
  kill_each-Over has_kv (id ∷ ids) error r j pid fd m h =
      let x = kill os executable own_pid has_kv id r in
      let rest = first_fault os executable own_pid error x.0 in
      elim (Bool-cases (same id j)) [
        | inl e ↦
            let found : lookup id r.branches ≡ some (pid, fd) =
              ap (λ k. lookup k r.branches) (same→eq id j e) ∙ h in
            Over-Still os executable own_pid is_running is_open law pid fd x.1.world _
              (kill_each-Still has_kv ids rest x.1) (kill-Over has_kv id pid fd r found)
        | inr e ↦
            kill_each-Over has_kv ids rest x.1 j pid fd (ground (arith, e, m))
              (kill_branches has_kv id j r ∙ ground (arith, e, h))
      ]

  -- If `wait` returns when the process has ended, `poll` tells the truth, `close` closes a pidfd
  -- and no call brings a process or a pidfd back, then after the reaper's `close` the process of
  -- every branch of its table has ended, its pidfd is closed and its entry is gone, whether the
  -- kills succeeded or not.
  pub close_all-Over :
      (has_kv : Bool) (r : BranchReaper W) (id : String) (pid fd : ℕ)
      → lookup id r.branches ≡ some (pid, fd)
      → Over os executable own_pid is_running is_open law pid fd
          (close_all os executable own_pid has_kv r).1.world
        × (lookup id (close_all os executable own_pid has_kv r).1.branches ≡ none)
  unfolding close_all
  close_all-Over has_kv r id pid fd h =
      let listed = keys-mem r.branches id (pid, fd) h in
      (
        kill_each-Over has_kv (keys r.branches) none r id pid fd listed h,
        kill_each_branches has_kv (keys r.branches) none r id ∙ ground (arith, listed),
      )
