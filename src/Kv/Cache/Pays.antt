-- ===== src/Kv/Cache/Pays.antt =====
-- What the methods of `TreeKVCache` (agentfork/kv/tree_cache.py) return: the tokens that a branch
-- pays for, finds cached, and frees.
use agentfork.Base.{
  ℕ, ◌+◌, ◌-◌, ◌≤◌, String, ◌≡◌, refl, ◌∙◌, ap, subst, inl, inr, Bool, true, false, Option, none,
  some, List, ◌++◌, arith, length, common, if◌then◌else◌, same_refl, same, common_self,
  common-append, common-le_right, length-append,
}
use agentfork.Base.Dict.{lookup, contains, lookup-insert, lookup-erase}
use agentfork.Kv.Radix.{Children, walk, kill_path}
use agentfork.Kv.Radix.Holds.{Held, Holds}
use agentfork.Kv.Radix.Holds.Walk.{walk-Holds, total-walk}
use agentfork.Kv.Radix.Holds.Match.{walk_bound, walk-Shares, Shares}
use agentfork.Kv.Cache.{
  TreeKvCache, TreeId, Result, ok, raise, memory_error, child_or_default, fork_branch, kill,
}
use agentfork.Kv.Cache.Access.{has_room, extend, match_tree_prefix}
use agentfork.Kv.Cache.Valid.{held_in, HoldsRoot, IsValid}
use agentfork.Kv.Cache.Change.{root_of}
use agentfork.Kv.Cache.Fork.{fork_branch_ok, after_fork, new_tid}
use agentfork.Kv.Cache.Kill.{kill_run, kill_freed, after_kill}
use agentfork.Kv.Cache.Extend.{retree-IsValid}
use agentfork.Kv.Cache.Charge.{extend_run, matched-le}

-- A result on the one branch that returns.
result_ok :
    (over room : Bool) (a paid : ℕ) (x y z : TreeKvCache) (r : Result ℕ × TreeKvCache)
    → r ≡ (
        if over
        then (raise memory_error, x)
        else (if room then (ok a, y) else (raise memory_error, z)))
    → r.0 ≡ ok paid
    → (a ≡ paid) × (r.1 ≡ y)
result_ok over room a paid x y z r e h = ground arith

-- `m` is the most that the tokens share with a branch of the namespace, and it is reached.
abbrev pub IsLongest : Held → List ℕ → ℕ → Type 0
IsLongest held tokens m =
    ((j : String) (s : List ℕ) → held j ≡ some s → common s tokens ≤ m) × Shares held tokens m

-- The walk matches the most, if some branch is there at all.
walk-IsLongest :
    (now : ℕ) (id : String) (s tokens : List ℕ) (kids : Children) (held : Held)
    → Holds held kids
    → held id ≡ some s
    → IsLongest held tokens (walk now tokens kids).1
walk-IsLongest now id s tokens kids held h e =
    let bound = walk_bound now tokens kids held h in
    (
      bound,
      elim (walk-Shares now tokens kids held h) [
        | inl z ↦ rw z (id, s, e, omega (arith, bound id s e))
        | inr shared ↦ shared
      ],
    )

module _ (now : ℕ) (id : String) (tid : TreeId) (seq : List ℕ) (c : TreeKvCache) (v : IsValid c)
    (ei : lookup id c.trees ≡ some tid) (et : lookup id c.tree_tokens ≡ some seq) where
  abbrev held : Held
  held = held_in c.trees c.tree_tokens tid.namespace

  held_id : held id ≡ some seq
  held_id = rw (ei, et, same_refl tid.namespace) refl

  found : (kids : Children) × (lookup tid.namespace c.roots ≡ some kids)
  found =
      let (s, kids, es, er) =
        root_of c.tree_tokens c.roots id (lookup id c.trees) tid (v.rooted id) ei in
      (kids, er)

  root_holds : Holds held found.0
  root_holds = subst (HoldsRoot held) found.1 (v.holds tid.namespace)

  abbrev full : List ℕ → List ℕ
  full tokens = seq ++ tokens

  abbrev charged : List ℕ → ℕ
  charged tokens = length (full tokens) - (walk now (full tokens) found.0).1

  longest : (tokens : List ℕ) → IsLongest held tokens (walk now tokens found.0).1
  longest tokens = walk-IsLongest now id seq tokens found.0 held root_holds held_id

  matched_bounds :
      (tokens : List ℕ)
      → (length seq ≤ (walk now (full tokens) found.0).1)
        × ((walk now (full tokens) found.0).1 ≤ length (full tokens))
  matched_bounds tokens = (
    omega (arith, (longest (full tokens)).0 id seq held_id, common-append seq tokens),
    matched-le now id tokens tid seq found.0 c v ei et found.1,
  )

  -- In a valid cache, an `extend` of a live branch that returns has charged for exactly the tokens
  -- behind the longest prefix that the whole sequence shares with a live branch of the namespace;
  -- it records the sequence, and the resident tokens grow by what was charged.
  pub extend_pays :
      (tokens : List ℕ) (paid : ℕ)
      → (extend now id tokens c).0 ≡ ok paid
      → (shared : ℕ) × IsLongest held (seq ++ tokens) shared
        × (paid + shared ≡ length (seq ++ tokens))
        × (lookup id (extend now id tokens c).1.tree_tokens ≡ some (seq ++ tokens))
        × ((extend now id tokens c).1.stats.resident_tokens ≡ c.stats.resident_tokens + paid)
  extend_pays tokens paid returned =
      let run = extend_run now id tokens tid seq found.0 c v ei et found.1 in
      let (amount, after) = result_ok _ _ (charged tokens) paid _ _ _ _ run returned in
      let bounds = matched_bounds tokens in
      (
        (walk now (full tokens) found.0).1,
        longest (full tokens),
        omega arith,
        rw after (rw (lookup-insert id id (full tokens) c.tree_tokens, same_refl id) refl),
        rw after (ap (λ n. c.stats.resident_tokens + n) amount),
      )

  -- In a valid cache with no budget and with room for all new tokens, `extend` of a live branch
  -- returns, and charges for no more than the new tokens.
  pub extend_succeeds :
      (tokens : List ℕ)
      → c.per_tree_budget ≡ none
      → c.stats.resident_tokens + length tokens ≤ c.capacity
      → (paid : ℕ) × ((extend now id tokens c).0 ≡ ok paid) × (paid ≤ length tokens)
  extend_succeeds tokens unlimited room =
      let run = extend_run now id tokens tid seq found.0 c v ei et found.1 in
      let bounds = matched_bounds tokens in
      let l = length-append seq tokens in
      let fits : has_room (charged tokens) c ≡ true = ground arith in
      (charged tokens, rw (run, unlimited, fits) refl, omega arith)

  -- In a valid cache, `match_tree_prefix` of a live branch returns the length of the longest
  -- prefix shared with a live branch of the namespace, and keeps the cache valid.
  pub match_tree_prefix-IsLongest :
      (tokens : List ℕ)
      → (m : ℕ) × ((match_tree_prefix now id tokens c).0 ≡ ok m)
        × IsLongest held tokens m
        × IsValid (match_tree_prefix now id tokens c).1
  unfolding match_tree_prefix
  match_tree_prefix-IsLongest tokens = (
    (walk now tokens found.0).1,
    rw (ei, match_tree_prefix) (rw (found.1) refl),
    longest tokens,
    rw (ei, match_tree_prefix)
        (rw (found.1) (
          retree-IsValid tid.namespace found.0 (walk now tokens found.0).0 c v found.1
            (walk-Holds now tokens found.0 held root_holds) (total-walk now tokens found.0))),
  )

  -- In a valid cache, the lookup of a live branch's whole sequence matches all of it.
  pub match_tree_prefix_pinned : (match_tree_prefix now id seq c).0 ≡ ok (length seq)
  match_tree_prefix_pinned =
      let (m, returned, (most, (j, s, e, shared)), valid) = match_tree_prefix-IsLongest seq in
      returned
      ∙ ap ok (omega (arith, most id seq held_id, common_self seq, shared, common-le_right s seq))

-- In a valid cache, a fork of a live branch under a name that is free returns, leaves the resident
-- tokens, gives the child its parent's tokens and namespace, and counts them as saved.
pub fork_branch_copies_nothing :
    (parent_id : String) (child_id? : Option String) (c : TreeKvCache) (parent : TreeId)
    → IsValid c
    → lookup parent_id c.trees ≡ some parent
    → lookup (child_or_default child_id? parent_id c.child_seq) c.trees ≡ none
    → (tid : TreeId) × (tokens : List ℕ) × ((fork_branch parent_id child_id? c).0 ≡ ok tid)
      × (tid.namespace ≡ parent.namespace)
      × (lookup parent_id c.tree_tokens ≡ some tokens)
      × (lookup tid.tree_id (fork_branch parent_id child_id? c).1.tree_tokens ≡ some tokens)
      × ((fork_branch parent_id child_id? c).1.stats.resident_tokens ≡ c.stats.resident_tokens)
      × ((fork_branch parent_id child_id? c).1.stats.prefill_tokens_saved
          ≡ c.stats.prefill_tokens_saved + length tokens)
fork_branch_copies_nothing parent_id child_id? c parent v ep fresh =
    let (tokens, kids, et, run, valid, all) =
      fork_branch_ok parent_id child_id? c parent v ep fresh in
    let child = child_or_default child_id? parent_id c.child_seq in
    let tid = new_tid parent_id child_id? c parent in
    let after : (fork_branch parent_id child_id? c).1 ≡ after_fork child tid tokens kids c =
      ap (λ (r : Result TreeId × TreeKvCache). r.1) run in
    (
      tid,
      tokens,
      ap (λ (r : Result TreeId × TreeKvCache). r.0) run,
      refl,
      et,
      rw after (rw (lookup-insert child child tokens c.tree_tokens, same_refl child) refl),
      ap (λ (k : TreeKvCache). k.stats.resident_tokens) after,
      ap (λ (k : TreeKvCache). k.stats.prefill_tokens_saved) after
          ∙ ap (λ n. c.stats.prefill_tokens_saved + n) all,
    )

-- In a valid cache, `kill` of a live branch returns the number of tokens by which the resident
-- ones fall, forgets the branch, and leaves the entries of every other branch.
pub kill_frees :
    (id : String) (c : TreeKvCache) (tid : TreeId)
    → IsValid c
    → lookup id c.trees ≡ some tid
    → (freed : ℕ) × ((kill id c).0 ≡ ok freed)
      × ((kill id c).1.stats.resident_tokens + freed ≡ c.stats.resident_tokens)
      × (contains id (kill id c).1.trees ≡ false)
      × ((j : String)
          → same id j ≡ false
          → (lookup j (kill id c).1.trees ≡ lookup j c.trees)
            × (lookup j (kill id c).1.tree_tokens ≡ lookup j c.tree_tokens))
kill_frees id c tid v ei =
    let (tokens, kids, et, er) =
      root_of c.tree_tokens c.roots id (lookup id c.trees) tid (v.rooted id) ei in
    let run = kill_run id tid tokens kids c v ei et er in
    let after : (kill id c).1 ≡ after_kill id tid tokens kids c =
      ap (λ (r : Result ℕ × TreeKvCache). r.1) run in
    (
      (kill_path id tokens kids).1,
      ap (λ (r : Result ℕ × TreeKvCache). r.0) run,
      kill_freed id tid tokens kids c v ei et er,
      rw after (rw (lookup-erase id id c.trees, same_refl id) refl),
      λ j other. (
        rw after (rw (lookup-erase id j c.trees, other) refl),
        rw after (rw (lookup-erase id j c.tree_tokens, other) refl),
      ),
    )
