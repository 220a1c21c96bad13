-- ===== src/Kv/Cache/Fork.antt =====
-- `fork_branch` of agentfork/kv/tree_cache.py: valid caches stay valid, and nothing is copied.
use agentfork.Base.{
  ℕ, ◌+◌, String, ◌≡◌, refl, sym, ap, subst, inl, inr, Option, none, some, List, arith, length,
  same, same→eq, same_refl, Option-cases, Bool-cases,
}
use agentfork.Base.Dict.{lookup, insert, lookup-insert}
use agentfork.Base.Dict.Sum.{sum-insert, sum-insert_new, insert-IsUnique}
use agentfork.Kv.Radix.{Children, share, bump, total}
use agentfork.Kv.Radix.Holds.{Held, Holds, update}
use agentfork.Kv.Radix.Holds.Fork.{fork-Holds, total-bump}
use agentfork.Kv.Cache.{TreeKvCache, TreeId, Result, ok, child_or_default, inherit, fork_branch}
use agentfork.Kv.Cache.Valid.{held_in, HoldsRoot, IsWithin, IsValid}
use agentfork.Kv.Cache.Change.{
  Change, Change-holds, insert-IsRooted, insert-IsWithin, inserted-IsRooted, total-IsWithin,
  root_of,
}

-- The counter of the default names is not looked at.
pub seq-IsValid : (seq : ℕ) (c : TreeKvCache) → IsValid c → IsValid (record c { child_seq = seq })
seq-IsValid seq c v = record {
  rooted = v.rooted;
  holds = v.holds;
  within = v.within;
  named = v.named;
  unique_roots = v.unique_roots;
  unique_tokens = v.unique_tokens;
  resident = v.resident;
  logical = v.logical;
  fits = v.fits;
}

-- The cache after a fork that returns.
abbrev pub after_fork : String → TreeId → List ℕ → Children → TreeKvCache → TreeKvCache
after_fork child_id tid tokens kids c = record c {
  trees = insert child_id tid c.trees;
  tree_tokens = insert child_id tokens c.tree_tokens;
  child_seq = c.child_seq + 1;
  roots = insert tid.namespace (bump (share child_id) tokens kids).0 c.roots;
  stats = record c.stats {
    prefill_tokens_saved = c.stats.prefill_tokens_saved + (bump (share child_id) tokens kids).1;
    logical_tokens = c.stats.logical_tokens + length tokens;
  };
}

-- A new tree with the tokens of a parent in its namespace.
module _ (parent_id child_id : String) (tid : TreeId) (tokens : List ℕ) (kids : Children)
    (c : TreeKvCache) (v : IsValid c)
    (held_parent : held_in c.trees c.tree_tokens tid.namespace parent_id ≡ some tokens)
    (er : lookup tid.namespace c.roots ≡ some kids) (fresh : lookup child_id c.trees ≡ none) where
  abbrev held : Held
  held = held_in c.trees c.tree_tokens tid.namespace

  held_child : (ns' : String) → held_in c.trees c.tree_tokens ns' child_id ≡ none
  held_child ns' = rw fresh refl

  child-Change :
      Change child_id tid.namespace
        (some tokens)
        c.trees
        (insert child_id tid c.trees)
        c.tree_tokens
        (insert child_id tokens c.tree_tokens)
  child-Change = record {
    at =
        rw
          (
            lookup-insert child_id child_id tid c.trees,
            lookup-insert child_id child_id tokens c.tree_tokens,
            same_refl child_id,
            same_refl tid.namespace,
          )
          refl;
    away = λ ns' other.
        rw (lookup-insert child_id child_id tid c.trees, same_refl child_id, other, held_child ns')
          refl;
    other_trees = λ j e. rw (lookup-insert child_id j tid c.trees, e) refl;
    other_tokens = λ j e. rw (lookup-insert child_id j tokens c.tree_tokens, e) refl;
  }

  kids_total : total (bump (share child_id) tokens kids).0 ≡ total kids
  kids_total = total-bump (share child_id) tokens kids (λ n. refl)

  loaded : Holds held kids
  loaded = subst (HoldsRoot held) er (v.holds tid.namespace)

  pub forked :
      Holds (update child_id (some tokens) held) (bump (share child_id) tokens kids).0
      × ((bump (share child_id) tokens kids).1 ≡ length tokens)
  forked =
      fork-Holds parent_id child_id tokens kids held loaded held_parent (held_child tid.namespace)

  pub after_fork-IsValid : IsValid (after_fork child_id tid tokens kids c)
  after_fork-IsValid = record {
    rooted = λ j. elim (Bool-cases (same child_id j)) [
      | inl e ↦
          rw
            (
              ← same→eq child_id j e,
              lookup-insert child_id child_id tid c.trees,
              same_refl child_id,
            )
            (inserted-IsRooted child_id tid tokens (bump (share child_id) tokens kids).0
              c.tree_tokens c.roots)
      | inr e ↦
          rw (lookup-insert child_id j tid c.trees, e)
            (insert-IsRooted tid.namespace j (bump (share child_id) tokens kids).0 c.roots
              c.tree_tokens (insert child_id tokens c.tree_tokens) (lookup j c.trees)
              (rw (lookup-insert child_id j tokens c.tree_tokens, e) refl) (v.rooted j))
    ];
    holds =
        Change-holds child_id tid.namespace (some tokens) c.trees (insert child_id tid c.trees)
          c.tree_tokens (insert child_id tokens c.tree_tokens) child-Change c.roots
          (bump (share child_id) tokens kids).0 v.holds forked.0;
    within =
        insert-IsWithin tid.namespace (bump (share child_id) tokens kids).0 c.roots
          c.per_tree_budget v.within
          (total-IsWithin c.per_tree_budget kids (bump (share child_id) tokens kids).0 kids_total
            (subst (IsWithin c.per_tree_budget) er (v.within tid.namespace)));
    named = λ j e. elim (Bool-cases (same child_id j)) [
      | inl here ↦ absurd (cc (sym e, lookup-insert child_id j tid c.trees, here))
      | inr other ↦
          rw (lookup-insert child_id j tokens c.tree_tokens, other)
            (v.named j (rw (lookup-insert child_id j tid c.trees, other) at e))
    ];
    unique_roots =
        insert-IsUnique tid.namespace (bump (share child_id) tokens kids).0 c.roots v.unique_roots;
    unique_tokens = insert-IsUnique child_id tokens c.tree_tokens v.unique_tokens;
    resident = omega (
      arith,
      v.resident,
      kids_total,
      sum-insert total tid.namespace (bump (share child_id) tokens kids).0 kids c.roots er,
    );
    logical = omega (
      arith,
      v.logical,
      sum-insert_new length child_id tokens c.tree_tokens (v.named child_id fresh),
    );
    fits = v.fits;
  }

abbrev pub new_tid : String → Option String → TreeKvCache → TreeId → TreeId
new_tid parent_id child_id? c parent = record {
  tree_id = child_or_default child_id? parent_id c.child_seq;
  parent_id = some parent_id;
  child_seq = c.child_seq;
  namespace = parent.namespace;
}

module _ (parent_id : String) (child_id? : Option String) (c : TreeKvCache) (parent : TreeId)
    (v : IsValid c) (ep : lookup parent_id c.trees ≡ some parent) where
  abbrev child : String
  child = child_or_default child_id? parent_id c.child_seq

  abbrev tid : TreeId
  tid = new_tid parent_id child_id? c parent

  fork_run :
      (tokens : List ℕ) (kids : Children)
      → lookup parent_id c.tree_tokens ≡ some tokens
      → lookup parent.namespace c.roots ≡ some kids
      → lookup child c.trees ≡ none
      → fork_branch parent_id child_id? c ≡ (ok tid, after_fork child tid tokens kids c)
  unfolding fork_branch
  fork_run tokens kids et er fresh = rw (ep, fork_branch) (rw (fresh, et) (rw (er, inherit) refl))

  -- The branch of `fork_branch` on which it returns.
  pub fork_branch_ok :
      lookup child c.trees ≡ none
      → (tokens : List ℕ) × (kids : Children) × (lookup parent_id c.tree_tokens ≡ some tokens)
        × (fork_branch parent_id child_id? c ≡ (ok tid, after_fork child tid tokens kids c))
        × IsValid (after_fork child tid tokens kids c)
        × ((bump (share child) tokens kids).1 ≡ length tokens)
  fork_branch_ok fresh =
      let (tokens, kids, et, er) =
        root_of c.tree_tokens c.roots parent_id (lookup parent_id c.trees) parent
          (v.rooted parent_id) ep in
      let held_parent : held_in c.trees c.tree_tokens parent.namespace parent_id ≡ some tokens =
        rw (ep, et, same_refl parent.namespace) refl in
      (
        tokens,
        kids,
        et,
        fork_run tokens kids et er fresh,
        after_fork-IsValid parent_id child tid tokens kids c v held_parent er fresh,
        (forked parent_id child tid tokens kids c v held_parent er fresh).1,
      )

  fork_branch_taken :
      (t : TreeId)
      → lookup child c.trees ≡ some t
      → (fork_branch parent_id child_id? c).1 ≡ record c { child_seq = c.child_seq + 1 }
  unfolding fork_branch
  fork_branch_taken t e = rw (ep, fork_branch) (rw e refl)

-- `fork_branch` keeps the cache valid, also where it raises.
pub fork_branch-IsValid :
    (parent_id : String) (child_id? : Option String) (c : TreeKvCache)
    → IsValid c
    → IsValid (fork_branch parent_id child_id? c).1
unfolding fork_branch
fork_branch-IsValid parent_id child_id? c v = elim (Option-cases (lookup parent_id c.trees)) [
  | inl unknown ↦ rw (unknown, fork_branch) v
  | inr (parent, ep) ↦
      elim (Option-cases (lookup (child_or_default child_id? parent_id c.child_seq) c.trees)) [
        | inl fresh ↦
            let (tokens, kids, et, e, v', all) =
              fork_branch_ok parent_id child_id? c parent v ep fresh in
            rw (ap (λ (r : Result TreeId × TreeKvCache). r.1) e) v'
        | inr (t, taken) ↦
            rw (fork_branch_taken parent_id child_id? c parent v ep t taken)
              (seq-IsValid (c.child_seq + 1) c v)
      ]
]
