-- ===== src/Kv/Cache/Reach.antt =====
-- What the cache of agentfork/kv/tree_cache.py comes to by calls of its methods
use agentfork.Base.{ℕ, ◌≤◌, ◌≡◌, String, Option, none, some, List, inl, inr, length, Option-cases}
use agentfork.Base.Int.{ℤ}
use agentfork.Base.Dict.{lookup}
use agentfork.Base.Dict.Sum.{sum}
use agentfork.Kv.Radix.{total}
use agentfork.Kv.Cache.{TreeKvCache, TreeId, ok, init, create_tree, fork_branch, kill}
use agentfork.Kv.Cache.Access.{extend, match_tree_prefix}
use agentfork.Kv.Cache.Valid.{IsValid}
use agentfork.Kv.Cache.Create.{init-IsValid, create_tree-IsValid}
use agentfork.Kv.Cache.Fork.{fork_branch-IsValid}
use agentfork.Kv.Cache.Kill.{kill-IsValid}
use agentfork.Kv.Cache.Charge.{extend-IsValid}
use agentfork.Kv.Cache.Pays.{match_tree_prefix-IsLongest, match_tree_prefix_pinned}

-- A call, whether it returns or raises. A new tree has a name that is not a namespace's: a root that
-- was killed while its forks live on is not created again. A lookup is one of a live branch.
pub data Step (c : TreeKvCache) : TreeKvCache → Type 0 where
  creates : (id : String) → lookup id c.roots ≡ none → Step c (create_tree id c).1
  forks :
      (parent_id : String) (child_id : Option String) → Step c (fork_branch parent_id child_id c).1
  kills : (id : String) → Step c (kill id c).1
  extends : (now : ℕ) (id : String) (tokens : List ℕ) → Step c (extend now id tokens c).1
  looks :
      (now : ℕ) (id : String) (tid : TreeId) (seq tokens : List ℕ)
      → lookup id c.trees ≡ some tid
      → lookup id c.tree_tokens ≡ some seq
      → Step c (match_tree_prefix now id tokens c).1

pub data Reach (capacity : ℤ) (budget : Option ℤ) : TreeKvCache → Type 0 where
  here : (c : TreeKvCache) → init capacity budget ≡ ok c → Reach capacity budget c
  later : {c d : TreeKvCache} → Reach capacity budget c → Step c d → Reach capacity budget d

create-IsValid :
    (id : String) (c : TreeKvCache)
    → IsValid c
    → lookup id c.roots ≡ none
    → IsValid (create_tree id c).1
unfolding create_tree
create-IsValid id c v unused = elim (Option-cases (lookup id c.trees)) [
  | inl fresh ↦ create_tree-IsValid id c fresh v unused
  | inr (tid, taken) ↦ rw (taken, create_tree) v
]

Step-IsValid : {c d : TreeKvCache} → Step c d → IsValid c → IsValid d
Step-IsValid {c} (creates id unused) v = create-IsValid id c v unused
Step-IsValid {c} (forks parent_id child_id) v = fork_branch-IsValid parent_id child_id c v
Step-IsValid {c} (kills id) v = kill-IsValid id c v
Step-IsValid {c} (extends now id tokens) v = extend-IsValid now id tokens c v
Step-IsValid {c} (looks now id tid seq tokens ei et) v =
    (match_tree_prefix-IsLongest now id tid seq c v ei et tokens).3

pub Reach-IsValid :
    {capacity : ℤ} {budget : Option ℤ} {c : TreeKvCache} → Reach capacity budget c → IsValid c
Reach-IsValid {capacity} {budget} (here c e) = init-IsValid capacity budget c e
Reach-IsValid (later r s) = Step-IsValid s (Reach-IsValid r)

-- In every cache that the constructor's becomes by calls of the methods, whether they return or
-- raise, where no `create_tree` takes the name of a namespace that is still there and the lookups
-- are of live branches, the lookup of a live branch's whole sequence matches all of it, the
-- resident tokens are those of the trees, and they are within the capacity.
pub reach_pinned :
    {capacity : ℤ} {budget : Option ℤ} {c : TreeKvCache} (now : ℕ) (id : String) (tid : TreeId)
    (seq : List ℕ)
    → Reach capacity budget c
    → lookup id c.trees ≡ some tid
    → lookup id c.tree_tokens ≡ some seq
    → ((match_tree_prefix now id seq c).0 ≡ ok (length seq))
      × (c.stats.resident_tokens ≡ sum total c.roots)
      × (c.stats.resident_tokens ≤ c.capacity)
reach_pinned {c = c} now id tid seq r ei et =
    let v = Reach-IsValid r in
    (match_tree_prefix_pinned now id tid seq c v ei et, v.resident, v.fits)
