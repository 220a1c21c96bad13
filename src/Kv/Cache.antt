-- ===== src/Kv/Cache.antt =====
-- `TreeKVCache` of agentfork/kv/tree_cache.py. A method takes the cache and gives back what it
-- returns or raises beside the cache as it leaves it, also where it raises. The lock is held over a
-- whole method, so methods are atomic; `now` is the reading of the monotonic clock.
pub mod Access
pub mod Valid
pub mod Change
pub mod Fork
pub mod Kill
pub mod Evict
pub mod Extend
pub mod Charge
pub mod Pays
pub mod Reach
pub mod Create
pub mod Tests
use agentfork.Base.{
  ℕ, ◌+◌, ◌-◌, String, Bool, true, false, Option, none, some, List, [], ◌∷◌, length, if◌then◌else◌,
  same, child_name,
}
use agentfork.Base.Int.{ℤ, pos, negsuc}
use agentfork.Base.Dict.{Dict, lookup, insert, erase, contains}
use agentfork.Kv.Radix.{Children, nil, bump, share, kill_path}

pub data Error : Type 0 where
  key_error value_error memory_error : Error

pub data Result (A : Type 0) : Type 0 where
  ok : A → Result A
  raise : Error → Result A

-- `TreeId`
pub record TreeId : Type 0 where
  pub tree_id : String
  pub parent_id : Option String
  pub child_seq : ℕ
  pub namespace : String

-- `CacheStats`, without its ratio
pub record CacheStats : Type 0 where
  pub resident_tokens : ℕ
  pub logical_tokens : ℕ
  pub prefill_tokens_charged : ℕ
  pub prefill_tokens_saved : ℕ
  pub evicted_tokens : ℕ

-- The object's fields: `roots` is `self.root.children`, and `child_seq` the next value of
-- `self._child_seq`.
pub record TreeKvCache : Type 0 where
  pub roots : Dict Children
  pub capacity : ℕ
  pub per_tree_budget : Option ℕ
  pub trees : Dict TreeId
  pub tree_tokens : Dict (List ℕ)
  pub child_seq : ℕ
  pub stats : CacheStats

abbrev pub empty : ℕ → Option ℕ → TreeKvCache
empty capacity budget = record {
  roots = [];
  capacity = capacity;
  per_tree_budget = budget;
  trees = [];
  tree_tokens = [];
  child_seq = 1;
  stats = record {
    resident_tokens = 0;
    logical_tokens = 0;
    prefill_tokens_charged = 0;
    prefill_tokens_saved = 0;
    evicted_tokens = 0;
  };
}

-- `__init__`
unfoldable pub init : ℤ → Option ℤ → Result TreeKvCache
init (negsuc n) budget = raise value_error
init (pos capacity) none = ok (empty capacity none)
init (pos capacity) (some (pos b)) = ok (empty capacity (some b))
init (pos capacity) (some (negsuc b)) = raise value_error

unfoldable pub create_tree : String → TreeKvCache → Result TreeId × TreeKvCache
create_tree tree_id c =
    if contains tree_id c.trees
    then (raise value_error, c)
    else let tid : TreeId = record {
      tree_id = tree_id;
      parent_id = none;
      child_seq = 0;
      namespace = tree_id;
    } in
      (
        ok tid,
        record c {
          trees = insert tree_id tid c.trees;
          tree_tokens = insert tree_id [] c.tree_tokens;
          roots = insert tree_id nil c.roots;
        },
      )

-- `child_id or f"{parent_id}/{seq}"`
abbrev pub child_or_default : Option String → String → ℕ → String
child_or_default none parent_id seq = child_name parent_id seq
child_or_default (some child_id) parent_id seq =
    if same child_id "" then child_name parent_id seq else child_id

-- The second half of `fork_branch`: the loop over the parent's path, and the counters.
unfoldable pub inherit :
    String → TreeId → List ℕ → TreeKvCache → Option Children → Result TreeId × TreeKvCache
inherit child_id tid tokens c none = (raise key_error, c)
inherit child_id tid tokens c (some kids) =
    let (kids', matched) = bump (share child_id) tokens kids in
    (
      ok tid,
      record c {
        roots = insert tid.namespace kids' c.roots;
        stats = record c.stats {
          prefill_tokens_saved = c.stats.prefill_tokens_saved + matched;
          logical_tokens = c.stats.logical_tokens + length tokens;
        };
      },
    )

-- `fork_branch` once the parent is found, with its tokens
unfoldable pub fork_from :
    String → Option String → TreeKvCache → TreeId → Option (List ℕ) → Result TreeId × TreeKvCache
unfolding inherit
fork_from parent_id child_id? c parent tokens? =
    let seq = c.child_seq in
    let child_id = child_or_default child_id? parent_id seq in
    let counted : TreeKvCache = record c { child_seq = seq + 1 } in
    let tid : TreeId = record {
      tree_id = child_id;
      parent_id = some parent_id;
      child_seq = seq;
      namespace = parent.namespace;
    } in
    if contains child_id c.trees then (raise value_error, counted) else elim tokens? [
      | none ↦ (raise key_error, record counted { trees = insert child_id tid c.trees })
      | some tokens ↦
          inherit child_id tid tokens
            (record counted {
              trees = insert child_id tid c.trees;
              tree_tokens = insert child_id tokens c.tree_tokens;
            })
            (lookup parent.namespace c.roots)
    ]

unfoldable pub fork_branch : String → Option String → TreeKvCache → Result TreeId × TreeKvCache
unfolding fork_from
fork_branch parent_id child_id? c = elim (lookup parent_id c.trees) [
  | none ↦ (raise key_error, c)
  | some parent ↦ fork_from parent_id child_id? c parent (lookup parent_id c.tree_tokens)
]

-- `any(t.namespace == namespace for t in self.trees.values())`
unfoldable pub any_in : String → Dict TreeId → Bool
any_in ns [] = false
any_in ns ((id, t) ∷ d) = if same t.namespace ns then true else any_in ns d

-- `kill` once the tree is found, with its tokens and its namespace's root
unfoldable pub kill_tree :
    String → TreeKvCache → TreeId → Option (List ℕ) → Option Children → Result ℕ × TreeKvCache
unfolding any_in
kill_tree tree_id c tid tokens? none = (raise key_error, c)
kill_tree tree_id c tid none (some kids) = (raise key_error, c)
kill_tree tree_id c tid (some tokens) (some kids) =
    let (kids', freed) = kill_path tree_id tokens kids in
    let trees = erase tree_id c.trees in
    let roots = insert tid.namespace kids' c.roots in
    (
      ok freed,
      record c {
        roots = if any_in tid.namespace trees then roots else erase tid.namespace roots;
        trees = trees;
        tree_tokens = erase tree_id c.tree_tokens;
        stats = record c.stats {
          resident_tokens = c.stats.resident_tokens - freed;
          logical_tokens = c.stats.logical_tokens - length tokens;
        };
      },
    )

unfoldable pub kill : String → TreeKvCache → Result ℕ × TreeKvCache
unfolding kill_tree
kill tree_id c = elim (lookup tree_id c.trees) [
  | none ↦ (ok 0, c)
  | some tid ↦ kill_tree tree_id c tid (lookup tree_id c.tree_tokens) (lookup tid.namespace c.roots)
]
