-- ===== src/Kv/Radix.antt =====
-- The radix tree of agentfork/kv/tree_cache.py: the nodes below one namespace's root, and the
-- loops that walk them. A node's children are a `dict`, kept here as a chain of entries in
-- insertion order, so that a mutation of a node rebuilds the path above it. `time.monotonic()` is
-- read once for each operation, as `now`, where the source reads it at each node: the leaves that
-- `match_prefix` stamps in several namespaces at once have equal stamps here.
pub mod Holds
use agentfork.Base.{
  ℕ, zero, suc, ◌+◌, ◌-◌, String, Bool, true, false, ◌&&◌, none, some, List, [], ◌∷◌, ◌++◌, ◌==◌,
  length, take, drop, strip, common, first, if◌then◌else◌,
}
use agentfork.Base.Dict.{mem, add, discard}
use agentfork.Base.Int.{ℤ, pos, inc, dec, is_nonpos}

-- `_Node`, without its links
pub record Node : Type 0 where
  pub tokens : List ℕ
  pub ref : ℤ
  pub owners : List String
  pub last_access : ℕ

-- `node.children`: the key, the node, its own children, and the later entries.
pub data Children : Type 0 where
  nil : Children
  entry : ℕ → Node → Children → Children → Children

-- `not n.children`
abbrev pub is_leaf : Children → Bool
is_leaf nil = true
is_leaf (entry k n sub rest) = false

abbrev pub touch : ℕ → Node → Node
touch now n = record n { last_access = now }

-- `_split`: the head takes the node's place and the tail hangs under it.
abbrev pub head_of : ℕ → ℕ → Node → Node
head_of now at n = record n { tokens = take at n.tokens; last_access = now }

abbrev pub tail_of : ℕ → Node → Node
tail_of at n = record n { tokens = drop at n.tokens }

abbrev pub split : ℕ → ℕ → ℕ → Node → Children → Children → Children
split now at k n sub rest =
    entry k (head_of now at n) (entry (first (drop at n.tokens)) (tail_of at n) sub nil) rest

-- `_walk`: the tree with its nodes stamped and a node that matches in part split, and the number of
-- tokens matched. After a split the loop's next rounds match the head and miss the tail's key.
unfoldable pub walk : ℕ → List ℕ → Children → Children × ℕ
walk now [] kids = (kids, 0)
walk now (t ∷ ts) nil = (nil, 0)
walk now (t ∷ ts) (entry k n sub rest) = elim (k == t) [
  | true ↦ elim (strip n.tokens (t ∷ ts)) [
    | some left ↦
        let (sub', m) = walk now left sub in (entry k (touch now n) sub' rest, length n.tokens + m)
    | none ↦
        let at = common n.tokens (t ∷ ts) in
        if at == 0 then (entry k n sub rest, 0) else (split now at k n sub rest, at)
  ]
  | false ↦ let (rest', m) = walk now (t ∷ ts) rest in (entry k n sub rest', m)
]

-- The loop of `fork_branch` and `_add_refs` down the nodes that match whole, with what it does to
-- each of them.
unfoldable pub bump : (Node → Node) → List ℕ → Children → Children × ℕ
bump f [] kids = (kids, 0)
bump f (t ∷ ts) nil = (nil, 0)
bump f (t ∷ ts) (entry k n sub rest) = elim (k == t) [
  | true ↦ elim (strip n.tokens (t ∷ ts)) [
    | some left ↦ let (sub', m) = bump f left sub in (entry k (f n) sub' rest, length n.tokens + m)
    | none ↦ (entry k n sub rest, 0)
  ]
  | false ↦ let (rest', m) = bump f (t ∷ ts) rest in (entry k n sub rest', m)
]

-- the body of the loop of `fork_branch`
abbrev pub share : String → Node → Node
share child_id n = record n { ref = inc n.ref; owners = add child_id n.owners }

-- the body of the loop of `_add_refs`
abbrev pub hold : String → Node → Node
hold tree_id n = if mem tree_id n.owners then n else share tree_id n

unfoldable pub add_refs : String → List ℕ → Children → Children
unfolding bump
add_refs tree_id tokens kids = (bump (hold tree_id) tokens kids).0

-- `node.children[key] = new`, where `new` has no children
unfoldable pub put : ℕ → Node → Children → Children
put key new nil = entry key new nil nil
put key new (entry k n sub rest) =
    if k == key then entry k new nil rest else entry k n sub (put key new rest)

abbrev pub new_node : ℕ → String → List ℕ → Node
new_node now tree_id tokens = record {
  tokens = tokens;
  ref = pos 1;
  owners = tree_id ∷ [];
  last_access = now;
}

-- The new node of `extend`, hung under the node that `_walk` returned, `depth` tokens down. If
-- that node is no longer in the tree, neither is the new one.
unfoldable pub attach : ℕ → String → ℕ → List ℕ → Children → Children
unfolding put
attach now tree_id zero tokens kids = put (first tokens) (new_node now tree_id tokens) kids
attach now tree_id (suc depth) [] kids = kids
attach now tree_id (suc depth) (t ∷ ts) nil = nil
attach now tree_id (suc depth) (t ∷ ts) (entry k n sub rest) = elim (k == t) [
  | true ↦ elim (strip n.tokens (t ∷ ts)) [
    | some left ↦ entry k n (attach now tree_id (suc depth - length n.tokens) left sub) rest
    | none ↦ entry k n sub rest
  ]
  | false ↦ entry k n sub (attach now tree_id (suc depth) (t ∷ ts) rest)
]

-- The body of the last loop of `kill`: drop the reference, and the node if nothing is left of it.
unfoldable pub release : String → ℕ → Node → Children × ℕ → Children → Children × ℕ
release tree_id k n (sub, freed) rest =
    let n' : Node = record n { owners = discard tree_id n.owners; ref = dec n.ref } in
    if is_nonpos n'.ref && is_leaf sub
    then (rest, freed + length n.tokens)
    else (entry k n' sub rest, freed)

-- Both loops of `kill`: down the path, then back from its end. The second part is what was freed.
unfoldable pub kill_path : String → List ℕ → Children → Children × ℕ
unfolding release
kill_path tree_id [] kids = (kids, 0)
kill_path tree_id (t ∷ ts) nil = (nil, 0)
kill_path tree_id (t ∷ ts) (entry k n sub rest) = elim (k == t) [
  | true ↦ elim (strip n.tokens (t ∷ ts)) [
    | some left ↦ release tree_id k n (kill_path tree_id left sub) rest
    | none ↦ (entry k n sub rest, 0)
  ]
  | false ↦ let (rest', freed) = kill_path tree_id (t ∷ ts) rest in (entry k n sub rest', freed)
]

-- `_namespace_tokens`: the tokens of all nodes below the root
unfoldable pub total : Children → ℕ
total nil = 0
total (entry k n sub rest) = length n.tokens + total sub + total rest

-- A node that may be evicted: the way to it, the tokens on it, and when it was last used.
pub record Leaf : Type 0 where
  pub namespace : String
  pub path : List ℕ
  pub size : ℕ
  pub last_access : ℕ

-- `not n.children and n.ref <= 0`
abbrev pub evictable : Node → Children → Bool
evictable n sub = is_leaf sub && is_nonpos n.ref

-- `_all_nodes` with the filter of `_maybe_evict`: the stack pops the latest sibling first.
unfoldable pub leaves : String → List ℕ → Children → List Leaf
leaves ns path nil = []
leaves ns path (entry k n sub rest) =
    let below = leaves ns (path ++ n.tokens) sub in
    let here : Leaf = record {
      namespace = ns;
      path = path ++ n.tokens;
      size = length n.tokens;
      last_access = n.last_access;
    } in
    leaves ns path rest ++ (if evictable n sub then here ∷ below else below)

-- `del leaf.parent.children[leaf.tokens[0]]`
unfoldable pub prune : List ℕ → Children → Children
prune [] kids = kids
prune (t ∷ ts) nil = nil
prune (t ∷ ts) (entry k n sub rest) = elim (k == t) [
  | true ↦ elim (strip n.tokens (t ∷ ts)) [
    | some [] ↦ rest
    | some left ↦ entry k n (prune left sub) rest
    | none ↦ entry k n sub rest
  ]
  | false ↦ entry k n sub (prune (t ∷ ts) rest)
]
