-- ===== src/Kv/Cache/Access.antt =====
-- The other methods of `TreeKVCache` (agentfork/kv/tree_cache.py): `extend` with its eviction, and
-- the lookups.
use agentfork.Base.{
  ℕ, ◌+◌, ◌-◌, String, Bool, true, false, Option, none, some, List, [], ◌∷◌, ◌++◌, ltb, leb, length,
  if◌then◌else◌,
}
use agentfork.Base.Dict.{Dict, lookup, insert, contains}
use agentfork.Kv.Radix.{Children, walk, add_refs, attach, total, Leaf, leaves, prune}
use agentfork.Kv.Cache.{TreeKvCache, TreeId, Result, ok, raise, key_error, memory_error}
use Prim.Native.Nat.{max}

-- The evictable leaves of all namespaces: the stack pops the latest namespace first.
unfoldable pub all_leaves : Dict Children → List Leaf
all_leaves [] = []
all_leaves ((ns, kids) ∷ d) = all_leaves d ++ leaves ns [] kids

-- `leaves.sort(key=lambda n: n.last_access)`, which is stable
unfoldable pub insert_leaf : Leaf → List Leaf → List Leaf
insert_leaf l [] = l ∷ []
insert_leaf l (m ∷ ls) =
    if leb l.last_access m.last_access then l ∷ m ∷ ls else m ∷ insert_leaf l ls

unfoldable pub sort_leaves : List Leaf → List Leaf
unfolding insert_leaf
sort_leaves [] = []
sort_leaves (l ∷ ls) = insert_leaf l (sort_leaves ls)

-- `self.stats.resident_tokens + need <= self.capacity`
abbrev pub has_room : ℕ → TreeKvCache → Bool
has_room need c = leb (c.stats.resident_tokens + need) c.capacity

abbrev pub prune_in : Leaf → Dict Children → Dict Children
prune_in l roots = elim (lookup l.namespace roots) [
  | none ↦ roots
  | some kids ↦ insert l.namespace (prune l.path kids) roots
]

abbrev pub drop_leaf : Leaf → TreeKvCache → TreeKvCache
drop_leaf l c = record c {
  roots = prune_in l c.roots;
  stats = record c.stats {
    resident_tokens = c.stats.resident_tokens - l.size;
    evicted_tokens = c.stats.evicted_tokens + l.size;
  };
}

-- The loop of `_maybe_evict`, and its last test; `false` stands for the `MemoryError`.
unfoldable pub evict_leaves : ℕ → List Leaf → TreeKvCache → Bool × TreeKvCache
evict_leaves need [] c = (has_room need c, c)
evict_leaves need (l ∷ ls) c =
    let rest = evict_leaves need ls (drop_leaf l c) in if has_room need c then (true, c) else rest

unfoldable pub maybe_evict : ℕ → TreeKvCache → Bool × TreeKvCache
unfolding evict_leaves
maybe_evict need c =
    if has_room need c then (true, c) else evict_leaves need (sort_leaves (all_leaves c.roots)) c

-- `self.per_tree_budget is not None and self._namespace_tokens(namespace) + charged > budget`
abbrev pub over_budget : Option ℕ → ℕ → Bool
over_budget none tokens = false
over_budget (some budget) tokens = ltb budget tokens

-- What `extend` does once there is room: the new node, the references and the counters.
unfoldable pub commit :
    ℕ
    → String
    → String
    → List ℕ
    → List ℕ
    → ℕ
    → TreeKvCache
    → Option Children
    → Result ℕ × TreeKvCache
commit now tree_id ns full tokens matched c none = (raise key_error, c)
commit now tree_id ns full tokens matched c (some kids) =
    let charged = length full - matched in
    let grown = if ltb matched (length full) then attach now tree_id matched full kids else kids in
    (
      ok charged,
      record c {
        roots = insert ns (add_refs tree_id full grown) c.roots;
        tree_tokens = insert tree_id full c.tree_tokens;
        stats = record c.stats {
          resident_tokens = c.stats.resident_tokens + charged;
          logical_tokens = c.stats.logical_tokens + length tokens;
          prefill_tokens_charged = c.stats.prefill_tokens_charged + charged;
          prefill_tokens_saved =
              c.stats.prefill_tokens_saved
              + (if ltb charged (length tokens) then length tokens - charged else 0);
        };
      },
    )

-- Eviction where there is something to insert
abbrev pub make_room : ℕ → TreeKvCache → Bool × TreeKvCache
make_room charged c = if ltb 0 charged then maybe_evict charged c else (true, c)

-- `extend` after `_walk`
unfoldable pub charge :
    ℕ → String → String → List ℕ → List ℕ → Children × ℕ → TreeKvCache → Result ℕ × TreeKvCache
unfolding commit
charge now tree_id ns full tokens (kids, matched) c =
    let walked : TreeKvCache = record c { roots = insert ns kids c.roots } in
    let charged = length full - matched in
    if over_budget c.per_tree_budget (total kids + charged)
    then (raise memory_error, walked)
    else elim (make_room charged walked).0 [
      | false ↦ (raise memory_error, (make_room charged walked).1)
      | true ↦
          let evicted = (make_room charged walked).1 in
          commit now tree_id ns full tokens matched evicted (lookup ns evicted.roots)
    ]

-- `extend` once the tree is found, with its tokens and its namespace's root
unfoldable pub extend_tree :
    ℕ
    → String
    → List ℕ
    → TreeKvCache
    → TreeId
    → Option (List ℕ)
    → Option Children
    → Result ℕ × TreeKvCache
unfolding charge
extend_tree now tree_id tokens c tid none root = (raise key_error, c)
extend_tree now tree_id tokens c tid (some seq) none = (raise key_error, c)
extend_tree now tree_id tokens c tid (some seq) (some kids) =
    charge now tree_id tid.namespace (seq ++ tokens) tokens (walk now (seq ++ tokens) kids) c

unfoldable pub extend : ℕ → String → List ℕ → TreeKvCache → Result ℕ × TreeKvCache
unfolding extend_tree
extend now tree_id tokens c = elim (lookup tree_id c.trees) [
  | none ↦ (raise key_error, c)
  | some tid ↦
      extend_tree now tree_id tokens c tid (lookup tree_id c.tree_tokens)
        (lookup tid.namespace c.roots)
]

-- The generator of `match_prefix`, which walks every namespace, and its `max`.
unfoldable pub walk_all : ℕ → List ℕ → Dict Children → Dict Children × ℕ
walk_all now tokens [] = ([], 0)
walk_all now tokens ((ns, kids) ∷ d) =
    let (kids', matched) = walk now tokens kids in
    let (d', best) = walk_all now tokens d in ((ns, kids') ∷ d', max matched best)

unfoldable pub match_prefix : ℕ → List ℕ → TreeKvCache → ℕ × TreeKvCache
unfolding walk_all
match_prefix now tokens c =
    let (roots, best) = walk_all now tokens c.roots in (best, record c { roots = roots })

-- `match_tree_prefix` once the tree is found, with its namespace's root
unfoldable pub match_in :
    ℕ → List ℕ → TreeKvCache → String → Option Children → Result ℕ × TreeKvCache
match_in now tokens c ns none = (raise key_error, c)
match_in now tokens c ns (some kids) =
    let (kids', matched) = walk now tokens kids in
    (ok matched, record c { roots = insert ns kids' c.roots })

unfoldable pub match_tree_prefix : ℕ → String → List ℕ → TreeKvCache → Result ℕ × TreeKvCache
unfolding match_in
match_tree_prefix now tree_id tokens c = elim (lookup tree_id c.trees) [
  | none ↦ (raise key_error, c)
  | some tid ↦ match_in now tokens c tid.namespace (lookup tid.namespace c.roots)
]

-- `resident_tokens` and `has_tree`
unfoldable pub resident_tokens : TreeKvCache → ℕ
resident_tokens c = c.stats.resident_tokens

unfoldable pub has_tree : String → TreeKvCache → Bool
has_tree tree_id c = contains tree_id c.trees
