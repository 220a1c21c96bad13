-- ===== src/Kv/Cache/Create.antt =====
-- `__init__` and `create_tree` of agentfork/kv/tree_cache.py. Killing a root keeps its forks alive,
-- in a namespace that bears the root's name; a new root of that name takes the namespace over.
use agentfork.Base.{
  ℕ, ◌+◌, ◌<◌, String, ◌≡◌, refl, sym, ap, subst, inl, inr, Option, none, some, [], arith, length,
  is_some, same, same→eq, same_refl, Bool-cases,
}
use agentfork.Base.Dict.{lookup, insert, lookup-insert}
use agentfork.Base.Dict.Sum.{sum, sum-insert, sum-insert_new, insert-IsUnique}
use agentfork.Base.Int.{ℤ, pos, negsuc}
use agentfork.Kv.Radix.{Children, nil, total}
use agentfork.Kv.Radix.Holds.{Holds, IsDone, update}
use agentfork.Kv.Cache.{TreeKvCache, TreeId, Result, ok, raise, empty, init, create_tree}
use agentfork.Kv.Cache.Valid.{tokens_in, held_in, IsRooted, IsWithin, IsValid}
use agentfork.Kv.Cache.Change.{
  Change, Change-holds, insert-IsRooted, insert-IsWithin, inserted-IsRooted,
}

nil-IsWithin : (budget : Option ℕ) → IsWithin budget (some nil)
unfolding total
nil-IsWithin none = tt
nil-IsWithin (some b) = omega arith

abbrev pub root_tid : String → TreeId
root_tid id = record { tree_id = id; parent_id = none; child_seq = 0; namespace = id }

abbrev pub after_create : String → TreeKvCache → TreeKvCache
after_create id c = record c {
  trees = insert id (root_tid id) c.trees;
  tree_tokens = insert id [] c.tree_tokens;
  roots = insert id nil c.roots;
}

module _ (id : String) (c : TreeKvCache) (fresh : lookup id c.trees ≡ none) where
  create_run : create_tree id c ≡ (ok (root_tid id), after_create id c)
  unfolding create_tree
  create_run = rw fresh refl

  -- `create_tree` keeps the cache valid where no tree and no namespace has the name.
  pub create_tree-IsValid : IsValid c → lookup id c.roots ≡ none → IsValid (create_tree id c).1
  unfolding total
  create_tree-IsValid v unused =
      let nobody : (j : String) → IsDone (held_in c.trees c.tree_tokens id j) =
        λ j. nobody_in j (lookup j c.trees) (v.rooted j) in
      let holds' : Holds (update id (some []) (held_in c.trees c.tree_tokens id)) nil =
        λ j. elim (Bool-cases (same id j)) [ inl e ↦ rw e tt | inr e ↦ rw e (nobody j) ] in
      rw create_run (record {
        rooted = λ j. elim (Bool-cases (same id j)) [
          | inl e ↦
              rw (← same→eq id j e, lookup-insert id id (root_tid id) c.trees, same_refl id)
                (inserted-IsRooted id (root_tid id) [] nil c.tree_tokens c.roots)
          | inr e ↦
              rw (lookup-insert id j (root_tid id) c.trees, e)
                (insert-IsRooted id j nil c.roots c.tree_tokens (insert id [] c.tree_tokens)
                  (lookup j c.trees) (rw (lookup-insert id j [] c.tree_tokens, e) refl)
                  (v.rooted j))
        ];
        holds =
            Change-holds id id (some []) c.trees (insert id (root_tid id) c.trees) c.tree_tokens
              (insert id [] c.tree_tokens) create-Change c.roots nil v.holds holds';
        within =
            insert-IsWithin id nil c.roots c.per_tree_budget v.within
              (nil-IsWithin c.per_tree_budget);
        named = λ j e. elim (Bool-cases (same id j)) [
          | inl here ↦ absurd (cc (sym e, lookup-insert id j (root_tid id) c.trees, here))
          | inr other ↦
              rw (lookup-insert id j [] c.tree_tokens, other)
                (v.named j (rw (lookup-insert id j (root_tid id) c.trees, other) at e))
        ];
        unique_roots = insert-IsUnique id nil c.roots v.unique_roots;
        unique_tokens = insert-IsUnique id [] c.tree_tokens v.unique_tokens;
        resident = omega (arith, v.resident, sum-insert_new total id nil c.roots unused, total_nil);
        logical =
            omega (arith, v.logical, sum-insert_new length id [] c.tree_tokens (v.named id fresh));
        fits = v.fits;
      })
    where
      nobody_in :
          (j : String) (o : Option TreeId)
          → IsRooted c.tree_tokens c.roots j o
          → IsDone (tokens_in id o (lookup j c.tree_tokens))
      nobody_in j none r = tt
      nobody_in j (some t) r = elim (Bool-cases (same t.namespace id)) [
        | inl e ↦ absurd (
            cc (
              r.1,
              ap (λ (n : String). is_some (lookup n c.roots)) (same→eq t.namespace id e),
              ap is_some unused,
            ))
        | inr e ↦ rw e tt
      ]

      create-Change :
          Change id id
            (some [])
            c.trees
            (insert id (root_tid id) c.trees)
            c.tree_tokens
            (insert id [] c.tree_tokens)
      create-Change = record {
        at =
            rw
              (
                lookup-insert id id (root_tid id) c.trees,
                lookup-insert id id [] c.tree_tokens,
                same_refl id,
                same_refl id,
              )
              refl;
        away = λ ns' other.
            rw (lookup-insert id id (root_tid id) c.trees, same_refl id, other, fresh) refl;
        other_trees = λ j e. rw (lookup-insert id j (root_tid id) c.trees, e) refl;
        other_tokens = λ j e. rw (lookup-insert id j [] c.tree_tokens, e) refl;
      }

      total_nil : total nil ≡ 0
      total_nil = refl

-- Where forks of a killed root still live in its namespace with cached tokens, `create_tree` of
-- the root's name returns, their tokens stay counted as resident but are in no namespace, and the
-- cache is no longer valid.
pub create_tree_over_forks :
    (id : String) (c : TreeKvCache) (kids : Children)
    → IsValid c
    → lookup id c.trees ≡ none
    → lookup id c.roots ≡ some kids
    → 0 < total kids
    → ((create_tree id c).0 ≡ ok (root_tid id))
      × ((create_tree id c).1.stats.resident_tokens
          ≡ sum total (create_tree id c).1.roots + total kids)
      × (¬ IsValid (create_tree id c).1)
unfolding total
create_tree_over_forks id c kids v fresh er positive =
    let run = create_run id c fresh in
    let leaked : c.stats.resident_tokens ≡ sum total (insert id nil c.roots) + total kids =
      omega (arith, v.resident, sum-insert total id nil kids c.roots er, total_nil) in
    (rw run refl, rw run leaked, rw run (λ valid. absurd (omega (arith, valid.resident, leaked))))
  where
    total_nil : total nil ≡ 0
    total_nil = refl

empty-IsValid : (capacity : ℕ) (budget : Option ℕ) → IsValid (empty capacity budget)
unfolding sum lookup
empty-IsValid capacity budget = record {
  rooted = λ j. tt;
  holds = λ ns. tt;
  within = λ ns. empty_within budget;
  named = λ j e. refl;
  unique_roots = tt;
  unique_tokens = tt;
  resident = refl;
  logical = refl;
  fits = omega arith;
}
  where
    empty_within : (b : Option ℕ) → IsWithin b none
    empty_within none = tt
    empty_within (some b) = tt

abbrev cache_of : TreeKvCache → Result TreeKvCache → TreeKvCache
cache_of c (ok d) = d
cache_of c (raise e) = c

-- The cache that the constructor returns is valid.
pub init-IsValid :
    (capacity : ℤ) (budget : Option ℤ) (c : TreeKvCache) → init capacity budget ≡ ok c → IsValid c
unfolding init
init-IsValid (negsuc n) budget c e = cc
init-IsValid (pos n) none c e = subst IsValid (ap (cache_of c) e) (empty-IsValid n none)
init-IsValid (pos n) (some (pos b)) c e =
    subst IsValid (ap (cache_of c) e) (empty-IsValid n (some b))
init-IsValid (pos n) (some (negsuc b)) c e = cc
