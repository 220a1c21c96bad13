-- ===== src/Kv/Cache/Tests.antt =====
-- Runs of the cache, as in tests/test_tree_cache.py, and its theorems at concrete caches.
use agentfork.Base.{
  ℕ, ◌+◌, ◌≤◌, String, ◌≡◌, refl, false, none, some, List, [], ◌∷◌, arith, length, same, child_name,
}
use agentfork.Base.Dict.{lookup, insert, erase, contains, mem, add, discard}
use agentfork.Base.Dict.Sum.{sum}
use agentfork.Base.Int.{pos}
use agentfork.Kv.Radix.{
  Children, nil, entry, walk, bump, add_refs, put, attach, release, kill_path, total, leaves, prune,
}
use agentfork.Kv.Cache.{
  TreeKvCache, TreeId, ok, raise, key_error, empty, init, create_tree, fork_branch, kill, any_in,
  inherit, fork_from, kill_tree,
}
use agentfork.Kv.Cache.Access.{
  extend, extend_tree, charge, commit, maybe_evict, evict_leaves, all_leaves, sort_leaves,
  insert_leaf, match_tree_prefix, match_in, match_prefix, walk_all, has_room,
}
use agentfork.Kv.Cache.Valid.{held_in, IsValid}
use agentfork.Kv.Cache.Fork.{fork_branch-IsValid}
use agentfork.Kv.Cache.Kill.{kill-IsValid}
use agentfork.Kv.Cache.Evict.{maybe_evict_lem}
use agentfork.Kv.Cache.Charge.{extend-IsValid}
use agentfork.Kv.Cache.Create.{init-IsValid, create_tree-IsValid, create_tree_over_forks, root_tid}
use agentfork.Kv.Cache.Pays.{
  IsLongest, extend_pays, extend_succeeds, match_tree_prefix-IsLongest, fork_branch_copies_nothing,
  kill_frees,
}
use agentfork.Kv.Cache.Reach.{Reach, here, later, creates, forks, kills, extends, reach_pinned}

program : Unit {0}
unfolding lookup insert erase mem add discard sum walk bump add_refs put attach release kill_path
    total leaves prune init create_tree fork_branch kill any_in inherit fork_from kill_tree extend
    extend_tree charge commit maybe_evict evict_leaves all_leaves sort_leaves insert_leaf
    match_tree_prefix match_in match_prefix walk_all same child_name
program = tt

abbrev start : TreeKvCache
start = empty 100 none

-- `create_tree("p")`, `extend("p", [7, 8, 9])`, `fork_branch("p")` and `extend("p/1", [5])`
abbrev with_p : TreeKvCache
with_p = (create_tree "p" start).1

abbrev shared : TreeKvCache
shared = (extend 1 "p" (7 ∷ 8 ∷ 9 ∷ []) with_p).1

abbrev forked : TreeKvCache
forked = (fork_branch "p" none shared).1

abbrev apart : TreeKvCache
apart = (extend 2 "p/1" (5 ∷ []) forked).1

abbrev p_killed : TreeKvCache
p_killed = (kill "p" apart).1

charges :
    ((extend 1 "p" (7 ∷ 8 ∷ 9 ∷ []) with_p).0 ≡ ok 3)
    × ((extend 2 "p/1" (5 ∷ []) forked).0 ≡ ok 1)
    × (apart.stats.resident_tokens ≡ 4)
    × ((kill "p" apart).0 ≡ ok 0)
    × ((kill "p/1" p_killed).0 ≡ ok 4)
    × ((kill "p/1" p_killed).1.roots ≡ [])
    × ((extend 3 "p/1" (1 ∷ []) with_p).0 ≡ raise key_error)
unfolding program
charges = (refl, refl, refl, refl, refl, refl, refl)

-- A node is split where two branches part.
splits :
    ((extend 3 "q"
        (7 ∷ 8 ∷ 4 ∷ [])
        (fork_branch "p" (some "q") (record shared { tree_tokens = ("p", []) ∷ [] })).1).0
      ≡ ok 1)
unfolding program
splits = refl

start-IsValid : IsValid start
unfolding program
start-IsValid = init-IsValid (pos 100) none start refl

with_p-IsValid : IsValid with_p
unfolding program
with_p-IsValid = create_tree-IsValid "p" start refl start-IsValid refl

shared-IsValid : IsValid shared
shared-IsValid = extend-IsValid 1 "p" (7 ∷ 8 ∷ 9 ∷ []) with_p with_p-IsValid

forked-IsValid : IsValid forked
forked-IsValid = fork_branch-IsValid "p" none shared shared-IsValid

apart-IsValid : IsValid apart
apart-IsValid = extend-IsValid 2 "p/1" (5 ∷ []) forked forked-IsValid

p_killed-IsValid : IsValid p_killed
p_killed-IsValid = kill-IsValid "p" apart apart-IsValid

extend-IsValid_example : IsValid (extend 5 "p/1" (5 ∷ 5 ∷ []) apart).1
extend-IsValid_example = extend-IsValid 5 "p/1" (5 ∷ 5 ∷ []) apart apart-IsValid

kill-IsValid_example : IsValid (kill "p/1" p_killed).1
kill-IsValid_example = kill-IsValid "p/1" p_killed p_killed-IsValid

fork_branch-IsValid_example : IsValid (fork_branch "p/1" (some "leaf") apart).1
fork_branch-IsValid_example = fork_branch-IsValid "p/1" (some "leaf") apart apart-IsValid

abbrev fork_tid : TreeId
fork_tid = record { tree_id = "p/1"; parent_id = some "p"; child_seq = 1; namespace = "p" }

extend_pays_example :
    (n : ℕ) × IsLongest (held_in apart.trees apart.tree_tokens "p") (7 ∷ 8 ∷ 9 ∷ 5 ∷ 6 ∷ []) n
    × (1 + n ≡ 5)
    × (lookup "p/1" (extend 5 "p/1" (6 ∷ []) apart).1.tree_tokens ≡ some (7 ∷ 8 ∷ 9 ∷ 5 ∷ 6 ∷ []))
    × ((extend 5 "p/1" (6 ∷ []) apart).1.stats.resident_tokens ≡ apart.stats.resident_tokens + 1)
unfolding program
extend_pays_example =
    extend_pays 5 "p/1" fork_tid (7 ∷ 8 ∷ 9 ∷ 5 ∷ []) apart apart-IsValid refl refl (6 ∷ []) 1 refl

extend_succeeds_example : (paid : ℕ) × ((extend 5 "p/1" (6 ∷ []) apart).0 ≡ ok paid) × (paid ≤ 1)
unfolding program
extend_succeeds_example =
    extend_succeeds 5 "p/1" fork_tid (7 ∷ 8 ∷ 9 ∷ 5 ∷ []) apart apart-IsValid refl refl (6 ∷ [])
      refl (omega arith)

match_tree_prefix-IsLongest_example :
    (m : ℕ) × ((match_tree_prefix 5 "p/1" (7 ∷ 8 ∷ 1 ∷ []) apart).0 ≡ ok m)
    × IsLongest (held_in apart.trees apart.tree_tokens "p") (7 ∷ 8 ∷ 1 ∷ []) m
    × IsValid (match_tree_prefix 5 "p/1" (7 ∷ 8 ∷ 1 ∷ []) apart).1
unfolding program
match_tree_prefix-IsLongest_example =
    match_tree_prefix-IsLongest 5 "p/1" fork_tid (7 ∷ 8 ∷ 9 ∷ 5 ∷ []) apart apart-IsValid refl refl
      (7 ∷ 8 ∷ 1 ∷ [])

-- A root that is forked and killed, from the constructor on
no_p : lookup "p" (empty 100 none).roots ≡ none
unfolding program
no_p = refl

reaches : Reach (pos 100) none p_killed
unfolding program
reaches =
    later
      (later
        (later
          (later (later (here (empty 100 none) refl) (creates "p" no_p))
            (extends 1 "p" (7 ∷ 8 ∷ 9 ∷ [])))
          (forks "p" none))
        (extends 2 "p/1" (5 ∷ [])))
      (kills "p")

reach_pinned_example :
    ((match_tree_prefix 5 "p/1" (7 ∷ 8 ∷ 9 ∷ 5 ∷ []) p_killed).0 ≡ ok 4)
    × (p_killed.stats.resident_tokens ≡ sum total p_killed.roots)
    × (p_killed.stats.resident_tokens ≤ p_killed.capacity)
unfolding program
reach_pinned_example = reach_pinned 5 "p/1" fork_tid (7 ∷ 8 ∷ 9 ∷ 5 ∷ []) reaches refl refl

fork_branch_copies_nothing_example :
    (tid : TreeId) × (tokens : List ℕ) × ((fork_branch "p" none shared).0 ≡ ok tid)
    × (tid.namespace ≡ "p")
    × (lookup "p" shared.tree_tokens ≡ some tokens)
    × (lookup tid.tree_id (fork_branch "p" none shared).1.tree_tokens ≡ some tokens)
    × ((fork_branch "p" none shared).1.stats.resident_tokens ≡ shared.stats.resident_tokens)
    × ((fork_branch "p" none shared).1.stats.prefill_tokens_saved
        ≡ shared.stats.prefill_tokens_saved + length tokens)
unfolding program
fork_branch_copies_nothing_example =
    fork_branch_copies_nothing "p" none shared (root_tid "p") shared-IsValid refl refl

kill_frees_example :
    (freed : ℕ) × ((kill "p/1" apart).0 ≡ ok freed)
    × ((kill "p/1" apart).1.stats.resident_tokens + freed ≡ apart.stats.resident_tokens)
    × (contains "p/1" (kill "p/1" apart).1.trees ≡ false)
    × ((j : String)
        → same "p/1" j ≡ false
        → (lookup j (kill "p/1" apart).1.trees ≡ lookup j apart.trees)
          × (lookup j (kill "p/1" apart).1.tree_tokens ≡ lookup j apart.tree_tokens))
unfolding program
kill_frees_example = kill_frees "p/1" apart fork_tid apart-IsValid refl

maybe_evict_lem_example : maybe_evict 97 apart ≡ (has_room 97 apart, apart)
maybe_evict_lem_example = maybe_evict_lem 97 apart apart-IsValid

create_tree-IsValid_example : IsValid (create_tree "q" apart).1
unfolding program
create_tree-IsValid_example = create_tree-IsValid "q" apart refl apart-IsValid refl

-- The root `p` is killed while `p/1` lives, and made again.
abbrev p_root : Children
p_root =
    entry 7 (record { tokens = 7 ∷ 8 ∷ 9 ∷ []; ref = pos 1; owners = "p/1" ∷ []; last_access = 2 })
      (entry 5 (record { tokens = 5 ∷ []; ref = pos 1; owners = "p/1" ∷ []; last_access = 2 }) nil
        nil)
      nil

create_tree_over_forks_example :
    ((create_tree "p" p_killed).0 ≡ ok (root_tid "p"))
    × ((create_tree "p" p_killed).1.stats.resident_tokens
        ≡ sum total (create_tree "p" p_killed).1.roots + total p_root)
    × (¬ IsValid (create_tree "p" p_killed).1)
unfolding program
create_tree_over_forks_example =
    create_tree_over_forks "p" p_killed p_root p_killed-IsValid refl refl (omega arith)
