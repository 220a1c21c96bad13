-- ===== src/Kv/Cache/Valid.antt =====
-- The invariant of `TreeKVCache` (agentfork/kv/tree_cache.py), against which its methods are proved.
use agentfork.Base.{
  ℕ, ◌≤◌, String, ◌≡◌, true, Option, none, some, List, length, is_some, if◌then◌else◌, same,
}
use agentfork.Base.Dict.{Dict, lookup}
use agentfork.Base.Dict.Sum.{IsUnique, sum}
use agentfork.Kv.Radix.{Children, total}
use agentfork.Kv.Radix.Holds.{Held, Holds}
use agentfork.Kv.Cache.{TreeKvCache, TreeId}

-- The tokens of a tree, if it lives in the namespace.
abbrev pub tokens_in : String → Option TreeId → Option (List ℕ) → Option (List ℕ)
tokens_in ns none tokens = none
tokens_in ns (some t) tokens = if same t.namespace ns then tokens else none

-- What the radix tree of a namespace has to hold.
abbrev pub held_in : Dict TreeId → Dict (List ℕ) → String → Held
held_in trees tree_tokens ns id = tokens_in ns (lookup id trees) (lookup id tree_tokens)

-- Every tree has its tokens and a root.
abbrev pub IsRooted : Dict (List ℕ) → Dict Children → String → Option TreeId → Type 0
IsRooted tree_tokens roots id none = Unit
IsRooted tree_tokens roots id (some t) =
    (is_some (lookup id tree_tokens) ≡ true) × (is_some (lookup t.namespace roots) ≡ true)

abbrev pub HoldsRoot : Held → Option Children → Type 0
HoldsRoot held none = Unit
HoldsRoot held (some kids) = Holds held kids

abbrev pub IsWithin : Option ℕ → Option Children → Type 0
IsWithin none root = Unit
IsWithin (some budget) none = Unit
IsWithin (some budget) (some kids) = total kids ≤ budget

-- Each namespace holds the tokens of its live trees and no others, within the budget; the counters
-- are the sums that they stand for, and the resident tokens fit.
pub record IsValid (c : TreeKvCache) : Type 0 where
  pub rooted : (id : String) → IsRooted c.tree_tokens c.roots id (lookup id c.trees)
  pub holds : (ns : String) → HoldsRoot (held_in c.trees c.tree_tokens ns) (lookup ns c.roots)
  pub within : (ns : String) → IsWithin c.per_tree_budget (lookup ns c.roots)
  pub named : (id : String) → lookup id c.trees ≡ none → lookup id c.tree_tokens ≡ none
  pub unique_roots : IsUnique c.roots
  pub unique_tokens : IsUnique c.tree_tokens
  pub resident : c.stats.resident_tokens ≡ sum total c.roots
  pub logical : c.stats.logical_tokens ≡ sum length c.tree_tokens
  pub fits : c.stats.resident_tokens ≤ c.capacity
