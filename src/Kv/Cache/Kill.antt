-- ===== src/Kv/Cache/Kill.antt =====
-- `kill` of agentfork/kv/tree_cache.py: valid caches stay valid, and what is freed is what is gone.
use agentfork.Base.{
  ℕ, ◌+◌, ◌-◌, String, ◌≡◌, refl, subst, inl, inr, true, false, Option, none, some, List, [], ◌∷◌,
  arith, length, if◌then◌else◌, same, same_refl, same_sym, Option-cases, Bool-cases,
}
use agentfork.Base.Dict.{Dict, lookup, insert, erase, lookup-insert, lookup-erase}
use agentfork.Base.Dict.Sum.{sum, sum-insert, sum-erase, insert-IsUnique, erase-IsUnique}
use agentfork.Kv.Radix.{Children, nil, kill_path, total}
use agentfork.Kv.Radix.Holds.{Held, Holds, Holds_done, update}
use agentfork.Kv.Radix.Holds.Kill.{kill-Holds, total-kill}
use agentfork.Kv.Cache.{TreeKvCache, TreeId, ok, any_in, kill}
use agentfork.Kv.Cache.Valid.{held_in, IsRooted, HoldsRoot, IsWithin, IsValid}
use agentfork.Kv.Cache.Change.{
  Change, Change-holds, Change-erase, insert-IsRooted, insert-IsWithin, root_of,
}

-- No tree that is found lives in the namespace.
any_in_none :
    (ns id : String) (t : TreeId) (trees : Dict TreeId)
    → any_in ns trees ≡ false
    → lookup id trees ≡ some t
    → same t.namespace ns ≡ false
unfolding any_in lookup
any_in_none ns id t [] h e = cc
any_in_none ns id t ((j, u) ∷ d) h e = ground (arith, any_in_none ns id t d)

-- Killing lowers the tokens of a namespace, so it keeps to the budget.
less-IsWithin :
    (budget : Option ℕ) (kids kids' : Children) (freed : ℕ)
    → total kids' + freed ≡ total kids
    → IsWithin budget (some kids)
    → IsWithin budget (some kids')
less-IsWithin none kids kids' freed e w = tt
less-IsWithin (some b) kids kids' freed e w = omega arith

erase-IsWithin :
    (ns ns' : String) (roots : Dict Children) (budget : Option ℕ)
    → IsWithin budget (lookup ns' roots)
    → IsWithin budget (lookup ns' (erase ns roots))
erase-IsWithin ns ns' roots none w = tt
erase-IsWithin ns ns' roots (some b) w = elim (Bool-cases (same ns ns')) [
  | inl e ↦ rw (lookup-erase ns ns' roots, e) tt
  | inr e ↦ rw (lookup-erase ns ns' roots, e) w
]

empty_total : (kids : Children) → kids ≡ nil → total kids ≡ 0
unfolding total
empty_total kids e = rw e

-- The cache after a kill.
abbrev pub after_kill : String → TreeId → List ℕ → Children → TreeKvCache → TreeKvCache
after_kill id tid tokens kids c = record c {
  roots =
      if any_in tid.namespace (erase id c.trees)
      then insert tid.namespace (kill_path id tokens kids).0 c.roots
      else erase tid.namespace (insert tid.namespace (kill_path id tokens kids).0 c.roots);
  trees = erase id c.trees;
  tree_tokens = erase id c.tree_tokens;
  stats = record c.stats {
    resident_tokens = c.stats.resident_tokens - (kill_path id tokens kids).1;
    logical_tokens = c.stats.logical_tokens - length tokens;
  };
}

module _ (id : String) (tid : TreeId) (tokens : List ℕ) (kids : Children) (c : TreeKvCache)
    (v : IsValid c) (ei : lookup id c.trees ≡ some tid) (et : lookup id c.tree_tokens ≡ some tokens)
    (er : lookup tid.namespace c.roots ≡ some kids) where
  abbrev ns : String
  ns = tid.namespace

  abbrev kids' : Children
  kids' = (kill_path id tokens kids).0

  abbrev roots' : Dict Children
  roots' = insert ns kids' c.roots

  abbrev held : Held
  held = held_in c.trees c.tree_tokens ns

  kill-Change : Change id ns none c.trees (erase id c.trees) c.tree_tokens (erase id c.tree_tokens)
  kill-Change = record {
    at = rw (lookup-erase id id c.trees, same_refl id) refl;
    away = λ ns' other. rw (lookup-erase id id c.trees, same_refl id, ei, other) refl;
    other_trees = λ j e. rw (lookup-erase id j c.trees, e) refl;
    other_tokens = λ j e. rw (lookup-erase id j c.tree_tokens, e) refl;
  }

  killed : Holds (update id none held) kids'
  killed =
      kill-Holds id tokens kids held (subst (HoldsRoot held) er (v.holds ns))
        (rw (ei, et, same_refl ns) refl)

  freed_total : total kids' + (kill_path id tokens kids).1 ≡ total kids
  freed_total = total-kill id tokens kids

  sum_roots' : sum total roots' + (kill_path id tokens kids).1 ≡ sum total c.roots
  sum_roots' = omega (arith, freed_total, sum-insert total ns kids' kids c.roots er)

  -- the namespace of the last tree is empty
  last : any_in ns (erase id c.trees) ≡ false → kids' ≡ nil
  last none_left =
      Holds_done (update id none held) kids'
        (λ j. elim (Bool-cases (same id j)) [
          | inl e ↦ rw e tt
          | inr e ↦ rw e (elim (Option-cases (lookup j c.trees)) [
            | inl unknown ↦ rw unknown tt
            | inr (t, et') ↦
                rw
                  (
                    et',
                    any_in_none ns j t (erase id c.trees) none_left
                        (rw (lookup-erase id j c.trees, e) et'),
                  )
                  tt
          ])
        ])
        killed

  rooted' : (j : String) → IsRooted (erase id c.tree_tokens) roots' j (lookup j (erase id c.trees))
  rooted' j = elim (Bool-cases (same id j)) [
    | inl e ↦ rw (lookup-erase id j c.trees, e) tt
    | inr e ↦
        rw (lookup-erase id j c.trees, e)
          (insert-IsRooted ns j kids' c.roots c.tree_tokens (erase id c.tree_tokens)
            (lookup j c.trees) (rw (lookup-erase id j c.tree_tokens, e) refl) (v.rooted j))
  ]

  IsRooted-last :
      any_in ns (erase id c.trees) ≡ false
      → (j : String) (o : Option TreeId) → lookup j (erase id c.trees) ≡ o
      → IsRooted (erase id c.tree_tokens) roots' j o
      → IsRooted (erase id c.tree_tokens) (erase ns roots') j o
  IsRooted-last none_left j none e r = tt
  IsRooted-last none_left j (some t) e r = (
    r.0,
    rw
        (
          lookup-erase ns t.namespace roots',
          same_sym t.namespace ns (any_in_none ns j t (erase id c.trees) none_left e),
        )
        r.1,
  )

  named' :
      (j : String) → lookup j (erase id c.trees) ≡ none → lookup j (erase id c.tree_tokens) ≡ none
  named' j e = elim (Bool-cases (same id j)) [
    | inl here ↦ rw (lookup-erase id j c.tree_tokens, here) refl
    | inr other ↦
        rw (lookup-erase id j c.tree_tokens, other)
          (v.named j (rw (lookup-erase id j c.trees, other) at e))
  ]

  within' : (ns' : String) → IsWithin c.per_tree_budget (lookup ns' roots')
  within' = insert-IsWithin ns kids' c.roots c.per_tree_budget v.within (
      less-IsWithin c.per_tree_budget kids kids' (kill_path id tokens kids).1 freed_total
        (subst (IsWithin c.per_tree_budget) er (v.within ns)))

  logical' : c.stats.logical_tokens - length tokens ≡ sum length (erase id c.tree_tokens)
  logical' = omega (arith, v.logical, sum-erase length id tokens c.tree_tokens v.unique_tokens et)

  -- with a tree left in the namespace
  IsValid-some :
      any_in ns (erase id c.trees) ≡ true
      → IsValid (record (after_kill id tid tokens kids c) { roots = roots' })
  IsValid-some left = record {
    rooted = rooted';
    holds =
        Change-holds id ns none c.trees (erase id c.trees) c.tree_tokens (erase id c.tree_tokens)
          kill-Change c.roots kids' v.holds killed;
    within = within';
    named = named';
    unique_roots = insert-IsUnique ns kids' c.roots v.unique_roots;
    unique_tokens = erase-IsUnique id c.tree_tokens v.unique_tokens;
    resident = omega (arith, v.resident, sum_roots');
    logical = logical';
    fits = omega (arith, v.fits);
  }

  -- with none left
  IsValid-none :
      any_in ns (erase id c.trees) ≡ false
      → IsValid (record (after_kill id tid tokens kids c) { roots = erase ns roots' })
  IsValid-none none_left =
      let there : lookup ns roots' ≡ some kids' =
        rw (lookup-insert ns ns kids' c.roots, same_refl ns) refl in
      let unique = insert-IsUnique ns kids' c.roots v.unique_roots in
      record {
        rooted = λ j. IsRooted-last none_left j (lookup j (erase id c.trees)) refl (rooted' j);
        holds =
            Change-erase id ns none c.trees (erase id c.trees) c.tree_tokens
              (erase id c.tree_tokens) kill-Change c.roots kids' v.holds;
        within = λ ns'. erase-IsWithin ns ns' roots' c.per_tree_budget (within' ns');
        named = named';
        unique_roots = erase-IsUnique ns roots' unique;
        unique_tokens = erase-IsUnique id c.tree_tokens v.unique_tokens;
        resident = omega (
          arith,
          v.resident,
          sum_roots',
          sum-erase total ns kids' roots' unique there,
          empty_total kids' (last none_left),
        );
        logical = logical';
        fits = omega (arith, v.fits);
      }

  pub after_kill-IsValid : IsValid (after_kill id tid tokens kids c)
  after_kill-IsValid = elim (Bool-cases (any_in ns (erase id c.trees))) [
    | inl left ↦ rw left (IsValid-some left)
    | inr none_left ↦ rw none_left (IsValid-none none_left)
  ]

  pub kill_run : kill id c ≡ (ok (kill_path id tokens kids).1, after_kill id tid tokens kids c)
  unfolding kill
  kill_run = rw (ei, kill) (rw (et, er) refl)

  -- What `kill` reports as freed is what the resident tokens lose.
  pub kill_freed :
      (kill id c).1.stats.resident_tokens + (kill_path id tokens kids).1 ≡ c.stats.resident_tokens
  kill_freed = rw kill_run (omega (arith, v.resident, sum_roots'))

-- `kill` of any tree keeps the cache valid.
pub kill-IsValid : (id : String) (c : TreeKvCache) → IsValid c → IsValid (kill id c).1
unfolding kill
kill-IsValid id c v = elim (Option-cases (lookup id c.trees)) [
  | inl unknown ↦ rw (unknown, kill) v
  | inr (tid, ei) ↦
      let (tokens, kids, et, er) =
        root_of c.tree_tokens c.roots id (lookup id c.trees) tid (v.rooted id) ei in
      rw (kill_run id tid tokens kids c v ei et er)
        (after_kill-IsValid id tid tokens kids c v ei et er)
]
