-- ===== src/Kv/Cache/Extend.antt =====
-- `extend` of agentfork/kv/tree_cache.py: valid caches stay valid, on the errors too.
use agentfork.Base.{
  ℕ, ◌+◌, ◌-◌, ◌≤◌, String, ◌≡◌, refl, sym, ap, subst, inl, inr, false, Option, none, some, List,
  ◌++◌, arith, ltb, length, if◌then◌else◌, same, same→eq, same_refl, strip-append_self,
  length-append, Bool-cases,
}
use agentfork.Base.Dict.{lookup, insert, lookup-insert}
use agentfork.Base.Dict.Sum.{sum-insert, insert-IsUnique}
use agentfork.Kv.Radix.{Children, hold, add_refs, total}
use agentfork.Kv.Radix.Holds.{Held, Holds, update}
use agentfork.Kv.Radix.Holds.Grow.{Cut, grown, Extends}
use agentfork.Kv.Radix.Holds.Extend.{grow-Holds, hold_tokens}
use agentfork.Kv.Radix.Holds.Total.{total-grown, Cut-le}
use agentfork.Kv.Radix.Holds.Fork.{total-bump}
use agentfork.Kv.Cache.{TreeKvCache, TreeId}
use agentfork.Kv.Cache.Access.{over_budget}
use agentfork.Kv.Cache.Valid.{held_in, HoldsRoot, IsWithin, IsValid}
use agentfork.Kv.Cache.Change.{
  Change, Change-holds, insert-IsRooted, inserted-IsRooted, insert-IsWithin, total-IsWithin,
}

-- A root is replaced by a tree that holds the same, with as many tokens.
module _ (ns : String) (kids kids' : Children) (c : TreeKvCache) (v : IsValid c)
    (er : lookup ns c.roots ≡ some kids) (h : Holds (held_in c.trees c.tree_tokens ns) kids')
    (e : total kids' ≡ total kids) where
  pub retree-IsValid : IsValid (record c { roots = insert ns kids' c.roots })
  retree-IsValid = record {
    rooted = λ j.
        insert-IsRooted ns j kids' c.roots c.tree_tokens c.tree_tokens (lookup j c.trees) refl
          (v.rooted j);
    holds = λ ns'. elim (Bool-cases (same ns ns')) [
      | inl here ↦ rw (lookup-insert ns ns' kids' c.roots, here, ← same→eq ns ns' here) h
      | inr other ↦ rw (lookup-insert ns ns' kids' c.roots, other) (v.holds ns')
    ];
    within = insert-IsWithin ns kids' c.roots c.per_tree_budget v.within (
        total-IsWithin c.per_tree_budget kids kids' e
          (subst (IsWithin c.per_tree_budget) er (v.within ns)));
    named = v.named;
    unique_roots = insert-IsUnique ns kids' c.roots v.unique_roots;
    unique_tokens = v.unique_tokens;
    resident = omega (arith, v.resident, sum-insert total ns kids' kids c.roots er);
    logical = v.logical;
    fits = v.fits;
  }

under_budget :
    (budget : Option ℕ) (tokens : ℕ) (kids : Children)
    → over_budget budget tokens ≡ false
    → total kids ≤ tokens
    → IsWithin budget (some kids)
under_budget none tokens kids e h = tt
under_budget (some b) tokens kids e h = ground arith

-- The cache after an extension that returns, from a tree that is cut at the tokens.
abbrev pub full_of : List ℕ → List ℕ → List ℕ
full_of seq tokens = seq ++ tokens

abbrev pub committed :
    ℕ → String → String → List ℕ → List ℕ → ℕ → TreeKvCache → Children → TreeKvCache
committed now id ns full tokens m c kids = record c {
  roots = insert ns (add_refs id full (grown now id m full kids)) c.roots;
  tree_tokens = insert id full c.tree_tokens;
  stats = record c.stats {
    resident_tokens = c.stats.resident_tokens + (length full - m);
    logical_tokens = c.stats.logical_tokens + length tokens;
    prefill_tokens_charged = c.stats.prefill_tokens_charged + (length full - m);
    prefill_tokens_saved =
        c.stats.prefill_tokens_saved
        + (if ltb (length full - m) (length tokens) then length tokens - (length full - m) else 0);
  };
}

module _ (now : ℕ) (id : String) (tid : TreeId) (seq tokens : List ℕ) (m : ℕ) (kids : Children)
    (c : TreeKvCache) (v : IsValid c) (ei : lookup id c.trees ≡ some tid)
    (et : lookup id c.tree_tokens ≡ some seq) (er : lookup tid.namespace c.roots ≡ some kids)
    (cut : Cut (seq ++ tokens) kids m)
    (budget : over_budget c.per_tree_budget (total kids + (length (seq ++ tokens) - m)) ≡ false)
    (room : c.stats.resident_tokens + (length (seq ++ tokens) - m) ≤ c.capacity) where
  abbrev full : List ℕ
  full = seq ++ tokens

  abbrev ns : String
  ns = tid.namespace

  abbrev held : Held
  held = held_in c.trees c.tree_tokens ns

  abbrev kids' : Children
  kids' = add_refs id full (grown now id m full kids)

  loaded : Holds held kids
  loaded = subst (HoldsRoot held) er (v.holds ns)

  held_id : held id ≡ some seq
  held_id = rw (ei, et, same_refl ns) refl

  grew : Holds (update id (some full) held) kids'
  unfolding add_refs
  grew =
      grow-Holds now id cut held loaded
        (subst (λ o. Extends o full) (sym held_id) (tokens, strip-append_self seq tokens))

  grew_total : total kids' + m ≡ total kids + length full
  unfolding add_refs
  grew_total = omega (
    arith,
    total-bump (hold id) full (grown now id m full kids) (hold_tokens now id),
    total-grown now id cut held loaded,
  )

  extend-Change :
      Change id ns (some full) c.trees c.trees c.tree_tokens (insert id full c.tree_tokens)
  extend-Change = record {
    at = rw (ei, lookup-insert id id full c.tree_tokens, same_refl id, same_refl ns) refl;
    away = λ ns' other. rw (ei, other) refl;
    other_trees = λ j e. refl;
    other_tokens = λ j e. rw (lookup-insert id j full c.tree_tokens, e) refl;
  }

  pub committed-IsValid : IsValid (committed now id ns full tokens m c kids)
  committed-IsValid = record {
    rooted = λ j. elim (Bool-cases (same id j)) [
      | inl e ↦
          rw (← same→eq id j e, ei) (inserted-IsRooted id tid full kids' c.tree_tokens c.roots)
      | inr e ↦
          insert-IsRooted ns j kids' c.roots c.tree_tokens (insert id full c.tree_tokens)
            (lookup j c.trees) (rw (lookup-insert id j full c.tree_tokens, e) refl) (v.rooted j)
    ];
    holds =
        Change-holds id ns (some full) c.trees c.trees c.tree_tokens (insert id full c.tree_tokens)
          extend-Change c.roots kids' v.holds grew;
    within =
        insert-IsWithin ns kids' c.roots c.per_tree_budget v.within
          (under_budget c.per_tree_budget _ kids' budget (omega (arith, grew_total, Cut-le cut)));
    named = λ j e. elim (Bool-cases (same id j)) [
      | inl here ↦ absurd (cc (ei, e, ap (λ (k : String). lookup k c.trees) (same→eq id j here)))
      | inr other ↦ rw (lookup-insert id j full c.tree_tokens, other) (v.named j e)
    ];
    unique_roots = insert-IsUnique ns kids' c.roots v.unique_roots;
    unique_tokens = insert-IsUnique id full c.tree_tokens v.unique_tokens;
    resident =
        omega
          (arith, v.resident, grew_total, Cut-le cut, sum-insert total ns kids' kids c.roots er);
    logical = omega (
      arith,
      v.logical,
      sum-insert length id full seq c.tree_tokens et,
      length-append seq tokens,
    );
    fits = room;
  }
