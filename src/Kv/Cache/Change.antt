-- ===== src/Kv/Cache/Change.antt =====
-- What a method that gives one tree's tokens anew has to show, to keep the cache valid
-- (agentfork/kv/tree_cache.py).
use agentfork.Base.{
  ℕ, String, ◌≡◌, refl, ◌∙◌, ap, subst, fun_ext, inl, inr, false, Option, none, some, List, arith,
  is_some, same, same→eq, same_refl, Option-cases, Bool-cases,
}
use agentfork.Base.Dict.{Dict, lookup, insert, erase, lookup-insert, lookup-erase}
use agentfork.Kv.Radix.{Children, total}
use agentfork.Kv.Radix.Holds.{Holds, update}
use agentfork.Kv.Cache.{TreeId}
use agentfork.Kv.Cache.Valid.{held_in, IsRooted, HoldsRoot, IsWithin}

-- The dictionaries differ at `id` alone, which lives in `ns` or nowhere, before and after.
pub record Change (id ns : String) (v : Option (List ℕ)) (trees trees' : Dict TreeId)
    (tokens tokens' : Dict (List ℕ)) : Type 0 where
  pub at : held_in trees' tokens' ns id ≡ v
  pub away :
      (ns' : String)
      → same ns ns' ≡ false
      → held_in trees' tokens' ns' id ≡ held_in trees tokens ns' id
  pub other_trees : (j : String) → same id j ≡ false → lookup j trees' ≡ lookup j trees
  pub other_tokens : (j : String) → same id j ≡ false → lookup j tokens' ≡ lookup j tokens

module _ (id ns : String) (v : Option (List ℕ)) (trees trees' : Dict TreeId)
    (tokens tokens' : Dict (List ℕ)) (ch : Change id ns v trees trees' tokens tokens') where
  held_at : held_in trees' tokens' ns ≡ update id v (held_in trees tokens ns)
  held_at = fun_ext λ j. elim (Bool-cases (same id j)) [
    | inl e ↦ rw (e, ← same→eq id j e) ch.at
    | inr e ↦ rw (e, ch.other_trees j e, ch.other_tokens j e)
  ]

  held_away :
      (ns' : String) → same ns ns' ≡ false → held_in trees' tokens' ns' ≡ held_in trees tokens ns'
  held_away ns' other = fun_ext λ j. elim (Bool-cases (same id j)) [
    | inl e ↦ rw (← same→eq id j e) (ch.away ns' other)
    | inr e ↦ rw (ch.other_trees j e, ch.other_tokens j e)
  ]

  -- The namespaces hold what they have to, once the one of `id` does.
  pub Change-holds :
      (roots : Dict Children) (kids : Children)
      → ((ns' : String) → HoldsRoot (held_in trees tokens ns') (lookup ns' roots))
      → Holds (update id v (held_in trees tokens ns)) kids
      → (ns' : String) → HoldsRoot (held_in trees' tokens' ns') (lookup ns' (insert ns kids roots))
  Change-holds roots kids old new ns' = elim (Bool-cases (same ns ns')) [
    | inl e ↦ rw (lookup-insert ns ns' kids roots, e, ← same→eq ns ns' e, held_at) new
    | inr e ↦ rw (lookup-insert ns ns' kids roots, e, held_away ns' e) (old ns')
  ]

  -- The same where the namespace goes.
  pub Change-erase :
      (roots : Dict Children) (kids : Children)
      → ((ns' : String) → HoldsRoot (held_in trees tokens ns') (lookup ns' roots))
      → (ns' : String)
      → HoldsRoot (held_in trees' tokens' ns') (lookup ns' (erase ns (insert ns kids roots)))
  Change-erase roots kids old ns' = elim (Bool-cases (same ns ns')) [
    | inl e ↦ rw (lookup-erase ns ns' (insert ns kids roots), e) tt
    | inr e ↦
        rw
          (
            lookup-erase ns ns' (insert ns kids roots),
            e,
            lookup-insert ns ns' kids roots,
            e,
            held_away ns' e,
          )
          (old ns')
  ]

-- A root that is given anew is there, and so are the others.
pub insert-IsRooted :
    (ns id : String) (kids : Children) (roots : Dict Children) (tokens tokens' : Dict (List ℕ))
    (o : Option TreeId)
    → lookup id tokens' ≡ lookup id tokens
    → IsRooted tokens roots id o
    → IsRooted tokens' (insert ns kids roots) id o
insert-IsRooted ns id kids roots tokens tokens' none e r = r
insert-IsRooted ns id kids roots tokens tokens' (some t) e r = (
  ap is_some e ∙ r.0,
  elim (Bool-cases (same ns t.namespace)) [
    | inl here ↦ rw (lookup-insert ns t.namespace kids roots, here) refl
    | inr other ↦ rw (lookup-insert ns t.namespace kids roots, other) r.1
  ],
)

-- A namespace keeps to the budget if the new tree does.
pub insert-IsWithin :
    (ns : String) (kids : Children) (roots : Dict Children) (budget : Option ℕ)
    → ((ns' : String) → IsWithin budget (lookup ns' roots))
    → IsWithin budget (some kids)
    → (ns' : String) → IsWithin budget (lookup ns' (insert ns kids roots))
insert-IsWithin ns kids roots budget old new ns' = elim (Bool-cases (same ns ns')) [
  | inl e ↦ rw (lookup-insert ns ns' kids roots, e) new
  | inr e ↦ rw (lookup-insert ns ns' kids roots, e) (old ns')
]

-- The tree itself, where it has come to hold `tokens`.
pub inserted-IsRooted :
    (id : String) (t : TreeId) (s : List ℕ) (kids : Children) (tokens : Dict (List ℕ))
    (roots : Dict Children)
    → IsRooted (insert id s tokens) (insert t.namespace kids roots) id (some t)
inserted-IsRooted id t s kids tokens roots = (
  rw (lookup-insert id id s tokens, same_refl id) refl,
  rw (lookup-insert t.namespace t.namespace kids roots, same_refl t.namespace) refl,
)

-- A tree with as many tokens keeps to the budget too.
pub total-IsWithin :
    (budget : Option ℕ) (kids kids' : Children)
    → total kids' ≡ total kids
    → IsWithin budget (some kids)
    → IsWithin budget (some kids')
total-IsWithin none kids kids' e w = tt
total-IsWithin (some b) kids kids' e w = omega arith

-- The root of a tree that lives in the namespace.
pub root_of :
    (tokens : Dict (List ℕ)) (roots : Dict Children) (id : String) (o : Option TreeId) (t : TreeId)
    → IsRooted tokens roots id o
    → o ≡ some t
    → (s : List ℕ) × (kids : Children) × (lookup id tokens ≡ some s)
      × (lookup t.namespace roots ≡ some kids)
root_of tokens roots id o t r e =
    let (known, rooted) = subst (IsRooted tokens roots id) e r in
    elim (Option-cases (lookup id tokens)) [
      | inl no_tokens ↦ absurd (cc (known, ap is_some no_tokens))
      | inr (s, es) ↦ elim (Option-cases (lookup t.namespace roots)) [
        | inl no_root ↦ absurd (cc (rooted, ap is_some no_root))
        | inr (kids, ek) ↦ (s, kids, es, ek)
      ]
    ]
