-- ===== src/Kv/Cache/Charge.antt =====
-- The results of `extend` (agentfork/kv/tree_cache.py) on every branch, in a valid cache.
use agentfork.Base.{
  ℕ, ◌+◌, ◌-◌, ◌≤◌, String, ◌≡◌, refl, subst, inl, inr, some, List, ◌++◌, arith, ltb, length,
  if◌then◌else◌, same_refl, Option-cases, Bool-cases,
}
use agentfork.Base.Dict.{lookup, insert, lookup-insert}
use agentfork.Kv.Radix.{Children, walk, total}
use agentfork.Kv.Radix.Holds.{Held, Holds}
use agentfork.Kv.Radix.Holds.Walk.{walk-Holds, total-walk}
use agentfork.Kv.Radix.Holds.Total.{walk-Cut, Cut-le}
use agentfork.Kv.Cache.{TreeKvCache, TreeId, Result, ok, raise, memory_error}
use agentfork.Kv.Cache.Access.{has_room, make_room, over_budget, charge, extend}
use agentfork.Kv.Cache.Valid.{held_in, HoldsRoot, IsValid}
use agentfork.Kv.Cache.Change.{root_of}
use agentfork.Kv.Cache.Evict.{maybe_evict_lem}
use agentfork.Kv.Cache.Extend.{retree-IsValid, committed, committed-IsValid}

make_room_lem :
    (charged : ℕ) (c : TreeKvCache) → IsValid c → make_room charged c ≡ (has_room charged c, c)
make_room_lem charged c v = elim (Bool-cases (ltb 0 charged)) [
  | inl some_tokens ↦ rw some_tokens (maybe_evict_lem charged c v)
  | inr none_left ↦ let fits = v.fits in ground arith
]

-- `extend` after the walk, where `c` holds the walked tree.
abbrev pub charged_result :
    ℕ → String → String → List ℕ → List ℕ → ℕ → TreeKvCache → Children → Result ℕ × TreeKvCache
charged_result now id ns full tokens m walked kids =
    if over_budget walked.per_tree_budget (total kids + (length full - m))
    then (raise memory_error, walked)
    else if has_room (length full - m) walked
    then (ok (length full - m), committed now id ns full tokens m walked kids)
    else (raise memory_error, walked)

charge_lem :
    (now : ℕ) (id ns : String) (full tokens : List ℕ) (m : ℕ) (kids : Children) (c : TreeKvCache)
    → IsValid (record c { roots = insert ns kids c.roots })
    → charge now id ns full tokens (kids, m) c
      ≡ charged_result now id ns full tokens m (record c { roots = insert ns kids c.roots }) kids
unfolding charge
charge_lem now id ns full tokens m kids c v =
    let walked : TreeKvCache = record c { roots = insert ns kids c.roots } in
    let room = make_room_lem (length full - m) walked v in
    elim (Bool-cases (over_budget c.per_tree_budget (total kids + (length full - m)))) [
      | inl over ↦ rw over refl
      | inr under ↦
          rw (under, room)
            (elim (Bool-cases (has_room (length full - m) walked)) [
              | inl fits ↦ rw fits (rw (room, lookup-insert ns ns kids c.roots, same_refl ns) refl)
              | inr full_up ↦ rw full_up (rw room refl)
            ])
    ]

-- The cache after the walk of `extend`: nodes are split, and nothing else has changed.
abbrev pub walked_in : ℕ → String → List ℕ → Children → TreeKvCache → TreeKvCache
walked_in now ns full kids c = record c { roots = insert ns (walk now full kids).0 c.roots }

module _ (now : ℕ) (id : String) (tokens : List ℕ) (tid : TreeId) (seq : List ℕ) (kids : Children)
    (c : TreeKvCache) (v : IsValid c) (ei : lookup id c.trees ≡ some tid)
    (et : lookup id c.tree_tokens ≡ some seq) (er : lookup tid.namespace c.roots ≡ some kids) where
  abbrev full : List ℕ
  full = seq ++ tokens

  abbrev held : Held
  held = held_in c.trees c.tree_tokens tid.namespace

  abbrev pub matched : ℕ
  matched = (walk now full kids).1

  loaded : Holds held kids
  loaded = subst (HoldsRoot held) er (v.holds tid.namespace)

  walked-IsValid : IsValid (walked_in now tid.namespace full kids c)
  walked-IsValid =
      retree-IsValid tid.namespace kids (walk now full kids).0 c v er
        (walk-Holds now full kids held loaded) (total-walk now full kids)

  pub extend_run :
      extend now id tokens c
      ≡ charged_result now id tid.namespace full tokens matched
          (walked_in now tid.namespace full kids c)
          (walk now full kids).0
  unfolding extend
  extend_run =
      rw (ei, extend)
        (rw (et, er)
          (charge_lem now id tid.namespace full tokens matched (walk now full kids).0 c
            walked-IsValid))

  result-IsValid :
      IsValid
        (charged_result now id tid.namespace full tokens matched
          (walked_in now tid.namespace full kids c)
          (walk now full kids).0).1
  result-IsValid =
      elim (Bool-cases
        (over_budget c.per_tree_budget (total (walk now full kids).0 + (length full - matched)))) [
          | inl over ↦ rw over walked-IsValid
          | inr under ↦
              elim (Bool-cases
                (has_room (length full - matched) (walked_in now tid.namespace full kids c))) [
                  | inl fits ↦
                      rw (under, fits)
                        (committed-IsValid now id tid seq tokens matched (walk now full kids).0
                          (walked_in now tid.namespace full kids c) walked-IsValid ei et
                          (rw
                            (
                              lookup-insert tid.namespace tid.namespace (walk now full kids).0
                                  c.roots,
                              same_refl tid.namespace,
                            )
                            refl)
                          (walk-Cut now full kids held loaded) under (ground arith))
                  | inr full_up ↦ rw (under, full_up) walked-IsValid
                ]
        ]

  pub matched-le : matched ≤ length full
  matched-le = Cut-le (walk-Cut now full kids held loaded)

-- `extend` keeps the cache valid, also where it raises.
pub extend-IsValid :
    (now : ℕ) (id : String) (tokens : List ℕ) (c : TreeKvCache)
    → IsValid c
    → IsValid (extend now id tokens c).1
unfolding extend
extend-IsValid now id tokens c v = elim (Option-cases (lookup id c.trees)) [
  | inl unknown ↦ rw (unknown, extend) v
  | inr (tid, ei) ↦
      let (seq, kids, et, er) =
        root_of c.tree_tokens c.roots id (lookup id c.trees) tid (v.rooted id) ei in
      rw (extend_run now id tokens tid seq kids c v ei et er)
        (result-IsValid now id tokens tid seq kids c v ei et er)
]
