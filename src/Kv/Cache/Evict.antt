-- ===== src/Kv/Cache/Evict.antt =====
-- `_maybe_evict` of agentfork/kv/tree_cache.py: in a valid cache every node has an owner, so there is
-- nothing to evict.
use agentfork.Base.{
  ℕ, zero, suc, ◌<◌, String, ◌≡◌, refl, inl, inr, false, List, [], ◌∷◌, ◌++◌, arith, length, same,
  same→eq, same_refl, Bool-cases,
}
use agentfork.Base.Dict.{Dict, lookup}
use agentfork.Base.Dict.Sum.{IsUnique}
use agentfork.Base.Int.{pos}
use agentfork.Kv.Radix.{Node, Children, nil, entry, evictable, leaves}
use agentfork.Kv.Radix.Holds.{Held, Holds, through, others}
use agentfork.Kv.Cache.{TreeKvCache}
use agentfork.Kv.Cache.Access.{all_leaves, sort_leaves, has_room, maybe_evict}
use agentfork.Kv.Cache.Valid.{held_in, HoldsRoot, IsValid}

not_evictable :
    (n : Node) (sub : Children) (owners : ℕ)
    → n.ref ≡ pos owners
    → 0 < owners
    → evictable n sub ≡ false
not_evictable n sub zero e h = absurd (omega arith)
not_evictable n nil (suc owners) e h = rw e refl
not_evictable n (entry k n' sub rest) (suc owners) e h = refl

leaves-Holds :
    (ns : String) (path : List ℕ) (kids : Children) (held : Held)
    → Holds held kids
    → leaves ns path kids ≡ []
unfolding leaves
leaves-Holds ns path nil held h = refl
leaves-Holds ns path (entry k n sub rest) held (fits, hs, hr) = rw (
  leaves-Holds ns path rest (others k held) hr,
  not_evictable n sub (length n.owners) fits.counted fits.used,
  leaves-Holds ns (path ++ n.tokens) sub (through n.tokens held) hs,
)

all_leaves_none :
    (held : String → Held) (roots : Dict Children)
    → IsUnique roots
    → ((ns : String) → HoldsRoot (held ns) (lookup ns roots))
    → all_leaves roots ≡ []
unfolding all_leaves lookup
all_leaves_none held [] u h = refl
all_leaves_none held ((ns, kids) ∷ d) u h =
    let here : Holds (held ns) kids = rw (same_refl ns) at (h ns) in
    rw (
      all_leaves_none held d u.1 (λ ns'. elim (Bool-cases (same ns ns')) [
        | inl e ↦ rw (← same→eq ns ns' e, u.0) tt
        | inr e ↦ rw e at (h ns')
      ]),
      leaves-Holds ns [] kids (held ns) here,
    )

-- In a valid cache, eviction changes nothing, and fails exactly where there is no room.
pub maybe_evict_lem :
    (need : ℕ) (c : TreeKvCache) → IsValid c → maybe_evict need c ≡ (has_room need c, c)
unfolding maybe_evict sort_leaves
maybe_evict_lem need c v =
    let nothing = all_leaves_none (held_in c.trees c.tree_tokens) c.roots v.unique_roots v.holds in
    elim (Bool-cases (has_room need c)) [
      | inl room ↦ rw room refl
      | inr full ↦ rw (full, nothing) (rw full refl)
    ]
