-- ===== src/Kv/Radix/Holds.antt =====
-- What a radix tree holds: the token sequences of the branches that reference it. This is the
-- invariant of the trees of agentfork/kv/tree_cache.py, against which its loops are proved.
pub mod Split
pub mod Walk
pub mod Match
pub mod Update
pub mod Grow
pub mod Extend
pub mod Total
pub mod Fork
pub mod Kill
use agentfork.Base.{
  ℕ, suc, ◌+◌, ◌≤◌, ◌<◌, String, ◌≡◌, ◌≢◌, refl, sym, ap, subst, fun_ext, ◌⊎◌, inl, inr, Bool, true,
  false, Option, none, some, List, [], ◌∷◌, ◌++◌, arith, ◌==◌, length, take, drop, strip, common,
  is_some, if◌then◌else◌, after, same, same→eq, same_refl, Option-cases, Bool-cases,
}
use agentfork.Base.Dict.{mem, IsDistinct}
use agentfork.Base.Int.{ℤ, pos}
use agentfork.Kv.Radix.{Node, Children, nil, entry, total}

-- The tokens that each branch still has below a node; `none` for a branch that does not pass it.
abbrev pub Held : Type 0
Held = String → Option (List ℕ)

abbrev pub unless : ℕ → Option (List ℕ) → Option (List ℕ)
unless k none = none
unless k (some []) = some []
unless k (some (x ∷ s)) = if x == k then none else some (x ∷ s)

-- The branches that pass through a node with the tokens `p`.
abbrev pub through : List ℕ → Held → Held
through p held id = after p (held id)

-- The branches that do not go on with the token `k`.
abbrev pub others : ℕ → Held → Held
others k held id = unless k (held id)

-- The branch ends here, or is not here at all.
abbrev pub IsDone : Option (List ℕ) → Type 0
IsDone none = Unit
IsDone (some []) = Unit
IsDone (some (x ∷ s)) = ⊥

-- A branch that goes on with the node's key has all the tokens of the node.
abbrev pub IsWhole : ℕ → List ℕ → Option (List ℕ) → Type 0
IsWhole k p none = Unit
IsWhole k p (some []) = Unit
IsWhole k p (some (x ∷ s)) = x ≡ k → is_some (strip p (x ∷ s)) ≡ true

-- A node stands under its first token, its owners are the branches that pass through it, it counts
-- them, and there is one at least.
pub record Fits (held : Held) (k : ℕ) (n : Node) : Type 0 where
  pub tail : List ℕ
  pub begins : n.tokens ≡ k ∷ tail
  pub whole : (id : String) → IsWhole k n.tokens (held id)
  pub owned : (id : String) → mem id n.owners ≡ is_some (through n.tokens held id)
  pub distinct : IsDistinct n.owners
  pub counted : n.ref ≡ pos (length n.owners)
  pub used : 0 < length n.owners

abbrev pub Holds : Held → Children → Type 0
Holds held nil = (id : String) → IsDone (held id)
Holds held (entry k n sub rest) =
    Fits held k n × Holds (through n.tokens held) sub × Holds (others k held) rest

-- One branch's tokens are given anew.
abbrev pub update : String → Option (List ℕ) → Held → Held
update id v held j = if same id j then v else held j

pub through-update :
    (p : List ℕ) (id : String) (v : Option (List ℕ)) (held : Held)
    → through p (update id v held) ≡ update id (after p v) (through p held)
through-update p id v held =
    fun_ext λ j. elim (Bool-cases (same id j)) [ inl e ↦ rw (e) refl | inr e ↦ rw (e) refl ]

pub others-update :
    (k : ℕ) (id : String) (v : Option (List ℕ)) (held : Held)
    → others k (update id v held) ≡ update id (unless k v) (others k held)
others-update k id v held =
    fun_ext λ j. elim (Bool-cases (same id j)) [ inl e ↦ rw (e) refl | inr e ↦ rw (e) refl ]

-- Giving a branch what it has changes nothing.
pub update_same : (id : String) (held : Held) → update id (held id) held ≡ held
update_same id held =
    fun_ext λ j. elim (Bool-cases (same id j)) [
      | inl e ↦ rw (e, same→eq id j e) refl
      | inr e ↦ rw (e) refl
    ]

mem_of_pos : (l : List String) → 0 < length l → (id : String) × (mem id l ≡ true)
unfolding mem
mem_of_pos [] h = elim h [ ]
mem_of_pos (k ∷ l) h = (k, rw (same_refl k))

-- A node's owner shows a branch that passes through it.
pub Fits-owner :
    {held : Held} {k : ℕ} {n : Node}
    → Fits held k n
    → (id : String) × (s : List ℕ) × (through n.tokens held id ≡ some s)
Fits-owner {held} {n = n} f =
    let (id, m) = mem_of_pos n.owners f.used in
    elim (Option-cases (through n.tokens held id)) [
      | inl e ↦ absurd (cc (f.owned id, ap is_some e))
      | inr (s, e) ↦ (id, s, e)
    ]

after_done :
    (p : List ℕ) (o : Option (List ℕ)) {k : ℕ} {tail s : List ℕ}
    → p ≡ k ∷ tail
    → IsDone o
    → after p o ≡ some s
    → ⊥
after_done p none b d e = cc
after_done p (some []) b d e = ground arith
after_done p (some (x ∷ s)) b d e = d

-- Where no branch goes on, there is no node.
pub Holds_done :
    (held : Held) (kids : Children)
    → ((id : String) → IsDone (held id))
    → Holds held kids
    → kids ≡ nil
Holds_done held nil d h = refl
Holds_done held (entry k n sub rest) d h =
    let (id, s, e) = Fits-owner h.0 in absurd (after_done n.tokens (held id) h.0.begins (d id) e)
