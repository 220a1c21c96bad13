-- ===== src/Kv/Radix/Holds/Walk.antt =====
-- `_walk` keeps what the tree holds, and matches the longest prefix that it has with a branch.
use agentfork.Base.{
  ℕ, ◌+◌, ◌≡◌, refl, inl, inr, true, false, none, some, List, [], ◌∷◌, arith, ◌==◌, length, strip,
  common, Option-cases, Bool-cases, common-lt,
}
use agentfork.Kv.Radix.{Node, Children, nil, entry, touch, split, walk, total}
use agentfork.Kv.Radix.Holds.{Held, Fits, Holds}
use agentfork.Kv.Radix.Holds.Split.{split-Holds, total-split}

touch-Fits : (now k : ℕ) (n : Node) (held : Held) → Fits held k n → Fits held k (touch now n)
touch-Fits now k n held f = record {
  tail = f.tail;
  begins = f.begins;
  whole = f.whole;
  owned = f.owned;
  distinct = f.distinct;
  counted = f.counted;
  used = f.used;
}

-- The four ways in which a round of the loop ends, at a node under the key `k`.
module _ (now k t : ℕ) (ts : List ℕ) (n : Node) (sub rest : Children) where
  pub walk_hit :
      (left : List ℕ)
      → (k == t) ≡ true
      → strip n.tokens (t ∷ ts) ≡ some left
      → walk now (t ∷ ts) (entry k n sub rest) ≡ (
        entry k (touch now n) (walk now left sub).0 rest,
        length n.tokens + (walk now left sub).1,
      )
  unfolding walk
  walk_hit left e hit = ground arith

  pub walk-split :
      (k == t) ≡ true
      → strip n.tokens (t ∷ ts) ≡ none
      → (common n.tokens (t ∷ ts) == 0) ≡ false
      → walk now (t ∷ ts) (entry k n sub rest)
        ≡ (split now (common n.tokens (t ∷ ts)) k n sub rest, common n.tokens (t ∷ ts))
  unfolding walk
  walk-split e miss some_common = ground arith

  pub walk_stop :
      (k == t) ≡ true
      → strip n.tokens (t ∷ ts) ≡ none
      → (common n.tokens (t ∷ ts) == 0) ≡ true
      → walk now (t ∷ ts) (entry k n sub rest) ≡ (entry k n sub rest, 0)
  unfolding walk
  walk_stop e miss no_common = ground arith

  pub walk_pass :
      (k == t) ≡ false
      → walk now (t ∷ ts) (entry k n sub rest)
        ≡ (entry k n sub (walk now (t ∷ ts) rest).0, (walk now (t ∷ ts) rest).1)
  unfolding walk
  walk_pass e = rw (e, walk)

pub walk-Holds :
    (now : ℕ) (tokens : List ℕ) (kids : Children) (held : Held)
    → Holds held kids
    → Holds held (walk now tokens kids).0
unfolding walk
walk-Holds now [] kids held h = h
walk-Holds now (t ∷ ts) nil held h = h
walk-Holds now (t ∷ ts) (entry k n sub rest) held h = elim (Bool-cases (k == t)) [
  | inl e ↦ elim (Option-cases (strip n.tokens (t ∷ ts))) [
    | inl miss ↦ elim (Bool-cases (common n.tokens (t ∷ ts) == 0)) [
      | inl z ↦ rw (walk_stop now k t ts n sub rest e miss z) h
      | inr z ↦ rw (walk-split now k t ts n sub rest e miss z) (
          split-Holds now _ k n held h.0 (common-lt n.tokens (t ∷ ts) miss) (ground arith) sub rest
            h.1 h.2)
    ]
    | inr (left, hit) ↦
        rw (walk_hit now k t ts n sub rest left e hit)
          (touch-Fits now k n held h.0, walk-Holds now left sub _ h.1, h.2)
  ]
  | inr e ↦ rw (walk_pass now k t ts n sub rest e) (h.0, h.1, walk-Holds now (t ∷ ts) rest _ h.2)
]

-- Walking moves tokens between nodes and adds none.
pub total-walk :
    (now : ℕ) (tokens : List ℕ) (kids : Children) → total (walk now tokens kids).0 ≡ total kids
unfolding walk total
total-walk now [] kids = refl
total-walk now (t ∷ ts) nil = refl
total-walk now (t ∷ ts) (entry k n sub rest) = elim (Bool-cases (k == t)) [
  | inl e ↦ elim (Option-cases (strip n.tokens (t ∷ ts))) [
    | inl miss ↦ elim (Bool-cases (common n.tokens (t ∷ ts) == 0)) [
      | inl z ↦ rw (walk_stop now k t ts n sub rest e miss z) refl
      | inr z ↦
          rw (walk-split now k t ts n sub rest e miss z)
            (total-split now _ k n sub rest (omega (arith, common-lt n.tokens (t ∷ ts) miss)))
    ]
    | inr (left, hit) ↦
        rw (walk_hit now k t ts n sub rest left e hit) (omega (arith, total-walk now left sub))
  ]
  | inr e ↦ rw (walk_pass now k t ts n sub rest e) (omega (arith, total-walk now (t ∷ ts) rest))
]
