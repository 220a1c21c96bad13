-- ===== src/Kv/Radix/Holds/Fork.antt =====
-- The loop of `fork_branch`: the child comes to hold what its parent holds.
use agentfork.Base.{
  ℕ, ◌+◌, String, ◌≡◌, refl, sym, ◌∙◌, ap, subst, inl, inr, true, false, none, some, List, [], ◌∷◌,
  arith, ◌==◌, length, strip, is_some, after, length-strip, Option-cases, Bool-cases,
}
use agentfork.Kv.Radix.{Node, Children, nil, entry, share, bump, total}
use agentfork.Kv.Radix.Holds.{
  Held, unless, through, others, IsDone, IsWhole, Holds, update, update_same, through-update,
  others-update,
}
use agentfork.Kv.Radix.Holds.Update.{Fits-quiet, Fits-share, Holds-quiet}

-- The rounds of the loop, at a node under the key `k`.
module _ (f : Node → Node) (k t : ℕ) (ts : List ℕ) (n : Node) (sub rest : Children) where
  pub bump_hit :
      (left : List ℕ)
      → (k == t) ≡ true
      → strip n.tokens (t ∷ ts) ≡ some left
      → bump f (t ∷ ts) (entry k n sub rest)
        ≡ (entry k (f n) (bump f left sub).0 rest, length n.tokens + (bump f left sub).1)
  unfolding bump
  bump_hit left e hit = ground arith

  pub bump_pass :
      (k == t) ≡ false
      → bump f (t ∷ ts) (entry k n sub rest)
        ≡ (entry k n sub (bump f (t ∷ ts) rest).0, (bump f (t ∷ ts) rest).1)
  unfolding bump
  bump_pass e = rw (e, bump)

-- Tokens with another first token neither pass the node nor leave its siblings.
pub after_other :
    (k t : ℕ) (tail p ts : List ℕ)
    → p ≡ k ∷ tail
    → (k == t) ≡ false
    → after p (some (t ∷ ts)) ≡ none
after_other k t tail p ts b e = rw (b, e) refl

pub IsWhole-other : (k t : ℕ) (p ts : List ℕ) → (k == t) ≡ false → IsWhole k p (some (t ∷ ts))
IsWhole-other k t p ts e = λ same_token. ground arith

pub unless_key : (k t : ℕ) (ts : List ℕ) → (k == t) ≡ true → unless k (some (t ∷ ts)) ≡ none
unless_key k t ts e = ground arith

pub unless_other :
    (k t : ℕ) (ts : List ℕ) → (k == t) ≡ false → unless k (some (t ∷ ts)) ≡ some (t ∷ ts)
unless_other k t ts e = ground arith

-- The child passes the nodes that its parent passes, and all of the parent's tokens are matched.
pub fork-Holds :
    (parent child : String) (s : List ℕ) (kids : Children) (held : Held)
    → Holds held kids
    → held parent ≡ some s
    → held child ≡ none
    → Holds (update child (some s) held) (bump (share child) s kids).0
      × ((bump (share child) s kids).1 ≡ length s)
unfolding bump
fork-Holds parent child [] kids held h hp hc =
    (Holds-quiet child (some []) held kids (rw hc tt) tt h, refl)
fork-Holds parent child (t ∷ ts) nil held h hp hc = absurd (subst IsDone hp (h parent))
fork-Holds parent child (t ∷ ts) (entry k n sub rest) held (fits, hs, hr) hp hc =
    let w : IsWhole k n.tokens (some (t ∷ ts)) =
      subst (IsWhole k n.tokens) hp (fits.whole parent) in
    let absent : after n.tokens (held child) ≡ none = ap (after n.tokens) hc in
    elim (Bool-cases (k == t)) [
      | inl key ↦ elim (Option-cases (strip n.tokens (t ∷ ts))) [
        | inl miss ↦ absurd (cc (w (ground arith), ap is_some miss))
        | inr (left, hit) ↦
            let (hs', all) =
              fork-Holds parent child left sub (through n.tokens held) hs
                (ap (after n.tokens) hp ∙ hit) absent in
            rw (bump_hit (share child) k t ts n sub rest left key hit) (
              (
                Fits-share child (some (t ∷ ts)) k n held fits w (ap is_some hit) absent,
                rw (through-update n.tokens child (some (t ∷ ts)) held, hit) hs',
                rw
                    (
                      others-update k child (some (t ∷ ts)) held,
                      unless_key k t ts key,
                      ← ap (unless k) hc,
                      update_same child (others k held),
                    )
                    hr,
              ),
              omega (arith, all, length-strip n.tokens (t ∷ ts) left hit),
            )
      ]
      | inr other ↦
          let gone = after_other k t fits.tail n.tokens ts fits.begins other in
          let (hr', all) =
            fork-Holds parent child (t ∷ ts) rest (others k held) hr
              (ap (unless k) hp ∙ unless_other k t ts other) (ap (unless k) hc) in
          rw (bump_pass (share child) k t ts n sub rest other) (
            (
              Fits-quiet child (some (t ∷ ts)) k n held fits w (ap is_some (gone ∙ sym absent)),
              rw
                  (
                    through-update n.tokens child (some (t ∷ ts)) held,
                    gone,
                    ← absent,
                    update_same child (through n.tokens held),
                  )
                  hs,
              rw (others-update k child (some (t ∷ ts)) held, unless_other k t ts other) hr',
            ),
            all,
          )
    ]

-- The loop adds no node.
pub total-bump :
    (f : Node → Node) (tokens : List ℕ) (kids : Children)
    → ((n : Node) → (f n).tokens ≡ n.tokens)
    → total (bump f tokens kids).0 ≡ total kids
unfolding bump total
total-bump f [] kids e = refl
total-bump f (t ∷ ts) nil e = refl
total-bump f (t ∷ ts) (entry k n sub rest) e = elim (Bool-cases (k == t)) [
  | inl key ↦ elim (Option-cases (strip n.tokens (t ∷ ts))) [
    | inl miss ↦ rw (key, miss, bump) refl
    | inr (left, hit) ↦
        rw (bump_hit f k t ts n sub rest left key hit, e n) (omega (arith, total-bump f left sub e))
  ]
  | inr other ↦
      rw (bump_pass f k t ts n sub rest other) (omega (arith, total-bump f (t ∷ ts) rest e))
]
