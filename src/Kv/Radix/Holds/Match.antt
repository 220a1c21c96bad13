-- ===== src/Kv/Radix/Holds/Match.antt =====
-- What `_walk` matches: the longest prefix that the tokens share with a branch of the tree.
use agentfork.Base.{
  ℕ, ◌+◌, ◌≤◌, String, ◌≡◌, refl, sym, ◌∙◌, ap, ◌⊎◌, inl, inr, true, false, Option, none, some,
  List, [], ◌∷◌, arith, ◌==◌, length, strip, common, is_some, after, Option-cases, Bool-cases,
  common-strip_both, common_diverge,
}
use mathlib.Core.Option.{some-injective}
use agentfork.Kv.Radix.{Node, Children, nil, entry, walk}
use agentfork.Kv.Radix.Holds.{Held, unless, through, IsDone, IsWhole, Fits, Fits-owner, Holds}
use agentfork.Kv.Radix.Holds.Walk.{walk_hit, walk-split, walk_stop, walk_pass}

common_done :
    (o : Option (List ℕ)) (s tokens : List ℕ) → IsDone o → o ≡ some s → common s tokens ≡ 0
common_done none s tokens d e = cc
common_done (some []) s tokens d e = rw (← some-injective _ _ e)
common_done (some (x ∷ xs)) s tokens d e = absurd d

module _ (k : ℕ) (p : List ℕ) (t : ℕ) (ts : List ℕ) where
  -- a branch under the node's key, against tokens that pass through the node
  bound_hit :
      (o : Option (List ℕ)) (left s : List ℕ) (m : ℕ)
      → IsWhole k p o
      → (k == t) ≡ true
      → strip p (t ∷ ts) ≡ some left
      → ((r : List ℕ) → after p o ≡ some r → common r left ≤ m)
      → o ≡ some s
      → common s (t ∷ ts) ≤ length p + m
  bound_hit none left s m w e hit ih h = cc
  bound_hit (some []) left s m w e hit ih h = rw (← some-injective _ _ h) (omega arith)
  bound_hit (some (x ∷ xs)) left s m w e hit ih h = elim (Bool-cases (x == t)) [
    | inl same_token ↦ elim (Option-cases (strip p (x ∷ xs))) [
      | inl miss ↦ absurd (cc (w (ground arith), ap is_some miss))
      | inr (r, through_p) ↦ rw (← some-injective _ _ h) (
          omega (arith, common-strip_both p (x ∷ xs) (t ∷ ts) r left through_p hit, ih r through_p))
    ]
    | inr other ↦ rw (← some-injective _ _ h) (ground arith)
  ]

  -- against tokens that leave the node inside
  bound_diverge :
      (o : Option (List ℕ)) (s : List ℕ)
      → IsWhole k p o
      → (k == t) ≡ true
      → strip p (t ∷ ts) ≡ none
      → o ≡ some s
      → common s (t ∷ ts) ≤ common p (t ∷ ts)
  bound_diverge none s w e miss h = cc
  bound_diverge (some []) s w e miss h = rw (← some-injective _ _ h) (omega arith)
  bound_diverge (some (x ∷ xs)) s w e miss h = elim (Bool-cases (x == t)) [
    | inl same_token ↦ elim (Option-cases (strip p (x ∷ xs))) [
      | inl gone ↦ absurd (cc (w (ground arith), ap is_some gone))
      | inr (r, through_p) ↦
          rw (← some-injective _ _ h)
            (omega (arith, common_diverge p (x ∷ xs) (t ∷ ts) r through_p miss))
    ]
    | inr other ↦ rw (← some-injective _ _ h) (ground arith)
  ]

  -- against tokens with another first token
  bound_pass :
      (o : Option (List ℕ)) (s : List ℕ) (m : ℕ)
      → (k == t) ≡ false
      → ((r : List ℕ) → unless k o ≡ some r → common r (t ∷ ts) ≤ m)
      → o ≡ some s
      → common s (t ∷ ts) ≤ m
  bound_pass none s m e ih h = cc
  bound_pass (some []) s m e ih h = rw (← some-injective _ _ h) (omega arith)
  bound_pass (some (x ∷ xs)) s m e ih h = elim (Bool-cases (x == k)) [
    | inl same_key ↦ rw (← some-injective _ _ h) (ground arith)
    | inr other ↦ rw (← some-injective _ _ h) (ih (x ∷ xs) (rw (other) refl))
  ]

-- No branch of the tree shares more with the tokens than what is matched.
pub walk_bound :
    (now : ℕ) (tokens : List ℕ) (kids : Children) (held : Held)
    → Holds held kids
    → (id : String) (s : List ℕ) → held id ≡ some s
    → common s tokens ≤ (walk now tokens kids).1
unfolding walk
walk_bound now [] kids held h id [] e = omega arith
walk_bound now [] kids held h id (x ∷ s) e = omega arith
walk_bound now (t ∷ ts) nil held h id s e =
    rw (common_done (held id) s (t ∷ ts) (h id) e) (omega arith)
walk_bound now (t ∷ ts) (entry k n sub rest) held h id s e = elim (Bool-cases (k == t)) [
  | inl key ↦ elim (Option-cases (strip n.tokens (t ∷ ts))) [
    | inl miss ↦
        let below = bound_diverge k n.tokens t ts (held id) s (h.0.whole id) key miss e in
        elim (Bool-cases (common n.tokens (t ∷ ts) == 0)) [
          | inl z ↦ rw (walk_stop now k t ts n sub rest key miss z) (ground arith)
          | inr z ↦ rw (walk-split now k t ts n sub rest key miss z) below
        ]
    | inr (left, hit) ↦ rw (walk_hit now k t ts n sub rest left key hit) (
        bound_hit k n.tokens t ts (held id) left s _ (h.0.whole id) key hit
          (walk_bound now left sub _ h.1 id) e)
  ]
  | inr other ↦
      rw (walk_pass now k t ts n sub rest other)
        (bound_pass k n.tokens t ts (held id) s _ other (walk_bound now (t ∷ ts) rest _ h.2 id) e)
]

-- A branch shares `m` tokens with `tokens`.
abbrev pub Shares : Held → List ℕ → ℕ → Type 0
Shares held tokens m = (id : String) × (s : List ℕ) × (held id ≡ some s) × (common s tokens ≡ m)

Shares-hit :
    (k : ℕ) (p : List ℕ) (t : ℕ) (ts left : List ℕ) (held : Held) (m : ℕ)
    → strip p (t ∷ ts) ≡ some left
    → Shares (through p held) left m
    → Shares held (t ∷ ts) (length p + m)
Shares-hit k p t ts left held m hit (id, r, e, c) = elim (Option-cases (held id)) [
  | inl absent ↦ absurd (cc (ap (after p) absent, e))
  | inr (s, here) ↦ (
    id,
    s,
    here,
    common-strip_both p s (t ∷ ts) r left (sym (ap (after p) here) ∙ e) hit
        ∙ ap (λ c. length p + c) c,
  )
]

Shares-diverge :
    (k : ℕ) (p : List ℕ) (t : ℕ) (ts : List ℕ) (held : Held) (n : Node)
    → Fits held k n
    → strip n.tokens (t ∷ ts) ≡ none
    → Shares held (t ∷ ts) (common n.tokens (t ∷ ts))
Shares-diverge k p t ts held n f miss =
    let (id, r, e) = Fits-owner f in
    elim (Option-cases (held id)) [
      | inl absent ↦ absurd (cc (ap (after n.tokens) absent, e))
      | inr (s, here) ↦ (
        id,
        s,
        here,
        common_diverge n.tokens s (t ∷ ts) r (sym (ap (after n.tokens) here) ∙ e) miss,
      )
    ]

unless-some : (k : ℕ) (o : Option (List ℕ)) (s : List ℕ) → unless k o ≡ some s → o ≡ some s
unless-some k none s h = h
unless-some k (some []) s h = h
unless-some k (some (x ∷ xs)) s h = ground arith

-- What is matched is shared with a branch, or nothing is matched.
pub walk-Shares :
    (now : ℕ) (tokens : List ℕ) (kids : Children) (held : Held)
    → Holds held kids
    → ((walk now tokens kids).1 ≡ 0) ⊎ Shares held tokens (walk now tokens kids).1
unfolding walk
walk-Shares now [] kids held h = inl refl
walk-Shares now (t ∷ ts) nil held h = inl refl
walk-Shares now (t ∷ ts) (entry k n sub rest) held h = elim (Bool-cases (k == t)) [
  | inl key ↦ elim (Option-cases (strip n.tokens (t ∷ ts))) [
    | inl miss ↦ elim (Bool-cases (common n.tokens (t ∷ ts) == 0)) [
      | inl z ↦ rw (walk_stop now k t ts n sub rest key miss z) (inl refl)
      | inr z ↦
          rw (walk-split now k t ts n sub rest key miss z)
            (inr (Shares-diverge k n.tokens t ts held n h.0 miss))
    ]
    | inr (left, hit) ↦ rw (walk_hit now k t ts n sub rest left key hit) (
        inr (elim (walk-Shares now left sub _ h.1) [
          | inl z ↦
              let (id, r, e) = Fits-owner h.0 in
              rw z (
                Shares-hit k n.tokens t ts left held 0 hit
                  (id, r, e, omega (arith, walk_bound now left sub _ h.1 id r e)))
          | inr shared ↦ Shares-hit k n.tokens t ts left held _ hit shared
        ]))
  ]
  | inr other ↦
      rw (walk_pass now k t ts n sub rest other) (elim (walk-Shares now (t ∷ ts) rest _ h.2) [
        | inl z ↦ inl z
        | inr (id, s, e, c) ↦ inr (id, s, unless-some k (held id) s e, c)
      ])
]
