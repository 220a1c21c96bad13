-- ===== src/Kv/Radix/Holds/Grow.antt =====
-- The end of `extend`: the node that is hung into the tree, and the references along the branch.
use agentfork.Base.{
  ℕ, zero, suc, ◌+◌, ◌-◌, String, ◌≡◌, refl, inl, inr, true, false, Option, none, some, List, [],
  ◌∷◌, arith, ◌==◌, ltb, length, strip, if◌then◌else◌, after, length-strip, Option-cases,
  Bool-cases,
}
use agentfork.Kv.Radix.{Node, Children, nil, entry, put, attach}
use agentfork.Kv.Radix.Holds.{unless, IsDone}

-- The tokens match whole nodes, `m` tokens in all, and then miss a key: the tree as `_walk` leaves it.
pub data Cut : List ℕ → Children → ℕ → Type 0 where
  at_end : {kids : Children} → Cut [] kids 0
  off_tree : {t : ℕ} {ts : List ℕ} → Cut (t ∷ ts) nil 0
  in_node :
      {k t m d : ℕ} {ts left : List ℕ} {n : Node} {sub rest : Children}
      → (k == t) ≡ true
      → strip n.tokens (t ∷ ts) ≡ some left
      → Cut left sub m
      → d ≡ length n.tokens + m
      → Cut (t ∷ ts) (entry k n sub rest) d
  past_node :
      {k t m : ℕ} {ts : List ℕ} {n : Node} {sub rest : Children}
      → (k == t) ≡ false
      → Cut (t ∷ ts) rest m
      → Cut (t ∷ ts) (entry k n sub rest) m

-- `extend` hangs the rest of the tokens below what matched, if there is a rest.
abbrev pub grown : ℕ → String → ℕ → List ℕ → Children → Children
grown now id m full kids = if ltb m (length full) then attach now id m full kids else kids

-- The branch held a prefix of the tokens, or was not here.
abbrev pub Extends : Option (List ℕ) → List ℕ → Type 0
Extends none full = Unit
Extends (some old) full = (left : List ℕ) × (strip old full ≡ some left)

pub Extends-nil : (o : Option (List ℕ)) → Extends o [] → IsDone o
Extends-nil none x = tt
Extends-nil (some []) x = tt
Extends-nil (some (y ∷ s)) x = cc (x.1)

-- below a node, and beside it
strip-strip :
    (p old full left r o : List ℕ)
    → strip p full ≡ some left
    → strip old full ≡ some r
    → strip p old ≡ some o
    → strip o left ≡ some r
strip-strip [] old full left r o hp ho h = ground arith
strip-strip (x ∷ p) [] full left r o hp ho h = cc
strip-strip (x ∷ p) (y ∷ old) [] left r o hp ho h = cc
strip-strip (x ∷ p) (y ∷ old) (z ∷ full) left r o hp ho h =
    ground (arith, strip-strip p old full left r o)

pub Extends-after :
    (p full left : List ℕ) (o : Option (List ℕ))
    → strip p full ≡ some left
    → Extends o full
    → Extends (after p o) left
Extends-after p full left none hp x = tt
Extends-after p full left (some old) hp x = elim (Option-cases (strip p old)) [
  | inl e ↦ rw e tt
  | inr (o, e) ↦ rw e (x.0, strip-strip p old full left x.0 o hp x.1 e)
]

pub Extends-unless :
    (k : ℕ) (full : List ℕ) (o : Option (List ℕ)) → Extends o full → Extends (unless k o) full
Extends-unless k full none x = tt
Extends-unless k full (some []) x = x
Extends-unless k full (some (y ∷ s)) x = elim (Bool-cases (y == k)) [
  | inl e ↦ rw e tt
  | inr e ↦ rw e x
]

-- Under the key of the tokens no branch that they extend goes elsewhere.
pub unless-Extends :
    (k t : ℕ) (ts : List ℕ) (o : Option (List ℕ))
    → (k == t) ≡ true
    → Extends o (t ∷ ts)
    → IsDone (unless k o)
unless-Extends k t ts none e x = tt
unless-Extends k t ts (some []) e x = tt
unless-Extends k t ts (some (y ∷ s)) e x = elim (Bool-cases (y == k)) [
  | inl same_key ↦ rw same_key tt
  | inr other ↦ let starts = x.1 in absurd (ground arith)
]

pub after-Extends :
    (k t : ℕ) (tail p ts : List ℕ) (o : Option (List ℕ))
    → p ≡ k ∷ tail
    → (k == t) ≡ false
    → Extends o (t ∷ ts)
    → after p o ≡ none
after-Extends k t tail p ts none b e x = refl
after-Extends k t tail p ts (some []) b e x = rw b
after-Extends k t tail p ts (some (y ∷ s)) b e x = let starts = x.1 in rw b (ground arith)

pub attach_pass :
    (now k t m : ℕ) (id : String) (ts : List ℕ) (n : Node) (sub rest : Children)
    → (k == t) ≡ false
    → attach now id m (t ∷ ts) (entry k n sub rest) ≡ entry k n sub (attach now id m (t ∷ ts) rest)
unfolding attach
attach_pass now k t zero id ts n sub rest e = rw (e, put)
attach_pass now k t (suc m) id ts n sub rest e = rw (e, attach)

pub grown_pass :
    (now k t m : ℕ) (id : String) (ts : List ℕ) (n : Node) (sub rest : Children)
    → (k == t) ≡ false
    → grown now id m (t ∷ ts) (entry k n sub rest) ≡ entry k n sub (grown now id m (t ∷ ts) rest)
grown_pass now k t m id ts n sub rest e = elim (Bool-cases (ltb m (suc (length ts)))) [
  | inl more ↦ rw more (attach_pass now k t m id ts n sub rest e)
  | inr all ↦ rw all
]

pub attach_hit :
    (now k t m p : ℕ) (id : String) (ts left : List ℕ) (n : Node) (sub rest : Children)
    → (k == t) ≡ true
    → strip n.tokens (t ∷ ts) ≡ some left
    → length n.tokens ≡ suc p
    → attach now id (length n.tokens + m) (t ∷ ts) (entry k n sub rest)
      ≡ entry k n (attach now id m left sub) rest
unfolding attach
attach_hit now k t m p id ts left n sub rest e hit size =
    let d : length n.tokens + m ≡ suc (p + m) = omega arith in
    let back : suc (p + m) - length n.tokens ≡ m = omega arith in
    rw d (rw (e, attach) (rw hit (rw back)))

pub grown_hit :
    (now k t m p : ℕ) (id : String) (ts left : List ℕ) (n : Node) (sub rest : Children)
    → (k == t) ≡ true
    → strip n.tokens (t ∷ ts) ≡ some left
    → length n.tokens ≡ suc p
    → grown now id (length n.tokens + m) (t ∷ ts) (entry k n sub rest)
      ≡ entry k n (grown now id m left sub) rest
grown_hit now k t m p id ts left n sub rest e hit size =
    let l = length-strip n.tokens (t ∷ ts) left hit in
    elim (Bool-cases (ltb m (length left))) [
      | inl more ↦
          let here : ltb (length n.tokens + m) (length (t ∷ ts)) ≡ true = ground arith in
          rw (more, here) (attach_hit now k t m p id ts left n sub rest e hit size)
      | inr all ↦
          let here : ltb (length n.tokens + m) (length (t ∷ ts)) ≡ false = ground arith in
          rw (all, here)
    ]
