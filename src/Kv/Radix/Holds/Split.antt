-- ===== src/Kv/Radix/Holds/Split.antt =====
-- `_split` keeps what the tree holds.
use agentfork.Base.{
  first, ℕ, zero, suc, ◌-◌, ◌≤◌, ◌<◌, String, ◌≡◌, refl, sym, ◌∙◌, ap, fun_ext, inl, inr, true,
  Option, none, some, List, [], ◌∷◌, arith, ◌==◌, length, take, drop, strip, is_some, after,
  strip-append, take-append-drop, length-drop, length-take_of_le, Bool-cases,
}
use agentfork.Kv.Radix.{Node, Children, entry, head_of, tail_of, split, total}
use agentfork.Kv.Radix.Holds.{Held, unless, through, others, IsDone, IsWhole, Fits, Holds}

-- The tokens of a node, in two parts.
after-after :
    (at : ℕ) (p : List ℕ) (o : Option (List ℕ))
    → after (drop at p) (after (take at p) o) ≡ after p o
after-after at p none = refl
after-after at p (some s) =
    sym (strip-append (take at p) (drop at p) s) ∙ ap (λ q. strip q s) (take-append-drop at p)

through-through :
    (at : ℕ) (p : List ℕ) (held : Held)
    → through (drop at p) (through (take at p) held) ≡ through p held
through-through at p held = fun_ext λ id. after-after at p (held id)

is_some-after : (p : List ℕ) (o : Option (List ℕ)) → is_some (after p o) ≡ true → is_some o ≡ true
is_some-after p none h = h
is_some-after p (some s) h = refl

-- A branch that passes through a node has its head, and one that has its head passes through it.
after-take_some :
    (at k : ℕ) (tail p : List ℕ) (o : Option (List ℕ))
    → p ≡ k ∷ tail
    → 0 < at
    → IsWhole k p o
    → is_some (after (take at p) o) ≡ is_some (after p o)
after-take_some zero k tail p o b h w = absurd (omega arith)
after-take_some (suc at) k tail p none b h w = refl
after-take_some (suc at) k tail p (some []) b h w = rw (b) refl
after-take_some (suc at) k tail p (some (x ∷ s)) b h w = elim (Bool-cases (k == x)) [
  | inl e ↦
      let whole : is_some (after p (some (x ∷ s))) ≡ true = w (ground arith) in
      is_some-after (drop (suc at) p) (after (take (suc at) p) (some (x ∷ s)))
        (rw (after-after (suc at) p (some (x ∷ s))) whole)
      ∙ sym whole
  | inr e ↦ rw (b, e) refl
]

take_begins :
    (at k : ℕ) (tail p : List ℕ) → p ≡ k ∷ tail → 0 < at → take at p ≡ k ∷ take (at - 1) tail
take_begins zero k tail p b h = absurd (omega arith)
take_begins (suc at) k tail p b h = rw (b) (ground arith)

first-drop :
    (at : ℕ) (p : List ℕ) → at < length p → (tail : List ℕ) × (drop at p ≡ first (drop at p) ∷ tail)
first-drop at [] h = absurd (omega arith)
first-drop zero (x ∷ p) h = (p, refl)
first-drop (suc at) (x ∷ p) h = first-drop at p (omega arith)

IsWhole-of :
    (k : ℕ) (q : List ℕ) (o : Option (List ℕ))
    → (is_some o ≡ true → is_some (after q o) ≡ true)
    → IsWhole k q o
IsWhole-of k q none h = tt
IsWhole-of k q (some []) h = tt
IsWhole-of k q (some (x ∷ s)) h = λ e. h refl

IsWhole-take :
    (at k : ℕ) (tail p : List ℕ) (o : Option (List ℕ))
    → p ≡ k ∷ tail
    → 0 < at
    → IsWhole k p o
    → IsWhole k (take at p) o
IsWhole-take at k tail p none b h w = tt
IsWhole-take at k tail p (some []) b h w = tt
IsWhole-take at k tail p (some (x ∷ s)) b h w =
    λ e. after-take_some at k tail p (some (x ∷ s)) b h w ∙ w e

-- Where every branch goes on through `q`, none is left beside it.
IsDone-unless :
    (k : ℕ) (tail q : List ℕ) (o : Option (List ℕ))
    → q ≡ k ∷ tail
    → (is_some o ≡ true → is_some (after q o) ≡ true)
    → IsDone (unless k o)
IsDone-unless k tail q none b h = tt
IsDone-unless k tail q (some []) b h = tt
IsDone-unless k tail q (some (x ∷ s)) b h = elim (Bool-cases (x == k)) [
  | inl e ↦ rw e tt
  | inr e ↦ ground (arith, h refl)
]

module _ (now at k : ℕ) (n : Node) (held : Held) (fits : Fits held k n)
    (some_left : at < length n.tokens) (positive : 0 < at) where
  passes :
      (id : String)
      → is_some (through (take at n.tokens) held id) ≡ is_some (through n.tokens held id)
  passes id = after-take_some at k fits.tail n.tokens (held id) fits.begins positive (fits.whole id)

  -- who has the head goes on through the tail
  goes_on :
      (id : String)
      → is_some (through (take at n.tokens) held id) ≡ true
      → is_some (through (drop at n.tokens) (through (take at n.tokens) held) id) ≡ true
  goes_on id h = rw (after-after at n.tokens (held id)) (sym (passes id) ∙ h)

  head_of-Fits : Fits held k (head_of now at n)
  head_of-Fits = record {
    tail = take (at - 1) fits.tail;
    begins = take_begins at k fits.tail n.tokens fits.begins positive;
    whole =
        λ id. IsWhole-take at k fits.tail n.tokens (held id) fits.begins positive (fits.whole id);
    owned = λ id. fits.owned id ∙ sym (passes id);
    distinct = fits.distinct;
    counted = fits.counted;
    used = fits.used;
  }

  tail_of-Fits : Fits (through (take at n.tokens) held) (first (drop at n.tokens)) (tail_of at n)
  tail_of-Fits =
      let (rest, begins) = first-drop at n.tokens some_left in
      record {
        tail = rest;
        begins = begins;
        whole = λ id. IsWhole-of _ _ (through (take at n.tokens) held id) (goes_on id);
        owned = λ id. fits.owned id ∙ ap is_some (sym (after-after at n.tokens (held id)));
        distinct = fits.distinct;
        counted = fits.counted;
        used = fits.used;
      }

  -- A split keeps what the tree holds.
  pub split-Holds :
      (sub rest : Children)
      → Holds (through n.tokens held) sub
      → Holds (others k held) rest
      → Holds held (split now at k n sub rest)
  split-Holds sub rest hs hr =
      let (tail, begins) = first-drop at n.tokens some_left in
      (
        head_of-Fits,
        (
          tail_of-Fits,
          rw (through-through at n.tokens held) hs,
          λ id.
              IsDone-unless _ tail (drop at n.tokens) (through (take at n.tokens) held id) begins
                (goes_on id),
        ),
        hr,
      )

-- A split moves tokens and adds none.
pub total-split :
    (now at k : ℕ) (n : Node) (sub rest : Children)
    → at ≤ length n.tokens
    → total (split now at k n sub rest) ≡ total (entry k n sub rest)
unfolding total
total-split now at k n sub rest h =
    omega (arith, length-drop at n.tokens, length-take_of_le at n.tokens h)
