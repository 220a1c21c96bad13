-- ===== src/Kv/Radix/Holds/Total.antt =====
-- `_walk` leaves the tree cut at the tokens, and `extend` adds what was not matched.
use agentfork.Base.{
  ℕ, ◌+◌, ◌≤◌, String, ◌≡◌, refl, ap, inl, inr, true, false, none, List, [], ◌∷◌, arith, ◌==◌, ltb,
  length, drop, strip, common, first, length-strip, length-take_of_le, strip-take-common,
  common_parts, Option-cases, Bool-cases, common-lt,
}
use agentfork.Kv.Radix.{Node, Children, nil, entry, walk, put, attach, total, tail_of}
use agentfork.Kv.Radix.Holds.{Held, through, others, Holds}
use agentfork.Kv.Radix.Holds.Walk.{walk_hit, walk-split, walk_pass}
use agentfork.Kv.Radix.Holds.Grow.{
  Cut, at_end, off_tree, in_node, past_node, grown, grown_pass, grown_hit,
}

-- below the head of a split node
tail-Cut :
    (at : ℕ) (n : Node) (sub : Children) (p s : List ℕ)
    → strip p s ≡ none
    → n.tokens ≡ drop (common p s) p
    → Cut (drop (common p s) s) (entry (first n.tokens) n sub nil) 0
tail-Cut at n sub p s miss e = go (drop (common p s) s) refl
  where
    go :
        (left : List ℕ) → drop (common p s) s ≡ left → Cut left (entry (first n.tokens) n sub nil) 0
    go [] d = at_end
    go (y ∷ ys) d = past_node (rw e (common_parts p s y ys miss d)) off_tree

common_key :
    (k t : ℕ) (tail p ts : List ℕ)
    → p ≡ k ∷ tail
    → (k == t) ≡ true
    → (common p (t ∷ ts) == 0) ≡ false
common_key k t tail p ts b key = rw (b, key) (ground arith)

pub walk-Cut :
    (now : ℕ) (tokens : List ℕ) (kids : Children) (held : Held)
    → Holds held kids
    → Cut tokens (walk now tokens kids).0 (walk now tokens kids).1
unfolding walk
walk-Cut now [] kids held h = at_end
walk-Cut now (t ∷ ts) nil held h = off_tree
walk-Cut now (t ∷ ts) (entry k n sub rest) held (fits, hs, hr) = elim (Bool-cases (k == t)) [
  | inl key ↦ elim (Option-cases (strip n.tokens (t ∷ ts))) [
    | inl miss ↦ elim (Bool-cases (common n.tokens (t ∷ ts) == 0)) [
      | inl z ↦ absurd (cc (common_key k t fits.tail n.tokens ts fits.begins key, z))
      | inr z ↦ rw (walk-split now k t ts n sub rest key miss z) (
          in_node key (strip-take-common n.tokens (t ∷ ts))
            (tail-Cut 0 (tail_of (common n.tokens (t ∷ ts)) n) sub n.tokens (t ∷ ts) miss refl)
            (omega (
              arith,
              length-take_of_le (common n.tokens (t ∷ ts)) n.tokens,
              common-lt n.tokens (t ∷ ts) miss,
            )))
    ]
    | inr (left, e) ↦
        rw (walk_hit now k t ts n sub rest left key e)
          (in_node key e (walk-Cut now left sub _ hs) refl)
  ]
  | inr other ↦
      rw (walk_pass now k t ts n sub rest other) (past_node other (walk-Cut now (t ∷ ts) rest _ hr))
]

-- The new node brings the tokens that were not matched.
pub total-grown :
    (now : ℕ) (id : String) {full : List ℕ} {kids : Children} {m : ℕ}
    → Cut full kids m
    → (held : Held) → Holds held kids
    → total (grown now id m full kids) + m ≡ total kids + length full
unfolding total attach put
total-grown now id at_end held h = refl
total-grown now id (off_tree {t} {ts}) held h =
    let more : ltb 0 (length (t ∷ ts)) ≡ true = ground arith in rw more (omega arith)
total-grown now id (in_node {k} {t} {m} {d} {ts} {left} {n} {sub} {rest} key e c size) held
      (fits, hs, hr) =
    let ih = total-grown now id c (through n.tokens held) hs in
    let l = length-strip n.tokens (t ∷ ts) left e in
    rw
      (
        size,
        grown_hit now k t m (length fits.tail) id ts left n sub rest key e (ap length fits.begins),
      )
      (omega arith)
total-grown now id (past_node {k} {t} {m} {ts} {n} {sub} {rest} other c) held (fits, hs, hr) =
    let ih = total-grown now id c (others k held) hr in
    rw (grown_pass now k t m id ts n sub rest other) (omega arith)

pub Cut-le : {full : List ℕ} {kids : Children} {m : ℕ} → Cut full kids m → m ≤ length full
Cut-le at_end = omega arith
Cut-le off_tree = omega arith
Cut-le (in_node {t} {ts} {left} {n} key e c size) =
    omega (arith, Cut-le c, length-strip n.tokens (t ∷ ts) left e)
Cut-le (past_node other c) = Cut-le c
