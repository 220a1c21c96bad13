-- ===== src/Kv/Radix/Holds/Extend.antt =====
-- `extend` on one tree: what `_walk` leaves is cut at the tokens, and the branch comes to hold them.
use agentfork.Base.{
  ℕ, suc, String, ◌≡◌, refl, sym, ◌∙◌, ap, inl, inr, true, none, some, List, [], ◌∷◌, arith, ltb,
  length, strip, is_some, same, same_refl, strip_self, Bool-cases,
}
use agentfork.Base.Dict.{mem}
use agentfork.Kv.Radix.{Node, Children, nil, entry, hold, bump, put, new_node, attach}
use agentfork.Kv.Radix.Holds.{
  Held, through, others, IsDone, IsWhole, Fits, Holds, update, update_same, through-update,
  others-update,
}
use agentfork.Kv.Radix.Holds.Update.{
  Fits-quiet, Fits-hold, Holds-quiet, after-IsDone, unless-IsDone, IsWhole-IsDone,
}
use agentfork.Kv.Radix.Holds.Fork.{
  bump_hit, bump_pass, after_other, IsWhole-other, unless_key, unless_other,
}
use agentfork.Kv.Radix.Holds.Grow.{
  Cut, at_end, off_tree, in_node, past_node, grown, Extends, Extends-nil, Extends-after,
  Extends-unless, unless-Extends, after-Extends, grown_pass, grown_hit,
}

module _ (now : ℕ) (id : String) where
  IsWhole-key :
      (k t : ℕ) (p ts left : List ℕ) → strip p (t ∷ ts) ≡ some left → IsWhole k p (some (t ∷ ts))
  IsWhole-key k t p ts left e = λ key. ap is_some e

  hold_new : (tokens : List ℕ) → hold id (new_node now id tokens) ≡ new_node now id tokens
  unfolding mem
  hold_new tokens = rw (same_refl id)

  pub hold_tokens : (n : Node) → (hold id n).tokens ≡ n.tokens
  hold_tokens n = elim (Bool-cases (mem id n.owners)) [ inl e ↦ rw e | inr e ↦ rw e ]

  new_node-Fits :
      (t : ℕ) (ts : List ℕ) (held : Held)
      → ((j : String) → IsDone (held j))
      → Fits (update id (some (t ∷ ts)) held) t (new_node now id (t ∷ ts))
  unfolding mem
  new_node-Fits t ts held h = record {
    tail = ts;
    begins = refl;
    whole = λ j. elim (Bool-cases (same id j)) [
      | inl e ↦ rw e (IsWhole-key t t (t ∷ ts) ts [] (strip_self (t ∷ ts)))
      | inr e ↦ rw e (IsWhole-IsDone t (t ∷ ts) (held j) (h j))
    ];
    owned = λ j. elim (Bool-cases (same id j)) [
      | inl e ↦ rw e (sym (ap is_some (strip_self (t ∷ ts))))
      | inr e ↦ rw e (sym (ap is_some (after-IsDone t ts (t ∷ ts) (held j) refl (h j))))
    ];
    distinct = (refl, tt);
    counted = refl;
    used = omega arith;
  }

  -- the tree under a missing key
  grow_off :
      (t : ℕ) (ts : List ℕ) (held : Held)
      → ((j : String) → IsDone (held j))
      → Holds
          (update id (some (t ∷ ts)) held)
          (bump (hold id) (t ∷ ts) (entry t (new_node now id (t ∷ ts)) nil nil)).0
  unfolding bump
  grow_off t ts held h =
      rw
        (
          bump_hit (hold id) t t ts (new_node now id (t ∷ ts)) nil nil [] (ground arith)
              (strip_self (t ∷ ts)),
          hold_new (t ∷ ts),
        )
        (
          new_node-Fits t ts held h,
          λ j. elim (Bool-cases (same id j)) [
            | inl e ↦ rw (e, strip_self (t ∷ ts)) tt
            | inr e ↦ rw (e, after-IsDone t ts (t ∷ ts) (held j) refl (h j)) tt
          ],
          λ j. elim (Bool-cases (same id j)) [
            | inl e ↦ rw (e, unless_key t t ts (ground arith)) tt
            | inr e ↦ rw e (unless-IsDone t (held j) (h j))
          ],
        )

  -- The branch comes to hold the tokens, and all others hold what they did.
  pub grow-Holds :
      {full : List ℕ} {kids : Children} {m : ℕ}
      → Cut full kids m
      → (held : Held) → Holds held kids
      → Extends (held id) full
      → Holds (update id (some full) held) (bump (hold id) full (grown now id m full kids)).0
  unfolding bump attach put
  grow-Holds (at_end {kids}) held h x =
      Holds-quiet id (some []) held kids (Extends-nil (held id) x) tt h
  grow-Holds (off_tree {t} {ts}) held h x =
      let more : ltb 0 (length (t ∷ ts)) ≡ true = ground arith in rw more (grow_off t ts held h)
  grow-Holds (in_node {k} {t} {m} {d} {ts} {left} {n} {sub} {rest} key hit c e) held (fits, hs, hr)
        x =
      let hs' =
        grow-Holds c (through n.tokens held) hs
          (Extends-after n.tokens (t ∷ ts) left (held id) hit x) in
      let size : length n.tokens ≡ suc (length fits.tail) = ap length fits.begins in
      rw
        (
          e,
          grown_hit now k t m (length fits.tail) id ts left n sub rest key hit size,
          bump_hit (hold id) k t ts n (grown now id m left sub) rest left key hit,
        )
        (
          Fits-hold id (some (t ∷ ts)) k n held fits (IsWhole-key k t n.tokens ts left hit)
              (ap is_some hit),
          rw (hold_tokens n, through-update n.tokens id (some (t ∷ ts)) held, hit) hs',
          rw (others-update k id (some (t ∷ ts)) held, unless_key k t ts key)
              (Holds-quiet id none (others k held) rest (unless-Extends k t ts (held id) key x) tt
                hr),
        )
  grow-Holds (past_node {k} {t} {m} {ts} {n} {sub} {rest} other c) held (fits, hs, hr) x =
      let gone = after_other k t fits.tail n.tokens ts fits.begins other in
      let absent = after-Extends k t fits.tail n.tokens ts (held id) fits.begins other x in
      rw
        (
          grown_pass now k t m id ts n sub rest other,
          bump_pass (hold id) k t ts n sub (grown now id m (t ∷ ts) rest) other,
        )
        (
          Fits-quiet id (some (t ∷ ts)) k n held fits (IsWhole-other k t n.tokens ts other)
              (ap is_some (gone ∙ sym absent)),
          rw
              (
                through-update n.tokens id (some (t ∷ ts)) held,
                gone,
                ← absent,
                update_same id (through n.tokens held),
              )
              hs,
          rw (others-update k id (some (t ∷ ts)) held, unless_other k t ts other)
              (grow-Holds c (others k held) hr (Extends-unless k (t ∷ ts) (held id) x)),
        )
