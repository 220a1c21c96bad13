-- ===== src/Kv/Radix/Holds/Kill.antt =====
-- The loops of `kill`: the tree comes to hold what it held without the branch.
use agentfork.Base.{
  ℕ, zero, suc, ◌+◌, ◌<◌, String, ◌≡◌, refl, sym, ◌∙◌, ap, subst, fun_ext, ◌⊎◌, inl, inr, true,
  false, Option, none, some, List, [], ◌∷◌, arith, ◌==◌, length, strip, is_some, after, same,
  Option-cases, Bool-cases,
}
use agentfork.Base.Dict.{mem, discard, mem-discard, discard-IsDistinct, length-discard}
use agentfork.Base.Int.{pos}
use agentfork.Kv.Radix.{Node, Children, nil, entry, release, kill_path, total}
use agentfork.Kv.Radix.Holds.{
  Held, unless, through, others, IsDone, IsWhole, Fits, Holds, Holds_done, update, update_same,
  through-update, others-update,
}
use agentfork.Kv.Radix.Holds.Update.{Fits-update, Fits-quiet, Holds-quiet}
use agentfork.Kv.Radix.Holds.Fork.{after_other, unless_key, unless_other}

module _ (id : String) (k t : ℕ) (ts : List ℕ) (n : Node) (sub rest : Children) where
  pub kill_hit :
      (left : List ℕ)
      → (k == t) ≡ true
      → strip n.tokens (t ∷ ts) ≡ some left
      → kill_path id (t ∷ ts) (entry k n sub rest) ≡ release id k n (kill_path id left sub) rest
  unfolding kill_path
  kill_hit left e hit = ground arith

  pub kill_pass :
      (k == t) ≡ false
      → kill_path id (t ∷ ts) (entry k n sub rest)
        ≡ (entry k n sub (kill_path id (t ∷ ts) rest).0, (kill_path id (t ∷ ts) rest).1)
  unfolding kill_path
  kill_pass e = rw (e, kill_path)

-- With an owner left the node stays.
release_more :
    (id : String) (k : ℕ) (n : Node) (sub rest : Children) (freed owners : ℕ)
    → n.ref ≡ pos (suc owners)
    → 0 < owners
    → release id k n (sub, freed) rest
      ≡ (entry k (record n { ref = pos owners; owners = discard id n.owners }) sub rest, freed)
unfolding release
release_more id k n sub rest freed zero e h = absurd (omega arith)
release_more id k n sub rest freed (suc owners) e h = rw e refl

-- Without its last owner no branch passes a node.
IsDone-of_none : (o : Option (List ℕ)) → is_some o ≡ false → IsDone o
IsDone-of_none none e = tt
IsDone-of_none (some s) e = absurd (cc e)

unless_gone :
    (k : ℕ) (p : List ℕ) (o : Option (List ℕ))
    → IsWhole k p o
    → is_some (after p o) ≡ false
    → unless k o ≡ o
unless_gone k p none w e = refl
unless_gone k p (some []) w e = refl
unless_gone k p (some (x ∷ s)) w e = elim (Bool-cases (x == k)) [
  | inl key ↦ absurd (cc (w (ground arith), e))
  | inr other ↦ rw (other) refl
]

empty_mem : (s : List String) → length s ≡ 0 → (j : String) → mem j s ≡ false
unfolding mem
empty_mem [] e j = refl
empty_mem (k ∷ s) e j = absurd (omega arith)

module _ (id : String) (k : ℕ) (n : Node) (held : Held) (fits : Fits held k n)
    (passes : is_some (through n.tokens held id) ≡ true) where
  -- the owners that stay are the branches that still pass
  stay :
      (j : String)
      → mem j (discard id n.owners) ≡ is_some (through n.tokens (update id none held) j)
  stay j = elim (Bool-cases (same id j)) [
    | inl e ↦ rw (mem-discard id j n.owners, e) refl
    | inr e ↦ rw (mem-discard id j n.owners, e) (fits.owned j)
  ]

  one_less : length n.owners ≡ suc (length (discard id n.owners))
  one_less = ground (arith, length-discard id n.owners fits.distinct, fits.owned id, passes)

  -- After the loop has gone through the node's children, the node goes if nobody is left.
  pub release-Holds :
      (sub' rest : Children) (freed : ℕ)
      → Holds (update id none (through n.tokens held)) sub'
      → Holds (others k held) rest
      → others k (update id none held) ≡ others k held
      → Holds (update id none held) (release id k n (sub', freed) rest).0
  unfolding release
  release-Holds sub' rest freed hs hr beside = elim (zero_or_more (length (discard id n.owners))) [
    | inl z ↦
        let gone : (j : String) → is_some (through n.tokens (update id none held) j) ≡ false =
          λ j. sym (stay j) ∙ empty_mem (discard id n.owners) z j in
        let leaf : sub' ≡ nil =
          Holds_done (update id none (through n.tokens held)) sub'
            (λ j. IsDone-of_none _ (
              ap (λ (h : Held). is_some (h j)) (sym (through-update n.tokens id none held))
              ∙ gone j))
            hs in
        let still : others k (update id none held) ≡ update id none held =
          fun_ext λ j. unless_gone k n.tokens (update id none held j) (whole j) (gone j) in
        rw (fits.counted, one_less, z, leaf) (rw (← still, beside) hr)
    | inr more ↦ rw (release_more id k n sub' rest freed _ (fits.counted ∙ ap pos one_less) more) (
      Fits-update id none k n held fits (pos (length (discard id n.owners))) (discard id n.owners)
          refl more (discard-IsDistinct id n.owners fits.distinct) tt
          (λ j. mem-discard id j n.owners),
      rw (through-update n.tokens id none held) hs,
      rw beside hr,
    )
  ]
    where
      whole : (j : String) → IsWhole k n.tokens (update id none held j)
      whole j = elim (Bool-cases (same id j)) [ inl e ↦ rw e tt | inr e ↦ rw e (fits.whole j) ]

      zero_or_more : (m : ℕ) → (m ≡ 0) ⊎ (0 < m)
      zero_or_more m = omega arith

-- The branch's path is given up, and nothing else.
pub kill-Holds :
    (id : String) (s : List ℕ) (kids : Children) (held : Held)
    → Holds held kids
    → held id ≡ some s
    → Holds (update id none held) (kill_path id s kids).0
unfolding kill_path
kill-Holds id [] kids held h e = Holds-quiet id none held kids (rw e tt) tt h
kill-Holds id (t ∷ ts) nil held h e = absurd (subst IsDone e (h id))
kill-Holds id (t ∷ ts) (entry k n sub rest) held (fits, hs, hr) e =
    let w : IsWhole k n.tokens (some (t ∷ ts)) = subst (IsWhole k n.tokens) e (fits.whole id) in
    elim (Bool-cases (k == t)) [
      | inl key ↦ elim (Option-cases (strip n.tokens (t ∷ ts))) [
        | inl miss ↦ absurd (cc (w (ground arith), ap is_some miss))
        | inr (left, hit) ↦ rw (kill_hit id k t ts n sub rest left key hit) (
            release-Holds id k n held fits (ap (λ o. is_some (after n.tokens o)) e ∙ ap is_some hit)
              (kill_path id left sub).0 rest (kill_path id left sub).1
              (kill-Holds id left sub (through n.tokens held) hs (ap (after n.tokens) e ∙ hit)) hr
              (rw (others-update k id none held, ← unless_key k t ts key, ← ap (unless k) e)
                (update_same id (others k held))))
      ]
      | inr other ↦
          let gone =
            ap (after n.tokens) e ∙ after_other k t fits.tail n.tokens ts fits.begins other in
          rw (kill_pass id k t ts n sub rest other) (
            Fits-quiet id none k n held fits tt (ap is_some (sym gone)),
            rw
                (
                  through-update n.tokens id none held,
                  ← gone,
                  update_same id (through n.tokens held),
                )
                hs,
            rw (others-update k id none held) (
                kill-Holds id (t ∷ ts) rest (others k held) hr
                  (ap (unless k) e ∙ unless_other k t ts other)),
          )
    ]

total-release :
    (id : String) (k : ℕ) (n : Node) (sub rest : Children) (freed : ℕ)
    → total (release id k n (sub, freed) rest).0 + (release id k n (sub, freed) rest).1
      ≡ length n.tokens + total sub + freed + total rest
unfolding release total
total-release id k n nil rest freed = ground arith
total-release id k n (entry k' n' sub' rest') rest freed = ground arith

-- The tokens that are reported as freed are the tokens that are gone.
pub total-kill :
    (id : String) (s : List ℕ) (kids : Children)
    → total (kill_path id s kids).0 + (kill_path id s kids).1 ≡ total kids
unfolding kill_path total
total-kill id [] kids = omega arith
total-kill id (t ∷ ts) nil = omega arith
total-kill id (t ∷ ts) (entry k n sub rest) = elim (Bool-cases (k == t)) [
  | inl key ↦ elim (Option-cases (strip n.tokens (t ∷ ts))) [
    | inl miss ↦ ground arith
    | inr (left, hit) ↦ rw (kill_hit id k t ts n sub rest left key hit) (
        omega (
          arith,
          total-kill id left sub,
          total-release id k n (kill_path id left sub).0 rest (kill_path id left sub).1,
        ))
  ]
  | inr other ↦
      rw (kill_pass id k t ts n sub rest other) (omega (arith, total-kill id (t ∷ ts) rest))
]
