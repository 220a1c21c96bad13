-- ===== src/Harness/Lineage.antt =====
-- What `_commit` of agentfork/harness/agent.py charges, and shared predicates
pub mod Children
pub mod Best
pub mod Decided
use agentfork.Base.{
  ℕ, zero, suc, ◌+◌, ◌<◌, ◌≡◌, refl, sym, ◌∙◌, ap, subst, String, Bool, true, false, Option, none,
  some, List, [], ◌∷◌, ◌++◌, ◌&&◌, length, drop, ltb, strip, is_some, append-strip, length-append,
  Option-cases, inl, inr, arith, same_refl,
}
use agentfork.Base.Dict.{lookup, insert, lookup-insert}
use agentfork.Harness.{
  Prefix, text, tokens, Answer, gave, raised, continued, Host, TreeAgent, strictly_extends,
  is_longer, set_prefix, of_orch, commit,
}

-- All values of the list are so.
abbrev pub Each : {A : Type 0} → (A → Type 0) → List A → Type 0
Each P [] = Unit
Each P (x ∷ xs) = P x × Each P xs

drop-append : (p s : List ℕ) → drop (length p) (p ++ s) ≡ s
drop-append [] s = refl
drop-append (x ∷ p) s = drop-append p s

-- What a longer list has behind its prefix
longer_parts :
    (base ts : List ℕ)
    → is_longer base ts ≡ true
    → (base ++ drop (length base) ts ≡ ts) × (0 < length (drop (length base) ts))
longer_parts base ts h = elim (Option-cases (strip base ts)) [
  | inl e ↦ absurd (ground (arith, e, h))
  | inr (s, e) ↦
      let parts : ts ≡ base ++ s = append-strip base ts s e in
      let rest : drop (length base) ts ≡ s = ap (drop (length base)) parts ∙ drop-append base s in
      let more : length base < length ts = ground (arith, h) in
      (rw rest (sym parts), rw rest (omega (arith, more, ap length parts, length-append base s)))
]

module _ {O Params : Type 0} (host : Host O Params) where
  -- The reply and the orchestrator are those of the call, and the prefix is the new one if it returned.
  abbrev pub Charges :
      String → List ℕ → List ℕ → Answer Unit × O → Answer Unit × TreeAgent O → Type 0
  Charges id base ts (gave u, o) r =
      (r.0 ≡ gave tt) × (r.1.orch ≡ o) × (lookup id r.1.prefix ≡ some (tokens ts))
  Charges id base ts (raised e, o) r =
      (r.0 ≡ raised e) × (r.1.orch ≡ o) × (lookup id r.1.prefix ≡ some (tokens base))

  charged-Charges :
      (id : String) (base ts : List ℕ) (a : TreeAgent O) (x : Answer Unit × O)
      → lookup id a.prefix ≡ some (tokens base)
      → Charges id base ts x
          (continued (of_orch host x a) (λ u b. (gave tt, set_prefix host id (tokens ts) b)))
  charged-Charges id base ts a (gave u, o) h =
      (refl, refl, ground (arith, lookup-insert id id (tokens ts) a.prefix, same_refl id))
  charged-Charges id base ts a (raised e, o) h = (refl, refl, h)

  -- Where a branch is committed to token ids and the target strictly extends them, `_commit` on
  -- the path of token ids charges the branch once, for exactly the token ids of the target that
  -- are behind the committed ones, which are not none; where the charge returns, the branch is
  -- committed to the target, and where it raises, `_commit` raises the same and the branch stays
  -- committed to what it was.
  pub commit-Charges :
      (id : String) (base ts : List ℕ) (params : Params) (a : TreeAgent O)
      → lookup id a.prefix ≡ some (tokens base)
      → strictly_extends (tokens base) (tokens ts) ≡ true
      → (suffix : List ℕ) × (base ++ suffix ≡ ts)
        × (0 < length suffix)
        × Charges id base ts
            (host.extend id suffix a.orch)
            (commit host false id (tokens ts) params a)
  commit-Charges id base ts params a h longer =
      let parts = longer_parts base ts longer in
      let suffix = drop (length base) ts in
      (
        suffix,
        parts.0,
        parts.1,
        rw h (charged-Charges id base ts a (host.extend id suffix a.orch) h),
      )
