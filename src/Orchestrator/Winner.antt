-- ===== src/Orchestrator/Winner.antt =====
-- `ForkOrchestrator.kill_losers` (agentfork/orchestrator.py), the winner and its ancestors
use agentfork.Base.{
  ℕ, zero, suc, ◌+◌, ◌≤◌, ◌<◌, String, ◌≡◌, refl, ◌∙◌, ap, subst, ◌⊎◌, inl, inr, Bool, true, false,
  Option, none, some, List, [], ◌∷◌, arith, length, Bool-cases, Option-cases, is_some,
  if◌then◌else◌, same, same→eq, same_refl,
}
use agentfork.Base.Dict.{Dict, lookup, contains, mem, add, mem-add}
use agentfork.Orchestrator.{Branch, KillReceipt, System, Reply, done, failed, Failure}
use agentfork.Orchestrator.Backends.{Backends}
use agentfork.Orchestrator.Kill.{kill_branch}
use agentfork.Orchestrator.Collect.{kill_all, is_in_flight}
use agentfork.Orchestrator.Losers.{
  parent_of, looked, keep_from, kept, losers, look, killed_again, settle, settle_all,
  guarded_losers, kill_losers, is_reaped, first_sweep, Swept,
}
use agentfork.Orchestrator.Frame.{Leaves, kill_branch-Leaves}

-- `a` is `w` or an ancestor of it, by the records' `parent_id`.
pub data IsAbove (d : Dict Branch) (w : String) : String → Type 0 where
  here : IsAbove d w w
  up : {c : String} (p : String) → IsAbove d w c → parent_of (lookup c d) ≡ some p → IsAbove d w p

-- The records that are not kept
unfoldable outside : List String → Dict Branch → ℕ
outside keep [] = 0
outside keep ((id, branch) ∷ d) = if mem id keep then outside keep d else outside keep d + 1

outside-add-le :
    (c : String) (keep : List String) (d : Dict Branch) → outside (add c keep) d ≤ outside keep d
unfolding outside
outside-add-le c keep [] = omega arith
outside-add-le c keep ((id, branch) ∷ d) =
    ground (arith, outside-add-le c keep d, mem-add c id keep)

outside-add-lt :
    (c : String) (keep : List String) (d : Dict Branch)
    → is_some (lookup c d) ≡ true
    → mem c keep ≡ false
    → outside (add c keep) d < outside keep d
unfolding outside lookup
outside-add-lt c keep [] e h = cc
outside-add-lt c keep ((id, branch) ∷ d) e h = elim (Bool-cases (same id c)) [
  | inl found ↦
      ground
        (arith, outside-add-le c keep d, mem-add c id keep, same→eq id c, same_refl c, h, found)
  | inr away ↦ ground (arith, outside-add-lt c keep d, mem-add c id keep, h, away, e)
]

outside-le : (keep : List String) (d : Dict Branch) → outside keep d ≤ length d
unfolding outside
outside-le keep [] = omega arith
outside-le keep ((id, branch) ∷ d) = ground (arith, outside-le keep d)

-- What is kept has its parent kept too, but for the one that comes next.
abbrev pub IsClosed : Dict Branch → List String → Option String → Type 0
IsClosed d keep cursor =
    (c p : String)
    → mem c keep ≡ true
    → parent_of (lookup c d) ≡ some p
    → (mem p keep ≡ true) ⊎ (cursor ≡ some p)

IsClosed-add :
    (d : Dict Branch) (keep : List String) (c : String)
    → IsClosed d keep (some c)
    → IsClosed d (add c keep) (parent_of (lookup c d))
IsClosed-add d keep c h x p hx hp = elim (Bool-cases (same c x)) [
  | inl this ↦ inr (ap (λ i. parent_of (lookup i d)) (same→eq c x this) ∙ hp)
  | inr other ↦ elim (h x p (ground (arith, mem-add c x keep, hx, other)) hp) [
    | inl old ↦ inl (ground (arith, mem-add c p keep, old))
    | inr next ↦ inl (ground (arith, mem-add c p keep, same_refl c, next))
  ]
]

keep_from-none : (n : ℕ) (d : Dict Branch) (keep : List String) → keep_from n d none keep ≡ keep
unfolding keep_from
keep_from-none zero d keep = refl
keep_from-none (suc n) d keep = refl

recorded :
    (c q : String) (d : Dict Branch) → parent_of (lookup c d) ≡ some q → is_some (lookup c d) ≡ true
recorded c q d e = elim (Option-cases (lookup c d)) [
  | inl absent ↦ ground (arith, absent, e)
  | inr (p, found) ↦ rw found refl
]

keep_from-IsClosed :
    (n : ℕ) (d : Dict Branch) (c : String) (keep : List String)
    → IsClosed d keep (some c)
    → outside keep d < n
    → IsClosed d (keep_from n d (some c) keep) none
unfolding keep_from
keep_from-IsClosed zero d c keep h fuel = absurd (omega (arith, fuel))
keep_from-IsClosed (suc n) d c keep h fuel = elim (Bool-cases (mem c keep)) [
  | inl old ↦
      rw (old, keep_from)
        (λ x p hx hp. elim (h x p hx hp) [ inl k ↦ inl k | inr e ↦ inl (ground (arith, old, e)) ])
  | inr new ↦
      let h' = IsClosed-add d keep c h in
      elim (Option-cases (parent_of (lookup c d))) [
        | inl top ↦
            rw (new, keep_from)
              (rw (top)
                (rw (keep_from-none n d (add c keep)) (subst (IsClosed d (add c keep)) top h')))
        | inr (q, e) ↦
            rw (new, keep_from)
              (rw (e) (
                keep_from-IsClosed n d q (add c keep) (subst (IsClosed d (add c keep)) e h')
                  (omega (arith, fuel, outside-add-lt c keep d (recorded c q d e) new))))
      ]
]

keep_from-mem :
    (n : ℕ) (d : Dict Branch) (cursor : Option String) (keep : List String) (x : String)
    → mem x keep ≡ true
    → mem x (keep_from n d cursor keep) ≡ true
unfolding keep_from
keep_from-mem zero d cursor keep x h = h
keep_from-mem (suc n) d none keep x h = h
keep_from-mem (suc n) d (some c) keep x h = elim (Bool-cases (mem c keep)) [
  | inl old ↦ rw (old, keep_from) h
  | inr new ↦
      rw (new, keep_from)
        (keep_from-mem n d (parent_of (lookup c d)) (add c keep) x
          (ground (arith, mem-add c x keep, h)))
]

keep_from-first :
    (n : ℕ) (d : Dict Branch) (w : String) → 0 < n → mem w (keep_from n d (some w) []) ≡ true
unfolding keep_from mem
keep_from-first zero d w h = absurd (omega (arith, h))
keep_from-first (suc n) d w h =
    keep_from-mem n d (parent_of (lookup w d)) (add w []) w
      (ground (arith, mem-add w w [], same_refl w))

kept-IsAbove : (d : Dict Branch) (w : String) {a : String} → IsAbove d w a → mem a (kept d w) ≡ true
unfolding kept mem
kept-IsAbove d w here = keep_from-first (length d + 2) d w (omega arith)
kept-IsAbove d w (up {c} p above e) =
    elim (keep_from-IsClosed (length d + 2) d w [] (λ x q hx hq. cc)
      (omega (arith, outside-le [] d)) c p (kept-IsAbove d w above) e) [
        | inl k ↦ k
        | inr wrong ↦ absurd (cc (wrong))
      ]

losers_keep :
    (keep : List String) (d : Dict Branch) (a : String)
    → mem a keep ≡ true
    → mem a (losers keep d) ≡ false
unfolding losers mem
losers_keep keep [] a h = refl
losers_keep keep ((id, branch) ∷ d) a h = elim (Bool-cases (mem id keep)) [
  | inl k ↦ rw k (losers_keep keep d a h)
  | inr out ↦
      let apart : same id a ≡ false = ground (arith, out, h, same→eq id a) in
      rw out (rw apart (losers_keep keep d a h))
]

module _ {W : Type 0} (b : Backends W) (others : System W → System W) (a : String)
    (calm : (s : System W) → Leaves b a s (others s)) where
  kill_all-Leaves :
      (ids : List String) (e : Option Failure) (rs : List KillReceipt) (s : System W)
      → mem a ids ≡ false
      → Leaves b a s (kill_all b false ids e rs s).1.1
  unfolding kill_all mem
  kill_all-Leaves [] e rs s h = refl
  kill_all-Leaves (id ∷ ids) e rs s h =
      kill_all-Leaves ids _ _ (kill_branch b false id s).1 (ground (arith, h))
      ∙ kill_branch-Leaves b a id (ground (arith, h)) false s

  killed_again-Leaves :
      (id : String) (rs : Dict KillReceipt) (s : System W) (r : Reply KillReceipt × System W)
      → Leaves b a s r.1
      → Leaves b a s (killed_again b others id rs r).1.1
  killed_again-Leaves id rs s (done r, s') h = h
  killed_again-Leaves id rs s (failed e, s') h = h

  looked-Leaves :
      (s : System W) (r : Swept W) → Leaves b a s r.1.1 → Leaves b a s (looked b others r).1.1.1
  looked-Leaves s (none, r) h = h
  looked-Leaves s (some e, r) h = h

  look-Leaves :
      (reaped known busy : Bool) (id : String) (rs : Dict KillReceipt) (s : System W)
      → same id a ≡ false
      → Leaves b a s (look b others reaped known busy id rs s).1.1.1
  look-Leaves true known busy id rs s h = refl
  look-Leaves false false busy id rs s h = refl
  look-Leaves false true true id rs s h = calm s
  look-Leaves false true false id rs s h =
      looked-Leaves s (killed_again b others id rs (kill_branch b false id s)) (
        killed_again-Leaves id rs s (kill_branch b false id s)
          (kill_branch-Leaves b a id h false s))

  -- The record of `a` after a loop that is over
  abbrev pub EndLeaves : System W → Option (Swept W) → Type 0
  EndLeaves s none = Unit
  EndLeaves s (some swept) = Leaves b a s swept.1.1

  EndLeaves-after :
      (s t : System W) (r : Option (Swept W)) → Leaves b a s t → EndLeaves t r → EndLeaves s r
  EndLeaves-after s t none h g = tt
  EndLeaves-after s t (some swept) h g = g ∙ h

  settle-Leaves :
      (n : ℕ) (id : String) (rs : Dict KillReceipt) (s : System W)
      → same id a ≡ false
      → EndLeaves s (settle b others n id rs s)
  unfolding settle
  settle-Leaves zero id rs s h = tt
  settle-Leaves (suc n) id rs s h =
      let l =
        look b others (is_reaped (lookup id rs)) (contains id s.orch.branches)
          (is_in_flight s.orch id) id rs s in
      let left =
        look-Leaves (is_reaped (lookup id rs)) (contains id s.orch.branches)
          (is_in_flight s.orch id) id rs s h in
      elim (Bool-cases l.0) [
        | inl over ↦ rw (over, settle) left
        | inr on ↦
            rw (on, settle)
              (EndLeaves-after s l.1.1.1 (settle b others n id l.1.1.0 l.1.1.1) left
                (settle-Leaves n id l.1.1.0 l.1.1.1 h))
      ]

  settle_all-Leaves :
      (n : ℕ) (ids : List String) (swept : Swept W)
      → mem a ids ≡ false
      → EndLeaves swept.1.1 (settle_all b others n ids swept)
  unfolding settle_all mem
  settle_all-Leaves n [] (some e, r) h = refl
  settle_all-Leaves n (id ∷ ids) (some e, r) h = refl
  settle_all-Leaves n [] (none, r) h = refl
  settle_all-Leaves n (id ∷ ids) (none, (rs, s)) h =
      let left = settle-Leaves n id rs s (ground (arith, h)) in
      elim (Option-cases (settle b others n id rs s)) [
        | inl waits ↦ rw (waits, settle_all) tt
        | inr (swept, e) ↦
            rw (e, settle_all)
              (EndLeaves-after s swept.1.1 (settle_all b others n ids swept)
                (subst (EndLeaves s) e left) (settle_all-Leaves n ids swept (ground (arith, h))))
      ]

  guarded_losers-Leaves :
      (open_ live : Bool) (n : ℕ) (w : String) (s : System W)
      → IsAbove s.orch.branches w a
      → EndLeaves s (guarded_losers b others open_ live n w s)
  guarded_losers-Leaves false live n w s above = refl
  guarded_losers-Leaves true false n w s above = refl
  guarded_losers-Leaves true true n w s above =
      let d = s.orch.branches in
      let ids = losers (kept d w) d in
      let spared = losers_keep (kept d w) d a (kept-IsAbove d w above) in
      let swept = first_sweep b others (kill_all b false ids none [] s) in
      EndLeaves-after s swept.1.1 (settle_all b others n ids swept)
        (kill_all-Leaves ids none [] s spared) (settle_all-Leaves n ids swept spared)

  -- Over backends that are not parallel, if other threads leave the record of the winner or of an
  -- ancestor of it, then `kill_losers` leaves it too, on every end.
  pub kill_losers_spares :
      (n : ℕ) (w : String) (s : System W)
      → IsAbove s.orch.branches w a
      → EndLeaves s (kill_losers b others n w s)
  unfolding kill_losers
  kill_losers_spares n w s above = guarded_losers-Leaves _ _ n w s above
