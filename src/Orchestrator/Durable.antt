-- ===== src/Orchestrator/Durable.antt =====
-- The registry file of agentfork/orchestrator.py and the branches in memory.
use agentfork.Base.{
  String, ◌≡◌, refl, ap, ◌∙◌, ◌⊎◌, inl, inr, Bool, true, false, Option, none, some, arith,
  Bool-cases, Option-cases, same→eq,
}
use agentfork.Base.Dict.{Dict, lookup, insert, erase, lookup-insert, lookup-erase}
use agentfork.Orchestrator.{Branch, System, restore}
use agentfork.Orchestrator.Backends.{
  Backends, persist_to, persist, record_branch, replace_branch, forget, with_branches,
}

-- Where there is a file, a start from it finds the branches that memory has.
abbrev pub Agrees : Option String → Dict Branch → Dict Branch → Type 0
Agrees none d f = Unit
Agrees (some path) d f = (id : String) → lookup id d ≡ lookup id f

abbrev pub IsDurable : {W : Type 0} → System W → Type 0
IsDurable s = Agrees s.orch.registry_path s.orch.branches s.file

-- Undoing a write to the registry in memory
lookup-restore :
    (k j : String) (v : Branch) (previous : Option Branch) (d : Dict Branch)
    → lookup k d ≡ previous
    → lookup j (restore k previous (insert k v d)) ≡ lookup j d
lookup-restore k j v none d e = ground (
  arith,
  lookup-erase k j (insert k v d),
  lookup-insert k j v d,
  same→eq k j,
  ap (λ i. lookup i d),
)
lookup-restore k j v (some p) d e =
    ground (arith, lookup-insert k j p (insert k v d), lookup-insert k j v d, same→eq k j)

lookup_put_back :
    (k j : String) (p : Branch) (d : Dict Branch)
    → lookup k d ≡ some p
    → lookup j (insert k p (erase k d)) ≡ lookup j d
lookup_put_back k j p d e =
    ground (arith, lookup-insert k j p (erase k d), lookup-erase k j d, same→eq k j)

lookup-erase_absent :
    (k j : String) (d : Dict Branch) → lookup k d ≡ none → lookup j (erase k d) ≡ lookup j d
lookup-erase_absent k j d e = ground (arith, lookup-erase k j d, same→eq k j)

pub Agrees-same :
    (path : Option String) (d e f : Dict Branch)
    → ((j : String) → lookup j e ≡ lookup j d)
    → Agrees path d f
    → Agrees path e f
Agrees-same none d e f h a = tt
Agrees-same (some path) d e f h a = λ j. h j ∙ a j

module _ {W : Type 0} (b : Backends W) where
  -- Either the write fails and only the world changes, or the file is what memory has.
  abbrev pub Writes : Option String → System W → Bool × System W → Type 0
  Writes path s r =
      ((w : W) × (r ≡ (false, record s { world = w })))
      ⊎ ((f : Dict Branch) × (w : W) × (r ≡ (true, record s { file = f; world = w }))
          × Agrees path s.orch.branches f)

  persist_to-Writes : (path : Option String) (s : System W) → Writes path s (persist_to b path s)
  persist_to-Writes none s = inr (s.file, s.world, refl, tt)
  persist_to-Writes (some path) s = elim (Bool-cases (b.write s.orch.branches s.world).0) [
    | inl saved ↦ rw (saved) (inr (s.orch.branches, _, refl, λ j. refl))
    | inr lost ↦ rw (lost) (inl (_, refl))
  ]

  pub persist-Writes : (s : System W) → Writes s.orch.registry_path s (persist b s)
  unfolding persist
  persist-Writes s = persist_to-Writes s.orch.registry_path s

  pub record_branch-IsDurable :
      (branch : Branch) (s : System W) → IsDurable s → IsDurable (record_branch b branch s).1
  unfolding record_branch
  record_branch-IsDurable branch s h =
      let k = branch.branch_id in
      let d = s.orch.branches in
      elim (persist-Writes (with_branches b (insert k branch d) s)) [
        | inl (w, e) ↦ rw (e) (
            Agrees-same s.orch.registry_path d _ s.file
              (λ j. lookup-restore k j branch (lookup k d) d refl) h)
        | inr (f, w, e, a) ↦ rw (e) a
      ]

  pub forget-IsDurable : (k : String) (s : System W) → IsDurable s → IsDurable (forget b k s).1
  unfolding forget
  forget-IsDurable k s h =
      let d = s.orch.branches in
      elim (persist-Writes (with_branches b (erase k d) s)) [
        | inl (w, e) ↦ elim (Option-cases (lookup k d)) [
          | inl absent ↦
              rw (e, absent)
                (Agrees-same s.orch.registry_path d _ s.file (λ j. lookup-erase_absent k j d absent)
                  h)
          | inr (p, found) ↦
              rw (e, found)
                (Agrees-same s.orch.registry_path d _ s.file (λ j. lookup_put_back k j p d found) h)
        ]
        | inr (f, w, e, a) ↦ rw (e) a
      ]

  pub replace_branch-IsDurable :
      (k : String) (change : Branch → Branch) (s : System W)
      → IsDurable s
      → IsDurable (replace_branch b k change s).1
  unfolding replace_branch
  replace_branch-IsDurable k change s h =
      let d = s.orch.branches in
      elim (Option-cases (lookup k d)) [
        | inl absent ↦ rw (absent, replace_branch) h
        | inr (p, found) ↦ elim (persist-Writes (with_branches b (insert k (change p) d) s)) [
          | inl (w, e) ↦
              rw (found, replace_branch)
                (rw (e) (
                  Agrees-same s.orch.registry_path d _ s.file
                    (λ j. lookup-restore k j (change p) (some p) d found) h))
          | inr (f, w, e, a) ↦ rw (found, replace_branch) (rw (e) a)
        ]
      ]
