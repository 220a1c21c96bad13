-- ===== src/Kv/Radix/Holds/Update.antt =====
-- A node, and the tree, when the tokens of one branch are given anew.
use agentfork.Base.{
  ℕ, ◌<◌, String, ◌≡◌, refl, sym, ◌∙◌, ap, inl, inr, true, false, Option, none, some, List, [], ◌∷◌,
  arith, length, is_some, if◌then◌else◌, after, same, same→eq, Bool-cases,
}
use agentfork.Base.Dict.{mem, add, IsDistinct, mem-add, add-IsDistinct}
use agentfork.Base.Int.{ℤ, pos, inc}
use agentfork.Kv.Radix.{Node, Children, nil, entry, share, hold}
use agentfork.Kv.Radix.Holds.{
  Held, unless, through, others, IsDone, IsWhole, Fits, Holds, update, update_same, through-update,
  others-update,
}

module _ (id : String) (v : Option (List ℕ)) (k : ℕ) (n : Node) (held : Held)
    (f : Fits held k n) where
  -- The node with other owners fits if they are the branches that pass now.
  pub Fits-update :
      (r : ℤ) (owners : List String)
      → r ≡ pos (length owners)
      → 0 < length owners
      → IsDistinct owners
      → IsWhole k n.tokens v
      → ((j : String)
          → mem j owners ≡ (if same id j then is_some (after n.tokens v) else mem j n.owners))
      → Fits (update id v held) k (record n { ref = r; owners = owners })
  Fits-update r owners counted used distinct w owned = record {
    tail = f.tail;
    begins = f.begins;
    whole = λ j. elim (Bool-cases (same id j)) [ inl e ↦ rw e w | inr e ↦ rw e (f.whole j) ];
    owned =
        λ j. owned j ∙ elim (Bool-cases (same id j)) [ inl e ↦ rw e | inr e ↦ rw e (f.owned j) ];
    distinct = distinct;
    counted = counted;
    used = used;
  }

  -- The node fits as it is if the branch passes it as before.
  pub Fits-quiet :
      IsWhole k n.tokens v
      → is_some (after n.tokens v) ≡ is_some (after n.tokens (held id))
      → Fits (update id v held) k n
  Fits-quiet w e = Fits-update n.ref n.owners f.counted f.used f.distinct w λ j.
      elim (Bool-cases (same id j)) [
        | inl here ↦
            rw here (ap (λ i. mem i n.owners) (sym (same→eq id j here)) ∙ f.owned id ∙ sym e)
        | inr other ↦ rw other
      ]

  -- A branch that comes in is one more owner.
  pub Fits-share :
      IsWhole k n.tokens v
      → is_some (after n.tokens v) ≡ true
      → after n.tokens (held id) ≡ none
      → Fits (update id v held) k (share id n)
  unfolding add
  Fits-share w passes absent =
      let new : mem id n.owners ≡ false = f.owned id ∙ ap is_some absent in
      Fits-update (inc n.ref) (add id n.owners) (rw (f.counted, new) refl) (rw new (omega arith))
        (add-IsDistinct id n.owners f.distinct) w λ j. rw (mem-add id j n.owners, passes) refl

  -- A branch that goes on through the node is an owner, old or new.
  pub Fits-hold :
      IsWhole k n.tokens v
      → is_some (after n.tokens v) ≡ true
      → Fits (update id v held) k (hold id n)
  Fits-hold w passes = elim (Bool-cases (mem id n.owners)) [
    | inl old ↦ rw old (Fits-quiet w (passes ∙ sym old ∙ f.owned id))
    | inr new ↦
        rw new (Fits-share w passes (absent_of (after n.tokens (held id)) (sym (f.owned id) ∙ new)))
  ]
    where
      absent_of : (o : Option (List ℕ)) → is_some o ≡ false → o ≡ none
      absent_of none e = refl
      absent_of (some s) e = cc

pub after-IsDone :
    (k : ℕ) (tail p : List ℕ) (o : Option (List ℕ)) → p ≡ k ∷ tail → IsDone o → after p o ≡ none
after-IsDone k tail p none b d = refl
after-IsDone k tail p (some []) b d = rw b
after-IsDone k tail p (some (x ∷ s)) b d = absurd d

pub unless-IsDone : (k : ℕ) (o : Option (List ℕ)) → IsDone o → IsDone (unless k o)
unless-IsDone k none d = d
unless-IsDone k (some []) d = d
unless-IsDone k (some (x ∷ s)) d = absurd d

pub IsWhole-IsDone : (k : ℕ) (p : List ℕ) (o : Option (List ℕ)) → IsDone o → IsWhole k p o
IsWhole-IsDone k p none d = d
IsWhole-IsDone k p (some []) d = d
IsWhole-IsDone k p (some (x ∷ s)) d = absurd d

-- A branch that ends above the tree may come or go.
pub Holds-quiet :
    (id : String) (v : Option (List ℕ)) (held : Held) (kids : Children)
    → IsDone (held id)
    → IsDone v
    → Holds held kids
    → Holds (update id v held) kids
Holds-quiet id v held nil d dv h =
    λ j. elim (Bool-cases (same id j)) [ inl e ↦ rw e dv | inr e ↦ rw e (h j) ]
Holds-quiet id v held (entry k n sub rest) d dv (fits, hs, hr) =
    let gone = after-IsDone k fits.tail n.tokens v fits.begins dv in
    let absent = after-IsDone k fits.tail n.tokens (held id) fits.begins d in
    (
      Fits-quiet id v k n held fits (IsWhole-IsDone k n.tokens v dv)
          (ap is_some (gone ∙ sym absent)),
      rw (through-update n.tokens id v held, gone, ← absent, update_same id (through n.tokens held))
          hs,
      rw (others-update k id v held) (
          Holds-quiet id (unless k v) (others k held) rest (unless-IsDone k (held id) d)
            (unless-IsDone k v dv) hr),
    )
