-- ===== src/Netns/Rollback.antt =====
-- A `setup` of agentfork/sandbox/netns.py that raises keeps no slot.
use agentfork.Base.{
  ◌⊎◌, inl, inr, ℕ, ◌≡◌, refl, sym, ◌∙◌, ap, subst, leb, [], ◌∷◌, String, Bool, true, false, Option,
  none, some, List, arith, Bool-cases, inl, inr,
}
use agentfork.Netns.{NetnsManager, allocate, allocate_from, release_slot, is_used}
use agentfork.Netns.Exclusive.{IsSound, Takes, allocate_fresh, release_slot_frees}
use agentfork.Netns.Setup.{
  Host, Networks, setup_cmds, teardown_cmds, teardown, try_run, finished, allocated, setup,
}

-- The same slots are in use, and the free ones are in order.
abbrev pub Keeps : NetnsManager → NetnsManager → Type 0
Keeps m m' = ((j : ℕ) → is_used j m' ≡ is_used j m) × IsSound m'

released-Keeps :
    (m m' : NetnsManager) (i : ℕ) → is_used i m ≡ false → Takes i m m' → Keeps m (release_slot i m')
released-Keeps m m' i idle takes =
    let frees = release_slot_frees m' i takes.1 (takes.0 i ∙ ground arith) in
    ((λ j. frees.0 j ∙ ground (arith, takes.0 j, idle, ap (λ k. is_used k m))), frees.1)

allocate_from_stuck :
    (free : List ℕ) (m : NetnsManager)
    → (allocate_from free m).0 ≡ none
    → (allocate_from free m).1 ≡ m
allocate_from_stuck [] m h = elim (Bool-cases (leb m.capacity m.next)) [
  | inl full ↦ rw full refl
  | inr room ↦ absurd (ground (arith, room, h))
]
allocate_from_stuck (i ∷ is) m h = absurd (ground (arith, h))

module _ {W : Type 0} (host : Host W) (uplink : String) where
  -- The same slots are in use, or the slot that was taken has no addresses and stays taken.
  abbrev pub RollsBack : ℕ → NetnsManager → NetnsManager → Type 0
  RollsBack i m m' = Keeps m m' ⊎ ((host.host_ip i ≡ none) × Takes i m m')

  torn_down-RollsBack :
      (id : String) (i : ℕ) (m slots : NetnsManager) (w : W) (o : Option String)
      → host.host_ip i ≡ o
      → is_used i m ≡ false
      → Takes i m slots
      → RollsBack i m (teardown host uplink id i (record { slots = slots; world = w })).1.slots
  unfolding teardown teardown_cmds
  torn_down-RollsBack id i m slots w none h idle takes = rw h (inr (refl, takes))
  torn_down-RollsBack id i m slots w (some ip) h idle takes =
      rw h (inl (released-Keeps m slots i idle takes))

  finished-RollsBack :
      (id : String) (i : ℕ) (m slots : NetnsManager) (x : Bool × W)
      → is_used i m ≡ false
      → Takes i m slots
      → (finished host uplink id i slots x).0 ≡ none
      → RollsBack i m (finished host uplink id i slots x).1.slots
  finished-RollsBack id i m slots (true, w) idle takes e = absurd (ground (arith, e))
  finished-RollsBack id i m slots (false, w) idle takes e =
      torn_down-RollsBack id i m slots w (host.host_ip i) refl idle takes

  abbrev pub AllRollsBack : Option ℕ → NetnsManager → NetnsManager → Type 0
  AllRollsBack none m m' = Keeps m m'
  AllRollsBack (some i) m m' = RollsBack i m m'

  allocated-RollsBack :
      (id : String) (m : NetnsManager) (x : Option ℕ × NetnsManager) (w : W)
      → IsSound m
      → (x.0 ≡ none → x.1 ≡ m)
      → ((i : ℕ) → x.0 ≡ some i → (is_used i m ≡ false) × Takes i m x.1)
      → (allocated host uplink id x w).0 ≡ none
      → AllRollsBack x.0 m (allocated host uplink id x w).1.slots
  allocated-RollsBack id m (none, slots) w sound stuck fresh e =
      subst (Keeps m) (sym (stuck refl)) ((λ j. refl), sound)
  allocated-RollsBack id m (some i, slots) w sound stuck fresh e =
      finished-RollsBack id i m slots (try_run host uplink (setup_cmds host uplink id i) w)
        (fresh i refl).0 (fresh i refl).1 e

  -- Where the free slots are below the cursor and listed once, a `setup` that raises, for want of
  -- a slot or at any of its commands, leaves the same slots in use as before and keeps the free
  -- slots so, or the slot that it took has no addresses in the subnet, and then this slot stays in
  -- use and no other is marked.
  pub setup_rolls_back :
      (id : String) (n : Networks W)
      → IsSound n.slots
      → (setup host uplink id n).0 ≡ none
      → AllRollsBack (allocate n.slots).0 n.slots (setup host uplink id n).1.slots
  unfolding setup allocate
  setup_rolls_back id n sound e =
      allocated-RollsBack id n.slots (allocate n.slots) n.world sound
        (allocate_from_stuck n.slots.free n.slots) (λ i taken. allocate_fresh n.slots i sound taken)
        e
