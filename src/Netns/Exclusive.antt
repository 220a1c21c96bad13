-- ===== src/Netns/Exclusive.antt =====
-- The network slots of agentfork/sandbox/netns.py that are in use
use agentfork.Base.{
  ℕ, zero, suc, ◌+◌, ◌-◌, ◌≤◌, ◌<◌, ◌≡◌, refl, ap, inl, inr, true, false, ◌&&◌, none, some, List,
  [], ◌∷◌, ◌==◌, ltb, leb, arith, Bool-cases, if◌then◌else◌,
}
use agentfork.Base.Int.{pos}
use agentfork.Netns.{
  NetnsManager, has, remove, allocate, allocate_from, release_slot, push_range, reserve, is_used,
}

abbrev pub IsApart : List ℕ → Type 0
IsApart [] = Unit
IsApart (i ∷ is) = (has i is ≡ false) × IsApart is

-- The free slots are in order: they are below the cursor, each listed once.
abbrev pub IsSound : NetnsManager → Type 0
IsSound m = ((i : ℕ) → has i m.free ≡ true → i < m.next) × IsApart m.free

has-remove :
    (i j : ℕ) (is : List ℕ)
    → IsApart is
    → has j (remove i is) ≡ (if i == j then false else has j is)
unfolding has remove
has-remove i j [] h = ground arith
has-remove i j (k ∷ is) h = ground (arith, has-remove i j is h.1, h.0)

remove-IsApart : (i : ℕ) (is : List ℕ) → IsApart is → IsApart (remove i is)
unfolding remove has
remove-IsApart i [] h = tt
remove-IsApart i (k ∷ is) h = elim (Bool-cases (k == i)) [
  | inl e ↦ rw e h.1
  | inr e ↦ rw e (ground (arith, has-remove i k is h.1, h.0), remove-IsApart i is h.1)
]

has-push_range :
    (lo n j : ℕ) (is : List ℕ)
    → has j (push_range lo n is) ≡ (if leb lo j && ltb j (lo + n) then true else has j is)
unfolding has push_range
has-push_range lo zero j is = ground arith
has-push_range lo (suc n) j is =
    ground (arith, has-push_range (lo + 1) n j (if has lo is then is else lo ∷ is))

push_range-IsApart : (lo n : ℕ) (is : List ℕ) → IsApart is → IsApart (push_range lo n is)
unfolding push_range
push_range-IsApart lo zero is h = h
push_range-IsApart lo (suc n) is h = elim (Bool-cases (has lo is)) [
  | inl e ↦ rw e (push_range-IsApart (lo + 1) n is h)
  | inr e ↦ rw e (push_range-IsApart (lo + 1) n (lo ∷ is) (e, h))
]

abbrev pub Takes : ℕ → NetnsManager → NetnsManager → Type 0
Takes i m m' = ((j : ℕ) → is_used j m' ≡ (if i == j then true else is_used j m)) × IsSound m'

abbrev slots : ℕ → List ℕ → ℕ → NetnsManager
slots capacity free next = record { capacity = capacity; free = free; next = next }

allocate_from_taken :
    (c : ℕ) (free : List ℕ) (n i : ℕ)
    → IsSound (slots c free n)
    → (allocate_from free (slots c free n)).0 ≡ some i
    → (is_used i (slots c free n) ≡ false)
      × Takes i (slots c free n) (allocate_from free (slots c free n)).1
unfolding has
allocate_from_taken c [] n i s h = elim (Bool-cases (leb c n)) [
  | inl full ↦ absurd (ground (arith, full, h))
  | inr room ↦
      let e : n ≡ i = ground (arith, room, h) in
      rw room (ground (arith, e), ((λ j. ground (arith, e)), ((λ j f. cc), tt)))
]
allocate_from_taken c (k ∷ is) n i s h =
    let e : k ≡ i = ground (arith, h) in
    let below : k < n = s.0 k (ground arith) in
    (
      ground (arith, e),
      (
        (λ j. ground (arith, e, s.1.0, below, ap (λ x. has x is))),
        ((λ j f. s.0 j (ground (arith, f))), s.1.1),
      ),
    )

-- Where the free slots are below the cursor and listed once, `_allocate` hands out a slot that is
-- not in use, marks this one only, and keeps the free slots so.
pub allocate_fresh :
    (m : NetnsManager) (i : ℕ)
    → IsSound m
    → (allocate m).0 ≡ some i
    → (is_used i m ≡ false) × Takes i m (allocate m).1
unfolding allocate
allocate_fresh m i s h = allocate_from_taken m.capacity m.free m.next i s h

allocate_from_full :
    (c : ℕ) (free : List ℕ) (n j : ℕ)
    → (allocate_from free (slots c free n)).0 ≡ none
    → j < c
    → is_used j (slots c free n) ≡ true
unfolding has
allocate_from_full c [] n j h below = ground arith
allocate_from_full c (k ∷ is) n j h below = cc

-- Where `_allocate` raises, every slot of the subnet is in use.
pub allocate_full :
    (m : NetnsManager) (j : ℕ) → (allocate m).0 ≡ none → j < m.capacity → is_used j m ≡ true
unfolding allocate
allocate_full m j h below = allocate_from_full m.capacity m.free m.next j h below

-- Where the free slots are below the cursor and listed once, `release` of a slot in use frees this
-- one only, and keeps the free slots so.
pub release_slot_frees :
    (m : NetnsManager) (i : ℕ)
    → IsSound m
    → is_used i m ≡ true
    → ((j : ℕ) → is_used j (release_slot i m) ≡ (if i == j then false else is_used j m))
      × IsSound (release_slot i m)
unfolding release_slot has
release_slot_frees m i s used =
    let busy : has i m.free ≡ false = ground arith in
    let below : i < m.next = ground arith in
    rw busy (
      (λ j. ground arith),
      (
        (λ j f. elim (Bool-cases (i == j)) [
          | inl e ↦ ground (arith, below, e)
          | inr e ↦ s.0 j (ground (arith, e, f))
        ]),
        (busy, s.1),
      ),
    )

-- Where the free slots are below the cursor and listed once, `reserve` marks the slot and no
-- other, and keeps the free slots so.
pub reserve_marks : (m : NetnsManager) (i : ℕ) → IsSound m → Takes i m (reserve (pos i) m).1
unfolding reserve
reserve_marks m i s = elim (Bool-cases (ltb i m.next)) [
  | inl old ↦ rw old (
    (λ j. ground (arith, has-remove i j m.free s.1)),
    ((λ j f. s.0 j (ground (arith, has-remove i j m.free s.1, f))), remove-IsApart i m.free s.1),
  )
  | inr new ↦ rw new (
    (λ j. ground (arith, has-push_range m.next (i - m.next) j m.free, s.0 j)),
    (
      (λ j f. ground (arith, has-push_range m.next (i - m.next) j m.free, s.0 j, f)),
      push_range-IsApart m.next (i - m.next) m.free s.1,
    ),
  )
]

-- The range's last element comes first.
push_range_last :
    (lo n : ℕ) (is : List ℕ)
    → ((j : ℕ) → has j is ≡ true → j < lo)
    → (rest : List ℕ) × (push_range lo (suc n) is ≡ (lo + n) ∷ rest)
unfolding push_range has
push_range_last lo zero is below =
    let new : has lo is ≡ false = ground (arith, below lo) in
    let e : lo + 0 ≡ lo = omega arith in rw (new, e) (is, refl)
push_range_last lo (suc n) is below =
    let new : has lo is ≡ false = ground (arith, below lo) in
    let (rest, e) = push_range_last (lo + 1) n (lo ∷ is) (λ j f. elim (Bool-cases (lo == j)) [
      | inl here ↦ ground (arith, here)
      | inr away ↦ ground (arith, away, f, below j)
    ]) in
    let same_sum : lo + suc n ≡ lo + 1 + n = omega arith in rw (new, same_sum) (rest, e)

-- Where the cursor is within the subnet, after a `reserve` of a slot beyond the subnet's size the
-- next slot that is handed out lies outside of the subnet.
pub allocate_beyond :
    (m : NetnsManager) (i : ℕ)
    → IsSound m
    → m.next ≤ m.capacity
    → m.capacity < i
    → ((allocate (reserve (pos i) m).1).0 ≡ some (i - 1)) × (m.capacity ≤ i - 1)
unfolding allocate reserve
allocate_beyond m i s inside beyond =
    let passed : ltb i m.next ≡ false = ground arith in
    let count : i - m.next ≡ suc (i - m.next - 1) = omega arith in
    let (rest, e) = push_range_last m.next (i - m.next - 1) m.free s.0 in
    let last : m.next + (i - m.next - 1) ≡ i - 1 = omega arith in
    (rw (passed, count, e, last) refl, omega arith)
