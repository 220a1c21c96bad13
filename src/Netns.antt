-- ===== src/Netns.antt =====
-- The allocator of network slots, `NetnsManager` of agentfork/sandbox/netns.py. Its lock is held
-- over each operation. `_free` is kept with its last element first, where `append` and `pop` work.
pub mod Exclusive
pub mod Setup
pub mod Rollback
pub mod Tests
use agentfork.Base.{
  ℕ, zero, suc, ◌+◌, ◌-◌, Bool, true, false, not, ◌&&◌, Option, none, some, List, [], ◌∷◌, ◌==◌,
  ltb, leb, if◌then◌else◌,
}
use agentfork.Base.Int.{ℤ, pos, negsuc}

pub record NetnsManager : Type 0 where
  pub capacity : ℕ
  pub free : List ℕ
  pub next : ℕ

-- `index in self._free`
unfoldable pub has : ℕ → List ℕ → Bool
has i [] = false
has i (j ∷ js) = if j == i then true else has i js

-- `self._free.remove(index)`; an index is never listed twice
unfoldable pub remove : ℕ → List ℕ → List ℕ
remove i [] = []
remove i (j ∷ js) = if j == i then js else j ∷ remove i js

abbrev pub allocate_from : List ℕ → NetnsManager → Option ℕ × NetnsManager
allocate_from (i ∷ is) m = (some i, record m { free = is })
allocate_from [] m =
    if leb m.capacity m.next then (none, m) else (some m.next, record m { next = m.next + 1 })

-- `_allocate`; `none` stands for the `RuntimeError`
unfoldable pub allocate : NetnsManager → Option ℕ × NetnsManager
allocate m = allocate_from m.free m

unfoldable pub release_slot : ℕ → NetnsManager → NetnsManager
release_slot i m = if has i m.free then m else record m { free = i ∷ m.free }

-- `self._free.extend(i for i in range(...) if i not in self._free)`, with the range's start and size
unfoldable pub push_range : ℕ → ℕ → List ℕ → List ℕ
push_range lo zero free = free
push_range lo (suc n) free = push_range (lo + 1) n (if has lo free then free else lo ∷ free)

abbrev pub reserve_at : ℕ → NetnsManager → NetnsManager
reserve_at i m =
    if ltb i m.next
    then record m { free = remove i m.free }
    else record m { free = push_range m.next (i - m.next) m.free; next = i + 1 }

-- `reserve`; `false` stands for the `ValueError`
unfoldable pub reserve : ℤ → NetnsManager → Bool × NetnsManager
reserve (negsuc n) m = (false, m)
reserve (pos i) m = (true, reserve_at i m)

-- A slot that is handed out
abbrev pub is_used : ℕ → NetnsManager → Bool
is_used i m = ltb i m.next && not (has i m.free)
