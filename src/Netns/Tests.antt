-- ===== src/Netns/Tests.antt =====
-- Runs of the slot allocator, as in tests/test_netns.py, and its theorems at concrete managers.
use agentfork.Base.{ℕ, ◌≤◌, ◌≡◌, refl, true, false, none, some, [], ◌∷◌, ◌==◌, arith, if◌then◌else◌}
use agentfork.Base.Int.{pos}
use agentfork.Base.{String, List, length, not, some, none, same, decimal}
use agentfork.Netns.Setup.{
  Host, Networks, netns_name, setup_cmds, teardown_cmds, run_all, run_each, teardown, setup,
}
use agentfork.Netns.Rollback.{AllRollsBack, setup_rolls_back}
use agentfork.Netns.{
  NetnsManager, has, remove, allocate, release_slot, push_range, reserve, is_used,
}
use agentfork.Netns.Exclusive.{
  IsSound, Takes, allocate_fresh, allocate_full, release_slot_frees, reserve_marks, allocate_beyond,
}

program : Unit {0}
unfolding netns_name setup_cmds teardown_cmds run_all run_each teardown setup same decimal has
    remove allocate release_slot push_range reserve
program = tt

abbrev two_used : NetnsManager
two_used = record { capacity = 4; free = 1 ∷ []; next = 3 }

abbrev all_used : NetnsManager
all_used = record { capacity = 2; free = []; next = 2 }

recycles :
    ((allocate two_used).0 ≡ some 1)
    × ((allocate (release_slot 2 two_used)).0 ≡ some 2)
    × ((reserve (pos 5) two_used).1.free ≡ 4 ∷ 3 ∷ 1 ∷ [])
    × ((allocate all_used).0 ≡ none)
unfolding program
recycles = (refl, refl, refl, refl)

two_used-IsSound : IsSound two_used
unfolding program
two_used-IsSound = ((λ i h. ground arith), (refl, tt))

allocate_fresh_example : (is_used 1 two_used ≡ false) × Takes 1 two_used (allocate two_used).1
unfolding program
allocate_fresh_example = allocate_fresh two_used 1 two_used-IsSound refl

allocate_full_example : is_used 1 all_used ≡ true
unfolding program
allocate_full_example = allocate_full all_used 1 refl (omega arith)

release_slot_frees_example :
    ((j : ℕ) → is_used j (release_slot 2 two_used) ≡ (if 2 == j then false else is_used j two_used))
    × IsSound (release_slot 2 two_used)
unfolding program
release_slot_frees_example = release_slot_frees two_used 2 two_used-IsSound refl

reserve_marks_example : Takes 7 two_used (reserve (pos 7) two_used).1
reserve_marks_example = reserve_marks two_used 7 two_used-IsSound

allocate_beyond_example : ((allocate (reserve (pos 6) two_used).1).0 ≡ some 5) × (4 ≤ 5)
unfolding program
allocate_beyond_example = allocate_beyond two_used 6 two_used-IsSound (omega arith) (omega arith)

-- The world is the list of the commands' last words; the third command raises.
abbrev host : Host (List (List String))
host = record {
  characters = λ s. 97 ∷ [];
  joined = λ cs. "a";
  is_alnum = λ c. true;
  digest = λ s. "00000000";
  host_ip = λ i. if i == 9 then none else some "10.200.0.1";
  netns_ip = λ i. "10.200.0.2";
  veth_net = λ i. "10.200.0.0/30";
  run = λ c w. (not (length w == 2), c ∷ w);
  run_unchecked = λ c w. c ∷ w;
}

abbrev networks : Networks (List (List String))
networks = record { slots = two_used; world = [] }

setups :
    ((setup host "eth0" "a" (record networks { world = [] ∷ [] ∷ [] ∷ [] })).0 ≡ some ("af-a", 1))
    × (netns_name host "eth0" "b/1" ≡ "af-a-00000000")
    × (length (setup host "eth0" "a" networks).1.world ≡ 8)
    × ((setup host "eth0" "a" networks).1.slots.free ≡ 1 ∷ [])
unfolding program
setups = (refl, refl, refl, refl)

fails : (setup host "eth0" "a" networks).0 ≡ none
unfolding program
fails = refl

setup_rolls_back_example :
    AllRollsBack host "eth0" (allocate two_used).0 two_used (setup host "eth0" "a" networks).1.slots
setup_rolls_back_example = setup_rolls_back host "eth0" "a" networks two_used-IsSound fails
