-- ===== src/Reaper/Tests.antt =====
-- Branches of agentfork/kill/reaper.py on a system that lists its processes and pidfds
use agentfork.Base.{
  ℕ, ◌+◌, ◌≡◌, refl, Bool, true, false, not, none, some, List, [], ◌∷◌, ◌==◌, arith, if◌then◌else◌,
  same,
}
use agentfork.Base.Dict.{lookup, insert, erase, keys, mem}
use agentfork.Reaper.{
  System, done, failed, armed, off, BranchReaper, replied, faulted, value_error, key_error,
  unsupported, system_error, spawn, kill, kill_each, close_all, exits, executes, main,
}
use agentfork.Reaper.Over.{Lawful, Over}
use agentfork.Reaper.Close.{close_all-Over}

program : Unit {0}
unfolding lookup insert erase keys mem same spawn kill kill_each close_all
program = tt

record Machine : Type 0 where
  running : List ℕ
  fds : List ℕ
  next : ℕ

abbrev has_number : ℕ → List ℕ → Bool
has_number n [] = false
has_number n (m ∷ ms) = if m == n then true else has_number n ms

abbrev without : ℕ → List ℕ → List ℕ
without n [] = []
without n (m ∷ ms) = let rest = without n ms in if m == n then rest else m ∷ rest

has_number-without :
    (n m : ℕ) (ms : List ℕ) → has_number n ms ≡ false → has_number n (without m ms) ≡ false
has_number-without n m [] h = refl
has_number-without n m (k ∷ ks) h = ground (arith, h, has_number-without n m ks)

has_number-without_self : (n : ℕ) (ms : List ℕ) → has_number n (without n ms) ≡ false
has_number-without_self n [] = refl
has_number-without_self n (k ∷ ks) = ground (arith, has_number-without_self n ks)

abbrev system : System Machine
system = record {
  popen = λ a argv w. (some w.next, record w { running = w.next ∷ w.running; next = w.next + 1 });
  pidfd_open = λ pid w. (some w.next, record w { fds = w.next ∷ w.fds; next = w.next + 1 });
  send_sigkill = λ fd w. (if fd == 3 then failed else done, w);
  waitid = λ fd w. (done, w);
  proc_kill = λ pid w. w;
  proc_wait = λ pid w. record w { running = without pid w.running };
  poll = λ pid w. (not (has_number pid w.running), w);
  close = λ fd w. record w { fds = without fd w.fds };
  kv_kill = λ id w. (some 4, w);
}

abbrev is_running : ℕ → Machine → Bool
is_running p w = has_number p w.running

abbrev is_open : ℕ → Machine → Bool
is_open f w = has_number f w.fds

system-Lawful : Lawful system is_running is_open
system-Lawful = record {
  wait_ends = λ p w. has_number-without_self p w.running;
  poll_tells = λ p w h. ground (arith, h);
  close_closes = λ f w. has_number-without_self f w.fds;
  calm_signal = λ f w. ((λ p e. e), λ g e. e);
  calm_waitid = λ f w. ((λ p e. e), λ g e. e);
  calm_kill = λ p w. ((λ q e. e), λ g e. e);
  calm_wait = λ p w. ((λ q e. has_number-without q p w.running e), λ g e. e);
  calm_poll = λ p w. ((λ q e. e), λ g e. e);
  calm_close = λ f w. ((λ q e. e), λ g e. has_number-without g f w.fds e);
  calm_kv = λ id w. ((λ q e. e), λ g e. e);
}

abbrev no_branches : BranchReaper Machine
no_branches = record { branches = []; world = record { running = []; fds = []; next = 0 } }

abbrev two : BranchReaper Machine
two =
    let (x, r) = spawn system "python" "9" true armed "a" ("sleep" ∷ []) no_branches in
    (spawn system "python" "9" true off "b" ("sleep" ∷ []) r).1

runs :
    (two.branches ≡ ("a", (0, 1)) ∷ ("b", (2, 3)) ∷ [])
    × ((spawn system "python" "9" true armed "a" ("x" ∷ []) two).0 ≡ faulted value_error)
    × ((spawn system "python" "9" true armed "c" [] two).0 ≡ faulted value_error)
    × ((spawn system "python" "9" false armed "c" ("x" ∷ []) two).0 ≡ faulted unsupported)
    × ((kill system "python" "9" true "a" two).0 ≡ replied (0, 4))
    × ((kill system "python" "9" true "c" two).0 ≡ faulted key_error)
    × ((kill system "python" "9" true "b" two).0 ≡ faulted system_error)
    × ((close_all system "python" "9" true two).0 ≡ some system_error)
unfolding program
runs = (refl, refl, refl, refl, refl, refl, refl, refl)

launches :
    (main (λ s. some 9) true 9 true ("9" ∷ "sleep" ∷ "1" ∷ []) ≡ executes ("sleep" ∷ "1" ∷ []))
    × (main (λ s. some 9) true 1 true ("9" ∷ "sleep" ∷ []) ≡ exits 128)
    × (main (λ s. some 9) true 9 true ("9" ∷ []) ≡ exits 2)
launches = (refl, refl, refl)

found_b : lookup "b" two.branches ≡ some (2, 3)
unfolding program
found_b = refl

close_all-Over_example :
    Over system "python" "9" is_running is_open system-Lawful 2 3
      (close_all system "python" "9" true two).1.world
    × (lookup "b" (close_all system "python" "9" true two).1.branches ≡ none)
close_all-Over_example =
    close_all-Over system "python" "9" is_running is_open system-Lawful true two "b" 2 3 found_b
