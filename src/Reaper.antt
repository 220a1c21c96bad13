-- ===== src/Reaper.antt =====
-- `BranchReaper` of agentfork/kill/reaper.py, and the launcher of agentfork/kill/_pdeathsig.py. The
-- operating system and the cache are parameters, and the times that are measured are left out. In the
-- `finally` of `kill` no call of the system raises.
pub mod Over
pub mod Close
pub mod Tests
use agentfork.Base.{
  ℕ, ◌<◌, String, Bool, true, false, not, Option, none, some, List, [], ◌∷◌, ◌==◌, ltb, length,
  if◌then◌else◌, is_some,
}
use agentfork.Base.Dict.{Dict, lookup, insert, erase, contains, keys}

-- A call that does its work, finds nothing (`ProcessLookupError`, `ChildProcessError`), or raises
-- something else
pub data Called : Type 0 where
  done absent failed : Called

-- A process is known by its pid, and a pidfd is a number. `popen` and `pidfd_open` are `none` where
-- they raise; `poll` says that the process has ended; `kv_kill` is `none` where it raises.
pub record System (W : Type 0) : Type 0 where
  pub popen : Bool → List String → W → Option ℕ × W
  pub pidfd_open : ℕ → W → Option ℕ × W
  pub send_sigkill : ℕ → W → Called × W
  pub waitid : ℕ → W → Called × W
  pub proc_kill : ℕ → W → W
  pub proc_wait : ℕ → W → W
  pub poll : ℕ → W → Bool × W
  pub close : ℕ → W → W
  pub kv_kill : String → W → Option ℕ × W

pub data Pdeathsig : Type 0 where
  armed shim off : Pdeathsig

pub record BranchReaper (W : Type 0) : Type 0 where
  pub branches : Dict (ℕ × ℕ)
  pub world : W

-- The exceptions: no pidfd support, `ValueError`, `KeyError`, one of the system, one of the cache
pub data Fault : Type 0 where
  unsupported value_error key_error system_error cache_error : Fault

pub data Reply (A : Type 0) : Type 0 where
  replied : A → Reply A
  faulted : Fault → Reply A

-- `thread_safe`
abbrev pub thread_safe : Pdeathsig → Bool
thread_safe armed = false
thread_safe shim = true
thread_safe off = true

-- `executable` is `sys.executable`, and `own_pid` the text of `os.getpid()`.
module _ {W : Type 0} (os : System W) (executable own_pid : String) where
  abbrev pub launch_argv : Pdeathsig → List String → List String
  launch_argv armed argv = argv
  launch_argv shim argv = executable ∷ "-m" ∷ "agentfork.kill._pdeathsig" ∷ own_pid ∷ argv
  launch_argv off argv = argv

  abbrev pub with_pidfd : String → ℕ → BranchReaper W → Option ℕ × W → Reply ℕ × BranchReaper W
  with_pidfd id pid r (none, w) =
      (faulted system_error, record r { world = os.proc_wait pid (os.proc_kill pid w) })
  with_pidfd id pid r (some fd, w) =
      (replied pid, record { branches = insert id (pid, fd) r.branches; world = w })

  abbrev pub started : String → BranchReaper W → Option ℕ × W → Reply ℕ × BranchReaper W
  started id r (none, w) = (faulted system_error, record r { world = w })
  started id r (some pid, w) = with_pidfd id pid r (os.pidfd_open pid w)

  abbrev pub is_armed : Pdeathsig → Bool
  is_armed armed = true
  is_armed shim = false
  is_armed off = false

  abbrev pub guarded_spawn :
      Bool → Bool → Pdeathsig → String → List String → BranchReaper W → Reply ℕ × BranchReaper W
  guarded_spawn false exists mode id argv r = (faulted unsupported, r)
  guarded_spawn true true mode id argv r = (faulted value_error, r)
  guarded_spawn true false mode id [] r = (faulted value_error, r)
  guarded_spawn true false mode id (a ∷ as_given) r =
      started id r (os.popen (is_armed mode) (launch_argv mode (a ∷ as_given)) r.world)

  -- `spawn`
  unfoldable pub spawn :
      Bool → Pdeathsig → String → List String → BranchReaper W → Reply ℕ × BranchReaper W
  spawn supported mode id argv r = guarded_spawn supported (contains id r.branches) mode id argv r

  -- The `try` of `kill` after the signal; the first part says that it ends without an exception.
  abbrev pub waited : ℕ → Called × W → Bool × W
  waited pid (done, w) = (true, os.proc_wait pid w)
  waited pid (absent, w) = (true, os.proc_wait pid w)
  waited pid (failed, w) = (false, w)

  abbrev pub signaled : ℕ → ℕ → Called × W → Bool × W
  signaled pid fd (done, w) = waited pid (os.waitid fd w)
  signaled pid fd (absent, w) = waited pid (os.waitid fd w)
  signaled pid fd (failed, w) = (false, w)

  -- The `finally` of `kill`
  abbrev pub made_sure : ℕ → Bool × W → W
  made_sure pid (true, w) = w
  made_sure pid (false, w) = os.proc_wait pid (os.proc_kill pid w)

  abbrev pub settled : ℕ → ℕ → W → W
  settled pid fd w = os.close fd (made_sure pid (os.poll pid w))

  abbrev pub freed : ℕ → Option ℕ × W → Dict (ℕ × ℕ) → Reply (ℕ × ℕ) × BranchReaper W
  freed pid (none, w) d = (faulted cache_error, record { branches = d; world = w })
  freed pid (some n, w) d = (replied (pid, n), record { branches = d; world = w })

  -- The cache, where there is one, after the process
  abbrev pub then_cache : Bool → String → ℕ → Bool → BranchReaper W → Reply (ℕ × ℕ) × BranchReaper W
  then_cache has_kv id pid false r = (faulted system_error, r)
  then_cache true id pid true r = freed pid (os.kv_kill id r.world) r.branches
  then_cache false id pid true r = (replied (pid, 0), r)

  abbrev pub kill_process : Bool → String → ℕ → ℕ → BranchReaper W → Reply (ℕ × ℕ) × BranchReaper W
  kill_process has_kv id pid fd r =
      let (ok, w) = signaled pid fd (os.send_sigkill fd r.world) in
      then_cache has_kv id pid ok
        (record { branches = erase id r.branches; world = settled pid fd w })

  abbrev pub kill_found :
      Bool → String → Option (ℕ × ℕ) → BranchReaper W → Reply (ℕ × ℕ) × BranchReaper W
  kill_found has_kv id none r = (faulted key_error, r)
  kill_found has_kv id (some (pid, fd)) r = kill_process has_kv id pid fd r

  -- `kill`: the pid and the tokens that were freed
  unfoldable pub kill : Bool → String → BranchReaper W → Reply (ℕ × ℕ) × BranchReaper W
  kill has_kv id r = kill_found has_kv id (lookup id r.branches) r

  abbrev pub first_fault : Option Fault → Reply (ℕ × ℕ) → Option Fault
  first_fault (some e) x = some e
  first_fault none (replied x) = none
  first_fault none (faulted e) = some e

  -- The loop of `close`, with the first error so far
  unfoldable pub kill_each :
      Bool → List String → Option Fault → BranchReaper W → Option Fault × BranchReaper W
  kill_each has_kv [] error r = (error, r)
  kill_each has_kv (id ∷ ids) error r =
      let (x, next) = kill has_kv id r in kill_each has_kv ids (first_fault error x) next

  -- `close`; `none` where it returns.
  unfoldable pub close_all : Bool → BranchReaper W → Option Fault × BranchReaper W
  close_all has_kv r = kill_each has_kv (keys r.branches) none r

  abbrev pub alive_found : Option (ℕ × ℕ) → BranchReaper W → Reply Bool × BranchReaper W
  alive_found none r = (faulted key_error, r)
  alive_found (some (pid, fd)) r =
      let (ended, w) = os.poll pid r.world in (replied (not ended), record r { world = w })

  -- `alive`
  unfoldable pub alive : String → BranchReaper W → Reply Bool × BranchReaper W
  alive id r = alive_found (lookup id r.branches) r

-- How `main` of the launcher ends: with a code, a `ValueError`, or as the command
pub data Launched : Type 0 where
  exits : ℕ → Launched
  raises : Launched
  executes : List String → Launched

abbrev pub launched_as : Bool → Bool → Bool → List String → Launched
launched_as false parent_lives exec_works cmd = exits 127
launched_as true false exec_works cmd = exits 128
launched_as true true false cmd = exits 126
launched_as true true true cmd = executes cmd

abbrev pub launched_for : Option ℕ → Bool → ℕ → Bool → List String → Launched
launched_for none prctl_works ppid exec_works cmd = raises
launched_for (some expected) prctl_works ppid exec_works cmd =
    launched_as prctl_works (ppid == expected) exec_works cmd

-- `main`; `int` reads a number, and the rest says what the system answers.
abbrev pub main : (String → Option ℕ) → Bool → ℕ → Bool → List String → Launched
main int prctl_works ppid exec_works [] = exits 2
main int prctl_works ppid exec_works (a ∷ []) = exits 2
main int prctl_works ppid exec_works (a ∷ c ∷ cs) =
    launched_for (int a) prctl_works ppid exec_works (c ∷ cs)
