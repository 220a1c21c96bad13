-- ===== src/Reaper/Over.antt =====
-- After `kill` and `close` of agentfork/kill/reaper.py the processes are gone and the pidfds closed.
use agentfork.Base.{ℕ, String, ◌≡◌, refl, Bool, true, false, Option, none, some}
use agentfork.Base.Dict.{Dict, erase}
use agentfork.Reaper.{
  Called, done, absent, failed, System, BranchReaper, waited, signaled, made_sure, settled, freed,
  then_cache, kill_found,
}

-- No process that is gone comes back, and no pidfd that is closed is open again.
abbrev pub Calm : {W : Type 0} → (ℕ → W → Bool) → (ℕ → W → Bool) → W → W → Type 0
Calm is_running is_open w v =
    ((p : ℕ) → is_running p w ≡ false → is_running p v ≡ false)
    × ((f : ℕ) → is_open f w ≡ false → is_open f v ≡ false)

-- What is relied on of the system: `wait` returns when the process has ended, `poll` tells the truth,
-- `close` closes, and nothing else brings a process or a pidfd back.
pub record Lawful {W : Type 0} (os : System W) (is_running is_open : ℕ → W → Bool) : Type 0 where
  pub wait_ends : (p : ℕ) (w : W) → is_running p (os.proc_wait p w) ≡ false
  pub poll_tells : (p : ℕ) (w : W) → (os.poll p w).0 ≡ true → is_running p (os.poll p w).1 ≡ false
  pub close_closes : (f : ℕ) (w : W) → is_open f (os.close f w) ≡ false
  pub calm_signal : (f : ℕ) (w : W) → Calm is_running is_open w (os.send_sigkill f w).1
  pub calm_waitid : (f : ℕ) (w : W) → Calm is_running is_open w (os.waitid f w).1
  pub calm_kill : (p : ℕ) (w : W) → Calm is_running is_open w (os.proc_kill p w)
  pub calm_wait : (p : ℕ) (w : W) → Calm is_running is_open w (os.proc_wait p w)
  pub calm_poll : (p : ℕ) (w : W) → Calm is_running is_open w (os.poll p w).1
  pub calm_close : (f : ℕ) (w : W) → Calm is_running is_open w (os.close f w)
  pub calm_kv : (id : String) (w : W) → Calm is_running is_open w (os.kv_kill id w).1

module _ {W : Type 0} (os : System W) (executable own_pid : String)
    (is_running is_open : ℕ → W → Bool) (law : Lawful os is_running is_open) where
  abbrev pub Still : W → W → Type 0
  Still w v = Calm is_running is_open w v

  pub trans : (u v w : W) → Still u v → Still v w → Still u w
  trans u v w h k = ((λ p e. k.0 p (h.0 p e)), λ f e. k.1 f (h.1 f e))

  waited-Still :
      (pid : ℕ) (w : W) (x : Called × W)
      → Still w x.1
      → Still w (waited os executable own_pid pid x).1
  waited-Still pid w (done, v) h = trans w v _ h (law.calm_wait pid v)
  waited-Still pid w (absent, v) h = trans w v _ h (law.calm_wait pid v)
  waited-Still pid w (failed, v) h = h

  signaled-Still :
      (pid fd : ℕ) (w : W) (x : Called × W)
      → Still w x.1
      → Still w (signaled os executable own_pid pid fd x).1
  signaled-Still pid fd w (done, v) h =
      waited-Still pid w (os.waitid fd v) (trans w v _ h (law.calm_waitid fd v))
  signaled-Still pid fd w (absent, v) h =
      waited-Still pid w (os.waitid fd v) (trans w v _ h (law.calm_waitid fd v))
  signaled-Still pid fd w (failed, v) h = h

  -- The process is gone, and its pidfd closed.
  abbrev pub Over : ℕ → ℕ → W → Type 0
  Over pid fd w = (is_running pid w ≡ false) × (is_open fd w ≡ false)

  pub Over-Still : (pid fd : ℕ) (w v : W) → Still w v → Over pid fd w → Over pid fd v
  Over-Still pid fd w v h o = (h.0 pid o.0, h.1 fd o.1)

  made_sure-Still :
      (pid : ℕ) (w : W) (x : Bool × W)
      → Still w x.1
      → Still w (made_sure os executable own_pid pid x)
  made_sure-Still pid w (true, v) h = h
  made_sure-Still pid w (false, v) h =
      trans w (os.proc_kill pid v) _ (trans w v _ h (law.calm_kill pid v))
        (law.calm_wait pid (os.proc_kill pid v))

  made_sure_ends :
      (pid : ℕ) (x : Bool × W)
      → (x.0 ≡ true → is_running pid x.1 ≡ false)
      → is_running pid (made_sure os executable own_pid pid x) ≡ false
  made_sure_ends pid (true, v) h = h refl
  made_sure_ends pid (false, v) h = law.wait_ends pid (os.proc_kill pid v)

  settled-Still : (pid fd : ℕ) (w : W) → Still w (settled os executable own_pid pid fd w)
  settled-Still pid fd w =
      let sure = made_sure os executable own_pid pid (os.poll pid w) in
      trans w sure (os.close fd sure) (made_sure-Still pid w (os.poll pid w) (law.calm_poll pid w))
        (law.calm_close fd sure)

  settled-Over : (pid fd : ℕ) (w : W) → Over pid fd (settled os executable own_pid pid fd w)
  settled-Over pid fd w =
      let sure = made_sure os executable own_pid pid (os.poll pid w) in
      (
        (law.calm_close fd sure).0 pid (made_sure_ends pid (os.poll pid w) (law.poll_tells pid w)),
        law.close_closes fd sure,
      )

  freed-Still :
      (pid : ℕ) (w : W) (x : Option ℕ × W) (d : Dict (ℕ × ℕ))
      → Still w x.1
      → Still w (freed os executable own_pid pid x d).1.world
  freed-Still pid w (none, v) d h = h
  freed-Still pid w (some n, v) d h = h

  then_cache-Still :
      (has_kv : Bool) (id : String) (pid : ℕ) (ok : Bool) (r : BranchReaper W)
      → Still r.world (then_cache os executable own_pid has_kv id pid ok r).1.world
  then_cache-Still has_kv id pid false r = ((λ p e. e), λ f e. e)
  then_cache-Still true id pid true r =
      freed-Still pid r.world (os.kv_kill id r.world) r.branches (law.calm_kv id r.world)
  then_cache-Still false id pid true r = ((λ p e. e), λ f e. e)

  freed_branches :
      (pid : ℕ) (x : Option ℕ × W) (d : Dict (ℕ × ℕ))
      → (freed os executable own_pid pid x d).1.branches ≡ d
  freed_branches pid (none, v) d = refl
  freed_branches pid (some n, v) d = refl

  pub then_cache_branches :
      (has_kv : Bool) (id : String) (pid : ℕ) (ok : Bool) (r : BranchReaper W)
      → (then_cache os executable own_pid has_kv id pid ok r).1.branches ≡ r.branches
  then_cache_branches has_kv id pid false r = refl
  then_cache_branches true id pid true r = freed_branches pid (os.kv_kill id r.world) r.branches
  then_cache_branches false id pid true r = refl

  pub kill_found-Still :
      (has_kv : Bool) (id : String) (x : Option (ℕ × ℕ)) (r : BranchReaper W)
      → Still r.world (kill_found os executable own_pid has_kv id x r).1.world
  kill_found-Still has_kv id none r = ((λ p e. e), λ f e. e)
  kill_found-Still has_kv id (some (pid, fd)) r =
      let x = signaled os executable own_pid pid fd (os.send_sigkill fd r.world) in
      let next : BranchReaper W = record {
        branches = erase id r.branches;
        world = settled os executable own_pid pid fd x.1;
      } in
      trans r.world x.1 _
        (signaled-Still pid fd r.world (os.send_sigkill fd r.world) (law.calm_signal fd r.world))
        (trans x.1 next.world _ (settled-Still pid fd x.1)
          (then_cache-Still has_kv id pid x.0 next))

  pub kill_found-Over :
      (has_kv : Bool) (id : String) (pid fd : ℕ) (r : BranchReaper W)
      → Over pid fd (kill_found os executable own_pid has_kv id (some (pid, fd)) r).1.world
  kill_found-Over has_kv id pid fd r =
      let x = signaled os executable own_pid pid fd (os.send_sigkill fd r.world) in
      let next : BranchReaper W = record {
        branches = erase id r.branches;
        world = settled os executable own_pid pid fd x.1;
      } in
      Over-Still pid fd next.world _ (then_cache-Still has_kv id pid x.0 next)
        (settled-Over pid fd x.1)
