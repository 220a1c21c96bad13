-- ===== src/Sglang/Lengths.antt =====
-- The lengths of agentfork/kv/sglang_backend.py are those of the engine's sequences.
use agentfork.Base.{
  true, false, ◌≤◌, Bool, sym, subst, ℕ, ◌+◌, String, ◌≡◌, refl, sym, subst, Option, none, some,
  List, [], ◌∷◌, length, if◌then◌else◌, same, arith,
}
use agentfork.Base.Dict.{Dict, insert, erase, lookup, lookup-insert, lookup-erase}
use agentfork.Sglang.{
  Engine, SglangKvBackend, made, create_tree, forked_at, fork_known, fork, dropped, kill_tree,
  charged, extend_known, extend_tree, Call, creates, forks, kills, extends, after, after_all,
}

-- `of_branch e id` is the length of the branch's sequence in the engine.
abbrev pub Lengths : Type 0 → Type 0
Lengths E = E → String → Option ℕ

-- What a call of the engine makes of a length: a call that raises leaves all as they are, and else
-- only the branch has another.
abbrev pub Sets : {E A : Type 0} → Lengths E → E → (A → String) → Option ℕ → Option A × E → Type 0
Sets of_branch e name n (none, e2) = (j : String) → of_branch e2 j ≡ of_branch e j
Sets of_branch e name n (some a, e2) =
    (j : String) → of_branch e2 j ≡ (if same (name a) j then n else of_branch e j)

-- A fork may keep less than its parent's sequence: what was evicted is cut off.
abbrev pub SetsUpTo : {E : Type 0} → Lengths E → E → Option ℕ → Option String × E → Type 0
SetsUpTo of_branch e none r = Unit
SetsUpTo of_branch e (some n) r = (m : ℕ) × (m ≤ n) × Sets of_branch e (λ c. c) (some m) r

pub record Lawful {E : Type 0} (engine : Engine E) (of_branch : Lengths E) : Type 0 where
  pub sets_created :
      (id : String) (e : E) → Sets of_branch e (λ u. id) (some 0) (engine.create_agent_tree id e)
  pub sets_forked :
      (parent : String) (child : Option String) (e : E)
      → SetsUpTo of_branch e (of_branch e parent) (engine.fork_branch parent child e)
  pub sets_killed : (id : String) (e : E) → Sets of_branch e (λ n. id) none (engine.kill_tree id e)
  pub sets_extended :
      (id : String) (tokens : List ℕ) (e : E) (n : ℕ)
      → of_branch e id ≡ some n
      → Sets of_branch e (λ h. id) (some (n + length tokens)) (engine.extend_tree id tokens e)

-- A kept length and the engine's: both or none, and the engine's is no more.
abbrev pub Covers : Option ℕ → Option ℕ → Type 0
Covers none none = Unit
Covers none (some m) = ⊥
Covers (some n) none = ⊥
Covers (some n) (some m) = m ≤ n

abbrev set_at : Bool → Option ℕ → Option ℕ → Option ℕ
set_at here n old = if here then n else old

Covers-set_at :
    (here : Bool) (n m old real : Option ℕ)
    → Covers n m
    → Covers old real
    → Covers (set_at here n old) (set_at here m real)
Covers-set_at true n m old real h k = h
Covers-set_at false n m old real h k = k

Covers-some : (n : ℕ) (real : Option ℕ) → Covers (some n) real → (m : ℕ) × (real ≡ some m) × (m ≤ n)
Covers-some n none h = absurd h
Covers-some n (some m) h = (m, refl, h)

module _ {E : Type 0} (engine : Engine E) (of_branch : Lengths E)
    (law : Lawful engine of_branch) where
  -- The backend has the branches of the engine, each with a length that covers its sequence.
  abbrev pub Tracks : SglangKvBackend E → Type 0
  Tracks b = (j : String) → Covers (lookup j b.lengths) (of_branch b.cache j)

  unchanged-Tracks :
      (b : SglangKvBackend E) (e : E)
      → Tracks b
      → ((j : String) → of_branch e j ≡ of_branch b.cache j)
      → Tracks (record { cache = e; lengths = b.lengths })
  unchanged-Tracks b e t s j = subst (Covers (lookup j b.lengths)) (sym (s j)) (t j)

  changed-Tracks :
      (id : String) (n m : Option ℕ) (b : SglangKvBackend E) (e : E) (d : Dict ℕ)
      → Tracks b
      → Covers n m
      → ((j : String) → lookup j d ≡ set_at (same id j) n (lookup j b.lengths))
      → ((j : String) → of_branch e j ≡ set_at (same id j) m (of_branch b.cache j))
      → Tracks (record { cache = e; lengths = d })
  changed-Tracks id n m b e d t c kept real j =
      subst (λ o. Covers o (of_branch e j)) (sym (kept j))
        (subst (Covers (set_at (same id j) n (lookup j b.lengths))) (sym (real j))
          (Covers-set_at (same id j) n m (lookup j b.lengths) (of_branch b.cache j) c (t j)))

  made-Tracks :
      (id : String) (b : SglangKvBackend E) (x : Option (Unit {0}) × E)
      → Tracks b
      → Sets of_branch b.cache (λ u. id) (some 0) x
      → Tracks (made engine id x b.lengths).1
  made-Tracks id b (none, e) t s = unchanged-Tracks b e t s
  made-Tracks id b (some u, e) t s =
      changed-Tracks id (some 0) (some 0) b e (insert id 0 b.lengths) t (omega arith)
        (λ j. lookup-insert id j 0 b.lengths) s

  forked_at-Tracks :
      (n m : ℕ) (b : SglangKvBackend E) (x : Option String × E)
      → Tracks b
      → m ≤ n
      → Sets of_branch b.cache (λ c. c) (some m) x
      → Tracks (forked_at engine n x b.lengths).1
  forked_at-Tracks n m b (none, e) t le s = unchanged-Tracks b e t s
  forked_at-Tracks n m b (some c, e) t le s =
      changed-Tracks c (some n) (some m) b e (insert c n b.lengths) t le
        (λ j. lookup-insert c j n b.lengths) s

  dropped-Tracks :
      (id : String) (b : SglangKvBackend E) (x : Option ℕ × E)
      → Tracks b
      → Sets of_branch b.cache (λ n. id) none x
      → Tracks (dropped engine id x b.lengths).1
  dropped-Tracks id b (none, e) t s = unchanged-Tracks b e t s
  dropped-Tracks id b (some c, e) t s =
      changed-Tracks id none none b e (erase id b.lengths) t tt (λ j. lookup-erase id j b.lengths) s

  charged-Tracks :
      (id : String) (n m k : ℕ) (b : SglangKvBackend E) (x : Option ℕ × E)
      → Tracks b
      → m ≤ n
      → Sets of_branch b.cache (λ h. id) (some (m + k)) x
      → Tracks (charged engine id n k x b.lengths).1
  charged-Tracks id n m k b (none, e) t le s = unchanged-Tracks b e t s
  charged-Tracks id n m k b (some c, e) t le s =
      changed-Tracks id (some (n + k)) (some (m + k)) b e (insert id (n + k) b.lengths) t
        (omega (arith, le)) (λ j. lookup-insert id j (n + k) b.lengths) s

  real_length :
      (id : String) (b : SglangKvBackend E) (n : ℕ)
      → Tracks b
      → lookup id b.lengths ≡ some n
      → (m : ℕ) × (of_branch b.cache id ≡ some m) × (m ≤ n)
  real_length id b n t h =
      Covers-some n (of_branch b.cache id) (subst (λ o. Covers o (of_branch b.cache id)) h (t id))

  fork_known-Tracks :
      (parent : String) (child : Option String) (b : SglangKvBackend E) (o : Option ℕ)
      → Tracks b
      → lookup parent b.lengths ≡ o
      → Tracks (fork_known engine parent child o b).1
  fork_known-Tracks parent child b none t h = t
  fork_known-Tracks parent child b (some n) t h =
      let (m, known, le) = real_length parent b n t h in
      let (k, shorter, s) =
        subst (λ o. SetsUpTo of_branch b.cache o (engine.fork_branch parent child b.cache)) known
          (law.sets_forked parent child b.cache) in
      forked_at-Tracks n k b (engine.fork_branch parent child b.cache) t
        (omega (arith, le, shorter)) s

  extend_known-Tracks :
      (id : String) (tokens : List ℕ) (b : SglangKvBackend E) (o : Option ℕ)
      → Tracks b
      → lookup id b.lengths ≡ o
      → Tracks (extend_known engine id tokens o b).1
  extend_known-Tracks id tokens b none t h = t
  extend_known-Tracks id tokens b (some n) t h =
      let (m, known, le) = real_length id b n t h in
      charged-Tracks id n m (length tokens) b (engine.extend_tree id tokens b.cache) t le
        (law.sets_extended id tokens b.cache m known)

  after-Tracks : (c : Call) (b : SglangKvBackend E) → Tracks b → Tracks (after engine c b)
  unfolding create_tree fork kill_tree extend_tree
  after-Tracks (creates id) b t =
      made-Tracks id b (engine.create_agent_tree id b.cache) t (law.sets_created id b.cache)
  after-Tracks (forks parent child) b t =
      fork_known-Tracks parent child b (lookup parent b.lengths) t refl
  after-Tracks (kills id) b t =
      dropped-Tracks id b (engine.kill_tree id b.cache) t (law.sets_killed id b.cache)
  after-Tracks (extends id tokens) b t =
      extend_known-Tracks id tokens b (lookup id b.lengths) t refl

  -- If in the engine a new tree is empty, a fork has at most its parent's length, `kill_tree`
  -- drops the branch, `extend_tree` adds the new tokens, and a call that raises and the other
  -- branches' lengths change nothing, and if the backend keeps the branches of the engine, each
  -- with a length that is no less than its sequence, then so it does after any calls, whether they
  -- raise or not.
  pub after_all-Tracks :
      (calls : List Call) (b : SglangKvBackend E)
      → Tracks b
      → (id : String)
      → Covers
          (lookup id (after_all engine calls b).lengths)
          (of_branch (after_all engine calls b).cache id)
  after_all-Tracks [] b t id = t id
  after_all-Tracks (c ∷ cs) b t id = after_all-Tracks cs (after engine c b) (after-Tracks c b t) id
