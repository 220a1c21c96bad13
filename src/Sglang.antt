-- ===== src/Sglang.antt =====
-- `SGLangKVBackend` of agentfork/kv/sglang_backend.py. The engine's `TreeRadixCache` is a parameter.
pub mod Lengths
pub mod Tests
use agentfork.Base.{
  ℕ, zero, suc, ◌+◌, ◌-◌, String, Bool, true, false, Option, none, some, List, [], ◌∷◌, length, leb,
  if◌then◌else◌,
}
use agentfork.Base.Dict.{Dict, lookup, insert, erase, contains}
use agentfork.Base.Int.{ℤ, pos, negsuc}

-- The calls of the engine, `none` where they raise: `fork` gives the name of the new branch, `kill`
-- the freed tokens, and `extend` the length of the hit.
pub record Engine (E : Type 0) : Type 0 where
  pub create_agent_tree : String → E → Option (Unit {0}) × E
  pub fork_branch : String → Option String → E → Option String × E
  pub kill_tree : String → E → Option ℕ × E
  pub extend_tree : String → List ℕ → E → Option ℕ × E

pub record SglangKvBackend (E : Type 0) : Type 0 where
  pub cache : E
  pub lengths : Dict ℕ

-- `KeyError`, or what the engine raises
pub data Failure : Type 0 where
  key_error engine_error : Failure

pub data Returned (A : Type 0) : Type 0 where
  ok : A → Returned A
  failed : Failure → Returned A

-- `a - b`, which may be negative
abbrev pub minus : ℕ → ℕ → ℤ
minus a b = elim (b - a) [ zero ↦ pos (a - b) | suc n ↦ negsuc n ]

abbrev pub max : ℕ → ℕ → ℕ
max a b = if leb a b then b else a

module _ {E : Type 0} (engine : Engine E) where
  abbrev pub made : String → Option (Unit {0}) × E → Dict ℕ → Returned Unit × SglangKvBackend E
  made id (none, e) d = (failed engine_error, record { cache = e; lengths = d })
  made id (some u, e) d = (ok tt, record { cache = e; lengths = insert id 0 d })

  unfoldable pub create_tree : String → SglangKvBackend E → Returned Unit × SglangKvBackend E
  create_tree id b = made id (engine.create_agent_tree id b.cache) b.lengths

  abbrev pub forked_at : ℕ → Option String × E → Dict ℕ → Returned String × SglangKvBackend E
  forked_at parent_len (none, e) d = (failed engine_error, record { cache = e; lengths = d })
  forked_at parent_len (some child, e) d =
      (ok child, record { cache = e; lengths = insert child parent_len d })

  abbrev pub fork_known :
      String → Option String → Option ℕ → SglangKvBackend E → Returned String × SglangKvBackend E
  fork_known parent_id child_id none b = (failed key_error, b)
  fork_known parent_id child_id (some parent_len) b =
      forked_at parent_len (engine.fork_branch parent_id child_id b.cache) b.lengths

  unfoldable pub fork :
      String → Option String → SglangKvBackend E → Returned String × SglangKvBackend E
  fork parent_id child_id b = fork_known parent_id child_id (lookup parent_id b.lengths) b

  abbrev pub dropped : String → Option ℕ × E → Dict ℕ → Returned ℕ × SglangKvBackend E
  dropped id (none, e) d = (failed engine_error, record { cache = e; lengths = d })
  dropped id (some freed, e) d = (ok freed, record { cache = e; lengths = erase id d })

  -- `kill`: the engine first
  unfoldable pub kill_tree : String → SglangKvBackend E → Returned ℕ × SglangKvBackend E
  kill_tree id b = dropped id (engine.kill_tree id b.cache) b.lengths

  abbrev pub charged : String → ℕ → ℕ → Option ℕ × E → Dict ℕ → Returned ℤ × SglangKvBackend E
  charged id old_len n (none, e) d = (failed engine_error, record { cache = e; lengths = d })
  charged id old_len n (some hit, e) d =
      let new_total = old_len + n in
      (
        ok (minus new_total (max hit old_len)),
        record { cache = e; lengths = insert id new_total d },
      )

  abbrev pub extend_known :
      String → List ℕ → Option ℕ → SglangKvBackend E → Returned ℤ × SglangKvBackend E
  extend_known id tokens none b = (failed key_error, b)
  extend_known id tokens (some old_len) b =
      charged id old_len (length tokens) (engine.extend_tree id tokens b.cache) b.lengths

  -- `extend`
  unfoldable pub extend_tree : String → List ℕ → SglangKvBackend E → Returned ℤ × SglangKvBackend E
  extend_tree id tokens b = extend_known id tokens (lookup id b.lengths) b

  abbrev pub has_branch : String → SglangKvBackend E → Bool
  has_branch id b = contains id b.lengths

-- A call, and what is left after calls one after the other, whether they raised or not
pub data Call : Type 0 where
  creates : String → Call
  forks : String → Option String → Call
  kills : String → Call
  extends : String → List ℕ → Call

module _ {E : Type 0} (engine : Engine E) where
  abbrev pub after : Call → SglangKvBackend E → SglangKvBackend E
  after (creates id) b = (create_tree engine id b).1
  after (forks parent_id child_id) b = (fork engine parent_id child_id b).1
  after (kills id) b = (kill_tree engine id b).1
  after (extends id tokens) b = (extend_tree engine id tokens b).1

  abbrev pub after_all : List Call → SglangKvBackend E → SglangKvBackend E
  after_all [] b = b
  after_all (c ∷ cs) b = after_all cs (after c b)
