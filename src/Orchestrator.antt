-- ===== src/Orchestrator.antt =====
-- The registry of `ForkOrchestrator` (agentfork/orchestrator.py), and its journal on disk. The lock
-- is held over each function of this file.
pub mod Backends
pub mod Kill
pub mod Spawn
pub mod Collect
pub mod Durable
pub mod Keeps
pub mod Retry
pub mod Created
pub mod Reaped
pub mod Fork
pub mod Losers
pub mod Calls
pub mod Frame
pub mod Winner
pub mod Tests
use agentfork.Base.{ℕ, zero, suc, ◌+◌, String, Bool, true, false, ◌&&◌, Option, none, some, List}
use agentfork.Base.Int.{ℤ, pos, negsuc, is_nonpos}
use agentfork.Base.Dict.{Dict, insert, erase}

-- `_STATE_FORKING`, `_STATE_LIVE` and `_STATE_KILLING`
pub data BranchState : Type 0 where
  forking live killing : BranchState

-- Clock readings are in ticks.
pub record Branch : Type 0 where
  pub branch_id : String
  pub parent_id : Option String
  pub state : BranchState
  pub created_at : ℕ
  pub lease_expires_at : Option ℕ

pub record KillReceipt : Type 0 where
  pub branch_id : String
  pub kv_freed_tokens : ℕ
  pub reaped : Bool

-- What a method raises: `RuntimeError` of `_ensure_open`, the other `RuntimeError`s, `ValueError`,
-- `KeyError`, an error of `_persist`, and whatever a backend raises.
pub data Failure : Type 0 where
  closed unsupported bad_value no_branch write_failed backend_failed : Failure

pub data Reply (A : Type 0) : Type 0 where
  done : A → Reply A
  failed : Failure → Reply A

pub record OrchestratorMetrics : Type 0 where
  pub forks : ℕ
  pub kills : ℕ
  pub kill_failures : ℕ
  pub execs : ℕ
  pub reconciles : ℕ
  pub reaped_expired : ℕ
  pub swept_dead : ℕ
  pub restarted : ℕ

-- The fields of the object: `seq` is `_seq`, `in_spawn` is `_spawning`, `in_kill` is `_killing`.
pub record ForkOrchestrator : Type 0 where
  pub registry_path : Option String
  pub default_lease_s : Option ℤ
  pub seq : ℕ
  pub is_closing : Bool
  pub is_closed : Bool
  pub branches : Dict Branch
  pub loaded_branch_ids : List String
  pub in_spawn : List String
  pub in_kill : List String
  pub metrics : OrchestratorMetrics

-- The object, the registry file's branches, and the rest of the world.
pub record System (W : Type 0) : Type 0 where
  pub orch : ForkOrchestrator
  pub file : Dict Branch
  pub world : W

-- `_ensure_open`
abbrev pub ensure_open : Bool → ForkOrchestrator → Bool
ensure_open allow_closing o = elim o.is_closed [
  | true ↦ false
  | false ↦ elim o.is_closing [ true ↦ allow_closing | false ↦ true ]
]

abbrev pub is_live : BranchState → Bool
is_live forking = false
is_live live = true
is_live killing = false

-- `_lease_expiry`, with the time that the clock shows
abbrev pub expiry : ℕ → Option ℤ → Reply (Option ℕ)
expiry now none = done none
expiry now (some (pos zero)) = failed bad_value
expiry now (some (pos (suc n))) = done (some (now + suc n))
expiry now (some (negsuc n)) = failed bad_value

abbrev pub lease_expiry : ℕ → Option ℤ → Option ℤ → Reply (Option ℕ)
lease_expiry now default_lease_s none = expiry now default_lease_s
lease_expiry now default_lease_s (some lease_s) = expiry now (some lease_s)

-- `self._branches[k] = previous`, or `pop` where there was none
abbrev pub restore : String → Option Branch → Dict Branch → Dict Branch
restore k none d = erase k d
restore k (some previous) d = insert k previous d
