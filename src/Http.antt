-- ===== src/Http.antt =====
-- The bookkeeping of `SGLangHTTPBackend` (agentfork/kv/sglang_http_backend.py): one function for each
-- section under its condition's lock. The requests are between these sections.
pub mod Request
pub mod Threads
pub mod Exclusive
pub mod Attempts
pub mod Tests
use agentfork.Base.{
  ℕ, zero, suc, ◌+◌, ◌-◌, String, Bool, true, false, Option, none, some, List, [], ◌∷◌, ◌==◌,
  is_some, if◌then◌else◌,
}
use agentfork.Base.Dict.{Dict, lookup, insert, erase, contains, mem, add, discard}

pub record SglangHttpBackend : Type 0 where
  pub active : Dict ℕ
  pub closing_branches : List String
  pub namespaces : Dict String
  pub parents : Dict (Option String)

-- `RuntimeError` for a branch that is being killed, and `KeyError`
pub data Refusal : Type 0 where
  is_killed is_untracked : Refusal

abbrev pub count_or_zero : Option ℕ → ℕ
count_or_zero none = 0
count_or_zero (some n) = n

-- `self._active.get(tree_id, 0)`
abbrev pub active_of : String → SglangHttpBackend → ℕ
active_of id h = count_or_zero (lookup id h.active)

abbrev pub tracked : Option String → Option Refusal
tracked none = some is_untracked
tracked (some ns) = none

-- The guards of `generate`, and of `fork_branch` for its parent
abbrev pub refusal : String → SglangHttpBackend → Option Refusal
refusal id h = elim (mem id h.closing_branches) [
  | true ↦ some is_killed
  | false ↦ tracked (lookup id h.namespaces)
]

-- A request on the branch begins.
abbrev pub begin_use : String → SglangHttpBackend → SglangHttpBackend
begin_use id h = record h { active = insert id (active_of id h + 1) h.active }

-- A request on the branch has ended: the `finally` of `generate` and of `fork_branch`
abbrev pub end_use : String → SglangHttpBackend → SglangHttpBackend
end_use id h =
    let remaining = active_of id h - 1 in
    record h { active = if remaining == 0 then erase id h.active else insert id remaining h.active }

-- What `create_tree` records after its request
abbrev pub created : String → SglangHttpBackend → SglangHttpBackend
created id h = record h {
  namespaces = insert id id h.namespaces;
  parents = insert id none h.parents;
}

-- What `fork_branch` records after its request
abbrev pub forked : String → String → String → SglangHttpBackend → SglangHttpBackend
forked parent_id ns id h = record h {
  namespaces = insert id ns h.namespaces;
  parents = insert id (some parent_id) h.parents;
}

-- `kill` closes the branch to new requests.
abbrev pub close_branch : String → SglangHttpBackend → SglangHttpBackend
close_branch id h = record h { closing_branches = add id h.closing_branches }

abbrev pub reopen_branch : String → SglangHttpBackend → SglangHttpBackend
reopen_branch id h = record h { closing_branches = discard id h.closing_branches }

-- What `kill` forgets after a request that succeeded
abbrev pub forgotten_branch : String → SglangHttpBackend → SglangHttpBackend
forgotten_branch id h = record h {
  namespaces = erase id h.namespaces;
  parents = erase id h.parents;
}
