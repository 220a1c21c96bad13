-- ===== src/Harness.antt =====
-- `TreeAgent` of agentfork/harness/agent.py: its ledger of committed prefixes, the values of its loop,
-- and what it uses of `ForkOrchestrator`.
pub mod Round
pub mod Lineage
pub mod Tests
use agentfork.Base.{
  ℕ, ◌<◌, String, Bool, true, false, ◌&&◌, Option, none, some, List, [], ◌∷◌, length, drop, strip,
  ltb, is_some, if◌then◌else◌,
}
use agentfork.Base.Dict.{Dict, lookup, insert, erase}

-- A `str`, as its code points, or a `list[int]`
pub data Prefix : Type 0 where
  text tokens : List ℕ → Prefix

abbrev pub units : Prefix → List ℕ
units (text s) = s
units (tokens s) = s

pub data Raised : Type 0 where
  prefix_violation no_winner type_error value_error key_error : Raised
  call_failed : Raised

-- A value, or the exception in its place
pub data Answer (A : Type 0) : Type 0 where
  gave : A → Answer A
  raised : Raised → Answer A

-- A call that may raise, on a state
abbrev pub Action : Type 0 → Type 0 → Type 0
Action S A = S → Answer A × S

module _ {S A B : Type 0} where
  abbrev pub continued : Answer A × S → (A → Action S B) → Answer B × S
  continued (gave x, s) f = f x s
  continued (raised e, s) f = (raised e, s)

-- The methods of the orchestrator that the agent calls; `generate` is without what it returns, and
-- `kill_losers` gives the branch and `reaped` of each receipt.
pub record Host (O : Type 0) (Params : Type 0) : Type 0 where
  pub create_parent : String → Option ℕ → Action O Unit
  pub extend : String → List ℕ → Action O Unit
  pub generate : String → List ℕ → Params → Action O Unit
  pub fork : String → ℕ → Option (List String) → Action O (List String)
  pub kill_losers : String → Action O (List (String × Bool))

pub record TreeAgent (O : Type 0) : Type 0 where
  pub orch : O
  pub prefix : Dict Prefix

abbrev pub is_longer : List ℕ → List ℕ → Bool
is_longer base c = ltb (length base) (length c) && is_some (strip base c)

-- `_strictly_extends`, where both values are of one kind
abbrev pub strictly_extends : Prefix → Prefix → Bool
strictly_extends (text base) (text c) = is_longer base c
strictly_extends (tokens base) (tokens c) = is_longer base c
strictly_extends (text base) (tokens c) = false
strictly_extends (tokens base) (text c) = false

-- `_unit`; the first argument is `_string_path`.
abbrev pub unit : Bool → (List ℕ → List ℕ) → Prefix → Answer Prefix
unit true encode (text s) = gave (text s)
unit true encode (tokens ts) = raised type_error
unit false encode (text s) = gave (tokens (encode s))
unit false encode (tokens ts) = gave (tokens ts)

module _ {A B : Type 0} where
  -- A value, with what follows it
  abbrev pub along : Answer A → (A → Answer B) → Answer B
  along (gave x) f = f x
  along (raised e) f = raised e

-- `[self._unit(c) for c in continuations]`
abbrev pub targets_of : Bool → (List ℕ → List ℕ) → List Prefix → Answer (List Prefix)
targets_of on_text encode [] = gave []
targets_of on_text encode (c ∷ cs) =
    along (unit on_text encode c) (λ t. along (targets_of on_text encode cs) (λ ts. gave (t ∷ ts)))

-- `_require_extension` for each target
abbrev pub all_extend : Prefix → List Prefix → Bool
all_extend base [] = true
all_extend base (t ∷ ts) = strictly_extends base t && all_extend base ts

module _ {O Params : Type 0} (host : Host O Params) where
  abbrev pub known : {A : Type 0} → Option A → Answer A
  known none = raised key_error
  known (some p) = gave p

  -- `committed_prefix`
  abbrev pub committed_prefix : String → TreeAgent O → Answer Prefix
  committed_prefix id a = known (lookup id a.prefix)

  abbrev pub set_prefix : String → Prefix → TreeAgent O → TreeAgent O
  set_prefix id p a = record a { prefix = insert id p a.prefix }

  -- The children inherit the prefix of their parent.
  unfoldable pub inherit : Prefix → List String → TreeAgent O → TreeAgent O
  inherit base [] a = a
  inherit base (c ∷ cs) a = inherit base cs (set_prefix c base a)

  -- A call of the orchestrator
  abbrev pub of_orch : {A : Type 0} → Answer A × O → TreeAgent O → Answer A × TreeAgent O
  of_orch (r, o) a = (r, record a { orch = o })

  -- The call by which `_commit` charges the branch; `string_path` says on which path.
  abbrev pub charge :
      Bool → String → Prefix → Prefix → Params → TreeAgent O → Answer Unit × TreeAgent O
  charge true id base target params a = of_orch (host.generate id (units target) params a.orch) a
  charge false id base target params a =
      of_orch (host.extend id (drop (length (units base)) (units target)) a.orch) a

  -- `_commit`; `params` has the default `{"max_new_tokens": 1}` filled in.
  abbrev pub commit : Bool → String → Prefix → Params → TreeAgent O → Answer Unit × TreeAgent O
  commit on_text id target params a =
      continued (committed_prefix id a, a)
        (λ base a.
          continued (charge on_text id base target params a)
            (λ u a. (gave tt, set_prefix id target a)))

  -- `_forget`: the prefixes of the branches that were reaped are dropped.
  abbrev pub forget : List (String × Bool) → Dict Prefix → Dict Prefix
  forget [] d = d
  forget ((id, reaped) ∷ rs) d = forget rs (if reaped then erase id d else d)

  -- `kill_losers`
  abbrev pub kill_losers : String → TreeAgent O → Answer (List (String × Bool)) × TreeAgent O
  kill_losers id a =
      continued (of_orch (host.kill_losers id a.orch) a)
        (λ receipts a. (gave receipts, record a { prefix = forget receipts a.prefix }))

  abbrev pub empty_prefix : Bool → Prefix
  empty_prefix on_text = if on_text then text [] else tokens []

  -- `prepare_root`; `_unit` is applied after the branch was created.
  unfoldable pub prepare_root :
      Bool
      → (List ℕ → List ℕ)
      → String
      → Prefix
      → Option ℕ
      → Params
      → TreeAgent O
      → Answer Unit × TreeAgent O
  prepare_root on_text encode id context lease params a =
      continued (of_orch (host.create_parent id lease a.orch) a) (λ u a.
        continued (unit on_text encode context, set_prefix id (empty_prefix on_text) a)
          (λ target a. commit on_text id target params a))
