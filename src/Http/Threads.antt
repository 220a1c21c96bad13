-- ===== src/Http/Threads.antt =====
-- The threads that use one `SGLangHTTPBackend` (agentfork/kv/sglang_http_backend.py) at a time, as a
-- step relation: a step is one section under the lock.
use agentfork.Base.{
  ℕ, ◌+◌, String, ◌≡◌, Bool, true, false, none, List, [], ◌∷◌, if◌then◌else◌, same,
}
use agentfork.Base.Dict.{mem, add, discard}
use agentfork.Http.{
  SglangHttpBackend, active_of, refusal, begin_use, end_use, created, forked, close_branch,
  reopen_branch, forgotten_branch,
}

-- The branches with a request in flight, one entry for each; those whose `kill` waits for their
-- requests; and those whose `kill` is with the server.
pub record Threads : Type 0 where
  pub backend : SglangHttpBackend
  pub in_flight : List String
  pub waiting : List String
  pub deleting : List String

-- How often the text is in the list
unfoldable pub count : String → List String → ℕ
count k [] = 0
count k (j ∷ s) = if same j k then count k s + 1 else count k s

-- The list without one occurrence of the text
unfoldable pub remove_one : String → List String → List String
remove_one k [] = []
remove_one k (j ∷ s) = if same j k then s else j ∷ remove_one k s

-- `start` and `finish` are the two sections of `generate`, and of `fork_branch` for its parent; a
-- `generate` that cannot build its body has no `finish`.
-- `enter`, `drain`, `give_up` (a timeout) and `leave` those of `kill`, where `leave` has the result
-- of the request; `create` and `fork` record a new branch.
pub data Step (s : Threads) : Threads → Type 0 where
  start :
      (id : String)
      → refusal id s.backend ≡ none
      → Step s (record s { backend = begin_use id s.backend; in_flight = id ∷ s.in_flight })
  finish :
      (id : String)
      → mem id s.in_flight ≡ true
      → Step s (record s { backend = end_use id s.backend; in_flight = remove_one id s.in_flight })
  enter :
      (id : String)
      → mem id s.backend.closing_branches ≡ false
      → Step s (record s { backend = close_branch id s.backend; waiting = add id s.waiting })
  drain :
      (id : String)
      → mem id s.waiting ≡ true
      → active_of id s.backend ≡ 0
      → Step s (record s { waiting = discard id s.waiting; deleting = add id s.deleting })
  give_up :
      (id : String)
      → mem id s.waiting ≡ true
      → Step s (record s { backend = reopen_branch id s.backend; waiting = discard id s.waiting })
  leave :
      (id : String) (killed : Bool)
      → mem id s.deleting ≡ true
      → Step s (record s {
        backend = reopen_branch id (if killed then forgotten_branch id s.backend else s.backend);
        deleting = discard id s.deleting;
      })
  create : (id : String) → Step s (record s { backend = created id s.backend })
  fork :
      (parent_id ns id : String) → Step s (record s { backend = forked parent_id ns id s.backend })

abbrev pub at_start : Threads
at_start = record {
  backend = record { active = []; closing_branches = []; namespaces = []; parents = [] };
  in_flight = [];
  waiting = [];
  deleting = [];
}

pub data Reach : Threads → Type 0 where
  here : Reach at_start
  later : {s t : Threads} → Reach s → Step s t → Reach t
