-- ===== src/Http/Exclusive.antt =====
-- Requests and kills of one branch at a time (agentfork/kv/sglang_http_backend.py)
use agentfork.Base.{String, ◌≡◌, true, false, ◌||◌}
use agentfork.Base.Dict.{Dict, mem}
use agentfork.Http.{active_of}
use agentfork.Http.Threads.{Threads, count}

-- The counts are those of the requests in flight, a branch is closed while its kill waits or is with
-- the server, and then no request on it is in flight.
pub record Inv (s : Threads) : Type 0 where
  pub counted : (id : String) → active_of id s.backend ≡ count id s.in_flight
  pub closing :
      (id : String) → mem id s.backend.closing_branches ≡ (mem id s.waiting || mem id s.deleting)
  pub apart : (id : String) → mem id s.waiting ≡ true → mem id s.deleting ≡ false
  pub quiet : (id : String) → mem id s.deleting ≡ true → count id s.in_flight ≡ 0
