-- ===== src/Http/Tests.antt =====
-- Requests and threads of agentfork/kv/sglang_http_backend.py at concrete values
use agentfork.Base.{ℕ, ◌≡◌, refl, true, false, none, some, [], ◌∷◌, ◌==◌, if◌then◌else◌, same}
use agentfork.Base.Dict.{lookup, mem, add, discard, insert, erase}
use agentfork.Base.Int.{pos}
use agentfork.Wire.{whole, boolean, number, text, object, done, field, get}
use agentfork.Http.{SglangHttpBackend, is_untracked, created, active_of}
use agentfork.Http.Request.{
  Outcome, responded, http_error, unreachable, reject, attempt, request_json, operation,
  create_tree, fork_child, kill_remote, generate_remote, has_remote_tree, returned, raised, refused,
  value_error, request_error,
}
use agentfork.Http.Threads.{Threads, count, remove_one, at_start}
use agentfork.Http.Attempts.{Sends, request_json-Sends}

program : Unit {0}
unfolding get attempt request_json operation create_tree fork_child kill_remote generate_remote
    has_remote_tree same lookup mem add discard insert erase count remove_one
program = tt

-- The first request is refused for load, the second has no answer, the third is served.
abbrev busy : ℕ → Outcome
busy n =
    if n == 0
    then http_error 503 none
    else (if n == 1
        then unreachable
        else responded (
            some (
              object
                (field "success" (boolean true) (field "value" (number (whole (pos 7))) done)))))

abbrev missing : ℕ → Outcome
missing n =
    http_error 400 (
      some
        (object (field "success" (boolean false) (field "message" (text "no such branch") done))))

abbrev one : SglangHttpBackend
one = created "a" at_start.backend

requests :
    ((request_json 2 true true busy).1 ≡ 3)
    × (request_json 1 true true busy ≡ (reject, 2))
    × (request_json 2 false true busy ≡ (reject, 1))
    × ((kill_remote 2 (λ s. true) (λ s. none) "a" missing one).0 ≡ returned (pos 0))
    × ((kill_remote 2 (λ s. true) (λ s. none) "a" busy one).0 ≡ returned (pos 7))
    × ((has_remote_tree 2 (λ s. true) (λ s. none) missing) ≡ returned false)
    × ((fork_child 2 (λ s. true) (λ s. none) "a" none busy one).0 ≡ raised value_error)
    × ((fork_child 2 (λ s. true) (λ s. none) "b" (some "c") busy one).0
        ≡ raised (refused is_untracked))
    × ((generate_remote 2 (λ s. true) (λ s. none) true "a" none busy one).0 ≡ raised request_error)
    × (active_of "a" (generate_remote 2 (λ s. true) (λ s. none) false "a" none busy one).1 ≡ 1)
unfolding program
requests = (refl, refl, refl, refl, refl, refl, refl, refl, refl, refl)

-- A request starts, `kill` waits for it, and the delete is sent after its end.
abbrev deleted_after : Threads
deleted_after = record {
  backend = record one { closing_branches = "a" ∷ [] };
  in_flight = [];
  waiting = [];
  deleting = "a" ∷ [];
}

request_json-Sends_example : Sends true busy 0 3 (request_json 2 true true busy)
request_json-Sends_example = request_json-Sends 2 true true busy
