-- ===== src/Http/Request.antt =====
-- The requests of `SGLangHTTPBackend` (agentfork/kv/sglang_http_backend.py), and its methods for one
-- thread. What the server answers to each attempt is a function of the attempt's number.
use agentfork.Base.{
  ℕ, zero, suc, ◌+◌, String, Bool, true, false, ◌&&◌, ◌||◌, Option, none, some, ◌==◌, is_some,
  if◌then◌else◌, same,
}
use agentfork.Base.Int.{ℤ, pos, negsuc}
use agentfork.Base.Dict.{lookup}
use agentfork.Wire.{cut_off, Json, null, boolean, number, text, array, object, Fields, get}
use agentfork.Wire.Agent.{is_true}
use agentfork.Http.{
  SglangHttpBackend, Refusal, refusal, begin_use, end_use, created, forked, close_branch,
  reopen_branch, forgotten_branch,
}

-- A response with its body, `none` where this is not JSON; an HTTP error with its code and body; or
-- a server that is not reached in time.
pub data Outcome : Type 0 where
  responded : Option Json → Outcome
  http_error : ℕ → Option Json → Outcome
  unreachable : Outcome

pub data Verdict : Type 0 where
  accept : Fields → Verdict
  reject again : Verdict

-- The codes after which a request is tried again
abbrev pub is_transient : ℕ → Bool
is_transient code = code == 429 || code == 502 || code == 503 || code == 504

abbrev pub object_or : Option Json → Verdict → Verdict
object_or (some (object fs)) v = accept fs
object_or (some null) v = v
object_or (some (boolean b)) v = v
object_or (some (number n)) v = v
object_or (some (text s)) v = v
object_or (some (array is)) v = v
object_or none v = v

abbrev pub op_result_or : Option Json → Verdict → Verdict
op_result_or (some (object fs)) v = if is_some (get "success" fs) then accept fs else v
op_result_or (some null) v = v
op_result_or (some (boolean b)) v = v
op_result_or (some (number n)) v = v
op_result_or (some (text s)) v = v
op_result_or (some (array is)) v = v
op_result_or none v = v

abbrev pub retry_or_reject : Bool → Verdict
retry_or_reject true = again
retry_or_reject false = reject

-- One round of the loop of `_request_json`; `more` says whether attempts are left.
abbrev pub verdict : Bool → Bool → Outcome → Verdict
verdict expect_op_result more (responded body) = object_or body reject
verdict expect_op_result more (http_error code body) =
    let v = retry_or_reject (is_transient code && more) in
    if expect_op_result && code == 400 then op_result_or body v else v
verdict expect_op_result more unreachable = retry_or_reject more

-- The loop: the attempts that are left after this one, and the number of this one. The second part
-- of the result is how many requests were sent; a verdict `again` does not come out of it.
unfoldable pub attempt : Bool → (ℕ → Outcome) → ℕ → ℕ → Verdict × ℕ
attempt expect server zero n = (verdict expect false (server n), n + 1)
attempt expect server (suc left) n =
    let rest = attempt expect server left (n + 1) in
    elim (verdict expect true (server n)) [
      | accept fs ↦ (accept fs, n + 1)
      | reject ↦ (reject, n + 1)
      | again ↦ rest
    ]

-- `_request_json`
unfoldable pub request_json : ℕ → Bool → Bool → (ℕ → Outcome) → Verdict × ℕ
unfolding attempt
request_json max_retries retry expect server =
    attempt expect server (if retry then max_retries else 0) 0

pub data Operation : Type 0 where
  op_create op_fork op_kill op_reserve op_telemetry : Operation

abbrev pub is_retried : Operation → Bool
is_retried op_create = false
is_retried op_fork = false
is_retried op_kill = true
is_retried op_reserve = false
is_retried op_telemetry = true

-- `RuntimeError` of a request, `SGLangTreeCacheError`, and the error of a value of another type
pub data Operated : Type 0 where
  payload : Fields → Operated
  request_failed cache_error wrong_type : Operated

abbrev pub is_kill : Operation → Bool
is_kill op_create = false
is_kill op_fork = false
is_kill op_kill = true
is_kill op_reserve = false
is_kill op_telemetry = false

abbrev pub truth : Option Json → Bool
truth none = false
truth (some j) = is_true j

-- `payload.get("message", "unknown error")`, where it is a text
abbrev pub message_of : Option Json → Option String
message_of none = some "unknown error"
message_of (some (text s)) = some s
message_of (some null) = none
message_of (some (boolean b)) = none
message_of (some (number n)) = none
message_of (some (array is)) = none
message_of (some (object fs)) = none

-- `int(value or 0)`, where it does not raise; `int` reads a text.
abbrev pub int_of : (String → Option ℤ) → Option Json → Option ℤ
int_of int none = some (pos 0)
int_of int (some (number n)) = some (cut_off n)
int_of int (some null) = some (pos 0)
int_of int (some (boolean b)) = some (if b then pos 1 else pos 0)
int_of int (some (text s)) = if same s "" then some (pos 0) else int s
int_of int (some (array is)) = if is_true (array is) then none else some (pos 0)
int_of int (some (object fs)) = if is_true (object fs) then none else some (pos 0)

-- What a method raises: its refusal of a branch, the `RuntimeError` of a request, an
-- `SGLangTreeCacheError`, a `ValueError`, or the error of a value of another type
pub data Failed : Type 0 where
  refused : Refusal → Failed
  request_error tree_cache_error value_error type_error : Failed

pub data Result (A : Type 0) : Type 0 where
  returned : A → Result A
  raised : Failed → Result A

-- `says_missing` is `"no such" in message.lower()`, and `int` reads a text as a number.
module _ (max_retries : ℕ) (says_missing : String → Bool) (int : String → Option ℤ) where
  abbrev pub killed_if_missing : Option String → Fields → Operated
  killed_if_missing none fs = wrong_type
  killed_if_missing (some message) fs = if says_missing message then payload fs else cache_error

  abbrev pub judged : Operation → Verdict → Operated
  judged op (accept fs) =
      if truth (get "success" fs)
      then payload fs
      else (if is_kill op
          then killed_if_missing (message_of (get "message" fs)) fs
          else cache_error)
  judged op reject = request_failed
  judged op again = request_failed

  -- `_operation`
  unfoldable pub operation : Operation → (ℕ → Outcome) → Operated
  unfolding request_json
  operation op server = judged op (request_json max_retries (is_retried op) true server).0

  abbrev pub failure_of : {A : Type 0} → Operated → A → Result A
  failure_of (payload fs) a = returned a
  failure_of request_failed a = raised request_error
  failure_of cache_error a = raised tree_cache_error
  failure_of wrong_type a = raised type_error

  abbrev pub then_record :
      Operated → (SglangHttpBackend → SglangHttpBackend) → SglangHttpBackend → SglangHttpBackend
  then_record (payload fs) f h = f h
  then_record request_failed f h = h
  then_record cache_error f h = h
  then_record wrong_type f h = h

  unfoldable pub create_tree :
      String → (ℕ → Outcome) → SglangHttpBackend → Result Unit × SglangHttpBackend
  unfolding operation
  create_tree id server h =
      let r = operation op_create server in (failure_of r tt, then_record r (created id) h)

  abbrev pub forked_from :
      String → String → Option String → Operated → SglangHttpBackend → SglangHttpBackend
  forked_from parent_id id none r h = h
  forked_from parent_id id (some ns) r h = then_record r (forked parent_id ns id) h

  abbrev pub allowed_fork :
      String
      → String
      → Option Refusal
      → (ℕ → Outcome)
      → SglangHttpBackend
      → Result Unit × SglangHttpBackend
  allowed_fork parent_id id (some e) server h = (raised (refused e), h)
  allowed_fork parent_id id none server h =
      let r = operation op_fork server in
      (
        failure_of r tt,
        forked_from parent_id id (lookup parent_id h.namespaces) r
            (end_use parent_id (begin_use parent_id h)),
      )

  unfoldable pub fork_child :
      String → Option String → (ℕ → Outcome) → SglangHttpBackend → Result Unit × SglangHttpBackend
  fork_child parent_id none server h = (raised value_error, h)
  fork_child parent_id (some id) server h = allowed_fork parent_id id (refusal parent_id h) server h

  abbrev pub or_type_error : Option ℤ → Result ℤ
  or_type_error none = raised type_error
  or_type_error (some n) = returned n

  abbrev pub killed_tokens : Operated → Result ℤ
  killed_tokens (payload fs) = or_type_error (int_of int (get "value" fs))
  killed_tokens wrong_type = raised type_error
  killed_tokens request_failed = raised request_error
  killed_tokens cache_error = raised tree_cache_error

  -- `kill` of a branch that no other thread uses
  unfoldable pub kill_remote :
      String → (ℕ → Outcome) → SglangHttpBackend → Result ℤ × SglangHttpBackend
  unfolding operation
  kill_remote id server h =
      let r = operation op_kill server in
      (killed_tokens r, reopen_branch id (then_record r (forgotten_branch id) (close_branch id h)))

  unfoldable pub reserve_tokens : ℤ → (ℕ → Outcome) → Result Unit
  reserve_tokens (negsuc n) server = raised value_error
  reserve_tokens (pos n) server = failure_of (operation op_reserve server) tt

  abbrev pub present : Operated → Result Bool
  present (payload fs) = returned true
  present cache_error = returned false
  present request_failed = raised request_error
  present wrong_type = raised type_error

  unfoldable pub has_remote_tree : (ℕ → Outcome) → Result Bool
  has_remote_tree server = present (operation op_telemetry server)

  abbrev pub generated : Verdict → Result Fields
  generated (accept fs) = returned fs
  generated reject = raised request_error
  generated again = raised request_error

  -- `builds` says that the body can be built: where `dict(sampling_params)` or `list(prompt)`
  -- raises, the count that was raised for the request stays.
  abbrev pub allowed_generate :
      Bool
      → String
      → Option Refusal
      → (ℕ → Outcome)
      → SglangHttpBackend
      → Result Fields × SglangHttpBackend
  allowed_generate builds id (some e) server h = (raised (refused e), h)
  allowed_generate false id none server h = (raised type_error, begin_use id h)
  allowed_generate true id none server h =
      (generated (request_json max_retries false false server).0, end_use id (begin_use id h))

  abbrev pub is_negative : Option ℤ → Bool
  is_negative none = false
  is_negative (some (pos n)) = false
  is_negative (some (negsuc n)) = true

  -- `generate`, without the body that it sends
  unfoldable pub generate_remote :
      Bool
      → String
      → Option ℤ
      → (ℕ → Outcome)
      → SglangHttpBackend
      → Result Fields × SglangHttpBackend
  generate_remote builds id reserve server h =
      if is_negative reserve
      then (raised value_error, h)
      else allowed_generate builds id (refusal id h) server h
