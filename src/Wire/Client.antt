-- ===== src/Wire/Client.antt =====
-- `VsockExecClient` of agentfork/sandbox/vsock.py, for what the socket gives back
use agentfork.Base.{
  ℕ, String, Bool, true, false, Option, none, some, List, [], ◌∷◌, ◌++◌, is_some, strip,
  if◌then◌else◌,
}
use agentfork.Wire.{
  Number, Json, null, boolean, number, text, array, object, Fields, done, field, get, texts, Codec,
}
use agentfork.Wire.Line.{Piece, Read, line, hung_up, unexpected, oversized, io_error, read_line}
use agentfork.Wire.Agent.{max_line}

-- The fields hold what the reply has, whatever it is.
pub record ExecResult : Type 0 where
  pub exit_code : Json
  pub stdout : List ℕ
  pub stderr : List ℕ
  pub timed_out : Json

pub record DetachedExec : Type 0 where
  pub pid : Json
  pub log_path : Json

-- `ValueError` for an empty `argv`, `VsockError`, and the errors of the socket itself
pub data VsockFailure : Type 0 where
  no_argv vsock_error socket_error : VsockFailure

pub data Answer (A : Type 0) : Type 0 where
  got : A → Answer A
  refused : VsockFailure → Answer A

-- `reply.startswith(b"OK ")`
abbrev pub is_ok : Read → Bool
is_ok (line bs) = is_some (strip (79 ∷ 75 ∷ 32 ∷ []) bs)
is_ok hung_up = false
is_ok unexpected = false
is_ok oversized = false
is_ok io_error = false

-- One attempt of `_connect`: an error of the socket before the answer, or the answer; and whether
-- the deadline has passed after it.
pub record Attempt : Type 0 where
  pub answer : Option (List Piece)
  pub is_late : Bool

abbrev pub is_accepted : Option (List Piece) → Bool
is_accepted none = false
is_accepted (some ps) = is_ok (read_line 256 0 [] ps)

-- `_connect`; `none` is a client that is still trying when the list of attempts ends.
unfoldable pub connect : List Attempt → Option Bool
unfolding read_line
connect [] = none
connect (a ∷ rest) =
    let later = connect rest in
    if is_accepted a.answer then some true else (if a.is_late then some false else later)

module _ (codec : Codec) where
  abbrev pub fields_of : Option Json → Answer Fields
  fields_of (some (object fs)) = elim (get "error" fs) [
    | none ↦ got fs
    | some e ↦ refused vsock_error
  ]
  fields_of (some null) = refused vsock_error
  fields_of (some (boolean b)) = refused vsock_error
  fields_of (some (number n)) = refused vsock_error
  fields_of (some (text s)) = refused vsock_error
  fields_of (some (array is)) = refused vsock_error
  fields_of none = refused vsock_error

  -- A timeout of the socket is a `VsockError` too; other errors of it are not told apart here.
  abbrev pub answered : Read → Answer Fields
  answered (line bs) = fields_of (codec.loads bs)
  answered hung_up = refused vsock_error
  answered unexpected = refused vsock_error
  answered oversized = refused vsock_error
  answered io_error = refused socket_error

  -- `_roundtrip` on a socket that is connected, without the request
  unfoldable pub roundtrip : List Piece → Answer Fields
  roundtrip ps = answered (read_line max_line 0 [] ps)

  abbrev pub timeout_field : Option Number → Json
  timeout_field none = null
  timeout_field (some t) = number t

  abbrev pub stdin_field : Option (List ℕ) → Fields
  stdin_field none = done
  stdin_field (some bs) = field "stdin" (text (codec.encode bs)) done

  abbrev pub exec_request : List String → Option Number → Option (List ℕ) → Json
  exec_request argv timeout_s stdin = object (
      field "argv" (array (texts argv))
        (field "timeout_s" (timeout_field timeout_s) (stdin_field stdin)))

  abbrev pub detached_request : List String → Json
  detached_request argv =
      object (field "argv" (array (texts argv)) (field "detach" (boolean true) done))

  -- What is sent
  abbrev pub request_line : Json → List ℕ
  request_line j = codec.dumps j ++ 10 ∷ []

  -- `base64.b64decode(reply[key])`
  abbrev pub decode_of : Option Json → Option (List ℕ)
  decode_of (some (text s)) = codec.decode s
  decode_of (some null) = none
  decode_of (some (boolean b)) = none
  decode_of (some (number n)) = none
  decode_of (some (array is)) = none
  decode_of (some (object fs)) = none
  decode_of none = none

  abbrev pub or_false : Option Json → Json
  or_false none = boolean false
  or_false (some j) = j

  abbrev pub result_of : Option Json → Option (List ℕ) → Option (List ℕ) → Json → Answer ExecResult
  result_of (some code) (some out) (some err) timed_out =
      got (record { exit_code = code; stdout = out; stderr = err; timed_out = timed_out })
  result_of (some code) (some out) none timed_out = refused vsock_error
  result_of (some code) none err timed_out = refused vsock_error
  result_of none out err timed_out = refused vsock_error

  abbrev pub exec_result : Answer Fields → Answer ExecResult
  exec_result (refused e) = refused e
  exec_result (got fs) =
      result_of (get "exit_code" fs) (decode_of (get "stdout" fs)) (decode_of (get "stderr" fs))
        (or_false (get "timed_out" fs))

  abbrev pub detached_of : Option Json → Option Json → Answer DetachedExec
  detached_of (some pid) (some log) = got (record { pid = pid; log_path = log })
  detached_of (some pid) none = refused vsock_error
  detached_of none log = refused vsock_error

  abbrev pub detached_result : Answer Fields → Answer DetachedExec
  detached_result (refused e) = refused e
  detached_result (got fs) = detached_of (get "pid" fs) (get "log" fs)

  -- A call on a connected socket: `peer` gives the pieces that come back for what is sent.
  unfoldable pub exec :
      List String → Option Number → Option (List ℕ) → (List ℕ → List Piece) → Answer ExecResult
  unfolding roundtrip
  exec [] timeout_s stdin peer = refused no_argv
  exec (a ∷ rest) timeout_s stdin peer =
      exec_result (roundtrip (peer (request_line (exec_request (a ∷ rest) timeout_s stdin))))

  unfoldable pub exec_detached : List String → (List ℕ → List Piece) → Answer DetachedExec
  unfolding roundtrip
  exec_detached [] peer = refused no_argv
  exec_detached (a ∷ rest) peer =
      detached_result (roundtrip (peer (request_line (detached_request (a ∷ rest)))))
