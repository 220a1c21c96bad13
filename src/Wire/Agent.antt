-- ===== src/Wire/Agent.antt =====
-- `handle_connection` of agentfork/sandbox/guest_agent.py, for what was read from the connection.
-- Processes and files are the world's.
use agentfork.Base.{
  ℕ, String, Bool, true, false, not, ◌&&◌, Option, none, some, List, [], ◌∷◌, ◌++◌, same,
  if◌then◌else◌,
}
use agentfork.Base.Int.{ℤ, is_nonpos, is_zero}
use agentfork.Wire.{
  Number, whole, numerator, Json, null, boolean, number, text, array, object, Items, end, item,
  done, field, get, Codec,
}
use agentfork.Wire.Line.{Piece, Request, bytes, silence, too_long, lost, read_request}

-- How `Popen` and `communicate` end: `expired` is an end by the timeout and the `kill` after it.
pub data Run : Type 0 where
  not_spawned : Run
  exited expired : ℤ → List ℕ → List ℕ → Run

-- How the start of a background process ends: `broken` is an error that is not an `OSError`.
pub data Start : Type 0 where
  started : ℤ → Start
  failed broken : Start

pub record Guest (W : Type 0) : Type 0 where
  pub run : List String → Option (List ℕ) → Option Number → W → Run × W
  pub start : List String → String → W → Start × W
  pub log_path : W → String

-- A request that passed the checks
pub record Command : Type 0 where
  pub argv : List String
  pub timeout_s : Option Number
  pub detach : Bool
  pub stdin : Option (List ℕ)

-- all(isinstance(arg, str) and arg for arg in argv)
unfoldable pub words : Items → Option (List String)
words end = some []
words (item (text s) is) = elim (words is) [
  | none ↦ none
  | some ss ↦ if same s "" then none else some (s ∷ ss)
]
words (item null is) = none
words (item (boolean b) is) = none
words (item (number n) is) = none
words (item (array js) is) = none
words (item (object fs) is) = none

abbrev pub nonempty_words : Option (List String) → Option (List String)
nonempty_words none = none
nonempty_words (some []) = none
nonempty_words (some (s ∷ ss)) = some (s ∷ ss)

-- `argv` of a request
abbrev pub argv_of : Option Json → Option (List String)
argv_of (some (array is)) = nonempty_words (words is)
argv_of (some null) = none
argv_of (some (boolean b)) = none
argv_of (some (number n)) = none
argv_of (some (text s)) = none
argv_of (some (object fs)) = none
argv_of none = none

-- `timeout_s`, where the outer option is the check
abbrev pub timeout_of : Option Json → Option (Option Number)
timeout_of none = some none
timeout_of (some null) = some none
timeout_of (some (number n)) = if is_nonpos (numerator n) then none else some (some n)
timeout_of (some (boolean b)) = none
timeout_of (some (text s)) = none
timeout_of (some (array is)) = none
timeout_of (some (object fs)) = none

-- `bool(...)` of a value
abbrev pub is_true : Json → Bool
is_true null = false
is_true (boolean b) = b
is_true (number n) = not (is_zero (numerator n))
is_true (text s) = not (same s "")
is_true (array end) = false
is_true (array (item j is)) = true
is_true (object done) = false
is_true (object (field k j fs)) = true

abbrev pub detach_of : Option Json → Bool
detach_of none = false
detach_of (some v) = is_true v

-- The bound on a line in both programs, 64 MiB
abbrev pub max_line : ℕ
max_line = 67_108_864

module _ (codec : Codec) where
  abbrev pub decoded : Option (List ℕ) → Option (Option (List ℕ))
  decoded none = none
  decoded (some bs) = some (some bs)

  -- `b64decode(stdin_b64) if stdin_b64 else None`, where the outer option is an error
  abbrev pub stdin_of : Option Json → Option (Option (List ℕ))
  stdin_of none = some none
  stdin_of (some (text s)) = if same s "" then some none else decoded (codec.decode s)
  stdin_of (some null) = some none
  stdin_of (some (boolean b)) = if b then none else some none
  stdin_of (some (number n)) = if is_true (number n) then none else some none
  stdin_of (some (array is)) = if is_true (array is) then none else some none
  stdin_of (some (object fs)) = if is_true (object fs) then none else some none

  abbrev pub is_given : Option (List ℕ) → Bool
  is_given none = false
  is_given (some []) = false
  is_given (some (b ∷ bs)) = true

  abbrev pub checked :
      Option (List String)
      → Option (Option Number)
      → Bool
      → Option (Option (List ℕ))
      → Option Command
  checked none t d i = none
  checked (some a) none d i = none
  checked (some a) (some t) d none = none
  checked (some a) (some t) d (some i) =
      if d && is_given i
      then none
      else some (record { argv = a; timeout_s = t; detach = d; stdin = i })

  -- The checks on a request; `none` is a `ValueError`, `KeyError` or `TypeError`.
  abbrev pub parse : Option Json → Option Command
  parse (some (object fs)) =
      checked (argv_of (get "argv" fs)) (timeout_of (get "timeout_s" fs))
        (detach_of (get "detach" fs)) (stdin_of (get "stdin" fs))
  parse (some null) = none
  parse (some (boolean b)) = none
  parse (some (number n)) = none
  parse (some (text s)) = none
  parse (some (array is)) = none
  parse none = none

  -- The texts of errors go on with what was raised.
  abbrev pub error : String → Json
  error message = object (field "error" (text message) done)

  abbrev pub exec_reply : ℤ → List ℕ → List ℕ → Bool → Json
  exec_reply code out err timed_out = object (
      field "exit_code" (number (whole code)) (
        field "stdout" (text (codec.encode out))
          (field "stderr" (text (codec.encode err)) (field "timed_out" (boolean timed_out) done))))

  abbrev pub run_reply : Run → Json
  run_reply not_spawned = error "spawn failed: "
  run_reply (exited code out err) = exec_reply code out err false
  run_reply (expired code out err) = exec_reply code out err true

  -- An error that is not an `OSError` ends the thread, and nothing is sent.
  abbrev pub start_reply : String → Start → Option Json
  start_reply log failed = some (error "spawn failed: ")
  start_reply log broken = none
  start_reply log (started pid) = some (
      object (
        field "detached" (boolean true)
          (field "pid" (number (whole pid)) (field "log" (text log) done))))

  -- `conn.sendall` of a reply
  abbrev pub reply_line : Option Json → Option (List ℕ)
  reply_line none = none
  reply_line (some j) = some (codec.dumps j ++ 10 ∷ [])

  module _ {W : Type 0} (guest : Guest W) where
    abbrev pub obey : Option Command → W → Option Json × W
    obey none w = (some (error "bad request: "), w)
    obey (some c) w = elim c.detach [
      | true ↦
          let log = guest.log_path w in
          let (r, w') = guest.start c.argv log w in (start_reply log r, w')
      | false ↦ let (r, w') = guest.run c.argv c.stdin c.timeout_s w in (some (run_reply r), w')
    ]

    abbrev pub send : Option Json × W → Option (List ℕ) × W
    send (r, w) = (reply_line r, w)

    abbrev pub served : Request → W → Option (List ℕ) × W
    served silence w = (none, w)
    served lost w = (none, w)
    served too_long w = send (obey none w)
    served (bytes []) w = (none, w)
    served (bytes (b ∷ bs)) w = send (obey (parse (codec.loads (b ∷ bs))) w)

    -- `handle_connection`: what is sent back, if anything is
    unfoldable pub handle_connection : List Piece → W → Option (List ℕ) × W
    handle_connection ps w = served (read_request max_line 0 [] ps) w
