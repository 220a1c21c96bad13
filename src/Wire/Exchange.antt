-- ===== src/Wire/Exchange.antt =====
-- A command that `VsockExecClient.exec` of agentfork/sandbox/vsock.py sends to the
-- `handle_connection` of agentfork/sandbox/guest_agent.py
use agentfork.Base.{
  ℕ, ◌≤◌, String, ◌≡◌, refl, sym, ◌∙◌, ap, Bool, true, false, Option, none, some, List, [], ◌∷◌,
  arith, length, same,
}
use agentfork.Base.Int.{ℤ, is_nonpos}
use agentfork.Wire.{Number, whole, numerator, Json, boolean, number, get, texts, Codec}
use agentfork.Wire.Line.{Piece, bytes}
use agentfork.Wire.Agent.{
  Guest, Run, exited, expired, words, timeout_of, stdin_of, Command, parse, max_line, exec_reply,
  run_reply, reply_line, obey, send, served, handle_connection,
}
use agentfork.Wire.Client.{
  ExecResult, got, exec, roundtrip, exec_request, request_line, timeout_field, stdin_field,
  exec_result, answered,
}
use agentfork.Wire.Framing.{IsPlain, Arrives, read_line_pieces, read_request_pieces}

-- What is documented of `json` and `base64`: a value that can be written is read back, from one line
-- that is not empty, and so are bytes; only no bytes are encoded as no text.
pub record IsCodec (codec : Codec) (IsWritable : Json → Type 0) (IsBytes : List ℕ → Type 0)
    : Type 0 where
  pub loads-dumps : (j : Json) → IsWritable j → codec.loads (codec.dumps j) ≡ some j
  pub plain : (j : Json) → IsWritable j → IsPlain (codec.dumps j)
  pub dumps-some : (j : Json) → IsWritable j → (c : ℕ) × (cs : List ℕ) × (codec.dumps j ≡ c ∷ cs)
  pub decode-encode : (bs : List ℕ) → IsBytes bs → codec.decode (codec.encode bs) ≡ some bs
  pub encode-empty : codec.encode [] ≡ ""
  pub encode-some : (b : ℕ) (bs : List ℕ) → same (codec.encode (b ∷ bs)) "" ≡ false

-- Words that the agent takes
abbrev pub AreWords : List String → Type 0
AreWords [] = Unit
AreWords (s ∷ ss) = (same s "" ≡ false) × AreWords ss

abbrev pub IsPositive : Option Number → Type 0
IsPositive none = Unit
IsPositive (some t) = is_nonpos (numerator t) ≡ false

words-texts : (ss : List String) → AreWords ss → words (texts ss) ≡ some ss
unfolding words texts
words-texts [] h = refl
words-texts (s ∷ ss) h = rw (words-texts ss h.1, words) (rw (h.0) refl)

timeout_of-field :
    (codec : Codec) (t : Option Number)
    → IsPositive t
    → timeout_of (some (timeout_field codec t)) ≡ some t
timeout_of-field codec none h = refl
timeout_of-field codec (some t) h = rw h refl

-- What the process gets as its input: of no bytes it is told nothing.
abbrev pub delivered : Option (List ℕ) → Option (List ℕ)
delivered none = none
delivered (some []) = none
delivered (some (b ∷ bs)) = some (b ∷ bs)

-- The input can be written.
abbrev pub AreBytes : (List ℕ → Type 0) → Option (List ℕ) → Type 0
AreBytes IsBytes none = Unit
AreBytes IsBytes (some bs) = IsBytes bs

module _ (codec : Codec) (IsWritable : Json → Type 0) (IsBytes : List ℕ → Type 0)
    (law : IsCodec codec IsWritable IsBytes) where
  stdin_of-field :
      (i : Option (List ℕ))
      → AreBytes IsBytes i
      → stdin_of codec (get "stdin" (stdin_field codec i)) ≡ some (delivered i)
  unfolding get same
  stdin_of-field none hi = refl
  stdin_of-field (some []) hi = rw (law.encode-empty) refl
  stdin_of-field (some (b ∷ bs)) hi = rw (law.encode-some b bs, law.decode-encode (b ∷ bs) hi) refl

  abbrev command : List String → Option Number → Option (List ℕ) → Command
  command argv t i = record { argv = argv; timeout_s = t; detach = false; stdin = delivered i }

  not_detached : (i : Option (List ℕ)) → get "detach" (stdin_field codec i) ≡ none
  unfolding get same
  not_detached none = refl
  not_detached (some bs) = refl

  parse-exec :
      (a : String) (rest : List String) (t : Option Number) (i : Option (List ℕ))
      → AreWords (a ∷ rest)
      → IsPositive t
      → AreBytes IsBytes i
      → parse codec (some (exec_request codec (a ∷ rest) t i)) ≡ some (command (a ∷ rest) t i)
  unfolding get same
  parse-exec a rest t i h p hi =
      rw (words-texts (a ∷ rest) h, timeout_of-field codec t p, stdin_of-field i hi, not_detached i)
        refl

  abbrev ended : Bool → ℤ → List ℕ → List ℕ → Run
  ended true code out err = expired code out err
  ended false code out err = exited code out err

  run_reply-ended :
      (late : Bool) (code : ℤ) (out err : List ℕ)
      → run_reply codec (ended late code out err) ≡ exec_reply codec code out err late
  run_reply-ended true code out err = refl
  run_reply-ended false code out err = refl

  served-dumps :
      {W : Type 0} (guest : Guest W) (j : Json) (w : W)
      → IsWritable j
      → served codec guest (bytes (codec.dumps j)) w
        ≡ send codec guest (obey codec guest (parse codec (some j)) w)
  served-dumps guest j w hj =
      let (c, cs, e) = law.dumps-some j hj in
      let read : codec.loads (c ∷ cs) ≡ some j = ap codec.loads (sym e) ∙ law.loads-dumps j hj in
      rw e (rw read refl)

  obey-exec :
      {W : Type 0} (guest : Guest W) (argv : List String) (t : Option Number) (i : Option (List ℕ))
      (late : Bool) (code : ℤ) (out err : List ℕ) (w : W)
      → (guest.run argv (delivered i) t w).0 ≡ ended late code out err
      → (obey codec guest (some (command argv t i)) w).0 ≡ some (exec_reply codec code out err late)
  obey-exec guest argv t i late code out err w ran =
      ap (λ r. some (run_reply codec r)) ran ∙ ap some (run_reply-ended late code out err)

  -- The agent's answer to the request of `exec`, however the request is cut into pieces
  handle-exec :
      {W : Type 0} (guest : Guest W) (a : String) (rest : List String) (t : Option Number)
      (i : Option (List ℕ)) (late : Bool) (code : ℤ) (out err : List ℕ) (w : W) (ps : List Piece)
      → AreWords (a ∷ rest)
      → IsPositive t
      → AreBytes IsBytes i
      → (guest.run (a ∷ rest) (delivered i) t w).0 ≡ ended late code out err
      → IsWritable (exec_request codec (a ∷ rest) t i)
      → Arrives (codec.dumps (exec_request codec (a ∷ rest) t i)) ps
      → length (codec.dumps (exec_request codec (a ∷ rest) t i)) ≤ max_line
      → (handle_connection codec guest ps w).0
        ≡ some (request_line codec (exec_reply codec code out err late))
  unfolding handle_connection
  handle-exec guest a rest t i late code out err w ps h p hi ran hj arrives short =
      let j = exec_request codec (a ∷ rest) t i in
      ap (λ r. (served codec guest r w).0)
        (read_request_pieces max_line 0 [] arrives (law.plain j hj) (omega (arith, short)))
      ∙ ap (λ (r : Option (List ℕ) × _). r.0) (served-dumps guest j w hj)
      ∙ ap (λ c. reply_line codec (obey codec guest c w).0) (parse-exec a rest t i h p hi)
      ∙ ap (reply_line codec) (obey-exec guest (a ∷ rest) t i late code out err w ran)

  abbrev result : Bool → ℤ → List ℕ → List ℕ → ExecResult
  result late code out err = record {
    exit_code = number (whole code);
    stdout = out;
    stderr = err;
    timed_out = boolean late;
  }

  -- The client's reading of the agent's answer
  exec-reply :
      (a : String) (rest : List String) (t : Option Number) (i : Option (List ℕ)) (late : Bool)
      (code : ℤ) (out err : List ℕ) (peer : List ℕ → List Piece)
      → IsBytes out
      → IsBytes err
      → IsWritable (exec_reply codec code out err late)
      → Arrives
          (codec.dumps (exec_reply codec code out err late))
          (peer (request_line codec (exec_request codec (a ∷ rest) t i)))
      → length (codec.dumps (exec_reply codec code out err late)) ≤ max_line
      → exec codec (a ∷ rest) t i peer ≡ got (result late code out err)
  unfolding exec roundtrip get same
  exec-reply a rest t i late code out err peer ho he hj arrives short =
      let j = exec_reply codec code out err late in
      ap (λ r. exec_result codec (answered codec r))
        (read_line_pieces max_line 0 [] arrives (law.plain j hj) (omega (arith, short)))
      ∙ rw (law.loads-dumps j hj, law.decode-encode out ho, law.decode-encode err he) refl

  -- Where `json` and `base64` are as documented (`IsCodec`), a command of words, with a timeout
  -- that is not there or positive, that `exec` sends to the agent: however the two lines are cut
  -- into pieces, if each is within the limit and its values can be written and read back, the
  -- agent runs the command with the input that was given, where no bytes count as no input, and
  -- `exec` returns the exit code, the output, the errors and the timeout of this run.
  pub exec_round :
      {W : Type 0} (guest : Guest W) (a : String) (rest : List String) (t : Option Number)
      (i : Option (List ℕ)) (late : Bool) (code : ℤ) (out err : List ℕ) (w : W) (ps : List Piece)
      (peer : List ℕ → List Piece)
      → AreWords (a ∷ rest)
      → IsPositive t
      → AreBytes IsBytes i
      → (guest.run (a ∷ rest) (delivered i) t w).0 ≡ ended late code out err
      → IsWritable (exec_request codec (a ∷ rest) t i)
      → Arrives (codec.dumps (exec_request codec (a ∷ rest) t i)) ps
      → length (codec.dumps (exec_request codec (a ∷ rest) t i)) ≤ max_line
      → IsBytes out
      → IsBytes err
      → IsWritable (exec_reply codec code out err late)
      → Arrives
          (codec.dumps (exec_reply codec code out err late))
          (peer (request_line codec (exec_request codec (a ∷ rest) t i)))
      → length (codec.dumps (exec_reply codec code out err late)) ≤ max_line
      → ((handle_connection codec guest ps w).0
          ≡ some (request_line codec (exec_reply codec code out err late)))
        × (exec codec (a ∷ rest) t i peer ≡ got (result late code out err))
  exec_round guest a rest t i late code out err w ps peer h p hi ran hj arrives short ho he hk back
        short' =
      (
        handle-exec guest a rest t i late code out err w ps h p hi ran hj arrives short,
        exec-reply a rest t i late code out err peer ho he hk back short',
      )

  -- Where `json` and `base64` are as documented (`IsCodec`), the agent reads the request of `exec`
  -- with an empty input as the request without an input.
  pub parse-exec_empty :
      (argv : List String) (t : Option Number)
      → parse codec (some (exec_request codec argv t (some [])))
        ≡ parse codec (some (exec_request codec argv t none))
  unfolding get same
  parse-exec_empty argv t = rw (law.encode-empty) refl
