-- ===== src/Wire/Tests.antt =====
-- Exchanges between host and guest, as in tests/test_vsock.py, and the theorems at a concrete one
use agentfork.Base.{
  ℕ, String, ◌≡◌, refl, ◌⊎◌, inl, inr, Bool, true, false, Option, none, some, List, [], ◌∷◌, ◌==◌,
  arith, is_some, if◌then◌else◌, same,
}
use agentfork.Base.Int.{pos}
use agentfork.Wire.{
  whole, binary, Json, null, boolean, number, text, array, object, done, field, get, texts, Codec,
}
use agentfork.Wire.Line.{
  chunk, cut, line, hung_up, unexpected, oversized, bytes, read_line, read_request,
}
use agentfork.Wire.Agent.{
  Guest, started, failed, broken, start_reply, timeout_of, exited, words, parse, handle_connection,
}
use agentfork.Wire.Client.{connect, got, exec, exec_detached, roundtrip, exec_request}
use agentfork.Wire.Framing.{last, more, read_line_pieces}
use agentfork.Wire.Exchange.{IsCodec, exec_round, parse-exec_empty}

program : Unit {0}
unfolding get texts cut read_line read_request words handle_connection connect roundtrip exec
    exec_detached same
program = tt

lines :
    (read_line 9 0 [] (chunk (1 ∷ []) ∷ chunk (2 ∷ 10 ∷ []) ∷ []) ≡ line (1 ∷ 2 ∷ []))
    × (read_line 9 0 [] (chunk (1 ∷ []) ∷ []) ≡ hung_up)
    × (read_line 9 0 [] (chunk (10 ∷ 1 ∷ []) ∷ []) ≡ unexpected)
    × (read_line 1 0 [] (chunk (1 ∷ 2 ∷ []) ∷ []) ≡ oversized)
    × (read_line 1 0 [] (chunk (1 ∷ 2 ∷ 10 ∷ []) ∷ []) ≡ line (1 ∷ 2 ∷ []))
    × (read_request 9 0 [] (chunk (1 ∷ []) ∷ []) ≡ bytes (1 ∷ []))
unfolding program
lines = (refl, refl, refl, refl, refl, refl)

connects :
    connect (
      record { answer = none; is_late = false }
      ∷ record { answer = some (chunk (79 ∷ 75 ∷ 32 ∷ 49 ∷ 10 ∷ []) ∷ []); is_late = true }
      ∷ [])
    ≡ some true
unfolding program
connects = refl

-- `{"argv": ["ls"], "timeout_s": null, "stdin": "aGk="}`, answered with code 0 and the input
abbrev hi : List ℕ
hi = 104 ∷ 105 ∷ []

abbrev asked : Json
asked = object (
    field "argv" (array (texts ("cat" ∷ [])))
      (field "timeout_s" null (field "stdin" (text "aGk=") done)))

abbrev answer : Json
answer = object (
    field "exit_code" (number (whole (pos 0))) (
      field "stdout" (text "aGk=")
        (field "stderr" (text "") (field "timed_out" (boolean false) done))))

-- A codec for these two values: a value is one byte.
abbrev is_asked : Json → Bool
is_asked (object fs) = is_some (get "argv" fs)
is_asked j = false

abbrev loaded : List ℕ → Option Json
loaded [] = none
loaded (b ∷ rest) = if b == 1 then some asked else some answer

abbrev encoded : List ℕ → String
encoded [] = ""
encoded (b ∷ rest) = "aGk="

abbrev codec : Codec
codec = record {
  dumps = λ j. if is_asked j then 1 ∷ [] else 2 ∷ [];
  loads = loaded;
  encode = encoded;
  decode = λ s. if same s "" then some [] else some hi;
}

abbrev IsWritable : Json → Type 0
IsWritable j = (j ≡ asked) ⊎ (j ≡ answer)

abbrev IsBytes : List ℕ → Type 0
IsBytes bs = (bs ≡ []) ⊎ (bs ≡ hi)

codec-IsCodec : IsCodec codec IsWritable IsBytes
unfolding program
codec-IsCodec = record {
  loads-dumps = λ j h. elim h [ inl e ↦ rw e refl | inr e ↦ rw e refl ];
  plain = λ j h. elim h [ inl e ↦ rw e (refl, tt) | inr e ↦ rw e (refl, tt) ];
  dumps-some = λ j h. elim h [ inl e ↦ rw e (1, [], refl) | inr e ↦ rw e (2, [], refl) ];
  decode-encode = λ bs h. elim h [ inl e ↦ rw e refl | inr e ↦ rw e refl ];
  encode-empty = refl;
  encode-some = λ b bs. refl;
}

abbrev guest : Guest Unit
guest = record {
  run = λ argv stdin timeout_s w. (exited (pos 0) hi [], w);
  start = λ argv log w. (started (pos 9), w);
  log_path = λ w. "/tmp/agentfork-exec-0.log";
}

read_line_pieces_example :
    read_line 9 0 [] (chunk (1 ∷ []) ∷ chunk (2 ∷ 10 ∷ []) ∷ []) ≡ line (1 ∷ 2 ∷ [])
read_line_pieces_example =
    read_line_pieces 9 0 []
      (more 1 [] (1 ∷ 2 ∷ []) (2 ∷ []) (chunk (2 ∷ 10 ∷ []) ∷ []) refl (last (2 ∷ []) []))
      (refl, (refl, tt)) (omega arith)

exec_round_example :
    ((handle_connection codec guest (chunk (1 ∷ []) ∷ chunk (10 ∷ []) ∷ []) tt).0
      ≡ some (2 ∷ 10 ∷ []))
    × (exec codec ("cat" ∷ []) none (some hi) (λ sent. chunk (2 ∷ 10 ∷ []) ∷ [])
        ≡ got (record {
          exit_code = number (whole (pos 0));
          stdout = hi;
          stderr = [];
          timed_out = boolean false;
        }))
unfolding program
exec_round_example =
    exec_round codec IsWritable IsBytes codec-IsCodec guest "cat" [] none (some hi) false (pos 0) hi
      [] tt (chunk (1 ∷ []) ∷ chunk (10 ∷ []) ∷ []) (λ sent. chunk (2 ∷ 10 ∷ []) ∷ []) (refl, tt) tt
      (inr refl) refl (inl refl) (more 1 [] (1 ∷ []) [] (chunk (10 ∷ []) ∷ []) refl (last [] []))
      (omega arith) (inr refl) (inl refl) (inr refl) (last (2 ∷ []) []) (omega arith)

parse-exec_empty_example :
    parse codec (some (exec_request codec ("cat" ∷ []) none (some [])))
    ≡ parse codec (some (exec_request codec ("cat" ∷ []) none none))
parse-exec_empty_example = parse-exec_empty codec IsWritable IsBytes codec-IsCodec ("cat" ∷ []) none

-- A timeout may be a fraction, a background process that cannot start is reported, and nothing is
-- sent where its start breaks.
answers :
    (timeout_of (some (number (binary (pos 1) 1))) ≡ some (some (binary (pos 1) 1)))
    × (timeout_of (some (number (binary (pos 0) 3))) ≡ none)
    × (is_some (start_reply codec "log" failed) ≡ true)
    × (start_reply codec "log" broken ≡ none)
unfolding program
answers = (refl, refl, refl, refl)
