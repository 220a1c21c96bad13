-- ===== src/Wire/Line.antt =====
-- `_read_line` of agentfork/sandbox/vsock.py and of agentfork/sandbox/guest_agent.py. What a socket
-- gives to `recv`, call after call, is a list; after its last piece, and at a piece without bytes,
-- the peer has closed.
use agentfork.Base.{
  ℕ, ◌+◌, Bool, true, false, Option, none, some, List, [], ◌∷◌, ◌++◌, ◌==◌, ltb, length,
}

-- `broken` is an `OSError`, a timeout too.
pub data Piece : Type 0 where
  broken : Piece
  chunk : List ℕ → Piece

-- What is before the first newline, and what is behind it
unfoldable pub cut : List ℕ → Option (List ℕ × List ℕ)
cut [] = none
cut (c ∷ cs) = elim (c == 10) [
  | true ↦ some ([], cs)
  | false ↦ elim (cut cs) [ none ↦ none | some found ↦ some (c ∷ found.0, found.1) ]
]

pub data Read : Type 0 where
  line : List ℕ → Read
  hung_up unexpected oversized io_error : Read

-- One round of the client's loop, by what `find` has found
abbrev pub after_cut : List ℕ → Option (List ℕ × List ℕ) → Bool → Read → Read
after_cut acc (some (before, [])) big rest = line (acc ++ before)
after_cut acc (some (before, b ∷ bs)) big rest = unexpected
after_cut acc none true rest = oversized
after_cut acc none false rest = rest

-- The client's `_read_line`: the limit, the bytes counted so far, and the chunks so far
unfoldable pub read_line : ℕ → ℕ → List ℕ → List Piece → Read
unfolding cut
read_line limit size acc [] = hung_up
read_line limit size acc (broken ∷ ps) = io_error
read_line limit size acc (chunk [] ∷ ps) = hung_up
read_line limit size acc (chunk (b ∷ bs) ∷ ps) =
    let rest = read_line limit (size + length (b ∷ bs)) (acc ++ b ∷ bs) ps in
    after_cut acc (cut (b ∷ bs)) (ltb limit (size + length (b ∷ bs))) rest

pub data Request : Type 0 where
  bytes : List ℕ → Request
  silence too_long lost : Request

abbrev pub at_end : List ℕ → Request
at_end [] = silence
at_end (b ∷ bs) = bytes (b ∷ bs)

abbrev pub agent_cut : List ℕ → Option (List ℕ × List ℕ) → Bool → Request → Request
agent_cut acc (some found) big rest = bytes (acc ++ found.0)
agent_cut acc none true rest = too_long
agent_cut acc none false rest = rest

-- The agent's `_read_line`: data behind the newline is dropped, and a closed peer ends the line.
unfoldable pub read_request : ℕ → ℕ → List ℕ → List Piece → Request
unfolding cut
read_request limit size acc [] = at_end acc
read_request limit size acc (broken ∷ ps) = lost
read_request limit size acc (chunk [] ∷ ps) = at_end acc
read_request limit size acc (chunk (b ∷ bs) ∷ ps) =
    let rest = read_request limit (size + length (b ∷ bs)) (acc ++ b ∷ bs) ps in
    agent_cut acc (cut (b ∷ bs)) (ltb limit (size + length (b ∷ bs))) rest
