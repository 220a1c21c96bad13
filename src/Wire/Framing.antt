-- ===== src/Wire/Framing.antt =====
-- A line of agentfork/sandbox/vsock.py and agentfork/sandbox/guest_agent.py arrives whole, in
-- whatever pieces the socket cuts it.
use agentfork.Base.{
  ℕ, ◌+◌, ◌≤◌, ◌≡◌, refl, sym, ◌∙◌, ap, subst, false, none, some, List, [], ◌∷◌, ◌++◌, ◌==◌, ltb,
  length, length-append, arith,
}
use agentfork.Wire.Line.{Piece, chunk, cut, line, read_line, bytes, read_request}

-- No newline is among the bytes.
abbrev pub IsPlain : List ℕ → Type 0
IsPlain [] = Unit
IsPlain (c ∷ cs) = ((c == 10) ≡ false) × IsPlain cs

-- The pieces bring the line `l` and its newline; what comes behind it does not matter.
pub data Arrives : List ℕ → List Piece → Type 0 where
  last : (l : List ℕ) (rest : List Piece) → Arrives l (chunk (l ++ 10 ∷ []) ∷ rest)
  more :
      (c : ℕ) (cs l l' : List ℕ) (rest : List Piece)
      → l ≡ c ∷ (cs ++ l')
      → Arrives l' rest
      → Arrives l (chunk (c ∷ cs) ∷ rest)

cut-plain : (l : List ℕ) → IsPlain l → cut l ≡ none
unfolding cut
cut-plain [] h = refl
cut-plain (c ∷ cs) h = rw (h.0, cut) (rw (cut-plain cs h.1) refl)

cut-line : (l : List ℕ) → IsPlain l → cut (l ++ 10 ∷ []) ≡ some (l, [])
unfolding cut
cut-line [] h = refl
cut-line (c ∷ cs) h = rw (h.0, cut) (rw (cut-line cs h.1) refl)

IsPlain-left : (a b : List ℕ) → IsPlain (a ++ b) → IsPlain a
IsPlain-left [] b h = tt
IsPlain-left (c ∷ cs) b h = (h.0, IsPlain-left cs b h.1)

IsPlain-right : (a b : List ℕ) → IsPlain (a ++ b) → IsPlain b
IsPlain-right [] b h = h
IsPlain-right (c ∷ cs) b h = IsPlain-right cs b h.1

append_append : (a b c : List ℕ) → (a ++ b) ++ c ≡ a ++ (b ++ c)
append_append [] b c = refl
append_append (x ∷ xs) b c = ap (λ t. x ∷ t) (append_append xs b c)

-- One round of either loop, on a line's last piece
read_last :
    (limit size : ℕ) (acc l : List ℕ) (rest : List Piece)
    → IsPlain l
    → read_line limit size acc (chunk (l ++ 10 ∷ []) ∷ rest) ≡ line (acc ++ l)
unfolding read_line
read_last limit size acc [] rest h = refl
read_last limit size acc (c ∷ cs) rest h = rw (cut-line (c ∷ cs) h) refl

read_more :
    (limit size : ℕ) (acc : List ℕ) (c : ℕ) (cs : List ℕ) (rest : List Piece)
    → IsPlain (c ∷ cs)
    → size + length (c ∷ cs) ≤ limit
    → read_line limit size acc (chunk (c ∷ cs) ∷ rest)
      ≡ read_line limit (size + length (c ∷ cs)) (acc ++ c ∷ cs) rest
unfolding read_line
read_more limit size acc c cs rest h fits =
    let small : ltb limit (size + length (c ∷ cs)) ≡ false = ground arith in
    rw (cut-plain (c ∷ cs) h, small) refl

append_more :
    (acc : List ℕ) (c : ℕ) (cs l' : List ℕ) → (acc ++ c ∷ cs) ++ l' ≡ acc ++ c ∷ (cs ++ l')
append_more acc c cs l' = append_append acc (c ∷ cs) l'

-- However a line without a newline in it is cut into pieces, the client's `_read_line` gives back
-- this line after what it has read, if all of it is within the limit.
pub read_line_pieces :
    {l : List ℕ} {ps : List Piece} (limit size : ℕ) (acc : List ℕ)
    → Arrives l ps
    → IsPlain l
    → size + length l ≤ limit
    → read_line limit size acc ps ≡ line (acc ++ l)
read_line_pieces limit size acc (last l rest) h fits = read_last limit size acc l rest h
read_line_pieces limit size acc (more c cs l l' rest el later) h fits =
    let whole : IsPlain (c ∷ (cs ++ l')) = subst IsPlain el h in
    let long : length l ≡ length (c ∷ cs) + length l' = ap length el ∙ length-append (c ∷ cs) l' in
    read_more limit size acc c cs rest (IsPlain-left (c ∷ cs) l' whole) (omega arith)
    ∙ read_line_pieces limit (size + length (c ∷ cs)) (acc ++ c ∷ cs) later
        (IsPlain-right (c ∷ cs) l' whole) (omega arith)
    ∙ ap line (append_more acc c cs l' ∙ ap (λ t. acc ++ t) (sym el))

request_last :
    (limit size : ℕ) (acc l : List ℕ) (rest : List Piece)
    → IsPlain l
    → read_request limit size acc (chunk (l ++ 10 ∷ []) ∷ rest) ≡ bytes (acc ++ l)
unfolding read_request
request_last limit size acc [] rest h = refl
request_last limit size acc (c ∷ cs) rest h = rw (cut-line (c ∷ cs) h) refl

request_more :
    (limit size : ℕ) (acc : List ℕ) (c : ℕ) (cs : List ℕ) (rest : List Piece)
    → IsPlain (c ∷ cs)
    → size + length (c ∷ cs) ≤ limit
    → read_request limit size acc (chunk (c ∷ cs) ∷ rest)
      ≡ read_request limit (size + length (c ∷ cs)) (acc ++ c ∷ cs) rest
unfolding read_request
request_more limit size acc c cs rest h fits =
    let small : ltb limit (size + length (c ∷ cs)) ≡ false = ground arith in
    rw (cut-plain (c ∷ cs) h, small) refl

-- The same for the agent's `_read_line`
pub read_request_pieces :
    {l : List ℕ} {ps : List Piece} (limit size : ℕ) (acc : List ℕ)
    → Arrives l ps
    → IsPlain l
    → size + length l ≤ limit
    → read_request limit size acc ps ≡ bytes (acc ++ l)
read_request_pieces limit size acc (last l rest) h fits = request_last limit size acc l rest h
read_request_pieces limit size acc (more c cs l l' rest el later) h fits =
    let whole : IsPlain (c ∷ (cs ++ l')) = subst IsPlain el h in
    let long : length l ≡ length (c ∷ cs) + length l' = ap length el ∙ length-append (c ∷ cs) l' in
    request_more limit size acc c cs rest (IsPlain-left (c ∷ cs) l' whole) (omega arith)
    ∙ read_request_pieces limit (size + length (c ∷ cs)) (acc ++ c ∷ cs) later
        (IsPlain-right (c ∷ cs) l' whole) (omega arith)
    ∙ ap bytes (append_more acc c cs l' ∙ ap (λ t. acc ++ t) (sym el))
