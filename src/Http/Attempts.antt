-- ===== src/Http/Attempts.antt =====
-- How often a request of agentfork/kv/sglang_http_backend.py is sent
use agentfork.Base.{
  ℕ, zero, suc, ◌+◌, ◌≤◌, ◌<◌, ◌≡◌, refl, ◌∙◌, ap, subst, Bool, true, false, arith, ◌==◌, not,
  Bool-cases, inl, inr,
}
use agentfork.Http.Request.{Outcome, Verdict, accept, reject, again, verdict, attempt, request_json}

-- How many requests may be sent
abbrev bound : ℕ → Bool → ℕ
bound max_retries true = max_retries + 1
bound max_retries false = 1

-- The requests from the `n`-th on: `sent` of them in all, at most `end`; every one but the last was
-- to be tried again, and the result is what the last one came to.
abbrev pub Sends : Bool → (ℕ → Outcome) → ℕ → ℕ → Verdict × ℕ → Type 0
Sends expect server n end r =
    (n < r.1)
    × (r.1 ≤ end)
    × ((k : ℕ) → n ≤ k → k + 1 < r.1 → verdict expect true (server k) ≡ again)
    × ((k : ℕ) → k + 1 ≡ r.1 → verdict expect (not (k + 1 == end)) (server k) ≡ r.0)

Sends-last :
    (expect : Bool) (server : ℕ → Outcome) (n end : ℕ)
    → n < end
    → Sends expect server n end (verdict expect (not (n + 1 == end)) (server n), n + 1)
Sends-last expect server n end before = (
  omega arith,
  omega (arith, before),
  (λ k a b. absurd (omega (arith, a, b))),
  λ k e. let q : k ≡ n = omega (arith, e) in rw q refl,
)

Sends-again :
    (expect : Bool) (server : ℕ → Outcome) (n end : ℕ) (r : Verdict × ℕ)
    → verdict expect true (server n) ≡ again
    → Sends expect server (n + 1) end r
    → Sends expect server n end r
Sends-again expect server n end r first (a, b, c, d) = (
  omega (arith, a),
  b,
  (λ k p q. elim (Bool-cases (k == n)) [
    | inl e ↦ ground (arith, first, e, ap (λ i. verdict expect true (server i)))
    | inr e ↦ c k (ground (arith, p, e)) q
  ]),
  d,
)

-- What the loop does with a verdict: only `again` goes on to the rest.
abbrev next : Verdict → Verdict × ℕ → ℕ → Verdict × ℕ
next v rest n = elim v [ accept fs ↦ (accept fs, n + 1) | reject ↦ (reject, n + 1) | again ↦ rest ]

Sends-decided :
    (expect : Bool) (server : ℕ → Outcome) (n end : ℕ) (v : Verdict)
    → verdict expect true (server n) ≡ v
    → n + 1 < end
    → Sends expect server n end (v, n + 1)
Sends-decided expect server n end v first more =
    let left : (n + 1 == end) ≡ false = ground (arith, more) in
    let now : verdict expect (not (n + 1 == end)) (server n) ≡ v =
      ap (λ b. verdict expect (not b) (server n)) left ∙ first in
    subst (λ w. Sends expect server n end (w, n + 1)) now
      (Sends-last expect server n end (omega (arith, more)))

Sends-next :
    (expect : Bool) (server : ℕ → Outcome) (n end : ℕ) (v : Verdict) (rest : Verdict × ℕ)
    → verdict expect true (server n) ≡ v
    → n + 1 < end
    → Sends expect server (n + 1) end rest
    → Sends expect server n end (next v rest n)
Sends-next expect server n end (accept fs) rest first more r =
    Sends-decided expect server n end (accept fs) first more
Sends-next expect server n end reject rest first more r =
    Sends-decided expect server n end reject first more
Sends-next expect server n end again rest first more r =
    Sends-again expect server n end rest first r

attempt-Sends :
    (expect : Bool) (server : ℕ → Outcome) (left n : ℕ)
    → Sends expect server n (n + left + 1) (attempt expect server left n)
unfolding attempt
attempt-Sends expect server zero n =
    let full : (n + 1 == n + 0 + 1) ≡ true = ground arith in
    subst (λ b. Sends expect server n (n + 0 + 1) (verdict expect (not b) (server n), n + 1)) full
      (Sends-last expect server n (n + 0 + 1) (omega arith))
attempt-Sends expect server (suc left) n =
    let same_end : n + 1 + left + 1 ≡ n + suc left + 1 = omega arith in
    Sends-next expect server n (n + suc left + 1) (verdict expect true (server n))
      (attempt expect server left (n + 1)) refl (omega arith)
      (subst (λ e. Sends expect server (n + 1) e (attempt expect server left (n + 1))) same_end
        (attempt-Sends expect server left (n + 1)))

-- `_request_json` sends at least one request, and at most `max_retries + 1` of them, or one
-- without `retry`; every one but the last ended with a failure that is tried again, and the result
-- is what the last one came to.
pub request_json-Sends :
    (max_retries : ℕ) (retry expect : Bool) (server : ℕ → Outcome)
    → Sends expect server 0 (bound max_retries retry) (request_json max_retries retry expect server)
unfolding request_json
request_json-Sends max_retries true expect server =
    let same_end : 0 + max_retries + 1 ≡ max_retries + 1 = omega arith in
    subst (λ e. Sends expect server 0 e (attempt expect server max_retries 0)) same_end
      (attempt-Sends expect server max_retries 0)
request_json-Sends max_retries false expect server = attempt-Sends expect server 0 0
