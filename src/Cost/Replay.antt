-- ===== src/Cost/Replay.antt =====
-- The pressure model of agentfork/bench/cost_model.py against a replay of the fanout, child by child
use agentfork.Base.{
  ℕ, zero, suc, ◌+◌, ◌-◌, ◌*◌, ◌≤◌, ◌<◌, ◌≡◌, refl, ◌∙◌, ap, subst, String, true, false, not,
  Option, none, some, List, [], ◌∷◌, ◌==◌, ltb, leb, if◌then◌else◌, same, arith, inl, inr,
  Bool-cases,
}
use agentfork.Base.Int.{ℤ, pos, negsuc}
use agentfork.Cost.{
  PressureScenario, is_valid, pressure_scenario, stock_parent_hits, pressure_model,
}

-- The unrelated tokens in the gap before each of `n` children
abbrev pub steady : ℕ → ℕ → List ℕ
steady zero u = []
steady (suc n) u = u ∷ steady n u

abbrev pub one_burst : ℕ → ℕ → List ℕ
one_burst zero u = []
one_burst (suc n) u = u ∷ steady n 0

abbrev pub gaps : PressureScenario → List ℕ
gaps ps =
    if same ps.pattern "burst"
    then one_burst ps.n_children ps.interleaved_tokens
    else steady ps.n_children ps.interleaved_tokens

-- The hits on the parent, and the tokens that the children are charged: the parent survives a gap
-- where it has room beside its tokens, and after a child it is in the cache again.
unfoldable pub replay : ℕ → ℕ → ℕ → List ℕ → ℕ × ℕ
replay p s c [] = (0, 0)
replay p s c (u ∷ us) =
    let (hits, charged) = replay p s c us in
    if leb (p + u) c then (hits + 1, charged + s) else (hits, charged + p + s)

replay-steady_hit :
    (p s c u n : ℕ)
    → p + u ≤ c
    → ((replay p s c (steady n u)).0 ≡ n) × ((replay p s c (steady n u)).1 ≡ n * s)
unfolding replay
replay-steady_hit p s c u zero h = (refl, ground arith)
replay-steady_hit p s c u (suc n) h =
    let rest = replay-steady_hit p s c u n h in
    (ground (arith, h, rest.0), ground (arith, h, rest.1))

replay-steady_miss :
    (p s c u n : ℕ)
    → c < p + u
    → ((replay p s c (steady n u)).0 ≡ 0) × ((replay p s c (steady n u)).1 ≡ n * s + n * p)
unfolding replay
replay-steady_miss p s c u zero h = (refl, ground arith)
replay-steady_miss p s c u (suc n) h =
    let rest = replay-steady_miss p s c u n h in
    (ground (arith, h, rest.0), ground (arith, h, rest.1))

replay_burst :
    (p s c u n : ℕ)
    → p ≤ c
    → ((replay p s c (one_burst (suc n) u)).0 ≡ (if leb (p + u) c then suc n else n))
      × ((replay p s c (one_burst (suc n) u)).1
          ≡ (if leb (p + u) c then suc n * s else suc n * s + p))
unfolding replay
replay_burst p s c u n h =
    let rest = replay-steady_hit p s c 0 n (omega (arith, h)) in
    (ground (arith, rest.0), ground (arith, rest.1))

-- `k` misses of `n` children
missed : (p n k : ℕ) → n ≡ k → (n - k) * p ≡ 0
missed p n k h =
    let zero_left : n - k ≡ 0 = omega (arith, h) in ap (λ i. i * p) zero_left ∙ ground arith

one_missed : (p n : ℕ) → 0 < n → (n - (n - 1)) * p ≡ p
one_missed p n h =
    let one : n - (n - 1) ≡ 1 = omega (arith, h) in ap (λ i. i * p) one ∙ ground arith

all_missed : (p n : ℕ) → (n - 0) * p ≡ n * p
all_missed p n = let all : n - 0 ≡ n = omega arith in ap (λ i. i * p) all

burst_hits :
    (p s c u n : ℕ)
    → p ≤ c
    → (n == 0) ≡ false
    → let hits : ℕ = if not (ltb (c - p) u) then n else n - 1 in
      ((replay p s c (one_burst n u)).0 ≡ hits)
      × (p + (replay p s c (one_burst n u)).1 ≡ p + n * s + (n - hits) * p)
burst_hits p s c u zero h k = absurd (ground (arith, k))
burst_hits p s c u (suc n) h k =
    let burst = replay_burst p s c u n h in
    elim (Bool-cases (ltb (c - p) u)) [
      | inl e ↦ rw e (
        ground (arith, h, e, burst.0),
        ground (arith, h, e, burst.1, one_missed p (suc n) (omega arith)),
      )
      | inr e ↦ rw e (
        ground (arith, h, e, burst.0),
        ground (arith, h, e, burst.1, missed p (suc n) (suc n) refl),
      )
    ]

steady_hits :
    (p s c u n : ℕ)
    → p ≤ c
    → let hits : ℕ = if not (ltb (c - p) u) then n else 0 in
      ((replay p s c (steady n u)).0 ≡ hits)
      × (p + (replay p s c (steady n u)).1 ≡ p + n * s + (n - hits) * p)
steady_hits p s c u n h = elim (Bool-cases (ltb (c - p) u)) [
  | inl e ↦
      let miss = replay-steady_miss p s c u n (ground (arith, h, e)) in
      rw e (miss.0, ground (arith, miss.1, all_missed p n))
  | inr e ↦
      let hit = replay-steady_hit p s c u n (ground (arith, h, e)) in
      rw e (hit.0, ground (arith, hit.1, missed p n n refl))
]

-- The model and a replay: as many hits, and as many tokens beside the parent's first prefill.
abbrev pub Agrees : PressureScenario → ℕ × ℕ → Type 0
Agrees ps r =
    (r.0 ≡ (pressure_model ps).stock.parent_hits)
    × (ps.prefix_tokens + r.1 ≡ (pressure_model ps).stock.prefill_charged)

abbrev pub replay_of : PressureScenario → ℕ × ℕ
replay_of ps = replay ps.prefix_tokens ps.suffix_tokens ps.capacity_tokens (gaps ps)

valid-Agrees : (ps : PressureScenario) → is_valid ps ≡ true → Agrees ps (replay_of ps)
unfolding pressure_model stock_parent_hits
valid-Agrees ps h = elim (Bool-cases (same ps.pattern "burst")) [
  | inl e ↦ rw e (
      burst_hits ps.prefix_tokens ps.suffix_tokens ps.capacity_tokens ps.interleaved_tokens
        ps.n_children (ground (arith, h)) (ground (arith, h)))
  | inr e ↦ rw e (
      steady_hits ps.prefix_tokens ps.suffix_tokens ps.capacity_tokens ps.interleaved_tokens
        ps.n_children (ground (arith, h)))
]

abbrev or_scenario : PressureScenario → Option PressureScenario → PressureScenario
or_scenario qs none = qs
or_scenario qs (some ps) = ps

accepted-Agrees :
    (ps qs : PressureScenario)
    → (if is_valid qs then some qs else none) ≡ some ps
    → Agrees ps (replay_of ps)
accepted-Agrees ps qs h = elim (Bool-cases (is_valid qs)) [
  | inl e ↦
      let taken : some qs ≡ some ps = rw e at h in
      subst (λ x. Agrees x (replay_of x)) (ap (or_scenario qs) taken) (valid-Agrees qs e)
  | inr e ↦ absurd (ground (arith, e, h))
]

-- For every scenario that the constructor accepts, the hits and the tokens that `pressure_model`
-- gives for the stock cache are those of a replay in which the parent survives a gap where it fits
-- beside the gap's tokens and is in the cache again after each child.
pub pressure_scenario-Agrees :
    (p n s u c : ℤ) (pattern : String) (ps : PressureScenario)
    → pressure_scenario p n s u c pattern ≡ some ps
    → Agrees ps (replay_of ps)
pressure_scenario-Agrees (pos p) (pos n) (pos s) (pos u) (pos c) pattern ps h =
    accepted-Agrees ps
      (record {
        prefix_tokens = p;
        n_children = n;
        suffix_tokens = s;
        interleaved_tokens = u;
        capacity_tokens = c;
        pattern = pattern;
      })
      h
pressure_scenario-Agrees (negsuc p) n s u c pattern ps h = absurd (ground (arith, h))
pressure_scenario-Agrees (pos p) (negsuc n) s u c pattern ps h = absurd (ground (arith, h))
pressure_scenario-Agrees (pos p) (pos n) (negsuc s) u c pattern ps h = absurd (ground (arith, h))
pressure_scenario-Agrees (pos p) (pos n) (pos s) (negsuc u) c pattern ps h =
    absurd (ground (arith, h))
pressure_scenario-Agrees (pos p) (pos n) (pos s) (pos u) (negsuc c) pattern ps h =
    absurd (ground (arith, h))
