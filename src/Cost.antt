-- ===== src/Cost.antt =====
-- The cost model of agentfork/bench/cost_model.py in tokens. The ratios and rates that it rounds, and
-- the prices of a provider, are floating-point numbers and left out.
pub mod Replay
pub mod Tests
use agentfork.Base.{
  ℕ, zero, suc, ◌+◌, ◌-◌, ◌*◌, String, Bool, true, false, ◌&&◌, ◌||◌, not, Option, none, some, List,
  [], ◌∷◌, ◌==◌, ltb, leb, if◌then◌else◌, same,
}
use agentfork.Base.Int.{ℤ, pos, negsuc}

-- `Scenario`, as `__post_init__` lets it pass
pub record Scenario : Type 0 where
  pub n_children : ℕ
  pub prefix_tokens : ℕ
  pub suffix_tokens : ℕ

-- `Scenario(n, p, u)`; `none` is its `ValueError`.
abbrev pub scenario : ℤ → ℤ → ℤ → Option Scenario
scenario (pos n) (pos p) (pos u) =
    if n == 0 || p + u == 0
    then none
    else some (record { n_children = n; prefix_tokens = p; suffix_tokens = u })
scenario (negsuc n) p u = none
scenario (pos n) (negsuc p) u = none
scenario (pos n) (pos p) (negsuc u) = none

pub record Charges : Type 0 where
  pub prefill_charged : ℕ
  pub resident : ℕ

-- The fields `independent`, `self_hosted_radix` and `agentfork` of `model`
pub record Model : Type 0 where
  pub independent : Charges
  pub self_hosted_radix : Charges
  pub agentfork : Charges

abbrev pub both : ℕ → Charges
both n = record { prefill_charged = n; resident = n }

unfoldable pub model : Scenario → Model
model s =
    let n = s.n_children in
    let p = s.prefix_tokens in
    let u = s.suffix_tokens in
    record {
      independent = both (n * (p + u));
      self_hosted_radix = both (p + n * u);
      agentfork = both (p + n * u);
    }

-- `PressureScenario`, as `__post_init__` lets it pass
pub record PressureScenario : Type 0 where
  pub prefix_tokens : ℕ
  pub n_children : ℕ
  pub suffix_tokens : ℕ
  pub interleaved_tokens : ℕ
  pub capacity_tokens : ℕ
  pub pattern : String

-- What `__post_init__` tests of numbers that are not negative
abbrev pub is_valid : PressureScenario → Bool
is_valid ps =
    not (ps.n_children == 0)
    && not (ps.capacity_tokens == 0)
    && not (ps.prefix_tokens + ps.suffix_tokens == 0)
    && leb (ps.prefix_tokens + ps.suffix_tokens) ps.capacity_tokens
    && (same ps.pattern "sustained" || same ps.pattern "burst")

-- `PressureScenario(p, n, s, u, c, pattern)`; `none` is its `ValueError`.
abbrev pub pressure_scenario : ℤ → ℤ → ℤ → ℤ → ℤ → String → Option PressureScenario
pressure_scenario (pos p) (pos n) (pos s) (pos u) (pos c) pattern =
    let ps : PressureScenario = record {
      prefix_tokens = p;
      n_children = n;
      suffix_tokens = s;
      interleaved_tokens = u;
      capacity_tokens = c;
      pattern = pattern;
    } in
    if is_valid ps then some ps else none
pressure_scenario (negsuc p) n s u c pattern = none
pressure_scenario (pos p) (negsuc n) s u c pattern = none
pressure_scenario (pos p) (pos n) (negsuc s) u c pattern = none
pressure_scenario (pos p) (pos n) (pos s) (negsuc u) c pattern = none
pressure_scenario (pos p) (pos n) (pos s) (pos u) (negsuc c) pattern = none

-- `max(0, capacity_tokens - prefix_tokens)`: subtraction of natural numbers stops at 0.
abbrev pub break_even_u : ℕ → ℕ → ℕ
break_even_u prefix_tokens capacity_tokens = capacity_tokens - prefix_tokens

unfoldable pub stock_parent_hits : PressureScenario → ℕ
stock_parent_hits ps =
    let n = ps.n_children in
    let evicts = ltb (break_even_u ps.prefix_tokens ps.capacity_tokens) ps.interleaved_tokens in
    if same ps.pattern "burst"
    then (if not evicts then n else n - 1)
    else (if not evicts then n else 0)

-- What `pressure_model` says of one cache
pub record Side : Type 0 where
  pub parent_hits : ℕ
  pub misses : ℕ
  pub prefill_charged : ℕ

pub record PressureModel : Type 0 where
  pub break_even : ℕ
  pub stock : Side
  pub pinned : Side
  pub pinning_wins : Bool

unfoldable pub pressure_model : PressureScenario → PressureModel
unfolding stock_parent_hits
pressure_model ps =
    let p = ps.prefix_tokens in
    let n = ps.n_children in
    let s = ps.suffix_tokens in
    let hits = stock_parent_hits ps in
    let misses = n - hits in
    record {
      break_even = break_even_u p ps.capacity_tokens;
      stock = record {
        parent_hits = hits;
        misses = misses;
        prefill_charged = p + n * s + misses * p;
      };
      pinned = record { parent_hits = n; misses = 0; prefill_charged = p + n * s };
      pinning_wins = ltb 0 misses;
    }
