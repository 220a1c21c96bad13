-- ===== src/Cost/Tests.antt =====
-- Scenarios of agentfork/bench/cost_model.py
use agentfork.Base.{◌≡◌, refl, true, false, none, some, same}
use agentfork.Base.Int.{pos, negsuc}
use agentfork.Cost.{
  scenario, model, PressureScenario, pressure_scenario, pressure_model, stock_parent_hits,
}
use agentfork.Cost.Replay.{Agrees, replay, replay_of, pressure_scenario-Agrees}

program : Unit {0}
unfolding model pressure_model stock_parent_hits replay same
program = tt

abbrev burst : PressureScenario
burst = record {
  prefix_tokens = 100;
  n_children = 10;
  suffix_tokens = 8;
  interleaved_tokens = 30;
  capacity_tokens = 120;
  pattern = "burst";
}

abbrev sustained : PressureScenario
sustained = record burst { pattern = "sustained" }

scenarios :
    ((pressure_model burst).stock.prefill_charged ≡ 280)
    × ((pressure_model sustained).stock.prefill_charged ≡ 1180)
    × ((pressure_model sustained).pinned.prefill_charged ≡ 180)
    × ((pressure_model (record sustained { interleaved_tokens = 20 })).pinning_wins ≡ false)
    × ((pressure_model (record sustained { interleaved_tokens = 21 })).pinning_wins ≡ true)
    × (pressure_scenario (pos 100) (pos 10) (pos 21) (pos 0) (pos 120) "burst" ≡ none)
    × (pressure_scenario (pos 1) (pos 1) (pos 1) (negsuc 0) (pos 9) "burst" ≡ none)
    × (pressure_scenario (pos 1) (pos 1) (pos 1) (pos 0) (pos 9) "other" ≡ none)
    × (scenario (pos 3) (pos 0) (pos 0) ≡ none)
unfolding program
scenarios = (refl, refl, refl, refl, refl, refl, refl, refl, refl)

burst_accepted :
    pressure_scenario (pos 100) (pos 10) (pos 8) (pos 30) (pos 120) "burst" ≡ some burst
unfolding program
burst_accepted = refl

pressure_scenario-Agrees_example : Agrees burst (replay_of burst)
pressure_scenario-Agrees_example =
    pressure_scenario-Agrees (pos 100) (pos 10) (pos 8) (pos 30) (pos 120) "burst" burst
      burst_accepted
