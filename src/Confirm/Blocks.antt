-- ===== src/Confirm/Blocks.antt =====
-- hack/arena-sc-knee-confirm-analyze.py: `_cell_observation`, and the checks of a block in `analyze`.
use llm_d_sc_benchmark.Prelude.{
  ◌==ℤ◌, ℕ, String, Bool, false, ◌&&◌, ◌||◌, Option, none, some, List, [], ◌∷◌, ℤ, pos, ltb_ℤ, ok,
  ◌>>=◌, if◌then◌else◌,
}
use llm_d_sc_benchmark.Prelude.Floats.{Floats}
use llm_d_sc_benchmark.Confirm.Fields.{Checked}
use llm_d_sc_benchmark.Confirm.Cells.{ParsedCell, zero_f, one_f}
use llm_d_sc_benchmark.Confirm.Runtime.{Checks, passed}
use llm_d_sc_benchmark.Confirm.Orders.{low_rate, high_rate, ByRate, cell_at}
use llm_d_sc_benchmark.Confirm.Statistics.{Effects}

pub record Observation (F : Type 0) : Type 0 where
  pub order : ℤ
  pub run_id : String
  pub success_ratio : F
  pub drain_ratio : F
  pub drained_after_plateau : ℤ
  pub service_errors : ℤ
  pub in_flight_limit_drops : ℤ
  pub health_event_violations : ℤ
  pub successful_completion_p99_us : Option F
  pub useful_rps : F

pub record Block (F : Type 0) : Type 0 where
  pub block : ℕ
  pub low_observation : Observation F
  pub clean_checks : Checks
  pub high_observation : Observation F
  pub stress_checks : Checks
  pub delta_success : F
  pub delta_drain : F
  pub latency_ratio : Option F
  pub marginal_useful_rps : F
  pub direction_checks : Checks

unfoldable pub is_some_and : {A : Type 0} → (A → Bool) → Option A → Bool
is_some_and test none = false
is_some_and test (some a) = test a

module _ {F : Type 0} ⦃fl : Floats F⦄ where
  unfoldable pub cell_observation : ParsedCell F → Observation F
  cell_observation cell = record {
    order = cell.load.order;
    run_id = cell.load.run_id;
    success_ratio = cell.load.success_ratio;
    drain_ratio = cell.load.drain_ratio;
    drained_after_plateau = cell.load.drained;
    service_errors = cell.load.errors;
    in_flight_limit_drops = cell.load.in_flight_drops;
    health_event_violations = cell.attribution.health_violations;
    successful_completion_p99_us = cell.latency.p99_us;
    useful_rps = cell.load.useful_rps;
  }

  abbrev pub clean_p99_limit_us : F
  clean_p99_limit_us = fl.decimal 353630 1

  unfoldable pub low_checks : ParsedCell F → Checks
  low_checks low =
      ("success_at_least_0_99", fl.le (fl.decimal 99 2) low.load.success_ratio)
      ∷ ("drain_at_most_0_01", fl.le low.load.drain_ratio (fl.decimal 1 2))
      ∷ ("zero_service_errors", low.load.errors ==ℤ pos 0)
      ∷ ("zero_in_flight_limit_drops", low.load.in_flight_drops ==ℤ pos 0)
      ∷ ("zero_health_violations", low.attribution.health_violations ==ℤ pos 0)
      ∷ (
        "zero_restarts_attested",
        low.attribution.telemetry_complete && low.attribution.telemetry_supporting,
      )
      ∷ (
        "p99_at_most_35_363_ms",
        is_some_and (λ p99. fl.le p99 clean_p99_limit_us) low.latency.p99_us,
      )
      ∷ []

  unfoldable pub stress_signal : ParsedCell F → Bool
  stress_signal high =
      fl.lt high.load.success_ratio (fl.decimal 99 2)
      || fl.lt (fl.decimal 1 2) high.load.drain_ratio
      || ltb_ℤ (pos 0) high.load.errors

  unfoldable pub latency_ratio_of : Option F → Option F → Option F
  latency_ratio_of (some low) (some high) =
      if fl.lt zero_f low then some (fl.div high low) else none
  latency_ratio_of (some low) none = none
  latency_ratio_of none high = none

  unfoldable pub high_checks : ParsedCell F → Option F → Checks
  high_checks high ratio =
      ("stress_signal", stress_signal high)
      ∷ ("paired_p99_ratio_above_1_25", is_some_and (fl.lt (fl.decimal 125 2)) ratio)
      ∷ []

  unfoldable pub direction_checks_of : F → F → Option F → F → Checks
  direction_checks_of success drain ratio useful =
      ("delta_success_below_zero", fl.lt success zero_f)
      ∷ ("delta_drain_above_zero", fl.lt zero_f drain)
      ∷ ("latency_ratio_above_one", is_some_and (fl.lt one_f) ratio)
      ∷ ("marginal_useful_below_one", fl.lt useful one_f)
      ∷ []

  -- A pass through the loop over the blocks.
  unfoldable pub make_block : ℕ → ParsedCell F → ParsedCell F → Block F
  make_block block low high =
      let success : F = fl.sub high.load.success_ratio low.load.success_ratio in
      let drain : F = fl.sub high.load.drain_ratio low.load.drain_ratio in
      let ratio : Option F = latency_ratio_of low.latency.p99_us high.latency.p99_us in
      let useful : F = fl.sub high.load.useful_rps low.load.useful_rps in
      record {
        block = block;
        low_observation = cell_observation low;
        clean_checks = low_checks low;
        high_observation = cell_observation high;
        stress_checks = high_checks high ratio;
        delta_success = success;
        delta_drain = drain;
        latency_ratio = ratio;
        marginal_useful_rps = useful;
        direction_checks = direction_checks_of success drain ratio useful;
      }

  unfoldable pub make_blocks : ByRate F → List ℕ → Checked (List (Block F))
  make_blocks points [] = ok []
  make_blocks points (block ∷ rest) = do
    low ← cell_at points low_rate block
    high ← cell_at points high_rate block
    made ← make_blocks points rest
    ok (make_block block low high ∷ made)

  abbrev pub is_clean : Block F → Bool
  is_clean b = passed b.clean_checks

  abbrev pub is_stressed : Block F → Bool
  is_stressed b = passed b.stress_checks

  abbrev pub directions_agree : Block F → Bool
  directions_agree b = passed b.direction_checks

  -- `effect_vectors`: the effects of the blocks that have a latency ratio.
  unfoldable pub effect_vectors : List (Block F) → List (Effects F)
  effect_vectors [] = []
  effect_vectors (b ∷ bs) = elim b.latency_ratio [
    | none ↦ effect_vectors bs
    | some ratio ↦
        record {
          delta_success = b.delta_success;
          delta_drain = b.delta_drain;
          latency_ratio = ratio;
          marginal_useful_rps = b.marginal_useful_rps;
        }
        ∷ effect_vectors bs
  ]
