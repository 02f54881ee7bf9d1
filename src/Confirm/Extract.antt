-- ===== src/Confirm/Extract.antt =====
-- hack/arena-sc-knee-confirm-analyze.py: `_extract`, from the summary to the cells and the external checks.
use text.Mathlib.Text.{◌==◌ as str_eq}
use llm_d_sc_benchmark.Prelude.{
  ◌==ℤ◌, ℕ, String, Bool, true, false, not, ◌&&◌, Option, List, [], ◌∷◌, ◌++◌, map, ℤ, pos, ltb_ℤ,
  ok, ◌>>=◌, ◌>>◌, ◌==◌, all, length,
}
use llm_d_sc_benchmark.Prelude.Json.{Json, Fields}
use llm_d_sc_benchmark.Prelude.Floats.{Floats}
use llm_d_sc_benchmark.Confirm.Fields.{
  Checked, demand, required, mapping, sequence, boolean, integer, integer_from, string, number_from,
  number_between, rate, wrong_schema, wrong_rate_count, rates_disagree, duplicate_rate,
  wrong_cell_count, wrong_repetitions, wrong_rates, wrong_orders,
}
use llm_d_sc_benchmark.Confirm.Cells.{ParsedCell, zero_f, one_f, parse_cell}
use llm_d_sc_benchmark.Confirm.Runtime.{Checks, passed, runtime_checks}
use llm_d_sc_benchmark.Confirm.Orders.{
  low_rate, high_rate, blocks, ByRate, is_permutation_to, repetitions_of, has_rate, all_cells,
  in_expected_order, pairs_adjacent,
}

is_nil : {A : Type 0} → List A → Bool
is_nil [] = true
is_nil (a ∷ as') = false

-- The fields of the summary that stand before its rate points.
pub record Flags (F : Type 0) : Type 0 where
  pub planned : ℤ
  pub attested : ℤ
  pub accounting : Bool
  pub scheduler : Bool
  pub telemetry_required : Bool
  pub telemetry_valid : Bool
  pub topology_valid : Bool
  pub topology_required : Bool
  pub source_linked : Bool
  pub build_sha : String
  pub local_sha : String
  pub max_dispatch_ms : F
  pub max_schedule_drop : F

module _ {F : Type 0} ⦃fl : Floats F⦄ where
  unfoldable pub read_flags : Fields F → Checked (Flags F)
  read_flags summary = do
    schema ← integer "schema_version" (← required summary "schema_version")
    demand (schema ==ℤ pos 2) wrong_schema
    planned ← integer_from (pos 0) "planned_cells" (← required summary "planned_cells")
    attested ← integer_from (pos 0) "attested_cells" (← required summary "attested_cells")
    accounting ← boolean "all_accounting_valid" (← required summary "all_accounting_valid")
    scheduler ←
        boolean "all_scheduler_attribution_valid"
          (← required summary "all_scheduler_attribution_valid")
    telemetry_required ← boolean "telemetry_required" (← required summary "telemetry_required")
    telemetry_valid ←
        boolean "all_required_telemetry_valid" (← required summary "all_required_telemetry_valid")
    topology_valid ←
        boolean "all_required_topology_preflights_valid"
          (← required summary "all_required_topology_preflights_valid")
    config ← mapping "topology_preflight" (← required summary "topology_preflight")
    topology_required ← boolean "topology_preflight.required" (← required config "required")
    source ← mapping "source_attestation" (← required summary "source_attestation")
    linked ←
        boolean "source_attestation.runtime_source_linkage_attested"
          (← required source "runtime_source_linkage_attested")
    build_sha ←
        string "source_attestation.driver_build_source_sha256"
          (← required source "driver_build_source_sha256")
    local_sha ←
        string "source_attestation.local_probe_source_sha256"
          (← required source "local_probe_source_sha256")
    thresholds ←
        mapping "scheduler_attribution_thresholds"
          (← required summary "scheduler_attribution_thresholds")
    dispatch ←
        number_from zero_f "max_dispatch_p99_lag_ms"
          (← required thresholds "max_dispatch_p99_lag_ms")
    drop ←
        number_between zero_f one_f "max_schedule_drop_ratio"
          (← required thresholds "max_schedule_drop_ratio")
    ok (record {
      planned = planned;
      attested = attested;
      accounting = accounting;
      scheduler = scheduler;
      telemetry_required = telemetry_required;
      telemetry_valid = telemetry_valid;
      topology_valid = topology_valid;
      topology_required = topology_required;
      source_linked = linked;
      build_sha = build_sha;
      local_sha = local_sha;
      max_dispatch_ms = dispatch;
      max_schedule_drop = drop;
    })

  unfoldable pub parse_cells :
      (String → Option F) → ℕ → List (Json F) → Checked (List (ParsedCell F))
  parse_cells parse_float wanted [] = ok []
  parse_cells parse_float wanted (raw ∷ raws) = do
    cell ← parse_cell parse_float wanted raw
    cells ← parse_cells parse_float wanted raws
    ok (cell ∷ cells)

  -- The cells of a rate point, with one of each repetition from 1 to 5.
  unfoldable pub read_cells : (String → Option F) → ℕ → Fields F → Checked (List (ParsedCell F))
  read_cells parse_float wanted point = do
    raw_cells ← sequence "cells" (← required point "cells")
    demand (length raw_cells == 5) wrong_cell_count
    cells ← parse_cells parse_float wanted raw_cells
    demand (is_permutation_to 5 (repetitions_of cells)) wrong_repetitions
    ok cells

  -- The fields of a rate point beside its cells.
  unfoldable pub read_rate : (String → Option F) → ByRate F → Fields F → Checked (ℕ × List Bool)
  read_rate parse_float points point = do
    numeric ←
        rate parse_float "offered_rps_per_target_numeric"
          (← required point "offered_rps_per_target_numeric")
    text ← rate parse_float "offered_rps_per_target" (← required point "offered_rps_per_target")
    demand (numeric == text) rates_disagree
    demand (not (has_rate numeric points)) duplicate_rate
    repetitions ← integer_from (pos 0) "repetitions" (← required point "repetitions")
    scheduled ←
        integer_from (pos 0) "scheduler_valid_repetitions"
          (← required point "scheduler_valid_repetitions")
    all_scheduler ← boolean "all_scheduler_valid" (← required point "all_scheduler_valid")
    ok (numeric, (repetitions ==ℤ pos 5) ∷ (scheduled ==ℤ pos 5) ∷ all_scheduler ∷ [])

  -- A pass through the loop over the rate points, up to the new entry of `by_rate` and the rate's checks.
  unfoldable pub read_point :
      (String → Option F) → ByRate F → Json F → Checked ((ℕ × List (ParsedCell F)) × List Bool)
  read_point parse_float points raw = do
    point ← mapping "rates" raw
    point_rate ← read_rate parse_float points point
    cells ← read_cells parse_float point_rate.0 point
    ok ((point_rate.0, cells), point_rate.1)

  unfoldable pub read_points :
      (String → Option F) → List (Json F) → ByRate F → List Bool → Checked (ByRate F × List Bool)
  read_points parse_float [] points checks = ok (points, checks)
  read_points parse_float (raw ∷ raws) points checks = do
    read ← read_point parse_float points raw
    read_points parse_float raws (points ++ read.0 ∷ []) (checks ++ read.1)

  unfoldable pub scheduler_attributed : ParsedCell F → Bool
  unfolding is_nil
  scheduler_attributed cell =
      cell.attribution.scheduler_valid
      && is_nil cell.attribution.scheduler_reasons
      && cell.load.schedule_drops ==ℤ pos 0
      && fl.eq cell.load.schedule_drop_ratio zero_f
      && fl.le cell.attribution.dispatch_p99_us (fl.decimal 5000 0)

  unfoldable pub telemetry_attributed : ParsedCell F → Bool
  telemetry_attributed cell =
      cell.attribution.telemetry_complete
      && cell.attribution.telemetry_supporting
      && cell.attribution.telemetry_pods ==ℤ pos 1
      && cell.attribution.telemetry_nodes ==ℤ pos 2

  unfoldable pub topology_attributed : ParsedCell F → Bool
  topology_attributed cell =
      cell.attribution.topology_required
      && cell.attribution.topology_attested
      && cell.attribution.topology_authorized
      && str_eq cell.attribution.topology_verdict "PASS"
      && str_eq cell.attribution.placement_verdict "PASS"
      && cell.attribution.target_identities ==ℤ pos 1

  unfoldable pub health_attributed : ParsedCell F → Bool
  health_attributed cell =
      length cell.attribution.target_cpusets == 1
      && fl.le zero_f cell.attribution.average_target_cpu_cores
      && not (ltb_ℤ cell.attribution.health_violations (pos 0))

  unfoldable pub external_checks : Flags F → Checks → List Bool → ByRate F → Bool → Checks
  external_checks flags runtime rate_checks points adjacent =
      ("ten_planned_and_attested_cells", flags.planned ==ℤ pos 10 && flags.attested ==ℤ pos 10)
      ∷ ("accounting", flags.accounting)
      ∷ ("source_runtime_linkage", flags.source_linked && str_eq flags.build_sha flags.local_sha)
      ∷ (
        "scheduler_attribution",
        flags.scheduler
            && all scheduler_attributed (all_cells points)
            && all (λ b. b) rate_checks
            && fl.is_close flags.max_dispatch_ms (fl.decimal 5 0)
            && fl.is_close flags.max_schedule_drop zero_f,
      )
      ∷ (
        "telemetry_and_zero_restart_attestation",
        flags.telemetry_required
            && flags.telemetry_valid
            && all telemetry_attributed (all_cells points),
      )
      ∷ (
        "topology_and_identity",
        flags.topology_required
            && flags.topology_valid
            && all topology_attributed (all_cells points),
      )
      ∷ ("cgroup_and_health_attribution", all health_attributed (all_cells points))
      ∷ ("frozen_runtime_shape", passed runtime)
      ∷ ("frozen_randomized_order", in_expected_order points)
      ∷ ("adjacent_pairing_by_repetition", adjacent)
      ∷ []

  -- What stands before the loop over the rate points.
  unfoldable pub read_summary : Json F → Checked (Flags F × Checks × List (Json F))
  read_summary raw = do
    summary ← mapping "summary" raw
    flags ← read_flags summary
    runtime ← runtime_checks summary
    raw_rates ← sequence "rates" (← required summary "rates")
    demand (length raw_rates == 2) wrong_rate_count
    ok (flags, runtime, raw_rates)

  -- The tests of `by_rate` after the loop; the result tells whether the pairs are adjacent.
  unfoldable pub check_points : ByRate F → Checked Bool
  check_points points = do
    demand (has_rate low_rate points && has_rate high_rate points) wrong_rates
    demand (is_permutation_to 10 (map (λ c. c.load.order) (all_cells points))) wrong_orders
    pairs_adjacent points blocks

  unfoldable pub extract : (String → Option F) → Json F → Checked (ByRate F × Checks)
  extract parse_float raw = do
    summary ← read_summary raw
    read ← read_points parse_float summary.2 [] []
    adjacent ← check_points read.0
    ok (read.0, external_checks summary.0 summary.1 read.1 read.0 adjacent)
