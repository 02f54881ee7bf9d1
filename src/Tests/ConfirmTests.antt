-- ===== src/Tests/ConfirmTests.antt =====
-- Witnesses for the decision of hack/arena-sc-knee-confirm-analyze.py.
use llm_d_sc_benchmark.Prelude.{
  ℕ, String, ◌≡◌, refl, ◌≢◌, Bool, true, false, Option, none, List, [], ◌∷◌, ℤ, pos, ok, err, All,
  inr, arith,
}
use llm_d_sc_benchmark.Prelude.Json.{get, items}
use llm_d_sc_benchmark.Prelude.Floats.{insert_float, sorted}
use llm_d_sc_benchmark.Confirm.Fields.{
  Checked, invalid, required, mapping, sequence, boolean, integer, integer_from, string, to_float,
  number_from, number_between, rate_of_float, rate,
}
use llm_d_sc_benchmark.Confirm.Cells.{
  ParsedCell, check_ratio, parse_load, parse_p99, read_latency, check_latency, parse_latency,
  parse_attribution, parse_cell,
}
use llm_d_sc_benchmark.Confirm.Runtime.{Checks, passed, run_checks, runtime_checks}
use llm_d_sc_benchmark.Confirm.Orders.{
  ByRate, blocks, insert_int, sort_ints, is_range, is_permutation_to, is_next, has_rate, cell_of,
  cell_at, repetitions_of, all_cells, matches_order, in_expected_order, pairs_adjacent,
}
use llm_d_sc_benchmark.Confirm.Extract.{
  read_flags, parse_cells, read_cells, read_rate, read_point, read_points, scheduler_attributed,
  telemetry_attributed, topology_attributed, health_attributed, external_checks, read_summary,
  check_points, extract,
}
use llm_d_sc_benchmark.Confirm.Statistics.{
  element, sample_cv, interpolate, percentile, select, medians, interval, bootstrap_checks,
  with_checks, bootstrap_median_effects,
}
use llm_d_sc_benchmark.Confirm.Blocks.{
  is_some_and, cell_observation, low_checks, stress_signal, latency_ratio_of, high_checks,
  direction_checks_of, make_block, make_blocks, effect_vectors,
}
use llm_d_sc_benchmark.Confirm.Analyze.{
  Outcome, Report, rejected, evaluated, confirmed, inconclusive, failed, all_conditions,
  name_reason, decide, column, present, cv_values, check_limits, on_cv, make_variability,
  make_bootstrap, bootstrap_passed, make_conditions, bootstrap_reason, reasons_of, evaluate, reject,
  on_extracted, analyze,
}
use llm_d_sc_benchmark.Confirm.Found.{extract_lem}
use llm_d_sc_benchmark.Confirm.Decision.{ShowsKnee}
use llm_d_sc_benchmark.Confirm.Confirmed.{decision_of, analyze_confirmed, analyze_reasons}
use llm_d_sc_benchmark.Tests.Input.{fixed_point}
use llm_d_sc_benchmark.Tests.ConfirmInput.{summary}

abbrev parse_float : String → Option ℤ
parse_float s = none

abbrev draws : List (List ℕ)
draws = (0 ∷ 1 ∷ 2 ∷ 3 ∷ 4 ∷ []) ∷ (4 ∷ 4 ∷ 0 ∷ 1 ∷ 2 ∷ []) ∷ []

abbrev is_confirmed : Checked (Outcome ℤ) → Bool
is_confirmed (ok (evaluated r)) = elim r.decision.status [ confirmed ↦ true | inconclusive ↦ false ]
is_confirmed (ok (rejected d)) = false
is_confirmed (err e) = false

report_of :
    (result : Checked (Outcome ℤ))
    → is_confirmed result ≡ true
    → (report : Report ℤ) × (result ≡ ok (evaluated report)) × (report.decision.status ≡ confirmed)
report_of (ok (evaluated report)) h = (report, refl, ground arith)
report_of (ok (rejected d)) h = cc
report_of (err e) h = cc

is_confirmed_result : is_confirmed (analyze parse_float draws summary) ≡ true
unfolding get items insert_float sorted invalid required mapping sequence boolean integer
    integer_from string to_float number_from number_between rate_of_float rate check_ratio
    parse_load parse_p99 read_latency check_latency parse_latency parse_attribution parse_cell
    passed run_checks runtime_checks insert_int sort_ints is_range is_permutation_to is_next
    has_rate cell_of cell_at repetitions_of all_cells matches_order in_expected_order pairs_adjacent
    read_flags parse_cells read_cells read_rate read_point read_points scheduler_attributed
    telemetry_attributed topology_attributed health_attributed external_checks read_summary
    check_points extract element sample_cv interpolate percentile select medians interval
    bootstrap_checks with_checks bootstrap_median_effects is_some_and cell_observation low_checks
    stress_signal latency_ratio_of high_checks direction_checks_of make_block make_blocks
    effect_vectors failed all_conditions name_reason decide column present cv_values check_limits
    on_cv make_variability make_bootstrap bootstrap_passed make_conditions bootstrap_reason
    reasons_of evaluate reject on_extracted analyze decision_of
is_confirmed_result = refl

found :
    (report : Report ℤ) × (analyze parse_float draws summary ≡ ok (evaluated report))
    × (report.decision.status ≡ confirmed)
found = report_of (analyze parse_float draws summary) is_confirmed_result

analyze_confirmed_example :
    (points : ByRate ℤ) × (external : Checks) × (extract parse_float summary
      ≡ ok (points, external))
    × (passed external ≡ true)
    × (All (ShowsKnee points) blocks)
    × (bootstrap_passed found.0.resampled ≡ true)
    × (found.0.variability.passed_limits ≡ true)
analyze_confirmed_example = analyze_confirmed parse_float draws summary found.0 found.1 found.2

analyze_reasons_example : (decision_of (evaluated found.0)).reasons ≢ []
analyze_reasons_example = analyze_reasons parse_float draws summary (evaluated found.0) found.1

abbrev points_of : Checked (ByRate ℤ × Checks) → ByRate ℤ
points_of (ok extracted) = extracted.0
points_of (err e) = []

abbrev checks_of : Checked (ByRate ℤ × Checks) → Checks
checks_of (ok extracted) = extracted.1
checks_of (err e) = []

abbrev points : ByRate ℤ
points = points_of (extract parse_float summary)

abbrev external : Checks
external = checks_of (extract parse_float summary)

extracted_lem : extract parse_float summary ≡ ok (points, external)
unfolding get items insert_float sorted invalid required mapping sequence boolean integer
    integer_from string to_float number_from number_between rate_of_float rate check_ratio
    parse_load parse_p99 read_latency check_latency parse_latency parse_attribution parse_cell
    passed run_checks runtime_checks insert_int sort_ints is_range is_permutation_to is_next
    has_rate cell_of cell_at repetitions_of all_cells matches_order in_expected_order pairs_adjacent
    read_flags parse_cells read_cells read_rate read_point read_points scheduler_attributed
    telemetry_attributed topology_attributed health_attributed external_checks read_summary
    check_points extract element sample_cv interpolate percentile select medians interval
    bootstrap_checks with_checks bootstrap_median_effects is_some_and cell_observation low_checks
    stress_signal latency_ratio_of high_checks direction_checks_of make_block make_blocks
    effect_vectors failed all_conditions name_reason decide column present cv_values check_limits
    on_cv make_variability make_bootstrap bootstrap_passed make_conditions bootstrap_reason
    reasons_of evaluate reject on_extracted analyze decision_of
extracted_lem = refl

extract_lem_example :
    (cell : ParsedCell ℤ) × (cell_at points 42 3 ≡ ok cell)
    × (cell.rate_group ≡ 42)
    × (cell.load.repetition ≡ pos 3)
extract_lem_example =
    extract_lem parse_float summary points external extracted_lem 3 42 refl (inr refl)
