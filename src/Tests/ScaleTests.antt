-- ===== src/Tests/ScaleTests.antt =====
-- Witness for `decision` of hack/arena-sc-horizontal-scale-summarize.py: a rung that confirms the knee.
use llm_d_sc_benchmark.Prelude.{
  ℕ, ◌/◌, ◌≡◌, refl, arith, String, Bool, true, false, Option, none, some, List, [], ◌∷◌, ℤ, pos,
  Result, ok, err, length, get_elem?,
}
use llm_d_sc_benchmark.Prelude.Floats.{insert_float, sorted}
use llm_d_sc_benchmark.Scale.Statistics.{percentile, sample_cv}
use llm_d_sc_benchmark.Scale.Cells.{
  DecisionError, CellSummary, is_some_eq, and_then, next, divide, value_of, abs, max, min, clean41,
  stressed42, p99_quotient, p99_spread, relative_delta,
}
use llm_d_sc_benchmark.Scale.Decision.{
  Decision, confirmed_at_rung, status_of, from_statistics, is_pair, by_id, cells_at, select,
  medians, bootstrap_ci, block_row, block_rows, bootstrap_gate_of, is_limited, latencies,
  variability_gate_of, is_directed, scale_sentinels_of, r1_gate_of, r1_sentinels_of, gates_of,
  is_confirmed, horizontal_efficiency, decision,
}
use llm_d_sc_benchmark.Plan.Gates.{analysis}
use llm_d_sc_benchmark.Scale.Confirmed.{IsConfirmed, decision-IsConfirmed}
use llm_d_sc_benchmark.Tests.Input.{fixed_point}

abbrev median : List ℤ → ℤ
unfolding insert_float sorted
median values = elim (get_elem? (sorted values) (length values / 2)) [ none ↦ pos 0 | some x ↦ x ]

abbrev low : String → Bool → Option ℕ → CellSummary ℤ
low id is_knee block = record {
  cell_id = id;
  is_knee = is_knee;
  block = block;
  offered = some 41;
  success_ratio = pos 1000;
  drain_ratio = pos 0;
  errors_total = 0;
  p99 = some (pos 28_000_000);
  per_pod_useful_rps = pos 41_000;
  aggregate_useful_rps = pos 820_000;
}

abbrev high : String → Bool → Option ℕ → CellSummary ℤ
high id is_knee block = record {
  cell_id = id;
  is_knee = is_knee;
  block = block;
  offered = some 42;
  success_ratio = pos 900;
  drain_ratio = pos 100;
  errors_total = 0;
  p99 = some (pos 56_000_000);
  per_pod_useful_rps = pos 37_800;
  aggregate_useful_rps = pos 756_000;
}

abbrev cells : List (CellSummary ℤ)
cells =
    low "r1-pre-41" false none
    ∷ high "r1-pre-42" false none
    ∷ low "scale-pre-35" false none
    ∷ low "b1a" true (some 1)
    ∷ high "b1b" true (some 1)
    ∷ high "b2a" true (some 2)
    ∷ low "b2b" true (some 2)
    ∷ low "b3a" true (some 3)
    ∷ high "b3b" true (some 3)
    ∷ high "b4a" true (some 4)
    ∷ low "b4b" true (some 4)
    ∷ low "b5a" true (some 5)
    ∷ high "b5b" true (some 5)
    ∷ low "scale-post-35" false none
    ∷ low "r1-post-41" false none
    ∷ high "r1-post-42" false none
    ∷ []

abbrev draws : List (List ℕ)
draws = (0 ∷ 1 ∷ 2 ∷ 3 ∷ 4 ∷ []) ∷ []

abbrev confirms : Result DecisionError (Decision ℤ) → Bool
confirms (ok d) = elim d.status [ confirmed_at_rung ↦ true | _ ↦ false ]
confirms (err e) = false

decision_of :
    (result : Result DecisionError (Decision ℤ))
    → confirms result ≡ true
    → (d : Decision ℤ) × (result ≡ ok d) × (d.status ≡ confirmed_at_rung)
decision_of (ok d) h = (d, refl, ground arith)
decision_of (err e) h = cc

confirms_lem : confirms (decision median draws analysis 20 cells) ≡ true
unfolding insert_float sorted percentile sample_cv is_some_eq and_then next divide value_of abs max
    min clean41 stressed42 p99_quotient p99_spread relative_delta status_of from_statistics is_pair
    by_id cells_at select medians bootstrap_ci block_row block_rows bootstrap_gate_of is_limited
    latencies variability_gate_of is_directed scale_sentinels_of r1_gate_of r1_sentinels_of gates_of
    is_confirmed horizontal_efficiency decision median
confirms_lem = refl

found :
    (d : Decision ℤ) × (decision median draws analysis 20 cells ≡ ok d)
    × (d.status ≡ confirmed_at_rung)
found = decision_of (decision median draws analysis 20 cells) confirms_lem

decision-IsConfirmed_example : IsConfirmed median draws analysis cells
decision-IsConfirmed_example =
    decision-IsConfirmed median draws analysis 20 cells found.0 found.1 found.2
