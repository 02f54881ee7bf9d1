-- ===== src/Tests/KneeTests.antt =====
-- Witness for the bracket of hack/arena-sc-open-loop-summarize.py: 40 and 41 are clean, 42 is not.
use llm_d_sc_benchmark.Prelude.{
  String, ◌≡◌, refl, Bool, true, false, Option, none, some, List, [], ◌∷◌, ℤ, pos, Result, ok, err,
  all,
}
use llm_d_sc_benchmark.Knee.Infer.{
  Aggregate, Bracket, Knee, KneeError, bracketed, invalid_rates, too_few_points, not_reached,
  trigger_if, confidence_of, min_ℤ, is_present, no_triggers, onset_rate, capacity_triggers,
  is_elevated, efficiency_triggers, within, all_within, is_repeatable, confirm_latency,
  signal_capacity, triggers_of, without_pending, median_offered, efficiency_of, pass, infer_from,
  infer_valid, infer_knee,
}
use llm_d_sc_benchmark.Knee.Bracket.{AreNeighbours, infer_knee_lem}
use llm_d_sc_benchmark.Tests.Input.{fixed_point}

abbrev first_of : List ℤ → Option ℤ
first_of [] = none
first_of (x ∷ xs) = some x

abbrev aggregate : String → ℤ → ℤ → ℤ → Aggregate ℤ
aggregate rate offered success useful = record {
  offered_rps_per_target = rate;
  all_scheduler_valid = true;
  repetitions = pos 5;
  median_offered_success_ratio = success;
  median_in_flight_drop_ratio = pos 0;
  median_drain_ratio = pos 0;
  total_errors_within_plateau = pos 0;
  total_health_event_violations = pos 0;
  median_latency_p99_us = some (pos 28000000);
  median_aggregate_useful_rps = useful;
  useful_rps_cv = some (pos 10);
  latency_p99_cv = some (pos 20);
  cell_offered_rps = offered ∷ [];
}

abbrev aggregates : List (Aggregate ℤ)
aggregates =
    aggregate "40" (pos 40000) (pos 1000) (pos 40000)
    ∷ aggregate "41" (pos 41000) (pos 1000) (pos 41000)
    ∷ aggregate "42" (pos 42000) (pos 900) (pos 38000)
    ∷ []

abbrev is_bracketed : Result KneeError (Knee ℤ) → Bool
is_bracketed (ok (bracketed b)) = true
is_bracketed _ = false

bracket_of :
    (result : Result KneeError (Knee ℤ))
    → is_bracketed result ≡ true
    → (bracket : Bracket ℤ) × (result ≡ ok (bracketed bracket))
bracket_of (ok (bracketed b)) h = (b, refl)
bracket_of (ok (invalid_rates rates)) h = cc
bracket_of (ok too_few_points) h = cc
bracket_of (ok (not_reached highest candidate)) h = cc
bracket_of (err e) h = cc

is_bracketed_lem : is_bracketed (infer_knee first_of aggregates) ≡ true
unfolding trigger_if confidence_of min_ℤ is_present no_triggers onset_rate capacity_triggers
    is_elevated efficiency_triggers within all_within is_repeatable confirm_latency signal_capacity
    triggers_of without_pending median_offered efficiency_of pass infer_from infer_valid infer_knee
is_bracketed_lem = refl

found : (bracket : Bracket ℤ) × (infer_knee first_of aggregates ≡ ok (bracketed bracket))
found = bracket_of (infer_knee first_of aggregates) is_bracketed_lem

infer_knee_lem_example :
    (lower : Aggregate ℤ) × (upper : Aggregate ℤ) × AreNeighbours aggregates lower upper
    × (found.0.lower_clean_rate ≡ lower.offered_rps_per_target)
    × (found.0.upper_stress_rate ≡ upper.offered_rps_per_target)
    × (all (λ a. a.all_scheduler_valid) aggregates ≡ true)
infer_knee_lem_example = infer_knee_lem first_of aggregates found.0 found.1
