-- ===== src/Extension/Pool.antt =====
-- hack/arena-sc-knee-confirm-extension-analyze.py: `_median`, `_bootstrap`, `_make_blocks` and `_evaluate`. The
-- draws of the random generator for five and for ten blocks are an argument.
use llm_d_sc_benchmark.Prelude.{
  ℕ, ◌+◌, ◌-◌, ◌/◌, ◌%◌, Bool, true, false, not, ◌||◌, Option, none, some, List, [], ◌∷◌, ◌++◌, map,
  ok, ◌>>=◌, ◌>>◌, ◌==◌, if◌then◌else◌, all, keep, length,
}
use llm_d_sc_benchmark.Prelude.Floats.{Floats, sorted}
use llm_d_sc_benchmark.Confirm.Fields.{
  Checked, invalid, demand, no_observations, wrong_effect_count,
}
use llm_d_sc_benchmark.Confirm.Orders.{low_rate, high_rate, ByRate, cell_at}
use llm_d_sc_benchmark.Confirm.Statistics.{
  Effects, Interval, Bootstrap, element, percentile, select, with_checks,
}
use llm_d_sc_benchmark.Confirm.Blocks.{
  Block, make_block, is_clean, is_stressed, directions_agree, effect_vectors,
}
use llm_d_sc_benchmark.Confirm.Analyze.{
  Status, confirmed, inconclusive, Reason, external_failed, not_clean, not_stressed,
  directions_disagree, cv_failed, all_conditions_passed, Variability, Conditions, failed,
  all_conditions, name_reason, present, cv_values, on_cv, bootstrap_passed, bootstrap_reason,
}

-- What `_evaluate` returns; `claimed` tells whether it makes the claim that it is given.
pub record Evaluation (F : Type 0) : Type 0 where
  pub status : Status
  pub claimed : Bool
  pub reasons : List Reason
  pub conditions : Conditions
  pub paired : List (Block F)
  pub resampled : Option (Bootstrap F)
  pub variability : Variability F

unfoldable pub status_of : Bool → Status
status_of true = confirmed
status_of false = inconclusive

module _ {F : Type 0} ⦃fl : Floats F⦄ where
  unfoldable pub median : List F → Checked F
  median values = do
    demand (not (length values == 0)) no_observations
    let ordered = sorted values
    let middle = length values / 2
    high ← element ordered middle
    if length values % 2 == 1
        then ok high
        else (do low ← element ordered (middle - 1); ok (fl.div (fl.add low high) (fl.decimal 2 0)))

  unfoldable pub resampled_medians : List F → List (List ℕ) → Checked (List F)
  resampled_medians values [] = ok []
  resampled_medians values (draw ∷ draws) = do
    selected ← select values draw
    here ← median selected
    rest ← resampled_medians values draws
    ok (here ∷ rest)

  unfoldable pub pooled_interval : List (List ℕ) → List F → Checked (Interval F)
  pooled_interval draws values = do
    samples ← resampled_medians values draws
    effect ← median values
    lower ← percentile samples (fl.decimal 25 3)
    upper ← percentile samples (fl.decimal 975 3)
    ok (record { median_effect = effect; lower_95 = lower; upper_95 = upper })

  unfoldable pub pooled_bootstrap : (ℕ → List (List ℕ)) → List (Effects F) → Checked (Bootstrap F)
  pooled_bootstrap draws effects = do
    demand (length effects == 5 || length effects == 10) wrong_effect_count
    let drawn = draws (length effects)
    success ← pooled_interval drawn (map (λ e. e.delta_success) effects)
    drain ← pooled_interval drawn (map (λ e. e.delta_drain) effects)
    latency ← pooled_interval drawn (map (λ e. e.latency_ratio) effects)
    useful ← pooled_interval drawn (map (λ e. e.marginal_useful_rps) effects)
    ok (
        with_checks (record {
          delta_success = success;
          delta_drain = drain;
          latency_ratio = latency;
          marginal_useful_rps = useful;
        }))

  -- The blocks of a stage: "global_block" is the repetition and the offset.
  unfoldable pub make_stage_blocks : ByRate F → ℕ → List ℕ → Checked (List (Block F))
  make_stage_blocks points offset [] = ok []
  make_stage_blocks points offset (repetition ∷ rest) = do
    low ← cell_at points low_rate repetition
    high ← cell_at points high_rate repetition
    made ← make_stage_blocks points offset rest
    ok (make_block (repetition + offset) low high ∷ made)

  -- The bootstrap, where every block has its latency ratio.
  unfoldable pub bootstrap_blocks :
      (ℕ → List (List ℕ)) → List (Block F) → Checked (Option (Bootstrap F))
  bootstrap_blocks draws made =
      if length (effect_vectors made) == length made
      then (pooled_bootstrap draws (effect_vectors made) >>= λ result. ok (some result))
      else ok none

  unfoldable pub variability_of : List (Block F) → Checked (Variability F)
  variability_of made =
      elim (present (map (λ b. b.low_observation.successful_completion_p99_us) made)) [
        | none ↦ on_cv (invalid no_observations)
        | some low ↦
            elim (present (map (λ b. b.high_observation.successful_completion_p99_us) made)) [
              | none ↦ on_cv (invalid no_observations)
              | some high ↦ on_cv (
                  cv_values (map (λ b. b.low_observation.useful_rps) made)
                    (map (λ b. b.high_observation.useful_rps) made) low high)
            ]
      ]

  unfoldable pub conditions_of :
      Bool → List (Block F) → Variability F → Option (Bootstrap F) → Conditions
  conditions_of external made variability resampled = record {
    attributed = external;
    clean = all is_clean made;
    stressed = all is_stressed made;
    directions = all directions_agree made;
    bootstrap = bootstrap_passed resampled;
    sample_cv_limits = variability.passed_limits;
  }

  unfoldable pub pooled_reasons :
      Bool → List (Block F) → Variability F → Option (Bootstrap F) → List Reason
  pooled_reasons external made variability resampled =
      (if external then [] else external_failed [] ∷ [])
      ++ name_reason not_clean (map (λ b. b.block) (keep (λ b. not (is_clean b)) made))
      ++ name_reason not_stressed (map (λ b. b.block) (keep (λ b. not (is_stressed b)) made))
      ++ name_reason directions_disagree
          (map (λ b. b.block) (keep (λ b. not (directions_agree b)) made))
      ++ bootstrap_reason resampled
      ++ (if variability.passed_limits then [] else cv_failed (failed variability.checks) ∷ [])

  unfoldable pub evaluation :
      Bool → List (Block F) → Variability F → Option (Bootstrap F) → Evaluation F
  evaluation external made variability resampled =
      let conditions = conditions_of external made variability resampled in
      record {
        status = status_of (all_conditions conditions);
        claimed = all_conditions conditions;
        reasons =
            if all_conditions conditions
            then all_conditions_passed ∷ []
            else pooled_reasons external made variability resampled;
        conditions = conditions;
        paired = made;
        resampled = resampled;
        variability = variability;
      }

  unfoldable pub evaluate_blocks :
      (ℕ → List (List ℕ)) → List (Block F) → Bool → Checked (Evaluation F)
  evaluate_blocks draws made external = do
    resampled ← bootstrap_blocks draws made
    variability ← variability_of made
    ok (evaluation external made variability resampled)
