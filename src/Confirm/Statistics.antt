-- ===== src/Confirm/Statistics.antt =====
-- hack/arena-sc-knee-confirm-analyze.py: `_sample_cv`, `_percentile` and `_bootstrap_median_effects`. The
-- draws of the random generator are an argument: a list of 100,000 resamples of five indices.
use llm_d_sc_benchmark.Prelude.{
  ℕ, ◌-◌, none, some, List, [], ◌∷◌, map, pos, ok, err, ◌>>=◌, ◌>>◌, ltb, not, ◌==◌, if◌then◌else◌,
  length, get_elem?,
}
use llm_d_sc_benchmark.Prelude.Floats.{Floats, sorted}
use llm_d_sc_benchmark.Confirm.Fields.{
  Checked, demand, overflow_error, index_error, few_observations, mean_not_positive,
  no_observations, wrong_effect_count,
}
use llm_d_sc_benchmark.Confirm.Cells.{zero_f, one_f}
use llm_d_sc_benchmark.Confirm.Runtime.{Checks}

-- The paired effects of a block whose latency ratio exists.
pub record Effects (F : Type 0) : Type 0 where
  pub delta_success : F
  pub delta_drain : F
  pub latency_ratio : F
  pub marginal_useful_rps : F

pub record Interval (F : Type 0) : Type 0 where
  pub median_effect : F
  pub lower_95 : F
  pub upper_95 : F

pub record Bootstrap (F : Type 0) : Type 0 where
  pub intervals : Effects (Interval F)
  pub checks : Checks

unfoldable pub element : {A : Type 0} → List A → ℕ → Checked A
element values index = elim (get_elem? values index) [
  | none ↦ err index_error
  | some value ↦ ok value
]

module _ {F : Type 0} ⦃fl : Floats F⦄ where
  unfoldable pub sample_cv : List F → Checked F
  sample_cv values = do
    demand (not (ltb (length values) 2)) few_observations
    demand (not (fl.le (fl.fmean values) zero_f)) mean_not_positive
    ok (fl.div (fl.stdev values) (fl.fmean values))

  -- The value at a position between two indices.
  unfoldable pub interpolate : List F → F → Checked F
  interpolate ordered position = do
    low ← element ordered (fl.floor position)
    if fl.floor position == fl.ceil position then ok low else do
      high ← element ordered (fl.ceil position)
      elim (fl.of_int (pos (fl.floor position))) [
        | none ↦ err overflow_error
        | some lower ↦ ok (fl.add low (fl.mul (fl.sub high low) (fl.sub position lower)))
      ]

  unfoldable pub percentile : List F → F → Checked F
  percentile values probability = do
    demand (not (length values == 0)) no_observations
    elim (fl.of_int (pos (length values - 1))) [
      | none ↦ err overflow_error
      | some last ↦ interpolate (sorted values) (fl.mul last probability)
    ]

  unfoldable pub select : List F → List ℕ → Checked (List F)
  select values [] = ok []
  select values (index ∷ indices) = do
    value ← element values index
    chosen ← select values indices
    ok (value ∷ chosen)

  -- The medians of an effect over the draws.
  unfoldable pub medians : List F → List (List ℕ) → Checked (List F)
  medians values [] = ok []
  medians values (draw ∷ draws) = do
    selected ← select values draw
    median ← element (sorted selected) 2
    rest ← medians values draws
    ok (median ∷ rest)

  unfoldable pub interval : List (List ℕ) → List F → Checked (Interval F)
  interval draws values = do
    samples ← medians values draws
    median ← element (sorted values) 2
    lower ← percentile samples (fl.decimal 25 3)
    upper ← percentile samples (fl.decimal 975 3)
    ok (record { median_effect = median; lower_95 = lower; upper_95 = upper })

  unfoldable pub bootstrap_checks : Effects (Interval F) → Checks
  bootstrap_checks intervals =
      ("delta_success_upper_below_zero", fl.lt intervals.delta_success.upper_95 zero_f)
      ∷ ("delta_drain_lower_above_zero", fl.lt zero_f intervals.delta_drain.lower_95)
      ∷ (
        "latency_ratio_lower_above_1_25",
        fl.lt (fl.decimal 125 2) intervals.latency_ratio.lower_95,
      )
      ∷ ("marginal_useful_upper_below_one", fl.lt intervals.marginal_useful_rps.upper_95 one_f)
      ∷ []

  unfoldable pub with_checks : Effects (Interval F) → Bootstrap F
  with_checks intervals = record { intervals = intervals; checks = bootstrap_checks intervals }

  unfoldable pub bootstrap_median_effects : List (List ℕ) → List (Effects F) → Checked (Bootstrap F)
  bootstrap_median_effects draws effects = do
    demand (length effects == 5) wrong_effect_count
    success ← interval draws (map (λ e. e.delta_success) effects)
    drain ← interval draws (map (λ e. e.delta_drain) effects)
    latency ← interval draws (map (λ e. e.latency_ratio) effects)
    useful ← interval draws (map (λ e. e.marginal_useful_rps) effects)
    ok (
        with_checks (record {
          delta_success = success;
          delta_drain = drain;
          latency_ratio = latency;
          marginal_useful_rps = useful;
        }))
