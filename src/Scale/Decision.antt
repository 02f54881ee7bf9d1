-- ===== src/Scale/Decision.antt =====
-- hack/arena-sc-horizontal-scale-summarize.py: `bootstrap_ci` and `decision`. `statistics.median` and the draws of the
-- random generator are arguments.
use llm_d_sc_benchmark.Prelude.{
  ℕ, String, Bool, not, ◌&&◌, Option, none, some, List, [], ◌∷◌, map, pos, Result, ok, err, ◌>>=◌,
  ◌>>◌, require, ◌==◌, if◌then◌else◌, all, any, keep, length, get_elem?,
}
use text.Mathlib.Text.{◌==◌ as str_eq}
use llm_d_sc_benchmark.Prelude.Floats.{Floats}
use llm_d_sc_benchmark.Plan.Gates.{AnalysisRule}
use llm_d_sc_benchmark.Scale.Statistics.{StatisticsError, percentile, sample_cv}
use llm_d_sc_benchmark.Scale.Cells.{
  DecisionError, five_values, key_error, overflow_error, index_error, CellSummary, is_some_eq,
  and_then, next, threshold, divide, value_of, clean41, stressed42, p99_quotient, p99_spread,
  relative_delta,
}

pub record BlockRow (F : Type 0) : Type 0 where
  pub block : ℕ
  pub rate_41_cell : String
  pub rate_42_cell : String
  pub delta_success : F
  pub delta_drain : F
  pub p99_ratio : F
  pub marginal_useful : F
  pub rate_41_clean : Bool
  pub rate_42_stressed : Bool

-- The rows of the blocks and the gates on them, with the reference rate of the single Pod.
pub record Gates (F : Type 0) : Type 0 where
  pub rows : List (BlockRow F)
  pub bootstrap : Bool
  pub variability : Bool
  pub scale : Bool
  pub r1 : Bool
  pub r1_reference_41 : F

pub data Status : Type 0 where
  confirmed_at_rung at_or_below_41 above_42 inconclusive : Status

pub record Decision (F : Type 0) : Type 0 where
  pub status : Status
  pub knee_confirmed : Bool
  pub gates : Gates F
  pub horizontal_efficiency_at_41 : F

unfoldable pub status_of : Bool → Bool → Bool → Status
status_of confirmed all_clean any_stressed =
    if confirmed
    then confirmed_at_rung
    else if not all_clean
    then at_or_below_41
    else if not any_stressed
    then above_42
    else inconclusive

unfoldable pub from_statistics : {A : Type 0} → Result StatisticsError A → Result DecisionError A
from_statistics (ok a) = ok a
from_statistics (err StatisticsError.overflow_error) = err overflow_error
from_statistics (err StatisticsError.index_error) = err index_error

module _ {F : Type 0} where
  unfoldable pub is_pair : ℕ → ℕ → CellSummary F → Bool
  is_pair block offered cell =
      cell.is_knee && is_some_eq cell.block block && is_some_eq cell.offered offered

  -- `by_id[...]`: a later cell takes the place of an earlier one
  unfoldable pub by_id : List (CellSummary F) → String → Result DecisionError (CellSummary F)
  by_id [] id = err key_error
  by_id (cell ∷ cells) id = elim (by_id cells id) [
    | ok later ↦ ok later
    | err e ↦ if str_eq cell.cell_id id then ok cell else err e
  ]

  unfoldable pub cells_at : ℕ → List (CellSummary F) → List (CellSummary F)
  cells_at offered cells = keep (λ c. c.is_knee && is_some_eq c.offered offered) cells

  unfoldable pub select : List F → List ℕ → Result DecisionError (List F)
  select values [] = ok []
  select values (index ∷ indices) = elim (get_elem? values index) [
    | none ↦ err index_error
    | some x ↦ select values indices >>= λ xs. ok (x ∷ xs)
  ]

module _ {F : Type 0} ⦃fl : Floats F⦄ (median : List F → F) where
  unfoldable pub medians : List F → List (List ℕ) → Result DecisionError (List F)
  medians values [] = ok []
  medians values (draw ∷ draws) = do
    drawn ← select values draw
    rest ← medians values draws
    ok (median drawn ∷ rest)

  unfoldable pub bootstrap_ci : List (List ℕ) → List F → Result DecisionError (F × F)
  bootstrap_ci draws values = do
    require (length values == 5) five_values
    sampled ← medians values draws
    lower ← value_of (← from_statistics (percentile sampled (fl.decimal 25 3)))
    upper ← value_of (← from_statistics (percentile sampled (fl.decimal 975 3)))
    ok (lower, upper)

  unfoldable pub block_row :
      AnalysisRule → List (CellSummary F) → ℕ → Result DecisionError (BlockRow F)
  block_row rule cells block = do
    rate41 ← next (is_pair block 41) cells
    rate42 ← next (is_pair block 42) cells
    ratio ← p99_quotient rate42 rate41
    ok (record {
      block = block;
      rate_41_cell = rate41.cell_id;
      rate_42_cell = rate42.cell_id;
      delta_success = fl.sub rate42.success_ratio rate41.success_ratio;
      delta_drain = fl.sub rate42.drain_ratio rate41.drain_ratio;
      p99_ratio = ratio;
      marginal_useful = fl.sub rate42.per_pod_useful_rps rate41.per_pod_useful_rps;
      rate_41_clean = clean41 rule rate41;
      rate_42_stressed =
          stressed42 rule rate42 && fl.lt (threshold rule.paired_p99_ratio_min_exclusive) ratio;
    })

  unfoldable pub block_rows :
      AnalysisRule → List (CellSummary F) → List ℕ → Result DecisionError (List (BlockRow F))
  block_rows rule cells [] = ok []
  block_rows rule cells (block ∷ blocks) = do
    row ← block_row rule cells block
    rows ← block_rows rule cells blocks
    ok (row ∷ rows)

  unfoldable pub bootstrap_gate_of : List (List ℕ) → List (BlockRow F) → Result DecisionError Bool
  bootstrap_gate_of draws rows = do
    success ← bootstrap_ci draws (map (λ r. r.delta_success) rows)
    drain ← bootstrap_ci draws (map (λ r. r.delta_drain) rows)
    latency ← bootstrap_ci draws (map (λ r. r.p99_ratio) rows)
    useful ← bootstrap_ci draws (map (λ r. r.marginal_useful) rows)
    ok (
        fl.lt success.1 (fl.decimal 0 0)
        && fl.lt (fl.decimal 0 0) drain.0
        && fl.lt (fl.decimal 125 2) latency.0
        && fl.lt useful.1 (fl.decimal 1 0))

  -- `coefficient <= limit`
  unfoldable pub is_limited : Option F → F → Result DecisionError Bool
  is_limited value limit = do x ← value_of value; ok (fl.le x limit)

  -- The latencies of the cells, none of which may be missing for `float`.
  unfoldable pub latencies : List (CellSummary F) → Result DecisionError (List F)
  latencies [] = ok []
  latencies (cell ∷ cells) = do p99 ← value_of cell.p99; rest ← latencies cells; ok (p99 ∷ rest)

  unfoldable pub variability_gate_of : List (CellSummary F) → Result DecisionError Bool
  variability_gate_of cells = do
    let useful_41 = sample_cv (map (λ c. c.per_pod_useful_rps) (cells_at 41 cells))
    let useful_42 = sample_cv (map (λ c. c.per_pod_useful_rps) (cells_at 42 cells))
    p99_41 ← latencies (cells_at 41 cells)
    p99_42 ← latencies (cells_at 42 cells)
    first ← is_limited useful_41 (fl.decimal 2 2)
    and_then first (
        is_limited useful_42 (fl.decimal 2 2) >>= λ second. and_then second (
          is_limited (sample_cv p99_41) (fl.decimal 10 2) >>= λ third.
          and_then third (is_limited (sample_cv p99_42) (fl.decimal 20 2))))

  unfoldable pub is_directed : BlockRow F → Bool
  is_directed row =
      fl.lt row.delta_success (fl.decimal 0 0)
      && fl.lt (fl.decimal 0 0) row.delta_drain
      && fl.lt (fl.decimal 1 0) row.p99_ratio
      && fl.lt row.marginal_useful (fl.decimal 1 0)

  -- The sentinels at 35 RPS before and after the blocks.
  unfoldable pub scale_sentinels_of :
      AnalysisRule → List (CellSummary F) → Result DecisionError Bool
  scale_sentinels_of rule cells = do
    pre ← by_id cells "scale-pre-35"
    post ← by_id cells "scale-post-35"
    delta ← relative_delta post.aggregate_useful_rps pre.aggregate_useful_rps
    spread ← p99_spread post pre
    ok (
        pre.errors_total == post.errors_total
        && post.errors_total == 0
        && fl.le pre.drain_ratio (fl.decimal 1 2)
        && fl.le post.drain_ratio (fl.decimal 1 2)
        && fl.le delta (threshold rule.pre_post_35_useful_relative_delta_max)
        && fl.le spread (threshold rule.pre_post_35_p99_ratio_max))

  -- `r1_gate`
  unfoldable pub r1_gate_of :
      AnalysisRule
      → (pre_41 pre_42 post_41 post_42 : CellSummary F) (drift spread : F)
      → Result DecisionError Bool
  r1_gate_of rule pre_41 pre_42 post_41 post_42 drift spread =
      and_then
        (clean41 rule pre_41
          && clean41 rule post_41
          && stressed42 rule pre_42
          && stressed42 rule post_42)
        (p99_quotient pre_42 pre_41 >>= λ first. and_then (fl.lt (fl.decimal 125 2) first) (
          p99_quotient post_42 post_41 >>= λ second. ok (
            fl.lt (fl.decimal 125 2) second
            && fl.le drift (fl.decimal 2 2)
            && fl.le spread (fl.decimal 120 2))))

  -- The sentinels on one Pod, with the median of their useful rates at 41 RPS.
  unfoldable pub r1_sentinels_of :
      AnalysisRule → List (CellSummary F) → Result DecisionError (Bool × F)
  r1_sentinels_of rule cells = do
    pre_41 ← by_id cells "r1-pre-41"
    pre_42 ← by_id cells "r1-pre-42"
    post_41 ← by_id cells "r1-post-41"
    post_42 ← by_id cells "r1-post-42"
    drift ← relative_delta post_41.per_pod_useful_rps pre_41.per_pod_useful_rps
    spread ← p99_spread post_41 pre_41
    gate ← r1_gate_of rule pre_41 pre_42 post_41 post_42 drift spread
    ok (gate, median (pre_41.per_pod_useful_rps ∷ post_41.per_pod_useful_rps ∷ []))

  unfoldable pub gates_of :
      List (List ℕ) → AnalysisRule → List (CellSummary F) → Result DecisionError (Gates F)
  gates_of draws rule cells = do
    rows ← block_rows rule cells (1 ∷ 2 ∷ 3 ∷ 4 ∷ 5 ∷ [])
    bootstrap ← bootstrap_gate_of draws rows
    variability ← variability_gate_of cells
    scale ← scale_sentinels_of rule cells
    r1 ← r1_sentinels_of rule cells
    ok (record {
      rows = rows;
      bootstrap = bootstrap;
      variability = variability;
      scale = scale;
      r1 = r1.0;
      r1_reference_41 = r1.1;
    })

  -- `knee_confirmed`
  unfoldable pub is_confirmed : Gates F → Bool
  is_confirmed g =
      all (λ r. r.rate_41_clean && r.rate_42_stressed) g.rows
      && all is_directed g.rows
      && g.bootstrap
      && g.variability
      && g.scale
      && g.r1

  -- The median useful rate of the pure cells at 41, by the one of as many single Pods.
  unfoldable pub horizontal_efficiency : ℕ → List (CellSummary F) → F → Result DecisionError F
  horizontal_efficiency replicas cells reference = do
    count ← elim (fl.of_int (pos replicas)) [ none ↦ err overflow_error | some x ↦ ok x ]
    divide (median (map (λ c. c.aggregate_useful_rps) (cells_at 41 cells))) (fl.mul count reference)

  unfoldable pub decision :
      List (List ℕ) → AnalysisRule → ℕ → List (CellSummary F) → Result DecisionError (Decision F)
  decision draws rule replicas cells = do
    gates ← gates_of draws rule cells
    efficiency ← horizontal_efficiency replicas cells gates.r1_reference_41
    ok (record {
      status =
          status_of (is_confirmed gates) (all (λ r. r.rate_41_clean) gates.rows)
            (any (λ r. r.rate_42_stressed) gates.rows);
      knee_confirmed = is_confirmed gates;
      gates = gates;
      horizontal_efficiency_at_41 = efficiency;
    })
