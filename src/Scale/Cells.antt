-- ===== src/Scale/Cells.antt =====
-- hack/arena-sc-horizontal-scale-summarize.py: the cells that `decision` reads, and the operations on floats that
-- raise in it. `abs`, `max` and `min` are those of Python.
use llm_d_sc_benchmark.Prelude.{
  ℕ, String, Bool, true, false, ◌&&◌, ◌||◌, Option, none, some, List, [], ◌∷◌, Result, ok, err,
  ◌>>=◌, ◌==◌, ltb, if◌then◌else◌,
}
use llm_d_sc_benchmark.Prelude.Floats.{Floats}
use llm_d_sc_benchmark.Plan.Gates.{AnalysisRule}

-- The exceptions in `decision`, of which `summarize` handles only the first.
pub data DecisionError : Type 0 where
  five_values : DecisionError
  stop_iteration key_error type_error zero_division overflow_error index_error : DecisionError

-- What `aggregate_cell` gives for a cell; `offered` is `none` where the endpoints had different rates.
pub record CellSummary (F : Type 0) : Type 0 where
  pub cell_id : String
  pub is_knee : Bool
  pub block : Option ℕ
  pub offered : Option ℕ
  pub success_ratio : F
  pub drain_ratio : F
  pub errors_total : ℕ
  pub p99 : Option F
  pub per_pod_useful_rps : F
  pub aggregate_useful_rps : F

unfoldable pub is_some_eq : Option ℕ → ℕ → Bool
is_some_eq none n = false
is_some_eq (some m) n = m == n

-- `left and right`, where the right side can raise
unfoldable pub and_then : Bool → Result DecisionError Bool → Result DecisionError Bool
and_then true right = right
and_then false right = ok false

-- `next(x for x in values if test(x))`
unfoldable pub next : {A : Type 0} → (A → Bool) → List A → Result DecisionError A
next test [] = err stop_iteration
next test (x ∷ xs) = if test x then ok x else next test xs

module _ {F : Type 0} ⦃fl : Floats F⦄ where
  abbrev pub threshold : ℕ × ℕ → F
  threshold rule = fl.decimal rule.0 rule.1

  unfoldable pub divide : F → F → Result DecisionError F
  divide a b = if fl.eq b (fl.decimal 0 0) then err zero_division else ok (fl.div a b)

  -- A value that must not be `None`.
  unfoldable pub value_of : Option F → Result DecisionError F
  value_of none = err type_error
  value_of (some x) = ok x

  unfoldable pub abs : F → F
  abs x = if fl.lt x (fl.decimal 0 0) then fl.sub (fl.decimal 0 0) x else x

  unfoldable pub max : F → F → F
  max a b = if fl.lt a b then b else a

  unfoldable pub min : F → F → F
  min a b = if fl.lt b a then b else a

  unfoldable pub clean41 : AnalysisRule → CellSummary F → Bool
  clean41 rule cell =
      fl.le (threshold rule.rate_41_success_min) cell.success_ratio
      && fl.le cell.drain_ratio (threshold rule.rate_41_drain_max)
      && cell.errors_total == 0
      && elim cell.p99 [
        | none ↦ false
        | some p99 ↦ fl.le p99 (fl.mul (threshold rule.clean_p99_ms_max) (fl.decimal 1000 0))
      ]

  unfoldable pub stressed42 : AnalysisRule → CellSummary F → Bool
  stressed42 rule cell =
      fl.lt cell.success_ratio (threshold rule.rate_41_success_min)
      || fl.lt (threshold rule.rate_41_drain_max) cell.drain_ratio
      || ltb 0 cell.errors_total

  -- The quotient of two latencies.
  unfoldable pub p99_quotient : CellSummary F → CellSummary F → Result DecisionError F
  p99_quotient high low = do a ← value_of high.p99; b ← value_of low.p99; divide a b

  -- The greater of two latencies by the smaller one.
  unfoldable pub p99_spread : CellSummary F → CellSummary F → Result DecisionError F
  p99_spread post pre = do a ← value_of post.p99; b ← value_of pre.p99; divide (max a b) (min a b)

  -- `abs(after - before) / before`
  unfoldable pub relative_delta : F → F → Result DecisionError F
  relative_delta after before = divide (abs (fl.sub after before)) before
