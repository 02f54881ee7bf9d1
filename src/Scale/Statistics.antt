-- ===== src/Scale/Statistics.antt =====
-- hack/arena-sc-horizontal-scale-summarize.py: `percentile` and `sample_cv`.
use llm_d_sc_benchmark.Prelude.{
  ◌-◌, Option, none, some, List, [], ◌∷◌, pos, Result, ok, err, ltb, if◌then◌else◌, length,
  get_elem?,
}
use llm_d_sc_benchmark.Prelude.Floats.{Floats, sorted}

pub data StatisticsError : Type 0 where
  overflow_error index_error : StatisticsError

module _ {F : Type 0} ⦃fl : Floats F⦄ where
  -- The value at `max(0, ceil(fraction * len(samples)) - 1)`; subtraction on ℕ stops at 0.
  unfoldable pub percentile : List F → F → Result StatisticsError (Option F)
  percentile [] fraction = ok none
  percentile (x ∷ xs) fraction = elim (fl.of_int (pos (length (x ∷ xs)))) [
    | none ↦ err overflow_error
    | some count ↦ elim (get_elem? (sorted (x ∷ xs)) (fl.ceil (fl.mul fraction count) - 1)) [
      | none ↦ err index_error
      | some value ↦ ok (some value)
    ]
  ]

  unfoldable pub sample_cv : List F → Option F
  sample_cv values =
      if ltb (length values) 2
      then none
      else (if fl.eq (fl.fmean values) (fl.decimal 0 0)
          then none
          else some (fl.div (fl.stdev values) (fl.fmean values)))
