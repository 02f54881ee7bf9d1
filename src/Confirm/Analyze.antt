-- ===== src/Confirm/Analyze.antt =====
-- hack/arena-sc-knee-confirm-analyze.py: `analyze`, the decision on the confirmation study.
use llm_d_sc_benchmark.Prelude.{
  ℕ, String, Bool, true, false, not, ◌&&◌, Option, none, some, List, [], ◌∷◌, ◌++◌, map, ok, err,
  ◌>>=◌, ◌==◌, if◌then◌else◌, all, keep, length,
}
use llm_d_sc_benchmark.Prelude.Json.{Json}
use llm_d_sc_benchmark.Prelude.Floats.{Floats}
use llm_d_sc_benchmark.Confirm.Fields.{Fault, validation, Checked}
use llm_d_sc_benchmark.Confirm.Cells.{ParsedCell}
use llm_d_sc_benchmark.Confirm.Runtime.{Checks, passed}
use llm_d_sc_benchmark.Confirm.Orders.{low_rate, high_rate, blocks, ByRate, cell_at}
use llm_d_sc_benchmark.Confirm.Extract.{extract}
use llm_d_sc_benchmark.Confirm.Statistics.{Bootstrap, sample_cv, bootstrap_median_effects}
use llm_d_sc_benchmark.Confirm.Blocks.{
  Block, make_blocks, is_clean, is_stressed, directions_agree, effect_vectors,
}

pub data Status : Type 0 where
  confirmed inconclusive : Status

-- The one claim that the study can make.
pub data Claim : Type 0 where
  knee_between_41_and_42 : Claim

pub data Reason : Type 0 where
  validation_failed : Fault → Reason
  external_failed : List String → Reason
  not_clean not_stressed directions_disagree : List ℕ → Reason
  bootstrap_failed cv_failed : List String → Reason
  all_conditions_passed : Reason

pub record Decision : Type 0 where
  pub status : Status
  pub claim : Option Claim
  pub reasons : List Reason
  pub full_study_rerun_required : Bool

pub record Variability (F : Type 0) : Type 0 where
  pub values : List (String × F)
  pub checks : Checks
  pub passed_limits : Bool

pub record Conditions : Type 0 where
  pub attributed : Bool
  pub clean : Bool
  pub stressed : Bool
  pub directions : Bool
  pub bootstrap : Bool
  pub sample_cv_limits : Bool

pub record Report (F : Type 0) : Type 0 where
  pub decision : Decision
  pub external : Checks
  pub paired : List (Block F)
  pub variability : Variability F
  pub resampled : Option (Bootstrap F)
  pub conditions : Conditions

pub data Outcome (F : Type 0) : Type 0 where
  rejected : Decision → Outcome F
  evaluated : Report F → Outcome F

-- The names of the failed checks.
unfoldable pub failed : Checks → List String
failed [] = []
failed (check ∷ checks) = if check.1 then failed checks else check.0 ∷ failed checks

unfoldable pub all_conditions : Conditions → Bool
all_conditions c =
    c.attributed && c.clean && c.stressed && c.directions && c.bootstrap && c.sample_cv_limits

-- `reasons.append` of a reason that names something
unfoldable pub name_reason : {A : Type 0} → (List A → Reason) → List A → List Reason
name_reason reason [] = []
name_reason reason (a ∷ as') = reason (a ∷ as') ∷ []

unfoldable pub decide : Conditions → List Reason → Decision
decide conditions reasons =
    if all_conditions conditions
    then record {
      status = confirmed;
      claim = some knee_between_41_and_42;
      reasons = all_conditions_passed ∷ [];
      full_study_rerun_required = not conditions.attributed;
    }
    else record {
      status = inconclusive;
      claim = none;
      reasons = reasons;
      full_study_rerun_required = not conditions.attributed;
    }

module _ {F : Type 0} ⦃fl : Floats F⦄ where
  -- `by_rate[wanted][block][...]` for the blocks in order
  unfoldable pub column :
      {A : Type 0} → (ParsedCell F → A) → ByRate F → ℕ → List ℕ → Checked (List A)
  column field points wanted [] = ok []
  column field points wanted (block ∷ rest) = do
    cell ← cell_at points wanted block
    values ← column field points wanted rest
    ok (field cell ∷ values)

  -- The values, if none of them is missing.
  unfoldable pub present : List (Option F) → Option (List F)
  present [] = some []
  present (none ∷ values) = none
  present (some x ∷ values) = elim (present values) [ none ↦ none | some xs ↦ some (x ∷ xs) ]

  unfoldable pub cv_values : List F → List F → List F → List F → Checked (List (String × F))
  cv_values useful_41 useful_42 p99_41 p99_42 = do
    a ← sample_cv useful_41
    b ← sample_cv useful_42
    c ← sample_cv p99_41
    d ← sample_cv p99_42
    ok (("useful_rps_41", a) ∷ ("useful_rps_42", b) ∷ ("p99_41", c) ∷ ("p99_42", d) ∷ [])

  unfoldable pub check_limits : List (String × F) → List (String × F) → Checks
  check_limits [] values = []
  check_limits (limit ∷ limits) [] = []
  check_limits ((name, limit) ∷ limits) (value ∷ values) =
      (name, fl.le value.1 limit) ∷ check_limits limits values

  abbrev pub cv_limits : List (String × F)
  cv_limits =
      ("useful_rps_41_at_most_0_02", fl.decimal 2 2)
      ∷ ("useful_rps_42_at_most_0_02", fl.decimal 2 2)
      ∷ ("p99_41_at_most_0_10", fl.decimal 10 2)
      ∷ ("p99_42_at_most_0_20", fl.decimal 20 2)
      ∷ []

  -- The `except` and the `else` after the four coefficients.
  unfoldable pub on_cv : Checked (List (String × F)) → Checked (Variability F)
  on_cv (ok values) = ok (record {
    values = values;
    checks = check_limits cv_limits values;
    passed_limits = passed (check_limits cv_limits values);
  })
  on_cv (err (validation fault)) = ok (record {
    values = [];
    checks = ("positive_means_and_complete_latency_populations", false) ∷ [];
    passed_limits = false;
  })
  on_cv (err e) = err e

  abbrev pub no_latencies : Variability F
  no_latencies = record {
    values = [];
    checks = ("successful_latency_population_present_in_all_cells", false) ∷ [];
    passed_limits = false;
  }

  unfoldable pub make_variability : ByRate F → Checked (Variability F)
  make_variability points = do
    useful_41 ← column (λ c. c.load.useful_rps) points low_rate blocks
    useful_42 ← column (λ c. c.load.useful_rps) points high_rate blocks
    p99_41 ← column (λ c. c.latency.p99_us) points low_rate blocks
    p99_42 ← column (λ c. c.latency.p99_us) points high_rate blocks
    elim (present p99_41) [
      | none ↦ ok no_latencies
      | some low ↦ elim (present p99_42) [
        | none ↦ ok no_latencies
        | some high ↦ on_cv (cv_values useful_41 useful_42 low high)
      ]
    ]

  -- The bootstrap, where every block has its latency ratio.
  unfoldable pub make_bootstrap : List (List ℕ) → List (Block F) → Checked (Option (Bootstrap F))
  make_bootstrap draws made =
      if length (effect_vectors made) == length made && length (effect_vectors made) == 5
      then (bootstrap_median_effects draws (effect_vectors made) >>= λ result. ok (some result))
      else ok none

  unfoldable pub bootstrap_passed : Option (Bootstrap F) → Bool
  bootstrap_passed none = false
  bootstrap_passed (some result) = passed result.checks

  unfoldable pub make_conditions :
      Checks → List (Block F) → Variability F → Option (Bootstrap F) → Conditions
  make_conditions external made variability resampled = record {
    attributed = passed external;
    clean = all is_clean made;
    stressed = all is_stressed made;
    directions = all directions_agree made;
    bootstrap = bootstrap_passed resampled;
    sample_cv_limits = variability.passed_limits;
  }

  unfoldable pub bootstrap_reason : Option (Bootstrap F) → List Reason
  bootstrap_reason none = bootstrap_failed [] ∷ []
  bootstrap_reason (some result) =
      if passed result.checks then [] else bootstrap_failed (failed result.checks) ∷ []

  unfoldable pub reasons_of :
      Checks → List (Block F) → Variability F → Option (Bootstrap F) → List Reason
  reasons_of external made variability resampled =
      name_reason external_failed (failed external)
      ++ name_reason not_clean (map (λ b. b.block) (keep (λ b. not (is_clean b)) made))
      ++ name_reason not_stressed (map (λ b. b.block) (keep (λ b. not (is_stressed b)) made))
      ++ name_reason directions_disagree
          (map (λ b. b.block) (keep (λ b. not (directions_agree b)) made))
      ++ bootstrap_reason resampled
      ++ (if variability.passed_limits then [] else cv_failed (failed variability.checks) ∷ [])

  unfoldable pub evaluate : List (List ℕ) → ByRate F → Checks → Checked (Report F)
  evaluate draws points external = do
    made ← make_blocks points blocks
    variability ← make_variability points
    resampled ← make_bootstrap draws made
    ok (record {
      decision =
          decide (make_conditions external made variability resampled)
            (reasons_of external made variability resampled);
      external = external;
      paired = made;
      variability = variability;
      resampled = resampled;
      conditions = make_conditions external made variability resampled;
    })

  -- What `analyze` returns where the summary is not valid.
  unfoldable pub reject : Fault → Outcome F
  reject fault = rejected (record {
    status = inconclusive;
    claim = none;
    reasons = validation_failed fault ∷ [];
    full_study_rerun_required = true;
  })

  -- `try` and `except ValidationError` around the extraction.
  unfoldable pub on_extracted : List (List ℕ) → Checked (ByRate F × Checks) → Checked (Outcome F)
  on_extracted draws (ok (points, external)) = do
    report ← evaluate draws points external
    ok (evaluated report)
  on_extracted draws (err (validation fault)) = ok (reject fault)
  on_extracted draws (err e) = err e

  unfoldable pub analyze : (String → Option F) → List (List ℕ) → Json F → Checked (Outcome F)
  analyze parse_float draws raw = on_extracted draws (extract parse_float raw)
