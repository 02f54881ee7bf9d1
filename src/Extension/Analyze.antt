-- ===== src/Extension/Analyze.antt =====
-- hack/arena-sc-knee-confirm-extension-analyze.py: `_cross_stage_checks` and `analyze`. The digest of the rendered
-- decision of stage A is an argument.
use text.Mathlib.Text.{◌==◌ as str_eq}
use llm_d_sc_benchmark.Prelude.{
  ℕ, suc, String, Bool, true, false, not, ◌&&◌, ◌||◌, Option, none, some, List, [], ◌∷◌, ◌++◌, map,
  ltb_ℤ, ok, err, ◌>>=◌, ◌==◌, if◌then◌else◌,
}
use llm_d_sc_benchmark.Prelude.Json.{Json, null, Fields, get}
use llm_d_sc_benchmark.Prelude.Equal.{json_eq}
use llm_d_sc_benchmark.Prelude.Floats.{Floats}
use llm_d_sc_benchmark.Confirm.Fields.{Fault, validation, Checked, required, mapping}
use llm_d_sc_benchmark.Confirm.Runtime.{Checks, passed}
use llm_d_sc_benchmark.Confirm.Orders.{blocks, ByRate}
use llm_d_sc_benchmark.Confirm.Extract.{extract}
use llm_d_sc_benchmark.Confirm.Blocks.{Block}
use llm_d_sc_benchmark.Confirm.Analyze.{
  Status, confirmed, inconclusive, Reason, Outcome, failed, analyze as analyze_five,
}
use llm_d_sc_benchmark.Confirm.Confirmed.{decision_of}
use llm_d_sc_benchmark.Extension.StageB.{extract_stage_b}
use llm_d_sc_benchmark.Extension.Pool.{Evaluation, make_stage_blocks, evaluate_blocks}

abbrev pub expected_stage_a_decision_sha256 : String
expected_stage_a_decision_sha256 =
    "772a2d1038de5a89c74bfa49d18518a798b2ecd9e2f1525a244496423b4fd413"

pub data ExtensionReason : Type 0 where
  stage_a_invalid stage_b_invalid : Fault → ExtensionReason
  pooling_prohibited : List String → ExtensionReason
  of_pool : Reason → ExtensionReason

pub record Extension (F : Type 0) : Type 0 where
  pub status : Status
  pub claimed : Bool
  pub reasons : List ExtensionReason
  pub full_stage_b_rerun_required : Bool
  pub stage_a_original : Outcome F
  pub artifact_matches : Bool
  pub cross_checks : Checks
  pub stage_b_standalone : Option (Evaluation F)
  -- the checks of the pooling and the pooled evaluation, where it comes to them
  pub pooling_checks : Checks
  pub combined : Option (Evaluation F)

unfoldable pub is_inconclusive : Status → Bool
is_inconclusive confirmed = false
is_inconclusive inconclusive = true

module _ {F : Type 0} ⦃fl : Floats F⦄ where
  unfoldable pub or_null : Option (Json F) → Json F
  or_null none = null
  or_null (some value) = value

  -- `left.get(key) == right.get(key)`
  unfoldable pub same_entry : Fields F → Fields F → String → Bool
  same_entry left right key = json_eq (or_null (get left key)) (or_null (get right key))

  unfoldable pub cross_stage_checks : Fields F → Fields F → Checked Checks
  cross_stage_checks stage_a stage_b = do
    a_source ← mapping "source_attestation" (← required stage_a "source_attestation")
    b_source ← mapping "source_attestation" (← required stage_b "source_attestation")
    ok (
        ("runtime_signatures_identical", same_entry stage_a stage_b "runtime_signature")
        ∷ (
          "source_identities_identical",
          same_entry a_source b_source "driver_build_source_sha256"
              && same_entry a_source b_source "local_probe_source_sha256",
        )
        ∷ (
          "scheduler_thresholds_identical",
          same_entry stage_a stage_b "scheduler_attribution_thresholds",
        )
        ∷ (
          "topology_preflight_configuration_identical",
          same_entry stage_a stage_b "topology_preflight",
        )
        ∷ ("telemetry_requirement_identical", same_entry stage_a stage_b "telemetry_required")
        ∷ [])

  -- The blocks in which the lower rate came first.
  unfoldable pub forward_blocks : List (Block F) → ℕ
  forward_blocks [] = 0
  forward_blocks (b ∷ bs) =
      let rest = forward_blocks bs in
      if ltb_ℤ b.low_observation.order b.high_observation.order then suc rest else rest

  unfoldable pub pooling_checks_of :
      Bool → Outcome F → Checks → Checks → Checks → List (Block F) → Checks
  pooling_checks_of matches original external_a external_b cross made =
      ("stage_a_original_decision_artifact_matches", matches)
      ∷ (
        "stage_a_original_status_remains_inconclusive",
        is_inconclusive (decision_of original).status,
      )
      ∷ ("stage_a_external_gates", passed external_a)
      ∷ ("stage_b_external_gates", passed external_b)
      ∷ ("cross_stage_settings_identical", passed cross)
      ∷ ("combined_order_balanced_five_each_direction", forward_blocks made == 5)
      ∷ []

  -- `_inconclusive_without_pooling`
  unfoldable pub without_pooling :
      Outcome F
      → Bool
      → Checks
      → Option (Evaluation F)
      → Checks
      → ExtensionReason
      → Bool
      → Extension F
  without_pooling original matches cross standalone pooling reason rerun = record {
    status = inconclusive;
    claimed = false;
    reasons = reason ∷ [];
    full_stage_b_rerun_required = rerun;
    stage_a_original = original;
    artifact_matches = matches;
    cross_checks = cross;
    stage_b_standalone = standalone;
    pooling_checks = pooling;
    combined = none;
  }

  unfoldable pub with_pooling :
      Outcome F → Bool → Checks → Option (Evaluation F) → Checks → Evaluation F → Extension F
  with_pooling original matches cross standalone pooling combined = record {
    status = combined.status;
    claimed = combined.claimed;
    reasons = map of_pool combined.reasons;
    full_stage_b_rerun_required = false;
    stage_a_original = original;
    artifact_matches = matches;
    cross_checks = cross;
    stage_b_standalone = standalone;
    pooling_checks = pooling;
    combined = some combined;
  }

  -- The evaluation of stage B alone, where it is asked for.
  unfoldable pub standalone_of :
      (ℕ → List (List ℕ)) → Bool → List (Block F) → Checks → Checked (Option (Evaluation F))
  standalone_of draws true made external =
      evaluate_blocks draws made (passed external) >>= λ e. ok (some e)
  standalone_of draws false made external = ok none

  -- The pooled evaluation, where all checks of the pooling pass.
  unfoldable pub pool_checked :
      (ℕ → List (List ℕ))
      → Outcome F
      → Bool
      → (external_b cross : Checks) → Option (Evaluation F)
      → List (Block F)
      → Checks
      → Checked (Extension F)
  pool_checked draws original matches external_b cross standalone made checks =
      if passed checks
      then (evaluate_blocks draws made true >>= λ combined.
          ok (with_pooling original matches cross standalone checks combined))
      else ok (
          without_pooling original matches cross standalone checks
            (pooling_prohibited (failed checks))
            (not (passed external_b) || not (passed cross) || not (forward_blocks made == 5)))

  -- `analyze` after both stages have been read.
  unfoldable pub pool :
      (ℕ → List (List ℕ))
      → Bool
      → Outcome F
      → Bool
      → ByRate F × Checks
      → ByRate F × Checks
      → Checks
      → Checked (Extension F)
  pool draws include_standalone original matches first second cross = do
    blocks_a ← make_stage_blocks first.0 0 blocks
    blocks_b ← make_stage_blocks second.0 5 blocks
    standalone ← standalone_of draws include_standalone blocks_b second.1
    pool_checked draws original matches second.1 cross standalone (blocks_a ++ blocks_b)
        (pooling_checks_of matches original first.1 second.1 cross (blocks_a ++ blocks_b))

  -- The second `try`, of stage B against the summary of stage A.
  unfoldable pub read_second :
      (String → Option F) → Fields F → Json F → Checked ((ByRate F × Checks) × Checks)
  read_second parse_float stage_a raw = do
    stage_b ← mapping "stage_b" raw
    extracted ← extract_stage_b parse_float stage_b
    cross ← cross_stage_checks stage_a stage_b
    ok (extracted, cross)

  unfoldable pub on_second :
      (ℕ → List (List ℕ))
      → Bool
      → Outcome F
      → Bool
      → ByRate F × Checks
      → Checked ((ByRate F × Checks) × Checks)
      → Checked (Extension F)
  on_second draws include_standalone original matches first (ok (second, cross)) =
      pool draws include_standalone original matches first second cross
  on_second draws include_standalone original matches first (err (validation fault)) =
      ok (without_pooling original matches [] none [] (stage_b_invalid fault) true)
  on_second draws include_standalone original matches first (err e) = err e

  -- The first `try`, of stage A.
  unfoldable pub read_first :
      (String → Option F) → Json F → Checked (Fields F × (ByRate F × Checks))
  read_first parse_float raw = do
    stage_a ← mapping "stage_a" raw
    extracted ← extract parse_float raw
    ok (stage_a, extracted)

  unfoldable pub on_first :
      (String → Option F)
      → (ℕ → List (List ℕ))
      → Bool
      → Outcome F
      → Bool
      → Json F
      → Checked (Fields F × (ByRate F × Checks))
      → Checked (Extension F)
  on_first parse_float draws include_standalone original matches raw_b (ok (stage_a, first)) =
      on_second draws include_standalone original matches first
        (read_second parse_float stage_a raw_b)
  on_first parse_float draws include_standalone original matches raw_b (err (validation fault)) =
      ok (without_pooling original matches [] none [] (stage_a_invalid fault) false)
  on_first parse_float draws include_standalone original matches raw_b (err e) = err e

  -- `analyze`: `five` are the draws of the first analyzer, and `draws` those for five and for ten blocks.
  unfoldable pub analyze :
      (String → Option F)
      → (Outcome F → String)
      → (five : List (List ℕ)) → (ℕ → List (List ℕ))
      → (raw_a raw_b : Json F) (include_standalone : Bool) → Checked (Extension F)
  analyze parse_float sha256 five draws raw_a raw_b include_standalone = do
    original ← analyze_five parse_float five raw_a
    on_first parse_float draws include_standalone original
        (str_eq (sha256 original) expected_stage_a_decision_sha256) raw_b
        (read_first parse_float raw_a)
