-- ===== src/Extension/Confirmed.antt =====
-- What a confirmation by the extension rests on.
use text.Mathlib.Text.{◌==◌ as str_eq}
use llm_d_sc_benchmark.Prelude.{ℕ, ◌≡◌, String, Option, List, true, ok, ◌>>=◌}
use llm_d_sc_benchmark.Prelude.Json.{Json, Fields}
use llm_d_sc_benchmark.Prelude.Floats.{Floats}
use llm_d_sc_benchmark.Confirm.Fields.{required, mapping}
use llm_d_sc_benchmark.Confirm.Runtime.{Checks}
use llm_d_sc_benchmark.Confirm.Orders.{ByRate}
use llm_d_sc_benchmark.Confirm.Extract.{extract}
use llm_d_sc_benchmark.Confirm.Analyze.{Outcome, analyze as analyze_five}
use llm_d_sc_benchmark.Extension.StageB.{extract_stage_b}
use llm_d_sc_benchmark.Extension.Pooled.{IsPooled}
use llm_d_sc_benchmark.Extension.Analyze.{
  Extension, expected_stage_a_decision_sha256, same_entry, cross_stage_checks, analyze,
}

module _ {F : Type 0} ⦃fl : Floats F⦄ where
  -- The same signature of the runtime, driver, probe, thresholds, preflight and demand for telemetry.
  pub record AreAlike (left right : Fields F) : Type 0 where
    pub left_source : Fields F
    pub left_lem :
        (required left "source_attestation" >>= mapping "source_attestation") ≡ ok left_source
    pub right_source : Fields F
    pub right_lem :
        (required right "source_attestation" >>= mapping "source_attestation") ≡ ok right_source
    pub runtime : same_entry left right "runtime_signature" ≡ true
    pub driver : same_entry left_source right_source "driver_build_source_sha256" ≡ true
    pub probe : same_entry left_source right_source "local_probe_source_sha256" ≡ true
    pub thresholds : same_entry left right "scheduler_attribution_thresholds" ≡ true
    pub preflight : same_entry left right "topology_preflight" ≡ true
    pub telemetry : same_entry left right "telemetry_required" ≡ true

  -- The run of stage A, what was read of both summaries, and the pooling on it.
  pub record IsExtended (parse_float : String → Option F) (sha256 : Outcome F → String)
      (five : List (List ℕ)) (raw_a raw_b : Json F) (e : Extension F) : Type 0 where
    pub original : Outcome F
    pub original_lem : analyze_five parse_float five raw_a ≡ ok original
    pub stage_a : Fields F
    pub stage_a_lem : mapping "stage_a" raw_a ≡ ok stage_a
    pub stage_b : Fields F
    pub stage_b_lem : mapping "stage_b" raw_b ≡ ok stage_b
    pub first : ByRate F × Checks
    pub first_lem : extract parse_float raw_a ≡ ok first
    pub second : ByRate F × Checks
    pub second_lem : extract_stage_b parse_float stage_b ≡ ok second
    pub alike : AreAlike stage_a stage_b
    pub cross : Checks
    pub cross_lem : cross_stage_checks stage_a stage_b ≡ ok cross
    pub pooled :
        IsPooled original
          (str_eq (sha256 original) expected_stage_a_decision_sha256)
          first
          second
          cross
          e
