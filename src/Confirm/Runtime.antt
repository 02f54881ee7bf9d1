-- ===== src/Confirm/Runtime.antt =====
-- hack/arena-sc-knee-confirm-analyze.py: `_runtime_checks`, the frozen shape of the run.
use text.Mathlib.Text.{◌==◌ as str_eq}
use llm_d_sc_benchmark.Prelude.{◌==ℤ◌, ℕ, String, Bool, true, ◌&&◌, List, [], ◌∷◌, pos, ok, ◌>>=◌}
use llm_d_sc_benchmark.Prelude.Json.{Fields}
use llm_d_sc_benchmark.Confirm.Fields.{Checked, required, mapping, integer_from, string}

-- A dictionary of named tests, in its order.
abbrev pub Checks : Type 0
Checks = List (String × Bool)

unfoldable pub passed : Checks → Bool
passed [] = true
passed (check ∷ checks) = check.1 && passed checks

unfoldable pub run_checks : List (String × Checked Bool) → Checked Checks
run_checks [] = ok []
run_checks ((name, check) ∷ checks) = do
  result ← check
  results ← run_checks checks
  ok ((name, result) ∷ results)

module _ {F : Type 0} where
  text_is : Fields F → String → String → Checked Bool
  text_is document key expected = do
    value ← string key (← required document key)
    ok (str_eq value expected)

  number_is : Fields F → String → ℕ → Checked Bool
  number_is document key expected = do
    value ← integer_from (pos 0) key (← required document key)
    ok (value ==ℤ pos expected)

  -- The checks of `_runtime_checks`, and the identities that must only be present.
  unfoldable pub runtime_checks : Fields F → Checked Checks
  unfolding text_is number_is
  runtime_checks summary = do
    runtime ← mapping "runtime_signature" (← required summary "runtime_signature")
    threads ← mapping "runtime_threads" (← required runtime "runtime_threads")
    resources ← mapping "resources" (← required runtime "resources")
    requests ← mapping "requests" (← required resources "requests")
    limits ← mapping "limits" (← required resources "limits")
    driver_image ← string "driver_image" (← required runtime "driver_image")
    model ← string "model_sha256" (← required runtime "model_sha256")
    tokenizer ← string "tokenizer_sha256" (← required runtime "tokenizer_sha256")
    run_checks (
        ("run_id", text_is summary "run_id" "ol-rt1-knee-confirm-20260829-a")
        ∷ ("protocol", text_is summary "protocol" "deterministic_offered_rate_v1")
        ∷ (
          "target_image",
          text_is runtime "target_image"
              "sha256:04323612ce3f73873b4c3ed6e09264e828241537e2c1a4231b43f32e9744d5aa",
        )
        ∷ ("namespace", text_is runtime "namespace" "llm-d-sc-scaleout")
        ∷ ("deployment", text_is runtime "deployment" "classifier-target")
        ∷ ("target_node", text_is runtime "target_node" "gnr2.fm2aihpcsed.com")
        ∷ ("driver_node", text_is runtime "driver_node" "rhgnr1")
        ∷ (
          "direct_cross_node_topology",
          text_is runtime "topology" "cross-node-direct-gnr2.fm2aihpcsed.com-from-rhgnr1",
        )
        ∷ ("one_replica", number_is runtime "replicas" 1)
        ∷ ("one_connection", number_is runtime "connections_per_target" 1)
        ∷ ("open_loop_concurrency_one", number_is runtime "concurrency_per_target" 1)
        ∷ ("duration_180_seconds", number_is runtime "duration_seconds" 180)
        ∷ ("one_inference_worker", text_is runtime "inference_workers" "1")
        ∷ ("rayon_one", text_is threads "rayon" "1")
        ∷ ("candle_unset", text_is threads "candle" "unset")
        ∷ ("guaranteed_qos", text_is runtime "qos_class" "Guaranteed")
        ∷ ("request_cpu_2", text_is requests "cpu" "2")
        ∷ ("limit_cpu_2", text_is limits "cpu" "2")
        ∷ ("request_memory_4gi", text_is requests "memory" "4Gi")
        ∷ ("limit_memory_4gi", text_is limits "memory" "4Gi")
        ∷ [])
