-- ===== src/Tests/ConfirmInput.antt =====
-- Summaries of the confirmation study and of its extension on which the decision is positive, with fixed-point numbers of three
-- decimals as the floats: the success ratio falls from 1 to 0.9 and the p99 latency doubles.
use llm_d_sc_benchmark.Prelude.{String, ℕ, ◌*◌, ◌/◌, List, [], ◌∷◌, ℤ, pos}
use llm_d_sc_benchmark.Prelude.Json.{Json, float, str, arr, nil, cons}
use llm_d_sc_benchmark.Tests.Input.{object, items_of, number, yes}

-- A cell, of its run, order, repetition and rate, its thousandths of success and drain and its latency.
abbrev cell : String → ℕ → ℕ → ℕ → ℕ → ℕ → ℕ → Json ℤ
cell run_id order repetition wanted success drain p99 = object (
    ("order", number order)
    ∷ ("repetition", number repetition)
    ∷ ("run_id", str run_id)
    ∷ ("offered_rps_per_target", number wanted)
    ∷ ("aggregate_offered_rps", number wanted)
    ∷ ("aggregate_useful_rps", float (pos (wanted * success)))
    ∷ ("offered_success_ratio", float (pos success))
    ∷ ("offered_acceptance_ratio", number 1)
    ∷ ("error_completed_within_plateau", number 0)
    ∷ ("dropped_in_flight_limit", number 0)
    ∷ ("dropped_schedule_late", number 0)
    ∷ ("drained_after_plateau", number (wanted * 180 * drain / 1000))
    ∷ ("drain_ratio", float (pos drain))
    ∷ ("in_flight_drop_ratio", number 0)
    ∷ ("schedule_drop_ratio", number 0)
    ∷ ("latency_us", object (("samples", number 7000) ∷ ("p99", number p99) ∷ []))
    ∷ ("dispatch_lag_us", object (("p99", number 100) ∷ []))
    ∷ ("health_event_violations", number 0)
    ∷ ("scheduler_valid", yes)
    ∷ ("scheduler_invalid_reasons", arr nil)
    ∷ (
      "telemetry",
      object (
          ("required_series_complete", yes)
          ∷ ("supporting_queries_succeeded", yes)
          ∷ ("pod_count", number 1)
          ∷ ("node_count", number 2)
          ∷ []),
    )
    ∷ (
      "topology_preflight",
      object (
          ("required", yes)
          ∷ ("attested", yes)
          ∷ ("load_authorized", yes)
          ∷ ("verdict", str "PASS")
          ∷ ("placement_verdict", str "PASS")
          ∷ ("target_identities", number 1)
          ∷ ("execution_sha256", str "e")
          ∷ ("report_sha256", str "r")
          ∷ []),
    )
    ∷ ("target_cpusets", arr (cons (str "0-1") nil))
    ∷ ("average_target_cpu_cores", number 1)
    ∷ [])

abbrev low : ℕ → ℕ → Json ℤ
low order repetition = cell "cell" order repetition 41 1000 0 28000

abbrev high : ℕ → ℕ → Json ℤ
high order repetition = cell "cell" order repetition 42 900 100 56000

abbrev point : ℕ → List (Json ℤ) → Json ℤ
point wanted cells = object (
    ("offered_rps_per_target_numeric", number wanted)
    ∷ ("offered_rps_per_target", number wanted)
    ∷ ("repetitions", number 5)
    ∷ ("scheduler_valid_repetitions", number 5)
    ∷ ("all_scheduler_valid", yes)
    ∷ ("cells", arr (items_of cells))
    ∷ [])

abbrev sizes : Json ℤ
sizes = object (("cpu", str "2") ∷ ("memory", str "4Gi") ∷ [])

abbrev runtime : Json ℤ
runtime = object (
    ("runtime_threads", object (("rayon", str "1") ∷ ("candle", str "unset") ∷ []))
    ∷ ("resources", object (("requests", sizes) ∷ ("limits", sizes) ∷ []))
    ∷ ("driver_image", str "d")
    ∷ ("model_sha256", str "m")
    ∷ ("tokenizer_sha256", str "t")
    ∷ (
      "target_image",
      str "sha256:04323612ce3f73873b4c3ed6e09264e828241537e2c1a4231b43f32e9744d5aa",
    )
    ∷ ("namespace", str "llm-d-sc-scaleout")
    ∷ ("deployment", str "classifier-target")
    ∷ ("target_node", str "gnr2.fm2aihpcsed.com")
    ∷ ("driver_node", str "rhgnr1")
    ∷ ("topology", str "cross-node-direct-gnr2.fm2aihpcsed.com-from-rhgnr1")
    ∷ ("replicas", number 1)
    ∷ ("connections_per_target", number 1)
    ∷ ("concurrency_per_target", number 1)
    ∷ ("duration_seconds", number 180)
    ∷ ("inference_workers", str "1")
    ∷ ("qos_class", str "Guaranteed")
    ∷ [])

abbrev summary_of : String → List (Json ℤ) → Json ℤ
summary_of run_id points = object (
    ("schema_version", number 2)
    ∷ ("planned_cells", number 10)
    ∷ ("attested_cells", number 10)
    ∷ ("run_id", str run_id)
    ∷ ("protocol", str "deterministic_offered_rate_v1")
    ∷ ("all_accounting_valid", yes)
    ∷ ("all_scheduler_attribution_valid", yes)
    ∷ ("telemetry_required", yes)
    ∷ ("all_required_telemetry_valid", yes)
    ∷ ("all_required_topology_preflights_valid", yes)
    ∷ ("topology_preflight", object (("required", yes) ∷ []))
    ∷ (
      "source_attestation",
      object (
          ("runtime_source_linkage_attested", yes)
          ∷ ("driver_build_source_sha256", str "s")
          ∷ ("local_probe_source_sha256", str "s")
          ∷ []),
    )
    ∷ (
      "scheduler_attribution_thresholds",
      object (("max_dispatch_p99_lag_ms", number 5) ∷ ("max_schedule_drop_ratio", number 0) ∷ []),
    )
    ∷ ("runtime_signature", runtime)
    ∷ ("rates", arr (items_of points))
    ∷ [])

abbrev pub summary : Json ℤ
summary = summary_of "ol-rt1-knee-confirm-20260829-a" (
    point 41 (low 1 1 ∷ low 4 2 ∷ low 5 3 ∷ low 8 4 ∷ low 9 5 ∷ [])
    ∷ point 42 (high 2 1 ∷ high 3 2 ∷ high 6 3 ∷ high 7 4 ∷ high 10 5 ∷ [])
    ∷ [])

abbrev low_b : String → ℕ → ℕ → Json ℤ
low_b run_id order repetition = cell run_id order repetition 41 1000 0 28000

abbrev high_b : String → ℕ → ℕ → Json ℤ
high_b run_id order repetition = cell run_id order repetition 42 900 100 56000

abbrev pub second_summary : Json ℤ
second_summary = summary_of "ol-rt1-knee-confirm-ext-20260829-b" (
    point 41 (
      low_b "ol-ol-rt1-knee-confirm-ext-20260829-b-o002" 2 1
      ∷ low_b "ol-ol-rt1-knee-confirm-ext-20260829-b-o003" 3 2
      ∷ low_b "ol-ol-rt1-knee-confirm-ext-20260829-b-o006" 6 3
      ∷ low_b "ol-ol-rt1-knee-confirm-ext-20260829-b-o007" 7 4
      ∷ low_b "ol-ol-rt1-knee-confirm-ext-20260829-b-o010" 10 5
      ∷ [])
    ∷ point 42 (
        high_b "ol-ol-rt1-knee-confirm-ext-20260829-b-o001" 1 1
        ∷ high_b "ol-ol-rt1-knee-confirm-ext-20260829-b-o004" 4 2
        ∷ high_b "ol-ol-rt1-knee-confirm-ext-20260829-b-o005" 5 3
        ∷ high_b "ol-ol-rt1-knee-confirm-ext-20260829-b-o008" 8 4
        ∷ high_b "ol-ol-rt1-knee-confirm-ext-20260829-b-o009" 9 5
        ∷ [])
    ∷ [])
