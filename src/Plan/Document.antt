-- ===== src/Plan/Document.antt =====
-- hack/arena-sc-horizontal-scale-plan.py: the two documents that `build_plan` returns.
use llm_d_sc_benchmark.Prelude.{
  ℕ, ◌*◌, ◌++◌, String, true, none, List, [], ℤ, Result, ok, ◌>>=◌, ◌>>◌,
}
use llm_d_sc_benchmark.Prelude.Decimal.{Text, codes}
use llm_d_sc_benchmark.Plan.Gates.{validity_gates, analysis}
use llm_d_sc_benchmark.Plan.Types.{
  PlanError, Cell, Identity, WorkloadIsolation, TargetShape, DriverShape, ScaleProtocol, Envelope,
  Plan, Ledger, allowed_rungs,
}
use llm_d_sc_benchmark.Plan.Cells.{build_cells}
use llm_d_sc_benchmark.Plan.Build.{
  driver_image, driver_source_sha256, target_image, model_sha256, tokenizer_sha256,
  generator_scheme, check_run_id, check_campaign_index, Progress, place_cells, make_reservation,
}

abbrev pub identity : Identity
identity = record {
  target_image = target_image;
  driver_image = driver_image;
  driver_source_sha256 = driver_source_sha256;
  model_sha256 = model_sha256;
  tokenizer_sha256 = tokenizer_sha256;
  token_count_including_specials = 64;
  generator_scheme = generator_scheme;
  corpus_mode = "generated";
  corpus_digest = none;
}

abbrev pub workload_isolation : Text → WorkloadIsolation
workload_isolation run_id = record {
  temporary_deployment = codes "sso-" ++ (run_id ++ codes "-target");
  run_label = codes "benchmark.llm-d/run-id=" ++ run_id;
  shared_exclusion_lock = "sc-benchmark-matrix-lock";
  namespace_scoped = true;
  independently_deletable = true;
  requires_reference_target_scaled_to_zero = true;
}

abbrev pub target_shape : String → TargetShape
target_shape node = record {
  image = target_image;
  node = node;
  inference_workers = "1";
  rayon_num_threads = "1";
  candle_num_threads = "unset";
  metrics_log_seconds = "10";
  qos_class = "Guaranteed";
  request_cpu = "2";
  request_memory = "4Gi";
  limit_cpu = "2";
  limit_memory = "4Gi";
  cpu_max = "max";
  logical_cpus = 2;
  complete_smt_sibling_sets = true;
  pid1_executable = "/usr/local/bin/llm-d-sc";
}

abbrev pub driver_shape : String → DriverShape
driver_shape node = record {
  image = driver_image;
  source_sha256 = driver_source_sha256;
  node = node;
  one_job_per_direct_pod_ip = true;
  connections_per_job = 1;
  closed_loop_concurrency_argument = 1;
  warmup_requests = 0;
  start_lead_seconds = 180;
  armed_barrier_lead_seconds = 90;
  request_cpu = "500m";
  request_memory = "256Mi";
  limit_cpu = "4";
  limit_memory = "1Gi";
}

abbrev pub scale_protocol : ScaleProtocol
scale_protocol = record {
  initial_replicas = 0;
  batch_increment = 2;
  stability_seconds_per_batch = 120;
  cells_serial = true;
  no_oc_exec_during_plateau = true;
  target_inventory_frozen_before_first_load = true;
}

unfoldable pub envelope : ℕ → Envelope
envelope replicas = record {
  peak_pods = 2 * replicas;
  requests = record { cpu_millicores = 2500 * replicas; memory_mib = 4352 * replicas };
  limits = record { cpu_millicores = 6000 * replicas; memory_mib = 5120 * replicas };
  target_node_requests = record { cpu_millicores = 2000 * replicas; memory_mib = 4096 * replicas };
  driver_node_requests = record { cpu_millicores = 500 * replicas; memory_mib = 256 * replicas };
}

module _ (sha256_hex : Text → Text) (namespace target_node driver_node : String) where
  unfoldable pub make_plan : Text → ℕ → ℕ → List Cell → Progress → Plan
  make_plan run_id campaign_index replicas cells p = record {
    schema_version = 1;
    protocol = "unchanged_sc_horizontal_scale_knee_v1";
    run_id = run_id;
    campaign_index = campaign_index;
    namespace = namespace;
    rung_replicas = replicas;
    first_executable_rung = 20;
    rungs = allowed_rungs;
    workload_isolation = workload_isolation run_id;
    target_shape = target_shape target_node;
    driver_shape = driver_shape driver_node;
    scale_protocol = scale_protocol;
    identity = identity;
    cells = cells;
    jobs = p.jobs;
    sequence_reservation = make_reservation campaign_index p.allocation;
    resource_envelope_incremental = envelope replicas;
    validity_gates = validity_gates;
    analysis = analysis;
  }

  unfoldable pub make_ledger : Plan → Progress → Ledger
  make_ledger plan p = record {
    schema_version = 1;
    ledger = "llm-d-sc-generated-sequence-allocation-v1";
    owner_run_id = plan.run_id;
    owner_campaign_index = plan.campaign_index;
    owner_framework = "unchanged_sc_horizontal_scale_knee_v1";
    reservation_status = "claimed_by_plan";
    reservation = plan.sequence_reservation;
    identity = plan.identity;
    entries = p.entries;
  }

  unfoldable pub build_plan : Text → ℤ → ℕ → Result PlanError (Plan × Ledger)
  build_plan run_id campaign_index replicas = do
    check_run_id run_id
    c ← check_campaign_index campaign_index
    cells ← build_cells replicas campaign_index
    (done, p) ←
        place_cells sha256_hex run_id c cells []
          (record { allocation = 0; entries = []; jobs = [] })
    let plan = make_plan run_id c replicas done p
    ok (plan, make_ledger plan p)
