-- ===== src/Plan/Types.antt =====
-- hack/arena-sc-horizontal-scale-plan.py: its constants and the shapes of the cells, jobs, ledger
-- entries, plan and ledger. A dictionary literal with fixed keys is a record, `None` an `Option`.
use llm_d_sc_benchmark.Plan.Gates.{ValidityGates, AnalysisRule}
use llm_d_sc_benchmark.Prelude.{ℕ, String, Bool, Option, List, [], ◌∷◌}
use llm_d_sc_benchmark.Prelude.Decimal.{Text}

abbrev pub sequence_namespace_start : ℕ
sequence_namespace_start = 22_000_000_000

abbrev pub sequence_namespace_end : ℕ
sequence_namespace_end = 23_000_000_000

abbrev pub campaign_span : ℕ
campaign_span = 10_000_000

abbrev pub job_sequence_span : ℕ
job_sequence_span = 10_001

abbrev pub allowed_rungs : List ℕ
allowed_rungs = 20 ∷ 30 ∷ 40 ∷ 50 ∷ []

abbrev pub max_rows : ℕ
max_rows = 10_000

pub data PlanError : Type 0 where
  bad_rung odd_rung bad_run_id long_run_id bad_campaign_index allocation_exceeded : PlanError
  -- an endpoint with no rate: the product with `None` raises
  no_rate : PlanError

pub data Scope : Type 0 where
  r1_sentinel rung : Scope

pub data Phase : Type 0 where
  sentinel_pre pre knee post sentinel_post : Phase

pub data Period : Type 0 where
  period_a period_b : Period

pub record Cell : Type 0 where
  pub ordinal : ℕ
  pub cell_id : Text
  pub scope : Scope
  pub phase : Phase
  pub block : Option ℕ
  pub period : Option Period
  pub duration_seconds : ℕ
  pub active_endpoints : List ℕ
  pub endpoint_offered_rps : List (Option ℕ)
  pub driver_jobs : ℕ
  pub aggregate_offered_rps : ℕ
  pub common_t0_assignment : String
  pub warmup_requests : ℕ
  pub job_ids : List Text

pub record Job : Type 0 where
  pub allocation_ordinal : ℕ
  pub job_id : Text
  pub cell_ordinal : ℕ
  pub cell_id : Text
  pub endpoint_ordinal : ℕ
  pub offered_rps : ℕ
  pub duration_seconds : ℕ
  pub expected_slots : ℕ
  pub sequence_base : ℕ
  pub reserved_end_exclusive : ℕ
  pub candidate_rows : ℕ
  pub max_in_flight : ℕ
  pub arming_nonce : Text

-- The "planned" part of a ledger entry, with its "reserved_interval" flattened.
pub record Planned : Type 0 where
  pub sequence_base : ℕ
  pub candidate_rows : ℕ
  pub start_inclusive : ℕ
  pub end_exclusive : ℕ
  pub expected_first_sequence : ℕ
  pub expected_last_sequence : ℕ

pub record Armed : Type 0 where
  pub observed : Bool
  pub scheduled_rows_blake3 : Option Text
  pub selected_rows_blake3 : Option Text
  pub config_digest : Option Text
  pub armed_epoch_ms : Option ℕ

pub record Emitted : Type 0 where
  pub observed : Bool
  pub actual_first_sequence : Option ℕ
  pub actual_last_sequence : Option ℕ
  pub scheduled_rows_blake3 : Option Text
  pub completed_requests : Option ℕ

pub record TargetBinding : Type 0 where
  pub endpoint_ordinal : ℕ
  pub pod_name : Option Text
  pub pod_uid : Option Text
  pub pod_ip : Option Text

-- The "baseline_expected" of a target's counters.
pub record CacheCounts : Type 0 where
  pub served : ℕ
  pub hits : ℕ
  pub misses : ℕ

pub record FreshCacheCounters : Type 0 where
  pub required : Bool
  pub baseline_expected : CacheCounts
  pub baseline_observed : Option CacheCounts
  pub final_observed : Option CacheCounts

pub data Lifecycle : Type 0 where
  planned armed emitted : Lifecycle

pub record Entry : Type 0 where
  pub allocation_ordinal : ℕ
  pub job_id : Text
  pub cell_id : Text
  pub endpoint_ordinal : ℕ
  pub planned : Planned
  pub armed : Armed
  pub emitted : Emitted
  pub target_binding : TargetBinding
  pub fresh_cache_counters : FreshCacheCounters
  pub lifecycle_status : Lifecycle

pub record Reservation : Type 0 where
  pub namespace_start : ℕ
  pub namespace_end : ℕ
  pub span : ℕ
  pub start_inclusive : ℕ
  pub end_exclusive : ℕ
  pub allocated_jobs : ℕ
  pub allocated_end_exclusive : ℕ
  pub never_recycle_if_ledger_exists : Bool

pub record Identity : Type 0 where
  pub target_image : String
  pub driver_image : String
  pub driver_source_sha256 : String
  pub model_sha256 : String
  pub tokenizer_sha256 : String
  pub token_count_including_specials : ℕ
  pub generator_scheme : String
  pub corpus_mode : String
  pub corpus_digest : Option String

pub record WorkloadIsolation : Type 0 where
  pub temporary_deployment : Text
  pub run_label : Text
  pub shared_exclusion_lock : String
  pub namespace_scoped : Bool
  pub independently_deletable : Bool
  pub requires_reference_target_scaled_to_zero : Bool

-- The shapes, with their "resources" and "runtime" flattened.
pub record TargetShape : Type 0 where
  pub image : String
  pub node : String
  pub inference_workers : String
  pub rayon_num_threads : String
  pub candle_num_threads : String
  pub metrics_log_seconds : String
  pub qos_class : String
  pub request_cpu : String
  pub request_memory : String
  pub limit_cpu : String
  pub limit_memory : String
  pub cpu_max : String
  pub logical_cpus : ℕ
  pub complete_smt_sibling_sets : Bool
  pub pid1_executable : String

pub record DriverShape : Type 0 where
  pub image : String
  pub source_sha256 : String
  pub node : String
  pub one_job_per_direct_pod_ip : Bool
  pub connections_per_job : ℕ
  pub closed_loop_concurrency_argument : ℕ
  pub warmup_requests : ℕ
  pub start_lead_seconds : ℕ
  pub armed_barrier_lead_seconds : ℕ
  pub request_cpu : String
  pub request_memory : String
  pub limit_cpu : String
  pub limit_memory : String

pub record ScaleProtocol : Type 0 where
  pub initial_replicas : ℕ
  pub batch_increment : ℕ
  pub stability_seconds_per_batch : ℕ
  pub cells_serial : Bool
  pub no_oc_exec_during_plateau : Bool
  pub target_inventory_frozen_before_first_load : Bool

-- A pair of amounts, in millicores and mebibytes.
pub record Amount : Type 0 where
  pub cpu_millicores : ℕ
  pub memory_mib : ℕ

pub record Envelope : Type 0 where
  pub peak_pods : ℕ
  pub requests : Amount
  pub limits : Amount
  pub target_node_requests : Amount
  pub driver_node_requests : Amount

-- The plan, less the note of its envelope.
pub record Plan : Type 0 where
  pub schema_version : ℕ
  pub protocol : String
  pub run_id : Text
  pub campaign_index : ℕ
  pub namespace : String
  pub rung_replicas : ℕ
  pub first_executable_rung : ℕ
  pub rungs : List ℕ
  pub workload_isolation : WorkloadIsolation
  pub target_shape : TargetShape
  pub driver_shape : DriverShape
  pub scale_protocol : ScaleProtocol
  pub identity : Identity
  pub cells : List Cell
  pub jobs : List Job
  pub sequence_reservation : Reservation
  pub resource_envelope_incremental : Envelope
  pub validity_gates : ValidityGates
  pub analysis : AnalysisRule

-- The ledger, with its "allocation_owner" flattened and less the note of its rule.
pub record Ledger : Type 0 where
  pub schema_version : ℕ
  pub ledger : String
  pub owner_run_id : Text
  pub owner_campaign_index : ℕ
  pub owner_framework : String
  pub reservation_status : String
  pub reservation : Reservation
  pub identity : Identity
  pub entries : List Entry
