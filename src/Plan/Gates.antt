-- ===== src/Plan/Gates.antt =====
-- hack/arena-sc-horizontal-scale-plan.py: the "validity_gates" and the "analysis" of a plan.
use llm_d_sc_benchmark.Prelude.{ℕ, String, Bool, true, List, [], ◌∷◌}

pub record DriverGate : Type 0 where
  pub accounting_exact : Bool
  pub schedule_drops_max : ℕ
  pub in_flight_drops_max : ℕ
  pub dispatch_p99_lag_ms_max : ℕ
  pub drain_seconds_max : ℕ

pub record TransportGate : Type 0 where
  pub direct_pod_ip_only : Bool
  pub connections_per_endpoint : ℕ
  pub forbidden_statuses : List String

pub record HealthGate : Type 0 where
  pub pod_uid_ip_image_cpuset_stable : Bool
  pub pod_ready_continuous : Bool
  pub restart_count_max : ℕ
  pub nodes_ready_continuous : Bool

pub record TelemetryGate : Type 0 where
  pub required : List String
  pub maximum_gap_seconds : ℕ
  pub supporting : List String

pub record FreshCacheGate : Type 0 where
  pub baseline_served : ℕ
  pub baseline_hits : ℕ
  pub baseline_misses : ℕ
  pub final_hits : ℕ
  pub exact_driver_to_target_reconciliation : Bool

pub record ValidityGates : Type 0 where
  pub driver : DriverGate
  pub transport : TransportGate
  pub health : HealthGate
  pub telemetry : TelemetryGate
  pub fresh_cache : FreshCacheGate

-- A decimal literal (m, k) is m / 10 ^ k.
pub record AnalysisRule : Type 0 where
  pub experimental_unit : String
  pub knee_interval : String
  pub clean_p99_ms_max : ℕ × ℕ
  pub rate_41_success_min : ℕ × ℕ
  pub rate_41_drain_max : ℕ × ℕ
  pub paired_p99_ratio_min_exclusive : ℕ × ℕ
  pub paired_marginal_useful_max_exclusive : ℕ × ℕ
  pub pre_post_35_useful_relative_delta_max : ℕ × ℕ
  pub pre_post_35_p99_ratio_max : ℕ × ℕ
  pub r1_sentinel_required : Bool

abbrev pub validity_gates : ValidityGates
validity_gates = record {
  driver = record {
    accounting_exact = true;
    schedule_drops_max = 0;
    in_flight_drops_max = 0;
    dispatch_p99_lag_ms_max = 5;
    drain_seconds_max = 90;
  };
  transport = record {
    direct_pod_ip_only = true;
    connections_per_endpoint = 1;
    forbidden_statuses =
        "GRPC_UNAVAILABLE" ∷ "GRPC_UNKNOWN" ∷ "GRPC_INTERNAL" ∷ "GRPC_DATA_LOSS" ∷ "CONNECT_ERROR"
        ∷ [];
  };
  health = record {
    pod_uid_ip_image_cpuset_stable = true;
    pod_ready_continuous = true;
    restart_count_max = 0;
    nodes_ready_continuous = true;
  };
  telemetry = record {
    required =
        "pod_cpu_otel" ∷ "container_cpu_otel" ∷ "container_cpu_cadvisor" ∷ "memory_working_set"
        ∷ "restarts" ∷ "pod_ready" ∷ "node_ready" ∷ [];
    maximum_gap_seconds = 10;
    supporting = "throttle_ratio" ∷ "cpu_pressure_waiting" ∷ [];
  };
  fresh_cache = record {
    baseline_served = 0;
    baseline_hits = 0;
    baseline_misses = 0;
    final_hits = 0;
    exact_driver_to_target_reconciliation = true;
  };
}

abbrev pub analysis : AnalysisRule
analysis = record {
  experimental_unit =
      "paired block; endpoint summaries are retained and never treated as independent cluster replicates";
  knee_interval = "(41,42] offered RPS per Pod";
  clean_p99_ms_max = (35363, 3);
  rate_41_success_min = (99, 2);
  rate_41_drain_max = (1, 2);
  paired_p99_ratio_min_exclusive = (125, 2);
  paired_marginal_useful_max_exclusive = (10, 1);
  pre_post_35_useful_relative_delta_max = (2, 2);
  pre_post_35_p99_ratio_max = (120, 2);
  r1_sentinel_required = true;
}
