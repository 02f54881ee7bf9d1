-- ===== src/Confirm/Cells.antt =====
-- hack/arena-sc-knee-confirm-analyze.py: `_parse_cell`.
use text.Mathlib.Text.{◌==◌ as str_eq}
use llm_d_sc_benchmark.Prelude.{
  ℕ, ◌*◌, String, Bool, true, false, not, ◌&&◌, Option, none, some, List, ℤ, pos, ltb_ℤ, ok, ◌>>=◌,
  ◌>>◌, ◌==◌, all, length,
}
use llm_d_sc_benchmark.Prelude.Json.{Json, null, str, Fields}
use llm_d_sc_benchmark.Prelude.Floats.{Floats}
use llm_d_sc_benchmark.Confirm.Fields.{
  Checked, demand, required, mapping, sequence, boolean, integer_from, string, number_from,
  number_between, rate, wrong_group, wrong_offer, wrong_ratio, p99_without_samples,
  samples_without_p99, bad_cpusets, bad_reasons,
}

-- The outcomes of a cell.
pub record Load (F : Type 0) : Type 0 where
  pub order : ℤ
  pub repetition : ℤ
  pub run_id : String
  pub aggregate_offered_rps : F
  pub useful_rps : F
  pub success_ratio : F
  pub acceptance_ratio : F
  pub errors : ℤ
  pub in_flight_drops : ℤ
  pub schedule_drops : ℤ
  pub drained : ℤ
  pub drain_ratio : F
  pub in_flight_drop_ratio : F
  pub schedule_drop_ratio : F

pub record Latency (F : Type 0) : Type 0 where
  pub p99_us : Option F
  pub samples : ℤ

-- The attribution of a cell: its scheduler, telemetry, placement and CPUs.
pub record Attribution (F : Type 0) : Type 0 where
  pub dispatch_p99_us : F
  pub health_violations : ℤ
  pub scheduler_valid : Bool
  pub scheduler_reasons : List (Json F)
  pub telemetry_complete : Bool
  pub telemetry_supporting : Bool
  pub telemetry_pods : ℤ
  pub telemetry_nodes : ℤ
  pub topology_required : Bool
  pub topology_attested : Bool
  pub topology_authorized : Bool
  pub topology_verdict : String
  pub placement_verdict : String
  pub target_identities : ℤ
  pub target_cpusets : List (Json F)
  pub average_target_cpu_cores : F

-- The dictionary that `_parse_cell` returns: its "rate", and the rest in three parts.
pub record ParsedCell (F : Type 0) : Type 0 where
  pub rate_group : ℕ
  pub load : Load F
  pub latency : Latency F
  pub attribution : Attribution F

is_string : {F : Type 0} → Json F → Bool
is_string (str s) = true
is_string _ = false

is_full_string : {F : Type 0} → Json F → Bool
is_full_string (str s) = not (str_eq s "")
is_full_string _ = false

module _ {F : Type 0} ⦃fl : Floats F⦄ where
  abbrev pub zero_f : F
  zero_f = fl.decimal 0 0

  abbrev pub one_f : F
  one_f = fl.decimal 1 0

  -- `count / expected_slots` is the recorded ratio.
  unfoldable pub check_ratio : String → ℕ → ℤ → F → Checked (Unit {0})
  check_ratio label rate count ratio =
      demand (fl.is_close ratio (fl.quotient count (pos (rate * 180)))) (wrong_ratio label)

  unfoldable pub parse_load : (String → Option F) → Fields F → ℕ → Checked (Load F)
  parse_load parse_float cell rate_group = do
    order ← integer_from (pos 1) "order" (← required cell "order")
    repetition ← integer_from (pos 1) "repetition" (← required cell "repetition")
    run_id ← string "run_id" (← required cell "run_id")
    recorded ← rate parse_float "offered_rps_per_target" (← required cell "offered_rps_per_target")
    demand (recorded == rate_group) (wrong_group rate_group)
    offered ← number_from zero_f "aggregate_offered_rps" (← required cell "aggregate_offered_rps")
    demand (fl.is_close offered (fl.decimal rate_group 0)) (wrong_offer rate_group)
    useful ←
        number_between zero_f offered "aggregate_useful_rps"
          (← required cell "aggregate_useful_rps")
    success ←
        number_between zero_f one_f "offered_success_ratio"
          (← required cell "offered_success_ratio")
    acceptance ←
        number_between zero_f one_f "offered_acceptance_ratio"
          (← required cell "offered_acceptance_ratio")
    errors ←
        integer_from (pos 0) "error_completed_within_plateau"
          (← required cell "error_completed_within_plateau")
    in_flight ←
        integer_from (pos 0) "dropped_in_flight_limit" (← required cell "dropped_in_flight_limit")
    late ← integer_from (pos 0) "dropped_schedule_late" (← required cell "dropped_schedule_late")
    drained ← integer_from (pos 0) "drained_after_plateau" (← required cell "drained_after_plateau")
    drain_ratio ← number_between zero_f one_f "drain_ratio" (← required cell "drain_ratio")
    in_flight_ratio ←
        number_between zero_f one_f "in_flight_drop_ratio" (← required cell "in_flight_drop_ratio")
    late_ratio ←
        number_between zero_f one_f "schedule_drop_ratio" (← required cell "schedule_drop_ratio")
    check_ratio "drain_ratio" rate_group drained drain_ratio
    check_ratio "in_flight_drop_ratio" rate_group in_flight in_flight_ratio
    check_ratio "schedule_drop_ratio" rate_group late late_ratio
    ok (record {
      order = order;
      repetition = repetition;
      run_id = run_id;
      aggregate_offered_rps = offered;
      useful_rps = useful;
      success_ratio = success;
      acceptance_ratio = acceptance;
      errors = errors;
      in_flight_drops = in_flight;
      schedule_drops = late;
      drained = drained;
      drain_ratio = drain_ratio;
      in_flight_drop_ratio = in_flight_ratio;
      schedule_drop_ratio = late_ratio;
    })

  unfoldable pub parse_p99 : Json F → Checked (Option F)
  parse_p99 null = ok none
  parse_p99 value = do p99 ← number_from zero_f "latency_us.p99" value; ok (some p99)

  -- No latency at all is an outcome; a count of samples that contradicts the percentile is not.
  unfoldable pub read_latency : Json F → Checked (Latency F)
  read_latency null = ok (record { p99_us = none; samples = pos 0 })
  read_latency raw = do
    latency ← mapping "latency_us" raw
    samples ← integer_from (pos 0) "latency_us.samples" (← required latency "samples")
    p99 ← parse_p99 (← required latency "p99")
    ok (record { p99_us = p99; samples = samples })

  unfoldable pub check_latency : Latency F → Checked (Unit {0})
  check_latency latency = elim latency.p99_us [
    | none ↦ demand (not (ltb_ℤ (pos 0) latency.samples)) samples_without_p99
    | some p99 ↦ do
      demand (ltb_ℤ (pos 0) latency.samples) p99_without_samples
      demand (not (fl.le p99 zero_f)) samples_without_p99
  ]

  unfoldable pub parse_latency : Fields F → Checked (Latency F)
  parse_latency cell = do
    latency ← read_latency (← required cell "latency_us")
    check_latency latency
    ok latency

  unfoldable pub parse_attribution : Fields F → Checked (Attribution F)
  unfolding is_string is_full_string
  parse_attribution cell = do
    dispatch ← mapping "dispatch_lag_us" (← required cell "dispatch_lag_us")
    dispatch_p99 ← number_from zero_f "dispatch_lag_us.p99" (← required dispatch "p99")
    health ←
        integer_from (pos 0) "health_event_violations" (← required cell "health_event_violations")
    scheduler_valid ← boolean "scheduler_valid" (← required cell "scheduler_valid")
    reasons ← sequence "scheduler_invalid_reasons" (← required cell "scheduler_invalid_reasons")
    demand (all is_string reasons) bad_reasons
    telemetry ← mapping "telemetry" (← required cell "telemetry")
    complete ←
        boolean "telemetry.required_series_complete"
          (← required telemetry "required_series_complete")
    supporting ←
        boolean "telemetry.supporting_queries_succeeded"
          (← required telemetry "supporting_queries_succeeded")
    pods ← integer_from (pos 0) "telemetry.pod_count" (← required telemetry "pod_count")
    nodes ← integer_from (pos 0) "telemetry.node_count" (← required telemetry "node_count")
    topology ← mapping "topology_preflight" (← required cell "topology_preflight")
    needed ← boolean "topology_preflight.required" (← required topology "required")
    attested ← boolean "topology_preflight.attested" (← required topology "attested")
    authorized ←
        boolean "topology_preflight.load_authorized" (← required topology "load_authorized")
    verdict ← string "topology_preflight.verdict" (← required topology "verdict")
    placement ←
        string "topology_preflight.placement_verdict" (← required topology "placement_verdict")
    identities ←
        integer_from (pos 0) "topology_preflight.target_identities"
          (← required topology "target_identities")
    execution ←
        string "topology_preflight.execution_sha256" (← required topology "execution_sha256")
    report ← string "topology_preflight.report_sha256" (← required topology "report_sha256")
    cpusets ← sequence "target_cpusets" (← required cell "target_cpusets")
    demand (length cpusets == 1 && all is_full_string cpusets) bad_cpusets
    cores ←
        number_from zero_f "average_target_cpu_cores" (← required cell "average_target_cpu_cores")
    ok (record {
      dispatch_p99_us = dispatch_p99;
      health_violations = health;
      scheduler_valid = scheduler_valid;
      scheduler_reasons = reasons;
      telemetry_complete = complete;
      telemetry_supporting = supporting;
      telemetry_pods = pods;
      telemetry_nodes = nodes;
      topology_required = needed;
      topology_attested = attested;
      topology_authorized = authorized;
      topology_verdict = verdict;
      placement_verdict = placement;
      target_identities = identities;
      target_cpusets = cpusets;
      average_target_cpu_cores = cores;
    })

  unfoldable pub parse_cell : (String → Option F) → ℕ → Json F → Checked (ParsedCell F)
  parse_cell parse_float rate_group raw = do
    cell ← mapping "cell" raw
    load ← parse_load parse_float cell rate_group
    latency ← parse_latency cell
    attribution ← parse_attribution cell
    ok (record {
      rate_group = rate_group;
      load = load;
      latency = latency;
      attribution = attribution;
    })
