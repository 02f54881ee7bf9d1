-- ===== src/Tests/HealthTests.antt =====
-- Witnesses for hack/arena-sc-transport-health-summarize.py: five ready targets and an old warning.
use llm_d_sc_benchmark.Prelude.{◌≡◌, refl, String, true, none, some, List, [], ◌∷◌, pos}
use llm_d_sc_benchmark.Prelude.Decimal.{text_eq, text_le}
use llm_d_sc_benchmark.Prelude.Texts.{ends_with, starts_with, contains, insert_by, sort_by}
use llm_d_sc_benchmark.Prelude.Dict.{put, look_up, has_key, keys_of}
use llm_d_sc_benchmark.Health.State.{
  PodItem, Condition, filled, is_text, same_field, or_else, state_of, add_states, pod_state,
}
use llm_d_sc_benchmark.Health.Events.{
  EventItem, probe_of, failure_of, first_filled, message_of, warning_of, key_of, add_warnings,
  warning_counts,
}
use llm_d_sc_benchmark.Health.Summary.{
  same_identity, is_identity_stable, all_names, restart_delta_of, pod_row, increase_of, count_of,
  event_delta, event_deltas, probe_name, failure_name, count_up, count_all, counted, affected_pods,
  are_ready, summary_of, summarize,
}
use llm_d_sc_benchmark.Health.Counters.{total, summarize-counters}
use llm_d_sc_benchmark.Health.Healthy.{IsHealthy, summarize-IsHealthy}

abbrev ready : Condition
ready = record { kind = some "Ready"; status = some "True" }

abbrev pod : String → PodItem
pod name = record {
  name = some name;
  uid = some name;
  pod_ip = some "10.0.0.1";
  node = some "gnr2";
  conditions = ready ∷ [];
  restart_counts = some (pos 1) ∷ none ∷ [];
}

abbrev pods : List PodItem
pods = pod "t0" ∷ pod "t1" ∷ pod "t2" ∷ pod "t3" ∷ pod "t4" ∷ []

abbrev event : EventItem
event = record {
  kind = some "Warning";
  pod = some "t3";
  uid = some "e0";
  name = none;
  message = some "Readiness probe failed: i/o timeout";
  count = some (pos 4);
  reason = some "Unhealthy";
  first_timestamp = none;
  last_timestamp = none;
  event_time = none;
}

health_slo_pass_lem : (summarize pods pods (event ∷ []) (event ∷ [])).health_slo_pass ≡ true
unfolding text_eq text_le ends_with starts_with contains insert_by sort_by put look_up has_key
    keys_of filled is_text same_field or_else state_of add_states pod_state probe_of failure_of
    first_filled message_of warning_of key_of add_warnings warning_counts same_identity
    is_identity_stable all_names restart_delta_of pod_row increase_of count_of event_delta
    event_deltas probe_name failure_name count_up count_all counted affected_pods are_ready
    summary_of summarize
health_slo_pass_lem = refl

summarize-IsHealthy_example :
    IsHealthy
      (pod_state pods)
      (pod_state pods)
      (warning_counts (event ∷ []) (keys_of (pod_state pods)))
      (warning_counts (event ∷ []) (keys_of (pod_state pods)))
summarize-IsHealthy_example =
    summarize-IsHealthy pods pods (event ∷ []) (event ∷ []) health_slo_pass_lem

summarize-counters_example :
    (total (summarize pods pods [] (event ∷ [])).warning_event_deltas_by_probe
      ≡ (summarize pods pods [] (event ∷ [])).warning_event_delta_count)
    × (total (summarize pods pods [] (event ∷ [])).warning_event_deltas_by_failure
        ≡ (summarize pods pods [] (event ∷ [])).warning_event_delta_count)
summarize-counters_example = summarize-counters pods pods [] (event ∷ [])
