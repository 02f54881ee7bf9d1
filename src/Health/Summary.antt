-- ===== src/Health/Summary.antt =====
-- hack/arena-sc-transport-health-summarize.py: `summarize`.
use llm_d_sc_benchmark.Prelude.{
  String, Bool, false, not, ◌&&◌, Option, none, some, List, [], ◌∷◌, ◌++◌, map, ℤ, pos, ◌+ℤ◌, ◌-ℤ◌,
  ◌==ℤ◌, ltb_ℤ, sum_ℤ, max_zero, ◌==◌, if◌then◌else◌, keep, all, any, length,
}
use text.Mathlib.Text.{◌==◌ as str_eq}
use llm_d_sc_benchmark.Prelude.Decimal.{codes}
use llm_d_sc_benchmark.Prelude.Texts.{sort_by}
use llm_d_sc_benchmark.Prelude.Dict.{look_up, has_key, keys_of}
use llm_d_sc_benchmark.Health.State.{PodItem, PodState, same_field, pod_state}
use llm_d_sc_benchmark.Health.Events.{
  EventItem, Probe, readiness, liveness, other_probe, Failure, timeout, connection_refused,
  other_failure, Warning, warning_counts,
}

pub record PodRow : Type 0 where
  pub name : String
  pub before : Option PodState
  pub after : Option PodState
  pub restart_delta : Option ℤ

pub record EventDelta : Type 0 where
  pub event_id : String
  pub delta : ℤ
  pub event : Warning

pub record HealthSummary : Type 0 where
  pub identity_stable : Bool
  pub before_ready : Bool
  pub after_ready : Bool
  pub restart_delta_count : ℤ
  pub warning_event_delta_count : ℤ
  pub warning_event_deltas_by_probe : List (String × ℤ)
  pub warning_event_deltas_by_failure : List (String × ℤ)
  pub warning_affected_pods : List String
  pub health_slo_pass : Bool
  pub pods : List PodRow
  pub warning_event_deltas : List EventDelta

unfoldable pub same_identity : Option PodState → Option PodState → Bool
same_identity (some old) (some new) = same_field old.uid new.uid && same_field old.pod_ip new.pod_ip
same_identity _ _ = false

unfoldable pub is_identity_stable : List (String × PodState) → List (String × PodState) → Bool
is_identity_stable before after =
    all (has_key after) (keys_of before)
    && all (has_key before) (keys_of after)
    && all (λ name. same_identity (look_up before name) (look_up after name))
        (keep (has_key after) (keys_of before))

-- `sorted(before_names | after_names)`
unfoldable pub all_names : List (String × PodState) → List (String × PodState) → List String
all_names before after =
    sort_by codes (keys_of before ++ keep (λ name. not (has_key before name)) (keys_of after))

unfoldable pub restart_delta_of : Option PodState → Option PodState → Option ℤ
restart_delta_of (some old) (some new) = some (new.restart_count -ℤ old.restart_count)
restart_delta_of _ _ = none

unfoldable pub pod_row : List (String × PodState) → List (String × PodState) → String → PodRow
pod_row before after name = record {
  name = name;
  before = look_up before name;
  after = look_up after name;
  restart_delta = restart_delta_of (look_up before name) (look_up after name);
}

unfoldable pub increase_of : Option ℤ → ℤ
increase_of none = pos 0
increase_of (some n) = max_zero n

unfoldable pub count_of : Option Warning → ℤ
count_of none = pos 0
count_of (some event) = event.count

unfoldable pub event_delta : List (String × Warning) → String × Warning → EventDelta
event_delta old (key, event) = record {
  event_id = key;
  delta = event.count -ℤ count_of (look_up old key);
  event = event;
}

unfoldable pub event_deltas : List (String × Warning) → List (String × Warning) → List EventDelta
event_deltas old new =
    keep (λ d. ltb_ℤ (pos 0) d.delta) (map (event_delta old) (sort_by (λ e. codes e.0) new))

unfoldable pub probe_name : Probe → String
probe_name readiness = "readiness"
probe_name liveness = "liveness"
probe_name other_probe = "other"

unfoldable pub failure_name : Failure → String
failure_name timeout = "timeout"
failure_name connection_refused = "connection_refused"
failure_name other_failure = "other"

-- `counter[key] += n`
unfoldable pub count_up : List (String × ℤ) → String → ℤ → List (String × ℤ)
count_up [] key n = (key, n) ∷ []
count_up ((k, m) ∷ rest) key n =
    let later = count_up rest key n in if str_eq k key then (k, m +ℤ n) ∷ rest else (k, m) ∷ later

unfoldable pub count_all :
    (Warning → String) → List (String × ℤ) → List EventDelta → List (String × ℤ)
count_all name counter [] = counter
count_all name counter (d ∷ deltas) =
    count_all name (count_up counter (name d.event) d.delta) deltas

unfoldable pub counted : (Warning → String) → List EventDelta → List (String × ℤ)
counted name deltas = sort_by (λ e. codes e.0) (count_all name [] deltas)

unfoldable pub affected_pods : List EventDelta → List String
affected_pods [] = []
affected_pods (d ∷ deltas) =
    let rest = affected_pods deltas in
    if any (str_eq d.event.pod) rest then rest else d.event.pod ∷ rest

unfoldable pub are_ready : List (String × PodState) → Bool
are_ready rows = length rows == 5 && all (λ e. e.1.ready) rows

-- `summarize`, of the states and the warnings before and after the cell.
unfoldable pub summary_of :
    (before after : List (String × PodState)) (old_events new_events : List (String × Warning))
    → HealthSummary
summary_of before after old_events new_events =
    let pods = map (pod_row before after) (all_names before after) in
    let deltas = event_deltas old_events new_events in
    let identity_stable = is_identity_stable before after in
    let restarts = sum_ℤ (map (λ p. increase_of p.restart_delta) pods) in
    let warnings = sum_ℤ (map (λ d. d.delta) deltas) in
    record {
      identity_stable = identity_stable;
      before_ready = are_ready before;
      after_ready = are_ready after;
      restart_delta_count = restarts;
      warning_event_delta_count = warnings;
      warning_event_deltas_by_probe = counted (λ e. probe_name e.probe) deltas;
      warning_event_deltas_by_failure = counted (λ e. failure_name e.failure) deltas;
      warning_affected_pods = sort_by codes (affected_pods deltas);
      health_slo_pass =
          identity_stable
          && are_ready before
          && are_ready after
          && restarts ==ℤ pos 0
          && warnings ==ℤ pos 0;
      pods = pods;
      warning_event_deltas = deltas;
    }

unfoldable pub summarize :
    (before_pods after_pods : List PodItem) (before_events after_events : List EventItem)
    → HealthSummary
summarize before_pods after_pods before_events after_events =
    let before = pod_state before_pods in
    let after = pod_state after_pods in
    summary_of before after (warning_counts before_events (keys_of before))
      (warning_counts after_events (keys_of after))
