-- ===== src/Health/Events.antt =====
-- hack/arena-sc-transport-health-summarize.py: `warning_counts`, at the schema of the API.
use llm_d_sc_benchmark.Prelude.{
  String, ◌&&◌, Option, none, some, List, [], ◌∷◌, ℤ, pos, if◌then◌else◌, any,
}
use text.Mathlib.Text.{◌==◌ as str_eq}
use llm_d_sc_benchmark.Prelude.Decimal.{codes}
use llm_d_sc_benchmark.Prelude.Texts.{starts_with, contains}
use llm_d_sc_benchmark.Prelude.Dict.{put}
use llm_d_sc_benchmark.Health.State.{filled, is_text, or_else}

-- An entry of "items" of the events; `pod` is the name of the object that it is about.
pub record EventItem : Type 0 where
  pub kind : Option String
  pub pod : Option String
  pub uid : Option String
  pub name : Option String
  pub message : Option String
  pub count : Option ℤ
  pub reason : Option String
  pub first_timestamp : Option String
  pub last_timestamp : Option String
  pub event_time : Option String

pub data Probe : Type 0 where
  readiness liveness other_probe : Probe

pub data Failure : Type 0 where
  timeout connection_refused other_failure : Failure

pub record Warning : Type 0 where
  pub count : ℤ
  pub pod : String
  pub reason : Option String
  pub probe : Probe
  pub failure : Failure
  pub message : String
  pub first_timestamp : Option String
  pub last_timestamp : Option String

unfoldable pub probe_of : String → Probe
probe_of message =
    if starts_with (codes message) (codes "Readiness probe failed")
    then readiness
    else if starts_with (codes message) (codes "Liveness probe failed")
    then liveness
    else other_probe

unfoldable pub failure_of : String → Failure
failure_of message =
    if contains (codes message) (codes "i/o timeout")
    then timeout
    else if contains (codes message) (codes "connection refused")
    then connection_refused
    else other_failure

-- `event.get(first) or event.get(second)`
unfoldable pub first_filled : Option String → Option String → Option String
first_filled first second = elim (filled first) [ none ↦ second | some s ↦ some s ]

-- `event.get("message", "")`
unfoldable pub message_of : Option String → String
message_of none = ""
message_of (some s) = s

unfoldable pub warning_of : String → EventItem → Warning
warning_of pod event = record {
  count = or_else event.count (pos 1);
  pod = pod;
  reason = event.reason;
  probe = probe_of (message_of event.message);
  failure = failure_of (message_of event.message);
  message = message_of event.message;
  first_timestamp = first_filled event.first_timestamp event.event_time;
  last_timestamp = first_filled event.last_timestamp event.event_time;
}

-- The key of a warning about a target, with the target.
unfoldable pub key_of : List String → EventItem → Option (String × String)
key_of target_names event = elim event.pod [
  | none ↦ none
  | some pod ↦
      if is_text event.kind "Warning" && any (str_eq pod) target_names
      then elim (filled (first_filled event.uid event.name)) [
        | none ↦ none
        | some key ↦ some (key, pod)
      ]
      else none
]

unfoldable pub add_warnings :
    List String → List (String × Warning) → List EventItem → List (String × Warning)
add_warnings target_names rows [] = rows
add_warnings target_names rows (event ∷ events) = elim (key_of target_names event) [
  | none ↦ add_warnings target_names rows events
  | some found ↦ add_warnings target_names (put rows found.0 (warning_of found.1 event)) events
]

unfoldable pub warning_counts : List EventItem → List String → List (String × Warning)
warning_counts events target_names = add_warnings target_names [] events
