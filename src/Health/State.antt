-- ===== src/Health/State.antt =====
-- hack/arena-sc-transport-health-summarize.py: `pod_state`, at the schema of the API: a field that is missing
-- is `none`.
use llm_d_sc_benchmark.Prelude.{
  String, Bool, true, false, ◌&&◌, Option, none, some, List, [], ◌∷◌, map, ℤ, pos, sum_ℤ,
  if◌then◌else◌, any,
}
use text.Mathlib.Text.{◌==◌ as str_eq}
use llm_d_sc_benchmark.Prelude.Dict.{put}

pub record Condition : Type 0 where
  pub kind : Option String
  pub status : Option String

-- An entry of "items" of the pods.
pub record PodItem : Type 0 where
  pub name : Option String
  pub uid : Option String
  pub pod_ip : Option String
  pub node : Option String
  pub conditions : List Condition
  -- "restartCount" of each entry of "containerStatuses"
  pub restart_counts : List (Option ℤ)

pub record PodState : Type 0 where
  pub uid : Option String
  pub pod_ip : Option String
  pub node : Option String
  pub ready : Bool
  pub restart_count : ℤ

-- A text that is there and is not empty.
unfoldable pub filled : Option String → Option String
filled none = none
filled (some s) = if str_eq s "" then none else some s

-- `value == text`
unfoldable pub is_text : Option String → String → Bool
is_text none text = false
is_text (some s) text = str_eq s text

-- `a == b` of two fields
unfoldable pub same_field : Option String → Option String → Bool
same_field none none = true
same_field none (some t) = false
same_field (some s) none = false
same_field (some s) (some t) = str_eq s t

unfoldable pub or_else : Option ℤ → ℤ → ℤ
or_else none default = default
or_else (some n) default = n

abbrev pub is_ready : List Condition → Bool
is_ready conditions = any (λ c. is_text c.kind "Ready" && is_text c.status "True") conditions

unfoldable pub state_of : PodItem → PodState
state_of pod = record {
  uid = pod.uid;
  pod_ip = pod.pod_ip;
  node = pod.node;
  ready = is_ready pod.conditions;
  restart_count = sum_ℤ (map (λ n. or_else n (pos 0)) pod.restart_counts);
}

-- The loop of `pod_state`, from the rows so far.
unfoldable pub add_states : List (String × PodState) → List PodItem → List (String × PodState)
add_states rows [] = rows
add_states rows (pod ∷ pods) = elim (filled pod.name) [
  | none ↦ add_states rows pods
  | some name ↦ add_states (put rows name (state_of pod)) pods
]

unfoldable pub pod_state : List PodItem → List (String × PodState)
pod_state pods = add_states [] pods
