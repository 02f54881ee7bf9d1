-- ===== src/Topology/Gate/Nodes.antt =====
-- hack/arena-sc-topology-preflight.py: the loop of `validate_snapshot` over the nodes.
use llm_d_sc_benchmark.Prelude.{
  ℕ, String, Bool, true, false, not, ◌&&◌, Option, none, some, List, [], ◌∷◌, ◌++◌, map, Result, ok,
  err, ◌>>=◌, ◌>>◌, require, ◌==◌, if◌then◌else◌, keep, any,
}
use text.Mathlib.Text.{◌==◌ as str_eq}
use llm_d_sc_benchmark.Prelude.Decimal.{codes, text_eq}
use llm_d_sc_benchmark.Prelude.Json.{Json, str, arr, obj, cons, Fields, end, field, get, items}
use llm_d_sc_benchmark.Prelude.Floats.{Floats}
use llm_d_sc_benchmark.Prelude.Truth.{is_truthy}
use llm_d_sc_benchmark.Topology.CpuList.{
  CpuListError, empty_cpu_list, too_many_digits, parse_cpu_list,
}
use llm_d_sc_benchmark.Topology.Gate.CpuSets.{is_subset, minus, meet, is_empty, union, group_set}

-- The exceptions inside the two loops, which handle all of them but the `ValueError` for too many digits.
pub data Fault : Type 0 where
  evidence : CpuListError → Fault
  missing_key : String → Fault
  type_error : Fault
  reserved_offline no_groups : Fault
  offline_group : List ℕ → Fault
  inconsistent_groups : ℕ → Fault
  omits_online : List ℕ → Fault
  unnamed duplicate not_ready no_topology : Fault
  offline_cpus lacks_topology : List ℕ → Fault
  key_error : ℕ → Fault

pub record Node : Type 0 where
  pub online : List ℕ
  pub reserved : List ℕ
  pub groups : List (List ℕ)
  pub cpu_to_group : List (ℕ × List ℕ)

-- A `violation` that only warns.
pub data Warning : Type 0 where
  housekeeping_set_splits_smt_cores : (reserved unsafe : List ℕ) → Warning
  non_authoritative_topology : Warning

pub record Checked : Type 0 where
  pub node : Node
  pub warnings : List Warning
  pub authoritative : Bool

-- `cpu_to_group.get(cpu)`
unfoldable pub group_of : List (ℕ × List ℕ) → ℕ → Option (List ℕ)
group_of [] cpu = none
group_of ((c, group) ∷ rest) cpu = if cpu == c then some group else group_of rest cpu

from_evidence : {A : Type 0} → Result CpuListError A → Result Fault A
from_evidence (ok a) = ok a
from_evidence (err e) = err (evidence e)

unfoldable pub agrees : Option (List ℕ) → List ℕ → Bool
agrees none group = true
agrees (some previous) group = text_eq previous group

-- The loop over the CPUs of a group.
unfoldable pub add_cpus : List ℕ → List ℕ → List (ℕ × List ℕ) → Result Fault (List (ℕ × List ℕ))
add_cpus group [] known = ok known
add_cpus group (cpu ∷ cpus) known = do
  require (agrees (group_of known cpu) group) (inconsistent_groups cpu)
  add_cpus group cpus ((cpu, group) ∷ known)

-- The loop over the groups.
unfoldable pub add_groups :
    List ℕ → List (List ℕ) → List (ℕ × List ℕ) → Result Fault (List (ℕ × List ℕ))
add_groups online [] known = ok known
add_groups online (group ∷ groups) known = do
  require (is_subset group online) (offline_group group)
  known' ← add_cpus group group known
  add_groups online groups known'

-- `set(cpu_to_group)`, for the difference from the right
unfoldable pub without_keys : List ℕ → List (ℕ × List ℕ) → List ℕ
without_keys cpus known = keep (λ a. not (any (λ e. a == e.0) known)) cpus

-- The groups with a housekeeping CPU that are not made of such.
unfoldable pub split_groups : List (List ℕ) → List ℕ → List (List ℕ)
split_groups groups reserved =
    group_set (keep (λ g. not (is_empty (meet g reserved)) && not (is_subset g reserved)) groups)

unfoldable pub split_warnings : List (List ℕ) → List ℕ → List Warning
split_warnings split reserved =
    if is_empty split
    then []
    else housekeeping_set_splits_smt_cores reserved (union (map (λ g. minus g reserved) split)) ∷ []

unfoldable pub warnings_of : Bool → List (List ℕ) → List ℕ → List Warning
warnings_of authoritative groups reserved =
    split_warnings (split_groups groups reserved) reserved
    ++ (if authoritative then [] else non_authoritative_topology ∷ [])

module _ {F : Type 0} where
  -- `value[key]`
  unfoldable pub index : Json F → String → Result Fault (Json F)
  index (obj fields) key = elim (get fields key) [
    | none ↦ err (missing_key key)
    | some value ↦ ok value
  ]
  index _ key = err type_error

  -- `parse_cpu_list(value)`
  unfoldable pub cpus_of : Json F → Result Fault (List ℕ)
  unfolding from_evidence
  cpus_of (str s) = from_evidence (parse_cpu_list (codes s))
  cpus_of _ = err (evidence empty_cpu_list)

  unfoldable pub parse_groups : List (Json F) → Result Fault (List (List ℕ))
  parse_groups [] = ok []
  parse_groups (raw ∷ raws) = do
    group ← cpus_of raw
    groups ← parse_groups raws
    ok (group ∷ groups)

  -- `raw_groups`, a list that is not empty
  unfoldable pub group_list : Json F → Result Fault (List (Json F))
  group_list (arr (cons value rest)) = ok (value ∷ items rest)
  group_list _ = err no_groups

module _ {F : Type 0} ⦃fl : Floats F⦄ where
  -- `raw_node.get("topology_authoritative", False)`
  unfoldable pub is_authoritative : Json F → Bool
  is_authoritative (obj fields) = elim (get fields "topology_authoritative") [
    | none ↦ false
    | some value ↦ is_truthy value
  ]
  is_authoritative _ = false

  -- A pass through the loop over the nodes.
  unfoldable pub check_node : Json F → Result Fault Checked
  check_node raw = do
    online ← cpus_of (← index raw "online_cpus")
    reserved ← cpus_of (← index raw "reserved_cpus")
    require (is_subset reserved online) reserved_offline
    raw_groups ← group_list (← index raw "thread_sibling_groups")
    groups ← parse_groups raw_groups
    known ← add_groups online groups []
    require (is_empty (without_keys online known)) (omits_online (without_keys online known))
    ok (record {
      node = record { online = online; reserved = reserved; groups = groups; cpu_to_group = known };
      warnings = warnings_of (is_authoritative raw) groups reserved;
      authoritative = is_authoritative raw;
    })

  -- The outcomes of the nodes, in the order of the object.
  unfoldable pub check_nodes : Fields F → List (String × Result Fault Checked)
  check_nodes end = []
  check_nodes (field name raw rest) = (name, check_node raw) ∷ check_nodes rest

-- `node_state`: the nodes that passed.
unfoldable pub node_states : List (String × Result Fault Checked) → List (String × Node)
node_states [] = []
node_states ((name, ok c) ∷ rest) = (name, c.node) ∷ node_states rest
node_states ((name, err e) ∷ rest) = node_states rest

unfoldable pub find_node : List (String × Node) → String → Option Node
find_node [] name = none
find_node ((n, node) ∷ rest) name = if str_eq n name then some node else find_node rest name

unfoldable pub is_value_error : {A : Type 0} → Result Fault A → Bool
is_value_error (err (evidence too_many_digits)) = true
is_value_error _ = false

-- The outcomes of a loop whose handlers let a `ValueError` through.
unfoldable pub handled : {K A : Type 0} → List (K × Result Fault A) → Result Fault (Unit {0})
handled outcomes = require (not (any (λ o. is_value_error o.1) outcomes)) (evidence too_many_digits)
