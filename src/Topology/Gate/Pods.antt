-- ===== src/Topology/Gate/Pods.antt =====
-- hack/arena-sc-topology-preflight.py: the loop of `validate_snapshot` over the pods.
use llm_d_sc_benchmark.Prelude.{
  ℕ, String, Bool, false, not, Option, none, some, List, [], ◌∷◌, ◌++◌, map, Result, ok, err, ◌>>=◌,
  ◌>>◌, require, if◌then◌else◌, keep, any,
}
use text.Mathlib.Text.{◌==◌ as str_eq}
use llm_d_sc_benchmark.Prelude.Json.{Json, bool, str, arr, obj, get}
use llm_d_sc_benchmark.Topology.Gate.CpuSets.{is_subset, minus, meet, is_empty, union, group_set}
use llm_d_sc_benchmark.Topology.Gate.Nodes.{
  Fault, type_error, unnamed, duplicate, not_ready, no_topology, offline_cpus, lacks_topology,
  key_error, Node, group_of, without_keys, cpus_of, index, find_node,
}

-- The entries of "violations", of a pod and of two pods of one node.
pub data Violation : Type 0 where
  incomplete_smt_sibling_set :
      (pod : String) (cpuset : List ℕ) (groups : List (List ℕ)) (missing : List ℕ) → Violation
  housekeeping_cpu_overlap : (pod : String) (cpus : List ℕ) → Violation
  housekeeping_core_shared : (pod : String) (groups : List (List ℕ)) (siblings : List ℕ) → Violation
  target_cpu_overlap : (node left right : String) (cpus : List ℕ) → Violation
  target_core_shared : (node left right : String) (groups : List (List ℕ)) → Violation

-- An entry of `parsed_pods`, with the node's state.
pub record Placement : Type 0 where
  pub name : String
  pub node_name : String
  pub cpuset : List ℕ
  pub state : Node

pub record Placed : Type 0 where
  pub placement : Placement
  pub complete : Bool
  pub overlap : List ℕ
  pub shared : Bool
  pub violations : List Violation

-- `{cpu_to_group[cpu] for cpu in cpus}`, as a list
unfoldable pub groups_of : List (ℕ × List ℕ) → List ℕ → Result Fault (List (List ℕ))
groups_of known [] = ok []
groups_of known (cpu ∷ cpus) = elim (group_of known cpu) [
  | none ↦ err (key_error cpu)
  | some group ↦ do rest ← groups_of known cpus; ok (group ∷ rest)
]

unfoldable pub incomplete_groups : List (List ℕ) → List ℕ → List (List ℕ)
incomplete_groups touched cpuset = group_set (keep (λ g. not (is_subset g cpuset)) touched)

unfoldable pub shared_groups : List (List ℕ) → List ℕ → List (List ℕ)
shared_groups touched reserved = group_set (keep (λ g. not (is_empty (meet g reserved))) touched)

-- `if found: pod_violations.append(violation)`
unfoldable pub violation_if : {A : Type 0} → List A → Violation → List Violation
violation_if [] violation = []
violation_if (a ∷ found) violation = violation ∷ []

unfoldable pub pod_violations : String → List ℕ → Node → List (List ℕ) → List Violation
pod_violations pod cpuset state touched =
    let incomplete = incomplete_groups touched cpuset in
    let direct = meet cpuset state.reserved in
    let shared = shared_groups touched state.reserved in
    violation_if incomplete (
      incomplete_smt_sibling_set pod cpuset incomplete
        (union (map (λ g. minus g cpuset) incomplete)))
    ++ (violation_if direct (housekeeping_cpu_overlap pod direct)
        ++ violation_if shared
            (housekeeping_core_shared pod shared (union (map (λ g. meet g state.reserved) shared))))

-- The tests of the cpuset against the node's topology.
unfoldable pub place_pod : String → String → Node → List ℕ → Result Fault Placed
place_pod pod node_name state cpuset = do
  require (is_empty (minus cpuset state.online)) (offline_cpus (minus cpuset state.online))
  require (is_empty (without_keys cpuset state.cpu_to_group))
      (lacks_topology (without_keys cpuset state.cpu_to_group))
  touched ← groups_of state.cpu_to_group cpuset
  ok (record {
    placement = record { name = pod; node_name = node_name; cpuset = cpuset; state = state };
    complete = is_empty (incomplete_groups touched cpuset);
    overlap = meet cpuset state.reserved;
    shared = not (is_empty (shared_groups touched state.reserved));
    violations = pod_violations pod cpuset state touched;
  })

module _ {F : Type 0} where
  -- `name`, where it is a string that is not empty
  unfoldable pub pod_name : Json F → Option String
  pod_name (obj fields) = elim (get fields "name") [
    | some (str s) ↦ if str_eq s "" then none else some s
    | _ ↦ none
  ]
  pod_name _ = none

  -- `raw_pod.get("ready") is True`
  unfoldable pub is_ready : Json F → Bool
  is_ready (obj fields) = elim (get fields "ready") [ some (bool b) ↦ b | _ ↦ false ]
  is_ready _ = false

  -- `node_state[node_name]`. A list or an object has no hash and cannot be looked up.
  unfoldable pub pod_node : List (String × Node) → Json F → Result Fault (String × Node)
  pod_node states (obj fields) = elim (get fields "node") [
    | some (str s) ↦ elim (find_node states s) [ none ↦ err no_topology | some node ↦ ok (s, node) ]
    | some (arr values) ↦ err type_error
    | some (obj values) ↦ err type_error
    | _ ↦ err no_topology
  ]
  pod_node states _ = err no_topology

  -- A pass through the loop over the pods, behind the tests of the name.
  unfoldable pub check_pod : List (String × Node) → String → Json F → Result Fault Placed
  check_pod states pod raw = do
    require (is_ready raw) not_ready
    node ← pod_node states raw
    cpuset ← cpus_of (← index raw "cpuset")
    place_pod pod node.0 node.1 cpuset

  -- The outcomes of the pods, under the names that were seen before; a name counts from its first pod on.
  unfoldable pub check_pods :
      List (String × Node)
      → List String
      → List (Json F)
      → List (Option String × Result Fault Placed)
  check_pods states seen [] = []
  check_pods states seen (raw ∷ raws) = elim (pod_name raw) [
    | none ↦ (none, err unnamed) ∷ check_pods states seen raws
    | some pod ↦
        (some pod, if any (str_eq pod) seen then err duplicate else check_pod states pod raw)
        ∷ check_pods states (pod ∷ seen) raws
  ]

-- `parsed_pods`, and the reports.
unfoldable pub placed_pods : List (Option String × Result Fault Placed) → List Placed
placed_pods [] = []
placed_pods ((pod, ok p) ∷ rest) = p ∷ placed_pods rest
placed_pods ((pod, err e) ∷ rest) = placed_pods rest
