-- ===== src/Tests/GateTests.antt =====
-- Witnesses for the gate of hack/arena-sc-topology-preflight.py: two pods on a node of four cores.
use llm_d_sc_benchmark.Prelude.{
  String, ◌≡◌, refl, ◌⊎◌, Bool, true, false, [], ◌∷◌, ℤ, Result, ok, err, ◌==◌,
}
use llm_d_sc_benchmark.Prelude.Json.{Json, str, arr, Fields, get, items}
use llm_d_sc_benchmark.Prelude.Decimal.{text_eq}
use llm_d_sc_benchmark.Prelude.Truth.{is_truthy}
use llm_d_sc_benchmark.Topology.CpuList.Sets.{insert, insert_all}
use llm_d_sc_benchmark.Topology.CpuList.Texts.{
  is_space, lstrip, put_unless_blank, rstrip, strip, put_first, split, split_once, is_digits,
}
use llm_d_sc_benchmark.Topology.CpuList.{
  too_many_digits, to_int, parse_token, add_range, parse_tokens, parse_cpu_list,
}
use llm_d_sc_benchmark.Topology.Gate.CpuSets.{
  is_subset, minus, meet, is_empty, union, first_cpu, has_group, insert_group, group_set,
}
use llm_d_sc_benchmark.Topology.Gate.Nodes.{
  Fault, Checked, group_of, agrees, add_cpus, add_groups, without_keys, split_groups,
  split_warnings, warnings_of, index, cpus_of, parse_groups, group_list, is_authoritative,
  check_node, check_nodes, node_states, find_node, is_value_error, handled, evidence,
}
use llm_d_sc_benchmark.Topology.Gate.Pods.{
  groups_of, incomplete_groups, shared_groups, violation_if, pod_violations, place_pod, pod_name,
  is_ready, pod_node, check_pod, check_pods, placed_pods,
}
use llm_d_sc_benchmark.Topology.Gate.Pairs.{
  common_groups, overlap_violations, core_violations, against, check_pairs,
}
use llm_d_sc_benchmark.Topology.Gate.Verdict.{
  Report, node_reasons, ineligible, node_warnings, pod_reasons, pod_violations_of,
  placement_verdict_of, verdict_of, exit_code_of, is_pass, make_report, is_one, raw_nodes, raw_pods,
  has_fields, snapshot_reasons, validate_snapshot,
}
use llm_d_sc_benchmark.Topology.Gate.Total.{has_value_error, validate_snapshot_total}
use llm_d_sc_benchmark.Topology.Gate.Partition.{IsPartitioned, check_node-IsPartitioned}
use llm_d_sc_benchmark.Tests.Input.{fixed_point, fields_of, object, items_of, number, yes}

abbrev node : Json ℤ
node = object (
    ("online_cpus", str "0-7")
    ∷ ("reserved_cpus", str "0,4")
    ∷ ("thread_sibling_groups", arr (items_of (str "0,4" ∷ str "1,5" ∷ str "2,6" ∷ str "3,7" ∷ [])))
    ∷ ("topology_authoritative", yes)
    ∷ [])

abbrev pod : String → String → Json ℤ
pod name cpuset =
    object
      (("name", str name) ∷ ("node", str "gnr2") ∷ ("ready", yes) ∷ ("cpuset", str cpuset) ∷ [])

abbrev snapshot : Fields ℤ
snapshot = fields_of (
    ("schema_version", number 1)
    ∷ ("nodes", object (("gnr2", node) ∷ []))
    ∷ ("pods", arr (items_of (pod "target-0" "1,5" ∷ pod "target-1" "2-3,6-7" ∷ [])))
    ∷ [])

abbrev exits_zero : Result Fault Report → Bool
exits_zero (ok report) = report.exit_code == 0
exits_zero (err e) = false

validate_snapshot_total_example :
    ((has_value_error snapshot ≡ false)
      × (report : Report) × (validate_snapshot snapshot ≡ ok report))
    ⊎ ((has_value_error snapshot ≡ true)
        × (validate_snapshot snapshot ≡ err (evidence too_many_digits)))
validate_snapshot_total_example = validate_snapshot_total snapshot

abbrev checked : Checked
checked = record {
  node = record {
    online = 0 ∷ 1 ∷ 2 ∷ 3 ∷ 4 ∷ 5 ∷ 6 ∷ 7 ∷ [];
    reserved = 0 ∷ 4 ∷ [];
    groups = (0 ∷ 4 ∷ []) ∷ (1 ∷ 5 ∷ []) ∷ (2 ∷ 6 ∷ []) ∷ (3 ∷ 7 ∷ []) ∷ [];
    cpu_to_group =
        (7, 3 ∷ 7 ∷ [])
        ∷ (3, 3 ∷ 7 ∷ [])
        ∷ (6, 2 ∷ 6 ∷ [])
        ∷ (2, 2 ∷ 6 ∷ [])
        ∷ (5, 1 ∷ 5 ∷ [])
        ∷ (1, 1 ∷ 5 ∷ [])
        ∷ (4, 0 ∷ 4 ∷ [])
        ∷ (0, 0 ∷ 4 ∷ [])
        ∷ [];
  };
  warnings = [];
  authoritative = true;
}

check_node_lem : check_node node ≡ ok checked
unfolding get items text_eq insert insert_all is_space lstrip put_unless_blank rstrip strip
    put_first split split_once is_digits to_int parse_token add_range parse_tokens parse_cpu_list
    is_subset minus meet is_empty union first_cpu has_group insert_group group_set group_of agrees
    add_cpus add_groups without_keys split_groups split_warnings warnings_of index cpus_of
    parse_groups group_list is_truthy is_authoritative check_node check_nodes node_states find_node
    is_value_error handled groups_of incomplete_groups shared_groups violation_if pod_violations
    place_pod pod_name is_ready pod_node check_pod check_pods placed_pods common_groups
    overlap_violations core_violations against check_pairs node_reasons ineligible node_warnings
    pod_reasons pod_violations_of placement_verdict_of verdict_of exit_code_of is_pass make_report
    is_one raw_nodes raw_pods has_fields snapshot_reasons validate_snapshot
check_node_lem = refl

check_node-IsPartitioned_example : IsPartitioned checked.node
check_node-IsPartitioned_example = check_node-IsPartitioned node checked check_node_lem
