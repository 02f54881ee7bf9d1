-- ===== src/Topology/Gate/Pairs.antt =====
-- hack/arena-sc-topology-preflight.py: the loop of `validate_snapshot` over the pairs of pods.
use llm_d_sc_benchmark.Prelude.{
  ℕ, true, false, List, [], ◌∷◌, ◌++◌, Result, ok, ◌>>=◌, if◌then◌else◌, keep,
}
use text.Mathlib.Text.{◌==◌ as str_eq}
use llm_d_sc_benchmark.Topology.Gate.CpuSets.{meet, is_empty, has_group, group_set}
use llm_d_sc_benchmark.Topology.Gate.Nodes.{Fault}
use llm_d_sc_benchmark.Topology.Gate.Pods.{
  Violation, target_cpu_overlap, target_core_shared, Placement, groups_of, violation_if,
}

-- The groups that both lists have.
unfoldable pub common_groups : List (List ℕ) → List (List ℕ) → List (List ℕ)
common_groups left right = group_set (keep (λ g. has_group g right) left)

unfoldable pub overlap_violations : Placement → Placement → List Violation
overlap_violations left right =
    violation_if (meet left.cpuset right.cpuset)
      (target_cpu_overlap left.node_name left.name right.name (meet left.cpuset right.cpuset))

unfoldable pub core_violations :
    Placement → Placement → List (List ℕ) → List (List ℕ) → List Violation
core_violations left right left_groups right_groups =
    if is_empty (meet left.cpuset right.cpuset)
    then violation_if (common_groups left_groups right_groups) (
        target_core_shared left.node_name left.name right.name
          (common_groups left_groups right_groups))
    else []

-- The inner loop. The groups of the right pod are looked up in the state of the left one's node.
unfoldable pub against : Placement → List (List ℕ) → List Placement → Result Fault (List Violation)
against left left_groups [] = ok []
against left left_groups (right ∷ rest) = elim (str_eq left.node_name right.node_name) [
  | false ↦ against left left_groups rest
  | true ↦ do
    right_groups ← groups_of left.state.cpu_to_group right.cpuset
    others ← against left left_groups rest
    ok (
        overlap_violations left right
        ++ (core_violations left right left_groups right_groups ++ others))
]

unfoldable pub check_pairs : List Placement → Result Fault (List Violation)
check_pairs [] = ok []
check_pairs (left ∷ rest) = do
  left_groups ← groups_of left.state.cpu_to_group left.cpuset
  here ← against left left_groups rest
  later ← check_pairs rest
  ok (here ++ later)
