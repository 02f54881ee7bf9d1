-- ===== src/Topology/Gate/Verdict.antt =====
-- hack/arena-sc-topology-preflight.py: `validate_snapshot` and its verdict.
use llm_d_sc_benchmark.Prelude.{
  ℕ, String, Bool, true, false, ◌&&◌, Option, some, List, [], ◌∷◌, ◌++◌, map, pos_part, neg_part,
  Result, ok, err, ◌>>=◌, ◌>>◌, ◌==◌, if◌then◌else◌, length,
}
use llm_d_sc_benchmark.Prelude.Json.{
  Json, bool, int, float, arr, obj, Fields, end, field, get, items,
}
use llm_d_sc_benchmark.Prelude.Floats.{Floats}
use llm_d_sc_benchmark.Topology.Gate.CpuSets.{is_empty}
use llm_d_sc_benchmark.Topology.Gate.Nodes.{
  Fault, Warning, Checked, check_nodes, node_states, handled,
}
use llm_d_sc_benchmark.Topology.Gate.Pods.{Violation, Placed, check_pods, placed_pods}
use llm_d_sc_benchmark.Topology.Gate.Pairs.{check_pairs}

pub data Verdict : Type 0 where
  pass fail invalid : Verdict

-- An entry of "invalid_reasons".
pub data Reason : Type 0 where
  unsupported_schema no_nodes no_pods : Reason
  node_fault : String → Fault → Reason
  pod_fault : Option String → Fault → Reason

pub record Report : Type 0 where
  pub verdict : Verdict
  pub placement_verdict : Verdict
  pub gate_passed : Bool
  pub exit_code : ℕ
  pub node_count : ℕ
  pub pod_count : ℕ
  pub invalid_reasons : List Reason
  -- the nodes whose topology is inferred
  pub ineligible_nodes : List String
  pub warnings : List (String × Warning)
  pub violations : List Violation
  pub pods : List Placed

unfoldable pub node_reasons : List (String × Result Fault Checked) → List Reason
node_reasons [] = []
node_reasons ((name, ok c) ∷ rest) = node_reasons rest
node_reasons ((name, err e) ∷ rest) = node_fault name e ∷ node_reasons rest

unfoldable pub ineligible : List (String × Result Fault Checked) → List String
ineligible [] = []
ineligible ((name, ok c) ∷ rest) =
    if c.authoritative then ineligible rest else name ∷ ineligible rest
ineligible ((name, err e) ∷ rest) = ineligible rest

unfoldable pub node_warnings : List (String × Result Fault Checked) → List (String × Warning)
node_warnings [] = []
node_warnings ((name, ok c) ∷ rest) = map (λ w. (name, w)) c.warnings ++ node_warnings rest
node_warnings ((name, err e) ∷ rest) = node_warnings rest

unfoldable pub pod_reasons : List (Option String × Result Fault Placed) → List Reason
pod_reasons [] = []
pod_reasons ((pod, ok p) ∷ rest) = pod_reasons rest
pod_reasons ((pod, err e) ∷ rest) = pod_fault pod e ∷ pod_reasons rest

unfoldable pub pod_violations_of : List Placed → List Violation
pod_violations_of [] = []
pod_violations_of (p ∷ rest) = p.violations ++ pod_violations_of rest

-- The verdict on the placement, and that on the gate, which also wants every topology to be authoritative.
unfoldable pub placement_verdict_of : List Reason → List Violation → Verdict
placement_verdict_of (r ∷ rs) violations = invalid
placement_verdict_of [] (v ∷ vs) = fail
placement_verdict_of [] [] = pass

unfoldable pub verdict_of : List Reason → List Violation → List String → Verdict
verdict_of (r ∷ rs) violations names = invalid
verdict_of [] (v ∷ vs) names = fail
verdict_of [] [] (n ∷ ns) = invalid
verdict_of [] [] [] = pass

unfoldable pub exit_code_of : Verdict → ℕ
exit_code_of pass = 0
exit_code_of fail = 1
exit_code_of invalid = 2

unfoldable pub is_pass : Verdict → Bool
is_pass pass = true
is_pass fail = false
is_pass invalid = false

unfoldable pub make_report :
    List Reason → List (String × Result Fault Checked) → List Placed → ℕ → List Violation → Report
make_report reasons nodes placed pod_count violations =
    let verdict : Verdict = verdict_of reasons violations (ineligible nodes) in
    record {
      verdict = verdict;
      placement_verdict = placement_verdict_of reasons violations;
      gate_passed = is_pass verdict;
      exit_code = exit_code_of verdict;
      node_count = length nodes;
      pod_count = pod_count;
      invalid_reasons = reasons;
      ineligible_nodes = ineligible nodes;
      warnings = node_warnings nodes;
      violations = violations;
      pods = placed;
    }

module _ {F : Type 0} ⦃fl : Floats F⦄ where
  -- `value == 1`, also of a Boolean and of a float
  unfoldable pub is_one : Option (Json F) → Bool
  is_one (some (int n)) = pos_part n == 1 && neg_part n == 0
  is_one (some (bool b)) = b
  is_one (some (float x)) = fl.eq x (fl.decimal 1 0)
  is_one _ = false

  unfoldable pub raw_nodes : Option (Json F) → Fields F
  raw_nodes (some (obj fields)) = fields
  raw_nodes _ = end

  unfoldable pub raw_pods : Option (Json F) → List (Json F)
  raw_pods (some (arr values)) = items values
  raw_pods _ = []

  unfoldable pub has_fields : Fields F → Bool
  has_fields end = false
  has_fields (field name value rest) = true

  -- The reasons that stand before the loops.
  unfoldable pub snapshot_reasons : Fields F → List Reason
  snapshot_reasons snapshot =
      (if is_one (get snapshot "schema_version") then [] else unsupported_schema ∷ [])
      ++ ((if has_fields (raw_nodes (get snapshot "nodes")) then [] else no_nodes ∷ [])
          ++ (if is_empty (raw_pods (get snapshot "pods")) then no_pods ∷ [] else []))

  unfoldable pub validate_snapshot : Fields F → Result Fault Report
  validate_snapshot snapshot = do
    let nodes = check_nodes (raw_nodes (get snapshot "nodes"))
    handled nodes
    let pods = check_pods (node_states nodes) [] (raw_pods (get snapshot "pods"))
    handled pods
    pair_violations ← check_pairs (map (λ p. p.placement) (placed_pods pods))
    ok (
        make_report (snapshot_reasons snapshot ++ (node_reasons nodes ++ pod_reasons pods)) nodes
          (placed_pods pods) (length pods)
          (pod_violations_of (placed_pods pods) ++ pair_violations))
