-- ===== src/Capacity/Evaluate.antt =====
-- hack/arena-sc-horizontal-scale-preflight.py: `evaluate` and the exit code of `main`.
use llm_d_sc_benchmark.Prelude.{
  ℕ, String, Bool, not, ◌&&◌, Option, List, [], ◌∷◌, Result, ok, err, ◌>>=◌, ◌>>◌, require, ◌==◌,
  if◌then◌else◌, any, all,
}
use llm_d_sc_benchmark.Prelude.Decimal.{Text}
use llm_d_sc_benchmark.Prelude.Json.{Json, arr, nil}
use llm_d_sc_benchmark.Prelude.Floats.{Floats}
use llm_d_sc_benchmark.Capacity.Quantities.{
  CapacityError, bad_rung, unsupported_cpu, unsupported_memory, not_integral, overflow_error,
  attribute_error, type_error,
}
use llm_d_sc_benchmark.Capacity.Snapshot.{lookup_or, elements, listing}
use llm_d_sc_benchmark.Capacity.Requests.{usage_from}
use llm_d_sc_benchmark.Capacity.Quota.{QuotaRow, quotas_of, quota_rows, is_empty}
use llm_d_sc_benchmark.Capacity.Nodes.{
  NodeRow, node_names, node_additions, node_passed, named_nodes, node_rows,
}
use llm_d_sc_benchmark.Capacity.Volume.{VolumeGate, volume_gate}

pub record Report (F : Type 0) : Type 0 where
  pub rung_replicas : ℕ
  pub active_namespace_pods_before : ℕ
  -- the three gates, each with its rows
  pub quotas : List (QuotaRow F)
  pub quota_pass : Bool
  pub nodes : List NodeRow
  pub node_pass : Bool
  pub volume : VolumeGate F
  pub load_authorized : Bool

module _ {F : Type 0} ⦃fl : Floats F⦄ (repr : F → Text) (parse_float : Text → Option F) where
  -- The three gates, of the quotas, the pods and the nodes by their names.
  unfoldable pub gates :
      (quotas all_pods : Json F) (node_items : List (Option (Json F) × Json F)) (pvc : Json F)
      (replicas : ℕ) (namespace target_node driver_node claim_name : String)
      → Result CapacityError (Report F)
  gates quotas all_pods node_items pvc replicas namespace target_node driver_node claim_name = do
    quota_rows ← quota_rows repr parse_float replicas (← elements quotas)
    usage ←
        usage_from repr parse_float namespace (record { active_namespaced = 0; requested = [] })
          (← elements all_pods)
    node_rows ←
        node_rows repr parse_float node_items usage.requested
          (node_additions target_node driver_node replicas) (node_names target_node driver_node)
    volume ← volume_gate pvc (← elements all_pods) namespace target_node claim_name
    let quota_pass = not (is_empty quota_rows) && all (λ r. r.passed) quota_rows
    let node_pass = all node_passed node_rows
    ok (record {
      rung_replicas = replicas;
      active_namespace_pods_before = usage.active_namespaced;
      quotas = quota_rows;
      quota_pass = quota_pass;
      nodes = node_rows;
      node_pass = node_pass;
      volume = volume;
      load_authorized = quota_pass && node_pass && volume.passed;
    })

  unfoldable pub evaluate :
      (resourcequotas pods nodes pvc : Json F) (replicas : ℕ)
      (namespace target_node driver_node claim_name : String)
      → Result CapacityError (Report F)
  evaluate resourcequotas pods nodes pvc replicas namespace target_node driver_node claim_name = do
    require (any (λ r. replicas == r) (20 ∷ 30 ∷ 40 ∷ 50 ∷ [])) bad_rung
    quotas ← quotas_of resourcequotas
    all_pods ← lookup_or pods "items" (arr nil)
    node_items ← named_nodes (← listing nodes "items")
    gates quotas all_pods node_items pvc replicas namespace target_node driver_node claim_name

-- `main`, where 1 is the code of an exception that it does not handle.
unfoldable pub exit_code : {F : Type 0} → Result CapacityError (Report F) → ℕ
exit_code (ok report) = if report.load_authorized then 0 else 3
exit_code (err attribute_error) = 1
exit_code (err overflow_error) = 1
exit_code (err unsupported_cpu) = 2
exit_code (err unsupported_memory) = 2
exit_code (err not_integral) = 2
exit_code (err bad_rung) = 2
exit_code (err type_error) = 2
