-- ===== src/Tests/CapacityTests.antt =====
-- Witnesses for hack/arena-sc-horizontal-scale-preflight.py: a rung of 20 targets on two nodes.
use llm_d_sc_benchmark.Prelude.{
  ok, ◌^◌, ◌*◌, ◌<◌, ◌≡◌, refl, String, some, Option, List, [], ◌∷◌, ℤ, pos, arith,
}
use llm_d_sc_benchmark.Prelude.Json.{Json, str, arr, get, items}
use llm_d_sc_benchmark.Prelude.Truth.{is_truthy}
use llm_d_sc_benchmark.Prelude.Decimal.{decimal, text_eq, text_le}
use llm_d_sc_benchmark.Capacity.Quantities.{
  span_digits, read_fraction, read_quantity, multiplier, scaled, convert, text_of, filled,
  convert_value, cpu_millicores, memory_bytes, integral, scalar,
}
use llm_d_sc_benchmark.Capacity.Snapshot.{
  lookup, lookup_or, child, elements, listing, is_none, is_text, is_hashable, is_in, is_none_or,
  is_active,
}
use llm_d_sc_benchmark.Capacity.Requests.{
  plus, max, requested_by, count, container_requests, regular_requests, init_requests,
  overhead_requests, pod_scheduler_requests, scheduled, active_usage, pod_usage, usage_from,
}
use llm_d_sc_benchmark.Capacity.Quota.{
  required_quota_additions, is_empty, limited_row, check_set, has_name, set_has, resource_value,
  resource_row, resource_rows, quota_row, quota_rows, quotas_of,
}
use llm_d_sc_benchmark.Prelude.Dict.{put}
use llm_d_sc_benchmark.Prelude.Texts.{ends_with, starts_with, contains}
use llm_d_sc_benchmark.Capacity.Nodes.{
  target_addition, driver_addition, addition_of, node_additions, node_names, remaining, is_admitted,
  node_passed, named_nodes, find_node, is_ready, has_pressure, allocatable_of, evaluated_row,
  node_row, node_rows,
}
use llm_d_sc_benchmark.Capacity.Volume.{
  keys, set_of, is_str, is_number, is_null, is_sortable, has_volume, foreign_mount, active_mount,
  pod_mounts, foreign_mounts, volume_gate,
}
use llm_d_sc_benchmark.Capacity.Evaluate.{gates, evaluate, exit_code}
use llm_d_sc_benchmark.Plan.Document.{envelope}
use llm_d_sc_benchmark.Capacity.Additions.{
  mebibytes, additions-envelope, single-addition-lt-envelope,
}
use llm_d_sc_benchmark.Capacity.Requests.{Request}
use llm_d_sc_benchmark.Capacity.Bounds.{IsCovered, pod_scheduler_requests-covers}
use llm_d_sc_benchmark.Capacity.Authorized.{IsAuthorized, exit_zero-IsAuthorized}
use llm_d_sc_benchmark.Prelude.Decimal.{Text, value_from}
use llm_d_sc_benchmark.Tests.Input.{fixed_point, object, items_of}

abbrev repr : ℤ → Text
repr x = []

abbrev parse_float : Text → Option ℤ
parse_float s = some (pos (value_from 0 s * 1000))

abbrev list_of : List (Json ℤ) → Json ℤ
list_of values = object (("items", arr (items_of values)) ∷ [])

abbrev hard : Json ℤ
hard = object (
    ("pods", str "100")
    ∷ ("requests.cpu", str "100")
    ∷ ("requests.memory", str "200Gi")
    ∷ ("limits.cpu", str "200")
    ∷ ("limits.memory", str "300Gi")
    ∷ [])

abbrev used : Json ℤ
used =
    object (("pods", str "1") ∷ ("requests.cpu", str "500m") ∷ ("requests.memory", str "1Gi") ∷ [])

abbrev quota : Json ℤ
quota =
    object (
      ("kind", str "ResourceQuota")
      ∷ ("status", object (("hard", hard) ∷ ("used", used) ∷ []))
      ∷ [])

abbrev ready : Json ℤ
ready = object (("type", str "Ready") ∷ ("status", str "True") ∷ [])

abbrev node : String → Json ℤ
node name = object (
    ("metadata", object (("name", str name) ∷ []))
    ∷ (
      "status",
      object (
          (
            "allocatable",
            object (("cpu", str "256") ∷ ("memory", str "1024Gi") ∷ ("pods", str "250") ∷ []),
          )
          ∷ ("conditions", arr (items_of (ready ∷ [])))
          ∷ []),
    )
    ∷ [])

abbrev nodes : Json ℤ
nodes = list_of (node "gnr2" ∷ node "rhgnr1" ∷ [])

abbrev requests : Json ℤ
requests = object (("requests", object (("cpu", str "500m") ∷ ("memory", str "1Gi") ∷ [])) ∷ [])

abbrev pod : Json ℤ
pod = object (
    ("metadata", object (("name", str "other") ∷ ("namespace", str "bench") ∷ []))
    ∷ (
      "spec",
      object (
          ("nodeName", str "gnr2")
          ∷ ("containers", arr (items_of (object (("resources", requests) ∷ []) ∷ [])))
          ∷ []),
    )
    ∷ ("status", object (("phase", str "Running") ∷ []))
    ∷ [])

abbrev pods : Json ℤ
pods = list_of (pod ∷ [])

abbrev pvc : Json ℤ
pvc = object (
    ("metadata", object (("name", str "classifier-model") ∷ ("namespace", str "bench") ∷ []))
    ∷ ("status", object (("phase", str "Bound") ∷ []))
    ∷ ("spec", object (("accessModes", arr (items_of (str "ReadWriteOnce" ∷ []))) ∷ []))
    ∷ [])

exit_code_lem :
    exit_code
      (evaluate repr parse_float quota pods nodes pvc 20 "bench" "gnr2" "rhgnr1" "classifier-model")
    ≡ 0
unfolding get items is_truthy decimal text_eq text_le span_digits read_fraction read_quantity
    multiplier scaled convert text_of filled convert_value cpu_millicores memory_bytes integral
    scalar lookup lookup_or child elements listing is_none is_text is_hashable is_in is_none_or
    is_active plus max requested_by count container_requests regular_requests init_requests
    overhead_requests pod_scheduler_requests scheduled active_usage pod_usage usage_from ends_with
    starts_with contains is_empty limited_row check_set has_name set_has resource_value resource_row
    resource_rows quota_row quota_rows quotas_of target_addition driver_addition put addition_of
    node_additions node_names remaining is_admitted node_passed named_nodes find_node is_ready
    has_pressure allocatable_of evaluated_row node_row node_rows keys set_of is_str is_number
    is_null is_sortable has_volume foreign_mount active_mount pod_mounts foreign_mounts volume_gate
    gates evaluate exit_code
exit_code_lem = refl

exit_zero-IsAuthorized_example :
    IsAuthorized repr parse_float quota pods nodes pvc 20 "bench" "gnr2" "rhgnr1" "classifier-model"
exit_zero-IsAuthorized_example =
    exit_zero-IsAuthorized repr parse_float quota pods nodes pvc 20 "bench" "gnr2" "rhgnr1"
      "classifier-model" exit_code_lem refl

additions-envelope_example :
    (required_quota_additions 20 ≡ (
      ("pods", (envelope 20).peak_pods)
      ∷ ("requests.cpu", (envelope 20).requests.cpu_millicores)
      ∷ ("requests.memory", mebibytes (envelope 20).requests.memory_mib)
      ∷ ("limits.cpu", (envelope 20).limits.cpu_millicores)
      ∷ ("limits.memory", mebibytes (envelope 20).limits.memory_mib)
      ∷ []))
    × (plus
          (addition_of (node_additions "gnr2" "rhgnr1" 20) "gnr2")
          (addition_of (node_additions "gnr2" "rhgnr1" 20) "rhgnr1")
        ≡ record {
          cpu = (envelope 20).requests.cpu_millicores;
          memory = mebibytes (envelope 20).requests.memory_mib;
          pods = (envelope 20).peak_pods;
        })
additions-envelope_example = additions-envelope "gnr2" "rhgnr1" 20 refl

single-addition-lt-envelope_example :
    ((addition_of (node_additions "gnr2" "gnr2" 20) "gnr2").cpu
      < (envelope 20).requests.cpu_millicores)
    × ((addition_of (node_additions "gnr2" "gnr2" 20) "gnr2").memory
        < mebibytes (envelope 20).requests.memory_mib)
single-addition-lt-envelope_example = single-addition-lt-envelope "gnr2" 20 (omega arith)

abbrev pod_request : Request
pod_request = record { cpu = 500; memory = 2 ^ 30; pods = 1 }

pod_scheduler_requests_lem : pod_scheduler_requests repr parse_float pod ≡ ok pod_request
unfolding get items is_truthy decimal text_eq text_le span_digits read_fraction read_quantity
    multiplier scaled convert text_of filled convert_value cpu_millicores memory_bytes integral
    scalar lookup lookup_or child elements listing is_none is_text is_hashable is_in is_none_or
    is_active plus max requested_by count container_requests regular_requests init_requests
    overhead_requests pod_scheduler_requests scheduled active_usage pod_usage usage_from ends_with
    starts_with contains is_empty limited_row check_set has_name set_has resource_value resource_row
    resource_rows quota_row quota_rows quotas_of target_addition driver_addition put addition_of
    node_additions node_names remaining is_admitted node_passed named_nodes find_node is_ready
    has_pressure allocatable_of evaluated_row node_row node_rows keys set_of is_str is_number
    is_null is_sortable has_volume foreign_mount active_mount pod_mounts foreign_mounts volume_gate
    gates evaluate exit_code
pod_scheduler_requests_lem = refl

pod_scheduler_requests-covers_example : IsCovered repr parse_float pod pod_request
pod_scheduler_requests-covers_example =
    pod_scheduler_requests-covers repr parse_float pod pod_request pod_scheduler_requests_lem
