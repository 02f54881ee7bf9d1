-- ===== src/Capacity/Requests.antt =====
-- hack/arena-sc-horizontal-scale-preflight.py: `pod_scheduler_requests`, and the loop of `evaluate` that sums
-- the requests of the active pods per node.
use llm_d_sc_benchmark.Prelude.{
  ℕ, suc, ◌+◌, String, Bool, true, false, Option, none, some, List, [], ◌∷◌, ◌++◌, Result, ok,
  ◌>>=◌, ◌>>◌, require, if◌then◌else◌, leb,
}
use llm_d_sc_benchmark.Prelude.Decimal.{Text}
use llm_d_sc_benchmark.Prelude.Json.{Json}
use llm_d_sc_benchmark.Prelude.Floats.{Floats}
use llm_d_sc_benchmark.Prelude.Truth.{is_truthy}
use llm_d_sc_benchmark.Capacity.Quantities.{CapacityError, type_error, cpu_millicores, memory_bytes}
use llm_d_sc_benchmark.Capacity.Snapshot.{lookup, child, listing, is_text, is_hashable, is_active}

-- "cpu_millicores", "memory_bytes" and "pods"
pub record Request : Type 0 where
  pub cpu : ℕ
  pub memory : ℕ
  pub pods : ℕ

abbrev pub no_request : Request
no_request = record { cpu = 0; memory = 0; pods = 0 }

unfoldable pub plus : Request → Request → Request
plus a b = record { cpu = a.cpu + b.cpu; memory = a.memory + b.memory; pods = a.pods + b.pods }

unfoldable pub max : ℕ → ℕ → ℕ
max a b = if leb b a then a else b

-- The counts of the loop: the active pods of the namespace, and the requests with their nodes.
pub record Usage (F : Type 0) : Type 0 where
  pub active_namespaced : ℕ
  pub requested : List (Json F × Request)

-- `requested_by_node.get(node_name, {...})`
unfoldable pub requested_by : {F : Type 0} → List (Json F × Request) → String → Request
requested_by [] name = no_request
requested_by ((node, request) ∷ rest) name =
    let later = requested_by rest name in
    if is_text (some node) name then plus request later else later

unfoldable pub count : Bool → ℕ → ℕ
count true n = suc n
count false n = n

module _ {F : Type 0} ⦃fl : Floats F⦄ (repr : F → Text) (parse_float : Text → Option F) where
  -- The requests of a container.
  unfoldable pub container_requests : Json F → Result CapacityError (ℕ × ℕ)
  container_requests container = do
    resources ← child container "resources"
    requests ← child resources "requests"
    cpu ← cpu_millicores repr parse_float (← lookup requests "cpu")
    memory ← memory_bytes repr parse_float (← lookup requests "memory")
    ok (cpu, memory)

  unfoldable pub regular_requests : List (Json F) → Result CapacityError (ℕ × ℕ)
  regular_requests [] = ok (0, 0)
  regular_requests (container ∷ containers) = do
    (cpu, memory) ← container_requests container
    (regular_cpu, regular_memory) ← regular_requests containers
    ok (cpu + regular_cpu, memory + regular_memory)

  unfoldable pub init_requests : List (Json F) → Result CapacityError (ℕ × ℕ)
  init_requests [] = ok (0, 0)
  init_requests (container ∷ containers) = do
    (cpu, memory) ← container_requests container
    (init_cpu, init_memory) ← init_requests containers
    ok (max cpu init_cpu, max memory init_memory)

  -- The overhead of a pod.
  unfoldable pub overhead_requests : Json F → Result CapacityError (ℕ × ℕ)
  overhead_requests spec = do
    overhead ← child spec "overhead"
    cpu ← cpu_millicores repr parse_float (← lookup overhead "cpu")
    memory ← memory_bytes repr parse_float (← lookup overhead "memory")
    ok (cpu, memory)

  unfoldable pub pod_scheduler_requests : Json F → Result CapacityError Request
  pod_scheduler_requests pod = do
    spec ← child pod "spec"
    regular ← regular_requests (← listing spec "containers")
    init ← init_requests (← listing spec "initContainers")
    overhead ← overhead_requests spec
    ok (record {
      cpu = max regular.0 init.0 + overhead.0;
      memory = max regular.1 init.1 + overhead.1;
      pods = 1;
    })

  -- The request of an active pod with its node; a pod without one counts nowhere.
  unfoldable pub scheduled : Json F → Result CapacityError (List (Json F × Request))
  scheduled pod = do
    spec ← child pod "spec"
    node_name ← lookup spec "nodeName"
    elim node_name [
      | none ↦ ok []
      | some name ↦
          if is_truthy name
          then (do
            require (is_hashable (some name)) type_error
            request ← pod_scheduler_requests pod
            ok ((name, request) ∷ []))
          else ok []
    ]

  -- A pass through the loop for an active pod.
  unfoldable pub active_usage : String → Json F → Usage F → Result CapacityError (Usage F)
  active_usage namespace pod usage = do
    metadata ← child pod "metadata"
    own ← lookup metadata "namespace"
    rows ← scheduled pod
    ok (record {
      active_namespaced = count (is_text own namespace) usage.active_namespaced;
      requested = usage.requested ++ rows;
    })

  unfoldable pub pod_usage : String → Json F → Usage F → Result CapacityError (Usage F)
  pod_usage namespace pod usage = do
    active ← is_active pod
    if active then active_usage namespace pod usage else ok usage

  unfoldable pub usage_from : String → Usage F → List (Json F) → Result CapacityError (Usage F)
  usage_from namespace usage [] = ok usage
  usage_from namespace usage (pod ∷ pods) = do
    next ← pod_usage namespace pod usage
    usage_from namespace next pods
