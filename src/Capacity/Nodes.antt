-- ===== src/Capacity/Nodes.antt =====
-- hack/arena-sc-horizontal-scale-preflight.py: the gate of `evaluate` on the headroom of the two nodes.
use llm_d_sc_benchmark.Prelude.{
  ℕ, ◌*◌, ◌^◌, String, Bool, true, false, not, ◌&&◌, Option, none, some, List, [], ◌∷◌, ℤ, pos,
  ◌-ℤ◌, leb_ℤ, Result, ok, ◌>>=◌, ◌>>◌, require, if◌then◌else◌,
}
use text.Mathlib.Text.{◌==◌ as str_eq}
use llm_d_sc_benchmark.Prelude.Decimal.{Text, codes, text_le}
use llm_d_sc_benchmark.Prelude.Dict.{put}
use llm_d_sc_benchmark.Prelude.Json.{Json, bool}
use llm_d_sc_benchmark.Prelude.Floats.{Floats}
use llm_d_sc_benchmark.Prelude.Truth.{is_truthy}
use llm_d_sc_benchmark.Capacity.Quantities.{
  CapacityError, type_error, cpu_millicores, memory_bytes, scalar,
}
use llm_d_sc_benchmark.Capacity.Snapshot.{
  lookup, lookup_or, child, listing, is_text, is_hashable, is_in,
}
use llm_d_sc_benchmark.Capacity.Requests.{Request, no_request, plus, requested_by}

unfoldable pub target_addition : ℕ → Request
target_addition replicas = record {
  cpu = 2000 * replicas;
  memory = 4096 * replicas * 2 ^ 20;
  pods = replicas;
}

unfoldable pub driver_addition : ℕ → Request
driver_addition replicas = record {
  cpu = 500 * replicas;
  memory = 256 * replicas * 2 ^ 20;
  pods = replicas;
}

-- `dictionary[key]`, of a key that is in it
unfoldable pub addition_of : List (String × Request) → String → Request
addition_of [] key = no_request
addition_of ((k, v) ∷ rest) key = if str_eq k key then v else addition_of rest key

-- The literal takes its second entry under the same key, and then the two are added.
unfoldable pub node_additions : String → String → ℕ → List (String × Request)
node_additions target_node driver_node replicas =
    let literal =
      put (put [] target_node (target_addition replicas)) driver_node (driver_addition replicas) in
    if str_eq target_node driver_node
    then put literal target_node
        (plus (addition_of literal target_node) (addition_of literal driver_node))
    else literal

-- `sorted(set((target_node, driver_node)))`
unfoldable pub node_names : String → String → List String
node_names target_node driver_node =
    if str_eq target_node driver_node
    then target_node ∷ []
    else if text_le (codes target_node) (codes driver_node)
    then target_node ∷ driver_node ∷ []
    else driver_node ∷ target_node ∷ []

-- "allocatable" and "remaining_after": a count of pods is any integer.
pub record Amounts : Type 0 where
  pub cpu : ℤ
  pub memory : ℤ
  pub pods : ℤ

unfoldable pub remaining : Amounts → Request → Request → Amounts
remaining alloc used addition = record {
  cpu = alloc.cpu -ℤ pos used.cpu -ℤ pos addition.cpu;
  memory = alloc.memory -ℤ pos used.memory -ℤ pos addition.memory;
  pods = alloc.pods -ℤ pos used.pods -ℤ pos addition.pods;
}

unfoldable pub is_admitted : Amounts → Bool
is_admitted rest = leb_ℤ (pos 0) rest.cpu && leb_ℤ (pos 0) rest.memory && leb_ℤ (pos 0) rest.pods

pub data NodeRow : Type 0 where
  missing : (name : String) → NodeRow
  evaluated :
      (name : String) (ready pressure schedulable : Bool) (allocatable : Amounts)
      (currently_requested campaign_addition : Request) (remaining_after : Amounts)
      → NodeRow

unfoldable pub node_passed : NodeRow → Bool
node_passed (missing name) = false
node_passed (evaluated name ready pressure schedulable alloc used addition rest) =
    ready && not pressure && schedulable && is_admitted rest

module _ {F : Type 0} where
  -- `node_items`: the nodes with a text as their name, where a later one takes the place of an earlier one.
  unfoldable pub named_nodes :
      List (Json F) → Result CapacityError (List (Option (Json F) × Json F))
  named_nodes [] = ok []
  named_nodes (node ∷ nodes) = do
    metadata ← child node "metadata"
    name ← lookup metadata "name"
    require (is_hashable name) type_error
    rest ← named_nodes nodes
    ok ((name, node) ∷ rest)

  unfoldable pub find_node : List (Option (Json F) × Json F) → String → Option (Json F)
  find_node [] key = none
  find_node ((name, node) ∷ rest) key = elim (find_node rest key) [
    | some later ↦ some later
    | none ↦ if is_text name key then some node else none
  ]

  -- The two `any` over the conditions, each of which stops at the first one that holds.
  unfoldable pub is_ready : List (Json F) → Result CapacityError Bool
  is_ready [] = ok false
  is_ready (condition ∷ rest) = do
    kind ← lookup condition "type"
    status ← lookup condition "status"
    if is_text kind "Ready" && is_text status "True" then ok true else is_ready rest

  unfoldable pub has_pressure : List (Json F) → Result CapacityError Bool
  has_pressure [] = ok false
  has_pressure (condition ∷ rest) = do
    kind ← lookup condition "type"
    listed ←
        is_in kind ("MemoryPressure" ∷ "DiskPressure" ∷ "PIDPressure" ∷ "NetworkUnavailable" ∷ [])
    status ← lookup condition "status"
    if listed && is_text status "True" then ok true else has_pressure rest

module _ {F : Type 0} ⦃fl : Floats F⦄ (repr : F → Text) (parse_float : Text → Option F) where
  unfoldable pub allocatable_of : Json F → Result CapacityError Amounts
  allocatable_of node = do
    allocatable ← child (← child node "status") "allocatable"
    cpu ← cpu_millicores repr parse_float (← lookup allocatable "cpu")
    memory ← memory_bytes repr parse_float (← lookup allocatable "memory")
    pods ← scalar repr parse_float (← lookup allocatable "pods")
    ok (record { cpu = pos cpu; memory = pos memory; pods = pods })

  -- The row of a node in the snapshot, with what is requested there and what the rung adds.
  unfoldable pub evaluated_row :
      List (Json F × Request) → String → Request → Json F → Result CapacityError NodeRow
  evaluated_row requested name addition node = do
    alloc ← allocatable_of node
    let used = requested_by requested name
    ready ← is_ready (← listing (← child node "status") "conditions")
    pressure ← has_pressure (← listing (← child node "status") "conditions")
    unschedulable ← lookup_or (← child node "spec") "unschedulable" (bool false)
    ok (
        evaluated name ready pressure (not (is_truthy unschedulable)) alloc used addition
          (remaining alloc used addition))

  unfoldable pub node_row :
      List (Option (Json F) × Json F)
      → List (Json F × Request)
      → List (String × Request)
      → String
      → Result CapacityError NodeRow
  node_row nodes requested additions name = elim (find_node nodes name) [
    | none ↦ ok (missing name)
    | some node ↦ evaluated_row requested name (addition_of additions name) node
  ]

  unfoldable pub node_rows :
      List (Option (Json F) × Json F)
      → List (Json F × Request)
      → List (String × Request)
      → List String
      → Result CapacityError (List NodeRow)
  node_rows nodes requested additions [] = ok []
  node_rows nodes requested additions (name ∷ names) = do
    row ← node_row nodes requested additions name
    rows ← node_rows nodes requested additions names
    ok (row ∷ rows)
