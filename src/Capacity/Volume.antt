-- ===== src/Capacity/Volume.antt =====
-- hack/arena-sc-horizontal-scale-preflight.py: the gate of `evaluate` on the model's volume.
use llm_d_sc_benchmark.Prelude.{
  String, Bool, true, false, not, ◌&&◌, ◌||◌, Option, some, List, [], ◌∷◌, ◌++◌, Result, ok, err,
  ◌>>=◌, ◌>>◌, require, if◌then◌else◌, any, all,
}
use llm_d_sc_benchmark.Prelude.Json.{
  Json, null, bool, int, float, str, arr, obj, nil, Fields, end, field, items,
}
use llm_d_sc_benchmark.Capacity.Quantities.{CapacityError, type_error}
use llm_d_sc_benchmark.Capacity.Snapshot.{
  lookup, lookup_or, child, listing, is_text, is_none_or, is_hashable, is_active,
}
use llm_d_sc_benchmark.Capacity.Quota.{is_empty}

-- An entry of "active_mounts_on_other_nodes".
pub record ForeignMount (F : Type 0) : Type 0 where
  pub namespace : Option (Json F)
  pub name : Option (Json F)
  pub node : Option (Json F)

module _ {F : Type 0} where
  unfoldable pub keys : Fields F → List (Json F)
  keys end = []
  keys (field name value rest) = str name ∷ keys rest

  -- The elements of `set(value)`; those of a text are characters, none of which is a mode.
  unfoldable pub set_of : Json F → Result CapacityError (List (Json F))
  set_of (arr values) =
      require (all (λ v. is_hashable (some v)) (items values)) type_error >> ok (items values)
  set_of (obj fields) = ok (keys fields)
  set_of (str s) = ok []
  set_of _ = err type_error

  unfoldable pub is_str : Json F → Bool
  is_str (str s) = true
  is_str _ = false

  unfoldable pub is_number : Json F → Bool
  is_number (bool b) = true
  is_number (int n) = true
  is_number (float x) = true
  is_number _ = false

  unfoldable pub is_null : Json F → Bool
  is_null null = true
  is_null _ = false

  -- `sorted(modes)` compares no text with a number, and nothing with `None`.
  unfoldable pub is_sortable : List (Json F) → Bool
  is_sortable modes = all is_str modes || all is_number modes || all is_null modes

  abbrev pub modes_ok : List (Json F) → Bool
  modes_ok modes =
      any
        (λ m.
          is_text (some m) "ReadWriteOnce"
          || is_text (some m) "ReadWriteMany"
          || is_text (some m) "ReadOnlyMany")
        modes

  unfoldable pub has_volume : String → List (Json F) → Result CapacityError Bool
  has_volume claim_name [] = ok false
  has_volume claim_name (volume ∷ volumes) = do
    claim ← child volume "persistentVolumeClaim"
    claimed ← lookup claim "claimName"
    if is_text claimed claim_name then ok true else has_volume claim_name volumes

  -- The mount of a pod elsewhere; `elsewhere` is the node where it is.
  unfoldable pub foreign_mount :
      Json F → Option (Json F) → Result CapacityError (List (ForeignMount F))
  foreign_mount pod elsewhere = do
    metadata ← child pod "metadata"
    namespace ← lookup metadata "namespace"
    name ← lookup metadata "name"
    ok (record { namespace = namespace; name = name; node = elsewhere } ∷ [])

  unfoldable pub active_mount :
      String → String → Json F → Result CapacityError (List (ForeignMount F))
  active_mount claim_name target_node pod = do
    spec ← child pod "spec"
    mounted ← has_volume claim_name (← listing spec "volumes")
    node ← lookup spec "nodeName"
    if mounted && not (is_none_or node target_node) then foreign_mount pod node else ok []

  unfoldable pub pod_mounts :
      String → String → Json F → Result CapacityError (List (ForeignMount F))
  pod_mounts claim_name target_node pod = do
    active ← is_active pod
    if active then active_mount claim_name target_node pod else ok []

  unfoldable pub foreign_mounts :
      String → String → List (Json F) → Result CapacityError (List (ForeignMount F))
  foreign_mounts claim_name target_node [] = ok []
  foreign_mounts claim_name target_node (pod ∷ pods) = do
    here ← pod_mounts claim_name target_node pod
    rest ← foreign_mounts claim_name target_node pods
    ok (here ++ rest)

-- The gate of the volume, with its evidence.
pub record VolumeGate (F : Type 0) : Type 0 where
  pub claim_name : Option (Json F)
  pub phase : Option (Json F)
  pub access_modes : List (Json F)
  pub active_mounts_on_other_nodes : List (ForeignMount F)
  pub passed : Bool

unfoldable pub volume_gate :
    {F : Type 0}
    → Json F
    → List (Json F)
    → (namespace target_node claim_name : String) → Result CapacityError (VolumeGate F)
volume_gate pvc pods namespace target_node claim_name = do
  metadata ← child pvc "metadata"
  name ← lookup metadata "name"
  own ← lookup metadata "namespace"
  status ← child pvc "status"
  phase ← lookup status "phase"
  spec ← child pvc "spec"
  modes ← set_of (← lookup_or spec "accessModes" (arr nil))
  mounts ← foreign_mounts claim_name target_node pods
  require (is_sortable modes) type_error
  ok (record {
    claim_name = name;
    phase = phase;
    access_modes = modes;
    active_mounts_on_other_nodes = mounts;
    passed =
        is_text name claim_name
        && is_none_or own namespace
        && is_text phase "Bound"
        && modes_ok modes
        && is_empty mounts;
  })
