-- ===== src/Capacity/Snapshot.antt =====
-- hack/arena-sc-horizontal-scale-preflight.py: how the capacity preflight reads the values of the API.
use llm_d_sc_benchmark.Prelude.{
  String, Bool, true, false, not, ◌||◌, Option, none, some, List, [], ◌∷◌, Result, ok, err, ◌>>=◌,
  ◌>>◌, require, if◌then◌else◌, any,
}
use text.Mathlib.Text.{◌==◌ as str_eq}
use llm_d_sc_benchmark.Prelude.Json.{Json, null, str, arr, obj, nil, end, field, get, items}
use llm_d_sc_benchmark.Capacity.Quantities.{CapacityError, attribute_error, type_error}

module _ {F : Type 0} where
  -- `value.get(key)`
  unfoldable pub lookup : Json F → String → Result CapacityError (Option (Json F))
  lookup (obj fields) key = ok (get fields key)
  lookup _ key = err attribute_error

  -- `value.get(key, default)`
  unfoldable pub lookup_or : Json F → String → Json F → Result CapacityError (Json F)
  lookup_or value key default = do
    found ← lookup value key
    ok (elim found [ none ↦ default | some v ↦ v ])

  -- `value.get(key, {})`
  unfoldable pub child : Json F → String → Result CapacityError (Json F)
  child value key = lookup_or value key (obj end)

  -- What `for` runs through, where its body asks each element for a key: a key of a dictionary and a
  -- character have none.
  unfoldable pub elements : Json F → Result CapacityError (List (Json F))
  elements (arr values) = ok (items values)
  elements (obj end) = ok []
  elements (obj (field name value rest)) = err attribute_error
  elements (str s) = if str_eq s "" then ok [] else err attribute_error
  elements _ = err type_error

  -- `value.get(key, [])`, run through
  unfoldable pub listing : Json F → String → Result CapacityError (List (Json F))
  listing value key = do elements (← lookup_or value key (arr nil))

  -- `value is None`
  unfoldable pub is_none : Option (Json F) → Bool
  is_none none = true
  is_none (some null) = true
  is_none (some _) = false

  -- `value == text`
  unfoldable pub is_text : Option (Json F) → String → Bool
  is_text (some (str s)) text = str_eq s text
  is_text _ text = false

  unfoldable pub is_hashable : Option (Json F) → Bool
  is_hashable (some (arr values)) = false
  is_hashable (some (obj fields)) = false
  is_hashable _ = true

  -- `value in {...}`
  unfoldable pub is_in : Option (Json F) → List String → Result CapacityError Bool
  is_in value names = do require (is_hashable value) type_error; ok (any (is_text value) names)

  -- `value in (None, text)`
  unfoldable pub is_none_or : Option (Json F) → String → Bool
  is_none_or value text = is_none value || is_text value text

  unfoldable pub is_active : Json F → Result CapacityError Bool
  is_active pod = do
    metadata ← child pod "metadata"
    deleted ← lookup metadata "deletionTimestamp"
    let terminated = do
      status ← child pod "status"
      is_in (← lookup status "phase") ("Succeeded" ∷ "Failed" ∷ [])
    if is_none deleted then (terminated >>= λ t. ok (not t)) else ok false
