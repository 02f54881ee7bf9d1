-- ===== src/Prelude/Dict.antt =====
-- Dictionaries with texts as keys, in the order of insertion.
use mathlib.Core.Bool.{Bool, true, false}
use mathlib.Core.Option.{Option, none, some}
use mathlib.Core.List.{List, [], ◌∷◌}
use text.Mathlib.Text.{◌==◌ as str_eq}
use Prim.Native.String.{String}
use llm_d_sc_benchmark.Prelude.Tests.{if◌then◌else◌}

module _ {ℓ} {A : Type ℓ} where
  -- `dictionary[key] = value`, where a key keeps its place
  unfoldable pub put : List (String × A) → String → A → List (String × A)
  put [] key value = (key, value) ∷ []
  put ((k, v) ∷ rest) key value =
      let later = put rest key value in if str_eq k key then (k, value) ∷ rest else (k, v) ∷ later

  -- `dictionary.get(key)`
  unfoldable pub look_up : List (String × A) → String → Option A
  look_up [] key = none
  look_up ((k, v) ∷ rest) key = if str_eq k key then some v else look_up rest key

  unfoldable pub has_key : List (String × A) → String → Bool
  has_key [] key = false
  has_key ((k, v) ∷ rest) key = if str_eq k key then true else has_key rest key

  unfoldable pub keys_of : List (String × A) → List String
  keys_of [] = []
  keys_of ((k, v) ∷ rest) = k ∷ keys_of rest
