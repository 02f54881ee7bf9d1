-- ===== src/Prelude/Json.antt =====
-- What `json.load` gives: a value of Python's basic types. `F` is the type of floats.
use mathlib.Core.Bool.{Bool}
use mathlib.Core.Option.{Option, none, some}
use mathlib.Core.List.{List, [], ◌∷◌}
use text.Mathlib.Text.{◌==◌ as str_eq}
use Prim.Native.String.{String}
use llm_d_sc_benchmark.Prelude.Int.{ℤ}
use llm_d_sc_benchmark.Prelude.Tests.{if◌then◌else◌}

mutual
  pub data Json (F : Type 0) : Type 0 where
    null : Json F
    bool : Bool → Json F
    int : ℤ → Json F
    float : F → Json F
    str : String → Json F
    arr : Items F → Json F
    obj : Fields F → Json F

  pub data Items (F : Type 0) : Type 0 where
    nil : Items F
    cons : Json F → Items F → Items F

  -- A dictionary, in the order of its keys, each of which stands in it once.
  pub data Fields (F : Type 0) : Type 0 where
    end : Fields F
    field : String → Json F → Fields F → Fields F

-- `document.get(key)`, with `none` for a missing key
unfoldable pub get : {F : Type 0} → Fields F → String → Option (Json F)
get end key = none
get (field name value rest) key = if str_eq name key then some value else get rest key

unfoldable pub items : {F : Type 0} → Items F → List (Json F)
items nil = []
items (cons value rest) = value ∷ items rest

-- `document[key] = value`, where a key keeps its place
unfoldable pub put_field : {F : Type 0} → Fields F → String → Json F → Fields F
put_field end key value = field key value end
put_field (field name old rest) key value =
    let later = put_field rest key value in
    if str_eq name key then field name value rest else field name old later

unfoldable pub items_from : {F : Type 0} → List (Json F) → Items F
items_from [] = nil
items_from (value ∷ rest) = cons value (items_from rest)
