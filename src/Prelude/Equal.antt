-- ===== src/Prelude/Equal.antt =====
-- Python's `==` of two values of basic types: a Boolean is the integer 0 or 1, an integer is compared with
-- a float exactly, and the order of a dictionary's keys does not matter.
use mathlib.Core.Bool.{Bool, true, false, ◌&&◌}
use mathlib.Core.Option.{Option, none, some}
use text.Mathlib.Text.{◌==◌ as str_eq}
use Prim.Native.Nat.{ℕ, suc}
use llm_d_sc_benchmark.Prelude.Tests.{◌==◌, if◌then◌else◌}
use llm_d_sc_benchmark.Prelude.Int.{ℤ, pos, ◌==ℤ◌}
use llm_d_sc_benchmark.Prelude.Json.{
  Json, null, bool, int, float, str, arr, obj, Items, nil, cons, Fields, end, field, get,
}
use llm_d_sc_benchmark.Prelude.Floats.{Floats}

pub data Number (F : Type 0) : Type 0 where
  whole : ℤ → Number F
  real : F → Number F

unfoldable pub size : {F : Type 0} → Fields F → ℕ
size end = 0
size (field name value rest) = suc (size rest)

module _ {F : Type 0} ⦃fl : Floats F⦄ where
  unfoldable pub number_of : Json F → Option (Number F)
  number_of (bool b) = some (whole (pos (if b then 1 else 0)))
  number_of (int n) = some (whole n)
  number_of (float x) = some (real x)
  number_of _ = none

  unfoldable pub is_whole : F → ℤ → Bool
  is_whole x n = elim (fl.as_integer x) [ none ↦ false | some m ↦ m ==ℤ n ]

  unfoldable pub same_number : Option (Number F) → Option (Number F) → Bool
  same_number (some (whole m)) (some (whole n)) = m ==ℤ n
  same_number (some (whole m)) (some (real y)) = is_whole y m
  same_number (some (real x)) (some (whole n)) = is_whole x n
  same_number (some (real x)) (some (real y)) = fl.eq x y
  same_number _ _ = false

  unfoldable mutual
    pub json_eq : Json F → Json F → Bool
    json_eq null null = true
    json_eq (str s) (str t) = str_eq s t
    json_eq (arr xs) (arr ys) = items_eq xs ys
    json_eq (obj xs) (obj ys) = size xs == size ys && fields_in xs ys
    json_eq a b = same_number (number_of a) (number_of b)

    pub items_eq : Items F → Items F → Bool
    items_eq nil nil = true
    items_eq (cons x xs) (cons y ys) = json_eq x y && items_eq xs ys
    items_eq _ _ = false

    -- Each entry is in the other dictionary too.
    pub fields_in : Fields F → Fields F → Bool
    fields_in end ys = true
    fields_in (field name value rest) ys = elim (get ys name) [
      | none ↦ false
      | some other ↦ json_eq value other && fields_in rest ys
    ]
