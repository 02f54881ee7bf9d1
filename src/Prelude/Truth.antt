-- ===== src/Prelude/Truth.antt =====
-- `bool(value)` of a value of Python's basic types.
use mathlib.Core.Bool.{Bool, true, false, not, ◌&&◌}
use text.Mathlib.Text.{◌==◌ as str_eq}
use llm_d_sc_benchmark.Prelude.Tests.{◌==◌}
use llm_d_sc_benchmark.Prelude.Int.{pos_part, neg_part}
use llm_d_sc_benchmark.Prelude.Json.{
  Json, null, bool, int, float, str, arr, obj, nil, cons, end, field,
}
use llm_d_sc_benchmark.Prelude.Floats.{Floats}

module _ {F : Type 0} ⦃fl : Floats F⦄ where
  unfoldable pub is_truthy : Json F → Bool
  is_truthy null = false
  is_truthy (bool b) = b
  is_truthy (int n) = not (pos_part n == 0 && neg_part n == 0)
  is_truthy (float x) = not (fl.eq x (fl.decimal 0 0))
  is_truthy (str s) = not (str_eq s "")
  is_truthy (arr nil) = false
  is_truthy (arr (cons value rest)) = true
  is_truthy (obj end) = false
  is_truthy (obj (field name value rest)) = true
