-- ===== src/Prelude/Floats.antt =====
-- Python's floats, as the operations that the program uses of them. `of_int` is `float(n)` of an
-- integer, which raises on one too large (`none`); `quotient` is `/` of two integers.
use mathlib.Core.Bool.{Bool}
use mathlib.Core.Option.{Option}
use mathlib.Core.List.{List, [], ◌∷◌}
use llm_d_sc_benchmark.Prelude.Int.{ℤ}
use llm_d_sc_benchmark.Prelude.Tests.{if◌then◌else◌}
use Prim.Native.Nat.{ℕ}

pub record Floats (F : Type 0) : Type 0 where
  pub of_int : ℤ → Option F
  -- `decimal m k` is the literal for m / 10 ^ k
  pub decimal : ℕ → ℕ → F
  pub is_finite : F → Bool
  pub lt : F → F → Bool
  pub le : F → F → Bool
  pub eq : F → F → Bool
  pub add : F → F → F
  pub sub : F → F → F
  pub mul : F → F → F
  pub div : F → F → F
  pub quotient : ℤ → ℤ → F
  -- `math.isclose` with both tolerances at 1e-12, `math.floor` and `math.ceil`
  pub is_close : F → F → Bool
  pub floor : F → ℕ
  pub ceil : F → ℕ
  -- `int(x)`, where `x.is_integer()`
  pub as_integer : F → Option ℤ
  -- `statistics.fmean` and `statistics.stdev`
  pub fmean : List F → F
  pub stdev : List F → F

module _ {F : Type 0} ⦃fl : Floats F⦄ where
  -- An earlier value stays in front of an equal one.
  unfoldable pub insert_float : F → List F → List F
  insert_float x [] = x ∷ []
  insert_float x (y ∷ ys) = if fl.lt y x then y ∷ insert_float x ys else x ∷ y ∷ ys

  -- `sorted(values)`
  unfoldable pub sorted : List F → List F
  sorted [] = []
  sorted (x ∷ xs) = insert_float x (sorted xs)
