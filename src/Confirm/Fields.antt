-- ===== src/Confirm/Fields.antt =====
-- hack/arena-sc-knee-confirm-analyze.py: the readers of the fields of the summary. An error names the
-- field that it is about; the path before the field, which only the message shows, is left out.
use text.Mathlib.Text.{◌==◌ as str_eq}
use llm_d_sc_benchmark.Prelude.{
  ℕ, String, Bool, not, ◌&&◌, Option, none, some, List, ℤ, ltb_ℤ, Result, ok, err, ◌>>=◌, ◌>>◌,
  require, if◌then◌else◌,
}
use llm_d_sc_benchmark.Prelude.Json.{Json, bool, int, float, str, arr, obj, Fields, get, items}
use llm_d_sc_benchmark.Prelude.Floats.{Floats}

pub data Fault : Type 0 where
  missing not_object not_array not_boolean not_integer not_numeric not_finite : String → Fault
  too_small too_large not_string not_rate : String → Fault
  wrong_group wrong_offer : ℕ → Fault
  wrong_ratio : String → Fault
  p99_without_samples samples_without_p99 bad_cpusets bad_reasons : Fault
  wrong_schema wrong_rate_count rates_disagree duplicate_rate wrong_cell_count : Fault
  wrong_repetitions wrong_rates wrong_orders : Fault
  few_observations mean_not_positive no_observations wrong_effect_count : Fault
  duplicate_pair wrong_pairs : Fault

-- `ValidationError`, which `analyze` catches, and the exceptions that it does not.
pub data Failure : Type 0 where
  validation : Fault → Failure
  overflow_error key_error index_error : Failure

abbrev pub Checked : Type 0 → Type 0
Checked A = Result Failure A

unfoldable pub invalid : {A : Type 0} → Fault → Checked A
invalid fault = err (validation fault)

abbrev pub demand : Bool → Fault → Checked (Unit {0})
demand condition fault = require condition (validation fault)

module _ {F : Type 0} where
  unfoldable pub required : Fields F → String → Checked (Json F)
  required document key = elim (get document key) [
    | none ↦ err (validation (missing key))
    | some value ↦ ok value
  ]

  unfoldable pub mapping : String → Json F → Checked (Fields F)
  mapping name (obj fields) = ok fields
  mapping name _ = err (validation (not_object name))

  unfoldable pub sequence : String → Json F → Checked (List (Json F))
  sequence name (arr values) = ok (items values)
  sequence name _ = err (validation (not_array name))

  unfoldable pub boolean : String → Json F → Checked Bool
  boolean name (bool b) = ok b
  boolean name _ = err (validation (not_boolean name))

  -- A Boolean is an instance of `int` in Python, and is refused.
  unfoldable pub integer : String → Json F → Checked ℤ
  integer name (int n) = ok n
  integer name _ = err (validation (not_integer name))

  unfoldable pub integer_from : ℤ → String → Json F → Checked ℤ
  integer_from minimum name value = do
    n ← integer name value
    demand (not (ltb_ℤ n minimum)) (too_small name)
    ok n

  -- A non-empty string.
  unfoldable pub string : String → Json F → Checked String
  string name (str s) = if str_eq s "" then err (validation (not_string name)) else ok s
  string name _ = err (validation (not_string name))

module _ {F : Type 0} ⦃fl : Floats F⦄ where
  unfoldable pub to_float : String → Json F → Checked F
  to_float name (int n) = elim (fl.of_int n) [ none ↦ err overflow_error | some x ↦ ok x ]
  to_float name (float x) = ok x
  to_float name _ = err (validation (not_numeric name))

  unfoldable pub number_from : F → String → Json F → Checked F
  number_from minimum name value = do
    x ← to_float name value
    demand (fl.is_finite x) (not_finite name)
    demand (not (fl.lt x minimum)) (too_small name)
    ok x

  unfoldable pub number_between : F → F → String → Json F → Checked F
  number_between minimum maximum name value = do
    x ← number_from minimum name value
    demand (not (fl.lt maximum x)) (too_large name)
    ok x

  unfoldable pub rate_of_float : String → F → Checked ℕ
  rate_of_float name x =
      if fl.is_finite x && fl.eq x (fl.decimal 41 0)
      then ok 41
      else (if fl.is_finite x && fl.eq x (fl.decimal 42 0)
          then ok 42
          else err (validation (not_rate name)))

  -- `float(value)` also reads a string, by the parameter `parse_float`.
  unfoldable pub rate : (String → Option F) → String → Json F → Checked ℕ
  rate parse_float name (int n) = elim (fl.of_int n) [
    | none ↦ err overflow_error
    | some x ↦ rate_of_float name x
  ]
  rate parse_float name (float x) = rate_of_float name x
  rate parse_float name (str s) = elim (parse_float s) [
    | none ↦ err (validation (not_rate name))
    | some x ↦ rate_of_float name x
  ]
  rate parse_float name _ = err (validation (not_rate name))
