-- ===== src/Capacity/Quantities.antt =====
-- hack/arena-sc-horizontal-scale-preflight.py: `cpu_millicores`, `memory_bytes` and `scalar`. `str` of a float
-- and `float` of a text are arguments.
use llm_d_sc_benchmark.Prelude.{
  ℕ, suc, ◌^◌, Option, none, some, List, [], ◌∷◌, ◌++◌, ℤ, pos, negsuc, Result, ok, err, ◌>>◌,
  require, ◌==◌, if◌then◌else◌, length,
}
use llm_d_sc_benchmark.Prelude.Decimal.{Text, codes, decimal, value_from, is_digit, text_eq}
use llm_d_sc_benchmark.Prelude.Json.{Json, null, int, float, str}
use llm_d_sc_benchmark.Prelude.Floats.{Floats}

-- `ValueError`, `OverflowError`, and the errors of a value that has another shape than the API gives it.
pub data CapacityError : Type 0 where
  unsupported_cpu unsupported_memory not_integral overflow_error bad_rung : CapacityError
  attribute_error type_error : CapacityError

-- The digits at the front, and the rest.
unfoldable pub span_digits : Text → Text × Text
span_digits [] = ([], [])
span_digits (c ∷ s) =
    let rest = span_digits s in if is_digit c then (c ∷ rest.0, rest.1) else ([], c ∷ s)

pub record Quantity : Type 0 where
  pub whole : Text
  pub fraction : Text
  pub unit : Text

-- The optional group of the fraction, `(?:\.[0-9]+)?`.
unfoldable pub read_fraction : Text → Text → Quantity
read_fraction whole [] = record { whole = whole; fraction = []; unit = [] }
read_fraction whole (c ∷ s) =
    if c == b'.'
    then elim (span_digits s).0 [
      | [] ↦ record { whole = whole; fraction = []; unit = c ∷ s }
      | d ∷ ds ↦ record { whole = whole; fraction = d ∷ ds; unit = (span_digits s).1 }
    ]
    else record { whole = whole; fraction = []; unit = c ∷ s }

-- `re.fullmatch` of a number with its unit, which is looked up afterwards.
unfoldable pub read_quantity : Text → Option Quantity
read_quantity s = elim (span_digits s).0 [
  | [] ↦ none
  | d ∷ ds ↦ some (read_fraction (d ∷ ds) (span_digits s).1)
]

module _ {F : Type 0} ⦃fl : Floats F⦄ where
  abbrev pub cpu_multipliers : List (Text × F)
  cpu_multipliers =
      (codes "n", fl.decimal 1 6)
      ∷ (codes "u", fl.decimal 1 3)
      ∷ (codes "m", fl.decimal 10 1)
      ∷ ([], fl.decimal 10000 1)
      ∷ []

  abbrev pub memory_multipliers : List (Text × F)
  memory_multipliers =
      (codes "Ki", fl.decimal (2 ^ 10) 0)
      ∷ (codes "Mi", fl.decimal (2 ^ 20) 0)
      ∷ (codes "Gi", fl.decimal (2 ^ 30) 0)
      ∷ (codes "Ti", fl.decimal (2 ^ 40) 0)
      ∷ (codes "Pi", fl.decimal (2 ^ 50) 0)
      ∷ (codes "Ei", fl.decimal (2 ^ 60) 0)
      ∷ (codes "k", fl.decimal (10 ^ 3) 0)
      ∷ (codes "K", fl.decimal (10 ^ 3) 0)
      ∷ (codes "M", fl.decimal (10 ^ 6) 0)
      ∷ (codes "G", fl.decimal (10 ^ 9) 0)
      ∷ (codes "T", fl.decimal (10 ^ 12) 0)
      ∷ (codes "P", fl.decimal (10 ^ 15) 0)
      ∷ (codes "E", fl.decimal (10 ^ 18) 0)
      ∷ ([], fl.decimal 1 0)
      ∷ []

  unfoldable pub multiplier : List (Text × F) → Text → Option F
  multiplier [] unit = none
  multiplier ((name, factor) ∷ table) unit =
      if text_eq name unit then some factor else multiplier table unit

  -- `math.ceil(number * multiplier - 1e-12)`
  unfoldable pub scaled : Quantity → F → Result CapacityError ℕ
  scaled q factor = do
    let number = fl.decimal (value_from 0 (q.whole ++ q.fraction)) (length q.fraction)
    let x = fl.sub (fl.mul number factor) (fl.decimal 1 12)
    require (fl.is_finite x) overflow_error
    ok (fl.ceil x)

  unfoldable pub convert : CapacityError → List (Text × F) → Text → Result CapacityError ℕ
  convert error table s = elim (read_quantity s) [
    | none ↦ err error
    | some q ↦ elim (multiplier table q.unit) [ none ↦ err error | some factor ↦ scaled q factor ]
  ]

module _ {F : Type 0} (repr : F → Text) where
  -- `str(value)`, where it can be a number
  unfoldable pub text_of : Json F → Option Text
  text_of (str s) = some (codes s)
  text_of (int (pos n)) = some (decimal n)
  text_of (int (negsuc n)) = some (b'-' ∷ decimal (suc n))
  text_of (float x) = some (repr x)
  text_of _ = none

  -- The text of a value that is not `None` or "".
  unfoldable pub filled : Option (Json F) → Option (Option Text)
  filled none = none
  filled (some null) = none
  filled (some value) = elim (text_of value) [
    | none ↦ some none
    | some [] ↦ none
    | some (c ∷ s) ↦ some (some (c ∷ s))
  ]

module _ {F : Type 0} ⦃fl : Floats F⦄ (repr : F → Text) (parse_float : Text → Option F) where
  unfoldable pub convert_value :
      CapacityError → List (Text × F) → Option (Json F) → Result CapacityError ℕ
  convert_value error table value = elim (filled repr value) [
    | none ↦ ok 0
    | some none ↦ err error
    | some (some s) ↦ convert error table s
  ]

  unfoldable pub cpu_millicores : Option (Json F) → Result CapacityError ℕ
  cpu_millicores value = convert_value unsupported_cpu cpu_multipliers value

  unfoldable pub memory_bytes : Option (Json F) → Result CapacityError ℕ
  memory_bytes value = convert_value unsupported_memory memory_multipliers value

  unfoldable pub integral : Text → Result CapacityError ℤ
  integral s = elim (parse_float s) [
    | none ↦ err not_integral
    | some x ↦ elim (fl.as_integer x) [ none ↦ err not_integral | some n ↦ ok n ]
  ]

  unfoldable pub scalar : Option (Json F) → Result CapacityError ℤ
  scalar value = elim (filled repr value) [
    | none ↦ ok (pos 0)
    | some none ↦ err not_integral
    | some (some s) ↦ integral s
  ]
