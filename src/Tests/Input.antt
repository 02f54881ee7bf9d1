-- ===== src/Tests/Input.antt =====
-- JSON values for the tests, with fixed-point numbers of three decimals as the floats.
use llm_d_sc_benchmark.Prelude.{
  ℕ, ◌+◌, ◌*◌, ◌/◌, ◌%◌, ◌^◌, ◌==◌, if◌then◌else◌, none, String, true, ◌&&◌, some, List, [], ◌∷◌, ℤ,
  pos, ltb_ℤ, leb_ℤ, pos_part, ◌+ℤ◌, ◌-ℤ◌, length,
}
use llm_d_sc_benchmark.Prelude.Json.{Json, bool, int, obj, Items, nil, cons, Fields, end, field}
use llm_d_sc_benchmark.Prelude.Floats.{Floats}

abbrev total : List ℤ → ℤ
total [] = pos 0
total (a ∷ as') = a +ℤ total as'

abbrev pub thousandths : Floats ℤ
thousandths = record {
  of_int = λ n. some (pos (pos_part n * 1000));
  decimal = λ m k. pos (m * 1000 / 10 ^ k);
  is_finite = λ x. true;
  lt = ltb_ℤ;
  le = leb_ℤ;
  eq = λ a b. leb_ℤ a b && leb_ℤ b a;
  add = ◌+ℤ◌;
  sub = ◌-ℤ◌;
  mul = λ a b. pos (pos_part a * pos_part b / 1000);
  div = λ a b. pos (pos_part a * 1000 / pos_part b);
  quotient = λ a b. pos (pos_part a * 1000 / pos_part b);
  is_close = λ a b. leb_ℤ a b && leb_ℤ b a;
  floor = λ x. pos_part x / 1000;
  ceil = λ x. (pos_part x + 999) / 1000;
  as_integer = λ x. if pos_part x % 1000 == 0 then some (pos (pos_part x / 1000)) else none;
  fmean = λ xs. pos (pos_part (total xs) / length xs);
  stdev = λ xs. pos 0;
}

instance abbrev pub fixed_point : Floats ℤ
fixed_point = thousandths

abbrev pub fields_of : List (String × Json ℤ) → Fields ℤ
fields_of [] = end
fields_of (entry ∷ rest) = field entry.0 entry.1 (fields_of rest)

abbrev pub object : List (String × Json ℤ) → Json ℤ
object fields = obj (fields_of fields)

abbrev pub items_of : List (Json ℤ) → Items ℤ
items_of [] = nil
items_of (value ∷ rest) = cons value (items_of rest)

abbrev pub number : ℕ → Json ℤ
number n = int (pos n)

abbrev pub yes : Json ℤ
yes = bool true
