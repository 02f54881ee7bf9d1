-- ===== src/Tests/ExtensionTests.antt =====
-- Witness for hack/arena-sc-knee-confirm-extension-analyze.py: the deviation of five values is large and that of
-- ten is none, so that the first stage is inconclusive and the pooled blocks confirm.
use llm_d_sc_benchmark.Prelude.{
  ℕ, ◌*◌, ◌/◌, ◌==◌, String, Bool, true, false, Option, none, List, [], ◌∷◌, ℤ, pos, pos_part,
  neg_part, sub_ℕ, ok, err, if◌then◌else◌, length,
}
use llm_d_sc_benchmark.Prelude.Floats.{Floats}
use llm_d_sc_benchmark.Prelude.Decimal.{decimal}
use llm_d_sc_benchmark.Confirm.Fields.{Checked}
use llm_d_sc_benchmark.Confirm.Analyze.{Outcome, confirmed, inconclusive, analyze as analyze_five}
use llm_d_sc_benchmark.Extension.Analyze.{Extension, expected_stage_a_decision_sha256, analyze}
use llm_d_sc_benchmark.Tests.Input.{thousandths}

instance abbrev spread : Floats ℤ
spread = record {
  of_int = thousandths.of_int;
  decimal = thousandths.decimal;
  is_finite = thousandths.is_finite;
  lt = thousandths.lt;
  le = thousandths.le;
  eq = thousandths.eq;
  add = thousandths.add;
  sub = thousandths.sub;
  mul = thousandths.mul;
  div = λ a b. sub_ℕ (pos_part a * 1000 / pos_part b) (neg_part a * 1000 / pos_part b);
  quotient = thousandths.quotient;
  is_close = thousandths.is_close;
  floor = thousandths.floor;
  ceil = thousandths.ceil;
  as_integer = thousandths.as_integer;
  fmean = thousandths.fmean;
  stdev = λ xs. pos (if length xs == 5 then 1000 else 0);
}

abbrev parse_float : String → Option ℤ
parse_float s = none

abbrev sha256 : Outcome ℤ → String
sha256 outcome = expected_stage_a_decision_sha256

abbrev five : List (List ℕ)
five = (0 ∷ 1 ∷ 2 ∷ 3 ∷ 4 ∷ []) ∷ []

abbrev draws : ℕ → List (List ℕ)
draws n = (0 ∷ 1 ∷ 2 ∷ 3 ∷ 4 ∷ 5 ∷ 6 ∷ 7 ∷ 8 ∷ 9 ∷ []) ∷ []

abbrev is_confirmed : Checked (Extension ℤ) → Bool
is_confirmed (ok e) = elim e.status [ confirmed ↦ true | inconclusive ↦ false ]
is_confirmed (err e) = false
