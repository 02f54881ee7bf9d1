-- ===== src/Extension/StageB.antt =====
-- hack/arena-sc-knee-confirm-extension-analyze.py: `_observed_order` and `_extract_stage_b`.
use text.Mathlib.Text.{◌==◌ as str_eq}
use llm_d_sc_benchmark.Prelude.{
  ℕ, String, Bool, true, false, not, ◌&&◌, ◌||◌, Option, none, some, List, [], ◌∷◌, ◌++◌, map, ℤ,
  pos, ltb_ℤ, ◌==ℤ◌, ok, err, ◌>>=◌, ◌>>◌, ◌==◌, ltb, if◌then◌else◌, all, any, length,
}
use llm_d_sc_benchmark.Prelude.Decimal.{Text, codes, decimal, text_eq}
use llm_d_sc_benchmark.Prelude.Json.{Json, int, str, arr, obj, Fields, get, put_field, items_from}
use llm_d_sc_benchmark.Prelude.Floats.{Floats}
use llm_d_sc_benchmark.Confirm.Fields.{
  Checked, key_error, demand, required, mapping, sequence, integer_from, string, rate,
  wrong_cell_count, wrong_orders, duplicate_pair, wrong_pairs,
}
use llm_d_sc_benchmark.Confirm.Cells.{ParsedCell}
use llm_d_sc_benchmark.Confirm.Runtime.{Checks}
use llm_d_sc_benchmark.Confirm.Orders.{
  low_rate, high_rate, blocks, ByRate, is_permutation_to, is_next, expected_order,
}
use llm_d_sc_benchmark.Confirm.Extract.{extract}

abbrev pub stage_a_run_id : String
stage_a_run_id = "ol-rt1-knee-confirm-20260829-a"

abbrev pub stage_b_run_id : String
stage_b_run_id = "ol-rt1-knee-confirm-ext-20260829-b"

-- Order, repetition and rate.
abbrev pub stage_b_order : List (ℕ × ℕ × ℕ)
stage_b_order =
    (1, 1, 42)
    ∷ (2, 1, 41)
    ∷ (3, 2, 41)
    ∷ (4, 2, 42)
    ∷ (5, 3, 42)
    ∷ (6, 3, 41)
    ∷ (7, 4, 41)
    ∷ (8, 4, 42)
    ∷ (9, 5, 42)
    ∷ (10, 5, 41)
    ∷ []

-- A cell as `_observed_order` reads it, with its "run_id".
pub record Seen (F : Type 0) : Type 0 where
  pub order : ℤ
  pub repetition : ℤ
  pub offered : ℕ
  pub run_id : Option (Json F)

-- `{order:03d}`
unfoldable pub three_digits : ℕ → Text
three_digits n = (if ltb n 10 then codes "00" else if ltb n 100 then codes "0" else []) ++ decimal n

-- `STAGE_A_ORDER_BY_PAIR[(repetition, rate)]`
unfoldable pub order_by_pair : List (ℕ × ℕ × ℕ) → ℤ → ℕ → Checked ℕ
order_by_pair [] repetition offered = err key_error
order_by_pair ((order, r, o) ∷ rest) repetition offered =
    if repetition ==ℤ pos r && offered == o then ok order else order_by_pair rest repetition offered

module _ {F : Type 0} where
  -- `document[key]`
  unfoldable pub entry : Fields F → String → Checked (Json F)
  entry document key = elim (get document key) [ none ↦ err key_error | some value ↦ ok value ]

  unfoldable pub is_at : ℤ → ℕ → Seen F → Bool
  is_at repetition offered seen = seen.repetition ==ℤ repetition && seen.offered == offered

  -- `pair_orders[(repetition, rate)]`
  unfoldable pub pair_order : List (Seen F) → ℤ → ℕ → Checked ℤ
  pair_order [] repetition offered = err key_error
  pair_order (seen ∷ rest) repetition offered =
      if is_at repetition offered seen then ok seen.order else pair_order rest repetition offered

  unfoldable pub insert_seen : Seen F → List (Seen F) → List (Seen F)
  insert_seen a [] = a ∷ []
  insert_seen a (b ∷ bs) =
      let rest = insert_seen a bs in if ltb_ℤ b.order a.order then b ∷ rest else a ∷ b ∷ bs

  -- `sorted(observed)`, where the orders are unique
  unfoldable pub sort_seen : List (Seen F) → List (Seen F)
  sort_seen [] = []
  sort_seen (a ∷ rest) = insert_seen a (sort_seen rest)

  unfoldable pub matches : List (ℕ × ℕ × ℕ) → List (Seen F) → Bool
  matches [] [] = true
  matches ((order, repetition, offered) ∷ expected) (seen ∷ rest) =
      seen.order ==ℤ pos order && is_at (pos repetition) offered seen && matches expected rest
  matches _ _ = false

  -- The loop that fills `pair_orders`.
  unfoldable pub check_pairs : List (Seen F) → Checked (Unit {0})
  check_pairs [] = ok tt
  check_pairs (seen ∷ rest) = do
    demand (not (any (is_at seen.repetition seen.offered) rest)) duplicate_pair
    check_pairs rest

  -- `set(pair_orders) == expected_pairs`
  unfoldable pub has_expected_pairs : List (Seen F) → Bool
  has_expected_pairs observed =
      all (λ b. any (is_at (pos b) low_rate) observed && any (is_at (pos b) high_rate) observed)
        blocks
      && all
          (λ seen.
            any (λ b. is_at (pos b) low_rate seen) blocks
            || any (λ b. is_at (pos b) high_rate seen) blocks)
          observed

  unfoldable pub adjacent_pairs : List (Seen F) → List ℕ → Checked Bool
  adjacent_pairs observed [] = ok true
  adjacent_pairs observed (block ∷ rest) = do
    low ← pair_order observed (pos block) low_rate
    high ← pair_order observed (pos block) high_rate
    if is_next low high then adjacent_pairs observed rest else ok false

  unfoldable pub has_run_id : ℕ → Option (Json F) → Bool
  has_run_id order (some (str s)) =
      text_eq (codes s)
        (codes "ol-" ++ (codes stage_b_run_id ++ (codes "-o" ++ three_digits order)))
  has_run_id order _ = false

  unfoldable pub expected_run_ids : List (Seen F) → Bool
  expected_run_ids observed =
      all (λ order. any (λ seen. seen.order ==ℤ pos order && has_run_id order seen.run_id) observed)
        (1 ∷ 2 ∷ 3 ∷ 4 ∷ 5 ∷ 6 ∷ 7 ∷ 8 ∷ 9 ∷ 10 ∷ [])

  unfoldable pub with_order : ParsedCell F → ℤ → ParsedCell F
  with_order cell order = record {
    rate_group = cell.rate_group;
    load = record {
      order = order;
      repetition = cell.load.repetition;
      run_id = cell.load.run_id;
      aggregate_offered_rps = cell.load.aggregate_offered_rps;
      useful_rps = cell.load.useful_rps;
      success_ratio = cell.load.success_ratio;
      acceptance_ratio = cell.load.acceptance_ratio;
      errors = cell.load.errors;
      in_flight_drops = cell.load.in_flight_drops;
      schedule_drops = cell.load.schedule_drops;
      drained = cell.load.drained;
      drain_ratio = cell.load.drain_ratio;
      in_flight_drop_ratio = cell.load.in_flight_drop_ratio;
      schedule_drop_ratio = cell.load.schedule_drop_ratio;
    };
    latency = cell.latency;
    attribution = cell.attribution;
  }

  -- The orders of stage B, put back into the cells.
  unfoldable pub restore_cells :
      List (Seen F) → ℕ → List (ParsedCell F) → Checked (List (ParsedCell F))
  restore_cells observed offered [] = ok []
  restore_cells observed offered (cell ∷ cells) = do
    order ← pair_order observed cell.load.repetition offered
    rest ← restore_cells observed offered cells
    ok (with_order cell order ∷ rest)

  unfoldable pub restore : List (Seen F) → ByRate F → Checked (ByRate F)
  restore observed [] = ok []
  restore observed ((offered, cells) ∷ points) = do
    restored ← restore_cells observed offered cells
    rest ← restore observed points
    ok ((offered, restored) ∷ rest)

module _ {F : Type 0} ⦃fl : Floats F⦄ (parse_float : String → Option F) where
  unfoldable pub observe_cells : ℕ → List (Json F) → Checked (List (Seen F))
  observe_cells offered [] = ok []
  observe_cells offered (raw ∷ raws) = do
    cell ← mapping "cells" raw
    order ← integer_from (pos 1) "order" (← required cell "order")
    repetition ← integer_from (pos 1) "repetition" (← required cell "repetition")
    rest ← observe_cells offered raws
    ok (
        record {
          order = order;
          repetition = repetition;
          offered = offered;
          run_id = get cell "run_id";
        }
        ∷ rest)

  unfoldable pub observe_points : List (Json F) → Checked (List (Seen F))
  observe_points [] = ok []
  observe_points (raw ∷ raws) = do
    point ← mapping "rates" raw
    offered ← rate parse_float "offered_rps_per_target" (← required point "offered_rps_per_target")
    cells ← sequence "cells" (← required point "cells")
    here ← observe_cells offered cells
    rest ← observe_points raws
    ok (here ++ rest)

  unfoldable pub observed_order : Fields F → Checked (List (Seen F))
  observed_order summary = do
    rates ← sequence "rates" (← required summary "rates")
    observed ← observe_points rates
    demand (length observed == 10) wrong_cell_count
    demand (is_permutation_to 10 (map (λ seen. seen.order) observed)) wrong_orders
    ok (sort_seen observed)

  -- The copy of the cells with the orders of stage A.
  unfoldable pub adapt_cells : ℕ → List (Json F) → Checked (List (Json F))
  adapt_cells offered [] = ok []
  adapt_cells offered (raw ∷ raws) = do
    cell ← mapping "cells" raw
    repetition ← integer_from (pos 1) "repetition" (← entry cell "repetition")
    order ← order_by_pair expected_order repetition offered
    rest ← adapt_cells offered raws
    ok (obj (put_field cell "order" (int (pos order))) ∷ rest)

  unfoldable pub adapt_points : List (Json F) → Checked (List (Json F))
  adapt_points [] = ok []
  adapt_points (raw ∷ raws) = do
    point ← mapping "rates" raw
    offered ← rate parse_float "offered_rps_per_target" (← entry point "offered_rps_per_target")
    cells ← adapt_cells offered (← sequence "cells" (← entry point "cells"))
    rest ← adapt_points raws
    ok (obj (put_field point "cells" (arr (items_from cells))) ∷ rest)

  -- The copy of the summary that the first analyzer reads.
  unfoldable pub adapt : Fields F → Checked (Json F)
  adapt summary = do
    points ← adapt_points (← sequence "rates" (← entry summary "rates"))
    ok (
        obj (
          put_field (put_field summary "run_id" (str stage_a_run_id)) "rates"
            (arr (items_from points))))

  unfoldable pub stage_b_checks : String → List (Seen F) → Bool → Checks
  stage_b_checks run_id observed adjacent =
      ("stage_b_frozen_run_id", str_eq run_id stage_b_run_id)
      ∷ ("stage_b_complementary_seed_generated_order", matches stage_b_order observed)
      ∷ ("stage_b_adjacent_pairing_by_repetition", adjacent)
      ∷ ("stage_b_cell_run_ids_match_order", expected_run_ids observed)
      ∷ []

  -- The reading of stage B, up to the copy for the first analyzer.
  unfoldable pub read_stage_b : Fields F → Checked (List (Seen F) × Checks × Json F)
  read_stage_b summary = do
    observed ← observed_order summary
    run_id ← string "run_id" (← required summary "run_id")
    check_pairs observed
    demand (has_expected_pairs observed) wrong_pairs
    adjacent ← adjacent_pairs observed blocks
    adapted ← adapt summary
    ok (observed, stage_b_checks run_id observed adjacent, adapted)

  unfoldable pub extract_stage_b : Fields F → Checked (ByRate F × Checks)
  extract_stage_b summary = do
    read ← read_stage_b summary
    (points, external) ← extract parse_float read.2
    restored ← restore read.0 points
    ok (restored, external ++ read.1)
