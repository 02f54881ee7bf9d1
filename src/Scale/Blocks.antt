-- ===== src/Scale/Blocks.antt =====
-- The cells of a built plan pass the first half of `validate_plan`: the header, and the five crossover
-- blocks of a cell at 41 and a cell at 42.
use llm_d_sc_benchmark.Prelude.{
  ℕ, zero, suc, ◌<◌, ◌≡◌, refl, ap, true, some, List, [], ◌∷◌, map, arith, ℤ, ok, ◌==◌, length,
  replicate, keep, all, Bool-cases, inl, inr, ==_refl, length-replicate,
}
use llm_d_sc_benchmark.Prelude.Decimal.{Text}
use llm_d_sc_benchmark.Plan.Types.{Cell}
use llm_d_sc_benchmark.Plan.Cells.{
  active_rates, make_cell, knee_cells, orders, opening_cells, closing_cells, frozen_cells, is_even,
}
use llm_d_sc_benchmark.Plan.Slots.{named}
use llm_d_sc_benchmark.Scale.Validate.{
  is_knee, has_block, both_periods, is_pure, first_rate, pair_rates, is_41_42, validate_block,
  validate_blocks,
}

active_rates-replicate : (n rate : ℕ) → active_rates (replicate n (some rate)) ≡ replicate n rate
unfolding active_rates
active_rates-replicate zero rate = refl
active_rates-replicate (suc n) rate = ap (λ rates. rate ∷ rates) (active_rates-replicate n rate)

all_same : (n rate : ℕ) → all (λ r. r == rate) (replicate n rate) ≡ true
all_same zero rate = refl
all_same (suc n) rate = ground (arith, all_same n rate)

is_pure-replicate : (n rate : ℕ) → 0 < n → is_pure (replicate n rate) ≡ true
unfolding is_pure
is_pure-replicate zero rate h = absurd (omega arith)
is_pure-replicate (suc n) rate h = all_same n rate

first_rate-replicate : (n rate : ℕ) → 0 < n → first_rate (replicate n rate) ≡ rate
unfolding first_rate
first_rate-replicate zero rate h = absurd (omega arith)
first_rate-replicate (suc n) rate h = refl

pair_rates_nil : (n : ℕ) → pair_rates n [] ≡ ok []
unfolding pair_rates
pair_rates_nil n = refl

-- A cell with one rate at every replica gives that rate.
pair_rates_cons :
    (n rate : ℕ) (cell : Cell) (cells : List Cell) {rest : List ℕ}
    → 0 < n
    → cell.endpoint_offered_rps ≡ replicate n (some rate)
    → pair_rates n cells ≡ ok rest
    → pair_rates n (cell ∷ cells) ≡ ok (rate ∷ rest)
unfolding pair_rates
pair_rates_cons n rate cell cells h e r = rw (
  e,
  active_rates-replicate n rate,
  length-replicate n rate,
  ==_refl n,
  is_pure-replicate n rate h,
  r,
  first_rate-replicate n rate h,
)

-- A block passes if it has two cells, of the two periods, one at 41 and the other at 42.
validate_block_ok :
    (n block a b : ℕ) (x y : Cell) (cells : List Cell)
    → 0 < n
    → keep (has_block block) cells ≡ x ∷ y ∷ []
    → both_periods (x ∷ y ∷ []) ≡ true
    → x.endpoint_offered_rps ≡ replicate n (some a)
    → y.endpoint_offered_rps ≡ replicate n (some b)
    → is_41_42 (a ∷ b ∷ []) ≡ true
    → validate_block n cells block ≡ ok tt
unfolding validate_block
validate_block_ok n block a b x y cells h pair periods ex ey rates = rw (
  pair,
  periods,
  pair_rates_cons n a x (y ∷ []) h ex (pair_rates_cons n b y [] h ey (pair_rates_nil n)),
  rates,
)

module _ (sha256_hex : Text → Text) (run_id : Text) (c n : ℕ) (h : 0 < n) where
  abbrev knee_planned : List (ℕ × ℕ) → List Cell
  knee_planned os = map (named sha256_hex run_id c) (knee_cells n 3 1 os)

  validate_orders :
      (a b : ℕ)
      → is_41_42 (a ∷ b ∷ []) ≡ true
      → validate_blocks n
          (knee_planned ((41, 42) ∷ (42, 41) ∷ (41, 42) ∷ (42, 41) ∷ (a, b) ∷ []))
          (1 ∷ 2 ∷ 3 ∷ 4 ∷ 5 ∷ [])
        ≡ ok tt
  unfolding validate_blocks knee_cells make_cell has_block both_periods is_41_42
  validate_orders a b rates =
      let cells = knee_planned ((41, 42) ∷ (42, 41) ∷ (41, 42) ∷ (42, 41) ∷ (a, b) ∷ []) in
      rw (
        validate_block_ok n 1 41 42 _ _ cells h refl refl refl refl refl,
        validate_block_ok n 2 42 41 _ _ cells h refl refl refl refl refl,
        validate_block_ok n 3 41 42 _ _ cells h refl refl refl refl refl,
        validate_block_ok n 4 42 41 _ _ cells h refl refl refl refl refl,
        validate_block_ok n 5 a b _ _ cells h refl refl refl refl rates,
      )

  keep-knee :
      (ci : ℤ)
      → keep is_knee (map (named sha256_hex run_id c) (frozen_cells n ci))
        ≡ knee_planned (orders ci)
  unfolding frozen_cells opening_cells closing_cells knee_cells orders make_cell is_knee
  keep-knee ci = refl

  -- The five blocks of the frozen order pass, whichever way the fifth block is turned.
  pub validate_blocks_ok :
      (ci : ℤ)
      → validate_blocks n
          (keep is_knee (map (named sha256_hex run_id c) (frozen_cells n ci)))
          (1 ∷ 2 ∷ 3 ∷ 4 ∷ 5 ∷ [])
        ≡ ok tt
  unfolding orders
  validate_blocks_ok ci = elim (Bool-cases (is_even ci)) [
    | inl e ↦ rw (keep-knee ci, e) (validate_orders 41 42 (unfold is_41_42 in refl))
    | inr e ↦ rw (keep-knee ci, e) (validate_orders 42 41 (unfold is_41_42 in refl))
  ]

  pub length-knee :
      (ci : ℤ) → length (keep is_knee (map (named sha256_hex run_id c) (frozen_cells n ci))) ≡ 10
  unfolding knee_cells orders
  length-knee ci = rw (keep-knee ci)

  pub length-frozen : (ci : ℤ) → length (map (named sha256_hex run_id c) (frozen_cells n ci)) ≡ 16
  unfolding frozen_cells opening_cells closing_cells knee_cells orders
  length-frozen ci = refl
