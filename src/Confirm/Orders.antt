-- ===== src/Confirm/Orders.antt =====
-- hack/arena-sc-knee-confirm-analyze.py: the cells of `by_rate`, and the tests of their order in `_extract`.
use llm_d_sc_benchmark.Prelude.{
  ◌==ℤ◌, ℕ, zero, suc, Bool, true, false, ◌&&◌, ◌||◌, List, [], ◌∷◌, ◌++◌, map, ℤ, pos, ltb_ℤ, ok,
  err, ◌>>=◌, ◌==◌, ◌-ℤ◌, if◌then◌else◌, any,
}
use llm_d_sc_benchmark.Confirm.Fields.{Checked, key_error}
use llm_d_sc_benchmark.Confirm.Cells.{ParsedCell}
use llm_d_sc_benchmark.Confirm.Runtime.{}

abbrev pub low_rate : ℕ
low_rate = 41

abbrev pub high_rate : ℕ
high_rate = 42

-- The repetitions 1 to 5.
abbrev pub blocks : List ℕ
blocks = 1 ∷ 2 ∷ 3 ∷ 4 ∷ 5 ∷ []

unfoldable pub insert_int : ℤ → List ℤ → List ℤ
insert_int a [] = a ∷ []
insert_int a (b ∷ bs) = if ltb_ℤ b a then b ∷ insert_int a bs else a ∷ b ∷ bs

unfoldable pub sort_ints : List ℤ → List ℤ
sort_ints [] = []
sort_ints (a ∷ rest) = insert_int a (sort_ints rest)

-- `values == list(range(lo, lo + n))`
unfoldable pub is_range : ℕ → ℕ → List ℤ → Bool
is_range lo zero [] = true
is_range lo zero (a ∷ rest) = false
is_range lo (suc n) [] = false
is_range lo (suc n) (a ∷ rest) = a ==ℤ pos lo && is_range (suc lo) n rest

-- `sorted(values) == list(range(1, n + 1))`
unfoldable pub is_permutation_to : ℕ → List ℤ → Bool
is_permutation_to n values = is_range 1 n (sort_ints values)

-- `by_rate`: a rate point with its cells.
abbrev pub ByRate : Type 0 → Type 0
ByRate F = List (ℕ × List (ParsedCell F))

-- `abs(low - high) == 1`
unfoldable pub is_next : ℤ → ℤ → Bool
is_next a b = a -ℤ b ==ℤ pos 1 || b -ℤ a ==ℤ pos 1

abbrev pub expected_order : List (ℕ × ℕ × ℕ)
expected_order =
    (1, 1, 41)
    ∷ (2, 1, 42)
    ∷ (3, 2, 42)
    ∷ (4, 2, 41)
    ∷ (5, 3, 41)
    ∷ (6, 3, 42)
    ∷ (7, 4, 42)
    ∷ (8, 4, 41)
    ∷ (9, 5, 41)
    ∷ (10, 5, 42)
    ∷ []

module _ {F : Type 0} where
  unfoldable pub has_rate : ℕ → ByRate F → Bool
  has_rate wanted points = any (λ point. point.0 == wanted) points

  -- `cells[repetition]`
  unfoldable pub cell_of : List (ParsedCell F) → ℕ → Checked (ParsedCell F)
  cell_of [] block = err key_error
  cell_of (cell ∷ cells) block =
      if cell.load.repetition ==ℤ pos block then ok cell else cell_of cells block

  -- `by_rate[wanted][block]`
  unfoldable pub cell_at : ByRate F → ℕ → ℕ → Checked (ParsedCell F)
  cell_at [] wanted block = err key_error
  cell_at ((r, cells) ∷ points) wanted block =
      if r == wanted then cell_of cells block else cell_at points wanted block

  unfoldable pub repetitions_of : List (ParsedCell F) → List ℤ
  repetitions_of cells = map (λ c. c.load.repetition) cells

  unfoldable pub all_cells : ByRate F → List (ParsedCell F)
  all_cells [] = []
  all_cells ((r, cells) ∷ points) = cells ++ all_cells points

  insert_by_order : ParsedCell F → List (ParsedCell F) → List (ParsedCell F)
  insert_by_order a [] = a ∷ []
  insert_by_order a (b ∷ bs) =
      if ltb_ℤ b.load.order a.load.order then b ∷ insert_by_order a bs else a ∷ b ∷ bs

  sort_by_order : List (ParsedCell F) → List (ParsedCell F)
  sort_by_order [] = []
  sort_by_order (a ∷ rest) = insert_by_order a (sort_by_order rest)

  unfoldable pub matches_order : List (ℕ × ℕ × ℕ) → List (ParsedCell F) → Bool
  matches_order [] [] = true
  matches_order [] (c ∷ cells) = false
  matches_order (e ∷ expected) [] = false
  matches_order ((order, repetition, wanted) ∷ expected) (c ∷ cells) =
      c.load.order ==ℤ pos order
      && c.load.repetition ==ℤ pos repetition
      && c.rate_group == wanted
      && matches_order expected cells

  unfoldable pub in_expected_order : ByRate F → Bool
  unfolding insert_by_order sort_by_order
  in_expected_order points = matches_order expected_order (sort_by_order (all_cells points))

  -- `all` stops at the first pair that is not adjacent.
  unfoldable pub pairs_adjacent : ByRate F → List ℕ → Checked Bool
  pairs_adjacent points [] = ok true
  pairs_adjacent points (block ∷ rest) = do
    low ← cell_at points low_rate block
    high ← cell_at points high_rate block
    if is_next low.load.order high.load.order then pairs_adjacent points rest else ok false
