-- ===== src/Confirm/Found.antt =====
-- The cells that `_extract` accepts: each block of both rates has its cell, so no lookup of `analyze` fails.
use llm_d_sc_benchmark.Prelude.{
  ◌==ℤ◌, ℕ, zero, suc, ◌+◌, ◌≤◌, ◌<◌, ◌≡◌, refl, sym, ap, ◌∙◌, String, Bool, true, ◌&&◌, ◌||◌,
  Option, List, [], ◌∷◌, ◌++◌, arith, ℤ, pos, negsuc, ok, ◌==◌, length, any, elem, All, All-append,
  >>=-eq-ok, require_ok, ok-injective, and-eq-true, Bool-cases, inl, inr, ◌⊎◌,
}
use mathlib.Core.Path.{subst}
use llm_d_sc_benchmark.Prelude.Json.{Json, Fields}
use llm_d_sc_benchmark.Prelude.Floats.{Floats}
use llm_d_sc_benchmark.Confirm.Fields.{
  demand, required, mapping, sequence, wrong_cell_count, wrong_repetitions, wrong_rates,
}
use llm_d_sc_benchmark.Confirm.Cells.{
  ParsedCell, parse_load, parse_latency, parse_attribution, parse_cell,
}
use llm_d_sc_benchmark.Confirm.Runtime.{Checks}
use llm_d_sc_benchmark.Confirm.Orders.{
  low_rate, high_rate, blocks, ByRate, insert_int, sort_ints, is_range, is_permutation_to,
  repetitions_of, has_rate, cell_of, cell_at,
}
use llm_d_sc_benchmark.Confirm.Extract.{
  parse_cells, read_cells, read_rate, read_point, read_points, read_summary, check_points, extract,
}

pub ==ℤ-pos : (a : ℤ) (n : ℕ) → (a ==ℤ pos n) ≡ true → a ≡ pos n
==ℤ-pos (pos m) n h = let e : m ≡ n = ground arith in rw e refl
==ℤ-pos (negsuc m) n h = ground arith

any-insert_int : (p : ℤ → Bool) (a : ℤ) (l : List ℤ) → any p (insert_int a l) ≡ (p a || any p l)
unfolding insert_int
any-insert_int p a [] = refl
any-insert_int p a (b ∷ bs) = ground (arith, any-insert_int p a bs)

any-sort_ints : (p : ℤ → Bool) (l : List ℤ) → any p (sort_ints l) ≡ any p l
unfolding sort_ints
any-sort_ints p [] = refl
any-sort_ints p (a ∷ l) = ground (arith, any-insert_int p a (sort_ints l), any-sort_ints p l)

any-is_range :
    (x n lo : ℕ) (l : List ℤ)
    → is_range lo n l ≡ true
    → lo ≤ x
    → x < lo + n
    → any (λ a. a ==ℤ pos x) l ≡ true
unfolding is_range
any-is_range x zero lo l h le lt = absurd (omega arith)
any-is_range x (suc n) lo [] h le lt = cc
any-is_range x (suc n) lo (a ∷ l) h le lt = elim (Bool-cases (lo == x)) [
  | inl e ↦
      let e' : lo ≡ x = ground arith in
      let here : (a ==ℤ pos lo) ≡ true = ground arith in rw (==ℤ-pos a lo here, e') (ground arith)
  | inr e ↦
      let later = any-is_range x n (suc lo) l (ground arith) (ground arith) (ground arith) in
      ground (arith, later)
]

any-blocks :
    (l : List ℤ) (block : ℕ)
    → is_permutation_to 5 l ≡ true
    → elem block blocks ≡ true
    → any (λ a. a ==ℤ pos block) l ≡ true
unfolding is_permutation_to
any-blocks l block h e =
    sym (any-sort_ints (λ a. a ==ℤ pos block) l)
    ∙ any-is_range block 5 1 (sort_ints l) h (ground arith) (ground arith)

module _ {F : Type 0} where
  -- The cell has the rate of its point and the repetition of its block.
  IsPlaced : ℕ → ℕ → ParsedCell F → Type 0
  IsPlaced wanted block cell = (cell.rate_group ≡ wanted) × (cell.load.repetition ≡ pos block)

  -- What the loop over the rate points establishes of a point.
  record IsComplete (point : ℕ × List (ParsedCell F)) : Type 0 where
    rates : All (λ c. c.rate_group ≡ point.0) point.1
    permuted : is_permutation_to 5 (repetitions_of point.1) ≡ true

  cell_of_found :
      (wanted block : ℕ) (cells : List (ParsedCell F))
      → All (λ c. c.rate_group ≡ wanted) cells
      → any (λ a. a ==ℤ pos block) (repetitions_of cells) ≡ true
      → (cell : ParsedCell F) × (cell_of cells block ≡ ok cell) × IsPlaced wanted block cell
  unfolding cell_of repetitions_of IsPlaced
  cell_of_found wanted block [] rates h = cc
  cell_of_found wanted block (cell ∷ cells) (here, rates) h =
      elim (Bool-cases (cell.load.repetition ==ℤ pos block)) [
        | inl e ↦ (cell, rw (e, cell_of) refl, (here, ==ℤ-pos cell.load.repetition block e))
        | inr e ↦
            let (found, found_lem, placed) =
              cell_of_found wanted block cells rates (ground arith) in
            (found, rw (e, cell_of) found_lem, placed)
      ]

  cell_at_found :
      (wanted block : ℕ) (points : ByRate F)
      → All IsComplete points
      → has_rate wanted points ≡ true
      → elem block blocks ≡ true
      → (cell : ParsedCell F) × (cell_at points wanted block ≡ ok cell) × IsPlaced wanted block cell
  unfolding cell_at has_rate
  cell_at_found wanted block [] complete h e = cc
  cell_at_found wanted block ((r, cells) ∷ points) (first, complete) h e =
      elim (Bool-cases (r == wanted)) [
        | inl same ↦
            let e' : r ≡ wanted = ground arith in
            let (cell, found, placed) =
              cell_of_found r block cells first.rates
                (any-blocks (repetitions_of cells) block first.permuted e) in
            (cell, rw (same, cell_at) found, subst (λ w. IsPlaced w block cell) e' placed)
        | inr differ ↦
            let (cell, found, placed) =
              cell_at_found wanted block points complete (ground arith) e in
            (cell, rw (differ, cell_at) found, placed)
      ]

module _ {F : Type 0} ⦃fl : Floats F⦄ where
  parse_cell-rate :
      (parse_float : String → Option F) (wanted : ℕ) (raw : Json F) (cell : ParsedCell F)
      → parse_cell parse_float wanted raw ≡ ok cell
      → cell.rate_group ≡ wanted
  unfolding parse_cell
  parse_cell-rate parse_float wanted raw cell h =
      let (fields, h0, h1) = >>=-eq-ok (mapping "cell" raw) _ h in
      let (load, h2, h3) = >>=-eq-ok (parse_load parse_float fields wanted) _ h1 in
      let (latency, h4, h5) = >>=-eq-ok (parse_latency fields) _ h3 in
      let (attribution, h6, h7) = >>=-eq-ok (parse_attribution fields) _ h5 in
      sym (ap (λ c. c.rate_group) (ok-injective h7))

  parse_cells-rate :
      (parse_float : String → Option F) (wanted : ℕ) (raws : List (Json F))
      (cells : List (ParsedCell F))
      → parse_cells parse_float wanted raws ≡ ok cells
      → All (λ c. c.rate_group ≡ wanted) cells
  unfolding parse_cells
  parse_cells-rate parse_float wanted [] cells h =
      subst (All (λ c. c.rate_group ≡ wanted)) (ok-injective h) tt
  parse_cells-rate parse_float wanted (raw ∷ raws) cells h =
      let (first, h0, h1) = >>=-eq-ok (parse_cell parse_float wanted raw) _ h in
      let (rest, h2, h3) = >>=-eq-ok (parse_cells parse_float wanted raws) _ h1 in
      subst (All (λ c. c.rate_group ≡ wanted)) (ok-injective h3) (
        parse_cell-rate parse_float wanted raw first h0,
        parse_cells-rate parse_float wanted raws rest h2,
      )

  read_cells-IsComplete :
      (parse_float : String → Option F) (wanted : ℕ) (point : Fields F)
      (cells : List (ParsedCell F))
      → read_cells parse_float wanted point ≡ ok cells
      → IsComplete (wanted, cells)
  unfolding read_cells
  read_cells-IsComplete parse_float wanted point cells h =
      let (value, h0, h1) = >>=-eq-ok (required point "cells") _ h in
      let (raws, h2, h3) = >>=-eq-ok (sequence "cells" value) _ h1 in
      let (u, h4, h5) = >>=-eq-ok (demand (length raws == 5) wrong_cell_count) _ h3 in
      let (read, h6, h7) = >>=-eq-ok (parse_cells parse_float wanted raws) _ h5 in
      let (v, h8, h9) =
        >>=-eq-ok (demand (is_permutation_to 5 (repetitions_of read)) wrong_repetitions) _ h7 in
      subst (λ cs. IsComplete (wanted, cs)) (ok-injective h9)
        (record {
          rates = parse_cells-rate parse_float wanted raws read h6;
          permuted = require_ok (is_permutation_to 5 (repetitions_of read)) _ h8;
        })

  read_point-IsComplete :
      (parse_float : String → Option F) (points : ByRate F) (raw : Json F)
      (result : (ℕ × List (ParsedCell F)) × List Bool)
      → read_point parse_float points raw ≡ ok result
      → IsComplete result.0
  unfolding read_point
  read_point-IsComplete parse_float points raw result h =
      let (point, h0, h1) = >>=-eq-ok (mapping "rates" raw) _ h in
      let (point_rate, h2, h3) = >>=-eq-ok (read_rate parse_float points point) _ h1 in
      let (cells, h4, h5) = >>=-eq-ok (read_cells parse_float point_rate.0 point) _ h3 in
      subst (λ r. IsComplete r.0) (ok-injective h5)
        (read_cells-IsComplete parse_float point_rate.0 point cells h4)

  read_points-IsComplete :
      (parse_float : String → Option F) (raws : List (Json F)) (points : ByRate F)
      (checks : List Bool) (result : ByRate F × List Bool)
      → All IsComplete points
      → read_points parse_float raws points checks ≡ ok result
      → All IsComplete result.0
  unfolding read_points
  read_points-IsComplete parse_float [] points checks result complete h =
      subst (λ r. All IsComplete r.0) (ok-injective h) complete
  read_points-IsComplete parse_float (raw ∷ raws) points checks result complete h =
      let (read, h0, h1) = >>=-eq-ok (read_point parse_float points raw) _ h in
      read_points-IsComplete parse_float raws (points ++ read.0 ∷ []) (checks ++ read.1) result
        (All-append IsComplete points (read.0 ∷ []) complete
          (read_point-IsComplete parse_float points raw read h0, tt))
        h1

  check_points-rates :
      (points : ByRate F) (adjacent : Bool)
      → check_points points ≡ ok adjacent
      → (has_rate low_rate points ≡ true) × (has_rate high_rate points ≡ true)
  unfolding check_points
  check_points-rates points adjacent h =
      let both = has_rate low_rate points && has_rate high_rate points in
      let (u, h0, h1) = >>=-eq-ok (demand both wrong_rates) _ h in
      (and-eq-true (has_rate low_rate points) (has_rate high_rate points)).0 (require_ok both _ h0)

  extract-IsComplete :
      (parse_float : String → Option F) (raw : Json F) (result : ByRate F × Checks)
      → extract parse_float raw ≡ ok result
      → (All IsComplete result.0)
        × (has_rate low_rate result.0 ≡ true)
        × (has_rate high_rate result.0 ≡ true)
  unfolding extract
  extract-IsComplete parse_float raw result h =
      let (summary, h0, h1) = >>=-eq-ok (read_summary raw) _ h in
      let (read, h2, h3) = >>=-eq-ok (read_points parse_float summary.2 [] []) _ h1 in
      let (adjacent, h4, h5) = >>=-eq-ok (check_points read.0) _ h3 in
      let same : read.0 ≡ result.0 = ap (λ r. r.0) (ok-injective h5) in
      let (low, high) = check_points-rates read.0 adjacent h4 in
      (
        subst (All IsComplete) same (read_points-IsComplete parse_float summary.2 [] [] read tt h2),
        subst (λ p. has_rate low_rate p ≡ true) same low,
        subst (λ p. has_rate high_rate p ≡ true) same high,
      )

  -- Of an accepted summary, each of the blocks 1 to 5 has its cell at 41 and at 42 requests a second,
  -- with the rate of its point and the repetition of its block: no lookup in `by_rate` raises.
  pub extract_lem :
      (parse_float : String → Option F) (raw : Json F) (points : ByRate F) (external : Checks)
      → extract parse_float raw ≡ ok (points, external)
      → (block wanted : ℕ) → elem block blocks ≡ true
      → (wanted ≡ low_rate) ⊎ (wanted ≡ high_rate)
      → (cell : ParsedCell F) × (cell_at points wanted block ≡ ok cell)
        × (cell.rate_group ≡ wanted)
        × (cell.load.repetition ≡ pos block)
  unfolding IsPlaced
  extract_lem parse_float raw points external h block wanted e either =
      let (complete, low, high) = extract-IsComplete parse_float raw (points, external) h in
      let present : has_rate wanted points ≡ true = elim either [
        | inl same ↦ rw same low
        | inr same ↦ rw same high
      ] in
      let (cell, found, placed) = cell_at_found wanted block points complete present e in
      (cell, found, placed.0, placed.1)
