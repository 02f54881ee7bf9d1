-- ===== src/Plan/Order.antt =====
-- The slots of the frozen order come in ascending order of cell and endpoint, all below a hundred, so
-- their jobs have different names.
use llm_d_sc_benchmark.Prelude.{
  ℕ, zero, suc, ◌+◌, ◌*◌, ◌≤◌, ◌<◌, ◌≡◌, refl, sym, ap, Option, none, some, List, [], ◌∷◌, ◌++◌,
  arith, ℤ, length, replicate, length-replicate,
}
use llm_d_sc_benchmark.Prelude.Decimal.{Text, codes, pad2_lem}
use mathlib.Core.List.{append_cancel_left}
use mathlib.Core.Path.{subst}
use llm_d_sc_benchmark.Plan.Types.{Cell}
use llm_d_sc_benchmark.Plan.Cells.{
  active_from, make_cell, only_zero, knee_cells, orders, opening_cells, closing_cells, frozen_cells,
}
use llm_d_sc_benchmark.Plan.Build.{job_name}
use llm_d_sc_benchmark.Plan.Slots.{Slot, cell_slots, slots}

abbrev pub key : Slot → ℕ
key (cell, e) = cell.ordinal * 100 + e

-- Ascending from `lo` on, with two-digit numbers.
abbrev pub IsAscending : ℕ → List Slot → Type 0
IsAscending lo [] = Unit
IsAscending lo ((cell, e) ∷ ss) =
    (lo ≤ key (cell, e)) × (cell.ordinal < 100) × (e < 100) × IsAscending (suc (key (cell, e))) ss

pub IsAscending-mono :
    (lo hi : ℕ) (ss : List Slot) → lo ≤ hi → IsAscending hi ss → IsAscending lo ss
IsAscending-mono lo hi [] h a = tt
IsAscending-mono lo hi ((cell, e) ∷ ss) h (le, ho, he, rest) = (omega arith, ho, he, rest)

-- What makes the slots of the cells ascend.
abbrev IsOrdered : ℕ → List Cell → Type 0
IsOrdered lo [] = Unit
IsOrdered lo (c ∷ cs) =
    (c.active_endpoints ≡ active_from 0 c.endpoint_offered_rps)
    × (lo ≤ c.ordinal)
    × (c.ordinal < 100)
    × (length c.endpoint_offered_rps ≤ 100)
    × IsOrdered (suc c.ordinal) cs

cell-IsAscending :
    (cell : Cell) (i : ℕ) (rates : List (Option ℕ)) (rest : List Slot)
    → cell.ordinal < 100
    → i + length rates ≤ 100
    → IsAscending (suc cell.ordinal * 100) rest
    → IsAscending (cell.ordinal * 100 + i) (cell_slots cell (active_from i rates) ++ rest)
unfolding active_from
cell-IsAscending cell i [] rest o h r = IsAscending-mono _ _ rest (omega arith) r
cell-IsAscending cell i (none ∷ rates) rest o h r =
    IsAscending-mono _ _ _ (omega arith)
      (cell-IsAscending cell (suc i) rates rest o (omega arith) r)
cell-IsAscending cell i (some rate ∷ rates) rest o h r = (
  omega arith,
  o,
  omega arith,
  IsAscending-mono _ _ _ (omega arith) (cell-IsAscending cell (suc i) rates rest o (omega arith) r),
)

slots-IsAscending :
    (lo : ℕ) (cells : List Cell) → IsOrdered lo cells → IsAscending (lo * 100) (slots cells)
slots-IsAscending lo [] h = tt
slots-IsAscending lo (c ∷ cs) (active, low, high, fits, rest) =
    subst (λ es. IsAscending (lo * 100) (cell_slots c es ++ slots cs)) (sym active)
      (IsAscending-mono (lo * 100) (c.ordinal * 100 + 0) _ (omega arith) (
        cell-IsAscending c 0 c.endpoint_offered_rps (slots cs) high (omega arith)
          (slots-IsAscending (suc c.ordinal) cs rest)))

length-only_zero : (n rate : ℕ) → length (only_zero n rate) ≡ n
unfolding only_zero
length-only_zero zero rate = refl
length-only_zero (suc n) rate = ap suc (length-replicate n none)

IsOrdered-mono : (lo hi : ℕ) (cs : List Cell) → lo ≤ hi → IsOrdered hi cs → IsOrdered lo cs
IsOrdered-mono lo hi [] h a = tt
IsOrdered-mono lo hi (c ∷ cs) h (e, le, high, fits, rest) = (e, omega arith, high, fits, rest)

uniform_fits : (n rate : ℕ) → n ≤ 100 → length (replicate n (some rate)) ≤ 100
uniform_fits n rate h = omega (arith, length-replicate n (some rate))

knee-IsOrdered :
    (n ordinal block : ℕ) (os : List (ℕ × ℕ)) (rest : List Cell)
    → n ≤ 100
    → ordinal + 2 * length os ≤ 100
    → IsOrdered (ordinal + 2 * length os) rest
    → IsOrdered ordinal (knee_cells n ordinal block os ++ rest)
unfolding knee_cells make_cell
knee-IsOrdered n ordinal block [] rest h fits r = IsOrdered-mono _ _ rest (omega arith) r
knee-IsOrdered n ordinal block ((a, b) ∷ os) rest h fits r = (
  refl,
  omega arith,
  omega arith,
  uniform_fits n a h,
  (
    refl,
    omega arith,
    omega arith,
    uniform_fits n b h,
    knee-IsOrdered n (suc (suc ordinal)) (suc block) os rest h (omega arith)
        (IsOrdered-mono _ _ rest (omega arith) r),
  ),
)

frozen-IsOrdered : (n : ℕ) (ci : ℤ) → n ≤ 100 → IsOrdered 0 (frozen_cells n ci)
unfolding frozen_cells opening_cells closing_cells make_cell
frozen-IsOrdered n ci h =
    let five : length (orders ci) ≡ 5 = unfold orders in refl in
    (
      refl,
      omega arith,
      omega arith,
      omega (arith, length-only_zero n 41),
      (
        refl,
        omega arith,
        omega arith,
        omega (arith, length-only_zero n 42),
        (
          refl,
          omega arith,
          omega arith,
          uniform_fits n 35 h,
          knee-IsOrdered n 3 1 (orders ci) _ h (omega arith) (
            refl,
            omega arith,
            omega arith,
            uniform_fits n 35 h,
            (
              refl,
              omega arith,
              omega arith,
              omega (arith, length-only_zero n 42),
              (refl, omega arith, omega arith, omega (arith, length-only_zero n 41), tt),
            ),
          ),
        ),
      ),
    )

pub frozen-IsAscending : (n : ℕ) (ci : ℤ) → n ≤ 100 → IsAscending 0 (slots (frozen_cells n ci))
frozen-IsAscending n ci h = slots-IsAscending 0 (frozen_cells n ci) (frozen-IsOrdered n ci h)

module _ (sha256_hex : Text → Text) (run_id : Text) (c : ℕ) where
  -- The name of a job tells its cell and its endpoint.
  pub job_name_injective :
      (o e o' e' : ℕ)
      → o < 100
      → e < 100
      → o' < 100
      → e' < 100
      → job_name sha256_hex run_id c o e ≡ job_name sha256_hex run_id c o' e'
      → (o ≡ o') × (e ≡ e')
  unfolding job_name
  job_name_injective o e o' e' ho he ho' he' same =
      let same_tail = append_cancel_left run_id _ _ (append_cancel_left (codes "sso-") _ _ same) in
      let digits =
        rw (pad2_lem o ho, pad2_lem e he, pad2_lem o' ho', pad2_lem e' he') at same_tail in
      ground arith
