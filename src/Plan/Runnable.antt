-- ===== src/Plan/Runnable.antt =====
-- Every cell of the frozen order can be placed, and together they have 12 slots for each replica and
-- 4 for the sentinels.
use llm_d_sc_benchmark.Prelude.{
  ℕ, zero, suc, ◌+◌, ◌*◌, ◌<◌, ◌≡◌, refl, ap, ◌∙◌, Option, none, some, List, [], ◌∷◌, ◌++◌,
  append_assoc, arith, ℤ, length, replicate, get_elem?, All, All-append, length-append,
}
use llm_d_sc_benchmark.Prelude.Decimal.{Text}
use llm_d_sc_benchmark.Plan.Types.{Cell, Scope, Phase, Period}
use llm_d_sc_benchmark.Plan.Cells.{
  active_from, make_cell, only_zero, knee_cells, orders, opening_cells, closing_cells, frozen_cells,
}
use llm_d_sc_benchmark.Plan.Slots.{
  rate_at, IsServed, IsRunnable, cell_slots, slots, length-cell_slots,
}

get_elem?-length :
    (before rates : List (Option ℕ)) (x : Option ℕ)
    → get_elem? (before ++ x ∷ rates) (length before) ≡ some x
get_elem?-length [] rates x = refl
get_elem?-length (b ∷ before) rates x = get_elem?-length before rates x

length-snoc : (xs : List (Option ℕ)) (x : Option ℕ) → length (xs ++ x ∷ []) ≡ suc (length xs)
length-snoc xs x = omega (arith, length-append xs (x ∷ []))

active_shift :
    (before rates : List (Option ℕ)) (x : Option ℕ)
    → All (IsServed ((before ++ x ∷ []) ++ rates)) (active_from (length (before ++ x ∷ [])) rates)
    → All (IsServed (before ++ x ∷ rates)) (active_from (suc (length before)) rates)
active_shift before rates x h = rw (append_assoc before (x ∷ []) rates, length-snoc before x) at h

active-IsServed :
    (before rates : List (Option ℕ))
    → All (IsServed (before ++ rates)) (active_from (length before) rates)
unfolding active_from
active-IsServed before [] = tt
active-IsServed before (none ∷ rates) =
    active_shift before rates none (active-IsServed (before ++ none ∷ []) rates)
active-IsServed before (some r ∷ rates) = (
  rw (get_elem?-length before rates (some r), rate_at),
  active_shift before rates (some r) (active-IsServed (before ++ some r ∷ []) rates),
)

-- A cell asks for load only at endpoints that have a rate.
pub make_cell-IsRunnable :
    (ordinal : ℕ) (cell_id : Text) (scope : Scope) (phase : Phase) (rates : List (Option ℕ))
    (block : Option ℕ) (period : Option Period)
    → IsRunnable (make_cell ordinal cell_id scope phase rates block period)
unfolding make_cell
make_cell-IsRunnable ordinal cell_id scope phase rates block period = active-IsServed [] rates

length-active_replicate : (i n rate : ℕ) → length (active_from i (replicate n (some rate))) ≡ n
unfolding active_from
length-active_replicate i zero rate = refl
length-active_replicate i (suc n) rate = omega (arith, length-active_replicate (suc i) n rate)

active_none : (i n : ℕ) → active_from i (replicate n none) ≡ []
unfolding active_from
active_none i zero = refl
active_none i (suc n) = active_none (suc i) n

active_only_zero : (n rate : ℕ) → 0 < n → active_from 0 (only_zero n rate) ≡ 0 ∷ []
unfolding active_from only_zero
active_only_zero zero rate h = absurd (omega arith)
active_only_zero (suc n) rate h = rw (active_none 1 n)

slots-append : (cs ds : List Cell) → slots (cs ++ ds) ≡ slots cs ++ slots ds
slots-append [] ds = refl
slots-append (c ∷ cs) ds =
    cc (slots-append cs ds, append_assoc (cell_slots c c.active_endpoints) (slots cs) (slots ds))

-- The number of slots.
count : List Cell → ℕ
count cells = length (slots cells)

count_append : (cs ds : List Cell) → count (cs ++ ds) ≡ count cs + count ds
unfolding count
count_append cs ds = rw (slots-append cs ds) (length-append (slots cs) (slots ds))

count_cons : (c : Cell) (cs : List Cell) → count (c ∷ cs) ≡ length c.active_endpoints + count cs
unfolding count
count_cons c cs = omega (
  arith,
  length-append (cell_slots c c.active_endpoints) (slots cs),
  length-cell_slots c c.active_endpoints,
)

count_uniform :
    (n rate ordinal : ℕ) (cell_id : Text) (scope : Scope) (phase : Phase) (block : Option ℕ)
    (period : Option Period) (cs : List Cell)
    → count (make_cell ordinal cell_id scope phase (replicate n (some rate)) block period ∷ cs)
      ≡ n + count cs
unfolding make_cell
count_uniform n rate ordinal cell_id scope phase block period cs = omega (
  arith,
  length-active_replicate 0 n rate,
  count_cons (make_cell ordinal cell_id scope phase (replicate n (some rate)) block period) cs,
)

count_sentinel :
    (n rate ordinal : ℕ) (cell_id : Text) (scope : Scope) (phase : Phase) (cs : List Cell)
    → 0 < n
    → count (make_cell ordinal cell_id scope phase (only_zero n rate) none none ∷ cs) ≡ 1 + count cs
unfolding make_cell
count_sentinel n rate ordinal cell_id scope phase cs h = omega (
  arith,
  ap {B = ℕ} length (active_only_zero n rate h),
  count_cons (make_cell ordinal cell_id scope phase (only_zero n rate) none none) cs,
)

count_knee :
    (n ordinal block : ℕ) (os : List (ℕ × ℕ))
    → count (knee_cells n ordinal block os) ≡ 2 * length os * n
unfolding knee_cells
count_knee n ordinal block [] = unfold count in omega arith
count_knee n ordinal block ((a, b) ∷ os) =
    rw (count_uniform n a, count_uniform n b)
      (grind (arith, count_knee n (suc (suc ordinal)) (suc block) os))

count_opening : (n : ℕ) → 0 < n → count (opening_cells n) ≡ n + 2
unfolding opening_cells
count_opening n h =
    rw (count_sentinel n 41 _ _ _ _ _ h, count_sentinel n 42 _ _ _ _ _ h, count_uniform n 35)
      (unfold count in omega arith)

count_closing : (n : ℕ) → 0 < n → count (closing_cells n) ≡ n + 2
unfolding closing_cells
count_closing n h =
    rw (count_uniform n 35, count_sentinel n 42 _ _ _ _ _ h, count_sentinel n 41 _ _ _ _ _ h)
      (unfold count in omega arith)

-- The number of jobs of a campaign.
pub length-slots-frozen :
    (n : ℕ) (campaign_index : ℤ)
    → 0 < n
    → length (slots (frozen_cells n campaign_index)) ≡ 12 * n + 4
unfolding frozen_cells count
length-slots-frozen n campaign_index h =
    let five : length (orders campaign_index) ≡ 5 = unfold orders in refl in
    let knee = knee_cells n 3 1 (orders campaign_index) in
    let k : count knee ≡ 10 * n =
      count_knee n 3 1 (orders campaign_index) ∙ ap (λ (t : ℕ). 2 * t * n) five in
    omega (
      arith,
      k,
      count_opening n h,
      count_closing n h,
      count_append knee (closing_cells n),
      count_append (opening_cells n) (knee ++ closing_cells n),
    )

All-IsRunnable-knee :
    (n ordinal block : ℕ) (os : List (ℕ × ℕ)) → All IsRunnable (knee_cells n ordinal block os)
unfolding knee_cells
All-IsRunnable-knee n ordinal block [] = tt
All-IsRunnable-knee n ordinal block ((a, b) ∷ os) = (
  make_cell-IsRunnable _ _ _ _ _ _ _,
  (make_cell-IsRunnable _ _ _ _ _ _ _, All-IsRunnable-knee n (suc (suc ordinal)) (suc block) os),
)

All-IsRunnable-opening : (n : ℕ) → All IsRunnable (opening_cells n)
unfolding opening_cells
All-IsRunnable-opening n = (
  make_cell-IsRunnable _ _ _ _ _ _ _,
  (make_cell-IsRunnable _ _ _ _ _ _ _, (make_cell-IsRunnable _ _ _ _ _ _ _, tt)),
)

All-IsRunnable-closing : (n : ℕ) → All IsRunnable (closing_cells n)
unfolding closing_cells
All-IsRunnable-closing n = (
  make_cell-IsRunnable _ _ _ _ _ _ _,
  (make_cell-IsRunnable _ _ _ _ _ _ _, (make_cell-IsRunnable _ _ _ _ _ _ _, tt)),
)

-- Every active endpoint of every cell of the frozen order has a rate.
pub All-IsRunnable-frozen :
    (n : ℕ) (campaign_index : ℤ) → All IsRunnable (frozen_cells n campaign_index)
unfolding frozen_cells
All-IsRunnable-frozen n campaign_index =
    All-append IsRunnable (opening_cells n) _ (All-IsRunnable-opening n) (
      All-append IsRunnable (knee_cells n 3 1 (orders campaign_index)) _
        (All-IsRunnable-knee n 3 1 (orders campaign_index)) (All-IsRunnable-closing n))
