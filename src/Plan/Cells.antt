-- ===== src/Plan/Cells.antt =====
-- hack/arena-sc-horizontal-scale-plan.py: `_cell` and `build_cells`, the frozen order of the cells.
use llm_d_sc_benchmark.Prelude.{
  ℕ, zero, suc, ◌+◌, ◌%◌, Bool, Option, none, some, List, [], ◌∷◌, ◌++◌, ℤ, pos, negsuc, Result, ok,
  ◌>>◌, require, ◌==◌, if◌then◌else◌, length, replicate, sum, elem,
}
use llm_d_sc_benchmark.Prelude.Decimal.{Text, codes, decimal}
use llm_d_sc_benchmark.Plan.Types.{
  PlanError, bad_rung, odd_rung, Scope, r1_sentinel, rung, Phase, sentinel_pre, pre, knee, post,
  sentinel_post, Period, period_a, period_b, Cell, allowed_rungs,
}

-- The indexes from `i` on at which a rate stands.
unfoldable pub active_from : ℕ → List (Option ℕ) → List ℕ
active_from i [] = []
active_from i (none ∷ rates) = active_from (suc i) rates
active_from i (some rate ∷ rates) = i ∷ active_from (suc i) rates

-- The rates at those indexes.
unfoldable pub active_rates : List (Option ℕ) → List ℕ
active_rates [] = []
active_rates (none ∷ rates) = active_rates rates
active_rates (some rate ∷ rates) = rate ∷ active_rates rates

-- `_cell`; `job_ids` is the key that `build_plan` adds.
unfoldable pub make_cell :
    ℕ → Text → Scope → Phase → List (Option ℕ) → Option ℕ → Option Period → Cell
make_cell ordinal cell_id scope phase endpoint_rates block period =
    let active = active_from 0 endpoint_rates in
    let rates = active_rates endpoint_rates in
    record {
      ordinal = ordinal;
      cell_id = cell_id;
      scope = scope;
      phase = phase;
      block = block;
      period = period;
      duration_seconds = 180;
      active_endpoints = active;
      endpoint_offered_rps = endpoint_rates;
      driver_jobs = length active;
      aggregate_offered_rps = sum rates;
      common_t0_assignment = "runtime; one future absolute epoch shared by every Job in this cell";
      warmup_requests = 0;
      job_ids = [];
    }

-- `only_zero`: a rate at endpoint 0 alone. (The assignment at index 0 needs a replica.)
unfoldable pub only_zero : ℕ → ℕ → List (Option ℕ)
only_zero zero rate = []
only_zero (suc replicas) rate = some rate ∷ replicate replicas none

-- The `for` loop over the orders, with its counters `ordinal` and `block`.
unfoldable pub knee_cells : ℕ → ℕ → ℕ → List (ℕ × ℕ) → List Cell
knee_cells replicas ordinal block [] = []
knee_cells replicas ordinal block ((rate_a, rate_b) ∷ orders) =
    make_cell ordinal (codes "scale-b" ++ (decimal block ++ codes "-a")) rung knee
      (replicate replicas (some rate_a)) (some block) (some period_a)
    ∷ make_cell (suc ordinal) (codes "scale-b" ++ (decimal block ++ codes "-b")) rung knee
        (replicate replicas (some rate_b)) (some block) (some period_b)
    ∷ knee_cells replicas (suc (suc ordinal)) (suc block) orders

-- `campaign_index % 2 == 0`, also of a negative index
unfoldable pub is_even : ℤ → Bool
is_even (pos n) = n % 2 == 0
is_even (negsuc n) = (n + 1) % 2 == 0

unfoldable pub orders : ℤ → List (ℕ × ℕ)
orders campaign_index =
    (41, 42)
    ∷ (42, 41)
    ∷ (41, 42)
    ∷ (42, 41)
    ∷ (if is_even campaign_index then (41, 42) else (42, 41))
    ∷ []

-- The cells before the knee blocks, and those behind them.
unfoldable pub opening_cells : ℕ → List Cell
opening_cells replicas =
    make_cell 0 (codes "r1-pre-41") r1_sentinel sentinel_pre (only_zero replicas 41) none none
    ∷ make_cell 1 (codes "r1-pre-42") r1_sentinel sentinel_pre (only_zero replicas 42) none none
    ∷ make_cell 2 (codes "scale-pre-35") rung pre (replicate replicas (some 35)) none none
    ∷ []

unfoldable pub closing_cells : ℕ → List Cell
closing_cells replicas =
    make_cell 13 (codes "scale-post-35") rung post (replicate replicas (some 35)) none none
    ∷ make_cell 14 (codes "r1-post-42") r1_sentinel sentinel_post (only_zero replicas 42) none none
    ∷ make_cell 15 (codes "r1-post-41") r1_sentinel sentinel_post (only_zero replicas 41) none none
    ∷ []

unfoldable pub frozen_cells : ℕ → ℤ → List Cell
frozen_cells replicas campaign_index =
    opening_cells replicas
    ++ (knee_cells replicas 3 1 (orders campaign_index) ++ closing_cells replicas)

-- A number that is not a rung is refused, a negative one too, which `ℕ` leaves out.
unfoldable pub build_cells : ℕ → ℤ → Result PlanError (List Cell)
build_cells replicas campaign_index = do
  require (elem replicas allowed_rungs) bad_rung
  require (replicas % 2 == 0) odd_rung
  ok (frozen_cells replicas campaign_index)
