-- ===== src/Plan/Success.antt =====
-- When `build_plan` returns, and what its jobs are.
use llm_d_sc_benchmark.Prelude.{
  ℕ, ◌%◌, ◌≤◌, ◌<◌, ◌≡◌, refl, String, true, [], map, arith, ℤ, pos, negsuc, Result, ok, length,
  elem, le→leb,
}
use llm_d_sc_benchmark.Prelude.Decimal.{Text}
use llm_d_sc_benchmark.Plan.Types.{Plan, Ledger, PlanError, allowed_rungs}
use llm_d_sc_benchmark.Plan.Cells.{frozen_cells, build_cells}
use llm_d_sc_benchmark.Plan.Build.{is_dns_label, check_run_id, check_campaign_index, Progress}
use llm_d_sc_benchmark.Plan.Document.{build_plan, make_plan, make_ledger}
use llm_d_sc_benchmark.Plan.Slots.{slots, advance, named, place_cells_lem}
use llm_d_sc_benchmark.Plan.Runnable.{All-IsRunnable-frozen, length-slots-frozen}

-- A request that the planner should accept.
pub record IsLegal (run_id : Text) (campaign_index replicas : ℕ) : Type 0 where
  pub label : is_dns_label run_id ≡ true
  pub short : length run_id ≤ 38
  pub audited : campaign_index < 100
  pub allowed : elem replicas allowed_rungs ≡ true

abbrev pub fresh : Progress
fresh = record { allocation = 0; entries = []; jobs = [] }

pub rung_bounds :
    (replicas : ℕ)
    → elem replicas allowed_rungs ≡ true
    → (0 < replicas) × (replicas ≤ 50) × (replicas % 2 ≡ 0)
rung_bounds replicas h = ground arith

build_cells_ok :
    (replicas : ℕ) (campaign_index : ℤ)
    → elem replicas allowed_rungs ≡ true
    → build_cells replicas campaign_index ≡ ok (frozen_cells replicas campaign_index)
unfolding build_cells
build_cells_ok replicas campaign_index h = ground (arith, rung_bounds replicas h)

check_run_id_ok :
    (run_id : Text) → is_dns_label run_id ≡ true → length run_id ≤ 38 → check_run_id run_id ≡ ok tt
unfolding check_run_id
check_run_id_ok run_id label short = rw (label, le→leb _ _ short)

check_campaign_index_ok : (c : ℕ) → c < 100 → check_campaign_index (pos c) ≡ ok c
unfolding check_campaign_index
check_campaign_index_ok c h = ground arith

module _ (sha256_hex : Text → Text) (namespace target_node driver_node : String) where
  -- The documents of a legal request.
  abbrev pub planned_progress : Text → ℕ → ℕ → Progress
  planned_progress run_id c replicas =
      advance sha256_hex run_id c fresh (slots (frozen_cells replicas (pos c)))

  abbrev pub planned : Text → ℕ → ℕ → Plan
  planned run_id c replicas =
      make_plan sha256_hex namespace target_node driver_node run_id c replicas
        (map (named sha256_hex run_id c) (frozen_cells replicas (pos c)))
        (planned_progress run_id c replicas)

  abbrev pub planned_ledger : Text → ℕ → ℕ → Ledger
  planned_ledger run_id c replicas =
      make_ledger sha256_hex namespace target_node driver_node (planned run_id c replicas)
        (planned_progress run_id c replicas)

  pub build_plan_legal :
      (run_id : Text) (c replicas : ℕ)
      → IsLegal run_id c replicas
      → build_plan sha256_hex namespace target_node driver_node run_id (pos c) replicas
        ≡ ok (planned run_id c replicas, planned_ledger run_id c replicas)
  unfolding build_plan
  build_plan_legal run_id c replicas legal =
      let bounds = rung_bounds replicas legal.allowed in
      rw (
        check_run_id_ok run_id legal.label legal.short,
        check_campaign_index_ok c legal.audited,
        build_cells_ok replicas (pos c) legal.allowed,
        place_cells_lem sha256_hex run_id c (frozen_cells replicas (pos c)) [] fresh
            (All-IsRunnable-frozen replicas (pos c))
            (omega (arith, length-slots-frozen replicas (pos c) bounds.0)),
      )

  build_plan_only-IsLegal :
      (run_id : Text) (campaign_index : ℤ) (replicas : ℕ) {plan : Plan} {ledger : Ledger}
      → build_plan sha256_hex namespace target_node driver_node run_id campaign_index replicas
        ≡ ok (plan, ledger)
      → (c : ℕ) × (campaign_index ≡ pos c) × IsLegal run_id c replicas
  unfolding build_plan check_run_id check_campaign_index build_cells
  build_plan_only-IsLegal run_id (negsuc n) replicas h = absurd (ground arith)
  build_plan_only-IsLegal run_id (pos c) replicas h = (c, refl, ground arith)

  -- A returned pair of documents is that of a legal request.
  pub build_plan_inv :
      (run_id : Text) (campaign_index : ℤ) (replicas : ℕ) {plan : Plan} {ledger : Ledger}
      → build_plan sha256_hex namespace target_node driver_node run_id campaign_index replicas
        ≡ ok (plan, ledger)
      → (c : ℕ) × (campaign_index ≡ pos c)
        × IsLegal run_id c replicas
        × (plan ≡ planned run_id c replicas)
        × (ledger ≡ planned_ledger run_id c replicas)
  build_plan_inv run_id campaign_index replicas {plan} {ledger} h =
      let (c, e, legal) = build_plan_only-IsLegal run_id campaign_index replicas h in
      let same : ◌≡◌ {A = Result PlanError (Plan × Ledger)} (ok (plan, ledger))
          (ok (planned run_id c replicas, planned_ledger run_id c replicas)) =
        cc (build_plan_legal run_id c replicas legal) in
      (c, e, legal, cc, cc)
