-- ===== src/Plan/Totals.antt =====
-- `build_plan` serves every legal request and no other, and how large its documents are.
use llm_d_sc_benchmark.Prelude.{
  ℕ, ◌+◌, ◌*◌, ◌≤◌, ◌≡◌, refl, String, arith, ℤ, pos, ok, length, length-map,
}
use llm_d_sc_benchmark.Prelude.Decimal.{Text}
use llm_d_sc_benchmark.Plan.Types.{Plan, Ledger}
use llm_d_sc_benchmark.Plan.Cells.{knee_cells, orders, opening_cells, closing_cells, frozen_cells}
use llm_d_sc_benchmark.Plan.Build.{make_reservation}
use llm_d_sc_benchmark.Plan.Document.{build_plan, make_plan, make_ledger}
use llm_d_sc_benchmark.Plan.Slots.{slots, named}
use llm_d_sc_benchmark.Plan.Runnable.{length-slots-frozen}
use llm_d_sc_benchmark.Plan.Intervals.{length-jobs_from, length-entries_from}
use llm_d_sc_benchmark.Plan.Success.{
  IsLegal, planned, planned_ledger, rung_bounds, build_plan_legal,
}

length-frozen : (n : ℕ) (ci : ℤ) → length (frozen_cells n ci) ≡ 16
unfolding frozen_cells opening_cells closing_cells knee_cells orders
length-frozen n ci = refl

module _ (sha256_hex : Text → Text) (namespace target_node driver_node : String) where
  -- A legal request is always served: the plan has 16 cells, 12 jobs for each replica and 4 for the
  -- sentinels, the ledger an entry for each job, and what is allocated ends inside the reservation. So
  -- neither a missing rate nor an exhausted reservation stops the loops.
  pub build_plan_total :
      (run_id : Text) (c replicas : ℕ)
      → IsLegal run_id c replicas
      → (plan : Plan) × (ledger : Ledger) × (build_plan sha256_hex namespace target_node driver_node
            run_id
            (pos c)
            replicas
          ≡ ok (plan, ledger))
        × (length plan.cells ≡ 16)
        × (length plan.jobs ≡ 12 * replicas + 4)
        × (length ledger.entries ≡ 12 * replicas + 4)
        × (plan.sequence_reservation.allocated_jobs ≡ 12 * replicas + 4)
        × (plan.sequence_reservation.allocated_end_exclusive
            ≤ plan.sequence_reservation.end_exclusive)
  unfolding make_plan make_ledger make_reservation
  build_plan_total run_id c replicas legal =
      let cells = frozen_cells replicas (pos c) in
      let ss = slots cells in
      let bounds = rung_bounds replicas legal.allowed in
      let total = length-slots-frozen replicas (pos c) bounds.0 in
      (
        planned sha256_hex namespace target_node driver_node run_id c replicas,
        planned_ledger sha256_hex namespace target_node driver_node run_id c replicas,
        build_plan_legal sha256_hex namespace target_node driver_node run_id c replicas legal,
        omega (arith, length-map (named sha256_hex run_id c) cells, length-frozen replicas (pos c)),
        omega (arith, length-jobs_from sha256_hex run_id c 0 ss, total),
        omega (arith, length-entries_from sha256_hex run_id c 0 ss, total),
        omega (arith, total),
        omega (arith, total),
      )
