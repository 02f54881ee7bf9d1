-- ===== src/Scale/Accepts.antt =====
-- The contract between the planner and the summarizer: `validate_plan` accepts what `build_plan`
-- returns.
use llm_d_sc_benchmark.Prelude.{
  ℕ, ◌+◌, ◌≡◌, refl, String, [], arith, ℤ, pos, ok, length, ==_refl, length-map,
}
use llm_d_sc_benchmark.Prelude.Decimal.{Text}
use llm_d_sc_benchmark.Plan.Types.{Plan, Ledger}
use llm_d_sc_benchmark.Plan.Cells.{frozen_cells}
use llm_d_sc_benchmark.Plan.Build.{make_reservation}
use llm_d_sc_benchmark.Plan.Document.{build_plan, make_plan, make_ledger}
use llm_d_sc_benchmark.Plan.Slots.{slots}
use llm_d_sc_benchmark.Plan.Runnable.{length-slots-frozen}
use llm_d_sc_benchmark.Plan.Order.{frozen-IsAscending}
use llm_d_sc_benchmark.Plan.Intervals.{length-jobs_from, length-entries_from}
use llm_d_sc_benchmark.Plan.Success.{IsLegal, planned, planned_ledger, build_plan_inv, rung_bounds}
use llm_d_sc_benchmark.Scale.Validate.{
  validate_header, reservation_eq, identity_eq, validate_reservation,
}
use llm_d_sc_benchmark.Scale.Intervals.{validate_jobs, validate_plan}
use llm_d_sc_benchmark.Scale.Blocks.{validate_blocks_ok, length-knee, length-frozen}
use llm_d_sc_benchmark.Scale.Reconcile.{
  distinct-names, intervals_of_ok, sort-intervals, neighbours_ok, map-job_id, name,
}

module _ (sha256_hex : Text → Text) (namespace target_node driver_node : String) (run_id : Text)
    (c n : ℕ) (legal : IsLegal run_id c n) where
  abbrev plan : Plan
  plan = planned sha256_hex namespace target_node driver_node run_id c n

  abbrev ledger : Ledger
  ledger = planned_ledger sha256_hex namespace target_node driver_node run_id c n

  header_ok : validate_header plan ≡ ok tt
  unfolding validate_header make_plan
  header_ok =
      rw
        (legal.allowed, length-frozen sha256_hex run_id c n (rung_bounds n legal.allowed).0 (pos c))

  reservation_ok : validate_reservation plan ledger ≡ ok tt
  unfolding validate_reservation reservation_eq identity_eq make_plan make_ledger make_reservation
  reservation_ok = let h = legal.audited in ground arith

  jobs_ok : validate_jobs plan ledger ≡ ok tt
  unfolding validate_jobs make_plan make_ledger
  jobs_ok =
      let ss = slots (frozen_cells n (pos c)) in
      let bounds = rung_bounds n legal.allowed in
      let ascending = frozen-IsAscending n (pos c) (omega arith) in
      rw
        (
          length-jobs_from sha256_hex run_id c 0 ss,
          length-entries_from sha256_hex run_id c 0 ss,
          map-job_id sha256_hex run_id c 0 ss,
          distinct-names sha256_hex run_id c 0 ss ascending,
          length-map (name sha256_hex run_id c) ss,
          ==_refl (length ss),
          intervals_of_ok sha256_hex run_id c 0 0 (0 + length ss) ss [] _
              (omega (arith, length-slots-frozen n (pos c) bounds.0)) ascending refl,
          sort-intervals sha256_hex run_id c 0 ss,
        )
        (neighbours_ok sha256_hex run_id c 0 ss)

  plan_ok : validate_plan plan ledger ≡ ok tt
  unfolding validate_plan make_plan
  plan_ok =
      let h = (rung_bounds n legal.allowed).0 in
      rw (
        header_ok,
        length-knee sha256_hex run_id c n h (pos c),
        validate_blocks_ok sha256_hex run_id c n h (pos c),
        reservation_ok,
        jobs_ok,
      )

module _ (sha256_hex : Text → Text) (namespace target_node driver_node : String) where
  -- Every plan that `build_plan` returns is accepted by `validate_plan`, together with its ledger.
  pub build_plan-validate_plan :
      (run_id : Text) (campaign_index : ℤ) (replicas : ℕ) {plan : Plan} {ledger : Ledger}
      → build_plan sha256_hex namespace target_node driver_node run_id campaign_index replicas
        ≡ ok (plan, ledger)
      → validate_plan plan ledger ≡ ok tt
  build_plan-validate_plan run_id campaign_index replicas built =
      let (c, _, legal, same_plan, same_ledger) =
        build_plan_inv sha256_hex namespace target_node driver_node run_id campaign_index replicas
          built in
      rw (same_plan, same_ledger)
        (plan_ok sha256_hex namespace target_node driver_node run_id c replicas legal)
