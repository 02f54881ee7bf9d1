-- ===== src/Tests/PlanTests.antt =====
-- Witnesses and tests for the planner of hack/arena-sc-horizontal-scale-plan.py.
use llm_d_sc_benchmark.Prelude.{
  ◌+◌, ◌*◌, ◌≤◌, ◌≡◌, refl, ◌≢◌, none, some, List, [], ◌∷◌, arith, pos, ok, err, length, get_elem?,
  All, inl, inr, ◌⊎◌,
}
use llm_d_sc_benchmark.Prelude.Decimal.{Text, codes}
use llm_d_sc_benchmark.Plan.Types.{
  Job, Plan, Ledger, r1_sentinel, sentinel_pre, job_sequence_span, sequence_namespace_start,
  sequence_namespace_end,
}
use llm_d_sc_benchmark.Plan.Cells.{active_from, make_cell, only_zero, opening_cells, frozen_cells}
use llm_d_sc_benchmark.Plan.Build.{is_dns_label, make_job, make_reservation}
use llm_d_sc_benchmark.Plan.Document.{build_plan, make_plan, make_ledger}
use llm_d_sc_benchmark.Plan.Success.{IsLegal, planned, planned_ledger, build_plan_legal}
use llm_d_sc_benchmark.Plan.Totals.{build_plan_total}
use llm_d_sc_benchmark.Plan.Intervals.{job_intervals}
use llm_d_sc_benchmark.Plan.Ledgers.{assert_no_overlap, overlap, readable, LedgerFile}
use llm_d_sc_benchmark.Plan.Overlap.{
  SharesNothing, IsApart, written, assert_no_overlap_sound, assert_no_overlap_complete,
  campaigns_disjoint, campaign_reuse_refused,
}
use llm_d_sc_benchmark.Scale.Intervals.{validate_plan}
use llm_d_sc_benchmark.Scale.Accepts.{build_plan-validate_plan}

-- A stand-in for the digest.
abbrev digest : Text → Text
digest t = t

abbrev run : Text
run = codes "knee-20"

abbrev rerun : Text
rerun = codes "knee-30"

run-IsLegal : IsLegal run 7 20
unfolding is_dns_label
run-IsLegal = record { label = refl; short = omega arith; audited = omega arith; allowed = refl }

rerun-IsLegal : IsLegal rerun 8 30
unfolding is_dns_label
rerun-IsLegal = record { label = refl; short = omega arith; audited = omega arith; allowed = refl }

reused-IsLegal : IsLegal rerun 7 30
unfolding is_dns_label
reused-IsLegal = record { label = refl; short = omega arith; audited = omega arith; allowed = refl }

abbrev plan : Plan
plan = planned digest "sc" "gnr2" "rhgnr1" run 7 20

abbrev ledger : Ledger
ledger = planned_ledger digest "sc" "gnr2" "rhgnr1" run 7 20

built : build_plan digest "sc" "gnr2" "rhgnr1" run (pos 7) 20 ≡ ok (plan, ledger)
built = build_plan_legal digest "sc" "gnr2" "rhgnr1" run 7 20 run-IsLegal

build_plan_total_example :
    (p : Plan) × (l : Ledger) × (build_plan digest "sc" "gnr2" "rhgnr1" run (pos 7) 20 ≡ ok (p, l))
    × (length p.cells ≡ 16)
    × (length p.jobs ≡ 12 * 20 + 4)
    × (length l.entries ≡ 12 * 20 + 4)
    × (p.sequence_reservation.allocated_jobs ≡ 12 * 20 + 4)
    × (p.sequence_reservation.allocated_end_exclusive ≤ p.sequence_reservation.end_exclusive)
build_plan_total_example = build_plan_total digest "sc" "gnr2" "rhgnr1" run 7 20 run-IsLegal

abbrev first_job : Job
first_job =
    make_job digest run 7 0
      (make_cell 0 (codes "r1-pre-41") r1_sentinel sentinel_pre (only_zero 20 41) none none) 0 41

abbrev second_job : Job
second_job =
    make_job digest run 7 1
      (make_cell 1 (codes "r1-pre-42") r1_sentinel sentinel_pre (only_zero 20 42) none none) 0 42

first_lem : get_elem? plan.jobs 0 ≡ some first_job
unfolding make_plan frozen_cells opening_cells make_cell active_from only_zero
first_lem = refl

second_lem : get_elem? plan.jobs 1 ≡ some second_job
unfolding make_plan frozen_cells opening_cells make_cell active_from only_zero
second_lem = refl

job_intervals_example :
    (first_job.reserved_end_exclusive ≤ second_job.sequence_base)
    × (first_job.reserved_end_exclusive ≡ first_job.sequence_base + job_sequence_span)
    × (second_job.reserved_end_exclusive ≡ second_job.sequence_base + job_sequence_span)
    × (plan.sequence_reservation.start_inclusive ≤ first_job.sequence_base)
    × (second_job.reserved_end_exclusive ≤ plan.sequence_reservation.end_exclusive)
job_intervals_example =
    job_intervals digest "sc" "gnr2" "rhgnr1" run (pos 7) 20 built 0 1 first_job second_job
      first_lem second_lem (omega arith)

build_plan-validate_plan_example : validate_plan plan ledger ≡ ok tt
build_plan-validate_plan_example =
    build_plan-validate_plan digest "sc" "gnr2" "rhgnr1" run (pos 7) 20 built

abbrev others : List LedgerFile
others =
    record { path = codes "a"; reading = readable (pos 22_000_000_000) (pos 22_010_000_000) }
    ∷ record { path = codes "b"; reading = readable (pos 22_080_000_000) (pos 22_090_000_000) }
    ∷ []

others-IsApart :
    All
      (λ f.
        (f.path ≡ codes "own")
        ⊎ IsApart ledger.reservation.start_inclusive ledger.reservation.end_exclusive f.reading)
      others
unfolding make_ledger make_plan make_reservation
others-IsApart = (inr (inl (omega arith)), (inr (inr (omega arith)), tt))

assert_no_overlap_complete_example : assert_no_overlap ledger others (codes "own") ≡ ok tt
assert_no_overlap_complete_example =
    assert_no_overlap_complete ledger others (codes "own") others-IsApart

assert_no_overlap_sound_example :
    All
      (λ f.
        f.path ≢ codes "own"
        → SharesNothing ledger.reservation.start_inclusive ledger.reservation.end_exclusive
            f.reading)
      others
assert_no_overlap_sound_example =
    assert_no_overlap_sound ledger others (codes "own") assert_no_overlap_complete_example

campaigns_disjoint_example :
    (assert_no_overlap ledger
        (written (codes "b") (planned_ledger digest "sc" "gnr2" "rhgnr1" rerun 8 30) ∷ [])
        (codes "a")
      ≡ ok tt)
    × (sequence_namespace_start ≤ ledger.reservation.start_inclusive)
    × (ledger.reservation.end_exclusive ≤ sequence_namespace_end)
campaigns_disjoint_example =
    campaigns_disjoint digest "sc" "gnr2" "rhgnr1" run rerun (pos 7) (pos 8) 20 30 (codes "a")
      (codes "b") built (build_plan_legal digest "sc" "gnr2" "rhgnr1" rerun 8 30 rerun-IsLegal)
      (λ e. ground arith)

abbrev reused : Ledger
reused = planned_ledger digest "sc" "gnr2" "rhgnr1" rerun 7 30

campaign_reuse_refused_example :
    assert_no_overlap ledger (written (codes "b") reused ∷ []) (codes "a")
    ≡ err (
        overlap
          (codes "b")
          (pos reused.reservation.start_inclusive)
          (pos reused.reservation.end_exclusive)
        ∷ [])
campaign_reuse_refused_example =
    campaign_reuse_refused digest "sc" "gnr2" "rhgnr1" run rerun (pos 7) 20 30 (codes "a")
      (codes "b") built (build_plan_legal digest "sc" "gnr2" "rhgnr1" rerun 7 30 reused-IsLegal)
      (λ e. ground arith)
