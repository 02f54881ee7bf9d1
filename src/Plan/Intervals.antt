-- ===== src/Plan/Intervals.antt =====
-- The intervals of sequence numbers that `build_plan` gives to the jobs of a campaign.
use llm_d_sc_benchmark.Prelude.{
  ℕ, zero, suc, ◌+◌, ◌*◌, ◌≤◌, ◌<◌, ◌≡◌, refl, String, some, List, [], ◌∷◌, arith, ℤ, pos, ok,
  length, get_elem?,
}
use llm_d_sc_benchmark.Prelude.Decimal.{Text}
use llm_d_sc_benchmark.Plan.Types.{Job, Plan, Ledger, job_sequence_span}
use llm_d_sc_benchmark.Plan.Cells.{frozen_cells}
use llm_d_sc_benchmark.Plan.Build.{make_job, make_reservation, reservation_start}
use llm_d_sc_benchmark.Plan.Document.{build_plan, make_plan}
use llm_d_sc_benchmark.Plan.Slots.{slots, Slot, jobs_from, entries_from}
use llm_d_sc_benchmark.Plan.Runnable.{length-slots-frozen}
use llm_d_sc_benchmark.Plan.Success.{IsLegal, planned, build_plan_inv, rung_bounds}

module _ (sha256_hex : Text → Text) (run_id : Text) (c : ℕ) where
  pub length-jobs_from :
      (k : ℕ) (ss : List Slot) → length (jobs_from sha256_hex run_id c k ss) ≡ length ss
  length-jobs_from k [] = refl
  length-jobs_from k (s ∷ ss) = omega (arith, length-jobs_from (k + 1) ss)

  pub length-entries_from :
      (k : ℕ) (ss : List Slot) → length (entries_from sha256_hex run_id c k ss) ≡ length ss
  length-entries_from k [] = refl
  length-entries_from k (s ∷ ss) = omega (arith, length-entries_from (k + 1) ss)

  -- The interval of the job with number `n`.
  abbrev pub HasInterval : ℕ → Job → Type 0
  HasInterval n job =
      (job.sequence_base ≡ reservation_start c + n * job_sequence_span)
      × (job.reserved_end_exclusive ≡ job.sequence_base + job_sequence_span)

  pub get_elem?-jobs_from :
      (k : ℕ) (ss : List Slot) (i : ℕ) (job : Job)
      → get_elem? (jobs_from sha256_hex run_id c k ss) i ≡ some job
      → HasInterval (k + i) job × (i < length ss)
  unfolding make_job
  get_elem?-jobs_from k [] i job h = cc
  get_elem?-jobs_from k (s ∷ ss) zero job h = ground arith
  get_elem?-jobs_from k (s ∷ ss) (suc i) job h =
      ground (arith, get_elem?-jobs_from (k + 1) ss i job)

module _ (sha256_hex : Text → Text) (namespace target_node driver_node : String) where
  planned_intervals :
      (run_id : Text) (c replicas : ℕ)
      → IsLegal run_id c replicas
      → (i j : ℕ) (a b : Job)
      → get_elem? (planned sha256_hex namespace target_node driver_node run_id c replicas).jobs i
        ≡ some a
      → get_elem? (planned sha256_hex namespace target_node driver_node run_id c replicas).jobs j
        ≡ some b
      → i < j
      → HasInterval sha256_hex run_id c i a × HasInterval sha256_hex run_id c j b × (j < 604)
  unfolding make_plan
  planned_intervals run_id c replicas legal i j a b ha hb lt =
      let ss = slots (frozen_cells replicas (pos c)) in
      let bounds = rung_bounds replicas legal.allowed in
      let (at_i, _) = get_elem?-jobs_from sha256_hex run_id c 0 ss i a ha in
      let (at_j, below) = get_elem?-jobs_from sha256_hex run_id c 0 ss j b hb in
      (omega arith, omega arith, omega (arith, length-slots-frozen replicas (pos c) bounds.0))

  -- In a plan that `build_plan` returns, two jobs have disjoint intervals, the earlier job's first. Each
  -- interval has the span of a job, and lies in the reservation of the campaign.
  pub job_intervals :
      (run_id : Text) (campaign_index : ℤ) (replicas : ℕ) {plan : Plan} {ledger : Ledger}
      → build_plan sha256_hex namespace target_node driver_node run_id campaign_index replicas
        ≡ ok (plan, ledger)
      → (i j : ℕ) (a b : Job) → get_elem? plan.jobs i ≡ some a
      → get_elem? plan.jobs j ≡ some b
      → i < j
      → (a.reserved_end_exclusive ≤ b.sequence_base)
        × (a.reserved_end_exclusive ≡ a.sequence_base + job_sequence_span)
        × (b.reserved_end_exclusive ≡ b.sequence_base + job_sequence_span)
        × (plan.sequence_reservation.start_inclusive ≤ a.sequence_base)
        × (b.reserved_end_exclusive ≤ plan.sequence_reservation.end_exclusive)
  unfolding make_plan make_reservation
  job_intervals run_id campaign_index replicas built i j a b ha hb lt =
      let (c, _, legal, same, _) =
        build_plan_inv sha256_hex namespace target_node driver_node run_id campaign_index replicas
          built in
      let parts =
        planned_intervals run_id c replicas legal i j a b (rw same at ha) (rw same at hb) lt in
      rw same (omega arith)
