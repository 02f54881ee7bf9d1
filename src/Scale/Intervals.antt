-- ===== src/Scale/Intervals.antt =====
-- hack/arena-sc-horizontal-scale-summarize.py: the second half of `validate_plan`, which reconciles the
-- jobs with the ledger's entries and looks for overlapping intervals.
use llm_d_sc_benchmark.Prelude.{
  ℕ, ◌-◌, ◌==◌, Bool, false, ◌&&◌, ◌||◌, Option, none, some, List, [], ◌∷◌, map, Result, ok, err,
  ◌>>=◌, ◌>>◌, require, ltb, leb, if◌then◌else◌, length, keep,
}
use llm_d_sc_benchmark.Prelude.Decimal.{Text, text_eq, text_le}
use llm_d_sc_benchmark.Plan.Types.{Job, Entry, Reservation, Plan, Ledger}
use llm_d_sc_benchmark.Scale.Validate.{
  Fault, knee_count, job_count, duplicate_job, entry_missing, interval_mismatch, wrong_span,
  out_of_reservation, overlapping, validate_header, is_knee, validate_blocks, validate_reservation,
}

unfoldable pub has_text : Text → List Text → Bool
has_text t [] = false
has_text t (u ∷ texts) = text_eq t u || has_text t texts

-- The members of the set of the texts.
unfoldable pub distinct : List Text → List Text
distinct [] = []
distinct (t ∷ texts) = if has_text t texts then distinct texts else t ∷ distinct texts

-- `entries_by_job.get(job_id)`: of two entries with one key the later one stays.
unfoldable pub find_entry : Text → List Entry → Option Entry
find_entry job_id [] = none
find_entry job_id (entry ∷ entries) = elim (find_entry job_id entries) [
  | some later ↦ some later
  | none ↦ if text_eq entry.job_id job_id then some entry else none
]

pub record Interval : Type 0 where
  pub start : ℕ
  pub end : ℕ
  pub job_id : Text

unfoldable pub interval_of : Reservation → List Entry → Job → Result Fault Interval
interval_of reservation entries job = elim (find_entry job.job_id entries) [
  | none ↦ err (entry_missing job.job_id)
  | some entry ↦ do
    let start = entry.planned.start_inclusive
    let end = entry.planned.end_exclusive
    require (start == job.sequence_base && end == job.reserved_end_exclusive)
        (interval_mismatch job.job_id)
    require (end - start == 10_001) (wrong_span job.job_id)
    require
        (leb reservation.start_inclusive start
          && ltb start end
          && leb end reservation.end_exclusive)
        (out_of_reservation job.job_id)
    ok (record { start = start; end = end; job_id = job.job_id })
]

unfoldable pub intervals_of : Reservation → List Entry → List Job → Result Fault (List Interval)
intervals_of reservation entries [] = ok []
intervals_of reservation entries (job ∷ jobs) = do
  interval ← interval_of reservation entries job
  rest ← intervals_of reservation entries jobs
  ok (interval ∷ rest)

-- The order of the tuples `(start, end, job_id)`.
unfoldable pub interval_le : Interval → Interval → Bool
interval_le a b =
    ltb a.start b.start
    || a.start == b.start && (ltb a.end b.end || a.end == b.end && text_le a.job_id b.job_id)

unfoldable pub insert_interval : Interval → List Interval → List Interval
insert_interval a [] = a ∷ []
insert_interval a (b ∷ bs) = if interval_le a b then a ∷ b ∷ bs else b ∷ insert_interval a bs

-- `intervals.sort()`
unfoldable pub sort_intervals : List Interval → List Interval
sort_intervals [] = []
sort_intervals (a ∷ rest) = insert_interval a (sort_intervals rest)

-- The loop over the pairs of neighbours.
unfoldable pub check_neighbours : List Interval → Result Fault (Unit {0})
check_neighbours [] = ok tt
check_neighbours (a ∷ []) = ok tt
check_neighbours (a ∷ b ∷ rest) = do
  require (leb a.end b.start) (overlapping a.job_id b.job_id)
  check_neighbours (b ∷ rest)

unfoldable pub validate_jobs : Plan → Ledger → Result Fault (Unit {0})
validate_jobs plan ledger = do
  require (length plan.jobs == length ledger.entries) job_count
  require (length (distinct (map (λ job. job.job_id) plan.jobs)) == length plan.jobs) duplicate_job
  intervals ← intervals_of plan.sequence_reservation ledger.entries plan.jobs
  check_neighbours (sort_intervals intervals)

unfoldable pub validate_plan : Plan → Ledger → Result Fault (Unit {0})
validate_plan plan ledger = do
  validate_header plan
  let knee_cells = keep is_knee plan.cells
  require (length knee_cells == 10) knee_count
  validate_blocks plan.rung_replicas knee_cells (1 ∷ 2 ∷ 3 ∷ 4 ∷ 5 ∷ [])
  validate_reservation plan ledger
  validate_jobs plan ledger
