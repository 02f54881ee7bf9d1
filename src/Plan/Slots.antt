-- ===== src/Plan/Slots.antt =====
-- What the two loops of `build_plan` compute: a job and an entry for each slot, a cell with one of its
-- endpoints, numbered in order.
use llm_d_sc_benchmark.Prelude.{
  ℕ, ◌+◌, ◌≤◌, ◌<◌, ◌≡◌, refl, Option, some, List, [], ◌∷◌, ◌++◌, map, append_assoc, append-nil,
  arith, ok, length, get_elem?, All, length-append,
}
use llm_d_sc_benchmark.Prelude.Decimal.{Text}
use llm_d_sc_benchmark.Plan.Types.{Cell, Job, Entry}
use llm_d_sc_benchmark.Plan.Build.{
  rate_of, Progress, make_job, make_entry, job_name, place, place_endpoints, place_cells,
}

abbrev pub rate_at : List (Option ℕ) → ℕ → ℕ
rate_at rates endpoint = elim (get_elem? rates endpoint) [ some (some rate) ↦ rate | _ ↦ 0 ]

-- The endpoint has a rate.
abbrev pub IsServed : List (Option ℕ) → ℕ → Type 0
IsServed rates endpoint = get_elem? rates endpoint ≡ some (some (rate_at rates endpoint))

abbrev pub Slot : Type 0
Slot = Cell × ℕ

abbrev pub cell_slots : Cell → List ℕ → List Slot
cell_slots cell [] = []
cell_slots cell (e ∷ es) = (cell, e) ∷ cell_slots cell es

abbrev pub slots : List Cell → List Slot
slots [] = []
slots (cell ∷ cells) = cell_slots cell cell.active_endpoints ++ slots cells

-- Every active endpoint of the cell has a rate.
abbrev pub IsRunnable : Cell → Type 0
IsRunnable cell = All (IsServed cell.endpoint_offered_rps) cell.active_endpoints

pub length-cell_slots : (cell : Cell) (es : List ℕ) → length (cell_slots cell es) ≡ length es
length-cell_slots cell [] = refl
length-cell_slots cell (e ∷ es) = omega (arith, length-cell_slots cell es)

module _ (sha256_hex : Text → Text) (run_id : Text) (campaign_index : ℕ) where
  abbrev pub slot_job : ℕ → Slot → Job
  slot_job k (cell, e) =
      make_job sha256_hex run_id campaign_index k cell e (rate_at cell.endpoint_offered_rps e)

  abbrev pub slot_entry : ℕ → Slot → Entry
  slot_entry k (cell, e) = make_entry sha256_hex run_id campaign_index k cell e

  abbrev pub jobs_from : ℕ → List Slot → List Job
  jobs_from k [] = []
  jobs_from k (s ∷ ss) = slot_job k s ∷ jobs_from (k + 1) ss

  abbrev pub entries_from : ℕ → List Slot → List Entry
  entries_from k [] = []
  entries_from k (s ∷ ss) = slot_entry k s ∷ entries_from (k + 1) ss

  abbrev pub advance : Progress → List Slot → Progress
  advance p ss = record {
    allocation = p.allocation + length ss;
    entries = p.entries ++ entries_from p.allocation ss;
    jobs = p.jobs ++ jobs_from p.allocation ss;
  }

  jobs_from-append :
      (k : ℕ) (ss ts : List Slot)
      → jobs_from k (ss ++ ts) ≡ jobs_from k ss ++ jobs_from (k + length ss) ts
  jobs_from-append k [] ts = ground arith
  jobs_from-append k (s ∷ ss) ts = ground (arith, jobs_from-append (k + 1) ss ts)

  entries_from-append :
      (k : ℕ) (ss ts : List Slot)
      → entries_from k (ss ++ ts) ≡ entries_from k ss ++ entries_from (k + length ss) ts
  entries_from-append k [] ts = ground arith
  entries_from-append k (s ∷ ss) ts = ground (arith, entries_from-append (k + 1) ss ts)

  advance-append :
      (p : Progress) (ss ts : List Slot) → advance (advance p ss) ts ≡ advance p (ss ++ ts)
  advance-append p ss ts = ground (
    arith,
    length-append {0} ss ts,
    jobs_from-append p.allocation ss ts,
    entries_from-append p.allocation ss ts,
    append_assoc p.jobs (jobs_from p.allocation ss) (jobs_from (p.allocation + length ss) ts),
    append_assoc p.entries (entries_from p.allocation ss)
        (entries_from (p.allocation + length ss) ts),
  )

  advance-nil : (p : Progress) → advance p [] ≡ p
  advance-nil p = ground (arith, append-nil p.jobs, append-nil p.entries)

  place_lem :
      (cell : Cell) (e : ℕ) (p : Progress)
      → IsServed cell.endpoint_offered_rps e
      → p.allocation < 999
      → place sha256_hex run_id campaign_index cell e p ≡ ok (advance p ((cell, e) ∷ []))
  unfolding place rate_of
  place_lem cell e p served h = ground arith

  -- With room for every endpoint, the inner loop places them all, in order.
  pub place_endpoints_lem :
      (cell : Cell) (es : List ℕ) (names : List Text) (p : Progress)
      → All (IsServed cell.endpoint_offered_rps) es
      → p.allocation + length es ≤ 999
      → place_endpoints sha256_hex run_id campaign_index cell es names p
        ≡ ok (
          names ++ map (job_name sha256_hex run_id campaign_index cell.ordinal) es,
          advance p (cell_slots cell es),
        )
  unfolding place_endpoints
  place_endpoints_lem cell [] names p h room = rw (append-nil, advance-nil p)
  place_endpoints_lem cell (e ∷ es) names p (served, h) room =
      rw (place_lem cell e p served (omega arith)) (
        cc (
          place_endpoints_lem cell es
              (names ++ job_name sha256_hex run_id campaign_index cell.ordinal e ∷ [])
              (advance p ((cell, e) ∷ [])) h (omega arith),
          advance-append p ((cell, e) ∷ []) (cell_slots cell es),
          append_assoc names (job_name sha256_hex run_id campaign_index cell.ordinal e ∷ [])
              (map (job_name sha256_hex run_id campaign_index cell.ordinal) es),
        ))

  -- The cell with the names of its jobs.
  abbrev pub named : Cell → Cell
  named cell = record cell {
    job_ids = map (job_name sha256_hex run_id campaign_index cell.ordinal) cell.active_endpoints;
  }

  -- With room for every slot, the outer loop places the cells one after another.
  pub place_cells_lem :
      (cells done : List Cell) (p : Progress)
      → All IsRunnable cells
      → p.allocation + length (slots cells) ≤ 999
      → place_cells sha256_hex run_id campaign_index cells done p
        ≡ ok (done ++ map named cells, advance p (slots cells))
  unfolding place_cells
  place_cells_lem [] done p h room = rw (append-nil, advance-nil p)
  place_cells_lem (cell ∷ cells) done p (h, hs) room =
      let es = cell.active_endpoints in
      let here : length (cell_slots cell es) ≡ length es = length-cell_slots cell es in
      let total = length-append (cell_slots cell es) (slots cells) in
      rw (place_endpoints_lem cell es [] p h (omega arith)) (
        cc (
          place_cells_lem cells (done ++ named cell ∷ []) (advance p (cell_slots cell es)) hs
              (omega arith),
          advance-append p (cell_slots cell es) (slots cells),
          append_assoc done (named cell ∷ []) (map named cells),
        ))
