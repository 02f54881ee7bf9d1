-- ===== src/Scale/Reconcile.antt =====
-- The jobs and entries of a built plan pass the second half of `validate_plan`: the names differ, each
-- job finds its own entry, and the intervals lie in order.
use llm_d_sc_benchmark.Prelude.{
  ℕ, suc, ◌+◌, ◌*◌, ◌≤◌, ◌<◌, ◌≡◌, refl, ap, false, none, some, List, [], ◌∷◌, ◌++◌, map,
  append_assoc, arith, ok, length, Bool-cases, inl, inr,
}
use llm_d_sc_benchmark.Prelude.Decimal.{Text, text_eq, text_eq_sound, text_eq_refl}
use llm_d_sc_benchmark.Plan.Types.{Entry, job_sequence_span}
use llm_d_sc_benchmark.Plan.Build.{
  job_name, make_job, make_entry, make_reservation, reservation_start,
}
use llm_d_sc_benchmark.Plan.Slots.{Slot, slot_job, slot_entry, jobs_from, entries_from}
use llm_d_sc_benchmark.Plan.Order.{key, IsAscending, job_name_injective}
use llm_d_sc_benchmark.Scale.Intervals.{
  has_text, distinct, find_entry, Interval, interval_of, intervals_of, interval_le, insert_interval,
  sort_intervals, check_neighbours,
}

module _ (sha256_hex : Text → Text) (run_id : Text) (c : ℕ) where
  abbrev pub name : Slot → Text
  name (cell, e) = job_name sha256_hex run_id c cell.ordinal e

  abbrev pub IsNameable : Slot → Type 0
  IsNameable (cell, e) = (cell.ordinal < 100) × (e < 100)

  name_differs :
      (s t : Slot) → IsNameable s → IsNameable t → key s < key t → text_eq (name t) (name s) ≡ false
  name_differs (c1, e1) (c2, e2) (o1, h1) (o2, h2) lt =
      elim (Bool-cases (text_eq (name (c2, e2)) (name (c1, e1)))) [
        | inl same ↦
            let both =
              job_name_injective sha256_hex run_id c c2.ordinal e2 c1.ordinal e1 o2 h2 o1 h1
                (text_eq_sound _ _ same) in
            absurd (omega arith)
        | inr differs ↦ differs
      ]

  text_eq_swap : (s t : Text) → text_eq s t ≡ false → text_eq t s ≡ false
  text_eq_swap s t h = elim (Bool-cases (text_eq t s)) [
    | inl same ↦ cc (text_eq_sound t s same, text_eq_refl s)
    | inr differs ↦ differs
  ]

  abbrev pub names : List Slot → List Text
  names ss = map name ss

  -- A name of an earlier slot does not come again.
  has_text-names :
      (s : Slot) (lo : ℕ) (ss : List Slot)
      → IsNameable s
      → key s < lo
      → IsAscending lo ss
      → has_text (name s) (names ss) ≡ false
  unfolding has_text
  has_text-names s lo [] n h a = refl
  has_text-names s lo ((cell, e) ∷ ss) n h (le, ho, he, rest) = rw (
    text_eq_swap _ _ (name_differs s (cell, e) n (ho, he) (omega arith)),
    has_text-names s (suc (key (cell, e))) ss n (omega arith) rest,
  )

  pub distinct-names :
      (lo : ℕ) (ss : List Slot) → IsAscending lo ss → distinct (names ss) ≡ names ss
  unfolding distinct
  distinct-names lo [] a = refl
  distinct-names lo ((cell, e) ∷ ss) (le, ho, he, rest) = rw (
    has_text-names (cell, e) (suc (key (cell, e))) ss (ho, he) (omega arith) rest,
    distinct-names (suc (key (cell, e))) ss rest,
  )

  find_entry-later :
      (s : Slot) (lo k : ℕ) (ss : List Slot)
      → IsNameable s
      → key s < lo
      → IsAscending lo ss
      → find_entry (name s) (entries_from sha256_hex run_id c k ss) ≡ none
  unfolding find_entry make_entry
  find_entry-later s lo k [] n h a = refl
  find_entry-later s lo k ((cell, e) ∷ ss) n h (le, ho, he, rest) = rw (
    find_entry-later s (suc (key (cell, e))) (k + 1) ss n (omega arith) rest,
    name_differs s (cell, e) n (ho, he) (omega arith),
  )

  find_entry-head :
      (s : Slot) (k : ℕ) (ss : List Slot)
      → IsNameable s
      → IsAscending (suc (key s)) ss
      → find_entry (name s) (entries_from sha256_hex run_id c k (s ∷ ss))
        ≡ some (slot_entry sha256_hex run_id c k s)
  unfolding find_entry make_entry
  find_entry-head (cell, e) k ss n a = rw (
    find_entry-later (cell, e) (suc (key (cell, e))) (k + 1) ss n (omega arith) a,
    text_eq_refl (name (cell, e)),
  )

find_entry-append :
    (job_id : Text) (xs ys : List Entry) {entry : Entry}
    → find_entry job_id ys ≡ some entry
    → find_entry job_id (xs ++ ys) ≡ some entry
unfolding find_entry
find_entry-append job_id [] ys h = h
find_entry-append job_id (x ∷ xs) ys h = rw (find_entry-append job_id xs ys h)

module _ (sha256_hex : Text → Text) (run_id : Text) (c : ℕ) where
  abbrev pub interval_at : ℕ → Slot → Interval
  interval_at k s = record {
    start = reservation_start c + k * job_sequence_span;
    end = reservation_start c + k * job_sequence_span + job_sequence_span;
    job_id = name sha256_hex run_id c s;
  }

  abbrev pub intervals_from : ℕ → List Slot → List Interval
  intervals_from k [] = []
  intervals_from k (s ∷ ss) = interval_at k s ∷ intervals_from (k + 1) ss

  interval_of_ok :
      (k total : ℕ) (s : Slot) (entries : List Entry)
      → k < 999
      → find_entry (name sha256_hex run_id c s) entries ≡ some (slot_entry sha256_hex run_id c k s)
      → interval_of (make_reservation c total) entries (slot_job sha256_hex run_id c k s)
        ≡ ok (interval_at k s)
  unfolding interval_of make_reservation make_job make_entry
  interval_of_ok k total (cell, e) entries h found = rw (found, interval_of) (ground arith)

  -- Each job finds its own entry, among all of them.
  pub intervals_of_ok :
      (lo k total : ℕ) (ss : List Slot) (before entries : List Entry)
      → k + length ss ≤ 999
      → IsAscending lo ss
      → entries ≡ before ++ entries_from sha256_hex run_id c k ss
      → intervals_of (make_reservation c total) entries (jobs_from sha256_hex run_id c k ss)
        ≡ ok (intervals_from k ss)
  unfolding intervals_of
  intervals_of_ok lo k total [] before entries room a split = refl
  intervals_of_ok lo k total ((cell, e) ∷ ss) before entries room (le, ho, he, rest) split =
      let here = slot_entry sha256_hex run_id c k (cell, e) in
      let found =
        find_entry-append (name sha256_hex run_id c (cell, e)) before
          (entries_from sha256_hex run_id c k ((cell, e) ∷ ss))
          (find_entry-head sha256_hex run_id c (cell, e) k ss (ho, he) rest) in
      let next = append_assoc before (here ∷ []) (entries_from sha256_hex run_id c (k + 1) ss) in
      rw (
        interval_of_ok k total (cell, e) entries (omega arith) (rw split found),
        intervals_of_ok (suc (key (cell, e))) (k + 1) total ss (before ++ here ∷ []) entries
            (omega arith) rest (cc),
      )

  insert-intervals :
      (k : ℕ) (s : Slot) (ss : List Slot)
      → insert_interval (interval_at k s) (intervals_from (k + 1) ss) ≡ intervals_from k (s ∷ ss)
  unfolding insert_interval interval_le
  insert-intervals k s [] = refl
  insert-intervals k s (t ∷ ss) = ground arith

  pub sort-intervals :
      (k : ℕ) (ss : List Slot) → sort_intervals (intervals_from k ss) ≡ intervals_from k ss
  unfolding sort_intervals
  sort-intervals k [] = refl
  sort-intervals k (s ∷ ss) = rw (sort-intervals (k + 1) ss) (insert-intervals k s ss)

  pub neighbours_ok : (k : ℕ) (ss : List Slot) → check_neighbours (intervals_from k ss) ≡ ok tt
  unfolding check_neighbours
  neighbours_ok k [] = refl
  neighbours_ok k (s ∷ []) = refl
  neighbours_ok k (s ∷ t ∷ ss) = ground (arith, neighbours_ok (k + 1) (t ∷ ss))

  pub map-job_id :
      (k : ℕ) (ss : List Slot)
      → map (λ job. job.job_id) (jobs_from sha256_hex run_id c k ss) ≡ names sha256_hex run_id c ss
  unfolding make_job
  map-job_id k [] = refl
  map-job_id k (s ∷ ss) = ap (λ l. name sha256_hex run_id c s ∷ l) (map-job_id (k + 1) ss)
