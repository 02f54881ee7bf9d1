-- ===== src/Plan/Overlap.antt =====
-- What `assert_no_overlap` guarantees, and that campaigns of different indexes never collide.
use llm_d_sc_benchmark.Prelude.{
  ℕ, ◌<◌, ◌≤◌, ◌≡◌, refl, ◌≢◌, ◌⊎◌, inl, inr, String, false, List, [], ◌∷◌, arith, ℤ, pos, ◌<ℤ◌,
  ◌≤ℤ◌, ok, err, All, Bool-cases,
}
use native.Mathlib.Decide.{dec_lt}
use mathlib.Core.List.{append-eq-nil_iff}
use llm_d_sc_benchmark.Prelude.Decimal.{Text, text_eq, text_eq_sound, text_eq_refl}
use llm_d_sc_benchmark.Plan.Types.{Plan, Ledger, sequence_namespace_start, sequence_namespace_end}
use llm_d_sc_benchmark.Plan.Build.{make_reservation, reservation_start, reservation_end}
use llm_d_sc_benchmark.Plan.Document.{build_plan, make_plan, make_ledger}
use llm_d_sc_benchmark.Plan.Success.{build_plan_inv}
use llm_d_sc_benchmark.Plan.Ledgers.{
  Reading, readable, unreadable, LedgerFile, conflict_of, conflicts, assert_no_overlap, overlap,
}

-- No number lies in both intervals, and the other one could be read.
abbrev pub SharesNothing : ℕ → ℕ → Reading → Type 0
SharesNothing start end unreadable = ⊥
SharesNothing start end (readable other_start other_end) =
    (n : ℤ) → pos start ≤ℤ n → n <ℤ pos end → other_start ≤ℤ n → n <ℤ other_end → ⊥

-- The other interval ends before this one, or begins behind it.
abbrev pub IsApart : ℕ → ℕ → Reading → Type 0
IsApart start end unreadable = ⊥
IsApart start end (readable other_start other_end) =
    (other_end ≤ℤ pos start) ⊎ (pos end ≤ℤ other_start)

text_eq-false : (s t : Text) → s ≢ t → text_eq s t ≡ false
text_eq-false s t ne = elim (Bool-cases (text_eq s t)) [
  | inl e ↦ absurd (ne (text_eq_sound s t e))
  | inr e ↦ e
]

conflict_of_sound :
    (own path : Text) (start end : ℕ) (reading : Reading)
    → conflict_of own start end (record { path = path; reading = reading }) ≡ []
    → path ≢ own
    → SharesNothing start end reading
unfolding conflict_of
conflict_of_sound own path start end unreadable h ne = ne (text_eq_sound path own (ground arith))
conflict_of_sound own path start end (readable s e) h ne =
    λ n a b c d. ne (text_eq_sound path own (ground arith))

conflict_of_complete :
    (own path : Text) (start end : ℕ) (reading : Reading)
    → (path ≡ own) ⊎ IsApart start end reading
    → conflict_of own start end (record { path = path; reading = reading }) ≡ []
unfolding conflict_of
conflict_of_complete own path start end reading (inl e) = rw (e, text_eq_refl own, conflict_of)
conflict_of_complete own path start end unreadable (inr h) = absurd h
conflict_of_complete own path start end (readable s e) (inr h) = ground arith

conflicts_sound :
    (own : Text) (start end : ℕ) (files : List LedgerFile)
    → conflicts own start end files ≡ []
    → All (λ f. f.path ≢ own → SharesNothing start end f.reading) files
unfolding conflicts
conflicts_sound own start end [] h = tt
conflicts_sound own start end (f ∷ files) h =
    let (here, rest) = append-eq-nil_iff.0 h in
    (
      conflict_of_sound own f.path start end f.reading here,
      conflicts_sound own start end files rest,
    )

conflicts_complete :
    (own : Text) (start end : ℕ) (files : List LedgerFile)
    → All (λ f. (f.path ≡ own) ⊎ IsApart start end f.reading) files
    → conflicts own start end files ≡ []
unfolding conflicts
conflicts_complete own start end [] _ = refl
conflicts_complete own start end (f ∷ files) (here, rest) = cc (
  conflict_of_complete own f.path start end f.reading here,
  conflicts_complete own start end files rest,
)

-- Where the test passes, every other ledger under the root could be read, and no sequence number lies
-- both in its reservation and in the new one.
pub assert_no_overlap_sound :
    (ledger : Ledger) (files : List LedgerFile) (own : Text)
    → assert_no_overlap ledger files own ≡ ok tt
    → All
        (λ f.
          f.path ≢ own
          → SharesNothing ledger.reservation.start_inclusive ledger.reservation.end_exclusive
              f.reading)
        files
unfolding assert_no_overlap
assert_no_overlap_sound ledger files own h =
    conflicts_sound own ledger.reservation.start_inclusive ledger.reservation.end_exclusive files
      (ground arith)

-- The test passes where each ledger other than the own one could be read, and its reservation ends
-- before the new one or begins behind it.
pub assert_no_overlap_complete :
    (ledger : Ledger) (files : List LedgerFile) (own : Text)
    → All
        (λ f.
          (f.path ≡ own)
          ⊎ IsApart ledger.reservation.start_inclusive ledger.reservation.end_exclusive f.reading)
        files
    → assert_no_overlap ledger files own ≡ ok tt
unfolding assert_no_overlap
assert_no_overlap_complete ledger files own h = rw (
  conflicts_complete own ledger.reservation.start_inclusive ledger.reservation.end_exclusive files
      h,
  assert_no_overlap,
)

-- The file that a ledger is written to, as a later run reads it.
abbrev pub written : Text → Ledger → LedgerFile
written path ledger = record {
  path = path;
  reading =
      readable (pos ledger.reservation.start_inclusive) (pos ledger.reservation.end_exclusive);
}

module _ (sha256_hex : Text → Text) (namespace target_node driver_node : String) where
  reservation_of :
      (run_id : Text) (campaign_index : ℤ) (replicas : ℕ) {plan : Plan} {ledger : Ledger}
      → build_plan sha256_hex namespace target_node driver_node run_id campaign_index replicas
        ≡ ok (plan, ledger)
      → (c : ℕ) × (campaign_index ≡ pos c)
        × (ledger.reservation.start_inclusive ≡ reservation_start c)
        × (ledger.reservation.end_exclusive ≡ reservation_end c)
        × (c < 100)
  unfolding make_plan make_ledger make_reservation
  reservation_of run_id campaign_index replicas built =
      let (c, e, legal, _, same) =
        build_plan_inv sha256_hex namespace target_node driver_node run_id campaign_index replicas
          built in
      (c, e, rw same, rw same, legal.audited)

  -- Two ledgers that `build_plan` returns, for whatever runs and rungs, do not block one another if
  -- their campaign indexes differ; and both lie in the audited namespace.
  pub campaigns_disjoint :
      (run_a run_b : Text) (index_a index_b : ℤ) (replicas_a replicas_b : ℕ) {plan_a plan_b : Plan}
      {ledger_a ledger_b : Ledger} (own other : Text)
      → build_plan sha256_hex namespace target_node driver_node run_a index_a replicas_a
        ≡ ok (plan_a, ledger_a)
      → build_plan sha256_hex namespace target_node driver_node run_b index_b replicas_b
        ≡ ok (plan_b, ledger_b)
      → index_a ≢ index_b
      → (assert_no_overlap ledger_a (written other ledger_b ∷ []) own ≡ ok tt)
        × (sequence_namespace_start ≤ ledger_a.reservation.start_inclusive)
        × (ledger_a.reservation.end_exclusive ≤ sequence_namespace_end)
  campaigns_disjoint run_a run_b index_a index_b replicas_a replicas_b {ledger_a = ledger_a}
        {ledger_b = ledger_b} own other built_a built_b ne =
      let (a, ea, sa, fa, la) = reservation_of run_a index_a replicas_a built_a in
      let (b, eb, sb, fb, lb) = reservation_of run_b index_b replicas_b built_b in
      let apart : a ≢ b = λ e. ne (cc) in
      (
        assert_no_overlap_complete ledger_a (written other ledger_b ∷ []) own (
          inr (elim (dec_lt a b) [ yes lt ↦ inr (omega arith) | no ge ↦ inl (omega arith) ]),
          tt,
        ),
        omega arith,
        omega arith,
      )

  -- A run with the campaign index of another one, of whatever name and rung, is refused by the overlap
  -- with the ledger of that run, where this is the only other ledger and the run's own ledger is to be
  -- written to another path.
  pub campaign_reuse_refused :
      (run_a run_b : Text) (index : ℤ) (replicas_a replicas_b : ℕ) {plan_a plan_b : Plan}
      {ledger_a ledger_b : Ledger} (own other : Text)
      → build_plan sha256_hex namespace target_node driver_node run_a index replicas_a
        ≡ ok (plan_a, ledger_a)
      → build_plan sha256_hex namespace target_node driver_node run_b index replicas_b
        ≡ ok (plan_b, ledger_b)
      → other ≢ own
      → assert_no_overlap ledger_a (written other ledger_b ∷ []) own
        ≡ err (
            overlap other
              (pos ledger_b.reservation.start_inclusive)
              (pos ledger_b.reservation.end_exclusive)
            ∷ [])
  unfolding assert_no_overlap conflicts conflict_of
  campaign_reuse_refused run_a run_b index replicas_a replicas_b {ledger_a = ledger_a}
        {ledger_b = ledger_b} own other built_a built_b ne =
      let (a, ea, sa, fa, la) = reservation_of run_a index replicas_a built_a in
      let (b, eb, sb, fb, lb) = reservation_of run_b index replicas_b built_b in
      let same : a ≡ b = ground arith in
      let new_name : text_eq other own ≡ false = text_eq-false other own ne in
      let s : ledger_a.reservation.start_inclusive < ledger_b.reservation.end_exclusive =
        omega arith in
      let t : ledger_b.reservation.start_inclusive < ledger_a.reservation.end_exclusive =
        omega arith in
      ground arith
