-- ===== src/Scale/Confirmed.antt =====
-- What it means that a rung confirms the knee.
use llm_d_sc_benchmark.Prelude.{
  ℕ, ◌≡◌, refl, ap, ◌∙◌, Bool, true, false, ◌&&◌, List, [], ◌∷◌, ok, all, any, All, >>=-eq-ok,
  ok-injective, and-eq-true,
}
use llm_d_sc_benchmark.Prelude.Floats.{Floats}
use llm_d_sc_benchmark.Plan.Gates.{AnalysisRule}
use llm_d_sc_benchmark.Scale.Cells.{CellSummary, next, threshold, p99_quotient}
use llm_d_sc_benchmark.Scale.Evidence.{
  IsPair, next-IsPair, IsClean, IsStressed, HasRatio, clean41-IsClean, stressed42-IsStressed,
  p99_quotient-HasRatio,
}
use llm_d_sc_benchmark.Scale.Sentinels.{
  IsBootstrapped, IsEven, IsStable, ShowsReference, bootstrap_gate_of-IsBootstrapped,
  variability_gate_of-IsEven, scale_sentinels_of-IsStable, r1_sentinels_of-ShowsReference,
}
use llm_d_sc_benchmark.Scale.Decision.{
  BlockRow, confirmed_at_rung, Decision, status_of, is_pair, block_row, block_rows,
  bootstrap_gate_of, variability_gate_of, is_directed, scale_sentinels_of, r1_sentinels_of, Gates,
  gates_of, is_confirmed, horizontal_efficiency, decision,
}

status_of-confirmed :
    (confirmed all_clean any_stressed : Bool)
    → status_of confirmed all_clean any_stressed ≡ confirmed_at_rung
    → confirmed ≡ true
unfolding status_of
status_of-confirmed true all_clean any_stressed h = refl
status_of-confirmed false true true h = cc
status_of-confirmed false true false h = cc
status_of-confirmed false false any_stressed h = cc

module _ {F : Type 0} ⦃fl : Floats F⦄ (median : List F → F) where
  -- A block has a knee cell at 41 that is clean and one at 42 that is stressed, with more than 1.25 times its
  -- latency, and its effects point the same way.
  pub record IsKnee (rule : AnalysisRule) (cells : List (CellSummary F)) (block : ℕ) : Type 0 where
    pub low : CellSummary F
    pub high : CellSummary F
    pub low_lem : IsPair cells block 41 low
    pub high_lem : IsPair cells block 42 high
    pub clean : IsClean rule low
    pub stressed : IsStressed rule high
    pub ratio : F
    pub ratio_lem : HasRatio high low ratio
    pub slower : fl.lt (threshold rule.paired_p99_ratio_min_exclusive) ratio ≡ true
    pub success : fl.lt (fl.sub high.success_ratio low.success_ratio) (fl.decimal 0 0) ≡ true
    pub drain : fl.lt (fl.decimal 0 0) (fl.sub high.drain_ratio low.drain_ratio) ≡ true
    pub useful :
        fl.lt (fl.sub high.per_pod_useful_rps low.per_pod_useful_rps) (fl.decimal 1 0) ≡ true

  block_row-IsKnee :
      (rule : AnalysisRule) (cells : List (CellSummary F)) (block : ℕ) (row : BlockRow F)
      → block_row median rule cells block ≡ ok row
      → (row.rate_41_clean && row.rate_42_stressed) ≡ true
      → is_directed median row ≡ true
      → IsKnee rule cells block
  unfolding block_row is_directed
  block_row-IsKnee rule cells block row h paired directed =
      let (low, h0, h1) = >>=-eq-ok (next (is_pair block 41) cells) _ h in
      let (high, h2, h3) = >>=-eq-ok (next (is_pair block 42) cells) _ h1 in
      let (ratio, h4, h5) = >>=-eq-ok (p99_quotient high low) _ h3 in
      let same = ok-injective h5 in
      let (clean, p0) =
        (and-eq-true _ _).0 (ap (λ r. r.rate_41_clean && r.rate_42_stressed) same ∙ paired) in
      let (stressed, slower) = (and-eq-true _ _).0 p0 in
      let (p1, useful) = (and-eq-true _ _).0 (ap (is_directed median) same ∙ directed) in
      let (p2, latency) = (and-eq-true _ _).0 p1 in
      let (success, drain) = (and-eq-true _ _).0 p2 in
      record {
        low = low;
        high = high;
        low_lem = next-IsPair cells block 41 low h0;
        high_lem = next-IsPair cells block 42 high h2;
        clean = clean41-IsClean rule low clean;
        stressed = stressed42-IsStressed rule high stressed;
        ratio = ratio;
        ratio_lem = p99_quotient-HasRatio high low ratio h4;
        slower = slower;
        success = success;
        drain = drain;
        useful = useful;
      }

  block_rows-All :
      (rule : AnalysisRule) (cells : List (CellSummary F)) (numbers : List ℕ)
      (rows : List (BlockRow F))
      → block_rows median rule cells numbers ≡ ok rows
      → all (λ r. r.rate_41_clean && r.rate_42_stressed) rows ≡ true
      → all (is_directed median) rows ≡ true
      → All (IsKnee rule cells) numbers
  unfolding block_rows
  block_rows-All rule cells [] rows h paired directed = tt
  block_rows-All rule cells (n ∷ numbers) rows h paired directed =
      let (row, h0, h1) = >>=-eq-ok (block_row median rule cells n) _ h in
      let (rest, h2, h3) = >>=-eq-ok (block_rows median rule cells numbers) _ h1 in
      let same = ok-injective h3 in
      let (paired0, paired1) =
        (and-eq-true _ _).0 (ap (all (λ r. r.rate_41_clean && r.rate_42_stressed)) same ∙ paired) in
      let (directed0, directed1) =
        (and-eq-true _ _).0 (ap (all (is_directed median)) same ∙ directed) in
      (
        block_row-IsKnee rule cells n row h0 paired0 directed0,
        block_rows-All rule cells numbers rest h2 paired1 directed1,
      )

  -- The knee in each block, on whose effects the bootstrap runs, and what the gates found in the cells.
  pub record IsConfirmed (draws : List (List ℕ)) (rule : AnalysisRule)
      (cells : List (CellSummary F)) : Type 0 where
    pub knee : All (IsKnee rule cells) (1 ∷ 2 ∷ 3 ∷ 4 ∷ 5 ∷ [])
    pub rows : List (BlockRow F)
    pub rows_lem : block_rows median rule cells (1 ∷ 2 ∷ 3 ∷ 4 ∷ 5 ∷ []) ≡ ok rows
    pub bootstrap : IsBootstrapped median draws rows
    pub variability : IsEven median cells
    pub scale : IsStable median rule cells
    pub r1 : ShowsReference median rule cells

  gates_of-IsConfirmed :
      (draws : List (List ℕ)) (rule : AnalysisRule) (cells : List (CellSummary F)) (g : Gates F)
      → gates_of median draws rule cells ≡ ok g
      → is_confirmed median g ≡ true
      → IsConfirmed draws rule cells
  unfolding gates_of is_confirmed
  gates_of-IsConfirmed draws rule cells g h all_gates =
      let (rows, h0, h1) = >>=-eq-ok (block_rows median rule cells (1 ∷ 2 ∷ 3 ∷ 4 ∷ 5 ∷ [])) _ h in
      let (bootstrap, h2, h3) = >>=-eq-ok (bootstrap_gate_of median draws rows) _ h1 in
      let (variability, h4, h5) = >>=-eq-ok (variability_gate_of median cells) _ h3 in
      let (scale, h6, h7) = >>=-eq-ok (scale_sentinels_of median rule cells) _ h5 in
      let (r1, h8, h9) = >>=-eq-ok (r1_sentinels_of median rule cells) _ h7 in
      let (p0, r1_passed) =
        (and-eq-true _ _).0 (ap (is_confirmed median) (ok-injective h9) ∙ all_gates) in
      let (p1, scale_passed) = (and-eq-true _ _).0 p0 in
      let (p2, variability_passed) = (and-eq-true _ _).0 p1 in
      let (p3, bootstrap_passed) = (and-eq-true _ _).0 p2 in
      let (pairs, paired) = (and-eq-true _ _).0 p3 in
      record {
        knee = block_rows-All rule cells (1 ∷ 2 ∷ 3 ∷ 4 ∷ 5 ∷ []) rows h0 pairs paired;
        rows = rows;
        rows_lem = h0;
        bootstrap =
            bootstrap_gate_of-IsBootstrapped median draws rows (h2 ∙ ap ok bootstrap_passed);
        variability = variability_gate_of-IsEven median cells (h4 ∙ ap ok variability_passed);
        scale = scale_sentinels_of-IsStable median rule cells (h6 ∙ ap ok scale_passed);
        r1 = r1_sentinels_of-ShowsReference median rule cells r1 h8 r1_passed;
      }

  -- A rung confirms the knee only where each of the five blocks has among the cells a clean one at 41 and a
  -- stressed, slower one at 42 with effects in the direction of the knee, the bootstrap intervals of the effects
  -- lie on that side, the coefficients of variation are within their limits, and the sentinels before and after
  -- the blocks agree, those of the rung free of errors, and those of one Pod clean at 41 and stressed at 42.
  pub decision-IsConfirmed :
      (draws : List (List ℕ)) (rule : AnalysisRule) (replicas : ℕ) (cells : List (CellSummary F))
      (d : Decision F)
      → decision median draws rule replicas cells ≡ ok d
      → d.status ≡ confirmed_at_rung
      → IsConfirmed draws rule cells
  unfolding decision
  decision-IsConfirmed draws rule replicas cells d h status =
      let (gates, h0, h1) = >>=-eq-ok (gates_of median draws rule cells) _ h in
      let (efficiency, h2, h3) =
        >>=-eq-ok (horizontal_efficiency median replicas cells gates.r1_reference_41) _ h1 in
      gates_of-IsConfirmed draws rule cells gates h0 (
        status_of-confirmed (is_confirmed median gates) (all (λ r. r.rate_41_clean) gates.rows)
          (any (λ r. r.rate_42_stressed) gates.rows)
          (ap (λ x. x.status) (ok-injective h3) ∙ status))
