-- ===== src/Scale/Sentinels.antt =====
-- What it means that the gates of `decision` behind the blocks pass.
use llm_d_sc_benchmark.Prelude.{
  ℕ, ◌≡◌, ap, ◌∙◌, Bool, true, List, map, ok, ==_iff, >>=-eq-ok, ok-injective, and-eq-true,
}
use llm_d_sc_benchmark.Prelude.Floats.{Floats}
use llm_d_sc_benchmark.Plan.Gates.{AnalysisRule}
use llm_d_sc_benchmark.Scale.Statistics.{sample_cv}
use llm_d_sc_benchmark.Scale.Cells.{
  CellSummary, threshold, abs, p99_spread, p99_quotient, relative_delta,
}
use llm_d_sc_benchmark.Scale.Decision.{
  BlockRow, by_id, cells_at, bootstrap_ci, latencies, is_limited, bootstrap_gate_of,
  variability_gate_of, scale_sentinels_of, r1_gate_of, r1_sentinels_of,
}
use llm_d_sc_benchmark.Scale.Evidence.{
  and_then-true, IsNamed, by_id-IsNamed, IsClean, IsStressed, IsQuotient, HasRatio, HasSpread,
  IsLimited, clean41-IsClean, stressed42-IsStressed, p99_quotient-HasRatio, p99_spread-HasSpread,
  relative_delta-IsQuotient, is_limited-IsLimited,
}

module _ {F : Type 0} ⦃fl : Floats F⦄ (median : List F → F) where
  -- The intervals of the four effects over the draws, on the side of the knee.
  pub record IsBootstrapped (draws : List (List ℕ)) (rows : List (BlockRow F)) : Type 0 where
    pub success : F × F
    pub success_lem : bootstrap_ci median draws (map (λ r. r.delta_success) rows) ≡ ok success
    pub drops : fl.lt success.1 (fl.decimal 0 0) ≡ true
    pub drain : F × F
    pub drain_lem : bootstrap_ci median draws (map (λ r. r.delta_drain) rows) ≡ ok drain
    pub grows : fl.lt (fl.decimal 0 0) drain.0 ≡ true
    pub latency : F × F
    pub latency_lem : bootstrap_ci median draws (map (λ r. r.p99_ratio) rows) ≡ ok latency
    pub slows : fl.lt (fl.decimal 125 2) latency.0 ≡ true
    pub useful : F × F
    pub useful_lem : bootstrap_ci median draws (map (λ r. r.marginal_useful) rows) ≡ ok useful
    pub saturates : fl.lt useful.1 (fl.decimal 1 0) ≡ true

  -- The coefficients of variation of the useful rates and of the latencies at both rates, within their limits.
  pub record IsEven (cells : List (CellSummary F)) : Type 0 where
    pub p99_41 : List F
    pub p99_41_lem : latencies median (cells_at 41 cells) ≡ ok p99_41
    pub p99_42 : List F
    pub p99_42_lem : latencies median (cells_at 42 cells) ≡ ok p99_42
    pub useful_41 :
        IsLimited (sample_cv (map (λ c. c.per_pod_useful_rps) (cells_at 41 cells))) (fl.decimal 2 2)
    pub useful_42 :
        IsLimited (sample_cv (map (λ c. c.per_pod_useful_rps) (cells_at 42 cells))) (fl.decimal 2 2)
    pub latency_41 : IsLimited (sample_cv p99_41) (fl.decimal 10 2)
    pub latency_42 : IsLimited (sample_cv p99_42) (fl.decimal 20 2)

  -- The two cells of the rung at 35 RPS, before and after the blocks, free of errors and alike.
  pub record IsStable (rule : AnalysisRule) (cells : List (CellSummary F)) : Type 0 where
    pub pre : CellSummary F
    pub pre_lem : IsNamed cells "scale-pre-35" pre
    pub post : CellSummary F
    pub post_lem : IsNamed cells "scale-post-35" post
    pub pre_errors : pre.errors_total ≡ 0
    pub post_errors : post.errors_total ≡ 0
    pub pre_drain : fl.le pre.drain_ratio (fl.decimal 1 2) ≡ true
    pub post_drain : fl.le post.drain_ratio (fl.decimal 1 2) ≡ true
    pub delta : F
    pub delta_lem :
        IsQuotient
          (abs (fl.sub post.aggregate_useful_rps pre.aggregate_useful_rps))
          pre.aggregate_useful_rps
          delta
    pub steady : fl.le delta (threshold rule.pre_post_35_useful_relative_delta_max) ≡ true
    pub spread : F
    pub spread_lem : HasSpread post pre spread
    pub narrow : fl.le spread (threshold rule.pre_post_35_p99_ratio_max) ≡ true

  -- Both cells at 41 are clean, both at 42 are stressed and slower, and those at 41 are alike.
  pub record AreReferences (rule : AnalysisRule) (pre_41 pre_42 post_41 post_42 : CellSummary F)
      (drift spread : F) : Type 0 where
    pub pre_clean : IsClean rule pre_41
    pub post_clean : IsClean rule post_41
    pub pre_stressed : IsStressed rule pre_42
    pub post_stressed : IsStressed rule post_42
    pub pre_ratio : F
    pub pre_ratio_lem : HasRatio pre_42 pre_41 pre_ratio
    pub pre_slower : fl.lt (fl.decimal 125 2) pre_ratio ≡ true
    pub post_ratio : F
    pub post_ratio_lem : HasRatio post_42 post_41 post_ratio
    pub post_slower : fl.lt (fl.decimal 125 2) post_ratio ≡ true
    pub steady : fl.le drift (fl.decimal 2 2) ≡ true
    pub narrow : fl.le spread (fl.decimal 120 2) ≡ true

  -- The cells on one Pod, before and after the blocks.
  pub record ShowsReference (rule : AnalysisRule) (cells : List (CellSummary F)) : Type 0 where
    pub pre_41 : CellSummary F
    pub pre_41_lem : IsNamed cells "r1-pre-41" pre_41
    pub pre_42 : CellSummary F
    pub pre_42_lem : IsNamed cells "r1-pre-42" pre_42
    pub post_41 : CellSummary F
    pub post_41_lem : IsNamed cells "r1-post-41" post_41
    pub post_42 : CellSummary F
    pub post_42_lem : IsNamed cells "r1-post-42" post_42
    pub drift : F
    pub drift_lem :
        IsQuotient
          (abs (fl.sub post_41.per_pod_useful_rps pre_41.per_pod_useful_rps))
          pre_41.per_pod_useful_rps
          drift
    pub spread : F
    pub spread_lem : HasSpread post_41 pre_41 spread
    pub signs : AreReferences rule pre_41 pre_42 post_41 post_42 drift spread

  pub bootstrap_gate_of-IsBootstrapped :
      (draws : List (List ℕ)) (rows : List (BlockRow F))
      → bootstrap_gate_of median draws rows ≡ ok true
      → IsBootstrapped draws rows
  unfolding bootstrap_gate_of
  bootstrap_gate_of-IsBootstrapped draws rows h =
      let (success, h0, h1) =
        >>=-eq-ok (bootstrap_ci median draws (map (λ r. r.delta_success) rows)) _ h in
      let (drain, h2, h3) =
        >>=-eq-ok (bootstrap_ci median draws (map (λ r. r.delta_drain) rows)) _ h1 in
      let (latency, h4, h5) =
        >>=-eq-ok (bootstrap_ci median draws (map (λ r. r.p99_ratio) rows)) _ h3 in
      let (useful, h6, h7) =
        >>=-eq-ok (bootstrap_ci median draws (map (λ r. r.marginal_useful) rows)) _ h5 in
      let (p0, saturates) = (and-eq-true _ _).0 (ok-injective h7) in
      let (p1, slows) = (and-eq-true _ _).0 p0 in
      let (drops, grows) = (and-eq-true _ _).0 p1 in
      record {
        success = success;
        success_lem = h0;
        drops = drops;
        drain = drain;
        drain_lem = h2;
        grows = grows;
        latency = latency;
        latency_lem = h4;
        slows = slows;
        useful = useful;
        useful_lem = h6;
        saturates = saturates;
      }

  pub variability_gate_of-IsEven :
      (cells : List (CellSummary F)) → variability_gate_of median cells ≡ ok true → IsEven cells
  unfolding variability_gate_of
  variability_gate_of-IsEven cells h =
      let (p99_41, h0, h1) = >>=-eq-ok (latencies median (cells_at 41 cells)) _ h in
      let (p99_42, h2, h3) = >>=-eq-ok (latencies median (cells_at 42 cells)) _ h1 in
      let (first, h4, h5) = >>=-eq-ok (is_limited median _ _) _ h3 in
      let (first_true, h6) = and_then-true first _ h5 in
      let (second, h7, h8) = >>=-eq-ok (is_limited median _ _) _ h6 in
      let (second_true, h9) = and_then-true second _ h8 in
      let (third, h10, h11) = >>=-eq-ok (is_limited median _ _) _ h9 in
      let (third_true, h12) = and_then-true third _ h11 in
      record {
        p99_41 = p99_41;
        p99_41_lem = h0;
        p99_42 = p99_42;
        p99_42_lem = h2;
        useful_41 = is_limited-IsLimited median _ _ (h4 ∙ ap ok first_true);
        useful_42 = is_limited-IsLimited median _ _ (h7 ∙ ap ok second_true);
        latency_41 = is_limited-IsLimited median _ _ (h10 ∙ ap ok third_true);
        latency_42 = is_limited-IsLimited median _ _ h12;
      }

  pub scale_sentinels_of-IsStable :
      (rule : AnalysisRule) (cells : List (CellSummary F))
      → scale_sentinels_of median rule cells ≡ ok true
      → IsStable rule cells
  unfolding scale_sentinels_of
  scale_sentinels_of-IsStable rule cells h =
      let (pre, h0, h1) = >>=-eq-ok (by_id cells "scale-pre-35") _ h in
      let (post, h2, h3) = >>=-eq-ok (by_id cells "scale-post-35") _ h1 in
      let (delta, h4, h5) =
        >>=-eq-ok (relative_delta post.aggregate_useful_rps pre.aggregate_useful_rps) _ h3 in
      let (spread, h6, h7) = >>=-eq-ok (p99_spread post pre) _ h5 in
      let (p0, narrow) = (and-eq-true _ _).0 (ok-injective h7) in
      let (p1, steady) = (and-eq-true _ _).0 p0 in
      let (p2, post_drain) = (and-eq-true _ _).0 p1 in
      let (p3, pre_drain) = (and-eq-true _ _).0 p2 in
      let (same_errors, errors) = (and-eq-true _ _).0 p3 in
      let post_errors = (==_iff post.errors_total 0).0 errors in
      record {
        pre = pre;
        pre_lem = by_id-IsNamed cells "scale-pre-35" pre h0;
        post = post;
        post_lem = by_id-IsNamed cells "scale-post-35" post h2;
        pre_errors = (==_iff pre.errors_total post.errors_total).0 same_errors ∙ post_errors;
        post_errors = post_errors;
        pre_drain = pre_drain;
        post_drain = post_drain;
        delta = delta;
        delta_lem =
            relative_delta-IsQuotient post.aggregate_useful_rps pre.aggregate_useful_rps delta h4;
        steady = steady;
        spread = spread;
        spread_lem = p99_spread-HasSpread post pre spread h6;
        narrow = narrow;
      }

  r1_gate_of-AreReferences :
      (rule : AnalysisRule) (pre_41 pre_42 post_41 post_42 : CellSummary F) (drift spread : F)
      → r1_gate_of median rule pre_41 pre_42 post_41 post_42 drift spread ≡ ok true
      → AreReferences rule pre_41 pre_42 post_41 post_42 drift spread
  unfolding r1_gate_of
  r1_gate_of-AreReferences rule pre_41 pre_42 post_41 post_42 drift spread passed =
      let (signs, g0) = and_then-true _ _ passed in
      let (pre_ratio, h14, g1) = >>=-eq-ok (p99_quotient pre_42 pre_41) _ g0 in
      let (pre_slower, g2) = and_then-true _ _ g1 in
      let (post_ratio, h15, g3) = >>=-eq-ok (p99_quotient post_42 post_41) _ g2 in
      let (g4, narrow) = (and-eq-true _ _).0 (ok-injective g3) in
      let (post_slower, steady) = (and-eq-true _ _).0 g4 in
      let (s0, post_stressed) = (and-eq-true _ _).0 signs in
      let (s1, pre_stressed) = (and-eq-true _ _).0 s0 in
      let (pre_clean, post_clean) = (and-eq-true _ _).0 s1 in
      record {
        pre_clean = clean41-IsClean rule pre_41 pre_clean;
        post_clean = clean41-IsClean rule post_41 post_clean;
        pre_stressed = stressed42-IsStressed rule pre_42 pre_stressed;
        post_stressed = stressed42-IsStressed rule post_42 post_stressed;
        pre_ratio = pre_ratio;
        pre_ratio_lem = p99_quotient-HasRatio pre_42 pre_41 pre_ratio h14;
        pre_slower = pre_slower;
        post_ratio = post_ratio;
        post_ratio_lem = p99_quotient-HasRatio post_42 post_41 post_ratio h15;
        post_slower = post_slower;
        steady = steady;
        narrow = narrow;
      }

  pub r1_sentinels_of-ShowsReference :
      (rule : AnalysisRule) (cells : List (CellSummary F)) (r1 : Bool × F)
      → r1_sentinels_of median rule cells ≡ ok r1
      → r1.0 ≡ true
      → ShowsReference rule cells
  unfolding r1_sentinels_of
  r1_sentinels_of-ShowsReference rule cells r1 h gate_true =
      let (pre_41, h0, h1) = >>=-eq-ok (by_id cells "r1-pre-41") _ h in
      let (pre_42, h2, h3) = >>=-eq-ok (by_id cells "r1-pre-42") _ h1 in
      let (post_41, h4, h5) = >>=-eq-ok (by_id cells "r1-post-41") _ h3 in
      let (post_42, h6, h7) = >>=-eq-ok (by_id cells "r1-post-42") _ h5 in
      let (drift, h8, h9) =
        >>=-eq-ok (relative_delta post_41.per_pod_useful_rps pre_41.per_pod_useful_rps) _ h7 in
      let (spread, h10, h11) = >>=-eq-ok (p99_spread post_41 pre_41) _ h9 in
      let (gate, h12, h13) =
        >>=-eq-ok (r1_gate_of median rule pre_41 pre_42 post_41 post_42 drift spread) _ h11 in
      let passed = h12 ∙ ap ok (ap (λ r. r.0) (ok-injective h13) ∙ gate_true) in
      record {
        pre_41 = pre_41;
        pre_41_lem = by_id-IsNamed cells "r1-pre-41" pre_41 h0;
        pre_42 = pre_42;
        pre_42_lem = by_id-IsNamed cells "r1-pre-42" pre_42 h2;
        post_41 = post_41;
        post_41_lem = by_id-IsNamed cells "r1-post-41" post_41 h4;
        post_42 = post_42;
        post_42_lem = by_id-IsNamed cells "r1-post-42" post_42 h6;
        drift = drift;
        drift_lem =
            relative_delta-IsQuotient post_41.per_pod_useful_rps pre_41.per_pod_useful_rps drift h8;
        spread = spread;
        spread_lem = p99_spread-HasSpread post_41 pre_41 spread h10;
        signs = r1_gate_of-AreReferences rule pre_41 pre_42 post_41 post_42 drift spread passed;
      }
