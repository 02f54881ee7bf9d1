-- ===== src/Extension/Pooled.antt =====
-- What a confirmation on the pooled blocks of both stages rests on.
use llm_d_sc_benchmark.Prelude.{
  ℕ, ◌≡◌, refl, sym, ap, ◌∙◌, ◌≢◌, arith, Bool, true, false, Option, some, List, [], ◌∷◌, ◌++◌, ok,
  all, All, Bool-cases, inl, inr, >>=-eq-ok, ok-injective, and-eq-true, ==_iff,
}
use llm_d_sc_benchmark.Prelude.Floats.{Floats}
use llm_d_sc_benchmark.Confirm.Runtime.{Checks, passed}
use llm_d_sc_benchmark.Confirm.Orders.{low_rate, high_rate, blocks, ByRate, cell_at}
use llm_d_sc_benchmark.Confirm.Blocks.{Block, make_block, is_clean, is_stressed, directions_agree}
use llm_d_sc_benchmark.Confirm.Analyze.{
  Status, confirmed, inconclusive, Outcome, all_conditions, bootstrap_passed,
}
use llm_d_sc_benchmark.Confirm.Confirmed.{decision_of}
use llm_d_sc_benchmark.Confirm.Decision.{ShowsKnee, make_block-ShowsKnee}
use llm_d_sc_benchmark.Extension.Pool.{
  Evaluation, status_of, make_stage_blocks, bootstrap_blocks, variability_of, conditions_of,
  evaluation, evaluate_blocks,
}
use llm_d_sc_benchmark.Extension.Analyze.{
  Extension, is_inconclusive, forward_blocks, pooling_checks_of, with_pooling, without_pooling,
  standalone_of, pool_checked, pool,
}

all-append :
    {A : Type 0} (p : A → Bool) (xs ys : List A)
    → all p (xs ++ ys) ≡ true
    → (all p xs ≡ true) × (all p ys ≡ true)
all-append p [] ys h = (refl, h)
all-append p (x ∷ xs) ys h =
    let (here, later) = (and-eq-true (p x) _).0 h in
    let (h0, h1) = all-append p xs ys later in ((and-eq-true (p x) _).1 (here, h0), h1)

is_inconclusive-eq : (s : Status) → is_inconclusive s ≡ true → s ≡ inconclusive
unfolding is_inconclusive
is_inconclusive-eq inconclusive h = refl
is_inconclusive-eq confirmed h = cc

status_of-confirmed : (b : Bool) → status_of b ≡ confirmed → b ≡ true
unfolding status_of
status_of-confirmed true h = refl
status_of-confirmed false h = cc

pub inconclusive-ne-confirmed : inconclusive ≢ confirmed
inconclusive-ne-confirmed = λ h. cc

module _ {F : Type 0} ⦃fl : Floats F⦄ where
  make_stage_blocks-ShowsKnee :
      (points : ByRate F) (offset : ℕ) (numbers : List ℕ) (made : List (Block F))
      → make_stage_blocks points offset numbers ≡ ok made
      → all is_clean made ≡ true
      → all is_stressed made ≡ true
      → all directions_agree made ≡ true
      → All (ShowsKnee points) numbers
  unfolding make_stage_blocks make_block
  make_stage_blocks-ShowsKnee points offset [] made h clean stressed directed = tt
  make_stage_blocks-ShowsKnee points offset (n ∷ numbers) made h clean stressed directed =
      let (low, h0, h1) = >>=-eq-ok (cell_at points low_rate n) _ h in
      let (high, h2, h3) = >>=-eq-ok (cell_at points high_rate n) _ h1 in
      let (rest, h4, h5) = >>=-eq-ok (make_stage_blocks points offset numbers) _ h3 in
      let same = ok-injective h5 in
      let (clean0, clean1) = (and-eq-true _ _).0 (ap (all is_clean) same ∙ clean) in
      let (stressed0, stressed1) = (and-eq-true _ _).0 (ap (all is_stressed) same ∙ stressed) in
      let (directed0, directed1) =
        (and-eq-true _ _).0 (ap (all directions_agree) same ∙ directed) in
      (
        make_block-ShowsKnee points n low high h0 h2 clean0 stressed0 directed0,
        make_stage_blocks-ShowsKnee points offset numbers rest h4 clean1 stressed1 directed1,
      )

  -- The pooled evaluation confirms: every block is clean, stressed and directed, the bootstrap passes and so do the
  -- limits of the variability.
  record Confirms (made : List (Block F)) (e : Evaluation F) : Type 0 where
    clean : all is_clean made ≡ true
    stressed : all is_stressed made ≡ true
    directed : all directions_agree made ≡ true
    bootstrap : bootstrap_passed e.resampled ≡ true
    limits : e.variability.passed_limits ≡ true

  evaluate_blocks-Confirms :
      (draws : ℕ → List (List ℕ)) (made : List (Block F)) (e : Evaluation F)
      → evaluate_blocks draws made true ≡ ok e
      → e.status ≡ confirmed
      → Confirms made e
  unfolding evaluate_blocks evaluation conditions_of all_conditions
  evaluate_blocks-Confirms draws made e h status =
      let (resampled, h0, h1) = >>=-eq-ok (bootstrap_blocks draws made) _ h in
      let (variability, h2, h3) = >>=-eq-ok (variability_of made) _ h1 in
      let same = ok-injective h3 in
      let conditions =
        status_of-confirmed (all_conditions (conditions_of true made variability resampled))
          (ap (λ x. x.status) same ∙ status) in
      record {
        clean = ground arith;
        stressed = ground arith;
        directed = ground arith;
        bootstrap = ap (λ x. bootstrap_passed x.resampled) (sym same) ∙ ground arith;
        limits = ap (λ x. x.variability.passed_limits) (sym same) ∙ ground arith;
      }

  -- Both stages are attributed, the run of stage A was inconclusive and is the recorded one, the settings of the
  -- stages agree, five blocks ran in each order, and each of the ten blocks shows the knee.
  pub record IsPooled (original : Outcome F) (matches : Bool) (first second : ByRate F × Checks)
      (cross : Checks) (e : Extension F) : Type 0 where
    pub artifact : matches ≡ true
    pub still_inconclusive : (decision_of original).status ≡ inconclusive
    pub external_a : passed first.1 ≡ true
    pub external_b : passed second.1 ≡ true
    pub settings : passed cross ≡ true
    pub blocks_a : List (Block F)
    pub blocks_b : List (Block F)
    pub made_a : make_stage_blocks first.0 0 blocks ≡ ok blocks_a
    pub made_b : make_stage_blocks second.0 5 blocks ≡ ok blocks_b
    pub balanced : forward_blocks (blocks_a ++ blocks_b) ≡ 5
    pub knee_a : All (ShowsKnee first.0) blocks
    pub knee_b : All (ShowsKnee second.0) blocks
    pub combined : Evaluation F
    pub combined_lem : e.combined ≡ some combined
    pub bootstrap : bootstrap_passed combined.resampled ≡ true
    pub limits : combined.variability.passed_limits ≡ true

  pool_checked-confirmed :
      (draws : ℕ → List (List ℕ)) (original : Outcome F) (matches : Bool)
      (external_b cross : Checks) (standalone : Option (Evaluation F)) (made : List (Block F))
      (checks : Checks) (e : Extension F)
      → pool_checked draws original matches external_b cross standalone made checks ≡ ok e
      → e.status ≡ confirmed
      → (passed checks ≡ true) × (c : Evaluation F) × (e.combined ≡ some c) × Confirms made c
  unfolding pool_checked with_pooling without_pooling
  pool_checked-confirmed draws original matches external_b cross standalone made checks e h status =
      elim (Bool-cases (passed checks)) [
        | inl good ↦
            let h' = rw (good, pool_checked) at h in
            let (c, h0, h1) = >>=-eq-ok (evaluate_blocks draws made true) _ h' in
            let same = ok-injective h1 in
            (
              good,
              c,
              ap (λ x. x.combined) (sym same),
              evaluate_blocks-Confirms draws made c h0 (ap (λ x. x.status) same ∙ status),
            )
        | inr bad ↦
            let h' = rw (bad, pool_checked) at h in
            absurd (inconclusive-ne-confirmed (ap (λ x. x.status) (ok-injective h') ∙ status))
      ]

  pub pool-IsPooled :
      (draws : ℕ → List (List ℕ)) (include_standalone : Bool) (original : Outcome F)
      (matches : Bool) (first second : ByRate F × Checks) (cross : Checks) (e : Extension F)
      → pool draws include_standalone original matches first second cross ≡ ok e
      → e.status ≡ confirmed
      → IsPooled original matches first second cross e
  unfolding pool pooling_checks_of passed
  pool-IsPooled draws include_standalone original matches first second cross e h status =
      let (blocks_a, h0, h1) = >>=-eq-ok (make_stage_blocks first.0 0 blocks) _ h in
      let (blocks_b, h2, h3) = >>=-eq-ok (make_stage_blocks second.0 5 blocks) _ h1 in
      let (standalone, h4, h5) =
        >>=-eq-ok (standalone_of draws include_standalone blocks_b second.1) _ h3 in
      let (checks, c, found, confirms) =
        pool_checked-confirmed draws original matches second.1 cross standalone
          (blocks_a ++ blocks_b)
          (pooling_checks_of matches original first.1 second.1 cross (blocks_a ++ blocks_b)) e h5
          status in
      let (artifact, p0) = (and-eq-true _ _).0 checks in
      let (still, p1) = (and-eq-true _ _).0 p0 in
      let (external_a, p2) = (and-eq-true _ _).0 p1 in
      let (external_b, p3) = (and-eq-true _ _).0 p2 in
      let (settings, p4) = (and-eq-true _ _).0 p3 in
      let (balanced, p5) = (and-eq-true _ _).0 p4 in
      let (clean_a, clean_b) = all-append is_clean blocks_a blocks_b confirms.clean in
      let (stressed_a, stressed_b) = all-append is_stressed blocks_a blocks_b confirms.stressed in
      let (directed_a, directed_b) =
        all-append directions_agree blocks_a blocks_b confirms.directed in
      record {
        artifact = artifact;
        still_inconclusive = is_inconclusive-eq (decision_of original).status still;
        external_a = external_a;
        external_b = external_b;
        settings = settings;
        blocks_a = blocks_a;
        blocks_b = blocks_b;
        made_a = h0;
        made_b = h2;
        balanced = (==_iff _ _).0 balanced;
        knee_a =
            make_stage_blocks-ShowsKnee first.0 0 blocks blocks_a h0 clean_a stressed_a directed_a;
        knee_b =
            make_stage_blocks-ShowsKnee second.0 5 blocks blocks_b h2 clean_b stressed_b directed_b;
        combined = c;
        combined_lem = found;
        bootstrap = confirms.bootstrap;
        limits = confirms.limits;
      }
