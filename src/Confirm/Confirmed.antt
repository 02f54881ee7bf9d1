-- ===== src/Confirm/Confirmed.antt =====
-- The decision of `analyze`: what a confirmation rests on, and that no decision lacks its reasons.
use llm_d_sc_benchmark.Prelude.{
  ℕ, ◌≡◌, refl, sym, ap, ◌∙◌, ◌≢◌, String, Bool, true, not, Option, none, some, List, [], ◌∷◌, ◌++◌,
  map, arith, ok, err, all, keep, All, append-nil-both, keep-nil-all, >>=-eq-ok, ok-injective,
  Bool-cases, inl, inr, if◌then◌else◌,
}
use llm_d_sc_benchmark.Prelude.Json.{Json}
use llm_d_sc_benchmark.Prelude.Floats.{Floats}
use llm_d_sc_benchmark.Confirm.Fields.{validation, overflow_error, key_error, index_error, Checked}
use llm_d_sc_benchmark.Confirm.Runtime.{Checks, passed}
use llm_d_sc_benchmark.Confirm.Orders.{blocks, ByRate}
use llm_d_sc_benchmark.Confirm.Extract.{extract}
use llm_d_sc_benchmark.Confirm.Statistics.{Bootstrap}
use llm_d_sc_benchmark.Confirm.Blocks.{Block, make_blocks, is_clean, is_stressed, directions_agree}
use llm_d_sc_benchmark.Confirm.Analyze.{
  cv_failed, confirmed, Reason, external_failed, not_clean, not_stressed, directions_disagree,
  Decision, Conditions, Report, Outcome, rejected, evaluated, Variability, failed, name_reason,
  all_conditions, make_conditions, make_variability, make_bootstrap, bootstrap_passed,
  bootstrap_reason, reasons_of, decide, evaluate, reject, on_extracted, analyze,
}
use llm_d_sc_benchmark.Confirm.Decision.{ShowsKnee, make_blocks-ShowsKnee}

unfoldable pub decision_of : {F : Type 0} → Outcome F → Decision
decision_of (rejected decision) = decision
decision_of (evaluated report) = report.decision

decide-confirmed :
    (c : Conditions) (reasons : List Reason)
    → (decide c reasons).status ≡ confirmed
    → all_conditions c ≡ true
unfolding decide
decide-confirmed c reasons h = elim (Bool-cases (all_conditions c)) [
  | inl e ↦ e
  | inr e ↦ ground arith
]

failed-nil : (checks : Checks) → failed checks ≡ [] → passed checks ≡ true
unfolding failed passed
failed-nil [] h = refl
failed-nil (check ∷ checks) h = elim (Bool-cases check.1) [
  | inl e ↦ let later = failed-nil checks (ground arith) in ground arith
  | inr e ↦ ground arith
]

name_reason-nil :
    {A : Type 0} (reason : List A → Reason) (names : List A)
    → name_reason reason names ≡ []
    → names ≡ []
unfolding name_reason
name_reason-nil reason [] h = refl
name_reason-nil reason (a ∷ names) h = cc

map-nil : {A B : Type 0} (f : A → B) (values : List A) → map f values ≡ [] → values ≡ []
map-nil f [] h = refl
map-nil f (a ∷ values) h = cc

keep-nil :
    {A B : Type 0} (test : A → Bool) (f : A → B) (values : List A)
    → map f (keep (λ a. not (test a)) values) ≡ []
    → all test values ≡ true
keep-nil test f values h = keep-nil-all test values (map-nil f (keep (λ a. not (test a)) values) h)

decide-reasons :
    (c : Conditions) (reasons : List Reason)
    → (reasons ≡ [] → all_conditions c ≡ true)
    → (decide c reasons).reasons ≢ []
unfolding decide
decide-reasons c reasons full = elim (Bool-cases (all_conditions c)) [
  | inl e ↦ rw e (λ h. cc)
  | inr e ↦ rw e (λ h. let conditions = full h in cc)
]

module _ {F : Type 0} ⦃fl : Floats F⦄ where
  evaluated-injective : {r s : Report F} → ◌≡◌ {A = Outcome F} (evaluated r) (evaluated s) → r ≡ s
  evaluated-injective h = cc

  evaluated-not-rejected :
      (r : Report F) (d : Decision) → ◌≢◌ {A = Outcome F} (evaluated r) (rejected d)
  evaluated-not-rejected r d = λ h. cc

  on_extracted-evaluated :
      (draws : List (List ℕ)) (extracted : Checked (ByRate F × Checks)) (report : Report F)
      → on_extracted draws extracted ≡ ok (evaluated report)
      → (points : ByRate F) × (external : Checks) × (extracted ≡ ok (points, external))
        × (evaluate draws points external ≡ ok report)
  unfolding on_extracted reject
  on_extracted-evaluated draws (ok (points, external)) report h =
      let (made, h0, h1) = >>=-eq-ok (evaluate draws points external) _ h in
      (points, external, refl, h0 ∙ ap ok (evaluated-injective (ok-injective h1)))
  on_extracted-evaluated draws (err (validation fault)) report h = cc
  on_extracted-evaluated draws (err overflow_error) report h = cc
  on_extracted-evaluated draws (err key_error) report h = cc
  on_extracted-evaluated draws (err index_error) report h = cc

  on_extracted-rejected :
      (draws : List (List ℕ)) (extracted : Checked (ByRate F × Checks)) (decision : Decision)
      → on_extracted draws extracted ≡ ok (rejected decision)
      → decision.reasons ≢ []
  unfolding on_extracted reject
  on_extracted-rejected draws (ok (points, external)) decision h =
      let (made, h0, h1) = >>=-eq-ok (evaluate draws points external) _ h in
      absurd (evaluated-not-rejected made decision (ok-injective h1))
  on_extracted-rejected draws (err (validation fault)) decision h = λ e. cc
  on_extracted-rejected draws (err overflow_error) decision h = cc
  on_extracted-rejected draws (err key_error) decision h = cc
  on_extracted-rejected draws (err index_error) decision h = cc

  evaluate-confirmed :
      (draws : List (List ℕ)) (points : ByRate F) (external : Checks) (report : Report F)
      → evaluate draws points external ≡ ok report
      → report.decision.status ≡ confirmed
      → (passed external ≡ true)
        × (All (ShowsKnee points) blocks)
        × (bootstrap_passed report.resampled ≡ true)
        × (report.variability.passed_limits ≡ true)
  unfolding evaluate make_conditions all_conditions
  evaluate-confirmed draws points external report h status =
      let (made, h0, h1) = >>=-eq-ok (make_blocks points blocks) _ h in
      let (variability, h2, h3) = >>=-eq-ok (make_variability points) _ h1 in
      let (resampled, h4, h5) = >>=-eq-ok (make_bootstrap draws made) _ h3 in
      let same = sym (ok-injective h5) in
      let conditions =
        decide-confirmed (make_conditions external made variability resampled)
          (reasons_of external made variability resampled)
          (ap (λ r. r.decision.status) (sym same) ∙ status) in
      (
        ground arith,
        make_blocks-ShowsKnee points blocks made h0 (ground arith) (ground arith) (ground arith),
        ap (λ r. bootstrap_passed r.resampled) same ∙ ground arith,
        ap (λ r. r.variability.passed_limits) same ∙ ground arith,
      )

  -- A confirmation rests on an accepted summary whose external checks all pass, in each of the five blocks
  -- of which the service was clean at 41 and stressed at 42 requests a second with the effects all in the
  -- right direction, and on a passed bootstrap and passed limits of the variability.
  pub analyze_confirmed :
      (parse_float : String → Option F) (draws : List (List ℕ)) (raw : Json F) (report : Report F)
      → analyze parse_float draws raw ≡ ok (evaluated report)
      → report.decision.status ≡ confirmed
      → (points : ByRate F) × (external : Checks) × (extract parse_float raw
          ≡ ok (points, external))
        × (passed external ≡ true)
        × (All (ShowsKnee points) blocks)
        × (bootstrap_passed report.resampled ≡ true)
        × (report.variability.passed_limits ≡ true)
  unfolding analyze
  analyze_confirmed parse_float draws raw report h status =
      let (points, external, h0, h1) =
        on_extracted-evaluated draws (extract parse_float raw) report h in
      let (checked, shown, resampled, limits) =
        evaluate-confirmed draws points external report h1 status in
      (points, external, h0, checked, shown, resampled, limits)

  bootstrap_reason-nil :
      (resampled : Option (Bootstrap F))
      → bootstrap_reason resampled ≡ []
      → bootstrap_passed resampled ≡ true
  unfolding bootstrap_reason bootstrap_passed
  bootstrap_reason-nil none h = cc
  bootstrap_reason-nil (some result) h = ground arith

  reasons_of-nil :
      (external : Checks) (made : List (Block F)) (variability : Variability F)
      (resampled : Option (Bootstrap F))
      → reasons_of external made variability resampled ≡ []
      → all_conditions (make_conditions external made variability resampled) ≡ true
  unfolding reasons_of all_conditions make_conditions
  reasons_of-nil external made variability resampled h =
      let names_of = λ (test : Block F → Bool).
        map (λ (b : Block F). b.block) (keep (λ (b : Block F). not (test b)) made) in
      let externals = name_reason external_failed (failed external) in
      let cleans = name_reason not_clean (names_of is_clean) in
      let stresses = name_reason not_stressed (names_of is_stressed) in
      let directions = name_reason directions_disagree (names_of directions_agree) in
      let limits =
        if variability.passed_limits then [] else cv_failed (failed variability.checks) ∷ [] in
      let four = externals ++ cleans ++ stresses ++ directions in
      let (h0, limits_nil) = append-nil-both (four ++ bootstrap_reason resampled) limits h in
      let (h1, bootstrap_nil) = append-nil-both four (bootstrap_reason resampled) h0 in
      let (h2, directions_nil) = append-nil-both (externals ++ cleans ++ stresses) directions h1 in
      let (h3, stresses_nil) = append-nil-both (externals ++ cleans) stresses h2 in
      let (externals_nil, cleans_nil) = append-nil-both externals cleans h3 in
      let checked =
        failed-nil external (name_reason-nil external_failed (failed external) externals_nil) in
      let clean =
        keep-nil is_clean (λ b. b.block) made
          (name_reason-nil not_clean (names_of is_clean) cleans_nil) in
      let stressed =
        keep-nil is_stressed (λ b. b.block) made
          (name_reason-nil not_stressed (names_of is_stressed) stresses_nil) in
      let agree =
        keep-nil directions_agree (λ b. b.block) made
          (name_reason-nil directions_disagree (names_of directions_agree) directions_nil) in
      let resampled_passed = bootstrap_reason-nil resampled bootstrap_nil in ground arith

  evaluate-reasons :
      (draws : List (List ℕ)) (points : ByRate F) (external : Checks) (report : Report F)
      → evaluate draws points external ≡ ok report
      → report.decision.reasons ≢ []
  unfolding evaluate decide
  evaluate-reasons draws points external report h =
      let (made, h0, h1) = >>=-eq-ok (make_blocks points blocks) _ h in
      let (variability, h2, h3) = >>=-eq-ok (make_variability points) _ h1 in
      let (resampled, h4, h5) = >>=-eq-ok (make_bootstrap draws made) _ h3 in
      let same = ap (λ r. r.decision.reasons) (ok-injective h5) in
      let full = reasons_of-nil external made variability resampled in
      λ none_left.
        decide-reasons (make_conditions external made variability resampled)
          (reasons_of external made variability resampled) full (same ∙ none_left)

  -- No decision lacks its reasons: one on an invalid summary, a confirmation and a refusal all name some.
  pub analyze_reasons :
      (parse_float : String → Option F) (draws : List (List ℕ)) (raw : Json F) (outcome : Outcome F)
      → analyze parse_float draws raw ≡ ok outcome
      → (decision_of outcome).reasons ≢ []
  unfolding analyze decision_of
  analyze_reasons parse_float draws raw (evaluated report) h =
      let (points, external, h0, h1) =
        on_extracted-evaluated draws (extract parse_float raw) report h in
      evaluate-reasons draws points external report h1
  analyze_reasons parse_float draws raw (rejected decision) h =
      on_extracted-rejected draws (extract parse_float raw) decision h
