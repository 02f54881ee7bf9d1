-- ===== src/Knee/Bracket.antt =====
-- The bracket that `infer_knee` reports lies between two neighbouring rates.
use llm_d_sc_benchmark.Prelude.{
  ◌≡◌, refl, sym, ap, ◌∙◌, Bool, true, false, not, Option, none, some, List, [], ◌∷◌, ◌++◌, map, ok,
  ◌>>=◌, keep-nil-all, >>=-eq-ok, ok-injective, append_assoc, keep, if◌then◌else◌, all,
}
use mathlib.Core.Path.{subst}
use llm_d_sc_benchmark.Prelude.Floats.{Floats}
use llm_d_sc_benchmark.Knee.Infer.{
  Aggregate, Bracket, Knee, invalid_rates, bracketed, Pending, Trigger, no_triggers, trigger_if,
  is_elevated, is_repeatable, confirm_latency, signal_capacity, triggers_of, without_pending,
  efficiency_of, pass, infer_from, infer_valid, infer_knee, latency_elevated,
}

bracketed-injective :
    {F : Type 0} {a b : Bracket F} → ◌≡◌ {A = Knee F} (bracketed a) (bracketed b) → a ≡ b
bracketed-injective h = cc

module _ {F : Type 0} (P : Aggregate F → Aggregate F → Type 0) where
  -- The bracket names the rates of two aggregates that are related.
  record IsFrom (bracket : Bracket F) : Type 0 where
    lower : Aggregate F
    upper : Aggregate F
    related : P lower upper
    lower_rate : bracket.lower_clean_rate ≡ lower.offered_rps_per_target
    upper_rate : bracket.upper_stress_rate ≡ upper.offered_rps_per_target

  IsKept : Option (Pending F) → Type 0
  IsKept none = Unit {0}
  IsKept (some pending) = P pending.lower pending.onset

  IsFound : Option (Knee F) → Type 0
  IsFound none = Unit {0}
  IsFound (some knee) = (bracket : Bracket F) → knee ≡ bracketed bracket → IsFrom bracket

  AllPairs : Aggregate F → List (Aggregate F) → Type 0
  AllPairs previous [] = Unit {0}
  AllPairs previous (current ∷ rest) = P previous current × AllPairs current rest

module _ {F : Type 0} ⦃fl : Floats F⦄ (P : Aggregate F → Aggregate F → Type 0) where
  confirm_latency-IsFrom :
      (pending : Pending F) (current : Aggregate F) (knee : Knee F)
      → P pending.lower pending.onset
      → confirm_latency pending current ≡ ok knee
      → IsFound P (some knee)
  unfolding confirm_latency IsFound
  confirm_latency-IsFrom pending current knee related h bracket same =
      let (repeats, h0, h1) = >>=-eq-ok (is_repeatable _ _ _) _ h in
      let e = bracketed-injective (ok-injective h1 ∙ same) in
      record {
        lower = pending.lower;
        upper = pending.onset;
        related = related;
        lower_rate = ap (λ b. b.lower_clean_rate) (sym e);
        upper_rate = ap (λ b. b.upper_stress_rate) (sym e);
      }

  signal_capacity-IsFrom :
      (previous current : Aggregate F) (triggers : List Trigger) (efficiency : Option F)
      (knee : Knee F)
      → P previous current
      → signal_capacity previous current triggers efficiency ≡ ok knee
      → IsFound P (some knee)
  unfolding signal_capacity IsFound
  signal_capacity-IsFrom previous current triggers efficiency knee related h bracket same =
      let (repeats, h0, h1) = >>=-eq-ok (is_repeatable _ _ _) _ h in
      let e = bracketed-injective (ok-injective h1 ∙ same) in
      record {
        lower = previous;
        upper = current;
        related = related;
        lower_rate = ap (λ b. b.lower_clean_rate) (sym e);
        upper_rate = ap (λ b. b.upper_stress_rate) (sym e);
      }

  -- What a pass of the loop keeps.
  IsStep : Option (Knee F) × Option (Pending F) → Type 0
  IsStep result = IsFound P result.0 × IsKept P result.1

  kept :
      (previous current : Aggregate F) (elevated : Bool) (efficiency : Option F)
      → P previous current
      → IsKept P (
          if elevated
          then some (record { lower = previous; onset = current; efficiency = efficiency })
          else none)
  unfolding IsKept
  kept previous current true efficiency related = related
  kept previous current false efficiency related = tt

  without_pending-IsStep :
      (baseline : Option F) (previous current : Aggregate F) (efficiency : Option F)
      (result : Option (Knee F) × Option (Pending F))
      → P previous current
      → without_pending baseline previous current efficiency ≡ ok result
      → IsStep result
  unfolding without_pending IsStep IsFound IsKept
  without_pending-IsStep baseline previous current efficiency result related =
      elim (no_triggers (triggers_of current efficiency))
        as (λ quiet.
          (if quiet
              then ok (
                none,
                if is_elevated current.median_latency_p99_us baseline
                    then some
                        (record { lower = previous; onset = current; efficiency = efficiency })
                    else none,
              )
              else (signal_capacity previous current
                    (triggers_of current efficiency
                      ++ trigger_if (is_elevated current.median_latency_p99_us baseline)
                          latency_elevated)
                    efficiency
                  >>= λ knee. ok (some knee, none)))
            ≡ ok result
          → IsStep result) [
            | true ↦
                λ h. subst IsStep (ok-injective h) (tt, kept previous current _ efficiency related)
            | false ↦ λ h.
                let (knee, h0, h1) =
                  >>=-eq-ok (signal_capacity previous current _ efficiency) _ h in
                subst IsStep (ok-injective h1)
                  (signal_capacity-IsFrom previous current _ efficiency knee related h0, tt)
          ]

  module _ (median : List F → Option F) where
    pass-IsStep :
        (baseline : Option F) (previous : Aggregate F) (pending : Option (Pending F))
        (current : Aggregate F) (result : Option (Knee F) × Option (Pending F))
        → P previous current
        → IsKept P pending
        → pass median baseline previous pending current ≡ ok result
        → IsStep result
    unfolding pass IsKept IsStep IsFound
    pass-IsStep baseline previous none current result related held h =
        let (efficiency, h0, h1) = >>=-eq-ok (efficiency_of median previous current) _ h in
        without_pending-IsStep baseline previous current efficiency result related h1
    pass-IsStep baseline previous (some pending) current result related held h =
        let (efficiency, h0, h1) = >>=-eq-ok (efficiency_of median previous current) _ h in
        elim (is_elevated current.median_latency_p99_us baseline)
            as (λ up.
              (if up
                  then (confirm_latency pending current >>= λ knee. ok (some knee, none))
                  else without_pending baseline previous current efficiency)
                ≡ ok result
              → IsStep result) [
                | true ↦ λ e.
                    let (knee, h2, h3) = >>=-eq-ok (confirm_latency pending current) _ e in
                    subst IsStep (ok-injective h3)
                      (confirm_latency-IsFrom pending current knee held h2, tt)
                | false ↦ λ e.
                    without_pending-IsStep baseline previous current efficiency result related e
              ]
          h1

    infer_from-IsFrom :
        (baseline : Option F) (previous : Aggregate F) (pending : Option (Pending F))
        (rest : List (Aggregate F)) (knee : Knee F)
        → AllPairs P previous rest
        → IsKept P pending
        → infer_from median baseline previous pending rest ≡ ok knee
        → IsFound P (some knee)
    unfolding infer_from AllPairs IsFound IsStep
    infer_from-IsFrom baseline previous pending [] knee pairs held h = λ bracket same. cc
    infer_from-IsFrom baseline previous pending (current ∷ rest) knee (related, pairs) held h =
        let (result, h0, h1) = >>=-eq-ok (pass median baseline previous pending current) _ h in
        let (found, held') = pass-IsStep baseline previous pending current result related held h0 in
        elim result.0
            as (λ k.
              IsFound P k
              → (elim k [
                | some stop ↦ ok stop
                | none ↦ infer_from median baseline current result.1 rest
              ])
                ≡ ok knee
              → IsFound P (some knee)) [
                | some stop ↦ λ f e. subst (λ k. IsFound P (some k)) (ok-injective e) f
                | none ↦ λ f e. infer_from-IsFrom baseline current result.1 rest knee pairs held' e
              ]
          found h1

-- The two aggregates stand side by side in the list.
pub record AreNeighbours {F : Type 0} (aggregates : List (Aggregate F)) (lower upper : Aggregate F)
    : Type 0 where
  pub before : List (Aggregate F)
  pub after : List (Aggregate F)
  pub split : aggregates ≡ before ++ (lower ∷ upper ∷ after)

AllPairs-neighbours :
    {F : Type 0} (aggregates before : List (Aggregate F)) (previous : Aggregate F)
    (rest : List (Aggregate F))
    → aggregates ≡ before ++ (previous ∷ rest)
    → AllPairs (AreNeighbours aggregates) previous rest
unfolding AllPairs
AllPairs-neighbours aggregates before previous [] e = tt
AllPairs-neighbours aggregates before previous (current ∷ rest) e = (
  record { before = before; after = rest; split = e },
  AllPairs-neighbours aggregates (before ++ (previous ∷ [])) current rest
      (e ∙ sym (append_assoc before (previous ∷ []) (current ∷ rest))),
)

infer_valid-neighbours :
    {F : Type 0} ⦃fl : Floats F⦄ (median : List F → Option F) (aggregates : List (Aggregate F))
    (bracket : Bracket F)
    → infer_valid median aggregates ≡ ok (bracketed bracket)
    → (lower : Aggregate F) × (upper : Aggregate F) × AreNeighbours aggregates lower upper
      × (bracket.lower_clean_rate ≡ lower.offered_rps_per_target)
      × (bracket.upper_stress_rate ≡ upper.offered_rps_per_target)
unfolding infer_valid IsFound IsKept
infer_valid-neighbours median [] bracket h = cc
infer_valid-neighbours median (a ∷ []) bracket h = cc
infer_valid-neighbours median (a ∷ b ∷ rest) bracket h =
    let aggregates = a ∷ b ∷ rest in
    let found =
      infer_from-IsFrom (AreNeighbours aggregates) median a.median_latency_p99_us a none (b ∷ rest)
        (bracketed bracket) (AllPairs-neighbours aggregates [] a (b ∷ rest) refl) tt h bracket
        refl in
    (found.lower, found.upper, found.related, found.lower_rate, found.upper_rate)

infer_knee-valid :
    {F : Type 0} ⦃fl : Floats F⦄ (median : List F → Option F) (aggregates : List (Aggregate F))
    (bracket : Bracket F)
    → infer_knee median aggregates ≡ ok (bracketed bracket)
    → (keep (λ a. not a.all_scheduler_valid) aggregates ≡ [])
      × (infer_valid median aggregates ≡ ok (bracketed bracket))
unfolding infer_knee
infer_knee-valid median aggregates bracket =
    elim (keep (λ a. not a.all_scheduler_valid) aggregates)
      as (λ invalid.
        (elim invalid [
          | [] ↦ infer_valid median aggregates
          | first ∷ more ↦ ok (invalid_rates (map (λ a. a.offered_rps_per_target) (first ∷ more)))
        ])
          ≡ ok (bracketed bracket)
        → (invalid ≡ []) × (infer_valid median aggregates ≡ ok (bracketed bracket))) [
          | [] ↦ λ h. (refl, h)
          | first ∷ more ↦ λ h. cc
        ]

-- Where a knee is bracketed, every rate had a valid schedule, and the clean and the stressed rate are those
-- of two aggregates side by side.
pub infer_knee_lem :
    {F : Type 0} ⦃fl : Floats F⦄ (median : List F → Option F) (aggregates : List (Aggregate F))
    (bracket : Bracket F)
    → infer_knee median aggregates ≡ ok (bracketed bracket)
    → (lower : Aggregate F) × (upper : Aggregate F) × AreNeighbours aggregates lower upper
      × (bracket.lower_clean_rate ≡ lower.offered_rps_per_target)
      × (bracket.upper_stress_rate ≡ upper.offered_rps_per_target)
      × (all (λ a. a.all_scheduler_valid) aggregates ≡ true)
infer_knee_lem median aggregates bracket h =
    let (valid, e) = infer_knee-valid median aggregates bracket h in
    let (lower, upper, neighbours, low, high) =
      infer_valid-neighbours median aggregates bracket e in
    (
      lower,
      upper,
      neighbours,
      low,
      high,
      keep-nil-all (λ a. a.all_scheduler_valid) aggregates valid,
    )
