-- ===== src/Knee/Infer.antt =====
-- hack/arena-sc-open-loop-summarize.py: `infer_knee`. An aggregate is a record with the fields that it reads;
-- `median` is `statistics.median`, which has no value (`none`) for no data.
use llm_d_sc_benchmark.Prelude.{
  String, Bool, true, false, not, ◌&&◌, Option, none, some, List, [], ◌∷◌, ◌++◌, map, ℤ, pos, ltb_ℤ,
  leb_ℤ, Result, ok, err, ◌>>=◌, if◌then◌else◌, all, keep,
}
use llm_d_sc_benchmark.Prelude.Floats.{Floats}

pub record Aggregate (F : Type 0) : Type 0 where
  pub offered_rps_per_target : String
  pub all_scheduler_valid : Bool
  pub repetitions : ℤ
  pub median_offered_success_ratio : F
  pub median_in_flight_drop_ratio : F
  pub median_drain_ratio : F
  pub total_errors_within_plateau : ℤ
  pub total_health_event_violations : ℤ
  pub median_latency_p99_us : Option F
  pub median_aggregate_useful_rps : F
  pub useful_rps_cv : Option F
  pub latency_p99_cv : Option F
  -- the "aggregate_offered_rps" of the cells
  pub cell_offered_rps : List F

pub data Trigger : Type 0 where
  low_success in_flight_ceiling drained service_errors health_event : Trigger
  no_latencies low_marginal_gain latency_elevated latency_persisted : Trigger

pub data Confidence : Type 0 where
  repeatable exploratory : Confidence

pub record Bracket (F : Type 0) : Type 0 where
  pub lower_clean_rate : String
  pub upper_stress_rate : String
  pub triggers : List Trigger
  pub latency_confirmation_rate : Option String
  pub marginal_efficiency : Option F
  pub confidence : Confidence

pub data Knee (F : Type 0) : Type 0 where
  invalid_rates : List String → Knee F
  too_few_points : Knee F
  bracketed : Bracket F → Knee F
  -- the highest rate, and the latency candidate that is not confirmed
  not_reached : String → Option String → Knee F

-- A comparison with `None`, and `statistics.median` of no data.
pub data KneeError : Type 0 where
  type_error statistics_error : KneeError

pub record Pending (F : Type 0) : Type 0 where
  pub lower : Aggregate F
  pub onset : Aggregate F
  pub efficiency : Option F

-- `if condition: triggers.append(trigger)`
unfoldable pub trigger_if : Bool → Trigger → List Trigger
trigger_if condition trigger = if condition then trigger ∷ [] else []

unfoldable pub confidence_of : Bool → Confidence
confidence_of true = repeatable
confidence_of false = exploratory

unfoldable pub min_ℤ : ℤ → ℤ → ℤ
min_ℤ a b = if ltb_ℤ b a then b else a

unfoldable pub is_present : {A : Type 0} → Option A → Bool
is_present none = false
is_present (some a) = true

unfoldable pub no_triggers : List Trigger → Bool
no_triggers [] = true
no_triggers (t ∷ ts) = false

-- `unconfirmed_latency_candidate_rate_per_target`
unfoldable pub onset_rate : {F : Type 0} → Option (Pending F) → Option String
onset_rate none = none
onset_rate (some pending) = some pending.onset.offered_rps_per_target

module _ {F : Type 0} ⦃fl : Floats F⦄ where
  unfoldable pub capacity_triggers : Aggregate F → List Trigger
  capacity_triggers current =
      trigger_if (fl.lt current.median_offered_success_ratio (fl.decimal 99 2)) low_success
      ++ trigger_if (fl.lt (fl.decimal 0 0) current.median_in_flight_drop_ratio) in_flight_ceiling
      ++ trigger_if (fl.lt (fl.decimal 1 2) current.median_drain_ratio) drained
      ++ trigger_if (ltb_ℤ (pos 0) current.total_errors_within_plateau) service_errors
      ++ trigger_if (ltb_ℤ (pos 0) current.total_health_event_violations) health_event
      ++ trigger_if (not (is_present current.median_latency_p99_us)) no_latencies

  unfoldable pub is_elevated : Option F → Option F → Bool
  is_elevated none baseline = false
  is_elevated (some current) none = false
  is_elevated (some current) (some baseline) = fl.le (fl.mul baseline (fl.decimal 125 2)) current

  unfoldable pub efficiency_triggers : Option F → List Trigger
  efficiency_triggers none = []
  efficiency_triggers (some e) = trigger_if (fl.lt e (fl.decimal 5 1)) low_marginal_gain

  -- `x <= limit`, which raises on `None`
  unfoldable pub within : Option F → F → Result KneeError Bool
  within none limit = err type_error
  within (some x) limit = ok (fl.le x limit)

  -- `and` of comparisons, which stops at the first that fails.
  unfoldable pub all_within : List (Option F × F) → Result KneeError Bool
  all_within [] = ok true
  all_within ((value, limit) ∷ rest) = do
    fits ← within value limit
    if fits then all_within rest else ok false

  unfoldable pub is_repeatable : ℤ → List (Option F) → List (Option F × F) → Result KneeError Bool
  is_repeatable repetitions needed limits =
      if leb_ℤ (pos 5) repetitions && all is_present needed then all_within limits else ok false

  -- The bracket of a latency elevation that the next rate confirms.
  unfoldable pub confirm_latency : Pending F → Aggregate F → Result KneeError (Knee F)
  confirm_latency pending current = do
    repeats ←
        is_repeatable
          (min_ℤ (min_ℤ pending.lower.repetitions pending.onset.repetitions) current.repetitions)
          (pending.lower.useful_rps_cv ∷ pending.onset.useful_rps_cv ∷ pending.lower.latency_p99_cv
            ∷ pending.onset.latency_p99_cv ∷ current.latency_p99_cv ∷ [])
          ((pending.lower.useful_rps_cv, fl.decimal 10 2)
            ∷ (pending.onset.useful_rps_cv, fl.decimal 10 2)
            ∷ (current.useful_rps_cv, fl.decimal 10 2)
            ∷ (pending.lower.latency_p99_cv, fl.decimal 15 2)
            ∷ (pending.onset.latency_p99_cv, fl.decimal 15 2)
            ∷ (current.latency_p99_cv, fl.decimal 15 2)
            ∷ [])
    ok (
        bracketed (record {
          lower_clean_rate = pending.lower.offered_rps_per_target;
          upper_stress_rate = pending.onset.offered_rps_per_target;
          triggers = latency_elevated ∷ latency_persisted ∷ [];
          latency_confirmation_rate = some current.offered_rps_per_target;
          marginal_efficiency = pending.efficiency;
          confidence = confidence_of repeats;
        }))

  -- The bracket of a capacity signal.
  unfoldable pub signal_capacity :
      Aggregate F → Aggregate F → List Trigger → Option F → Result KneeError (Knee F)
  signal_capacity previous current triggers efficiency = do
    repeats ←
        is_repeatable (min_ℤ previous.repetitions current.repetitions)
          (previous.useful_rps_cv ∷ current.useful_rps_cv ∷ previous.latency_p99_cv
            ∷ current.latency_p99_cv ∷ [])
          ((previous.useful_rps_cv, fl.decimal 10 2)
            ∷ (current.useful_rps_cv, fl.decimal 10 2)
            ∷ (previous.latency_p99_cv, fl.decimal 15 2)
            ∷ (current.latency_p99_cv, fl.decimal 15 2)
            ∷ [])
    ok (
        bracketed (record {
          lower_clean_rate = previous.offered_rps_per_target;
          upper_stress_rate = current.offered_rps_per_target;
          triggers = triggers;
          latency_confirmation_rate = none;
          marginal_efficiency = efficiency;
          confidence = confidence_of repeats;
        }))

  unfoldable pub triggers_of : Aggregate F → Option F → List Trigger
  triggers_of current efficiency = capacity_triggers current ++ efficiency_triggers efficiency

  -- A pass without a latency elevation to confirm.
  unfoldable pub without_pending :
      Option F
      → Aggregate F
      → Aggregate F
      → Option F
      → Result KneeError (Option (Knee F) × Option (Pending F))
  without_pending baseline previous current efficiency =
      let triggers = triggers_of current efficiency in
      let elevated = is_elevated current.median_latency_p99_us baseline in
      if no_triggers triggers
      then ok (
        none,
        if elevated
            then some (record { lower = previous; onset = current; efficiency = efficiency })
            else none,
      )
      else (signal_capacity previous current (triggers ++ trigger_if elevated latency_elevated)
            efficiency
          >>= λ knee. ok (some knee, none))

module _ {F : Type 0} ⦃fl : Floats F⦄ (median : List F → Option F) where
  unfoldable pub median_offered : Aggregate F → Result KneeError F
  median_offered a = elim (median a.cell_offered_rps) [
    | none ↦ err statistics_error
    | some m ↦ ok m
  ]

  -- The marginal efficiency, where more was offered than before.
  unfoldable pub efficiency_of : Aggregate F → Aggregate F → Result KneeError (Option F)
  efficiency_of previous current = do
    before ← median_offered previous
    after ← median_offered current
    ok (
        if fl.lt (fl.decimal 0 0) (fl.sub after before)
        then some (
            fl.div (fl.sub current.median_aggregate_useful_rps previous.median_aggregate_useful_rps)
              (fl.sub after before))
        else none)

  -- How a pass of the loop ends: with the knee, or with the new `pending_latency`.
  unfoldable pub pass :
      Option F
      → Aggregate F
      → Option (Pending F)
      → Aggregate F
      → Result KneeError (Option (Knee F) × Option (Pending F))
  pass baseline previous (some pending) current = do
    efficiency ← efficiency_of previous current
    if is_elevated current.median_latency_p99_us baseline
        then (confirm_latency pending current >>= λ knee. ok (some knee, none))
        else without_pending baseline previous current efficiency
  pass baseline previous none current = do
    efficiency ← efficiency_of previous current
    without_pending baseline previous current efficiency

  unfoldable pub infer_from :
      Option F → Aggregate F → Option (Pending F) → List (Aggregate F) → Result KneeError (Knee F)
  infer_from baseline previous pending [] =
      ok (not_reached previous.offered_rps_per_target (onset_rate pending))
  infer_from baseline previous pending (current ∷ rest) = do
    result ← pass baseline previous pending current
    elim result.0 [ some knee ↦ ok knee | none ↦ infer_from baseline current result.1 rest ]

  unfoldable pub infer_valid : List (Aggregate F) → Result KneeError (Knee F)
  infer_valid [] = ok too_few_points
  infer_valid (a ∷ []) = ok too_few_points
  infer_valid (a ∷ b ∷ rest) = infer_from a.median_latency_p99_us a none (b ∷ rest)

  unfoldable pub infer_knee : List (Aggregate F) → Result KneeError (Knee F)
  infer_knee aggregates = elim (keep (λ a. not a.all_scheduler_valid) aggregates) [
    | [] ↦ infer_valid aggregates
    | invalid ∷ more ↦ ok (invalid_rates (map (λ a. a.offered_rps_per_target) (invalid ∷ more)))
  ]
