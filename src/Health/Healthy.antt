-- ===== src/Health/Healthy.antt =====
-- What it means that the health objective of a cell is met.
use llm_d_sc_benchmark.Prelude.{
  ◌≡◌, refl, arith, String, Bool, true, Option, none, some, List, [], ◌∷◌, ◌++◌, map, ℤ, pos, ◌-ℤ◌,
  ◌≤ℤ◌, ◌==ℤ◌, ltb_ℤ, sum_ℤ, sum_ℤ-zero, max_zero, keep, all, length, All, Bool-cases, inl, inr,
  and-eq-true, ==_iff,
}
use llm_d_sc_benchmark.Prelude.Decimal.{codes}
use llm_d_sc_benchmark.Prelude.Texts.{sort_by, sort_by-All}
use llm_d_sc_benchmark.Prelude.Dict.{look_up, has_key, keys_of}
use llm_d_sc_benchmark.Health.State.{PodItem, PodState, same_field, pod_state}
use llm_d_sc_benchmark.Health.Events.{EventItem, Warning, warning_counts}
use llm_d_sc_benchmark.Health.Summary.{
  PodRow, EventDelta, same_identity, is_identity_stable, all_names, restart_delta_of, pod_row,
  increase_of, count_of, event_delta, event_deltas, are_ready, summary_of, summarize,
}

-- A target is the same Pod before and after, and has not restarted.
pub record IsUnharmed (before after : List (String × PodState)) (name : String) : Type 0 where
  pub old : PodState
  pub new : PodState
  pub old_lem : look_up before name ≡ some old
  pub new_lem : look_up after name ≡ some new
  pub uid : same_field old.uid new.uid ≡ true
  pub pod_ip : same_field old.pod_ip new.pod_ip ≡ true
  pub restarts : new.restart_count ≤ℤ old.restart_count

-- A warning has not been counted again.
abbrev pub IsQuiet : List (String × Warning) → String × Warning → Type 0
IsQuiet old e = e.1.count ≤ℤ count_of (look_up old e.0)

-- There are five targets before and after, all ready, each target before is the same Pod after and has not
-- restarted, there is no other target after, and no warning has been counted again.
pub record IsHealthy (before after : List (String × PodState)) (old new : List (String × Warning))
    : Type 0 where
  pub five_before : length before ≡ 5
  pub five_after : length after ≡ 5
  pub ready_before : All (λ e. e.1.ready ≡ true) before
  pub ready_after : All (λ e. e.1.ready ≡ true) after
  pub unharmed : All (IsUnharmed before after) (keys_of before)
  pub no_other : All (λ name. has_key before name ≡ true) (keys_of after)
  pub quiet : All (IsQuiet old) new

all-All : {A : Type 0} (p : A → Bool) (xs : List A) → all p xs ≡ true → All (λ x. p x ≡ true) xs
all-All p [] h = tt
all-All p (x ∷ xs) h = let (here, later) = (and-eq-true _ _).0 h in (here, all-All p xs later)

all-keep :
    {A : Type 0} (p q : A → Bool) (xs : List A)
    → all p xs ≡ true
    → all q (keep p xs) ≡ true
    → all q xs ≡ true
all-keep p q [] h0 h1 = refl
all-keep p q (x ∷ xs) h0 h1 =
    let (here, later) = (and-eq-true (p x) _).0 h0 in
    let (now, rest) = (and-eq-true (q x) _).0 (rw here at h1) in
    (and-eq-true _ _).1 (now, all-keep p q xs later rest)

All-append-left {κ} : {A : Type 0} (P : A → Type κ) (xs ys : List A) → All P (xs ++ ys) → All P xs
All-append-left P [] ys h = tt
All-append-left P (x ∷ xs) ys (here, later) = (here, All-append-left P xs ys later)

All-of-map {κ} :
    {A B : Type 0} (P : B → Type κ) (f : A → B) (xs : List A)
    → All P (map f xs)
    → All (λ x. P (f x)) xs
All-of-map P f [] h = tt
All-of-map P f (x ∷ xs) (here, later) = (here, All-of-map P f xs later)

increase-nonneg : (d : Option ℤ) → pos 0 ≤ℤ increase_of d
unfolding increase_of
increase-nonneg none = omega arith
increase-nonneg (some n) = omega arith

increases-nonneg :
    (rows : List PodRow) → All (λ x. pos 0 ≤ℤ x) (map (λ p. increase_of p.restart_delta) rows)
increases-nonneg [] = tt
increases-nonneg (row ∷ rows) = (increase-nonneg row.restart_delta, increases-nonneg rows)

no-increase : (new old : ℤ) → max_zero (new -ℤ old) ≤ℤ pos 0 → new ≤ℤ old
no-increase new old h = ground arith

IsUnharmed-from :
    (before after : List (String × PodState)) (name : String) (o n : Option PodState)
    → look_up before name ≡ o
    → look_up after name ≡ n
    → same_identity o n ≡ true
    → increase_of (restart_delta_of o n) ≤ℤ pos 0
    → IsUnharmed before after name
unfolding same_identity increase_of restart_delta_of
IsUnharmed-from before after name (some old) (some new) h0 h1 same delta =
    let (uid, pod_ip) = (and-eq-true _ _).0 same in
    record {
      old = old;
      new = new;
      old_lem = h0;
      new_lem = h1;
      uid = uid;
      pod_ip = pod_ip;
      restarts = no-increase new.restart_count old.restart_count delta;
    }
IsUnharmed-from before after name none n h0 h1 same delta = cc
IsUnharmed-from before after name (some old) none h0 h1 same delta = cc

all-IsUnharmed :
    (before after : List (String × PodState)) (names : List String)
    → all (λ name. same_identity (look_up before name) (look_up after name)) names ≡ true
    → All (λ name. increase_of (pod_row before after name).restart_delta ≤ℤ pos 0) names
    → All (IsUnharmed before after) names
unfolding pod_row
all-IsUnharmed before after [] same deltas = tt
all-IsUnharmed before after (name ∷ names) same (delta, deltas) =
    let (here, later) = (and-eq-true _ _).0 same in
    (
      IsUnharmed-from before after name (look_up before name) (look_up after name) refl refl here
          delta,
      all-IsUnharmed before after names later deltas,
    )

-- The rows of all names cover those before the cell.
restarts-All :
    (before after : List (String × PodState))
    → (sum_ℤ (
          map
            (λ p. increase_of p.restart_delta)
            (map (pod_row before after) (all_names before after)))
        ==ℤ pos 0)
      ≡ true
    → All (λ name. increase_of (pod_row before after name).restart_delta ≤ℤ pos 0) (keys_of before)
unfolding all_names
restarts-All before after h =
    let rows = map (pod_row before after) (all_names before after) in
    let P : PodRow → Type 0 = λ p. increase_of p.restart_delta ≤ℤ pos 0 in
    let held =
      All-of-map (λ x. x ≤ℤ pos 0) (λ (p : PodRow). increase_of p.restart_delta) rows
        (sum_ℤ-zero _ (increases-nonneg rows) h) in
    All-append-left (λ name. P (pod_row before after name)) (keys_of before) _
      (sort_by-All (λ name. P (pod_row before after name)) codes _
        (All-of-map P (pod_row before after) (all_names before after) held))

kept-nonneg :
    (ds : List EventDelta)
    → All (λ x. pos 0 ≤ℤ x) (map (λ d. d.delta) (keep (λ d. ltb_ℤ (pos 0) d.delta) ds))
kept-nonneg [] = tt
kept-nonneg (d ∷ ds) = elim (Bool-cases (ltb_ℤ (pos 0) d.delta)) [
  | inl e ↦ rw e ((ground arith), kept-nonneg ds)
  | inr e ↦ rw e (kept-nonneg ds)
]

kept-All :
    (ds : List EventDelta)
    → All (λ x. x ≤ℤ pos 0) (map (λ d. d.delta) (keep (λ d. ltb_ℤ (pos 0) d.delta) ds))
    → All (λ d. d.delta ≤ℤ pos 0) ds
kept-All [] h = tt
kept-All (d ∷ ds) h = elim (Bool-cases (ltb_ℤ (pos 0) d.delta)) [
  | inl e ↦ let h' = rw e at h in (h'.0, kept-All ds h'.1)
  | inr e ↦ ((ground arith), kept-All ds (rw e at h))
]

no-delta : (new old : ℤ) → (new -ℤ old) ≤ℤ pos 0 → new ≤ℤ old
no-delta new old h = ground arith

IsQuiet-All :
    (old : List (String × Warning)) (events : List (String × Warning))
    → All (λ e. (event_delta old e).delta ≤ℤ pos 0) events
    → All (IsQuiet old) events
unfolding event_delta
IsQuiet-All old [] h = tt
IsQuiet-All old ((key, event) ∷ events) (here, later) =
    (no-delta event.count (count_of (look_up old key)) here, IsQuiet-All old events later)

warnings-All :
    (old new : List (String × Warning))
    → (sum_ℤ (map (λ d. d.delta) (event_deltas old new)) ==ℤ pos 0) ≡ true
    → All (IsQuiet old) new
unfolding event_deltas
warnings-All old new h =
    let sorted = sort_by (λ (e : String × Warning). codes e.0) new in
    let ds = map (event_delta old) sorted in
    let P : EventDelta → Type 0 = λ d. d.delta ≤ℤ pos 0 in
    IsQuiet-All old new (
      sort_by-All (λ e. P (event_delta old e)) (λ e. codes e.0) new
        (All-of-map P (event_delta old) sorted (kept-All ds (sum_ℤ-zero _ (kept-nonneg ds) h))))

health_slo_lem :
    (before after : List (String × PodState)) (old new : List (String × Warning))
    → (summary_of before after old new).health_slo_pass ≡ true
    → IsHealthy before after old new
unfolding summary_of is_identity_stable are_ready
health_slo_lem before after old new h =
    let (h0, warnings) = (and-eq-true _ _).0 h in
    let (h1, restarts) = (and-eq-true _ _).0 h0 in
    let (h2, ready_after) = (and-eq-true _ _).0 h1 in
    let (stable, ready_before) = (and-eq-true _ _).0 h2 in
    let (h3, same) = (and-eq-true _ _).0 stable in
    let (kept, others) = (and-eq-true _ _).0 h3 in
    let (five_before, all_before) = (and-eq-true _ _).0 ready_before in
    let (five_after, all_after) = (and-eq-true _ _).0 ready_after in
    record {
      five_before = (==_iff _ _).0 five_before;
      five_after = (==_iff _ _).0 five_after;
      ready_before = all-All (λ e. e.1.ready) before all_before;
      ready_after = all-All (λ e. e.1.ready) after all_after;
      unharmed =
          all-IsUnharmed before after (keys_of before)
            (all-keep (has_key after) _ (keys_of before) kept same)
            (restarts-All before after restarts);
      no_other = all-All (has_key before) (keys_of after) others;
      quiet = warnings-All old new warnings;
    }

-- Where the health objective of a cell is met, there are five targets before and after, all ready, each target
-- before is the same Pod after and has not restarted, there is no other target after, and no warning about a
-- target has been counted again.
pub summarize-IsHealthy :
    (before_pods after_pods : List PodItem) (before_events after_events : List EventItem)
    → (summarize before_pods after_pods before_events after_events).health_slo_pass ≡ true
    → IsHealthy
        (pod_state before_pods)
        (pod_state after_pods)
        (warning_counts before_events (keys_of (pod_state before_pods)))
        (warning_counts after_events (keys_of (pod_state after_pods)))
unfolding summarize
summarize-IsHealthy before_pods after_pods before_events after_events h =
    health_slo_lem (pod_state before_pods) (pod_state after_pods)
      (warning_counts before_events (keys_of (pod_state before_pods)))
      (warning_counts after_events (keys_of (pod_state after_pods))) h
