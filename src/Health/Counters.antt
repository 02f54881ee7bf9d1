-- ===== src/Health/Counters.antt =====
-- hack/arena-sc-transport-health-summarize.py: the counters of `summarize` lose no warning.
use llm_d_sc_benchmark.Prelude.{
  ◌≡◌, refl, sym, ap, ◌∙◌, arith, String, List, [], ◌∷◌, map, ℤ, pos, ◌+ℤ◌, sum_ℤ, Bool-cases, inl,
  inr,
}
use text.Mathlib.Text.{◌==◌ as str_eq}
use llm_d_sc_benchmark.Prelude.Decimal.{Text, codes, text_le}
use llm_d_sc_benchmark.Prelude.Texts.{insert_by, sort_by}
use llm_d_sc_benchmark.Health.Events.{EventItem, Warning, warning_counts}
use llm_d_sc_benchmark.Health.Summary.{
  EventDelta, count_up, count_all, counted, event_deltas, probe_name, failure_name, summary_of,
  summarize,
}
use llm_d_sc_benchmark.Health.State.{PodItem, pod_state}
use llm_d_sc_benchmark.Prelude.Dict.{keys_of}

+ℤ_assoc : (a b c : ℤ) → (a +ℤ b) +ℤ c ≡ a +ℤ (b +ℤ c)
+ℤ_assoc a b c = ground arith

+ℤ_comm : (a b : ℤ) → a +ℤ b ≡ b +ℤ a
+ℤ_comm a b = ground arith

zero_add : (a : ℤ) → pos 0 +ℤ a ≡ a
zero_add a = ground arith

abbrev pub total : List (String × ℤ) → ℤ
total counter = sum_ℤ (map (λ e. e.1) counter)

+ℤ_swap : (a b c : ℤ) → (a +ℤ b) +ℤ c ≡ (a +ℤ c) +ℤ b
+ℤ_swap a b c = +ℤ_assoc a b c ∙ ap (λ x. a +ℤ x) (+ℤ_comm b c) ∙ sym (+ℤ_assoc a c b)

total-count_up :
    (counter : List (String × ℤ)) (key : String) (n : ℤ)
    → total (count_up counter key n) ≡ total counter +ℤ n
unfolding count_up
total-count_up [] key n = +ℤ_comm n (pos 0)
total-count_up ((k, m) ∷ rest) key n = elim (Bool-cases (str_eq k key)) [
  | inl e ↦ rw (e, count_up) (+ℤ_swap m n (total rest))
  | inr e ↦
      rw (e, count_up)
        (ap (λ x. m +ℤ x) (total-count_up rest key n) ∙ sym (+ℤ_assoc m (total rest) n))
]

total-count_all :
    (name : Warning → String) (counter : List (String × ℤ)) (deltas : List EventDelta)
    → total (count_all name counter deltas) ≡ total counter +ℤ sum_ℤ (map (λ d. d.delta) deltas)
unfolding count_all
total-count_all name counter [] = sym (zero_add (total counter)) ∙ +ℤ_comm (pos 0) (total counter)
total-count_all name counter (d ∷ deltas) =
    total-count_all name (count_up counter (name d.event) d.delta) deltas
    ∙ ap (λ x. x +ℤ sum_ℤ (map (λ d. d.delta) deltas))
        (total-count_up counter (name d.event) d.delta)
    ∙ +ℤ_assoc (total counter) d.delta (sum_ℤ (map (λ d. d.delta) deltas))

total-insert_by :
    (f : String × ℤ → Text) (e : String × ℤ) (counter : List (String × ℤ))
    → total (insert_by f e counter) ≡ e.1 +ℤ total counter
unfolding insert_by
total-insert_by f e [] = refl
total-insert_by f e (e' ∷ counter) = elim (Bool-cases (text_le (f e) (f e'))) [
  | inl h ↦ rw (h, insert_by) refl
  | inr h ↦
      rw (h, insert_by)
        (ap (λ x. e'.1 +ℤ x) (total-insert_by f e counter)
          ∙ sym (+ℤ_assoc e'.1 e.1 (total counter))
          ∙ ap (λ x. x +ℤ total counter) (+ℤ_comm e'.1 e.1)
          ∙ +ℤ_assoc e.1 e'.1 (total counter))
]

total-sort_by :
    (f : String × ℤ → Text) (counter : List (String × ℤ))
    → total (sort_by f counter) ≡ total counter
unfolding sort_by
total-sort_by f [] = refl
total-sort_by f (e ∷ counter) =
    total-insert_by f e (sort_by f counter) ∙ ap (λ x. e.1 +ℤ x) (total-sort_by f counter)

counted-total :
    (name : Warning → String) (deltas : List EventDelta)
    → total (counted name deltas) ≡ sum_ℤ (map (λ d. d.delta) deltas)
unfolding counted
counted-total name deltas =
    total-sort_by (λ e. codes e.0) (count_all name [] deltas)
    ∙ total-count_all name [] deltas
    ∙ zero_add (sum_ℤ (map (λ d. d.delta) deltas))

-- The warnings by probe, and those by failure, add up to the count of all warnings.
pub summarize-counters :
    (before_pods after_pods : List PodItem) (before_events after_events : List EventItem)
    → (total
          (summarize before_pods after_pods before_events
            after_events).warning_event_deltas_by_probe
        ≡ (summarize before_pods after_pods before_events after_events).warning_event_delta_count)
      × (total
            (summarize before_pods after_pods before_events
              after_events).warning_event_deltas_by_failure
          ≡ (summarize before_pods after_pods before_events after_events).warning_event_delta_count)
unfolding summarize summary_of counted
summarize-counters before_pods after_pods before_events after_events =
    let deltas =
      event_deltas (warning_counts before_events (keys_of (pod_state before_pods)))
        (warning_counts after_events (keys_of (pod_state after_pods))) in
    (
      counted-total (λ e. probe_name e.probe) deltas,
      counted-total (λ e. failure_name e.failure) deltas,
    )
