-- ===== src/Capacity/Usage.antt =====
-- hack/arena-sc-horizontal-scale-preflight.py: what is requested on a node is the sum over its active pods.
use text.Mathlib.Text.{◌==◌ as str_eq}
use text.Mathlib.TextEquality.{eq_iff}
use mathlib.Core.Path.{subst}
use llm_d_sc_benchmark.Prelude.{
  ◌+◌, ◌≡◌, ◌≢◌, refl, sym, ap, ◌∙◌, String, Bool, true, false, not, Option, none, some, List, [],
  ◌∷◌, ◌++◌, ok, ◌>>=◌, ◌>>◌, require, if◌then◌else◌, ◌⊎◌, inl, inr, Bool-cases, >>=-eq-ok, >>=-ok,
  ok-injective, append_assoc, append-nil,
}
use llm_d_sc_benchmark.Prelude.Decimal.{Text}
use llm_d_sc_benchmark.Prelude.Json.{Json, str}
use llm_d_sc_benchmark.Prelude.Floats.{Floats}
use llm_d_sc_benchmark.Prelude.Truth.{is_truthy}
use llm_d_sc_benchmark.Capacity.Quantities.{type_error}
use llm_d_sc_benchmark.Capacity.Snapshot.{child, lookup, is_text, is_hashable, is_active}
use llm_d_sc_benchmark.Capacity.Requests.{
  Request, plus, Usage, requested_by, pod_scheduler_requests, scheduled, active_usage, pod_usage,
  usage_from,
}
use llm_d_sc_benchmark.Capacity.Active.{
  is_text-true, is_text-false, HasValue, IsActive, IsFinished, is_active-true, is_active-false,
}

module _ {F : Type 0} where
  -- The pod is active and on the node.
  abbrev pub RunsOn : String → Json F → Type 0
  RunsOn name pod = IsActive pod × HasValue pod "spec" "nodeName" (some (str name))

  -- The pod is finished, or names another node, or none.
  abbrev pub RunsElsewhere : String → Json F → Type 0
  RunsElsewhere name pod =
      IsFinished pod
      ⊎ ((node : Option (Json F)) × HasValue pod "spec" "nodeName" node
          × ((node ≢ some (str name)) ⊎ (node ≡ some (str ""))))

module _ {F : Type 0} ⦃fl : Floats F⦄ (repr : F → Text) (parse_float : Text → Option F) where
  -- The total is the sum of the requests of the pods that run on the node.
  abbrev pub AddsUp : String → List (Json F) → Request → Type 0
  AddsUp name [] total = (total.cpu ≡ 0) × (total.memory ≡ 0) × (total.pods ≡ 0)
  AddsUp name (pod ∷ pods) total =
      (rest : Request) × AddsUp name pods rest
      × (((request : Request) × RunsOn name pod
            × (pod_scheduler_requests repr parse_float pod ≡ ok request)
            × (total.cpu ≡ request.cpu + rest.cpu)
            × (total.memory ≡ request.memory + rest.memory)
            × (total.pods ≡ request.pods + rest.pods))
          ⊎ (RunsElsewhere name pod × (total ≡ rest)))

  -- A pod has no row and no node that counts, or the row of its node.
  abbrev HasRow : Json F → List (Json F × Request) → Type 0
  HasRow pod rows =
      ((node : Option (Json F)) × HasValue pod "spec" "nodeName" node
        × (rows ≡ [])
        × ((name : String) → (node ≢ some (str name)) ⊎ (node ≡ some (str ""))))
      ⊎ ((node : Json F) × (request : Request) × HasValue pod "spec" "nodeName" (some node)
          × (pod_scheduler_requests repr parse_float pod ≡ ok request)
          × (rows ≡ (node, request) ∷ []))

  untrue_name :
      (node : Json F) (name : String)
      → is_truthy node ≡ false
      → (◌≢◌ {A = Option (Json F)} (some node) (some (str name)))
        ⊎ (◌≡◌ {A = Option (Json F)} (some node) (some (str "")))
  unfolding is_truthy
  untrue_name node name h = elim (Bool-cases (is_text (some node) name)) [
    | inl e ↦
        let same = is_text-true (some node) name e in
        let inner : node ≡ str name = cc in
        let empty : is_truthy {F = F} (str name) ≡ false = ap is_truthy (sym inner) ∙ h in
        inr (same ∙ ap (λ t. some (str t)) ((eq_iff name "").0 (negated (str_eq name "") empty)))
    | inr e ↦ inl (is_text-false (some node) name e)
  ]
    where
      negated : (b : Bool) → not b ≡ false → b ≡ true
      negated true e = refl
      negated false e = cc

  row_of :
      (pod spec : Json F) (node_name : Option (Json F)) (rows : List (Json F × Request))
      → HasValue pod "spec" "nodeName" node_name
      → (elim node_name [
        | none ↦ ok []
        | some node ↦
            if is_truthy node
            then (do
              require (is_hashable (some node)) type_error
              request ← pod_scheduler_requests repr parse_float pod
              ok ((node, request) ∷ []))
            else ok []
      ])
        ≡ ok rows
      → HasRow pod rows
  row_of pod spec none rows read h = inl (none, read, sym (ok-injective h), λ name. inl (λ e. cc))
  row_of pod spec (some node) rows read h = elim (Bool-cases (is_truthy node)) [
    | inl e ↦
        let h' = rw e at h in
        let (u, h0, h1) = >>=-eq-ok (require (is_hashable (some node)) type_error) _ h' in
        let (request, h2, h3) = >>=-eq-ok (pod_scheduler_requests repr parse_float pod) _ h1 in
        inr (node, request, read, h2, sym (ok-injective h3))
    | inr e ↦
        let none_made = ok-injective (rw e at h) in
        inl (some node, read, sym none_made, λ name. untrue_name node name e)
  ]

  scheduled-HasRow :
      (pod : Json F) (rows : List (Json F × Request))
      → scheduled repr parse_float pod ≡ ok rows
      → HasRow pod rows
  unfolding scheduled
  scheduled-HasRow pod rows h =
      let (spec, h0, h1) = >>=-eq-ok (child pod "spec") _ h in
      let (node_name, h2, h3) = >>=-eq-ok (lookup spec "nodeName") _ h1 in
      row_of pod spec node_name rows (>>=-ok _ h0 ∙ h2) h3

  active_usage-HasRow :
      (namespace : String) (pod : Json F) (usage next : Usage F)
      → active_usage repr parse_float namespace pod usage ≡ ok next
      → (rows : List (Json F × Request)) × (next.requested ≡ usage.requested ++ rows)
        × HasRow pod rows
  unfolding active_usage
  active_usage-HasRow namespace pod usage next h =
      let (metadata, h0, h1) = >>=-eq-ok (child pod "metadata") _ h in
      let (own, h2, h3) = >>=-eq-ok (lookup metadata "namespace") _ h1 in
      let (rows, h4, h5) = >>=-eq-ok (scheduled repr parse_float pod) _ h3 in
      (rows, ap (λ u. u.requested) (sym (ok-injective h5)), scheduled-HasRow pod rows h4)

  -- The rows of a pod, one at most, and only of an active one.
  pod_usage-rows :
      (namespace : String) (pod : Json F) (usage next : Usage F)
      → pod_usage repr parse_float namespace pod usage ≡ ok next
      → (rows : List (Json F × Request)) × (next.requested ≡ usage.requested ++ rows)
        × (((rows ≡ []) × IsFinished pod) ⊎ (IsActive pod × HasRow pod rows))
  unfolding pod_usage
  pod_usage-rows namespace pod usage next h =
      let (active, h0, h1) = >>=-eq-ok (is_active pod) _ h in
      elim (Bool-cases active) [
        | inl e ↦
            let (rows, made, row) = active_usage-HasRow namespace pod usage next (rw e at h1) in
            (rows, made, inr (is_active-true pod (h0 ∙ ap ok e), row))
        | inr e ↦
            let same = ok-injective (rw e at h1) in
            (
              [],
              ap (λ u. u.requested) (sym same) ∙ sym (append-nil usage.requested),
              inl (refl, is_active-false pod (h0 ∙ ap ok e)),
            )
      ]

  add_row :
      (name : String) (pod : Json F) (pods : List (Json F)) (rows later : List (Json F × Request))
      → ((rows ≡ []) × IsFinished pod) ⊎ (IsActive pod × HasRow pod rows)
      → AddsUp name pods (requested_by later name)
      → AddsUp name (pod ∷ pods) (requested_by (rows ++ later) name)
  unfolding requested_by plus
  add_row name pod pods rows later (inl (no_rows, finished)) total =
      (requested_by later name, total, inr (inl finished, rw (no_rows) refl))
  add_row name pod pods rows later (inr (active, inl (node, read, no_rows, off))) total =
      (requested_by later name, total, inr (inr (node, read, off name), rw (no_rows) refl))
  add_row name pod pods rows later (inr (active, inr (node, request, read, asked, one))) total =
      elim (Bool-cases (is_text (some node) name)) [
        | inl e ↦
            let here = read ∙ ap ok (is_text-true (some node) name e) in
            (
              requested_by later name,
              total,
              inl (
                request,
                (active, here),
                asked,
                rw (one, e, requested_by) refl,
                rw (one, e, requested_by) refl,
                rw (one, e, requested_by) refl,
              ),
            )
        | inr e ↦ (
          requested_by later name,
          total,
          inr (
            inr (some node, read, inl (is_text-false (some node) name e)),
            rw (one, e, requested_by) refl,
          ),
        )
      ]

  usage_from-rows :
      (namespace name : String) (usage : Usage F) (pods : List (Json F)) (last : Usage F)
      → usage_from repr parse_float namespace usage pods ≡ ok last
      → (rows : List (Json F × Request)) × (last.requested ≡ usage.requested ++ rows)
        × AddsUp name pods (requested_by rows name)
  unfolding usage_from requested_by
  usage_from-rows namespace name usage [] last h = (
    [],
    ap (λ u. u.requested) (sym (ok-injective h)) ∙ sym (append-nil usage.requested),
    (refl, refl, refl),
  )
  usage_from-rows namespace name usage (pod ∷ pods) last h =
      let (next, h0, h1) = >>=-eq-ok (pod_usage repr parse_float namespace pod usage) _ h in
      let (rows, made, row) = pod_usage-rows namespace pod usage next h0 in
      let (later, last_made, total) = usage_from-rows namespace name next pods last h1 in
      (
        rows ++ later,
        last_made ∙ (ap (λ r. r ++ later) made ∙ append_assoc usage.requested rows later),
        add_row name pod pods rows later row total,
      )

  -- What the loop has collected for a node is the sum of the requests of the active pods there.
  pub usage_from-AddsUp :
      (namespace name : String) (pods : List (Json F)) (last : Usage F)
      → usage_from repr parse_float namespace
          (record { active_namespaced = 0; requested = [] })
          pods
        ≡ ok last
      → AddsUp name pods (requested_by last.requested name)
  usage_from-AddsUp namespace name pods last h =
      let (rows, made, total) =
        usage_from-rows namespace name (record { active_namespaced = 0; requested = [] }) pods last
          h in
      subst (λ r. AddsUp name pods (requested_by r name)) (sym made) total
