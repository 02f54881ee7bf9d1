-- ===== src/Capacity/Conditions.antt =====
-- hack/arena-sc-horizontal-scale-preflight.py: what the tests of a node say of its conditions.
use llm_d_sc_benchmark.Prelude.{
  ◌≡◌, ◌≢◌, refl, Bool, true, false, ◌&&◌, Option, some, List, [], ◌∷◌, ok, ◌⊎◌, inl, inr, ap, ◌∙◌,
  sym, All, Bool-cases, >>=-eq-ok, ok-injective, and-eq-true,
}
use llm_d_sc_benchmark.Prelude.Json.{Json, str}
use llm_d_sc_benchmark.Capacity.Snapshot.{lookup, is_text, is_in}
use llm_d_sc_benchmark.Capacity.Nodes.{is_ready, has_pressure}
use llm_d_sc_benchmark.Capacity.Active.{true-ne-false, is_text-true, is_text-false, is_in-All}

relaxed : (listed holds : Bool) → (listed && holds) ≡ false → (listed ≡ false) ⊎ (holds ≡ false)
relaxed true holds h = inr h
relaxed false holds h = inl refl

module _ {F : Type 0} where
  -- A condition "Ready" is "True".
  abbrev pub IsReady : List (Json F) → Type 0
  IsReady [] = ⊥
  IsReady (condition ∷ rest) =
      ((lookup condition "type" ≡ ok (some (str "Ready")))
        × (lookup condition "status" ≡ ok (some (str "True"))))
      ⊎ IsReady rest

  -- The condition is not one of the four of a node under pressure, or is not "True".
  abbrev pub IsRelaxed : Json F → Type 0
  IsRelaxed condition =
      (kind : Option (Json F)) × (status : Option (Json F)) × (lookup condition "type" ≡ ok kind)
      × (lookup condition "status" ≡ ok status)
      × (All (λ t. kind ≢ some (str t))
            ("MemoryPressure" ∷ "DiskPressure" ∷ "PIDPressure" ∷ "NetworkUnavailable" ∷ [])
          ⊎ (status ≢ some (str "True")))

  pub is_ready-IsReady :
      (conditions : List (Json F)) → is_ready conditions ≡ ok true → IsReady conditions
  unfolding is_ready
  is_ready-IsReady [] h = absurd (true-ne-false (sym (ok-injective h)))
  is_ready-IsReady (condition ∷ rest) h =
      let (kind, h0, h1) = >>=-eq-ok (lookup condition "type") _ h in
      let (status, h2, h3) = >>=-eq-ok (lookup condition "status") _ h1 in
      elim (Bool-cases (is_text kind "Ready" && is_text status "True")) [
        | inl e ↦
            let (named, holds) = (and-eq-true _ _).0 e in
            inl (
              h0 ∙ ap ok (is_text-true kind "Ready" named),
              h2 ∙ ap ok (is_text-true status "True" holds),
            )
        | inr e ↦ inr (is_ready-IsReady rest (rw e at h3))
      ]

  pub has_pressure-IsRelaxed :
      (conditions : List (Json F)) → has_pressure conditions ≡ ok false → All IsRelaxed conditions
  unfolding has_pressure
  has_pressure-IsRelaxed [] h = tt
  has_pressure-IsRelaxed (condition ∷ rest) h =
      let (kind, h0, h1) = >>=-eq-ok (lookup condition "type") _ h in
      let (listed, h2, h3) =
        >>=-eq-ok
          (is_in kind
            ("MemoryPressure" ∷ "DiskPressure" ∷ "PIDPressure" ∷ "NetworkUnavailable" ∷ []))
          _ h1 in
      let (status, h4, h5) = >>=-eq-ok (lookup condition "status") _ h3 in
      elim (Bool-cases (listed && is_text status "True")) [
        | inl e ↦ absurd (true-ne-false (ok-injective (rw e at h5)))
        | inr e ↦ (
          (
            kind,
            status,
            h0,
            h4,
            elim (relaxed listed (is_text status "True") e) [
              | inl unlisted ↦ inl (is_in-All kind _ (h2 ∙ ap ok unlisted))
              | inr off ↦ inr (is_text-false status "True" off)
            ],
          ),
          has_pressure-IsRelaxed rest (rw e at h5),
        )
      ]
