-- ===== src/Capacity/Mounts.antt =====
-- hack/arena-sc-horizontal-scale-preflight.py: what the gate on the volume says of the pods and of the claim.
use llm_d_sc_benchmark.Prelude.{
  ◌≡◌, ◌≢◌, refl, ap, ◌∙◌, String, Bool, true, false, not, Option, some, List, [], ◌∷◌, ok, ◌⊎◌,
  inl, inr, All, Bool-cases, >>=-eq-ok, >>=-ok, ok-injective, and-eq-true, append-nil-both, require,
}
use llm_d_sc_benchmark.Prelude.Json.{Json, str, arr, nil}
use llm_d_sc_benchmark.Capacity.Quantities.{type_error}
use llm_d_sc_benchmark.Capacity.Snapshot.{
  child, lookup, lookup_or, listing, is_text, is_none_or, is_active,
}
use llm_d_sc_benchmark.Capacity.Quota.{is_empty}
use llm_d_sc_benchmark.Capacity.Volume.{
  set_of, is_sortable, has_volume, foreign_mount, active_mount, pod_mounts, foreign_mounts,
  VolumeGate, volume_gate,
}
use llm_d_sc_benchmark.Capacity.Active.{
  true-ne-false, IsMissingOr, is_text-true, is_text-false, is_none_or-true, HasValue, IsFinished,
  is_active-false,
}

is_empty-nil : {A : Type 0} (items : List A) → is_empty items ≡ true → items ≡ []
unfolding is_empty
is_empty-nil [] h = refl
is_empty-nil (a ∷ items) h = cc

not-false : (b : Bool) → not b ≡ false → b ≡ true
not-false true h = refl
not-false false h = cc

module _ {F : Type 0} where
  -- The volume is not of the claim.
  abbrev pub LacksClaim : String → Json F → Type 0
  LacksClaim claim_name volume =
      (claimed : Option (Json F)) × HasValue volume "persistentVolumeClaim" "claimName" claimed
      × (claimed ≢ some (str claim_name))

  -- None of the pod's volumes is of the claim.
  abbrev pub IsUnmounted : String → Json F → Type 0
  IsUnmounted claim_name spec =
      (volumes : List (Json F)) × (listing spec "volumes" ≡ ok volumes)
      × All (LacksClaim claim_name) volumes

  -- The pod is on the node or on none.
  abbrev pub IsHere : String → Json F → Type 0
  IsHere target_node spec =
      (node : Option (Json F)) × (lookup spec "nodeName" ≡ ok node) × IsMissingOr node target_node

  -- The pod is finished, or has no volume of the claim, or is on no other node.
  abbrev pub MountsHere : String → String → Json F → Type 0
  MountsHere claim_name target_node pod =
      IsFinished pod
      ⊎ ((spec : Json F) × (child pod "spec" ≡ ok spec)
          × (IsUnmounted claim_name spec ⊎ IsHere target_node spec))

  -- The claim has the name, is in the namespace or names none, and is bound.
  pub record IsBound (pvc : Json F) (namespace claim_name : String) : Type 0 where
    pub name : HasValue pvc "metadata" "name" (some (str claim_name))
    pub own : Option (Json F)
    pub own_lem : HasValue pvc "metadata" "namespace" own
    pub in_namespace : IsMissingOr own namespace
    pub phase : HasValue pvc "status" "phase" (some (str "Bound"))

  has_volume-LacksClaim :
      (claim_name : String) (volumes : List (Json F))
      → has_volume claim_name volumes ≡ ok false
      → All (LacksClaim claim_name) volumes
  unfolding has_volume
  has_volume-LacksClaim claim_name [] h = tt
  has_volume-LacksClaim claim_name (volume ∷ volumes) h =
      let (claim, h0, h1) = >>=-eq-ok (child volume "persistentVolumeClaim") _ h in
      let (claimed, h2, h3) = >>=-eq-ok (lookup claim "claimName") _ h1 in
      elim (Bool-cases (is_text claimed claim_name)) [
        | inl e ↦ absurd (true-ne-false (ok-injective (rw e at h3)))
        | inr e ↦ (
          (claimed, >>=-ok _ h0 ∙ h2, is_text-false claimed claim_name e),
          has_volume-LacksClaim claim_name volumes (rw e at h3),
        )
      ]

  foreign_mount-ne-nil :
      (pod : Json F) (elsewhere : Option (Json F)) → foreign_mount pod elsewhere ≢ ok []
  unfolding foreign_mount
  foreign_mount-ne-nil pod elsewhere h =
      let (metadata, h0, h1) = >>=-eq-ok (child pod "metadata") _ h in
      let (namespace, h2, h3) = >>=-eq-ok (lookup metadata "namespace") _ h1 in
      let (name, h4, h5) = >>=-eq-ok (lookup metadata "name") _ h3 in
      let wrong = ok-injective h5 in cc

  active_mount-nil :
      (claim_name target_node : String) (pod : Json F)
      → active_mount claim_name target_node pod ≡ ok []
      → (spec : Json F) × (child pod "spec" ≡ ok spec)
        × (IsUnmounted claim_name spec ⊎ IsHere target_node spec)
  unfolding active_mount
  active_mount-nil claim_name target_node pod h =
      let (spec, h0, h1) = >>=-eq-ok (child pod "spec") _ h in
      let (volumes, h2, h3) = >>=-eq-ok (listing spec "volumes") _ h1 in
      let (mounted, h4, h5) = >>=-eq-ok (has_volume claim_name volumes) _ h3 in
      let (node, h6, h7) = >>=-eq-ok (lookup spec "nodeName") _ h5 in
      elim (Bool-cases mounted) [
        | inl e ↦ elim (Bool-cases (is_none_or node target_node)) [
          | inl here ↦ (spec, h0, inr (node, h6, is_none_or-true node target_node here))
          | inr other ↦ absurd (foreign_mount-ne-nil pod node (rw (e, other) at h7))
        ]
        | inr e ↦
            (spec, h0, inl (volumes, h2, has_volume-LacksClaim claim_name volumes (h4 ∙ ap ok e)))
      ]

  pod_mounts-nil :
      (claim_name target_node : String) (pod : Json F)
      → pod_mounts claim_name target_node pod ≡ ok []
      → MountsHere claim_name target_node pod
  unfolding pod_mounts
  pod_mounts-nil claim_name target_node pod h =
      let (active, h0, h1) = >>=-eq-ok (is_active pod) _ h in
      elim (Bool-cases active) [
        | inl e ↦ inr (active_mount-nil claim_name target_node pod (rw e at h1))
        | inr e ↦ inl (is_active-false pod (h0 ∙ ap ok e))
      ]

  pub foreign_mounts-nil :
      (claim_name target_node : String) (pods : List (Json F))
      → foreign_mounts claim_name target_node pods ≡ ok []
      → All (MountsHere claim_name target_node) pods
  unfolding foreign_mounts
  foreign_mounts-nil claim_name target_node [] h = tt
  foreign_mounts-nil claim_name target_node (pod ∷ pods) h =
      let (here, h0, h1) = >>=-eq-ok (pod_mounts claim_name target_node pod) _ h in
      let (rest, h2, h3) = >>=-eq-ok (foreign_mounts claim_name target_node pods) _ h1 in
      let (no_here, no_rest) = append-nil-both here rest (ok-injective h3) in
      (
        pod_mounts-nil claim_name target_node pod (h0 ∙ ap ok no_here),
        foreign_mounts-nil claim_name target_node pods (h2 ∙ ap ok no_rest),
      )

  pub volume_gate-passed :
      (pvc : Json F) (pods : List (Json F)) (namespace target_node claim_name : String)
      (gate : VolumeGate F)
      → volume_gate pvc pods namespace target_node claim_name ≡ ok gate
      → gate.passed ≡ true
      → IsBound pvc namespace claim_name × All (MountsHere claim_name target_node) pods
  unfolding volume_gate
  volume_gate-passed pvc pods namespace target_node claim_name gate h passed =
      let (metadata, h0, h1) = >>=-eq-ok (child pvc "metadata") _ h in
      let (name, h2, h3) = >>=-eq-ok (lookup metadata "name") _ h1 in
      let (own, h4, h5) = >>=-eq-ok (lookup metadata "namespace") _ h3 in
      let (status, h6, h7) = >>=-eq-ok (child pvc "status") _ h5 in
      let (phase, h8, h9) = >>=-eq-ok (lookup status "phase") _ h7 in
      let (spec, h10, h11) = >>=-eq-ok (child pvc "spec") _ h9 in
      let (listed, h12, h13) = >>=-eq-ok (lookup_or spec "accessModes" (arr nil)) _ h11 in
      let (modes, h14, h15) = >>=-eq-ok (set_of listed) _ h13 in
      let (mounts, h16, h17) = >>=-eq-ok (foreign_mounts claim_name target_node pods) _ h15 in
      let (sorted, h18, h19) = >>=-eq-ok (require (is_sortable modes) type_error) _ h17 in
      let (p0, none_elsewhere) =
        (and-eq-true _ _).0 (ap (λ g. g.passed) (ok-injective h19) ∙ passed) in
      let (p1, listed_mode) = (and-eq-true _ _).0 p0 in
      let (p2, bound) = (and-eq-true _ _).0 p1 in
      let (named, owned) = (and-eq-true _ _).0 p2 in
      (
        record {
          name = >>=-ok _ h0 ∙ (h2 ∙ ap ok (is_text-true name claim_name named));
          own = own;
          own_lem = >>=-ok _ h0 ∙ h4;
          in_namespace = is_none_or-true own namespace owned;
          phase = >>=-ok _ h6 ∙ (h8 ∙ ap ok (is_text-true phase "Bound" bound));
        },
        foreign_mounts-nil claim_name target_node pods
            (h16 ∙ ap ok (is_empty-nil mounts none_elsewhere)),
      )
