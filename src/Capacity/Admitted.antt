-- ===== src/Capacity/Admitted.antt =====
-- hack/arena-sc-horizontal-scale-preflight.py: what the rows of the quotas that passed say of the snapshot.
use llm_d_sc_benchmark.Prelude.{
  ℕ, ◌≡◌, ◌≢◌, ap, ◌∙◌, String, true, false, not, Option, List, [], ◌∷◌, ℤ, pos, ◌+ℤ◌, ◌≤ℤ◌, ok,
  ◌>>=◌, all, All, Bool-cases, inl, inr, >>=-eq-ok, >>=-ok, ok-injective, and-eq-true,
}
use llm_d_sc_benchmark.Prelude.Decimal.{Text}
use llm_d_sc_benchmark.Prelude.Json.{Json}
use llm_d_sc_benchmark.Prelude.Floats.{Floats}
use llm_d_sc_benchmark.Capacity.Snapshot.{child, lookup}
use llm_d_sc_benchmark.Capacity.Quota.{
  ResourceRow, QuotaRow, is_empty, limited_row, check_set, has_name, required_quota_additions,
  resource_value, resource_row, resource_rows, quota_row, quota_rows,
}
use llm_d_sc_benchmark.Capacity.Room.{remaining-room}

false-ne-true : false ≢ true
false-ne-true = λ h. cc

module _ {F : Type 0} ⦃fl : Floats F⦄ (repr : F → Text) (parse_float : Text → Option F) where
  -- The hard limit of a resource leaves room for the addition.
  pub record HasLimit (hard used : Json F) (name : String) (addition : ℕ) : Type 0 where
    pub present : has_name hard name ≡ true
    pub hard_value : ℤ
    pub used_value : ℤ
    pub hard_lem : resource_value repr parse_float hard name ≡ ok hard_value
    pub used_lem : resource_value repr parse_float used name ≡ ok used_value
    pub room : (used_value +ℤ pos addition) ≤ℤ hard_value

  -- A quota leaves room for all that a rung adds.
  pub record Admits (replicas : ℕ) (quota : Json F) : Type 0 where
    pub hard : Json F
    pub used : Json F
    pub hard_lem : (child quota "status" >>= λ s. child s "hard") ≡ ok hard
    pub used_lem : (child quota "status" >>= λ s. child s "used") ≡ ok used
    pub limits : All (λ e. HasLimit hard used e.0 e.1) (required_quota_additions replicas)

  resource_row-HasLimit :
      (hard used : Json F) (name : String) (addition : ℕ) (row : ResourceRow)
      → resource_row repr parse_float hard used name addition ≡ ok row
      → row.passed ≡ true
      → HasLimit hard used name addition
  unfolding resource_row limited_row
  resource_row-HasLimit hard used name addition row h passed =
      elim (Bool-cases (has_name hard name)) [
        | inl present ↦
            let h' = rw (present, resource_row) at h in
            let (hard_value, h0, h1) = >>=-eq-ok (resource_value repr parse_float hard name) _ h' in
            let (used_value, h2, h3) = >>=-eq-ok (resource_value repr parse_float used name) _ h1 in
            record {
              present = present;
              hard_value = hard_value;
              used_value = used_value;
              hard_lem = h0;
              used_lem = h2;
              room =
                  remaining-room hard_value used_value addition
                    (ap (λ r. r.passed) (ok-injective h3) ∙ passed);
            }
        | inr absent ↦ absurd (
            false-ne-true
              (ap (λ r. r.passed) (ok-injective (rw (absent, resource_row) at h)) ∙ passed))
      ]

  resource_rows-All :
      (hard used : Json F) (additions : List (String × ℕ)) (rows : List ResourceRow)
      → resource_rows repr parse_float hard used additions ≡ ok rows
      → all (λ r. r.passed) rows ≡ true
      → All (λ e. HasLimit hard used e.0 e.1) additions
  unfolding resource_rows
  resource_rows-All hard used [] rows h passed = tt
  resource_rows-All hard used ((name, addition) ∷ rest) rows h passed =
      let (row, h0, h1) = >>=-eq-ok (resource_row repr parse_float hard used name addition) _ h in
      let (others, h2, h3) = >>=-eq-ok (resource_rows repr parse_float hard used rest) _ h1 in
      let p = ap (all (λ r. r.passed)) (ok-injective h3) ∙ passed in
      let (here, later) = (and-eq-true _ _).0 p in
      (
        resource_row-HasLimit hard used name addition row h0 here,
        resource_rows-All hard used rest others h2 later,
      )

  quota_row-Admits :
      (replicas : ℕ) (quota : Json F) (row : QuotaRow F)
      → quota_row repr parse_float replicas quota ≡ ok row
      → row.passed ≡ true
      → Admits replicas quota
  unfolding quota_row
  quota_row-Admits replicas quota row h passed =
      let (status, h0, h1) = >>=-eq-ok (child quota "status") _ h in
      let (hard, h2, h3) = >>=-eq-ok (child status "hard") _ h1 in
      let (status', h4, h5) = >>=-eq-ok (child quota "status") _ h3 in
      let (used, h6, h7) = >>=-eq-ok (child status' "used") _ h5 in
      let (set, h8, h9) = >>=-eq-ok (check_set hard) _ h7 in
      let (resources, h10, h11) =
        >>=-eq-ok (resource_rows repr parse_float hard used (required_quota_additions replicas)) _
          h9 in
      let (metadata, h12, h13) = >>=-eq-ok (child quota "metadata") _ h11 in
      let (name, h14, h15) = >>=-eq-ok (lookup metadata "name") _ h13 in
      let p = ap (λ r. r.passed) (ok-injective h15) ∙ passed in
      record {
        hard = hard;
        used = used;
        hard_lem = >>=-ok _ h0 ∙ h2;
        used_lem = >>=-ok _ h4 ∙ h6;
        limits =
            resource_rows-All hard used (required_quota_additions replicas) resources h10
              ((and-eq-true _ _).0 p).1;
      }

  pub quota_rows-All :
      (replicas : ℕ) (quotas : List (Json F)) (rows : List (QuotaRow F))
      → quota_rows repr parse_float replicas quotas ≡ ok rows
      → all (λ r. r.passed) rows ≡ true
      → All (Admits replicas) quotas
  unfolding quota_rows
  quota_rows-All replicas [] rows h passed = tt
  quota_rows-All replicas (quota ∷ quotas) rows h passed =
      let (row, h0, h1) = >>=-eq-ok (quota_row repr parse_float replicas quota) _ h in
      let (others, h2, h3) = >>=-eq-ok (quota_rows repr parse_float replicas quotas) _ h1 in
      let p = ap (all (λ r. r.passed)) (ok-injective h3) ∙ passed in
      let (here, later) = (and-eq-true _ _).0 p in
      (quota_row-Admits replicas quota row h0 here, quota_rows-All replicas quotas others h2 later)

  pub quota_rows-ne-nil :
      (replicas : ℕ) (quotas : List (Json F)) (rows : List (QuotaRow F))
      → quota_rows repr parse_float replicas quotas ≡ ok rows
      → not (is_empty rows) ≡ true
      → quotas ≢ []
  unfolding quota_rows is_empty
  quota_rows-ne-nil replicas [] rows h filled none_left =
      false-ne-true (ap (λ r. not (is_empty r)) (ok-injective h) ∙ filled)
  quota_rows-ne-nil replicas (quota ∷ quotas) rows h filled none_left = cc
