-- ===== src/Capacity/Active.antt =====
-- hack/arena-sc-horizontal-scale-preflight.py: what `is_active` and the comparisons with texts say of a value.
use text.Mathlib.TextEquality.{eq_iff}
use text.Mathlib.TextPositions.{eq_refl}
use llm_d_sc_benchmark.Prelude.{
  ◌≡◌, ◌≢◌, refl, sym, ap, ◌∙◌, String, Bool, true, false, not, Option, none, some, List, [], ◌∷◌,
  ok, ◌>>=◌, ◌⊎◌, inl, inr, any, All, Bool-cases, >>=-eq-ok, >>=-ok, ok-injective, require,
}
use llm_d_sc_benchmark.Prelude.Json.{Json, null, bool, int, float, str, arr, obj}
use llm_d_sc_benchmark.Capacity.Quantities.{type_error}
use llm_d_sc_benchmark.Capacity.Snapshot.{
  child, lookup, is_none, is_text, is_hashable, is_in, is_none_or, is_active,
}

pub true-ne-false : true ≢ false
true-ne-false = λ h. cc

not-eq : (t b : Bool) → not t ≡ b → t ≡ not b
not-eq true b h = ap not h
not-eq false b h = ap not h

-- One of the texts has the property.
abbrev pub Some : (String → Type 0) → List String → Type 0
Some P [] = ⊥
Some P (x ∷ xs) = P x ⊎ Some P xs

module _ {F : Type 0} where
  -- The key is missing, or its value is null.
  abbrev pub IsMissing : Option (Json F) → Type 0
  IsMissing value = (value ≡ none) ⊎ (value ≡ some null)

  pub is_none-true : (value : Option (Json F)) → is_none value ≡ true → IsMissing value
  unfolding is_none
  is_none-true none h = inl refl
  is_none-true (some null) h = inr refl
  is_none-true (some (bool b)) h = cc
  is_none-true (some (int n)) h = cc
  is_none-true (some (float x)) h = cc
  is_none-true (some (str s)) h = cc
  is_none-true (some (arr values)) h = cc
  is_none-true (some (obj fields)) h = cc

  is_none-false :
      (value : Option (Json F))
      → is_none value ≡ false
      → (v : Json F) × (value ≡ some v) × (v ≢ null)
  unfolding is_none
  is_none-false none h = cc
  is_none-false (some null) h = cc
  is_none-false (some (bool b)) h = (bool b, refl, λ e. cc)
  is_none-false (some (int n)) h = (int n, refl, λ e. cc)
  is_none-false (some (float x)) h = (float x, refl, λ e. cc)
  is_none-false (some (str s)) h = (str s, refl, λ e. cc)
  is_none-false (some (arr values)) h = (arr values, refl, λ e. cc)
  is_none-false (some (obj fields)) h = (obj fields, refl, λ e. cc)

  pub is_text-true :
      (value : Option (Json F)) (text : String)
      → is_text value text ≡ true
      → value ≡ some (str text)
  unfolding is_text
  is_text-true none text h = cc
  is_text-true (some null) text h = cc
  is_text-true (some (bool b)) text h = cc
  is_text-true (some (int n)) text h = cc
  is_text-true (some (float x)) text h = cc
  is_text-true (some (str s)) text h = ap (λ t. some (str t)) ((eq_iff s text).0 h)
  is_text-true (some (arr values)) text h = cc
  is_text-true (some (obj fields)) text h = cc

  pub is_text-false :
      (value : Option (Json F)) (text : String)
      → is_text value text ≡ false
      → value ≢ some (str text)
  unfolding is_text
  is_text-false value text h e =
      true-ne-false (sym (eq_refl text) ∙ (sym (ap (λ v. is_text v text) e) ∙ h))

  -- The value is missing, or it is the text.
  abbrev pub IsMissingOr : Option (Json F) → String → Type 0
  IsMissingOr value text = IsMissing value ⊎ (value ≡ some (str text))

  pub is_none_or-true :
      (value : Option (Json F)) (text : String)
      → is_none_or value text ≡ true
      → IsMissingOr value text
  unfolding is_none_or
  is_none_or-true value text h = elim (Bool-cases (is_none value)) [
    | inl e ↦ inl (is_none-true value e)
    | inr e ↦ inr (is_text-true value text (rw e at h))
  ]

  any-Some :
      (value : Option (Json F)) (texts : List String)
      → any (is_text value) texts ≡ true
      → Some (λ t. value ≡ some (str t)) texts
  any-Some value [] h = cc
  any-Some value (t ∷ texts) h = elim (Bool-cases (is_text value t)) [
    | inl e ↦ inl (is_text-true value t e)
    | inr e ↦ inr (any-Some value texts (rw e at h))
  ]

  any-All :
      (value : Option (Json F)) (texts : List String)
      → any (is_text value) texts ≡ false
      → All (λ t. value ≢ some (str t)) texts
  any-All value [] h = tt
  any-All value (t ∷ texts) h = elim (Bool-cases (is_text value t)) [
    | inl e ↦ absurd (true-ne-false (rw e at h))
    | inr e ↦ (is_text-false value t e, any-All value texts (rw e at h))
  ]

  is_in-any :
      (value : Option (Json F)) (texts : List String) (b : Bool)
      → is_in value texts ≡ ok b
      → any (is_text value) texts ≡ b
  unfolding is_in
  is_in-any value texts b h =
      let (u, h0, h1) = >>=-eq-ok (require (is_hashable value) type_error) _ h in ok-injective h1

  pub is_in-Some :
      (value : Option (Json F)) (texts : List String)
      → is_in value texts ≡ ok true
      → Some (λ t. value ≡ some (str t)) texts
  is_in-Some value texts h = any-Some value texts (is_in-any value texts true h)

  pub is_in-All :
      (value : Option (Json F)) (texts : List String)
      → is_in value texts ≡ ok false
      → All (λ t. value ≢ some (str t)) texts
  is_in-All value texts h = any-All value texts (is_in-any value texts false h)

  -- The value of a key in a part of an object.
  abbrev pub HasValue : Json F → String → String → Option (Json F) → Type 0
  HasValue value part key found = (child value part >>= λ v. lookup v key) ≡ ok found

  -- The pod is not being deleted and has not ended.
  pub record IsActive (pod : Json F) : Type 0 where
    pub deletion : Option (Json F)
    pub deletion_lem : HasValue pod "metadata" "deletionTimestamp" deletion
    pub kept : IsMissing deletion
    pub phase : Option (Json F)
    pub phase_lem : HasValue pod "status" "phase" phase
    pub going : All (λ t. phase ≢ some (str t)) ("Succeeded" ∷ "Failed" ∷ [])

  -- The pod is being deleted, or has ended.
  abbrev pub IsFinished : Json F → Type 0
  IsFinished pod =
      ((stamp : Json F) × HasValue pod "metadata" "deletionTimestamp" (some stamp) × (stamp ≢ null))
      ⊎ ((phase : Option (Json F)) × HasValue pod "status" "phase" phase
          × Some (λ t. phase ≡ some (str t)) ("Succeeded" ∷ "Failed" ∷ []))

  phase_of :
      (pod : Json F) (b : Bool)
      → ((child pod "status" >>= λ s.
            (lookup s "phase" >>= λ p. is_in p ("Succeeded" ∷ "Failed" ∷ [])))
          >>= λ t. ok (not t))
        ≡ ok b
      → (phase : Option (Json F)) × HasValue pod "status" "phase" phase
        × (is_in phase ("Succeeded" ∷ "Failed" ∷ []) ≡ ok (not b))
  phase_of pod b h =
      let (t, h0, h1) = >>=-eq-ok _ (λ t. ok (not t)) h in
      let (status, h2, h3) = >>=-eq-ok (child pod "status") _ h0 in
      let (phase, h4, h5) = >>=-eq-ok (lookup status "phase") _ h3 in
      (phase, >>=-ok _ h2 ∙ h4, h5 ∙ ap ok (not-eq t b (ok-injective h1)))

  pub is_active-true : (pod : Json F) → is_active pod ≡ ok true → IsActive pod
  unfolding is_active
  is_active-true pod h =
      let (metadata, h0, h1) = >>=-eq-ok (child pod "metadata") _ h in
      let (deletion, h2, h3) = >>=-eq-ok (lookup metadata "deletionTimestamp") _ h1 in
      elim (Bool-cases (is_none deletion)) [
        | inl e ↦
            let (phase, read, listed) = phase_of pod true (rw e at h3) in
            record {
              deletion = deletion;
              deletion_lem = >>=-ok _ h0 ∙ h2;
              kept = is_none-true deletion e;
              phase = phase;
              phase_lem = read;
              going = is_in-All phase ("Succeeded" ∷ "Failed" ∷ []) listed;
            }
        | inr e ↦ absurd (true-ne-false (sym (ok-injective (rw e at h3))))
      ]

  pub is_active-false : (pod : Json F) → is_active pod ≡ ok false → IsFinished pod
  unfolding is_active
  is_active-false pod h =
      let (metadata, h0, h1) = >>=-eq-ok (child pod "metadata") _ h in
      let (deletion, h2, h3) = >>=-eq-ok (lookup metadata "deletionTimestamp") _ h1 in
      elim (Bool-cases (is_none deletion)) [
        | inl e ↦
            let (phase, read, listed) = phase_of pod false (rw e at h3) in
            inr (phase, read, is_in-Some phase ("Succeeded" ∷ "Failed" ∷ []) listed)
        | inr e ↦
            let (stamp, same, set) = is_none-false deletion e in
            inl (stamp, >>=-ok _ h0 ∙ (h2 ∙ ap ok same), set)
      ]
