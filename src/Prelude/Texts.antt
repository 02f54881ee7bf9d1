-- ===== src/Prelude/Texts.antt =====
-- Python's tests of a text for another one, and sorting by a text.
use mathlib.Core.Bool.{Bool, true, false, ◌&&◌, ◌||◌}
use mathlib.Core.List.{List, [], ◌∷◌}
use mathlib.Core.Logic.{inl, inr}
use llm_d_sc_benchmark.Prelude.Tests.{if◌then◌else◌, Bool-cases}
use llm_d_sc_benchmark.Prelude.Lists.{All}
use llm_d_sc_benchmark.Prelude.Decimal.{Text, text_eq, text_le}

-- `s.endswith(t)`
unfoldable pub ends_with : Text → Text → Bool
ends_with [] t = text_eq [] t
ends_with (c ∷ s) t = text_eq (c ∷ s) t || ends_with s t

unfoldable pub starts_with : Text → Text → Bool
starts_with s [] = true
starts_with [] (d ∷ t) = false
starts_with (c ∷ s) (d ∷ t) = text_eq (c ∷ []) (d ∷ []) && starts_with s t

-- `t in s` of two texts
unfoldable pub contains : Text → Text → Bool
contains [] t = starts_with [] t
contains (c ∷ s) t = starts_with (c ∷ s) t || contains s t

module _ {ℓ} {A : Type ℓ} where
  unfoldable pub insert_by : (A → Text) → A → List A → List A
  insert_by f x [] = x ∷ []
  insert_by f x (y ∷ ys) =
      let rest = insert_by f x ys in if text_le (f x) (f y) then x ∷ y ∷ ys else y ∷ rest

  -- `sorted(values, key=f)`, where `f` tells the values apart
  unfoldable pub sort_by : (A → Text) → List A → List A
  sort_by f [] = []
  sort_by f (x ∷ xs) = insert_by f x (sort_by f xs)

  insert_by-All {κ} :
      (P : A → Type κ) (f : A → Text) (x : A) (ys : List A)
      → All P (insert_by f x ys)
      → P x × All P ys
  unfolding insert_by
  insert_by-All P f x [] h = h
  insert_by-All P f x (y ∷ ys) h = elim (Bool-cases (text_le (f x) (f y))) [
    | inl e ↦ rw (e, insert_by) at h
    | inr e ↦
        let h' = rw (e, insert_by) at h in
        let (here, rest) = insert_by-All P f x ys h'.1 in (here, (h'.0, rest))
  ]

  -- What holds of the sorted values holds of the values.
  pub sort_by-All {κ} :
      (P : A → Type κ) (f : A → Text) (xs : List A) → All P (sort_by f xs) → All P xs
  unfolding sort_by
  sort_by-All P f [] h = tt
  sort_by-All P f (x ∷ xs) h =
      let (here, rest) = insert_by-All P f x (sort_by f xs) h in (here, sort_by-All P f xs rest)
