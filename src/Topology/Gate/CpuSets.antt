-- ===== src/Topology/Gate/CpuSets.antt =====
-- Python's operations on sets of CPUs, which are ascending lists, and on sets of sibling groups.
use llm_d_sc_benchmark.Prelude.{
  ℕ, Bool, true, false, not, List, [], ◌∷◌, ltb, if◌then◌else◌, all, keep, elem,
}
use llm_d_sc_benchmark.Prelude.Decimal.{text_eq}
use llm_d_sc_benchmark.Topology.CpuList.Sets.{insert_all}

-- `s <= t`
unfoldable pub is_subset : List ℕ → List ℕ → Bool
is_subset s t = all (λ a. elem a t) s

-- `s - t`
unfoldable pub minus : List ℕ → List ℕ → List ℕ
minus s t = keep (λ a. not (elem a t)) s

-- `s & t`
unfoldable pub meet : List ℕ → List ℕ → List ℕ
meet s t = keep (λ a. elem a t) s

-- `not s`
unfoldable pub is_empty : {A : Type 0} → List A → Bool
is_empty [] = true
is_empty (a ∷ s) = false

-- `set().union(*sets)`
unfoldable pub union : List (List ℕ) → List ℕ
union [] = []
union (s ∷ sets) = insert_all s (union sets)

-- `min(group)` of a group, which is not empty: its first number
unfoldable pub first_cpu : List ℕ → ℕ
first_cpu [] = 0
first_cpu (a ∷ s) = a

-- `group in groups`
unfoldable pub has_group : List ℕ → List (List ℕ) → Bool
has_group group [] = false
has_group group (g ∷ groups) = if text_eq group g then true else has_group group groups

unfoldable pub insert_group : List ℕ → List (List ℕ) → List (List ℕ)
insert_group group [] = group ∷ []
insert_group group (g ∷ groups) =
    if ltb (first_cpu g) (first_cpu group)
    then g ∷ insert_group group groups
    else group ∷ g ∷ groups

-- `sorted(set(groups), key=min)`
unfoldable pub group_set : List (List ℕ) → List (List ℕ)
group_set [] = []
group_set (g ∷ groups) =
    let rest = group_set groups in if has_group g groups then rest else insert_group g rest
