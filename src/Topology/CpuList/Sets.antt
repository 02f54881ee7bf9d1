-- ===== src/Topology/CpuList/Sets.antt =====
-- Sets of numbers as ascending lists: `set.update`, and its effect on numbers that lie above.
use llm_d_sc_benchmark.Prelude.{
  ℕ, zero, suc, ◌+◌, ◌≤◌, ◌<◌, ◌≡◌, refl, ap, ◌∙◌, List, [], ◌∷◌, ◌++◌, append_assoc, append-nil,
  arith, ltb, ◌==◌, if◌then◌else◌, range_from, All, All-append, All-map,
}

unfoldable pub insert : ℕ → List ℕ → List ℕ
insert a [] = a ∷ []
insert a (b ∷ bs) = if ltb a b then a ∷ b ∷ bs else (if a == b then b ∷ bs else b ∷ insert a bs)

unfoldable pub insert_all : List ℕ → List ℕ → List ℕ
insert_all [] set = set
insert_all (a ∷ as') set = insert_all as' (insert a set)

-- Ascending, from `lo` on.
abbrev pub IsSorted : ℕ → List ℕ → Type 0
IsSorted lo [] = Unit
IsSorted lo (a ∷ rest) = (lo ≤ a) × IsSorted (suc a) rest

abbrev pub Below : ℕ → List ℕ → Type 0
Below hi = All (λ a. a < hi)

pub Below-mono : (lo hi : ℕ) (s : List ℕ) → lo ≤ hi → Below lo s → Below hi s
Below-mono lo hi s h = All-map (λ a. a < lo) (λ a. a < hi) (λ a lt. omega arith) s

insert-above : (a : ℕ) (s : List ℕ) → Below a s → insert a s ≡ s ++ a ∷ []
unfolding insert
insert-above a [] h = refl
insert-above a (b ∷ s) (h, hs) = ground (arith, insert-above a s hs)

-- A range above the set comes behind it.
pub insert_all-range :
    (n lo : ℕ) (s : List ℕ) → Below lo s → insert_all (range_from lo n) s ≡ s ++ range_from lo n
unfolding insert_all
insert_all-range zero lo s h = rw (append-nil s)
insert_all-range (suc n) lo s h =
    ap (insert_all (range_from (suc lo) n)) (insert-above lo s h)
    ∙ (insert_all-range n (suc lo) (s ++ lo ∷ []) (
          All-append (λ a. a < suc lo) s (lo ∷ []) (Below-mono lo (suc lo) s (omega arith) h)
            (omega arith))
        ∙ append_assoc s (lo ∷ []) (range_from (suc lo) n))

pub range_from-snoc : (lo n : ℕ) → range_from lo (suc n) ≡ range_from lo n ++ (lo + n) ∷ []
range_from-snoc lo zero = ground arith
range_from-snoc lo (suc n) = ground (arith, range_from-snoc (suc lo) n)

pub Below-range_from : (lo n hi : ℕ) → lo + n ≤ hi → Below hi (range_from lo n)
Below-range_from lo zero hi h = tt
Below-range_from lo (suc n) hi h = (omega arith, Below-range_from (suc lo) n hi (omega arith))
