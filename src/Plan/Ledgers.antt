-- ===== src/Plan/Ledgers.antt =====
-- hack/arena-sc-horizontal-scale-plan.py: `assert_no_overlap`, the test of a new reservation against
-- every ledger that exists. The ledger files under the root are the argument `files`: each with its
-- resolved path and what reading it gives.
use llm_d_sc_benchmark.Prelude.{
  ℕ, Bool, ◌&&◌, List, [], ◌∷◌, ℤ, pos, ltb_ℤ, Result, ok, err, if◌then◌else◌, ◌++◌,
}
use llm_d_sc_benchmark.Prelude.Decimal.{Text, text_eq}
use llm_d_sc_benchmark.Plan.Types.{Ledger}

-- The interval of a ledger's reservation, or one of the exceptions that the loop catches.
pub data Reading : Type 0 where
  readable : ℤ → ℤ → Reading
  unreadable : Reading

pub record LedgerFile : Type 0 where
  pub path : Text
  pub reading : Reading

pub data Conflict : Type 0 where
  unreadable_reservation : Text → Conflict
  overlap : Text → ℤ → ℤ → Conflict

-- `start < other_end and other_start < end`
unfoldable pub meets : ℕ → ℕ → ℤ → ℤ → Bool
meets start end other_start other_end = ltb_ℤ (pos start) other_end && ltb_ℤ other_start (pos end)

-- What the loop's body appends for one file.
unfoldable pub conflict_of : Text → ℕ → ℕ → LedgerFile → List Conflict
unfolding meets
conflict_of own_path start end file = if text_eq file.path own_path then [] else elim file.reading [
  | unreadable ↦ unreadable_reservation file.path ∷ []
  | readable other_start other_end ↦
      if meets start end other_start other_end
      then overlap file.path other_start other_end ∷ []
      else []
]

unfoldable pub conflicts : Text → ℕ → ℕ → List LedgerFile → List Conflict
conflicts own_path start end [] = []
conflicts own_path start end (file ∷ files) =
    conflict_of own_path start end file ++ conflicts own_path start end files

-- `raise ValueError` with the conflicts, if there are any
unfoldable pub assert_no_overlap :
    Ledger → List LedgerFile → Text → Result (List Conflict) (Unit {0})
assert_no_overlap ledger files own_path =
    elim (conflicts own_path ledger.reservation.start_inclusive ledger.reservation.end_exclusive
      files) [ [] ↦ ok tt | c ∷ cs ↦ err (c ∷ cs) ]
