-- ===== src/Prelude/Int.antt =====
-- Python's integers where they may be negative, over two native numbers.
use Prim.Native.Nat.{ℕ, suc, ◌+◌, ◌-◌, ◌≤◌, ◌<◌}
use mathlib.Core.Path.{◌≡◌}
use mathlib.Core.Bool.{Bool, true}
use mathlib.Core.List.{List, [], ◌∷◌}
use native.Mathlib.Omega.{arith}
use llm_d_sc_benchmark.Prelude.Tests.{ltb, leb, ◌==◌, if◌then◌else◌}
use llm_d_sc_benchmark.Prelude.Lists.{All}

-- `negsuc n` is -(n + 1).
pub data ℤ : Type 0 where
  pos : ℕ → ℤ
  negsuc : ℕ → ℤ

abbrev pub pos_part : ℤ → ℕ
pos_part (pos n) = n
pos_part (negsuc n) = 0

abbrev pub neg_part : ℤ → ℕ
neg_part (pos n) = 0
neg_part (negsuc n) = suc n

-- a - b, as an integer
abbrev pub sub_ℕ : ℕ → ℕ → ℤ
sub_ℕ a b = if leb b a then pos (a - b) else negsuc (b - a - 1)

infixl 65 ◌+ℤ◌ ◌-ℤ◌
infix 50 ◌<ℤ◌ ◌≤ℤ◌
abbrev pub ◌+ℤ◌ : ℤ → ℤ → ℤ
a +ℤ b = sub_ℕ (pos_part a + pos_part b) (neg_part a + neg_part b)

abbrev pub ◌-ℤ◌ : ℤ → ℤ → ℤ
a -ℤ b = sub_ℕ (pos_part a + neg_part b) (neg_part a + pos_part b)

abbrev pub ◌<ℤ◌ : ℤ → ℤ → Type 0
a <ℤ b = pos_part a + neg_part b < pos_part b + neg_part a

abbrev pub ◌≤ℤ◌ : ℤ → ℤ → Type 0
a ≤ℤ b = pos_part a + neg_part b ≤ pos_part b + neg_part a

abbrev pub ltb_ℤ : ℤ → ℤ → Bool
ltb_ℤ a b = ltb (pos_part a + neg_part b) (pos_part b + neg_part a)

abbrev pub leb_ℤ : ℤ → ℤ → Bool
leb_ℤ a b = leb (pos_part a + neg_part b) (pos_part b + neg_part a)

infix 50 ◌==ℤ◌
abbrev pub ◌==ℤ◌ : ℤ → ℤ → Bool
a ==ℤ b = pos_part a + neg_part b == pos_part b + neg_part a

abbrev pub sum_ℤ : List ℤ → ℤ
sum_ℤ [] = pos 0
sum_ℤ (x ∷ xs) = x +ℤ sum_ℤ xs

-- `max(x, 0)`
abbrev pub max_zero : ℤ → ℤ
max_zero x = pos (pos_part x)

pub sum_ℤ-nonneg : (xs : List ℤ) → All (λ x. pos 0 ≤ℤ x) xs → pos 0 ≤ℤ sum_ℤ xs
sum_ℤ-nonneg [] h = omega arith
sum_ℤ-nonneg (x ∷ xs) (here, later) = let rest = sum_ℤ-nonneg xs later in ground arith

-- Numbers that are not negative and sum to zero are all zero.
pub sum_ℤ-zero :
    (xs : List ℤ)
    → All (λ x. pos 0 ≤ℤ x) xs
    → (sum_ℤ xs ==ℤ pos 0) ≡ true
    → All (λ x. x ≤ℤ pos 0) xs
sum_ℤ-zero [] h zero_sum = tt
sum_ℤ-zero (x ∷ xs) (here, later) zero_sum =
    let rest = sum_ℤ-nonneg xs later in ((ground arith), sum_ℤ-zero xs later (ground arith))
