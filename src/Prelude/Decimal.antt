-- ===== src/Prelude/Decimal.antt =====
-- Texts as lists of code points, and `str` of a number in base ten.
use Prim.Native.Nat.{ℕ, zero, suc, ◌+◌, ◌-◌, ◌*◌, ◌/◌, ◌%◌, ◌≤◌, ◌<◌}
use Prim.Native.Char.{code}
use Prim.Native.String.{String}
use mathlib.Core.Path.{◌≡◌, refl}
use mathlib.Core.Logic.{◌≢◌}
use mathlib.Core.Bool.{true, false, Bool, ◌&&◌, ◌||◌}
use mathlib.Core.List.{List, [], ◌∷◌, ◌++◌, concat-ne-nil}
use native.Mathlib.Decide.{dec_lt}
use native.Mathlib.Omega.{arith}
use llm_d_sc_benchmark.Prelude.Tests.{ltb, leb, ◌==◌, if◌then◌else◌}
use llm_d_sc_benchmark.Prelude.Lists.{All, All-append}

abbrev pub Text : Type 0
Text = List ℕ

-- the code points of a literal
abbrev pub codes : String → Text
codes String.[] = []
codes (String.◌∷◌ c s) = code c ∷ codes s

abbrev pub is_digit : ℕ → Bool
is_digit c = leb b'0' c && leb c b'9'

abbrev pub IsDigit : ℕ → Type 0
IsDigit c = (b'0' ≤ c) × (c ≤ b'9')

-- The digits of `n`; fuel above `n` is enough, since each round divides by ten.
print : ℕ → ℕ → Text
print zero n = []
print (suc fuel) n = elim (ltb n 10) [
  | true ↦ (b'0' + n) ∷ []
  | false ↦ print fuel (n / 10) ++ (b'0' + n % 10) ∷ []
]

-- `str(n)`
unfoldable pub decimal : ℕ → Text
unfolding print
decimal n = print (suc n) n

-- `f"{n:02d}"`
unfoldable pub pad2 : ℕ → Text
unfolding decimal
pad2 n = if ltb n 10 then b'0' ∷ decimal n else decimal n

-- `int(text)` of digits
abbrev pub value_from : ℕ → Text → ℕ
value_from n [] = n
value_from n (c ∷ s) = value_from (n * 10 + (c - b'0')) s

pub value_from-append : (n : ℕ) (s t : Text) → value_from n (s ++ t) ≡ value_from (value_from n s) t
value_from-append n [] t = refl
value_from-append n (c ∷ s) t = value_from-append (n * 10 + (c - b'0')) s t

print_small : (fuel n : ℕ) → n < 10 → print (suc fuel) n ≡ (b'0' + n) ∷ []
unfolding print
print_small fuel n h = ground arith

print_large :
    (fuel n : ℕ) → 10 ≤ n → print (suc fuel) n ≡ print fuel (n / 10) ++ (b'0' + n % 10) ∷ []
unfolding print
print_large fuel n h = ground arith

value_from-print : (fuel n : ℕ) → n < fuel → value_from 0 (print fuel n) ≡ n
value_from-print zero n h = absurd (omega arith)
value_from-print (suc fuel) n h = elim (dec_lt n 10) [
  | yes small ↦ rw (print_small fuel n small) (omega arith)
  | no large ↦
      rw (print_large fuel n (omega arith), value_from-append 0 (print fuel (n / 10)))
        (rw (value_from-print fuel (n / 10) (omega arith)) (omega arith))
]

All-IsDigit-print : (fuel n : ℕ) → All IsDigit (print fuel n)
unfolding print
All-IsDigit-print zero n = tt
All-IsDigit-print (suc fuel) n = elim (dec_lt n 10) [
  | yes small ↦ rw (print_small fuel n small) (omega arith)
  | no large ↦
      rw (print_large fuel n (omega arith))
        (All-append IsDigit (print fuel (n / 10)) _ (All-IsDigit-print fuel (n / 10)) (omega arith))
]

-- `int(str(n)) == n`
pub value_from-decimal : (n : ℕ) → value_from 0 (decimal n) ≡ n
unfolding decimal
value_from-decimal n = value_from-print (suc n) n (omega arith)

pub All-IsDigit-decimal : (n : ℕ) → All IsDigit (decimal n)
unfolding decimal
All-IsDigit-decimal n = All-IsDigit-print (suc n) n

pub decimal-ne-nil : (n : ℕ) → decimal n ≢ []
unfolding decimal
decimal-ne-nil n = elim (dec_lt n 10) [
  | yes small ↦ rw (print_small n n small) (λ h. cc)
  | no large ↦ rw (print_large n n (omega arith)) (concat-ne-nil _ _)
]

decimal_two : (n : ℕ) → 10 ≤ n → n < 100 → decimal n ≡ (b'0' + n / 10) ∷ (b'0' + n % 10) ∷ []
unfolding decimal
decimal_two zero l h = absurd (omega arith)
decimal_two (suc n) l h =
    rw (print_large (suc n) (suc n) l, print_small n (suc n / 10) (omega arith)) refl

-- Below a hundred the padded print has two digits.
pub pad2_lem : (n : ℕ) → n < 100 → pad2 n ≡ (b'0' + n / 10) ∷ (b'0' + n % 10) ∷ []
unfolding pad2
pad2_lem n h = elim (dec_lt n 10) [
  | yes small ↦ ground (arith, print_small n n small)
  | no large ↦ ground (arith, decimal_two n)
]

-- `==` on texts
unfoldable pub text_eq : Text → Text → Bool
text_eq [] [] = true
text_eq [] (d ∷ t) = false
text_eq (c ∷ s) [] = false
text_eq (c ∷ s) (d ∷ t) = c == d && text_eq s t

pub text_eq_sound : (s t : Text) → text_eq s t ≡ true → s ≡ t
unfolding text_eq
text_eq_sound [] [] h = refl
text_eq_sound [] (d ∷ t) h = cc
text_eq_sound (c ∷ s) [] h = cc
text_eq_sound (c ∷ s) (d ∷ t) h = ground (arith, text_eq_sound s t)

pub text_eq_refl : (s : Text) → text_eq s s ≡ true
unfolding text_eq
text_eq_refl [] = refl
text_eq_refl (c ∷ s) = ground (arith, text_eq_refl s)

-- `s <= t` of two strings
unfoldable pub text_le : Text → Text → Bool
text_le [] t = true
text_le (c ∷ s) [] = false
text_le (c ∷ s) (d ∷ t) = ltb c d || c == d && text_le s t
