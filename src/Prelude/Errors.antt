-- ===== src/Prelude/Errors.antt =====
-- Exceptions as values: `raise` is `err`, and a `do` block stops at the first one.
use mathlib.Core.Path.{◌≡◌, refl}
use mathlib.Core.Bool.{Bool, true, false}

pub data Result {ℓ} (Exception : Type 0) (Value : Type ℓ) : Type ℓ where
  err : Exception → Result Exception Value
  ok : Value → Result Exception Value

-- `if not condition: raise exception`
abbrev pub require : {Exception : Type 0} → Bool → Exception → Result Exception (Unit {0})
require false exception = err exception
require true exception = ok tt

module _ {ℓ κ} {Exception : Type 0} {Value : Type κ} where
  infixl 5 ◌>>=◌
  abbrev pub ◌>>=◌ :
      {First : Type ℓ}
      → Result Exception First
      → (First → Result Exception Value)
      → Result Exception Value
  err exception >>= next = err exception
  ok value >>= next = next value

module _ {ℓ} {Exception : Type 0} {Value : Type ℓ} where
  infixl 5 ◌>>◌
  abbrev pub ◌>>◌ : Result Exception (Unit {0}) → Result Exception Value → Result Exception Value
  check >> next = check >>= λ done. next

pub ok-injective {ℓ} :
    {E : Type 0} {A : Type ℓ} {a b : A} → ◌≡◌ {A = Result E A} (ok a) (ok b) → a ≡ b
ok-injective h = cc

pub >>=-eq-ok {ℓ κ} :
    {Exception : Type 0} {First : Type ℓ} {Value : Type κ} (first : Result Exception First)
    (next : First → Result Exception Value) {value : Value}
    → (first >>= next) ≡ ok value
    → (middle : First) × (first ≡ ok middle) × (next middle ≡ ok value)
>>=-eq-ok (err exception) next returned = cc
>>=-eq-ok (ok middle) next returned = (middle, refl, returned)

-- A computation whose first part returned goes on with the value.
pub >>=-ok {ℓ κ} :
    {Exception : Type 0} {First : Type ℓ} {Value : Type κ} {first : Result Exception First}
    (next : First → Result Exception Value) {middle : First}
    → first ≡ ok middle
    → (first >>= next) ≡ next middle
>>=-ok next h = rw h refl

-- A computation whose first part raised has raised.
pub >>=-err {ℓ κ} :
    {Exception : Type 0} {First : Type ℓ} {Value : Type κ} {first : Result Exception First}
    (next : First → Result Exception Value) {exception : Exception}
    → first ≡ err exception
    → (first >>= next) ≡ err exception
>>=-err next h = rw h refl

pub require_ok : {E : Type 0} (b : Bool) (e : E) {u : Unit {0}} → require b e ≡ ok u → b ≡ true
require_ok true e h = refl
require_ok false e h = cc

-- A computation that returns goes on by a pure function.
pub >>=-total {ℓ κ} :
    {Exception : Type 0} {First : Type ℓ} {Value : Type κ} (first : Result Exception First)
    (next : First → Value) {middle : First}
    → first ≡ ok middle
    → (value : Value) × ((first >>= λ x. ok (next x)) ≡ ok value)
>>=-total first next {middle} h = (next middle, rw h refl)
