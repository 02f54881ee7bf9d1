-- ===== src/Capacity/Room.antt =====
-- hack/arena-sc-horizontal-scale-preflight.py: a remainder that is not negative leaves room for the addition.
use llm_d_sc_benchmark.Prelude.{ℕ, ◌≡◌, true, ℤ, pos, ◌+ℤ◌, ◌-ℤ◌, ◌≤ℤ◌, leb_ℤ, arith}

pub remaining-room :
    (hard used : ℤ) (addition : ℕ)
    → leb_ℤ (pos 0) (hard -ℤ used -ℤ pos addition) ≡ true
    → (used +ℤ pos addition) ≤ℤ hard
remaining-room hard used addition h = ground arith
