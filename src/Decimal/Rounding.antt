-- ===== src/Decimal/Rounding.antt =====
-- The rounding to 28 digits: what it leaves alone, and the fuel of `excess`.
use native.Mathlib.Nat.{pow-succ', div-div-eq-div-mul}
use paper_live.Base.{ℕ, suc, zero, ◌/◌, ◌^◌, ◌≤◌, ◌<◌, ◌≡◌, refl, inl, inr, ltb, arith, Bool-cases}
use paper_live.Decimal.{excess, round_half_even, fit, precision}

-- Below 10^28 nothing is dropped.
excess_small : (fuel n : ℕ) → n < precision → excess fuel n ≡ 0
unfolding excess
excess_small zero n h = refl
excess_small (suc fuel) n h = ground arith

pub round_half_even_one : (n : ℕ) → round_half_even n 1 ≡ n
unfolding round_half_even
round_half_even_one n = ground arith

-- A coefficient of at most 28 digits is not rounded.
pub fit_small : (n : ℕ) → n < precision → fit n 1 ≡ n
unfolding fit
fit_small n h =
    rw (excess_small (n / 1) (n / 1) (omega arith)) (omega (arith, round_half_even_one n))

-- The fuel is enough: at most 28 digits are left.
pub excess_enough : (fuel n : ℕ) → n ≤ fuel → n / 10 ^ excess fuel n < precision
unfolding excess
excess_enough zero n h = ground arith
excess_enough (suc fuel) n h = elim (Bool-cases (ltb n precision)) [
  | inl small ↦ rw (small, excess) (ground arith)
  | inr large ↦
      rw (large, excess)
        (rw (pow-succ', ← div-div-eq-div-mul) (excess_enough fuel (n / 10) (omega arith)))
]
