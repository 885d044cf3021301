-- ===== src/Decimal/Monotone.antt =====
-- Rounding to 28 digits keeps the order, so that a part of an amount never rounds above the amount.
use native.Mathlib.Nat.{
  pow-suc, pow-le-pow_right, div-lt_iff_lt-mul, le-div_iff_mul-le, div-mul-le_self, le_trans,
  mul-le-mul_right, mul-div_cancel, div-one, mul_comm, mul-div-mul_right, mul-le-mul,
  div-div-eq-div-mul, div-add-mod,
}
use paper_live.Base.{
  ℕ, suc, zero, ◌+◌, ◌*◌, ◌/◌, ◌%◌, ◌^◌, ◌≤◌, ◌<◌, ◌≡◌, inl, inr, ltb, arith, Bool-cases, ap,
  ltb→lt, ltb→le,
}
use paper_live.Decimal.{excess, round_half_even, fit, precision}
use paper_live.Decimal.Rounding.{excess_enough}

rhe_bounds : (n d : ℕ) → (n / d ≤ round_half_even n d) × (round_half_even n d ≤ n / d + 1)
unfolding round_half_even
rhe_bounds n d = (ground arith, ground arith)

rhe_same_floor :
    (n m d : ℕ) → n / d ≡ m / d → n % d ≤ m % d → round_half_even n d ≤ round_half_even m d
unfolding round_half_even
rhe_same_floor n m d e h = ground arith

div_mono : (n m d : ℕ) → n ≤ m → 0 < d → n / d ≤ m / d
div_mono n m d h p = (le-div_iff_mul-le p).1 (le_trans (div-mul-le_self n d) h)

pub round_half_even_mono : (n m d : ℕ) → n ≤ m → 0 < d → round_half_even n d ≤ round_half_even m d
round_half_even_mono n m d h p = elim (Bool-cases (ltb (n / d) (m / d))) [
  | inl apart ↦ omega (arith, rhe_bounds n d, rhe_bounds m d, ltb→lt (n / d) (m / d) apart)
  | inr same ↦
      let e : n / d ≡ m / d = ground (arith, div_mono n m d h p) in
      rhe_same_floor n m d e
        (omega (arith, div-add-mod n d, div-add-mod m d, ap (λ (t : ℕ). d * t) e))
]

lower_step :
    (e n : ℕ) → precision ≤ n → (0 < e → 10 ^ 27 * 10 ^ e ≤ n / 10) → 10 ^ 27 * 10 ^ suc e ≤ n
lower_step zero n h k = omega arith
lower_step (suc e) n h k = omega (arith, pow-suc 10 (suc e), k (omega arith))

excess_lower : (fuel n : ℕ) → 0 < excess fuel n → 10 ^ 27 * 10 ^ excess fuel n ≤ n
unfolding excess
excess_lower zero n h = absurd (omega arith)
excess_lower (suc fuel) n h = elim (Bool-cases (ltb n precision)) [
  | inl small ↦ absurd (ground arith)
  | inr large ↦
      rw (large, excess)
        (lower_step (excess fuel (n / 10)) n (ltb→le n precision large)
          (excess_lower fuel (n / 10)))
]

pow_pos : (k : ℕ) → 0 < 10 ^ k
pow_pos zero = omega arith
pow_pos (suc k) = rw pow-suc (omega (arith, pow_pos k))

module _ (n d : ℕ) (p : 0 < d) where
  abbrev dropped : ℕ
  dropped = excess (n / d) (n / d)

  floor_upper : n / (d * 10 ^ dropped) < precision
  floor_upper = rw (← div-div-eq-div-mul) (excess_enough (n / d) (n / d) (omega arith))

  fit_upper : fit n d ≤ 10 ^ 28 * 10 ^ dropped
  unfolding fit
  fit_upper =
      mul-le-mul_right (10 ^ dropped) (omega (arith, rhe_bounds n (d * 10 ^ dropped), floor_upper))

  fit_lower : 0 < dropped → 10 ^ 27 * 10 ^ dropped ≤ fit n d
  unfolding fit
  fit_lower h =
      mul-le-mul_right (10 ^ dropped) (le_trans floor_lower (rhe_bounds n (d * 10 ^ dropped)).0)
    where
      floor_lower : 10 ^ 27 ≤ n / (d * 10 ^ dropped)
      floor_lower =
          rw (← div-div-eq-div-mul)
            ((le-div_iff_mul-le (pow_pos dropped)).1 (excess_lower (n / d) (n / d) h))

excess_upper : (n : ℕ) → n < 10 ^ 28 * 10 ^ excess n n
excess_upper n =
    omega (arith, (div-lt_iff_lt-mul (pow_pos (excess n n))).0 (excess_enough n n (omega arith)))

excess_mono : (n m : ℕ) → n ≤ m → excess n n ≤ excess m m
excess_mono n m h = elim (Bool-cases (ltb (excess m m) (excess n n))) [
  | inl more ↦
      let more' = ltb→lt (excess m m) (excess n n) more in
      absurd (
        omega (
          arith,
          excess_lower n n (omega arith),
          excess_upper m,
          pow-le-pow_right {n = 10} (omega arith) more',
          pow-suc 10 (excess m m),
        ))
  | inr fewer ↦ ltb→le (excess m m) (excess n n) fewer
]

-- A larger fraction never rounds to less.
pub fit_mono : (n m d : ℕ) → n ≤ m → 0 < d → fit n d ≤ fit m d
fit_mono n m d h p =
    let shifts = excess_mono (n / d) (m / d) (div_mono n m d h p) in
    elim (Bool-cases (ltb (dropped n d p) (dropped m d p))) [
      | inl apart ↦
          let apart' = ltb→lt (dropped n d p) (dropped m d p) apart in
          omega (
            arith,
            fit_upper n d p,
            fit_lower m d p (omega arith),
            pow-le-pow_right {n = 10} (omega arith) apart',
            pow-suc 10 (dropped n d p),
          )
      | inr level ↦ same_place (ground arith)
    ]
  where
    same_place : dropped n d p ≡ dropped m d p → fit n d ≤ fit m d
    same_place e =
        unfold fit in
        rw e (
          mul-le-mul_right (10 ^ dropped m d p) (
            round_half_even_mono n m (d * 10 ^ dropped m d p) h
              (omega (arith, mul-le-mul p (pow_pos (dropped m d p))))))

-- The same fraction in other terms.
mod_scale : (n d k : ℕ) → 0 < k → n * k % (d * k) ≡ n % d * k
mod_scale n d k q = grind (
  arith,
  div-add-mod (n * k) (d * k),
  mul-div-mul_right n d q,
  ap (λ (t : ℕ). t * k) (div-add-mod n d),
)

below : (a b k : ℕ) → 0 < k → a < b → a * k < b * k
below a b k q h = omega (arith, mul-le-mul_right k h)

ltb_scale : (a b k : ℕ) → 0 < k → ltb (a * k) (b * k) ≡ ltb a b
ltb_scale a b k q = elim (Bool-cases (ltb a b)) [
  | inl less ↦ ground (arith, less, below a b k q (ltb→lt a b less))
  | inr more ↦ ground (arith, more, mul-le-mul_right k (ltb→le a b more))
]

rhe_scale : (n d k : ℕ) → 0 < k → round_half_even (n * k) (d * k) ≡ round_half_even n d
unfolding round_half_even
rhe_scale n d k q = ground (
  arith,
  mul-div-mul_right n d q,
  mod_scale n d k q,
  ltb_scale (2 * (n % d)) d k q,
  ltb_scale d (2 * (n % d)) k q,
)

pub fit_scale : (n k : ℕ) → 0 < k → fit (n * k) k ≡ fit n 1
unfolding fit
fit_scale n k q =
    rw (mul-div_cancel n q, div-one)
      (ap (λ (t : ℕ). t * 10 ^ excess n n)
        (rw (mul_comm k (10 ^ excess n n), rhe_scale n (10 ^ excess n n) k q)
          (let e : 10 ^ excess n n ≡ 1 * 10 ^ excess n n = omega arith in
            ap (round_half_even n) e)))
