-- ===== src/Decimal/Laws.antt =====
-- Signs under rounded arithmetic, and where it is exact.
use paper_live.Base.{ℕ, zero, suc, ◌*◌, ◌<◌, ◌≡◌, refl, ap, ok, Bool-cases, inl, inr, arith}
use paper_live.Base.Int.{
  ℤ, pos, negsuc, pos_part, nat_abs, ltb_ℤ, negate, ◌+ℤ◌, ◌-ℤ◌, ◌≤ℤ◌, ◌<ℤ◌, int_laws,
}
use paper_live.Decimal.{Decimal, precision, fit, fit_ℤ, add, sub, mul, divide, xor, whole, unit}
use native.Mathlib.Nat.{mul-le-mul, le_refl}
use paper_live.Decimal.Monotone.{fit_mono, fit_scale}
use paper_live.Decimal.Rounding.{fit_small}

fit_ℤ_nonneg : (a : ℤ) → pos 0 ≤ℤ a → pos 0 ≤ℤ fit_ℤ a
unfolding fit_ℤ
fit_ℤ_nonneg (pos n) h = omega arith
fit_ℤ_nonneg (negsuc n) h = absurd (omega arith)

pub add_nonneg : (a b : Decimal) → pos 0 ≤ℤ a → pos 0 ≤ℤ b → pos 0 ≤ℤ add a b
unfolding add
add_nonneg a b h k = fit_ℤ_nonneg (a +ℤ b) (omega int_laws)

-- A difference never rounds below zero.
pub sub_nonneg : (a b : Decimal) → b ≤ℤ a → pos 0 ≤ℤ sub a b
unfolding sub
sub_nonneg a b h = fit_ℤ_nonneg (a -ℤ b) (omega int_laws)

pub mul_nonneg : (a b : Decimal) → pos 0 ≤ℤ a → pos 0 ≤ℤ b → pos 0 ≤ℤ mul a b
unfolding mul xor
mul_nonneg (pos a) (pos b) h k = omega arith
mul_nonneg (pos a) (negsuc b) h k = absurd (omega arith)
mul_nonneg (negsuc a) b h k = absurd (omega arith)

-- A result that 28 digits of units hold is not rounded.
pub fit_ℤ_small : (a : ℤ) → nat_abs a < precision → fit_ℤ a ≡ a
unfolding fit_ℤ
fit_ℤ_small (pos n) h = ground (arith, fit_small n)
fit_ℤ_small (negsuc n) h = ground (arith, fit_small (suc n))

-- A value that 28 digits hold, so that no operation gives another in its place.
abbrev pub IsExact : Decimal → Type 0
IsExact a = fit_ℤ a ≡ a

-- A ratio of at most 1 never gives more than the whole.
pub mul-le : (a r : Decimal) → IsExact a → pos 0 ≤ℤ a → pos 0 ≤ℤ r → r ≤ℤ whole 1 → mul a r ≤ℤ a
unfolding mul xor fit_ℤ
mul-le (pos a) (pos r) exact h k le = omega (
  arith,
  fit_mono (a * r) (a * unit) unit (mul-le-mul (le_refl a) (omega arith)) (omega arith),
  fit_scale a unit (omega arith),
  ap pos_part exact,
)
mul-le (pos a) (negsuc r) exact h k le = absurd (omega arith)
mul-le (negsuc a) r exact h k le = absurd (omega arith)

-- Where the difference is exact, taking away and giving back is the identity.
pub sub_exact : (a b : Decimal) → IsExact (a -ℤ b) → sub a b +ℤ b ≡ a
unfolding sub
sub_exact a b e = rw e (omega int_laws)

pub add_exact : (a b : Decimal) → IsExact (a +ℤ b) → add a b ≡ a +ℤ b
unfolding add
add_exact a b e = e

-- A ratio of at least 1 never gives less than the whole.
pub le-mul : (a r : Decimal) → IsExact a → pos 0 ≤ℤ a → whole 1 ≤ℤ r → a ≤ℤ mul a r
unfolding mul xor fit_ℤ
le-mul (pos a) (pos r) exact h le = omega (
  arith,
  fit_mono (a * unit) (a * r) unit (mul-le-mul (le_refl a) (omega arith)) (omega arith),
  fit_scale a unit (omega arith),
  ap pos_part exact,
)
le-mul (pos a) (negsuc r) exact h le = absurd (omega arith)
le-mul (negsuc a) r exact h le = absurd (omega arith)

negate-le : (n b : ℕ) → negate n ≤ℤ pos b
negate-le zero b = omega arith
negate-le (suc n) b = omega arith

fit_ℤ_le : (a b : ℤ) → IsExact b → pos 0 ≤ℤ b → a ≤ℤ b → fit_ℤ a ≤ℤ b
unfolding fit_ℤ
fit_ℤ_le (pos a) (pos b) exact h le =
    omega (arith, fit_mono a b 1 (omega arith) (omega arith), ap pos_part exact)
fit_ℤ_le (negsuc a) (pos b) exact h le = negate-le (fit (suc a) 1) b
fit_ℤ_le a (negsuc b) exact h le = absurd (omega arith)

le-fit_ℤ : (a b : ℤ) → IsExact a → pos 0 ≤ℤ a → a ≤ℤ b → a ≤ℤ fit_ℤ b
unfolding fit_ℤ
le-fit_ℤ (pos a) (pos b) exact h le =
    omega (arith, fit_mono a b 1 (omega arith) (omega arith), ap pos_part exact)
le-fit_ℤ (pos a) (negsuc b) exact h le = absurd (omega arith)
le-fit_ℤ (negsuc a) b exact h le = absurd (omega arith)

-- Adding what is not negative never gives less, and taking it away never gives more.
pub le-add : (a b : Decimal) → IsExact a → pos 0 ≤ℤ a → pos 0 ≤ℤ b → a ≤ℤ add a b
unfolding add
le-add a b exact h k = le-fit_ℤ a (a +ℤ b) exact h (omega int_laws)

pub sub-le : (a b : Decimal) → IsExact a → pos 0 ≤ℤ a → pos 0 ≤ℤ b → sub a b ≤ℤ a
unfolding sub
sub-le a b exact h k = fit_ℤ_le (a -ℤ b) a exact h (omega int_laws)

pub divide_nonneg :
    (a b : Decimal) {q : Decimal} → pos 0 ≤ℤ a → pos 0 ≤ℤ b → divide a b ≡ ok q → pos 0 ≤ℤ q
unfolding divide xor
divide_nonneg (pos a) (pos b) h k e = ground arith
divide_nonneg (pos a) (negsuc b) h k e = absurd (omega arith)
divide_nonneg (negsuc a) b h k e = absurd (omega arith)

pub mul_neg : (a r : Decimal) → pos 0 ≤ℤ a → r <ℤ pos 0 → mul a r ≤ℤ pos 0
unfolding mul xor
mul_neg (pos a) (pos r) h k = absurd (omega arith)
mul_neg (pos a) (negsuc r) h k = negate-le (fit (a * suc r) unit) 0
mul_neg (negsuc a) r h k = absurd (omega arith)

pub one-IsExact : IsExact (whole 1)
unfolding fit_ℤ fit
one-IsExact = refl

-- The same bound where the ratio may be negative.
pub mul-le_signed : (a r : Decimal) → IsExact a → pos 0 ≤ℤ a → r ≤ℤ whole 1 → mul a r ≤ℤ a
mul-le_signed a r exact h le = elim (Bool-cases (ltb_ℤ r (pos 0))) [
  | inl negative ↦ omega (arith, mul_neg a r h (ground arith))
  | inr positive ↦ mul-le a r exact h (ground arith) le
]
