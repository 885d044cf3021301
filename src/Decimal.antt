-- ===== src/Decimal.antt =====
-- Python's `decimal.Decimal` under its default context: 28 significant digits, ROUND_HALF_EVEN.
-- A finite value is the integer number of units of 10^-60 that it holds, so that every value whose
-- magnitude is 0 or at least 10^-32 is represented digit for digit, whatever its 28 digits are.
-- Signed zeros, infinities, NaN and trailing zeros (`1.0` against `1.00`) are not represented.
pub mod Rounding
pub mod Monotone
pub mod Laws
use paper_live.Base.{
  ℕ, suc, zero, ◌+◌, ◌*◌, ◌/◌, ◌%◌, ◌^◌, ◌-◌, Bool, true, false, ltb, eqb, if◌then◌else◌,
}
use paper_live.Base.{Result, Kind, ok, raise, ◌≡◌, refl}
use paper_live.Base.Int.{
  ℤ, pos, negsuc, is_neg, nat_abs, with_sign, ◌+ℤ◌, ◌-ℤ◌, ltb_ℤ, leb_ℤ, eqb_ℤ,
}
unfoldable pub use mathlib.Core.Bool.{xor}

-- A count of units of 10^-60.
abbrev pub Decimal : Type 0
Decimal = ℤ

abbrev pub unit : ℕ
unit = 10 ^ 60

-- One more than the largest 28-digit coefficient.
abbrev pub precision : ℕ
precision = 10 ^ 28

-- How many digits of `n` stand behind the first 28. The fuel `n` is enough.
unfoldable pub excess : ℕ → ℕ → ℕ
excess zero n = 0
excess (suc fuel) n = elim (ltb n precision) [ true ↦ 0 | false ↦ suc (excess fuel (n / 10)) ]

-- The integer nearest to n / d, a tie to the even one.
unfoldable pub round_half_even : ℕ → ℕ → ℕ
round_half_even n d =
    let q = n / d in
    let twice = 2 * (n % d) in if ltb twice d then q else if ltb d twice then q + 1 else q + q % 2

-- n / d, rounded once to 28 significant digits.
unfoldable pub fit : ℕ → ℕ → ℕ
unfolding excess round_half_even
fit n d = let place = 10 ^ excess (n / d) (n / d) in round_half_even n (d * place) * place

unfoldable pub fit_ℤ : ℤ → Decimal
fit_ℤ a = with_sign (is_neg a) (fit (nat_abs a) 1)

unfoldable pub add : Decimal → Decimal → Decimal
add a b = fit_ℤ (a +ℤ b)

unfoldable pub sub : Decimal → Decimal → Decimal
sub a b = fit_ℤ (a -ℤ b)

unfoldable pub mul : Decimal → Decimal → Decimal
mul a b = with_sign (xor (is_neg a) (is_neg b)) (fit (nat_abs a * nat_abs b) unit)

-- `a / b`; a zero divisor is an `ArithmeticError`.
unfoldable pub divide : Decimal → Decimal → Result Decimal
divide a b =
    if eqb (nat_abs b) 0
    then raise Kind.arithmetic_error "DivisionByZero"
    else ok (with_sign (xor (is_neg a) (is_neg b)) (fit (nat_abs a * unit) (nat_abs b)))

-- The unary minus, which rounds as well.
unfoldable pub neg : Decimal → Decimal
neg a = sub (pos 0) a

-- `a.quantize(step, rounding=ROUND_DOWN)` for a step of that many units: more than 28 digits of the
-- step are an `InvalidOperation`.
unfoldable pub quantize_down : ℕ → Decimal → Result Decimal
quantize_down step a =
    let q = nat_abs a / step in
    if ltb q precision
    then ok (with_sign (is_neg a) (q * step))
    else raise Kind.arithmetic_error "InvalidOperation"

-- `a.to_integral_value(rounding=ROUND_DOWN)`
unfoldable pub to_integral_down : Decimal → Decimal
to_integral_down a = with_sign (is_neg a) (nat_abs a / unit * unit)

abbrev pub min : Decimal → Decimal → Decimal
min a b = if ltb_ℤ b a then b else a

abbrev pub max : Decimal → Decimal → Decimal
max a b = if ltb_ℤ a b then b else a

-- `Decimal("n")`, and n / 10^k for the literals with a point.
abbrev pub whole : ℕ → Decimal
whole n = pos (n * unit)

abbrev pub literal : ℕ → ℕ → Decimal
literal n k = pos (n * 10 ^ (60 - k))

-- The step of `Decimal("0.01")`.
abbrev pub cent : ℕ
cent = 10 ^ 58

one_third : divide (whole 2) (whole 3) ≡ ok (literal 6666666666666666666666666667 28)
unfolding divide fit xor
one_third = refl

rounded_sum : add (whole (10 ^ 28 + 1)) (literal 5 0) ≡ whole (10 ^ 28 + 10)
unfolding add fit_ℤ fit ◌+ℤ◌
rounded_sum = refl
