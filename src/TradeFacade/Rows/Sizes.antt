-- ===== src/TradeFacade/Rows/Sizes.antt =====
-- How large the order of a portfolio row is, of trade_facade.py.
use paper_live.Base.{
  ℕ, suc, zero, ◌≤◌, ◌≡◌, refl, ap, sym, subst, ◌⊎◌, Bool, true, false, Option, some, String, ok,
  arith, >>=-eq-ok, Bool-cases, inl, inr,
}
use paper_live.Base.Int.{
  ℤ, pos, negsuc, nat_abs, pos_part, neg_part, with_sign, is_neg, ◌-ℤ◌, -ℤ_parts, ◌≤ℤ◌, ◌<ℤ◌, ltb_ℤ,
  eqb_ℤ, int_laws,
}
use paper_live.Decimal
use paper_live.Decimal.{Decimal, whole, fit, fit_ℤ}
use paper_live.Decimal.Monotone.{fit_mono}
use paper_live.Decimal.Laws.{IsExact, divide_nonneg, mul_nonneg}
use paper_live.Base.Text.{strip}
use paper_live.PortfolioRisk.{or_default}
use paper_live.TradeFacade.Types.{OrderIntent, PortfolioRow}
use paper_live.TradeFacade.Rows.{
  parsed, check_sizes, check_target, target_quantity, intent_for, intent_from_portfolio_row,
}

nat_abs-with_sign : (s : Bool) (n : ℕ) → nat_abs (with_sign s n) ≡ n
nat_abs-with_sign false n = refl
nat_abs-with_sign true zero = refl
nat_abs-with_sign true (suc n) = refl

fit_ℤ-nat_abs : (z : ℤ) → nat_abs (fit_ℤ z) ≡ fit (nat_abs z) 1
unfolding fit_ℤ
fit_ℤ-nat_abs z = nat_abs-with_sign (is_neg z) (fit (nat_abs z) 1)

fit_ℤ-neg : (z : ℤ) → fit_ℤ z <ℤ pos 0 → z <ℤ pos 0
unfolding fit_ℤ
fit_ℤ-neg (pos n) h = absurd (omega arith)
fit_ℤ-neg (negsuc n) h = omega arith

nat_abs_neg : (z : ℤ) → z <ℤ pos 0 → (nat_abs z ≡ neg_part z) × (pos_part z ≡ 0)
nat_abs_neg (pos n) h = absurd (omega arith)
nat_abs_neg (negsuc n) h = (refl, refl)

-- What is missing from `c` to reach `t`, rounded, is no more than `c`.
shortfall_le :
    (t c : Decimal)
    → pos 0 ≤ℤ t
    → pos 0 ≤ℤ c
    → IsExact c
    → Decimal.sub t c <ℤ pos 0
    → pos (nat_abs (Decimal.sub t c)) ≤ℤ c
unfolding Decimal.sub
shortfall_le t (pos c) ht hc exact short =
    let z : ℤ = t -ℤ pos c in
    let below = fit_ℤ-neg z short in
    let small : nat_abs z ≤ c =
      omega (int_laws, (nat_abs_neg z below).0, (nat_abs_neg z below).1, -ℤ_parts t (pos c)) in
    omega (
      arith,
      fit_ℤ-nat_abs z,
      fit_mono (nat_abs z) c 1 small (omega arith),
      ap nat_abs exact,
      fit_ℤ-nat_abs (pos c),
    )
shortfall_le t (negsuc c) ht hc exact short = absurd (omega arith)

to_integral_down_nonneg : (a : Decimal) → pos 0 ≤ℤ a → pos 0 ≤ℤ Decimal.to_integral_down a
unfolding Decimal.to_integral_down
to_integral_down_nonneg (pos a) h = omega arith
to_integral_down_nonneg (negsuc a) h = absurd (omega arith)

target_nonneg :
    (value weight price lot : Decimal) {t : Decimal}
    → pos 0 ≤ℤ value
    → pos 0 ≤ℤ weight
    → pos 0 ≤ℤ price
    → pos 0 ≤ℤ lot
    → target_quantity value weight price lot ≡ ok t
    → pos 0 ≤ℤ t
unfolding target_quantity
target_nonneg value weight price lot hv hw hp hl h =
    let (shares, es, rest) = >>=-eq-ok (Decimal.divide (Decimal.mul value weight) price) _ h in
    let (lots, el, made) = >>=-eq-ok (Decimal.divide shares lot) _ rest in
    let s = divide_nonneg (Decimal.mul value weight) price (mul_nonneg value weight hv hw) hp es in
    let l = divide_nonneg shares lot s hl el in
    ground (
      arith,
      made,
      mul_nonneg (Decimal.to_integral_down lots) lot (to_integral_down_nonneg lots l) hl,
    )

-- The order is for a positive quantity, bought or sold as the difference says.
pub record Sized (delta : Decimal) (intent : OrderIntent) : Type 0 where
  pub positive : pos 0 <ℤ intent.quantity
  pub amount : intent.quantity ≡ pos (nat_abs delta)
  pub bought : pos 0 <ℤ delta → intent.side ≡ "BUY"
  pub sold : delta <ℤ pos 0 → intent.side ≡ "SELL"

nat_abs_pos : (z : ℤ) → eqb_ℤ z (pos 0) ≡ false → pos 0 <ℤ pos (nat_abs z)
nat_abs_pos (pos n) h = ground arith
nat_abs_pos (negsuc n) h = omega arith

intent_for-Sized :
    (symbol : String) (delta price : Decimal) (broker order_type : String) {intent : OrderIntent}
    → intent_for symbol delta price broker order_type ≡ some intent
    → Sized delta intent
intent_for-Sized symbol delta price broker order_type {intent} h =
    let moves : eqb_ℤ delta (pos 0) ≡ false = ground arith in
    record {
      positive = ground (arith, nat_abs_pos delta moves);
      amount = ground arith;
      bought = λ up. ground arith;
      sold = λ down. ground arith;
    }

-- What holds of an order that a row of the target portfolio becomes.
pub record RowOrder (current : Decimal) (intent : OrderIntent) : Type 0 where
  pub positive : pos 0 <ℤ intent.quantity
  pub side : (intent.side ≡ "BUY") ⊎ ((intent.side ≡ "SELL") × (intent.quantity ≤ℤ current))

Sized-RowOrder :
    (target current : Decimal) (intent : OrderIntent)
    → pos 0 ≤ℤ target
    → pos 0 ≤ℤ current
    → IsExact current
    → Sized (Decimal.sub target current) intent
    → RowOrder current intent
Sized-RowOrder target current intent t c exact h =
    let delta = Decimal.sub target current in
    record {
      positive = h.positive;
      side = elim (Bool-cases (ltb_ℤ delta (pos 0))) [
        | inl down ↦
            let short : delta <ℤ pos 0 = ground arith in
            inr (
              h.sold short,
              subst (λ q. q ≤ℤ current) (sym h.amount)
                  (shortfall_le target current t c exact short),
            )
        | inr up ↦ inl (h.bought (moved delta (subst (λ q. pos 0 <ℤ q) h.amount h.positive) up))
      ];
    }
  where
    moved : (z : ℤ) → pos 0 <ℤ pos (nat_abs z) → ltb_ℤ z (pos 0) ≡ false → pos 0 <ℤ z
    moved (pos n) p up = p
    moved (negsuc n) p up = absurd (ground arith)

check_sizes_inv :
    (symbol : String) (value current lot : Decimal) {u : Unit {0}}
    → check_sizes symbol value current lot ≡ ok u
    → (pos 0 ≤ℤ value) × (pos 0 ≤ℤ current) × (pos 0 ≤ℤ lot)
unfolding check_sizes
check_sizes_inv symbol value current lot h = (ground arith, ground arith, ground arith)

check_target_inv :
    (weight price : Decimal) {u : Unit {0}}
    → check_target weight price ≡ ok u
    → (pos 0 ≤ℤ weight) × (pos 0 ≤ℤ price)
unfolding check_target
check_target_inv weight price h = (ground arith, ground arith)

intent_for-symbol :
    (symbol : String) (delta price : Decimal) (broker order_type : String) {intent : OrderIntent}
    → intent_for symbol delta price broker order_type ≡ some intent
    → intent.symbol ≡ symbol
intent_for-symbol symbol delta price broker order_type h = ground arith

-- The order of a row is for the row's symbol, without the spaces around it.
pub intent_from_portfolio_row-symbol :
    (parse : String → Option Decimal) (row : PortfolioRow) (account_value current : Decimal)
    (broker order_type : String) (lot_size : Decimal) {intent : OrderIntent}
    → intent_from_portfolio_row parse row account_value current broker order_type lot_size
      ≡ ok (some intent)
    → intent.symbol ≡ strip (or_default row.symbol "")
unfolding intent_from_portfolio_row
intent_from_portfolio_row-symbol parse row account_value current broker order_type lot_size {intent}
      h =
    let symbol = strip (or_default row.symbol "") in
    let (_, _, rest) = >>=-eq-ok (check_sizes symbol account_value current lot_size) _ h in
    let (weight, _, rest₁) = >>=-eq-ok (parsed parse (or_default row.target_weight "0")) _ rest in
    let (price, _, rest₂) =
      >>=-eq-ok (parsed parse (or_default row.close (or_default row.price "0"))) _ rest₁ in
    let (_, _, rest₃) = >>=-eq-ok (check_target weight price) _ rest₂ in
    let (target, _, made) =
      >>=-eq-ok (target_quantity account_value weight price lot_size) _ rest₃ in
    intent_for-symbol symbol (Decimal.sub target current) price broker order_type {intent = intent}
      (ground (arith, made))

-- A row that becomes an order, for a quantity held that has at most 28 digits, becomes one for a
-- positive quantity, and either buys, or sells no more than is held.
pub row-RowOrder :
    (parse : String → Option Decimal) (row : PortfolioRow) (account_value current : Decimal)
    (broker order_type : String) (lot_size : Decimal) {intent : OrderIntent}
    → IsExact current
    → intent_from_portfolio_row parse row account_value current broker order_type lot_size
      ≡ ok (some intent)
    → RowOrder current intent
unfolding intent_from_portfolio_row
row-RowOrder parse row account_value current broker order_type lot_size {intent} exact h =
    let symbol = strip (or_default row.symbol "") in
    let (_, valid, rest) = >>=-eq-ok (check_sizes symbol account_value current lot_size) _ h in
    let (weight, _, rest₁) = >>=-eq-ok (parsed parse (or_default row.target_weight "0")) _ rest in
    let (price, _, rest₂) =
      >>=-eq-ok (parsed parse (or_default row.close (or_default row.price "0"))) _ rest₁ in
    let (_, fair, rest₃) = >>=-eq-ok (check_target weight price) _ rest₂ in
    let (target, aimed, made) =
      >>=-eq-ok (target_quantity account_value weight price lot_size) _ rest₃ in
    let (value_ok, current_ok, lot_ok) =
      check_sizes_inv symbol account_value current lot_size valid in
    let (weight_ok, price_ok) = check_target_inv weight price fair in
    Sized-RowOrder target current intent
      (target_nonneg account_value weight price lot_size value_ok weight_ok price_ok lot_ok aimed)
      current_ok exact
      (intent_for-Sized symbol (Decimal.sub target current) price broker order_type
        (ground (arith, made)))
