-- ===== src/Risk/Order.antt =====
-- What `RiskGuardian.approve` lets through, of risk.py.
use paper_live.Base.{
  ◌≡◌, ◌↔◌, refl, subst, error, false, Option, Result, Kind, ok, err, arith, >>=-eq-ok,
}
use paper_live.Base.Int.{pos, ◌≤ℤ◌, ◌<ℤ◌}
use paper_live.Decimal
use paper_live.Decimal.{Decimal, whole}
use paper_live.Environment.{Controller, assert_skill_allowed, is_skill_allowed}
use paper_live.Execution.Types.{OrderSide, PaperOrder, PaperAccount}
use paper_live.Risk.{
  RiskLimits, RiskGuardian, value_or_cash, check_reserve, check_position, check_order, check_live,
  approve, projected, trip, reset,
}

-- The order passes every limit that does not read the account.
pub record OrderFits (order : PaperOrder) (price : Decimal) (g : RiskGuardian) : Type 0 where
  pub calm : g.tripped ≡ false
  pub quantity_pos : pos 0 <ℤ order.quantity
  pub price_pos : pos 0 <ℤ price
  pub notional : Decimal.mul order.quantity price ≤ℤ g.limits.max_order_notional
  pub daily : Decimal.neg g.limits.max_daily_loss <ℤ g.daily_pnl

pub check_order_iff :
    (order : PaperOrder) (price : Decimal) (g : RiskGuardian)
    → (check_order order price g ≡ ok tt) ↔ OrderFits order price g
unfolding check_order
check_order_iff order price g = (
  λ h. record {
    calm = ground arith;
    quantity_pos = ground arith;
    price_pos = ground arith;
    notional = ground arith;
    daily = ground arith;
  },
  λ f. ground arith,
)

-- A purchase leaves more cash than the reserve, as a share of the account's value.
pub record ReserveKept (notional value cash reserve : Decimal) : Type 0 where
  pub ratio : Decimal
  pub value_pos : pos 0 <ℤ value
  pub ratio_of : Decimal.divide (Decimal.sub cash notional) value ≡ ok ratio
  pub above : reserve <ℤ ratio

reserve_buy :
    (notional : Decimal) (value : Option Decimal) (a : PaperAccount) (l : RiskLimits)
    → check_reserve OrderSide.buy notional value a l ≡ ok tt
    → ReserveKept notional (value_or_cash value a) a.cash l.min_cash_reserve
unfolding check_reserve
reserve_buy notional value a l h = by_ratio (Decimal.divide _ _) refl
  where
    by_ratio :
        (r : Result Decimal)
        → Decimal.divide (Decimal.sub a.cash notional) (value_or_cash value a) ≡ r
        → ReserveKept notional (value_or_cash value a) a.cash l.min_cash_reserve
    by_ratio (ok ratio) e = record {
      ratio = ratio;
      value_pos = ground arith;
      ratio_of = e;
      above = ground arith;
    }
    by_ratio (err x) e = absurd (ground arith)

position_inv :
    (order : PaperOrder) (price : Decimal) (a : PaperAccount) (l : RiskLimits)
    → check_position order price a l ≡ ok tt
    → (pos 0 ≤ℤ projected order a)
      × (Decimal.mul (projected order a) price ≤ℤ l.max_position_notional)
unfolding check_position
position_inv order price a l h = (ground arith, ground arith)

check_live_ok : (c : Controller) → check_live c ≡ ok tt
unfolding check_live assert_skill_allowed is_skill_allowed
check_live_ok c = ground arith

-- What an approved order keeps to.
pub record Within (order : PaperOrder) (price : Decimal) (value : Option Decimal) (a : PaperAccount)
    (g : RiskGuardian) : Type 0 where
  pub fits : OrderFits order price g
  pub reserve :
      order.side ≡ OrderSide.buy
      → ReserveKept
          (Decimal.mul order.quantity price)
          (value_or_cash value a)
          a.cash
          g.limits.min_cash_reserve
  pub covered : pos 0 ≤ℤ projected order a
  pub position : Decimal.mul (projected order a) price ≤ℤ g.limits.max_position_notional

-- An order is approved only within every limit: the breaker is not tripped, quantity and price are
-- positive, the order's notional, the daily loss and the projected position keep to their limits,
-- a sale is covered, and a purchase leaves more than the cash reserve.
pub approve-Within :
    (order : PaperOrder) (price : Decimal) (value : Option Decimal) (c : Controller)
    (a : PaperAccount) (g : RiskGuardian)
    → approve order price value c a g ≡ ok tt
    → Within order price value a g
unfolding approve
approve-Within order price value c a g h =
    let (_, h₁, rest₁) = >>=-eq-ok (check_order order price g) _ h in
    let (_, h₂, rest₂) = >>=-eq-ok (check_reserve order.side _ value a g.limits) _ rest₁ in
    let (_, h₃, _) = >>=-eq-ok (check_position order price a g.limits) _ rest₂ in
    let (covered, position) = position_inv order price a g.limits h₃ in
    record {
      fits = (check_order_iff order price g).0 h₁;
      reserve = λ bought. reserve_buy (Decimal.mul order.quantity price) value a g.limits (
          subst (λ s. check_reserve s (Decimal.mul order.quantity price) value a g.limits ≡ ok tt)
            bought h₂);
      covered = covered;
      position = position;
    }

-- The breaker stops every order, and only `reset` lets one through again.
pub trip-approve :
    (order : PaperOrder) (price : Decimal) (value : Option Decimal) (c : Controller)
    (a : PaperAccount) (g : RiskGuardian)
    → (approve order price value c a (trip g)
        ≡ err (error Kind.permission_error "circuit breaker is active"))
      × (approve order price value c a (reset (trip g)) ≡ approve order price value c a (reset g))
unfolding approve trip reset check_order
trip-approve order price value c a g = (refl, refl)
