-- ===== src/Risk.antt =====
-- paper_live/risk.py: the limits, the circuit breaker and the pre-trade gate. The guardian's
-- controller and account are the objects that the gateway uses; they are passed to each call.
pub mod Order
pub mod Portfolio
mod Tests
use paper_live.Base.{
  Bool, true, false, ◌||◌, not, Option, none, some, String, ◌==◌, Result, Kind, ok, err, raise_if,
  ◌>>=◌, ◌>>◌, if◌then◌else◌,
}
use paper_live.Base.Int.{pos, ltb_ℤ, leb_ℤ}
use paper_live.Decimal
use paper_live.Decimal.{Decimal, whole, literal}
use paper_live.Environment.{Controller, is_live, assert_skill_allowed}
use paper_live.Execution.Types.{OrderSide, PaperOrder, PaperAccount}
use paper_live.Execution.Engine.{held}

pub record RiskLimits : Type 0 where
  pub max_order_notional : Decimal
  pub max_position_notional : Decimal
  pub max_daily_loss : Decimal
  pub max_portfolio_notional : Decimal
  pub max_market_exposure : Decimal
  pub min_cash_reserve : Decimal

-- `RiskLimits()`
abbrev pub default_limits : RiskLimits
default_limits = record {
  max_order_notional = whole 1000000;
  max_position_notional = whole 5000000;
  max_daily_loss = whole 500000;
  max_portfolio_notional = whole 10000000;
  max_market_exposure = literal 50 2;
  min_cash_reserve = literal 10 2;
}

-- `__post_init__`
unfoldable pub check_limits : RiskLimits → Result RiskLimits
check_limits l = do
  raise_if
      (ltb_ℤ l.max_order_notional (pos 0)
        || ltb_ℤ l.max_position_notional (pos 0)
        || ltb_ℤ l.max_daily_loss (pos 0)
        || ltb_ℤ l.max_portfolio_notional (pos 0))
      Kind.value_error "notional risk limits must be non-negative"
  raise_if (ltb_ℤ l.max_market_exposure (pos 0) || ltb_ℤ (whole 1) l.max_market_exposure)
      Kind.value_error "max_market_exposure must be between 0 and 1"
  raise_if (ltb_ℤ l.min_cash_reserve (pos 0) || ltb_ℤ (whole 1) l.min_cash_reserve) Kind.value_error
      "min_cash_reserve must be between 0 and 1"
  ok l

pub record PortfolioRiskContext : Type 0 where
  pub account_value : Decimal
  pub portfolio_notional : Decimal
  pub market_notional : Decimal
  pub market : String

-- `RiskGuardian`; `tripped` is its circuit breaker.
pub record RiskGuardian : Type 0 where
  pub limits : RiskLimits
  pub tripped : Bool
  pub daily_pnl : Decimal

-- `CircuitBreaker.trip` and `CircuitBreaker.reset`
unfoldable pub trip : RiskGuardian → RiskGuardian
trip guardian = record guardian { tripped = true }

unfoldable pub reset : RiskGuardian → RiskGuardian
reset guardian = record guardian { tripped = false }

abbrev value_or_cash : Option Decimal → PaperAccount → Decimal
value_or_cash none account = account.cash
value_or_cash (some v) account = v

-- The cash reserve, for a purchase.
unfoldable pub check_reserve :
    OrderSide → Decimal → Option Decimal → PaperAccount → RiskLimits → Result (Unit {0})
check_reserve OrderSide.sell notional account_value account limits = ok tt
check_reserve OrderSide.buy notional account_value account limits = do
  let base_value = value_or_cash account_value account
  raise_if (leb_ℤ base_value (pos 0)) Kind.value_error "invalid account value"
  ratio ← Decimal.divide (Decimal.sub account.cash notional) base_value
  raise_if (leb_ℤ ratio limits.min_cash_reserve) Kind.permission_error
      "cash reserve would fall below or equal risk limit"

-- `projected`: the position after the order.
abbrev pub projected : PaperOrder → PaperAccount → Decimal
projected order account = elim order.side [
  | OrderSide.buy ↦ Decimal.add (held order.symbol account) order.quantity
  | OrderSide.sell ↦ Decimal.sub (held order.symbol account) order.quantity
]

unfoldable pub check_position : PaperOrder → Decimal → PaperAccount → RiskLimits → Result (Unit {0})
check_position order reference_price account limits = do
  raise_if (ltb_ℤ (projected order account) (pos 0)) Kind.permission_error
      "sell quantity exceeds current position"
  raise_if
      (ltb_ℤ limits.max_position_notional (Decimal.mul (projected order account) reference_price))
      Kind.permission_error "position notional exceeds risk limit"

-- The checks of `approve` that stand before those of the account.
unfoldable pub check_order : PaperOrder → Decimal → RiskGuardian → Result (Unit {0})
check_order order reference_price guardian = do
  raise_if guardian.tripped Kind.permission_error "circuit breaker is active"
  raise_if (leb_ℤ order.quantity (pos 0) || leb_ℤ reference_price (pos 0)) Kind.value_error
      "invalid order"
  raise_if (ltb_ℤ guardian.limits.max_order_notional (Decimal.mul order.quantity reference_price))
      Kind.permission_error "order notional exceeds risk limit"
  raise_if (leb_ℤ guardian.daily_pnl (Decimal.neg guardian.limits.max_daily_loss))
      Kind.permission_error "daily loss limit exceeded"

unfoldable pub check_live : Controller → Result (Unit {0})
check_live controller =
    if is_live controller.mode
    then assert_skill_allowed "skill-risk-circuit-breaker" controller
    else ok tt

unfoldable pub approve :
    PaperOrder
    → Decimal
    → Option Decimal
    → Controller
    → PaperAccount
    → RiskGuardian
    → Result (Unit {0})
approve order reference_price account_value controller account guardian = do
  check_order order reference_price guardian
  check_reserve order.side (Decimal.mul order.quantity reference_price) account_value account
      guardian.limits
  check_position order reference_price account guardian.limits
  check_live controller

-- `order_notional` with the sign of the side, added to what is held.
abbrev pub shifted : OrderSide → Decimal → Decimal → Decimal
shifted OrderSide.buy notional order_notional = Decimal.add notional order_notional
shifted OrderSide.sell notional order_notional = Decimal.add notional (Decimal.neg order_notional)

unfoldable pub check_market :
    OrderSide → Decimal → PortfolioRiskContext → RiskLimits → Result (Unit {0})
check_market side order_notional context limits =
    if context.market == "" || leb_ℤ context.account_value (pos 0) then ok tt else (do
      let projected_market = shifted side context.market_notional order_notional
      raise_if (ltb_ℤ projected_market (pos 0)) Kind.permission_error
          "projected market exposure is negative"
      ratio ← Decimal.divide projected_market context.account_value
      raise_if (leb_ℤ limits.max_market_exposure ratio) Kind.permission_error
          "market exposure exceeds or reaches risk limit")

unfoldable pub check_portfolio :
    OrderSide → Decimal → PortfolioRiskContext → RiskLimits → Result (Unit {0})
check_portfolio side order_notional context limits = do
  let projected_portfolio = shifted side context.portfolio_notional order_notional
  raise_if (ltb_ℤ projected_portfolio (pos 0)) Kind.permission_error
      "projected portfolio exposure is negative"
  raise_if (ltb_ℤ limits.max_portfolio_notional projected_portfolio) Kind.permission_error
      "portfolio notional exceeds risk limit"

unfoldable pub approve_portfolio :
    PaperOrder
    → Decimal
    → PortfolioRiskContext
    → Controller
    → PaperAccount
    → RiskGuardian
    → Result (Unit {0})
approve_portfolio order reference_price context controller account guardian = do
  raise_if
      (leb_ℤ context.account_value (pos 0)
        || ltb_ℤ context.portfolio_notional (pos 0)
        || ltb_ℤ context.market_notional (pos 0))
      Kind.value_error "invalid portfolio risk context"
  let order_notional = Decimal.mul order.quantity reference_price
  approve order reference_price (some context.account_value) controller account guardian
  check_market order.side order_notional context guardian.limits
  check_portfolio order.side order_notional context guardian.limits
