-- ===== src/Risk/Portfolio.antt =====
-- What `RiskGuardian.approve_portfolio` lets through, of risk.py.
use paper_live.Base.{
  ◌≡◌, ◌≢◌, refl, some, ◌||◌, Result, Kind, ok, err, raise_if, arith, >>=-eq-ok, eq_iff,
}
use paper_live.Base.Int.{pos, ◌≤ℤ◌, ◌<ℤ◌, leb_ℤ, ltb_ℤ}
use paper_live.Decimal
use paper_live.Decimal.{Decimal}
use paper_live.Environment.{Controller}
use paper_live.Execution.Types.{OrderSide, PaperOrder, PaperAccount}
use paper_live.Risk.{
  RiskLimits, RiskGuardian, PortfolioRiskContext, approve, check_market, check_portfolio,
  approve_portfolio, shifted,
}
use paper_live.Risk.Order.{Within, approve-Within}

-- The exposure of the target's market stays below its ceiling, as a share of the account's value.
pub record MarketBelow (exposure value ceiling : Decimal) : Type 0 where
  pub ratio : Decimal
  pub exposure_nonneg : pos 0 ≤ℤ exposure
  pub ratio_of : Decimal.divide exposure value ≡ ok ratio
  pub below : ratio <ℤ ceiling

market_inv :
    (side : OrderSide) (notional : Decimal) (x : PortfolioRiskContext) (l : RiskLimits)
    → x.market ≢ ""
    → pos 0 <ℤ x.account_value
    → check_market side notional x l ≡ ok tt
    → MarketBelow (shifted side x.market_notional notional) x.account_value l.max_market_exposure
unfolding check_market
market_inv side notional x l named value h = by_ratio (Decimal.divide _ _) refl
  where
    by_ratio :
        (r : Result Decimal)
        → Decimal.divide (shifted side x.market_notional notional) x.account_value ≡ r
        → MarketBelow
            (shifted side x.market_notional notional)
            x.account_value
            l.max_market_exposure
    by_ratio (ok ratio) e = record {
      ratio = ratio;
      exposure_nonneg = ground (arith, eq_iff x.market "");
      ratio_of = e;
      below = ground (arith, eq_iff x.market "");
    }
    by_ratio (err _) e = absurd (ground (arith, eq_iff x.market ""))

portfolio_inv :
    (side : OrderSide) (notional : Decimal) (x : PortfolioRiskContext) (l : RiskLimits)
    → check_portfolio side notional x l ≡ ok tt
    → (pos 0 ≤ℤ shifted side x.portfolio_notional notional)
      × (shifted side x.portfolio_notional notional ≤ℤ l.max_portfolio_notional)
unfolding check_portfolio
portfolio_inv side notional x l h = (ground arith, ground arith)

pub record PortfolioWithin (order : PaperOrder) (price : Decimal) (x : PortfolioRiskContext)
    (a : PaperAccount) (g : RiskGuardian) : Type 0 where
  pub order_within : Within order price (some x.account_value) a g
  pub market :
      x.market ≢ ""
      → MarketBelow
          (shifted order.side x.market_notional (Decimal.mul order.quantity price))
          x.account_value
          g.limits.max_market_exposure
  pub exposure_nonneg :
      pos 0 ≤ℤ shifted order.side x.portfolio_notional (Decimal.mul order.quantity price)
  pub exposure :
      shifted order.side x.portfolio_notional (Decimal.mul order.quantity price)
      ≤ℤ g.limits.max_portfolio_notional

-- An order that is approved against a portfolio keeps to the limits of `approve`, with the
-- context's account value as the base of the reserve; a named market stays strictly below its
-- ceiling, and the whole portfolio within its limit.
pub approve_portfolio-PortfolioWithin :
    (order : PaperOrder) (price : Decimal) (x : PortfolioRiskContext) (c : Controller)
    (a : PaperAccount) (g : RiskGuardian)
    → approve_portfolio order price x c a g ≡ ok tt
    → PortfolioWithin order price x a g
unfolding approve_portfolio
approve_portfolio-PortfolioWithin order price x c a g h =
    let notional = Decimal.mul order.quantity price in
    let (_, h₀, rest₀) =
      >>=-eq-ok
        (raise_if
          (leb_ℤ x.account_value (pos 0)
            || ltb_ℤ x.portfolio_notional (pos 0)
            || ltb_ℤ x.market_notional (pos 0))
          Kind.value_error "invalid portfolio risk context")
        _ h in
    let (_, h₁, rest₁) = >>=-eq-ok (approve order price (some x.account_value) c a g) _ rest₀ in
    let (_, h₂, h₃) = >>=-eq-ok (check_market order.side notional x g.limits) _ rest₁ in
    let (nonneg, most) = portfolio_inv order.side notional x g.limits h₃ in
    record {
      order_within = approve-Within order price (some x.account_value) c a g h₁;
      market = λ named. market_inv order.side notional x g.limits named (ground arith) h₂;
      exposure_nonneg = nonneg;
      exposure = most;
    }
