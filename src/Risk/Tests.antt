-- ===== src/Risk/Tests.antt =====
-- Runs of the risk guardian, of risk.py.
use paper_live.Base.{◌≡◌, refl, false, none, [], ◌∷◌, ok}
use paper_live.Base.Int.{pos, ◌+ℤ◌, ◌-ℤ◌}
use paper_live.Base.Dict.{get, string_eq}
use paper_live.Decimal.{whole, xor, add, sub, mul, neg, divide, fit, fit_ℤ, excess, round_half_even}
use paper_live.Environment.{Mode, Controller}
use paper_live.Execution.Types.{OrderSide, OrderType, PaperOrder, PaperAccount}
use paper_live.Risk.{
  RiskGuardian, PortfolioRiskContext, default_limits, check_order, check_reserve, check_position,
  check_live, check_market, check_portfolio, approve, approve_portfolio,
}
use paper_live.Risk.Order.{Within, approve-Within}
use paper_live.Risk.Portfolio.{PortfolioWithin, approve_portfolio-PortfolioWithin}

abbrev order : PaperOrder
order = record {
  symbol = "AAPL";
  side = OrderSide.buy;
  quantity = whole 10;
  order_type = OrderType.market;
  limit_price = none;
  client_order_id = "o-1";
}

abbrev controller : Controller
controller = record {
  mode = Mode.paper_sandbox;
  version = 0;
  changed_at = 0;
  changed_by = "system";
  transition_secret = none;
  live_approval_gate = none;
  time_triggers = [];
  kpi_triggers = [];
}

abbrev account : PaperAccount
account = record { cash = whole 10000; positions = ("MSFT", whole 5) ∷ [] }

abbrev guardian : RiskGuardian
guardian = record { limits = default_limits; tripped = false; daily_pnl = pos 0 }

abbrev context : PortfolioRiskContext
context = record {
  account_value = whole 12000;
  portfolio_notional = whole 2000;
  market_notional = whole 2000;
  market = "NASDAQ";
}

approved : approve order (whole 100) none controller account guardian ≡ ok tt
unfolding approve check_order check_reserve check_position check_live add sub mul neg divide fit
    fit_ℤ excess round_half_even xor ◌+ℤ◌ ◌-ℤ◌ get
approved = refl

approved_portfolio : approve_portfolio order (whole 100) context controller account guardian ≡ ok tt
unfolding approve_portfolio approve check_order check_reserve check_position check_live check_market
    check_portfolio add sub mul neg divide fit fit_ℤ excess round_half_even xor ◌+ℤ◌ ◌-ℤ◌ get
approved_portfolio = refl

approve-Within_example : Within order (whole 100) none account guardian
approve-Within_example = approve-Within order (whole 100) none controller account guardian approved

approve_portfolio-PortfolioWithin_example :
    PortfolioWithin order (whole 100) context account guardian
approve_portfolio-PortfolioWithin_example =
    approve_portfolio-PortfolioWithin order (whole 100) context controller account guardian
      approved_portfolio
