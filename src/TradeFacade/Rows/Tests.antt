-- ===== src/TradeFacade/Rows/Tests.antt =====
-- A row of a target portfolio, of trade_facade.py.
use paper_live.Base.{true, ◌≡◌, refl, Option, none, some, String, ◌==◌, ok, if◌then◌else◌}
use paper_live.Base.Int.{◌+ℤ◌, ◌-ℤ◌}
use paper_live.Base.Text.{strip, reads_as, upper}
use paper_live.Decimal.{
  Decimal, whole, literal, xor, sub, mul, divide, to_integral_down, fit, fit_ℤ, excess,
  round_half_even,
}
use paper_live.Decimal.Laws.{IsExact}
use paper_live.TradeFacade.Types.{OrderIntent, PortfolioRow}
use paper_live.TradeFacade.Rows.{
  check_sizes, check_target, target_quantity, intent_from_portfolio_row,
}
use paper_live.TradeFacade.Rows.Sizes.{RowOrder, row-RowOrder}

abbrev parse : String → Option Decimal
parse t = if t == "0.5" then some (literal 5 1) else if t == "100" then some (whole 100) else none

abbrev row : PortfolioRow
row = record {
  symbol = some " AAPL";
  target_weight = some "0.5";
  close = some "100";
  price = none;
  portfolio_selected = true;
  portfolio_rank = none;
  rank = none;
  market = none;
  side = none;
}

abbrev sale : OrderIntent
sale = record {
  symbol = "AAPL";
  side = "SELL";
  quantity = whole 10;
  order_type = "MARKET";
  price = none;
  broker = "toss";
  client_order_id = "";
}

thirty-IsExact : IsExact (whole 30)
unfolding fit_ℤ fit excess round_half_even
thirty-IsExact = refl

-- Half of 4000 at 100 is 20 shares; 30 are held.
sells :
    intent_from_portfolio_row parse row (whole 4000) (whole 30) "toss" "MARKET" (whole 1)
    ≡ ok (some sale)
unfolding intent_from_portfolio_row check_sizes check_target target_quantity strip reads_as upper
    sub mul divide to_integral_down fit fit_ℤ excess round_half_even xor ◌+ℤ◌ ◌-ℤ◌
sells = refl

row-RowOrder_example : RowOrder (whole 30) sale
row-RowOrder_example =
    row-RowOrder parse row (whole 4000) (whole 30) "toss" "MARKET" (whole 1) thirty-IsExact sells
