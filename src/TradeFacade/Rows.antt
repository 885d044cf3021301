-- ===== src/TradeFacade/Rows.antt =====
-- The orders that the rows of a target portfolio become, of trade_facade.py. `parse` is the
-- constructor of `Decimal` on a text; a row has the texts of its values.
pub mod Sizes
mod Tests
use paper_live.Base.{
  Bool, true, false, ◌||◌, not, Option, none, some, List, [], ◌∷◌, String, ◌==◌, Result, Kind, ok,
  err, raise, raise_if, or_raise, ◌>>=◌, ◌>>◌, if◌then◌else◌,
}
use paper_live.Base.Int.{pos, nat_abs, ltb_ℤ, leb_ℤ, eqb_ℤ}
use paper_live.Base.Text.{strip, reads_as}
use paper_live.Decimal
use paper_live.Decimal.{Decimal, whole}
use paper_live.PortfolioRisk.{or_default}
use paper_live.TradeFacade.Types.{OrderIntent, PortfolioRow}

abbrev pub parsed : (String → Option Decimal) → String → Result Decimal
parsed parse t =
    or_raise (parse t) Kind.value_error "portfolio row has invalid target_weight or price"

-- The two guards of `intent_from_portfolio_row`.
unfoldable pub check_sizes : String → Decimal → Decimal → Decimal → Result (Unit {0})
check_sizes symbol account_value current_quantity lot_size =
    raise_if
      (symbol == ""
        || leb_ℤ account_value (pos 0)
        || ltb_ℤ current_quantity (pos 0)
        || leb_ℤ lot_size (pos 0))
      Kind.value_error "symbol, account_value, current_quantity and lot_size must be valid"

unfoldable pub check_target : Decimal → Decimal → Result (Unit {0})
check_target weight price =
    raise_if (ltb_ℤ weight (pos 0) || ltb_ℤ (whole 1) weight || leb_ℤ price (pos 0))
      Kind.value_error "target_weight must be in [0, 1] and price must be positive"

-- `((account_value * weight) / price / lot_size).to_integral_value(ROUND_DOWN) * lot_size`
unfoldable pub target_quantity : Decimal → Decimal → Decimal → Decimal → Result Decimal
target_quantity account_value weight price lot_size = do
  shares ← Decimal.divide (Decimal.mul account_value weight) price
  lots ← Decimal.divide shares lot_size
  ok (Decimal.mul (Decimal.to_integral_down lots) lot_size)

-- The order for a difference `delta` of quantities, if there is one.
abbrev pub intent_for : String → Decimal → Decimal → String → String → Option OrderIntent
intent_for symbol delta price broker order_type =
    if eqb_ℤ delta (pos 0)
    then none
    else some (record {
      symbol = symbol;
      side = if ltb_ℤ (pos 0) delta then "BUY" else "SELL";
      quantity = pos (nat_abs delta);
      order_type = order_type;
      price = if reads_as order_type "LIMIT" then some price else none;
      broker = broker;
      client_order_id = "";
    })

unfoldable pub intent_from_portfolio_row :
    (String → Option Decimal)
    → PortfolioRow
    → Decimal
    → Decimal
    → String
    → String
    → Decimal
    → Result (Option OrderIntent)
intent_from_portfolio_row parse row account_value current_quantity broker order_type lot_size = do
  let symbol = strip (or_default row.symbol "")
  check_sizes symbol account_value current_quantity lot_size
  weight ← parsed parse (or_default row.target_weight "0")
  price ← parsed parse (or_default row.close (or_default row.price "0"))
  check_target weight price
  target ← target_quantity account_value weight price lot_size
  ok (intent_for symbol (Decimal.sub target current_quantity) price broker order_type)
