-- ===== src/TradeFacade/Assess.antt =====
-- The orders that an intent becomes, and its assessment by the guardian, of trade_facade.py.
use paper_live.Base.{
  true, false, Option, none, some, List, [], ◌∷◌, String, ◌==◌, Result, ok, err, is_risk_error,
  ◌>>=◌, if◌then◌else◌,
}
use paper_live.Base.Text.{concat}
use paper_live.Decimal
use paper_live.Decimal.{Decimal}
use paper_live.Execution.Types.{OrderType, side_value, PaperOrder}
use paper_live.Execution.Gateway.{Gateway}
use paper_live.Risk
use paper_live.Risk.{RiskGuardian, PortfolioRiskContext, approve_portfolio}
use paper_live.Brokers.{BrokerOrderRequest}
use paper_live.TradeFacade.Types.{
  OrderIntent, normalized_side, normalized_order_type, RiskAssessment,
}

-- `intent.client_order_id or f"paper-{uuid4().hex[:16]}"`; `fresh` is that text.
abbrev pub or_fresh : String → String → String
or_fresh client_order_id fresh = if client_order_id == "" then fresh else client_order_id

unfoldable pub to_paper_order : String → OrderIntent → Result PaperOrder
to_paper_order fresh intent = do
  side ← normalized_side intent
  order_type ← normalized_order_type intent
  ok (record {
    symbol = intent.symbol;
    side = side;
    quantity = intent.quantity;
    order_type = order_type;
    limit_price = intent.price;
    client_order_id = or_fresh intent.client_order_id fresh;
  })

abbrev order_type_value : OrderType → String
order_type_value OrderType.market = "MARKET"
order_type_value OrderType.limit = "LIMIT"

unfoldable pub to_broker_order : OrderIntent → Result BrokerOrderRequest
to_broker_order intent = do
  side ← normalized_side intent
  order_type ← normalized_order_type intent
  ok (record {
    symbol = intent.symbol;
    side = side_value side;
    quantity = intent.quantity;
    order_type = order_type_value order_type;
    price = intent.price;
  })

-- `_estimate_notional`
abbrev pub estimate_notional : OrderIntent → Decimal → Decimal
estimate_notional intent reference_price =
    Decimal.mul intent.quantity (elim intent.price [ none ↦ reference_price | some price ↦ price ])

-- `risk.approve` or `risk.approve_portfolio`
unfoldable pub approve_with :
    PaperOrder → Decimal → Option PortfolioRiskContext → Gateway → RiskGuardian → Result (Unit {0})
approve_with order price none gateway risk =
    Risk.approve order price none gateway.controller gateway.paper.account risk
approve_with order price (some context) gateway risk =
    approve_portfolio order price context gateway.controller gateway.paper.account risk

-- `except (PermissionError, ValueError)`
abbrev pub assessed : Result (Unit {0}) → Result RiskAssessment
assessed (ok _) = ok (record { approved = true; level = "PASS"; violations = [] })
assessed (err e) =
    if is_risk_error e.kind
    then ok (record { approved = false; level = "REJECT"; violations = e.message ∷ [] })
    else err e

-- `_assess_risk`; the order is made outside the `try`.
unfoldable pub assess_risk :
    String
    → OrderIntent
    → Decimal
    → Option PortfolioRiskContext
    → Gateway
    → RiskGuardian
    → Result RiskAssessment
assess_risk fresh intent price context gateway risk = to_paper_order fresh intent >>= λ order.
    assessed (approve_with order price context gateway risk)

-- `"; ".join(violations) or "risk rejected"`
abbrev join : List String → String
join [] = ""
join (v ∷ []) = v
join (v ∷ w ∷ l) = let rest = join (w ∷ l) in concat (v ∷ "; " ∷ rest ∷ [])

abbrev pub reason : List String → String
reason violations = if join violations == "" then "risk rejected" else join violations
