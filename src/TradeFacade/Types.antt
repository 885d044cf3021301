-- ===== src/TradeFacade/Types.antt =====
-- The data types of trade_facade.py.
use paper_live.Base.{
  ℕ, Bool, true, false, Option, List, String, [], ◌∷◌, Result, Kind, ok, raise, if◌then◌else◌,
}
use paper_live.Base.Text.{reads_as, concat}
use paper_live.Decimal.{Decimal}
use paper_live.Execution.Types.{OrderSide, OrderType}
use paper_live.PortfolioRisk.{PortfolioRiskSnapshot}

pub record OrderIntent : Type 0 where
  pub symbol : String
  pub side : String
  pub quantity : Decimal
  pub order_type : String
  pub price : Option Decimal
  pub broker : String
  pub client_order_id : String

unfoldable pub normalized_side : OrderIntent → Result OrderSide
normalized_side intent =
    if reads_as intent.side "BUY"
    then ok OrderSide.buy
    else if reads_as intent.side "SELL"
    then ok OrderSide.sell
    else raise Kind.value_error (concat ("invalid side: " ∷ intent.side ∷ []))

unfoldable pub normalized_order_type : OrderIntent → Result OrderType
normalized_order_type intent =
    if reads_as intent.order_type "MARKET"
    then ok OrderType.market
    else if reads_as intent.order_type "LIMIT"
    then ok OrderType.limit
    else raise Kind.value_error (concat ("invalid order_type: " ∷ intent.order_type ∷ []))

pub record RiskAssessment : Type 0 where
  pub approved : Bool
  pub level : String
  pub violations : List String

pub record OrderPreview : Type 0 where
  pub intent : OrderIntent
  pub estimated_notional : Decimal
  pub currency : String
  pub risk : RiskAssessment
  pub requires_approval : Bool
  pub preview_id : String
  pub mode : String
  pub message : String

-- A row of a target portfolio: the texts of its values, its ranks and its mark, each of which may be
-- missing.
pub record PortfolioRow : Type 0 where
  pub symbol : Option String
  pub target_weight : Option String
  pub close : Option String
  pub price : Option String
  pub portfolio_selected : Bool
  pub portfolio_rank : Option ℕ
  pub rank : Option ℕ
  pub market : Option String
  pub side : Option String

pub record PortfolioRevalidation : Type 0 where
  pub snapshot : PortfolioRiskSnapshot
  pub intent : Option OrderIntent
  pub preview : Option OrderPreview

pub record PortfolioPreflightResult : Type 0 where
  pub rows_checked : ℕ
  pub approved : List PortfolioRevalidation
  pub rejected : List (PortfolioRow × String)

-- `not self.rejected`
abbrev pub all_approved : PortfolioPreflightResult → Bool
all_approved result = elim result.rejected [ [] ↦ true | _ ∷ _ ↦ false ]
