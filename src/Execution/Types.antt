-- ===== src/Execution/Types.antt =====
-- The order, fill and account types of execution.py.
use paper_live.Base.{Option, String}
use paper_live.Base.Dict.{Dict}
use paper_live.Decimal.{Decimal}

pub data OrderSide : Type 0 where
  buy sell : OrderSide

abbrev pub side_value : OrderSide → String
side_value OrderSide.buy = "BUY"
side_value OrderSide.sell = "SELL"

pub data OrderType : Type 0 where
  market limit : OrderType

-- `PaperOrderRequest`
pub record PaperOrder : Type 0 where
  pub symbol : String
  pub side : OrderSide
  pub quantity : Decimal
  pub order_type : OrderType
  pub limit_price : Option Decimal
  pub client_order_id : String

pub record Fill : Type 0 where
  pub order_id : String
  pub symbol : String
  pub side : OrderSide
  pub quantity : Decimal
  pub price : Decimal
  pub fee : Decimal
  pub tax : Decimal
  pub status : String

pub record PaperAccount : Type 0 where
  pub cash : Decimal
  pub positions : Dict String Decimal
