-- ===== src/Execution/Gateway/Idempotence.antt =====
-- `client_order_id` makes a call of the gateway idempotent, of execution.py.
use paper_live.Base.{◌≡◌, ◌≢◌, ◌⊎◌, if◌then◌else◌}
use paper_live.Base.Int.{pos, ltb_ℤ}
use paper_live.Base.Dict.{string_eq}
use paper_live.Decimal.{Decimal}
use paper_live.Execution.Types.{PaperOrder, Fill}
use paper_live.Execution.Gateway.{Gateway}

-- Two orders differ in what they ask for.
abbrev pub Apart : PaperOrder → PaperOrder → Type 0
Apart order other =
    (other.symbol ≢ order.symbol) ⊎ ((other.side ≢ order.side) ⊎ (other.quantity ≢ order.quantity))

-- They ask for the same.
pub record Alike (order other : PaperOrder) : Type 0 where
  pub symbol : other.symbol ≡ order.symbol
  pub side : other.side ≡ order.side
  pub quantity : other.quantity ≡ order.quantity

-- The answer to an order that was closed by the fill `first`: what that filled, at no cost.
abbrev pub repeated : PaperOrder → Fill → Decimal → Fill
repeated order first market_price = record {
  order_id = order.client_order_id;
  symbol = order.symbol;
  side = order.side;
  quantity = if ltb_ℤ (pos 0) first.quantity then first.quantity else pos 0;
  price = market_price;
  fee = pos 0;
  tax = pos 0;
  status = if ltb_ℤ (pos 0) first.quantity then "FILLED" else "CANCELED";
}
