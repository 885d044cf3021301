-- ===== src/Execution/Engine.antt =====
-- `VirtualMatchingEngine` of execution.py. Every raise stands before the first write, so a call
-- gives either an exception and no change, or the fill and the new account.
pub mod Account
pub mod Bounds
use paper_live.Base.{
  ◌≡◌, Bool, true, false, ◌&&◌, ◌||◌, Option, none, some, String, Result, Kind, ok, err, raise,
  raise_if, or_raise, ◌>>=◌, ◌>>◌, if◌then◌else◌,
}
use paper_live.Base.Int.{pos, ltb_ℤ, leb_ℤ, eqb_ℤ}
use paper_live.Base.Dict.{Dict, get, put, string_eq}
use paper_live.Decimal
use paper_live.Decimal.{Decimal, whole, cent, quantize_down}
use paper_live.Execution.Types.{OrderSide, OrderType, PaperOrder, Fill, PaperAccount}

pub record Engine : Type 0 where
  pub account : PaperAccount
  pub fee_rate : Decimal
  pub sell_tax_rate : Decimal
  pub slippage_bps : Decimal
  pub max_fill_ratio : Decimal

abbrev limit_check : OrderSide → OrderType → Option Decimal → Decimal → Result (Unit {0})
limit_check side OrderType.market limit_price market_price = ok tt
limit_check side OrderType.limit none market_price = raise Kind.value_error "limit_price required"
limit_check OrderSide.buy OrderType.limit (some bound) market_price =
    raise_if (ltb_ℤ bound market_price) Kind.value_error "limit buy not marketable"
limit_check OrderSide.sell OrderType.limit (some bound) market_price =
    raise_if (ltb_ℤ market_price bound) Kind.value_error "limit sell not marketable"

-- The guards at the head of `execute`.
unfoldable pub validate : PaperOrder → Decimal → Engine → Result (Unit {0})
validate order market_price e = do
  raise_if (leb_ℤ order.quantity (pos 0) || leb_ℤ market_price (pos 0)) Kind.value_error
      "quantity and market_price must be positive"
  raise_if
      (ltb_ℤ e.slippage_bps (pos 0)
        || leb_ℤ e.max_fill_ratio (pos 0)
        || ltb_ℤ (whole 1) e.max_fill_ratio)
      Kind.value_error "invalid matching parameters"
  limit_check order.side order.order_type order.limit_price market_price

abbrev at_most : Option Decimal → Decimal → Decimal
at_most none q = q
at_most (some available) q = Decimal.min q available

-- `fill_qty`
unfoldable pub fill_quantity : PaperOrder → Option Decimal → Engine → Decimal
fill_quantity order available_quantity e =
    at_most available_quantity (Decimal.mul order.quantity e.max_fill_ratio)

unfoldable pub fill_price : OrderSide → Decimal → Engine → Result Decimal
fill_price side market_price e = do
  slip ← Decimal.divide e.slippage_bps (whole 10000)
  ok (
      Decimal.mul market_price (elim side [
        | OrderSide.buy ↦ Decimal.add (whole 1) slip
        | OrderSide.sell ↦ Decimal.sub (whole 1) slip
      ]))

-- `fee`, or `tax`: a rate of the gross amount, in cents, rounded down.
abbrev charge : Decimal → Decimal → Result Decimal
charge gross rate = quantize_down cent (Decimal.mul gross rate)

abbrev pub held : String → PaperAccount → Decimal
held symbol account = elim (get symbol account.positions) [ none ↦ pos 0 | some q ↦ q ]

-- The writes to the account.
unfoldable pub settle :
    OrderSide → String → Decimal → Decimal → Decimal → Decimal → PaperAccount → Result PaperAccount
settle OrderSide.buy symbol fill_qty gross fee tax account =
    let total = Decimal.add gross fee in
    if ltb_ℤ account.cash total
    then raise Kind.value_error "insufficient paper cash"
    else ok (record {
      cash = Decimal.sub account.cash total;
      positions = put symbol (Decimal.add (held symbol account) fill_qty) account.positions;
    })
settle OrderSide.sell symbol fill_qty gross fee tax account =
    if ltb_ℤ (held symbol account) fill_qty
    then raise Kind.value_error "insufficient paper position"
    else ok (record {
      cash = Decimal.add account.cash (Decimal.sub (Decimal.sub gross fee) tax);
      positions = put symbol (Decimal.sub (held symbol account) fill_qty) account.positions;
    })

abbrev sale_tax : OrderSide → Decimal → Decimal → Result Decimal
sale_tax OrderSide.buy gross rate = ok (pos 0)
sale_tax OrderSide.sell gross rate = charge gross rate

pub record Charges : Type 0 where
  pub price : Decimal
  pub gross : Decimal
  pub fee : Decimal
  pub tax : Decimal

-- `fill_price`, `gross`, `fee` and `tax` in `execute`.
unfoldable pub charges : OrderSide → Decimal → Decimal → Engine → Result Charges
charges side market_price fill_qty e = do
  price ← fill_price side market_price e
  gross ← quantize_down cent (Decimal.mul fill_qty price)
  fee ← charge gross e.fee_rate
  tax ← sale_tax side gross e.sell_tax_rate
  ok (record { price = price; gross = gross; fee = fee; tax = tax })

abbrev pub filled : PaperOrder → Decimal → Charges → Fill
filled order fill_qty c = record {
  order_id = order.client_order_id;
  symbol = order.symbol;
  side = order.side;
  quantity = fill_qty;
  price = c.price;
  fee = c.fee;
  tax = c.tax;
  status = if eqb_ℤ fill_qty order.quantity then "FILLED" else "PARTIALLY_FILLED";
}

-- The part of `execute` behind the test for a fill of nothing.
unfoldable pub trade : PaperOrder → Decimal → Decimal → Engine → Result (Fill × Engine)
trade order market_price fill_qty e = do
  c ← charges order.side market_price fill_qty e
  account ← settle order.side order.symbol fill_qty c.gross c.fee c.tax e.account
  ok (filled order fill_qty c, record e { account = account })

abbrev pub nothing_filled : PaperOrder → Decimal → Decimal → String → Fill
nothing_filled order quantity market_price status = record {
  order_id = order.client_order_id;
  symbol = order.symbol;
  side = order.side;
  quantity = quantity;
  price = market_price;
  fee = pos 0;
  tax = pos 0;
  status = status;
}

unfoldable pub execute : PaperOrder → Decimal → Option Decimal → Engine → Result (Fill × Engine)
execute order market_price available_quantity e = do
  validate order market_price e
  let fill_qty = fill_quantity order available_quantity e
  if leb_ℤ fill_qty (pos 0)
      then ok (nothing_filled order (pos 0) market_price "REJECTED", e)
      else trade order market_price fill_qty e
