-- ===== src/OrderLifecycle.antt =====
-- paper_live/order_lifecycle.py: the store of orders by client order id.
pub mod Invariant
mod Tests
use paper_live.Base.{
  Bool, true, false, ◌&&◌, ◌||◌, not, Option, none, some, String, ◌==◌, Result, Kind, ok, err,
  raise, raise_if, or_raise, ◌>>=◌, ◌>>◌, if◌then◌else◌,
}
use paper_live.Base.Int.{pos, ltb_ℤ, leb_ℤ, eqb_ℤ}
use paper_live.Base.Dict.{Dict, get, put, string_eq}
use paper_live.Decimal
use paper_live.Decimal.{Decimal}

pub data OrderStatus : Type 0 where
  new partially_filled filled canceled rejected : OrderStatus

-- `status.value`
abbrev pub status_value : OrderStatus → String
status_value OrderStatus.new = "NEW"
status_value OrderStatus.partially_filled = "PARTIALLY_FILLED"
status_value OrderStatus.filled = "FILLED"
status_value OrderStatus.canceled = "CANCELED"
status_value OrderStatus.rejected = "REJECTED"

pub record OrderRecord : Type 0 where
  pub client_order_id : String
  pub symbol : String
  pub side : String
  pub quantity : Decimal
  pub filled_quantity : Decimal
  pub status : OrderStatus

-- `status in {FILLED, CANCELED, REJECTED}`
abbrev pub is_terminal : OrderStatus → Bool
is_terminal OrderStatus.new = false
is_terminal OrderStatus.partially_filled = false
is_terminal _ = true

-- The dataclass's `==`.
abbrev pub same_record : OrderRecord → OrderRecord → Bool
same_record a b =
    a.client_order_id == b.client_order_id
    && a.symbol == b.symbol
    && a.side == b.side
    && eqb_ℤ a.quantity b.quantity
    && eqb_ℤ a.filled_quantity b.filled_quantity
    && status_value a.status == status_value b.status

-- `OrderLifecycle`: its `_orders`.
abbrev pub Orders : Type 0
Orders = Dict String OrderRecord

abbrev resubmitted : OrderRecord → Option OrderRecord → Orders → Result (OrderRecord × Orders)
resubmitted order none orders = ok (order, put order.client_order_id order orders)
resubmitted order (some existing) orders =
    if not (same_record existing order)
    then raise Kind.value_error "client_order_id already used with different order"
    else ok (existing, orders)

unfoldable pub submit : OrderRecord → Orders → Result (OrderRecord × Orders)
submit order orders = resubmitted order (get order.client_order_id orders) orders

-- `_get`
abbrev require : String → Orders → Result OrderRecord
require client_order_id orders =
    or_raise (get client_order_id orders) Kind.key_error client_order_id

-- `replace(current, filled_quantity=filled, status=status)` in `fill`
abbrev pub fill_record : OrderRecord → Decimal → OrderRecord
fill_record current quantity =
    let filled = Decimal.add current.filled_quantity quantity in
    record current {
      filled_quantity = filled;
      status =
          if eqb_ℤ filled current.quantity
          then OrderStatus.filled
          else OrderStatus.partially_filled;
    }

unfoldable pub fill : String → Decimal → Orders → Result (OrderRecord × Orders)
fill client_order_id quantity orders = do
  current ← require client_order_id orders
  raise_if
      (leb_ℤ quantity (pos 0)
        || ltb_ℤ current.quantity (Decimal.add current.filled_quantity quantity))
      Kind.value_error "invalid fill quantity"
  let updated = fill_record current quantity
  ok (updated, put client_order_id updated orders)

unfoldable pub cancel : String → Orders → Result (OrderRecord × Orders)
cancel client_order_id orders = do
  current ← require client_order_id orders
  let updated = record current { status = OrderStatus.canceled }
  if is_terminal current.status
      then ok (current, orders)
      else ok (updated, put client_order_id updated orders)
