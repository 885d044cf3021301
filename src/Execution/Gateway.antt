-- ===== src/Execution/Gateway.antt =====
-- `ExecutionGateway` of execution.py: the mode, the skill and the order's history are checked before
-- the engine is called, and the order's lifecycle is kept beside it.
pub mod Refusal
pub mod Settled
pub mod Idempotence
pub mod Soundness
pub mod Steady
use paper_live.Base.{
  Bool, true, false, ◌&&◌, ◌||◌, not, Option, none, some, String, ◌==◌, Result, Kind, ok, err,
  if◌then◌else◌,
}
use paper_live.Base.Int.{pos, ltb_ℤ, leb_ℤ, eqb_ℤ}
use paper_live.Base.Dict.{get, string_eq}
use paper_live.Base.Exec.{Exec, pure, throw, throw_if, lift, gets, zoom, ◌>>=◌, ◌>>◌}
use paper_live.Decimal
use paper_live.Decimal.{Decimal}
use paper_live.Environment.{Controller, is_live, assert_skill_allowed}
use paper_live.OrderLifecycle
use paper_live.OrderLifecycle.{OrderRecord, OrderStatus, Orders, is_terminal, status_value}
use paper_live.Execution.Types.{OrderSide, side_value, PaperOrder, Fill}
use paper_live.Execution.Engine
use paper_live.Execution.Engine.{Engine, nothing_filled}

pub record Gateway : Type 0 where
  pub controller : Controller
  pub paper : Engine
  pub lifecycle : Orders

-- `paper.execute`, `lifecycle.submit`, `lifecycle.fill` and `lifecycle.cancel` on the gateway's own
-- objects.
abbrev pub with_paper : Gateway → Engine → Gateway
with_paper g paper = record g { paper = paper }

abbrev pub with_lifecycle : Gateway → Orders → Gateway
with_lifecycle g lifecycle = record g { lifecycle = lifecycle }

unfoldable pub run_paper : PaperOrder → Decimal → Option Decimal → Exec Gateway Fill
run_paper order market_price available_quantity =
    zoom (λ g. g.paper) with_paper (Engine.execute order market_price available_quantity)

unfoldable pub on_lifecycle : (Orders → Result (OrderRecord × Orders)) → Exec Gateway OrderRecord
on_lifecycle = zoom (λ g. g.lifecycle) with_lifecycle

abbrev pub new_record : PaperOrder → OrderRecord
new_record order = record {
  client_order_id = order.client_order_id;
  symbol = order.symbol;
  side = side_value order.side;
  quantity = order.quantity;
  filled_quantity = pos 0;
  status = OrderStatus.new;
}

-- `existing.symbol != order.symbol or ...`
abbrev pub differs : OrderRecord → PaperOrder → Bool
differs existing order =
    not (existing.symbol == order.symbol)
    || not (existing.side == side_value order.side)
    || not (eqb_ℤ existing.quantity order.quantity)

abbrev is_filled : OrderStatus → Bool
is_filled OrderStatus.filled = true
is_filled _ = false

-- The update of the lifecycle behind the engine's call.
unfoldable pub record_fill : PaperOrder → Fill → Exec Gateway Fill
record_fill order fill =
    if ltb_ℤ (pos 0) fill.quantity
    then (do
      updated ← on_lifecycle (OrderLifecycle.fill order.client_order_id fill.quantity)
      pure (
          if is_filled updated.status && not (fill.status == "FILLED")
          then record fill { status = "FILLED" }
          else fill))
    else (do canceled ← on_lifecycle (OrderLifecycle.cancel order.client_order_id); pure fill)

unfoldable pub run_order : PaperOrder → PaperOrder → Decimal → Option Decimal → Exec Gateway Fill
run_order order effective_order market_price available_quantity = do
  fill ← run_paper effective_order market_price available_quantity
  record_fill order fill

-- The two ways to the engine: for an id that is known, and for a new one.
unfoldable pub resume : PaperOrder → OrderRecord → Decimal → Option Decimal → Exec Gateway Fill
resume order existing market_price available_quantity = do
  throw_if (differs existing order) Kind.value_error
      "client_order_id already used with different order"
  let report =
      nothing_filled order existing.filled_quantity market_price (status_value existing.status)
  let remaining = Decimal.sub order.quantity existing.filled_quantity
  if is_terminal existing.status || leb_ℤ remaining (pos 0)
      then pure report
      else run_order order (record order { quantity = remaining }) market_price available_quantity

unfoldable pub begin : PaperOrder → Decimal → Option Decimal → Exec Gateway Fill
begin order market_price available_quantity = do
  submitted ← on_lifecycle (OrderLifecycle.submit (new_record order))
  run_order order order market_price available_quantity

-- `execute` behind the guards.
unfoldable pub dispatch :
    PaperOrder → Option OrderRecord → Decimal → Option Decimal → Exec Gateway Fill
dispatch order none = begin order
dispatch order (some existing) = resume order existing

unfoldable pub execute : PaperOrder → Decimal → Option Decimal → Exec Gateway Fill
execute order market_price available_quantity = do
  mode ← gets (λ g. g.controller.mode)
  throw_if (is_live mode) Kind.transition_error
      "REAL_LIVE execution requires an explicitly authorized broker adapter; paper gateway refuses it"
  controller ← gets (λ g. g.controller)
  lift (assert_skill_allowed "skill-virtual-matching-engine" controller)
  throw_if (order.client_order_id == "") Kind.value_error
      "client_order_id is required for idempotent execution"
  lifecycle ← gets (λ g. g.lifecycle)
  dispatch order (get order.client_order_id lifecycle) market_price available_quantity

-- `ExecutionGateway.cancel`
unfoldable pub cancel : String → Exec Gateway OrderRecord
cancel client_order_id = on_lifecycle (OrderLifecycle.cancel client_order_id)
