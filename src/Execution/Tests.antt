-- ===== src/Execution/Tests.antt =====
-- Runs of the engine and the gateway, of execution.py, on small orders.
use paper_live.Base.{◌≡◌, refl, none, some, [], ◌∷◌, ok, arith, eq_iff}
use paper_live.Base.Int.{pos, ◌+ℤ◌, ◌-ℤ◌, ◌≤ℤ◌, ◌<ℤ◌}
use paper_live.Base.Dict.{get, put, string_eq}
use paper_live.Base.Exec.{Keeps}
use paper_live.Decimal
use paper_live.Decimal.{
  Decimal, whole, literal, xor, add, sub, mul, divide, neg, quantize_down, fit, fit_ℤ, excess,
  round_half_even,
}
use paper_live.Decimal.Laws.{IsExact}
use paper_live.Environment.{Mode}
use paper_live.OrderLifecycle.{OrderRecord, OrderStatus}
use paper_live.Execution.Types.{OrderSide, OrderType, PaperOrder, Fill}
use paper_live.Execution.Engine
use paper_live.Execution.Engine.{
  Engine, nothing_filled, validate, fill_quantity, fill_price, charges, trade, settle,
}
use paper_live.Execution.Engine.Bounds.{execute_bounds, execute_frame}
use paper_live.Execution.Gateway.{Gateway, execute}
use paper_live.OrderLifecycle
use paper_live.Execution.Gateway.Soundness.{IsSound, execute-IsSound}

abbrev engine : Engine
engine = record {
  account = record { cash = whole 10000; positions = [] };
  fee_rate = literal 15 5;
  sell_tax_rate = literal 18 4;
  slippage_bps = whole 5;
  max_fill_ratio = whole 1;
}

abbrev order : PaperOrder
order = record {
  symbol = "AAPL";
  side = OrderSide.buy;
  quantity = whole 10;
  order_type = OrderType.market;
  limit_price = none;
  client_order_id = "o-1";
}

abbrev bought : Fill
bought = record {
  order_id = "o-1";
  symbol = "AAPL";
  side = OrderSide.buy;
  quantity = whole 10;
  price = literal 10005 2;
  fee = literal 15 2;
  tax = pos 0;
  status = "FILLED";
}

abbrev engine_after : Engine
engine_after = record engine {
  account = record { cash = literal 899935 2; positions = ("AAPL", whole 10) ∷ [] };
}

ten-IsExact : IsExact (whole 10)
unfolding fit_ℤ fit excess round_half_even
ten-IsExact = refl

hundred-IsExact : IsExact (whole 100)
unfolding fit_ℤ fit excess round_half_even
hundred-IsExact = refl

purchase : Engine.execute order (whole 100) none engine ≡ ok (bought, engine_after)
unfolding Engine.execute validate fill_quantity fill_price charges trade settle Decimal.add
    Decimal.sub Decimal.mul Decimal.divide quantize_down fit fit_ℤ excess round_half_even ◌+ℤ◌ ◌-ℤ◌
    xor get put
purchase = refl

execute_bounds_example :
    (whole 10 ≤ℤ whole 10)
    × (pos 0 <ℤ whole 10 → (a : Decimal) → none ≡ some a → whole 10 ≤ℤ a)
    × (OrderSide.buy ≡ OrderSide.buy → whole 100 ≤ℤ literal 10005 2)
    × (OrderSide.buy ≡ OrderSide.sell → literal 10005 2 ≤ℤ whole 100)
execute_bounds_example =
    execute_bounds order (whole 100) none engine ten-IsExact hundred-IsExact purchase

execute_frame_example :
    (get "MSFT" engine_after.account.positions ≡ get "MSFT" engine.account.positions)
    × (engine_after ≡ record engine { account = engine_after.account })
execute_frame_example =
    execute_frame order (whole 100) none engine "MSFT" (λ e. ground (arith, eq_iff "AAPL" "MSFT"))
      purchase

abbrev closed_order : OrderRecord
closed_order = record {
  client_order_id = "o-1";
  symbol = "AAPL";
  side = "BUY";
  quantity = whole 10;
  filled_quantity = whole 10;
  status = OrderStatus.filled;
}

abbrev gateway_in : Mode → Gateway
gateway_in mode = record {
  controller = record {
    mode = mode;
    version = 0;
    changed_at = 0;
    changed_by = "system";
    transition_secret = none;
    live_approval_gate = none;
    time_triggers = [];
    kpi_triggers = [];
  };
  paper = engine;
  lifecycle = ("o-1", closed_order) ∷ [];
}

abbrev fresh_gateway : Gateway
fresh_gateway = record (gateway_in Mode.paper_sandbox) { lifecycle = [] }

-- The gateway behind the purchase.
abbrev gateway_after : Gateway
gateway_after = record (gateway_in Mode.paper_sandbox) { paper = engine_after }

execute-IsSound_example : Keeps IsSound (execute order (whole 100) none)
execute-IsSound_example = execute-IsSound order (whole 100) none (omega arith)
