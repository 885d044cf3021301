-- ===== src/OrderLifecycle/Tests.antt =====
-- Runs of the order store, of order_lifecycle.py.
use paper_live.Base.{refl, [], arith}
use paper_live.Base.Dict.{get, string_eq}
use paper_live.Decimal.{whole}
use paper_live.OrderLifecycle.{OrderRecord, OrderStatus}
use paper_live.OrderLifecycle.Invariant.{IsValid, AllValid}

abbrev order : OrderRecord
order = record {
  client_order_id = "o-1";
  symbol = "AAPL";
  side = "BUY";
  quantity = whole 10;
  filled_quantity = whole 0;
  status = OrderStatus.new;
}

order-IsValid : IsValid order
order-IsValid = record {
  nonneg = omega arith;
  bounded = omega arith;
  all_filled = λ e. cc;
  some_left = λ e. cc;
  untouched = λ e. refl;
}

empty-AllValid : AllValid []
unfolding get
empty-AllValid = record { at_id = λ k r e. cc }
