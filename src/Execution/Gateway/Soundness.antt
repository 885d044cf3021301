-- ===== src/Execution/Gateway/Soundness.antt =====
-- What every call of the gateway keeps, of execution.py: valid orders and no short position.
use paper_live.Base.{refl, Option, none, some, String, Result, after, arith}
use paper_live.Base.Int.{pos, ◌≤ℤ◌}
use paper_live.Base.Dict.{string_eq}
use paper_live.Base.Exec.{Keeps, Keeps-bind, Keeps-zoom, keeps_rules}
use paper_live.Decimal.{Decimal}
use paper_live.OrderLifecycle.{OrderRecord, Orders}
use paper_live.OrderLifecycle.Invariant.{
  IsValid, AllValid, submit-AllValid, fill-AllValid, cancel-AllValid,
}
use paper_live.Execution.Types.{PaperOrder, Fill}
use paper_live.Execution.Engine.Account.{NoShort, execute-NoShort}
use paper_live.Execution.Gateway.{
  Gateway, with_paper, with_lifecycle, run_paper, on_lifecycle, new_record, record_fill, run_order,
  resume, begin, dispatch, execute, cancel,
}

pub record IsSound (g : Gateway) : Type 0 where
  pub orders : AllValid g.lifecycle
  pub positions : NoShort g.paper.account

run_paper-IsSound :
    (order : PaperOrder) (price : Decimal) (available : Option Decimal)
    → Keeps IsSound (run_paper order price available)
unfolding run_paper
run_paper-IsSound order price available =
    Keeps-zoom IsSound (λ e. NoShort e.account) _ with_paper _ (λ g h. h.positions)
      (execute-NoShort order price available)
      (λ g e h k. record { orders = h.orders; positions = k })

on_lifecycle-IsSound :
    (f : Orders → Result (OrderRecord × Orders))
    → ((orders : Orders) → AllValid orders → AllValid (after orders (f orders)))
    → Keeps IsSound (on_lifecycle f)
unfolding on_lifecycle
on_lifecycle-IsSound f kf =
    Keeps-zoom IsSound AllValid _ with_lifecycle f (λ g h. h.orders) kf
      (λ g orders h k. record { orders = k; positions = h.positions })

ruleset sound_rules =
    (keeps_rules, run_paper-IsSound, on_lifecycle-IsSound, fill-AllValid, cancel-AllValid)

record_fill-IsSound : (order : PaperOrder) (fill : Fill) → Keeps IsSound (record_fill order fill)
unfolding record_fill
record_fill-IsSound order fill = search sound_rules

run_order-IsSound :
    (order effective : PaperOrder) (price : Decimal) (available : Option Decimal)
    → Keeps IsSound (run_order order effective price available)
unfolding run_order
run_order-IsSound order effective price available = search (sound_rules, record_fill-IsSound)

resume-IsSound :
    (order : PaperOrder) (existing : OrderRecord) (price : Decimal) (available : Option Decimal)
    → Keeps IsSound (resume order existing price available)
unfolding resume
resume-IsSound order existing price available = search (sound_rules, run_order-IsSound)

new_record-IsValid : (order : PaperOrder) → pos 0 ≤ℤ order.quantity → IsValid (new_record order)
new_record-IsValid order h = record {
  nonneg = omega arith;
  bounded = h;
  all_filled = λ e. cc;
  some_left = λ e. cc;
  untouched = λ e. refl;
}

begin-IsSound :
    (order : PaperOrder) (price : Decimal) (available : Option Decimal)
    → pos 0 ≤ℤ order.quantity
    → Keeps IsSound (begin order price available)
unfolding begin
begin-IsSound order price available q =
    Keeps-bind _ _
      (on_lifecycle-IsSound _
        (λ orders h. submit-AllValid (new_record order) orders h (new_record-IsValid order q)))
      (λ r. run_order-IsSound order order price available)

dispatch-IsSound :
    (order : PaperOrder) (known : Option OrderRecord) (price : Decimal) (available : Option Decimal)
    → pos 0 ≤ℤ order.quantity
    → Keeps IsSound (dispatch order known price available)
unfolding dispatch
dispatch-IsSound order none price available q = begin-IsSound order price available q
dispatch-IsSound order (some existing) price available q =
    resume-IsSound order existing price available

-- Every call for an order whose quantity is not negative keeps the gateway sound, whether it
-- returns or raises: each stored order has 0 ≤ filled ≤ quantity under a status that agrees, and
-- no position is short.
pub execute-IsSound :
    (order : PaperOrder) (price : Decimal) (available : Option Decimal)
    → pos 0 ≤ℤ order.quantity
    → Keeps IsSound (execute order price available)
unfolding execute
execute-IsSound order price available q = search (keeps_rules, dispatch-IsSound) depth 9

-- Every cancellation keeps the gateway sound, whether it returns or raises: valid orders, and no
-- short position.
pub cancel-IsSound : (client_order_id : String) → Keeps IsSound (cancel client_order_id)
unfolding cancel
cancel-IsSound client_order_id = on_lifecycle-IsSound _ (cancel-AllValid client_order_id)
