-- ===== src/Execution/Gateway/Steady.antt =====
-- The gateway never changes its controller, of execution.py.
use paper_live.Base.{◌≡◌, Option, none, some, Result}
use paper_live.Base.Dict.{string_eq}
use paper_live.Base.Exec.{Keeps, Keeps-zoom, keeps_rules}
use paper_live.Decimal.{Decimal}
use paper_live.Environment.{Controller}
use paper_live.OrderLifecycle.{OrderRecord, Orders}
use paper_live.Execution.Types.{PaperOrder}
use paper_live.Execution.Gateway.{
  Gateway, with_paper, with_lifecycle, run_paper, on_lifecycle, record_fill, run_order, resume,
  begin, dispatch, execute,
}

-- The controller is `c`.
pub record Steered (c : Controller) (g : Gateway) : Type 0 where
  pub controller : g.controller ≡ c

run_paper-Steered :
    (c : Controller) (order : PaperOrder) (price : Decimal) (available : Option Decimal)
    → Keeps (Steered c) (run_paper order price available)
unfolding run_paper
run_paper-Steered c order price available =
    Keeps-zoom (Steered c) (λ _. Unit {0}) _ with_paper _ (λ g h. tt) (λ e h. tt)
      (λ g e h k. record { controller = h.controller })

on_lifecycle-Steered :
    (c : Controller) (f : Orders → Result (OrderRecord × Orders))
    → Keeps (Steered c) (on_lifecycle f)
unfolding on_lifecycle
on_lifecycle-Steered c f =
    Keeps-zoom (Steered c) (λ _. Unit {0}) _ with_lifecycle f (λ g h. tt) (λ o h. tt)
      (λ g o h k. record { controller = h.controller })

ruleset steered_rules = (keeps_rules, run_paper-Steered, on_lifecycle-Steered)

run_order-Steered :
    (c : Controller) (order effective : PaperOrder) (price : Decimal) (available : Option Decimal)
    → Keeps (Steered c) (run_order order effective price available)
unfolding run_order record_fill
run_order-Steered c order effective price available = search steered_rules

dispatch-Steered :
    (c : Controller) (order : PaperOrder) (known : Option OrderRecord) (price : Decimal)
    (available : Option Decimal)
    → Keeps (Steered c) (dispatch order known price available)
unfolding dispatch begin resume
dispatch-Steered c order none price available = search (steered_rules, run_order-Steered)
dispatch-Steered c order (some existing) price available = search (steered_rules, run_order-Steered)

pub execute-Steered :
    (c : Controller) (order : PaperOrder) (price : Decimal) (available : Option Decimal)
    → Keeps (Steered c) (execute order price available)
unfolding execute
execute-Steered c order price available = search (keeps_rules, dispatch-Steered) depth 9
