-- ===== src/Execution/Gateway/Refusal.antt =====
-- What the gateway refuses, of execution.py.
use paper_live.Base.{◌≡◌, true, false, Option, is_ok, arith}
use paper_live.Base.Exec.{◌>>=◌, lift, gets}
use paper_live.Decimal.{Decimal}
use paper_live.Environment.{is_live}
use paper_live.Execution.Types.{PaperOrder}
use paper_live.Execution.Gateway.{Gateway, execute}

-- In REAL_LIVE the paper gateway raises and changes nothing, whatever the order.
execute-live :
    (order : PaperOrder) (market_price : Decimal) (available : Option Decimal) (g : Gateway)
    → is_live g.controller.mode ≡ true
    → (is_ok (execute order market_price available g).0 ≡ false)
      × ((execute order market_price available g).1 ≡ g)
unfolding execute ◌>>=◌ lift gets
execute-live order market_price available g live = (ground arith, ground arith)
