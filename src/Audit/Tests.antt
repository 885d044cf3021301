-- ===== src/Audit/Tests.antt =====
-- A trail with one submission, of execution_audit.py.
use paper_live.Base.{ℕ, true, none, some, [], ◌∷◌}
use paper_live.Base.Int.{pos}
use paper_live.Base.Exec.{Keeps}
use paper_live.Decimal.{whole}
use paper_live.Execution.Types.{OrderSide, Fill}
use paper_live.Brokers.{OrderResult}
use paper_live.TradeFacade.Types.{
  OrderIntent, RiskAssessment, PortfolioRow, PortfolioPreflightResult,
}
use paper_live.Audit.{AuditRecord, AuditTrail}
use paper_live.Audit.Calls.{
  Origin, submission, create_submission, record_fill, record_answer, record_pnl, record_reflection,
}
use paper_live.Audit.Distinct.{IsDistinct, records-IsDistinct}
use paper_live.Audit.Preflight.{record_preflight}
use paper_live.Audit.Grown.{Grown, creations-Grown}
use paper_live.Audit.Linked.{Told, record_fill-Told}

abbrev intent : OrderIntent
intent = record {
  symbol = "AAPL";
  side = "BUY";
  quantity = whole 10;
  order_type = "MARKET";
  price = none;
  broker = "toss";
  client_order_id = "o-1";
}

abbrev passed : RiskAssessment
passed = record { approved = true; level = "PASS"; violations = [] }

abbrev origin : Origin
origin = record {
  recommendation_run_id = none;
  portfolio_rank = some 1;
  target_weight = none;
  preview_id = none;
  run_manifest_id = none;
}

abbrev submitted : AuditRecord
submitted = submission "aud-o-1" 7 intent (whole 100) passed none origin

abbrev fill : Fill
fill = record {
  order_id = "o-1";
  symbol = "AAPL";
  side = OrderSide.buy;
  quantity = whole 10;
  price = whole 101;
  fee = pos 0;
  tax = pos 0;
  status = "FILLED";
}

abbrev trail : AuditTrail ℕ
trail = record { records = submitted ∷ []; manifest_tracker = none }

abbrev row : PortfolioRow
row = record {
  symbol = some "AAPL";
  target_weight = none;
  close = some "100";
  price = none;
  portfolio_selected = true;
  portfolio_rank = some 1;
  rank = none;
  market = none;
  side = none;
}

abbrev refusal : PortfolioPreflightResult
refusal = record { rows_checked = 1; approved = []; rejected = (row, "risk rejected") ∷ [] }

creations-Grown_example :
    Keeps {S = AuditTrail ℕ}
      (Grown (submitted ∷ []))
      (create_submission (λ p. p.client_order_id) 7 intent (whole 100) passed none origin)
    × Keeps {S = AuditTrail ℕ}
        (Grown (submitted ∷ []))
        (record_preflight (λ p. p.symbol) (λ l. "c0ffee") (λ n. n) (row ∷ []) refusal none)
creations-Grown_example =
    creations-Grown (submitted ∷ []) (λ p. p.client_order_id) 7 intent (whole 100) passed none
      origin (λ p. p.symbol) (λ l. "c0ffee") (λ n. n) (row ∷ []) refusal none

abbrev answer : OrderResult
answer = record { broker = "toss"; order_id = "b-1"; accepted = true; message = "" }

records-IsDistinct_example :
    Keeps (IsDistinct {Storage = ℕ}) (record_fill submitted fill)
    × Keeps (IsDistinct {Storage = ℕ}) (record_answer submitted answer)
    × Keeps (IsDistinct {Storage = ℕ}) (record_pnl "aud-o-1" (whole 5) "ledger:AAPL")
    × Keeps (IsDistinct {Storage = ℕ}) (record_reflection "aud-o-1" "ledger:AAPL")
records-IsDistinct_example =
    records-IsDistinct submitted fill answer "aud-o-1" "ledger:AAPL" (whole 5)

record_fill-Told_example :
    Told submitted fill trail.records (record_fill submitted fill trail).1.records
record_fill-Told_example = record_fill-Told submitted fill trail
