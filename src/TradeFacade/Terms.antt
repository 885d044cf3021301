-- ===== src/TradeFacade/Terms.antt =====
-- What a row of a target portfolio becomes at the latest account and prices, of trade_facade.py.
use paper_live.Base.{
  Bool, true, not, Option, none, some, List, [], ◌∷◌, String, ◌==◌, Result, Kind, ok, err, raise_if,
  or_raise, is_risk_error, ◌>>=◌, ◌>>◌, if◌then◌else◌,
}
use paper_live.Base.Int.{pos, leb_ℤ}
use paper_live.Base.Dict.{Dict, get, string_eq}
use paper_live.Base.Text.{concat}
use paper_live.Decimal.{Decimal}
use paper_live.Execution.Types.{PaperAccount}
use paper_live.Execution.Engine.{held}
use paper_live.Execution.Gateway.{Gateway}
use paper_live.PortfolioRisk
use paper_live.PortfolioRisk.{PortfolioRiskSnapshot, or_default}
use paper_live.Audit.Calls.{Origin}
use paper_live.Audit.Preflight.{row_symbol}
use paper_live.TradeFacade.Types.{OrderIntent, PortfolioRow, PortfolioRevalidation}
use paper_live.TradeFacade.Assess.{reason}
use paper_live.TradeFacade.Rows.{intent_from_portfolio_row}
use paper_live.TradeFacade.Submit.{Submission}

-- The arguments that the calls share. `account` is the caller's account as the gateway stands: it
-- may be the gateway's own, or one that no order reaches. `parse` and `print` are `Decimal(text)`
-- and `str(decimal)`.
pub record Terms : Type 0 where
  pub account : Gateway → PaperAccount
  pub latest_prices : Dict String Decimal
  pub markets : Dict String String
  pub broker : String
  pub order_type : String
  pub lot_size : Decimal
  pub parse : String → Option Decimal
  pub print : Decimal → String

-- What `uuid4` gives in a call: a client's order id and a preview's id.
pub record Fresh : Type 0 where
  pub client_id : String
  pub preview_id : String

-- The price that `revalidate_portfolio_row` finds for its symbol.
unfoldable pub latest_price : String → Dict String Decimal → Result Decimal
latest_price symbol prices = do
  price ←
      or_raise (get symbol prices) Kind.value_error
        (concat ("missing latest price for target symbol: " ∷ symbol ∷ []))
  raise_if (leb_ℤ price (pos 0)) Kind.value_error
      (concat ("latest price must be positive: " ∷ symbol ∷ []))
  ok price

unfoldable pub row_intent :
    Terms → PortfolioRow → PortfolioRiskSnapshot → PaperAccount → Result (Option OrderIntent)
row_intent t row snapshot account =
    intent_from_portfolio_row t.parse row snapshot.context.account_value
      (held (row_symbol row) account) t.broker t.order_type t.lot_size

-- The snapshot and the intent of `revalidate_portfolio_row`, before its preview.
unfoldable pub revalidated :
    Terms
    → PortfolioRow
    → PaperAccount
    → Result (Decimal × PortfolioRiskSnapshot × Option OrderIntent)
revalidated t row account = do
  let symbol = row_symbol row
  raise_if (symbol == "") Kind.value_error "portfolio row symbol is required"
  price ← latest_price symbol t.latest_prices
  snapshot ← PortfolioRisk.build account t.latest_prices t.markets (some symbol)
  intent ← row_intent t (record row { close = some (t.print price) }) snapshot account
  ok (price, snapshot, intent)

-- What the body of the preflight's loop does with a row.
pub data Outcome : Type 0 where
  passed_over : Outcome
  approve : PortfolioRevalidation → Outcome
  reject : String → Outcome

-- `except (PermissionError, ValueError, KeyError)`
abbrev pub is_row_error : Kind → Bool
is_row_error Kind.key_error = true
is_row_error k = is_risk_error k

abbrev pub judged : PortfolioRevalidation → Outcome
judged r = elim r.intent [
  | none ↦ Outcome.passed_over
  | some _ ↦ elim r.preview [
    | none ↦ Outcome.passed_over
    | some made ↦
        if not made.risk.approved
        then Outcome.reject (reason made.risk.violations)
        else Outcome.approve r
  ]
]

unfoldable pub judge : Result PortfolioRevalidation → Result Outcome
judge (ok r) = ok (judged r)
judge (err e) = if is_row_error e.kind then ok (Outcome.reject e.message) else err e

-- `approved` and `rejected`, with one more row in front.
abbrev pub Verdicts : Type 0
Verdicts = List PortfolioRevalidation × List (PortfolioRow × String)

abbrev pub add_outcome : PortfolioRow → Outcome → Verdicts → Verdicts
add_outcome row Outcome.passed_over (approved, rejected) = (approved, rejected)
add_outcome row (Outcome.approve r) (approved, rejected) = (r ∷ approved, rejected)
add_outcome row (Outcome.reject why) (approved, rejected) = (approved, (row, why) ∷ rejected)

-- `Decimal(str(row["target_weight"])) if "target_weight" in row else None`
unfoldable pub target_weight : Terms → PortfolioRow → Result (Option Decimal)
target_weight t row = elim row.target_weight [
  | none ↦ ok none
  | some w ↦
      or_raise (t.parse w) Kind.arithmetic_error "InvalidOperation" >>= λ weight. ok (some weight)
]

-- `origin` holds the arguments that name the recommendation and the run.
abbrev pub row_submission :
    PortfolioRevalidation
    → OrderIntent
    → Decimal
    → Option String
    → Origin
    → Option Decimal
    → Submission
row_submission r intent price approval_id origin weight = record {
  intent = intent;
  reference_price = price;
  approval_id = approval_id;
  preview_id = none;
  context = some r.snapshot.context;
  origin = record origin { preview_id = none; target_weight = weight };
}
