-- ===== src/Audit/Calls.antt =====
-- The calls of `ExecutionAuditTrail` that write, of execution_audit.py.
use paper_live.Base.{
  map_option, ℕ, Bool, ◌||◌, ◌&&◌, Option, none, some, [], ◌∷◌, String, ◌==◌, Result, Kind, ok,
  raise, or_raise, if◌then◌else◌,
}
use paper_live.Base.Int.{pos, leb_ℤ}
use paper_live.Base.Text.{concat}
use paper_live.Base.Exec.{Exec, pure, lift, gets, zoom, within, ◌>>=◌, ◌>>◌}
use paper_live.Decimal.{Decimal}
use paper_live.Execution.Types.{Fill}
use paper_live.Pnl
use paper_live.Pnl.{Side, Ledger}
use paper_live.Risk.{PortfolioRiskContext}
use paper_live.RunManifest.{Value}
use paper_live.Brokers.{OrderResult}
use paper_live.TradeFacade.Types.{OrderIntent, RiskAssessment}
use paper_live.Audit.{
  Figure, AuditRecord, AuditTrail, append, find_record, on_records, bind, store_updated,
}

-- What an audit id is a digest of, in `create_submission`.
pub record Payload : Type 0 where
  pub symbol : String
  pub side : String
  pub quantity : Decimal
  pub client_order_id : String
  pub recommendation_run_id : Option String
  pub portfolio_rank : Option ℕ
  pub run_manifest_id : Option String

-- Where a submission comes from: the optional arguments of `create_submission`.
pub record Origin : Type 0 where
  pub recommendation_run_id : Option String
  pub portfolio_rank : Option ℕ
  pub target_weight : Option Decimal
  pub preview_id : Option String
  pub run_manifest_id : Option String

abbrev payload : OrderIntent → Origin → Payload
payload intent origin = record {
  symbol = intent.symbol;
  side = intent.side;
  quantity = intent.quantity;
  client_order_id = intent.client_order_id;
  recommendation_run_id = origin.recommendation_run_id;
  portfolio_rank = origin.portfolio_rank;
  run_manifest_id = origin.run_manifest_id;
}

-- `None if context is None else str(...)`
abbrev of_context : (PortfolioRiskContext → Decimal) → Option PortfolioRiskContext → Option Decimal
of_context f none = none
of_context f (some c) = some (f c)

abbrev market_of : Option PortfolioRiskContext → String
market_of none = ""
market_of (some c) = c.market

abbrev pub submission :
    String
    → ℕ
    → OrderIntent
    → Decimal
    → RiskAssessment
    → Option PortfolioRiskContext
    → Origin
    → AuditRecord
submission audit_id now intent reference_price risk context origin = record {
  audit_id = audit_id;
  status = "SUBMITTED";
  created_at = now;
  symbol = intent.symbol;
  side = intent.side;
  quantity = intent.quantity;
  reference_price = Figure.decimal reference_price;
  recommendation_run_id = origin.recommendation_run_id;
  portfolio_rank = origin.portfolio_rank;
  target_weight = map_option Figure.decimal origin.target_weight;
  risk_approved = risk.approved;
  risk_level = risk.level;
  risk_violations = risk.violations;
  account_value = of_context (λ c. c.account_value) context;
  portfolio_notional = of_context (λ c. c.portfolio_notional) context;
  market_notional = of_context (λ c. c.market_notional) context;
  market = market_of context;
  client_order_id = intent.client_order_id;
  preview_id = origin.preview_id;
  broker = intent.broker;
  broker_order_id = none;
  fill_quantity = none;
  fill_price = none;
  fee = none;
  tax = none;
  pnl = none;
  pnl_reference = none;
  reflection_episode_id = none;
  run_manifest_id = origin.run_manifest_id;
  message = "";
}

-- `text or None`
abbrev nonempty : String → Option String
nonempty t = if t == "" then none else some t

abbrev pub filled_record : AuditRecord → Fill → AuditRecord
filled_record r fill = record r {
  status = fill.status;
  message = "";
  fill_quantity = some fill.quantity;
  fill_price = some fill.price;
  fee = some fill.fee;
  tax = some fill.tax;
  broker_order_id = some fill.order_id;
}

-- A broker's result has no `status`, so that `getattr` gives "ACCEPTED".
abbrev pub answered_record : AuditRecord → OrderResult → AuditRecord
answered_record r result = record r {
  status = "ACCEPTED";
  message = result.message;
  broker_order_id = nonempty result.order_id;
}

abbrev pub acknowledged_record : AuditRecord → Fill → AuditRecord
acknowledged_record r fill = record r {
  status = fill.status;
  broker_order_id = nonempty fill.order_id;
  message = "";
  fill_quantity = none;
  fill_price = none;
  fee = none;
  tax = none;
}

-- `None` or the text, as a value of the metadata.
abbrev pub optional_text : Option String → Value
optional_text none = Value.null
optional_text (some t) = Value.text t

-- `fill.quantity <= 0 and fill.status in {"ACCEPTED", "REJECTED"}`
abbrev pub is_acknowledgement : Fill → Bool
is_acknowledgement fill =
    leb_ℤ fill.quantity (pos 0) && (fill.status == "ACCEPTED" || fill.status == "REJECTED")

module _ {Storage : Type 0} where
  -- `digest` is `_id`, a SHA-256 of the payload as JSON.
  unfoldable pub create_submission :
      (Payload → String)
      → ℕ
      → OrderIntent
      → Decimal
      → RiskAssessment
      → Option PortfolioRiskContext
      → Origin
      → Exec (AuditTrail Storage) AuditRecord
  create_submission digest now intent reference_price risk context origin = do
    let r =
        submission (digest (payload intent origin)) now intent reference_price risk context origin
    on_records (append r)
    bind r "execution_audit" r.status none []
    pure r

  -- `record_result` for a fill, and for a broker's result.
  unfoldable pub record_filled : AuditRecord → Fill → Exec (AuditTrail Storage) AuditRecord
  record_filled r fill =
      store_updated r.audit_id (filled_record r fill) "fill" fill.status (some fill.order_id)
        (("quantity", Value.figure fill.quantity) ∷ ("price", Value.figure fill.price) ∷ [])

  unfoldable pub record_answer : AuditRecord → OrderResult → Exec (AuditTrail Storage) AuditRecord
  record_answer r result =
      store_updated r.audit_id (answered_record r result) "execution_audit" "ACCEPTED" none
        (("broker_order_id", optional_text (nonempty result.order_id)) ∷ [])

  unfoldable pub record_fill : AuditRecord → Fill → Exec (AuditTrail Storage) AuditRecord
  record_fill r fill =
      if is_acknowledgement fill
      then store_updated r.audit_id (acknowledged_record r fill) "execution_audit" fill.status none
          (("broker_order_id", optional_text (nonempty fill.order_id)) ∷ [])
      else record_filled r fill

  -- `get`, for an id that must be there.
  unfoldable pub require : String → Exec (AuditTrail Storage) AuditRecord
  require audit_id = do
    records ← gets (λ t. t.records)
    lift (or_raise (find_record audit_id records) Kind.key_error audit_id)

  unfoldable pub record_pnl : String → Decimal → String → Exec (AuditTrail Storage) AuditRecord
  record_pnl audit_id pnl pnl_reference = do
    r ← require audit_id
    store_updated audit_id (record r { pnl = some pnl; pnl_reference = some pnl_reference }) "pnl"
        "COMPLETED" none
        (("pnl", Value.figure pnl) ∷ ("pnl_reference", Value.text pnl_reference) ∷ [])

  unfoldable pub record_reflection : String → String → Exec (AuditTrail Storage) AuditRecord
  record_reflection audit_id episode_id = do
    r ← require audit_id
    store_updated audit_id (record r { reflection_episode_id = some episode_id }) "reflection"
        "COMPLETED" (some episode_id) []

-- The trail and the ledger that `reconcile_fill_pnl` works on.
pub record Books (Storage : Type 0) : Type 0 where
  pub trail : AuditTrail Storage
  pub ledger : Ledger

-- `Side(record.side)`
abbrev parsed_side : String → Result Side
parsed_side t =
    if t == "BUY"
    then ok Side.buy
    else if t == "SELL"
    then ok Side.sell
    else raise Kind.value_error "is not a valid Side"

-- The fill that a record tells of.
abbrev pub filled_of : Option AuditRecord → Result (AuditRecord × Decimal × Decimal)
filled_of (some r) = elim r.fill_quantity [
  | none ↦ raise Kind.value_error "audit record does not contain a fill"
  | some q ↦ elim r.fill_price [
    | none ↦ raise Kind.value_error "audit record does not contain a fill"
    | some p ↦ ok (r, q, p)
  ]
]
filled_of none = raise Kind.value_error "audit record does not contain a fill"

module _ {Storage : Type 0} where
  abbrev with_trail : Books Storage → AuditTrail Storage → Books Storage
  with_trail b trail = record b { trail = trail }

  abbrev with_ledger : Books Storage → Ledger → Books Storage
  with_ledger b ledger = record b { ledger = ledger }

  unfoldable pub reconcile_fill_pnl : String → Decimal → Exec (Books Storage) AuditRecord
  reconcile_fill_pnl audit_id mark_price = do
    records ← gets (λ b. b.trail.records)
    (r, q, p) ← lift (filled_of (find_record audit_id records))
    side ← lift (parsed_side r.side)
    after_fill ← zoom (λ b. b.ledger) with_ledger (Pnl.apply_fill r.symbol side q p)
    ledger ← gets (λ b. b.ledger)
    pnl ← lift (Pnl.total_pnl r.symbol mark_price ledger)
    within (λ b. b.trail) with_trail (record_pnl audit_id pnl (concat ("ledger:" ∷ r.symbol ∷ [])))
