-- ===== src/Audit/Preflight.antt =====
-- `record_preflight` of execution_audit.py: one record for each selected row of a batch, and the
-- stage of the run's manifest that tells of the batch.
use paper_live.Base.{
  map_option, ℕ, suc, Bool, true, not, ◌||◌, Option, none, some, List, [], ◌∷◌, String, ◌==◌,
  length, is_some, if◌then◌else◌,
}
use paper_live.Base.Int.{pos, eqb_ℤ}
use paper_live.Base.Dict.{Dict, get, put, string_eq}
use paper_live.Base.Text.{strip, prefix, concat}
use paper_live.Base.Exec.{Exec, pure, gets, ◌>>=◌, ◌>>◌}
use paper_live.Decimal.{Decimal}
use paper_live.RunManifest.{Value, RunArtifact}
use paper_live.PortfolioRisk.{or_default}
use paper_live.TradeFacade.Types.{
  OrderIntent, PortfolioRow, PortfolioRevalidation, PortfolioPreflightResult,
}
use paper_live.Audit.{Figure, AuditRecord, AuditTrail, append, on_records, bind_run}

-- `str(row.get("symbol", "")).strip()`
abbrev pub row_symbol : PortfolioRow → String
row_symbol row = strip (or_default row.symbol "")

-- `row.get(key, row.get(other))`
abbrev pub first_of {ℓ} : {A : Type ℓ} → Option A → Option A → Option A
first_of none other = other
first_of (some a) other = some a

-- `{item.intent.symbol: item for item in approved if item.intent is not None}`; of two with one
-- symbol the last one stays.
unfoldable pub approved_by_symbol :
    List PortfolioRevalidation
    → Dict String PortfolioRevalidation
    → Dict String PortfolioRevalidation
approved_by_symbol [] d = d
approved_by_symbol (item ∷ items) d =
    approved_by_symbol items
      (elim item.intent [ none ↦ d | some intent ↦ put intent.symbol item d ])

unfoldable pub rejected_by_symbol :
    List (PortfolioRow × String) → Dict String String → Dict String String
rejected_by_symbol [] d = d
rejected_by_symbol ((row, reason) ∷ items) d =
    rejected_by_symbol items (put (row_symbol row) reason d)

-- What an id of a preflight is a digest of.
pub record PreflightPayload : Type 0 where
  pub run_manifest_id : Option String
  pub symbol : String
  pub portfolio_rank : Option ℕ
  pub target_weight : Option String
  pub status : String
  pub quantity : Decimal
  pub reference_price : Figure

-- The variables that the two branches of the loop's body set.
pub record Decision : Type 0 where
  pub status : String
  pub quantity : Decimal
  pub reference_price : Figure
  pub risk_violations : List String
  pub risk_level : String
  pub account_value : Option Decimal
  pub portfolio_notional : Option Decimal
  pub market_notional : Option Decimal
  pub market : String
  pub client_order_id : String
  pub broker : String

-- `intent.price or row.get("close", "0")`
abbrev approved_price : Option Decimal → PortfolioRow → Figure
approved_price none row = Figure.given (or_default row.close "0")
approved_price (some price) row =
    if eqb_ℤ price (pos 0) then Figure.given (or_default row.close "0") else Figure.decimal price

abbrev pub approval : PortfolioRevalidation → OrderIntent → PortfolioRow → Decision
approval approved intent row = record {
  status = "PREFLIGHT_APPROVED";
  quantity = intent.quantity;
  reference_price = approved_price intent.price row;
  risk_violations = [];
  risk_level = "PASS";
  account_value = some approved.snapshot.context.account_value;
  portfolio_notional = some approved.snapshot.context.portfolio_notional;
  market_notional = some approved.snapshot.context.market_notional;
  market = approved.snapshot.context.market;
  client_order_id = intent.client_order_id;
  broker = intent.broker;
}

-- `reason or "preflight rejected"`, and the like.
abbrev or_text : Option String → String → String
or_text none t = t
or_text (some reason) t = if reason == "" then t else reason

abbrev pub rejection : Option String → PortfolioRow → Decision
rejection reason row = record {
  status = "PREFLIGHT_REJECTED";
  quantity = pos 0;
  reference_price = Figure.given (or_default (first_of row.close row.price) "0");
  risk_violations = or_text reason "preflight rejected" ∷ [];
  risk_level = "REJECT";
  account_value = none;
  portfolio_notional = none;
  market_notional = none;
  market = or_default row.market "";
  client_order_id = "";
  broker = "";
}

-- An item of `approved_by_symbol` has an intent.
abbrev pub decision : Option PortfolioRevalidation → Option String → PortfolioRow → Decision
decision none reason row = rejection reason row
decision (some approved) reason row = elim approved.intent [
  | none ↦ rejection reason row
  | some intent ↦ approval approved intent row
]

abbrev preflight_payload : Option String → PortfolioRow → Decision → PreflightPayload
preflight_payload run_manifest_id row d = record {
  run_manifest_id = run_manifest_id;
  symbol = row_symbol row;
  portfolio_rank = first_of row.portfolio_rank row.rank;
  target_weight = row.target_weight;
  status = d.status;
  quantity = d.quantity;
  reference_price = d.reference_price;
}

abbrev preflight_fields :
    String → ℕ → Option String → Bool → Option String → PortfolioRow → Decision → AuditRecord
preflight_fields audit_id now run_manifest_id approved reason row d = record {
  audit_id = audit_id;
  status = d.status;
  created_at = now;
  symbol = row_symbol row;
  side = or_default row.side "";
  quantity = d.quantity;
  reference_price = d.reference_price;
  recommendation_run_id = none;
  portfolio_rank = first_of row.portfolio_rank row.rank;
  target_weight = map_option Figure.given row.target_weight;
  risk_approved = approved;
  risk_level = d.risk_level;
  risk_violations = d.risk_violations;
  account_value = d.account_value;
  portfolio_notional = d.portfolio_notional;
  market_notional = d.market_notional;
  market = d.market;
  client_order_id = d.client_order_id;
  preview_id = none;
  broker = d.broker;
  broker_order_id = none;
  fill_quantity = none;
  fill_price = none;
  fee = none;
  tax = none;
  pnl = none;
  pnl_reference = none;
  reflection_episode_id = none;
  run_manifest_id = run_manifest_id;
  message = or_text reason "preflight approved; no order submitted";
}

-- The record of a row; `digest` is the SHA-256 of the payload as JSON, cut to 20 digits, behind
-- "pfa-", and `now` the clock's reading.
unfoldable pub preflight_record :
    (PreflightPayload → String)
    → ℕ
    → Option String
    → Option PortfolioRevalidation
    → Option String
    → PortfolioRow
    → AuditRecord
preflight_record digest now run_manifest_id approved reason row =
    let d = decision approved reason row in
    preflight_fields (digest (preflight_payload run_manifest_id row d)) now run_manifest_id
      (is_some approved) reason row d

-- The records of the loop, in the order of the rows.
unfoldable pub preflight_records :
    (PreflightPayload → String)
    → (ℕ → ℕ)
    → Option String
    → Dict String PortfolioRevalidation
    → Dict String String
    → ℕ
    → List PortfolioRow
    → List AuditRecord
preflight_records digest clock run_manifest_id approved rejected n [] = []
preflight_records digest clock run_manifest_id approved rejected n (row ∷ rows) =
    let rest = preflight_records digest clock run_manifest_id approved rejected (suc n) rows in
    let symbol = row_symbol row in
    if not row.portfolio_selected || symbol == ""
    then rest
    else preflight_record digest (clock n) run_manifest_id (get symbol approved)
        (get symbol rejected) row
      ∷ rest

unfoldable pub append_all : List AuditRecord → List AuditRecord → List AuditRecord
append_all [] l = l
append_all (r ∷ rs) l = append_all rs (append r l)

abbrev pub preflight_artifact : String → List AuditRecord → PortfolioPreflightResult → RunArtifact
preflight_artifact checksum records result = record {
  stage = "risk";
  artifact_id = some (concat ("preflight-" ∷ prefix 20 checksum ∷ []));
  dataset = none;
  row_count = some (length records);
  checksum_sha256 = some checksum;
  status = elim result.rejected [ [] ↦ "completed" | _ ∷ _ ↦ "rejected" ];
  metadata =
      ("preflight_required", Value.flag true)
      ∷ ("rows_checked", Value.count result.rows_checked)
      ∷ ("approved_count", Value.count (length result.approved))
      ∷ ("rejected_count", Value.count (length result.rejected))
      ∷ [];
}

module _ {Storage : Type 0} where
  -- `digest` and `checksum` are the two SHA-256s, `clock` gives the reading at each row.
  unfoldable pub record_preflight :
      (PreflightPayload → String)
      → (List AuditRecord → String)
      → (ℕ → ℕ)
      → List PortfolioRow
      → PortfolioPreflightResult
      → Option String
      → Exec (AuditTrail Storage) (List AuditRecord)
  record_preflight digest checksum clock rows result run_manifest_id = do
    let records =
        preflight_records digest clock run_manifest_id (approved_by_symbol result.approved [])
          (rejected_by_symbol result.rejected []) 0 rows
    on_records (append_all records)
    tracker ← gets (λ t. t.manifest_tracker)
    bind_run tracker run_manifest_id (preflight_artifact (checksum records) records result)
    pure records
