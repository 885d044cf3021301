-- ===== src/Audit.antt =====
-- paper_live/execution_audit.py: the trail of audit records, one for each order that was decided.
pub mod Calls
pub mod Preflight
pub mod Distinct
pub mod Grown
pub mod Linked
mod Tests
use paper_live.Base.{
  ℕ, Bool, true, false, ◌||◌, ◌&&◌, not, Option, none, some, List, [], ◌∷◌, ◌++◌, String, ◌==◌,
  Result, Kind, ok, err, raise, if◌then◌else◌, is_some,
}
use paper_live.Base.Int.{pos, leb_ℤ}
use paper_live.Base.Dict.{Dict, put, string_eq}
use paper_live.Base.Text.{concat}
use paper_live.Base.Exec.{Exec, pure, lift, gets, modify, within, throw, ◌>>=◌, ◌>>◌}
use paper_live.Decimal.{Decimal}
use paper_live.Execution.Types.{OrderSide, side_value, Fill}
use paper_live.Risk.{PortfolioRiskContext}
use paper_live.RunManifest.{Value, RunArtifact}
use paper_live.RunManifest.Tracker.{Tracker, bind_stage}

-- The text of a number: of a decimal that was computed, or one that a row of the portfolio gave.
pub data Figure : Type 0 where
  decimal : Decimal → Figure
  given : String → Figure

pub record AuditRecord : Type 0 where
  pub audit_id : String
  pub status : String
  pub created_at : ℕ
  pub symbol : String
  pub side : String
  pub quantity : Decimal
  pub reference_price : Figure
  pub recommendation_run_id : Option String
  pub portfolio_rank : Option ℕ
  pub target_weight : Option Figure
  pub risk_approved : Bool
  pub risk_level : String
  pub risk_violations : List String
  pub account_value : Option Decimal
  pub portfolio_notional : Option Decimal
  pub market_notional : Option Decimal
  pub market : String
  pub client_order_id : String
  pub preview_id : Option String
  pub broker : String
  pub broker_order_id : Option String
  pub fill_quantity : Option Decimal
  pub fill_price : Option Decimal
  pub fee : Option Decimal
  pub tax : Option Decimal
  pub pnl : Option Decimal
  pub pnl_reference : Option String
  pub reflection_episode_id : Option String
  pub run_manifest_id : Option String
  pub message : String

-- `ExecutionAuditTrail` with the objects it writes to.
pub record AuditTrail (Storage : Type 0) : Type 0 where
  pub records : List AuditRecord
  pub manifest_tracker : Option (Tracker Storage)

-- `any(item.audit_id == audit_id for item in records)`
abbrev pub has_id : String → List AuditRecord → Bool
has_id audit_id [] = false
has_id audit_id (r ∷ l) = r.audit_id == audit_id || has_id audit_id l

-- `[r for r in records if r.audit_id != audit_id]`
abbrev pub without_id : String → List AuditRecord → List AuditRecord
without_id audit_id [] = []
without_id audit_id (r ∷ l) =
    let rest = without_id audit_id l in if r.audit_id == audit_id then rest else r ∷ rest

-- `append`, on the list.
unfoldable pub append : AuditRecord → List AuditRecord → List AuditRecord
append record_ l = if has_id record_.audit_id l then l else l ++ (record_ ∷ [])

-- The removal and the `append` of the `record_...` methods.
unfoldable pub replace : String → AuditRecord → List AuditRecord → List AuditRecord
replace audit_id updated l = append updated (without_id audit_id l)

abbrev pub find_record : String → List AuditRecord → Option AuditRecord
find_record audit_id [] = none
find_record audit_id (r ∷ l) =
    let rest = find_record audit_id l in if r.audit_id == audit_id then some r else rest

-- `artifact_id or record.audit_id`
abbrev or_audit_id : Option String → String → String
or_audit_id none audit_id = audit_id
or_audit_id (some a) audit_id = if a == "" then audit_id else a

-- `{**base, **metadata}`
abbrev pub merged : Dict String Value → Dict String Value → Dict String Value
merged base [] = base
merged base ((k, v) ∷ metadata) = merged (put k v base) metadata

abbrev pub stage_artifact :
    AuditRecord → String → String → Option String → Dict String Value → RunArtifact
stage_artifact r stage status artifact_id metadata = record {
  stage = stage;
  artifact_id = some (or_audit_id artifact_id r.audit_id);
  dataset = none;
  row_count = none;
  checksum_sha256 = none;
  status = status;
  metadata = merged (("audit_id", Value.text r.audit_id) ∷ []) metadata;
}

module _ {Storage : Type 0} where
  -- `modify` of the records.
  unfoldable pub on_records :
      (List AuditRecord → List AuditRecord) → Exec (AuditTrail Storage) (Unit {0})
  on_records f = modify (λ t. record t { records = f t.records })

  abbrev with_tracker : AuditTrail Storage → Tracker Storage → AuditTrail Storage
  with_tracker t tracker = record t { manifest_tracker = some tracker }

  -- `_bind` with the tracker and the run's id in hand.
  unfoldable pub bind_run :
      Option (Tracker Storage) → Option String → RunArtifact → Exec (AuditTrail Storage) (Unit {0})
  bind_run (some tracker) (some run_id) artifact = if run_id == "" then pure tt else (do
    manifest ← within (λ t. tracker) with_tracker (bind_stage run_id artifact true)
    pure tt)
  bind_run _ _ artifact = pure tt

  unfoldable pub bind :
      AuditRecord
      → String
      → String
      → Option String
      → Dict String Value
      → Exec (AuditTrail Storage) (Unit {0})
  bind r stage status artifact_id metadata = do
    tracker ← gets (λ t. t.manifest_tracker)
    bind_run tracker r.run_manifest_id (stage_artifact r stage status artifact_id metadata)

  -- The end that the `record_...` methods share.
  unfoldable pub store_updated :
      String
      → AuditRecord
      → String
      → String
      → Option String
      → Dict String Value
      → Exec (AuditTrail Storage) AuditRecord
  store_updated audit_id updated stage status artifact_id metadata = do
    on_records (replace audit_id updated)
    bind updated stage status artifact_id metadata
    pure updated
