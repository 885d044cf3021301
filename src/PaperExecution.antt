-- ===== src/PaperExecution.antt =====
-- paper_live/paper_execution.py: the orchestrator that checks a recommended portfolio, submits it
-- on paper, and books each fill in the ledger, the audit trail and the episodic memory.
pub mod Booking
pub mod Execute
pub mod Counted
pub mod AllOrNothing
pub mod Sound
mod Tests
use paper_live.Base.{
  ℕ, Bool, true, false, ◌||◌, Option, none, some, List, [], ◌∷◌, String, ◌==◌, if◌then◌else◌,
}
use paper_live.Base.Dict.{Dict, get, put, string_eq}
use paper_live.Base.Text.{concat, prefix}
use paper_live.Base.Exec.{Exec, pure, gets, within, ◌>>=◌, ◌>>◌}
use paper_live.Decimal.{Decimal}
use paper_live.Execution.Types.{Fill}
use paper_live.Pnl.{Ledger}
use paper_live.RunManifest.{Value, RunArtifact}
use paper_live.RunManifest.Tracker.{Tracker, bind_stage}
use paper_live.Audit.{AuditTrail, bind_run}
use paper_live.TradeFacade.Types.{PortfolioPreflightResult}
use paper_live.TradeFacade.Calls.{TradeFacade, with_trail}

-- `TradeEpisode` of reflection.py; a figure that it holds as a text is the decimal.
pub record TradeEpisode : Type 0 where
  pub episode_id : String
  pub symbol : String
  pub action : String
  pub entry_price : Decimal
  pub exit_price : Decimal
  pub pnl : Decimal
  pub decision_context : Dict String Value
  pub outcome : String
  pub created_at : ℕ

pub record PaperExecutionResult : Type 0 where
  pub preflight : PortfolioPreflightResult
  pub fills : List Fill
  pub pnl_audits : List String
  pub reflection_episodes : List String

-- What `write_run_stage_jsonl` of the storage returns, as far as it is read.
pub record StageManifest : Type 0 where
  pub dataset : String
  pub as_of : String
  pub row_count : ℕ
  pub schema_version : String
  pub checksum_sha256 : String

-- A row that is persisted: a text for each column, and the decimal of a figure.
abbrev pub StageRow : Type 0
StageRow = Dict String Value

-- `write_run_stage_jsonl` with its arguments run_id, stage, trade_date, rows and schema_version.
abbrev pub StageWriter : Type 0 → Type 0
StageWriter Files = String → String → String → List StageRow → String → Exec Files StageManifest

-- `PaperExecutionOrchestrator`. `files` is what the storage and the reflection worker write to. A
-- trail or a tracker that is the facade's own object is `none` here: both say to use the facade's.
pub record Orchestrator (World Storage Files : Type 0) : Type 0 where
  pub facade : TradeFacade World Storage
  pub ledger : Ledger
  pub reflection_worker : Option (TradeEpisode → Exec Files (Unit {0}))
  pub audit_trail : Option (AuditTrail Storage)
  pub manifest_tracker : Option (Tracker Storage)
  pub storage : Option (StageWriter Files)
  pub files : Files

module _ {World Storage Files : Type 0} where
  abbrev pub with_facade :
      Orchestrator World Storage Files
      → TradeFacade World Storage
      → Orchestrator World Storage Files
  with_facade o facade = record o { facade = facade }

  abbrev pub with_ledger :
      Orchestrator World Storage Files → Ledger → Orchestrator World Storage Files
  with_ledger o ledger = record o { ledger = ledger }

  abbrev pub with_files :
      Orchestrator World Storage Files → Files → Orchestrator World Storage Files
  with_files o files = record o { files = files }

  abbrev pub with_tracker :
      Orchestrator World Storage Files → Tracker Storage → Orchestrator World Storage Files
  with_tracker o tracker = record o { manifest_tracker = some tracker }

  -- `self.audit_trail or self.facade.audit_trail`, read and written.
  abbrev pub active_trail : Orchestrator World Storage Files → Option (AuditTrail Storage)
  active_trail o = elim o.audit_trail [ none ↦ o.facade.audit_trail | some trail ↦ some trail ]

  abbrev pub with_active :
      Orchestrator World Storage Files → AuditTrail Storage → Orchestrator World Storage Files
  with_active o trail = elim o.audit_trail [
    | none ↦ record o { facade = with_trail o.facade trail }
    | some _ ↦ record o { audit_trail = some trail }
  ]

  -- A call of that trail, if there is one.
  unfoldable pub on_active :
      {A : Type 0}
      → Option (AuditTrail Storage)
      → Exec (AuditTrail Storage) A
      → Exec (Orchestrator World Storage Files) (Option A)
  on_active none call = pure none
  on_active (some trail) call = do answer ← within (λ o. trail) with_active call; pure (some answer)

-- The binding of a trail's own tracker.
unfoldable pub bind_of_trail :
    {Storage : Type 0} → Option String → RunArtifact → Exec (AuditTrail Storage) (Unit {0})
bind_of_trail run_id artifact = do
  tracker ← gets (λ t. t.manifest_tracker)
  bind_run tracker run_id artifact

module _ {World Storage Files : Type 0} where
  unfoldable pub bind_tracked :
      Option (Tracker Storage)
      → Option String
      → RunArtifact
      → Exec (Orchestrator World Storage Files) (Unit {0})
  bind_tracked none run_id artifact = do
    trail ← gets active_trail
    bound ← on_active trail (bind_of_trail run_id artifact)
    pure tt
  bind_tracked (some tracker) none artifact = pure tt
  bind_tracked (some tracker) (some run_id) artifact = if run_id == "" then pure tt else (do
    manifest ← within (λ o. tracker) with_tracker (bind_stage run_id artifact true)
    pure tt)

  -- `_bind_stage`
  unfoldable pub bind_run_stage :
      Option String → RunArtifact → Exec (Orchestrator World Storage Files) (Unit {0})
  bind_run_stage run_id artifact = do
    tracker ← gets (λ o. o.manifest_tracker)
    bind_tracked tracker run_id artifact

-- `{"fills": "fill", "pnl": "pnl", "reflection": "reflection"}.get(stage, stage)`
abbrev manifest_stage : String → String
manifest_stage stage = if stage == "fills" then "fill" else stage

abbrev pub stage_of : String → String → String → StageManifest → RunArtifact
stage_of run_id stage trade_date m = record {
  stage = manifest_stage stage;
  artifact_id =
      some
        (concat (run_id ∷ ":" ∷ stage ∷ ":" ∷ trade_date ∷ ":" ∷ prefix 20 m.checksum_sha256 ∷ []));
  dataset = none;
  row_count = some m.row_count;
  checksum_sha256 = some m.checksum_sha256;
  status = "completed";
  metadata =
      ("dataset", Value.text m.dataset)
      ∷ ("trade_date", Value.text m.as_of)
      ∷ ("schema_version", Value.text m.schema_version)
      ∷ [];
}

module _ {World Storage Files : Type 0} where
  -- `_persist_stage` with a storage, a run, a day and rows in hand.
  unfoldable pub persist_with :
      Option (StageWriter Files)
      → Option String
      → Option String
      → String
      → List StageRow
      → Exec (Orchestrator World Storage Files) (Unit {0})
  persist_with (some write) (some run_id) (some trade_date) stage (row ∷ rows) =
      if run_id == "" || trade_date == "" then pure tt else (do
        m ←
            within (λ o. o.files) with_files
              (write run_id stage trade_date (row ∷ rows)
                (concat ("execution-" ∷ stage ∷ "-v1" ∷ [])))
        bind_run_stage (some run_id) (stage_of run_id stage trade_date m))
  persist_with _ _ _ stage rows = pure tt

  unfoldable pub persist_stage :
      Option String
      → Option String
      → String
      → List StageRow
      → Exec (Orchestrator World Storage Files) (Unit {0})
  persist_stage run_id trade_date stage rows = do
    storage ← gets (λ o. o.storage)
    persist_with storage run_id trade_date stage rows
