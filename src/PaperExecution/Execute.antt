-- ===== src/PaperExecution/Execute.antt =====
-- `PaperExecutionOrchestrator.execute` of paper_execution.py.
use paper_live.Base.{
  ℕ, suc, true, not, ◌||◌, Option, none, some, List, [], ◌∷◌, String, ◌==◌, length, Kind,
  if◌then◌else◌,
}
use paper_live.Base.Dict.{Dict, get, put, string_eq}
use paper_live.Base.Exec.{Exec, pure, gets, within, throw_if, ◌>>=◌, ◌>>◌}
use paper_live.Environment.{mode_value}
use paper_live.Execution.Types.{Fill}
use paper_live.RunManifest.{Value, RunArtifact}
use paper_live.Audit.Calls.{Origin}
use paper_live.Audit.Preflight.{row_symbol, first_of}
use paper_live.TradeFacade.Types.{
  PortfolioRow, PortfolioRevalidation, PortfolioPreflightResult, all_approved,
}
use paper_live.TradeFacade.Calls.{TradeFacade}
use paper_live.TradeFacade.Submit.{Answer}
use paper_live.TradeFacade.Terms.{Terms, Fresh}
use paper_live.TradeFacade.Revalidate.{
  AuditInputs, SubmitInputs, preflight_portfolio, submit_portfolio_row_revalidated,
}
use paper_live.PaperExecution.{
  Orchestrator, PaperExecutionResult, with_facade, bind_run_stage, persist_stage,
}
use paper_live.PaperExecution.Booking.{Collected, nothing_collected, Run, on_desk, take_fill}

-- What a call takes from outside: ids, digests and clock readings, for each approved row by its
-- place.
pub record Inputs : Type 0 where
  pub preflight : ℕ → Fresh
  pub audit : AuditInputs
  pub revalidation : ℕ → Fresh
  pub submission : ℕ → SubmitInputs
  pub episode_id : ℕ → String
  pub clock : ℕ → ℕ

-- `{symbol: row for row in rows if row.get("portfolio_selected")}`
unfoldable pub row_by_symbol :
    List PortfolioRow → Dict String PortfolioRow → Dict String PortfolioRow
row_by_symbol [] d = d
row_by_symbol (row ∷ rows) d =
    row_by_symbol rows (if row.portfolio_selected then put (row_symbol row) row d else d)

abbrev pub run_origin : PortfolioRow → Option String → Origin
run_origin row run_id = record {
  recommendation_run_id = run_id;
  portfolio_rank = first_of row.portfolio_rank row.rank;
  target_weight = none;
  preview_id = none;
  run_manifest_id = run_id;
}

abbrev pub rejected_artifact : PortfolioPreflightResult → RunArtifact
rejected_artifact p = record {
  stage = "risk";
  artifact_id = none;
  dataset = none;
  row_count = some (length p.rejected);
  checksum_sha256 = none;
  status = "rejected";
  metadata =
      ("preflight_required", Value.flag true)
      ∷ ("approved_count", Value.count (length p.approved))
      ∷ ("rejected_count", Value.count (length p.rejected))
      ∷ [];
}

-- What `isinstance(result, Fill)` lets through.
abbrev pub filled_answer : Option Answer → Option Fill
filled_answer (some (Answer.filled f)) = some f
filled_answer _ = none

-- The row of an approved item.
abbrev pub approved_row : PortfolioRevalidation → Dict String PortfolioRow → Option PortfolioRow
approved_row item rows = elim item.intent [ none ↦ none | some intent ↦ get intent.symbol rows ]

module _ {World Storage Files : Type 0} where
  unfoldable pub on_facade :
      {A : Type 0} → Exec (TradeFacade World Storage) A → Exec (Orchestrator World Storage Files) A
  on_facade = within (λ o. o.facade) with_facade

  unfoldable pub take_answer :
      Inputs → Terms → Option String → ℕ → Option Fill → Exec (Run World Storage Files) (Unit {0})
  take_answer i t run_id n none = pure tt
  take_answer i t run_id n (some f) =
      take_fill t.latest_prices run_id (i.episode_id n) (i.clock n) f

  -- The body of the loop, for an approved row at place `n`.
  unfoldable pub execute_row :
      Inputs
      → Terms
      → Option String
      → ℕ
      → Option PortfolioRow
      → Exec (Run World Storage Files) (Unit {0})
  execute_row i t run_id n none = pure tt
  execute_row i t run_id n (some row) = do
    answer ← on_desk (
        on_facade (
          submit_portfolio_row_revalidated t (i.revalidation n) (i.submission n) row none
            (run_origin row run_id)))
    take_answer i t run_id n (filled_answer answer)

  unfoldable pub execute_rows :
      Inputs
      → Terms
      → Option String
      → Dict String PortfolioRow
      → ℕ
      → List PortfolioRevalidation
      → Exec (Run World Storage Files) (Unit {0})
  execute_rows i t run_id rows n [] = pure tt
  execute_rows i t run_id rows n (item ∷ items) = do
    execute_row i t run_id n (approved_row item rows)
    execute_rows i t run_id rows (suc n) items

  -- The loop from empty lists; it gives them as it leaves them.
  unfoldable pub execute_approved :
      Inputs
      → Terms
      → Option String
      → Dict String PortfolioRow
      → List PortfolioRevalidation
      → Exec (Orchestrator World Storage Files) Collected
  execute_approved i t run_id rows items o =
      let start : Run World Storage Files = record { desk = o; collected = nothing_collected } in
      let loop = (do execute_rows i t run_id rows 0 items; gets (λ r. r.collected)) in
      let (answer, left) = loop start in (answer, left.desk)

  -- `execute` behind the preflight.
  unfoldable pub conclude :
      Inputs
      → Terms
      → List PortfolioRow
      → Option String
      → Option String
      → PortfolioPreflightResult
      → Exec (Orchestrator World Storage Files) PaperExecutionResult
  conclude i t rows run_id trade_date preflight =
      if not (all_approved preflight)
      then (do
        bind_run_stage run_id (rejected_artifact preflight)
        pure (record {
          preflight = preflight;
          fills = [];
          pnl_audits = [];
          reflection_episodes = [];
        }))
      else (do
        c ← execute_approved i t run_id (row_by_symbol rows []) preflight.approved
        persist_stage run_id trade_date "fills" c.fill_rows
        persist_stage run_id trade_date "pnl" c.pnl_rows
        persist_stage run_id trade_date "reflection" c.reflection_rows
        pure (record {
          preflight = preflight;
          fills = c.fills;
          pnl_audits = c.pnl_audits;
          reflection_episodes = c.episodes;
        }))

  unfoldable pub execute :
      Inputs
      → Terms
      → List PortfolioRow
      → Option String
      → Option String
      → Exec (Orchestrator World Storage Files) PaperExecutionResult
  execute i t rows run_id trade_date = do
    mode ← gets (λ o. mode_value o.facade.gateway.controller.mode)
    throw_if (not (mode == "PAPER_SANDBOX" || mode == "VIRTUAL_BACKTEST")) Kind.permission_error
        "PaperExecutionOrchestrator requires PAPER_SANDBOX or VIRTUAL_BACKTEST"
    preflight ← on_facade (preflight_portfolio t i.preflight i.audit rows run_id run_id)
    conclude i t rows run_id trade_date preflight
