-- ===== src/PaperExecution/Sound.antt =====
-- What the orchestrator of paper_execution.py keeps: a sound gateway, a ledger without short
-- positions, the controller, and the brokers' world.
pub mod Loop
use paper_live.Base.{
  ℕ, suc, ◌≡◌, refl, sym, subst, ap, ◌∙◌, Bool, true, false, not, ◌||◌, Option, none, some, List,
  [], ◌∷◌, String, ◌==◌, Result, Kind, ok, err, raise_if, Bool-cases, Option-cases, inl, inr, arith,
}
use paper_live.Base.Dict.{Dict}
use paper_live.Base.Exec.{
  Exec, pure, lift, gets, within, throw_if, attempt, Keeps, Keeps-bind, Keeps-if, Keeps-within,
  Keeps-zoom, Keeps-modify, Keeps-pure, Keeps-lift, Keeps-gets, keeps_rules, ◌>>=◌,
}
use paper_live.Decimal.{Decimal}
use paper_live.Environment.{Mode, is_live, mode_value}
use paper_live.Execution.Types.{Fill}
use paper_live.Execution.Gateway.Soundness.{IsSound}
use paper_live.Execution.Gateway.Steady.{Steered, execute-Steered}
use paper_live.Pnl
use paper_live.Pnl.Invariant.{AllLong, apply_fill-AllLong}
use paper_live.RunManifest.{RunArtifact}
use paper_live.RunManifest.Tracker.{Tracker}
use paper_live.Audit.{AuditRecord, AuditTrail}
use paper_live.Audit.Calls.{Origin}
use paper_live.TradeFacade.Types.{
  OrderIntent, PortfolioRow, PortfolioRevalidation, PortfolioPreflightResult,
}
use paper_live.TradeFacade.Calls.{TradeFacade}
use paper_live.TradeFacade.Submit.{Submission, submit}
use paper_live.TradeFacade.Sandbox.{submit-IsUntouched}
use paper_live.TradeFacade.Sound.{Holds, submit-Holds, submit-IsSound}
use paper_live.TradeFacade.Terms.{Terms, Fresh}
use paper_live.TradeFacade.Revalidate.{
  AuditInputs, SubmitInputs, revalidate_portfolio_row, preflight_portfolio, submit_revalidated,
  submit_portfolio_row_revalidated,
}
use paper_live.TradeFacade.Preflight.{Agrees, revalidate-Checked}
use paper_live.TradeFacade.Preflight.Fair.{preflight_portfolio-Fair}
use paper_live.PaperExecution.{
  TradeEpisode, StageRow, StageWriter, Orchestrator, with_facade, with_ledger, with_files,
  with_tracker, active_trail, with_active, on_active, bind_of_trail, bind_tracked, bind_run_stage,
  persist_with, persist_stage,
}
use paper_live.PaperExecution.Booking.{
  Collected, Run, on_desk, collect, audited, reflect_with, book, caught, book_submission,
  book_audited, take_fill,
}
use paper_live.PaperExecution.Execute.{
  Inputs, on_facade, take_answer, execute_row, execute_rows, execute_approved, conclude, execute,
}
use paper_live.TradeFacade.OnPaper.{OnPaper, preflight-OnPaper, submit_row-OnPaper}

module _ {World Storage Files : Type 0} where
  -- The facade is on paper as `start` is, and the ledger has no short position.
  pub record Steady (start : TradeFacade World Storage) (o : Orchestrator World Storage Files)
      : Type 0 where
    pub facade : OnPaper start o.facade
    pub ledger : AllLong o.ledger

  with_active-Steady :
      (start : TradeFacade World Storage) (o : Orchestrator World Storage Files)
      (trail : AuditTrail Storage)
      → Steady start o
      → Steady start (with_active o trail)
  with_active-Steady start o trail h = elim (Option-cases o.audit_trail) [
    | inl shared ↦ rw shared (record {
      facade = record {
        sound = h.facade.sound;
        controller = h.facade.controller;
        world = h.facade.world;
      };
      ledger = h.ledger;
    })
    | inr (own, has) ↦ rw has (record { facade = h.facade; ledger = h.ledger })
  ]

  pub on_active-Steady :
      {A : Type 0} (start : TradeFacade World Storage) (trail : Option (AuditTrail Storage))
      (call : Exec (AuditTrail Storage) A)
      → Keeps {S = Orchestrator World Storage Files} (Steady start) (on_active trail call)
  unfolding on_active
  on_active-Steady start none call = Keeps-pure none
  on_active-Steady start (some trail) call =
      Keeps-bind _ _ (Keeps-within _ _ with_active call (λ o t h. with_active-Steady start o t h))
        (λ answer. Keeps-pure (some answer))

  pub in_files-Steady :
      {A : Type 0} (start : TradeFacade World Storage) (call : Exec Files A)
      → Keeps {S = Orchestrator World Storage Files}
          (Steady start)
          (within (λ o. o.files) with_files call)
  in_files-Steady start call =
      Keeps-within _ _ with_files call (λ o t h. record { facade = h.facade; ledger = h.ledger })

  bind_tracked-Steady :
      (start : TradeFacade World Storage) (tracker : Option (Tracker Storage))
      (run_id : Option String) (artifact : RunArtifact)
      → Keeps {S = Orchestrator World Storage Files}
          (Steady start)
          (bind_tracked tracker run_id artifact)
  unfolding bind_tracked
  bind_tracked-Steady start none run_id artifact = search (keeps_rules, on_active-Steady)
  bind_tracked-Steady start (some tracker) none artifact = Keeps-pure tt
  bind_tracked-Steady start (some tracker) (some run_id) artifact = Keeps-if _ _ _ (Keeps-pure tt) (
      Keeps-bind _ _
        (Keeps-within _ _ with_tracker _ (λ o t h. record { facade = h.facade; ledger = h.ledger }))
        (λ m. Keeps-pure tt))

  pub bind_run_stage-Steady :
      (start : TradeFacade World Storage) (run_id : Option String) (artifact : RunArtifact)
      → Keeps {S = Orchestrator World Storage Files} (Steady start) (bind_run_stage run_id artifact)
  unfolding bind_run_stage
  bind_run_stage-Steady start run_id artifact = search (keeps_rules, bind_tracked-Steady)

  persist_with-Steady :
      (start : TradeFacade World Storage) (write : Option (StageWriter Files))
      (run_id trade_date : Option String) (stage : String) (rows : List StageRow)
      → Keeps {S = Orchestrator World Storage Files}
          (Steady start)
          (persist_with write run_id trade_date stage rows)
  unfolding persist_with
  persist_with-Steady start none run_id trade_date stage rows = Keeps-pure tt
  persist_with-Steady start (some write) none trade_date stage rows = Keeps-pure tt
  persist_with-Steady start (some write) (some run_id) none stage rows = Keeps-pure tt
  persist_with-Steady start (some write) (some run_id) (some trade_date) stage [] = Keeps-pure tt
  persist_with-Steady start (some write) (some run_id) (some trade_date) stage (row ∷ rows) =
      search (keeps_rules, in_files-Steady, bind_run_stage-Steady)

  pub persist_stage-Steady :
      (start : TradeFacade World Storage) (run_id trade_date : Option String) (stage : String)
      (rows : List StageRow)
      → Keeps {S = Orchestrator World Storage Files}
          (Steady start)
          (persist_stage run_id trade_date stage rows)
  unfolding persist_stage
  persist_stage-Steady start run_id trade_date stage rows =
      search (keeps_rules, persist_with-Steady)
