-- ===== src/PaperExecution/Sound/Loop.antt =====
-- What the loop of `execute` keeps, of paper_execution.py.
use paper_live.Base.{
  ℕ, suc, ◌≡◌, refl, sym, subst, true, false, ◌||◌, Option, none, some, List, [], ◌∷◌, String, ◌==◌,
  Bool-cases, inl, inr, arith,
}
use paper_live.Base.Dict.{Dict}
use paper_live.Base.Exec.{
  Exec, lift, gets, within, zoom, Keeps, Keeps-bind, Keeps-zoom, Keeps-modify, Keeps-pure,
  Keeps-gets, keeps_rules, ◌>>=◌,
}
use paper_live.Decimal.{Decimal}
use paper_live.Environment.{Mode, is_live, mode_value}
use paper_live.Execution.Types.{Fill}
use paper_live.Execution.Gateway.Soundness.{IsSound}
use paper_live.Pnl
use paper_live.Pnl.{Side}
use paper_live.Pnl.Invariant.{AllLong, apply_fill-AllLong}
use paper_live.Audit.{AuditRecord, AuditTrail}
use paper_live.TradeFacade.Types.{PortfolioRow, PortfolioRevalidation, PortfolioPreflightResult}
use paper_live.TradeFacade.Calls.{TradeFacade}
use paper_live.TradeFacade.Terms.{Terms}
use paper_live.PaperExecution.{TradeEpisode, Orchestrator, with_ledger}
use paper_live.PaperExecution.Booking.{
  Collected, Run, on_desk, collect, audited, reflect_with, book, book_submission, book_audited,
  take_fill,
}
use paper_live.PaperExecution.Execute.{
  Inputs, on_facade, take_answer, execute_row, execute_rows, execute_approved, conclude, execute,
}
use paper_live.TradeFacade.OnPaper.{OnPaper, preflight-OnPaper, submit_row-OnPaper}
use paper_live.PaperExecution.Sound.{
  Steady, on_active-Steady, in_files-Steady, bind_run_stage-Steady, persist_stage-Steady,
}

no_paper :
    (m : Mode)
    → is_live m ≡ true
    → (mode_value m == "PAPER_SANDBOX" || mode_value m == "VIRTUAL_BACKTEST") ≡ false
no_paper Mode.real_live h = refl
no_paper Mode.paper_sandbox h = absurd (ground (arith, h))
no_paper Mode.virtual_backtest h = absurd (ground (arith, h))

module _ {World Storage Files : Type 0} where
  -- The same of a run's orchestrator.
  record SteadyRun (start : TradeFacade World Storage) (r : Run World Storage Files) : Type 0 where
    desk : Steady start r.desk

  on_desk-SteadyRun :
      {A : Type 0} (start : TradeFacade World Storage)
      (call : Exec (Orchestrator World Storage Files) A)
      → Keeps (Steady start) call
      → Keeps (SteadyRun start) (on_desk call)
  unfolding on_desk within
  on_desk-SteadyRun start call kept = record { at = λ r h. record { desk = kept.at r.desk h.desk } }

  collect-SteadyRun :
      (start : TradeFacade World Storage) (f : Collected → Collected)
      → Keeps {S = Run World Storage Files} (SteadyRun start) (collect f)
  unfolding collect
  collect-SteadyRun start f = Keeps-modify _ _ (λ r h. record { desk = h.desk })

  audited-Steady :
      {A : Type 0} (start : TradeFacade World Storage) (call : Exec (AuditTrail Storage) A)
      → Keeps {S = Orchestrator World Storage Files} (Steady start) (audited call)
  unfolding audited
  audited-Steady start call = search (keeps_rules, on_active-Steady)

  in_ledger-Steady :
      (start : TradeFacade World Storage) (symbol : String) (side : Side) (q price : Decimal)
      → Keeps {S = Orchestrator World Storage Files}
          (Steady start)
          (zoom (λ o. o.ledger) with_ledger (Pnl.apply_fill symbol side q price))
  in_ledger-Steady start symbol side q price =
      Keeps-zoom (Steady start) AllLong _ with_ledger _ (λ o h. h.ledger)
        (apply_fill-AllLong symbol side q price)
        (λ o l h k. record { facade = h.facade; ledger = k })

  ruleset run_rules = (
    keeps_rules, on_desk-SteadyRun, collect-SteadyRun, audited-Steady, in_ledger-Steady,
    in_files-Steady,
  )

  reflect_with-SteadyRun :
      (start : TradeFacade World Storage) (worker : Option (TradeEpisode → Exec Files (Unit {0})))
      (run_id : Option String) (audit_id : String) (episode : TradeEpisode)
      → Keeps {S = Run World Storage Files}
          (SteadyRun start)
          (reflect_with worker run_id audit_id episode)
  unfolding reflect_with
  reflect_with-SteadyRun start none run_id audit_id episode = Keeps-pure tt
  reflect_with-SteadyRun start (some reflect) run_id audit_id episode = search run_rules

  book-SteadyRun :
      (start : TradeFacade World Storage) (prices : Dict String Decimal) (run_id : Option String)
      (episode_id : String) (now : ℕ) (audit_id : String) (f : Fill)
      → Keeps {S = Run World Storage Files}
          (SteadyRun start)
          (book prices run_id episode_id now audit_id f)
  unfolding book
  book-SteadyRun start prices run_id episode_id now audit_id f =
      search (run_rules, reflect_with-SteadyRun) depth 14

  book_submission-SteadyRun :
      (start : TradeFacade World Storage) (prices : Dict String Decimal) (run_id : Option String)
      (episode_id : String) (now : ℕ) (f : Fill) (submission : Option AuditRecord)
      → Keeps {S = Run World Storage Files}
          (SteadyRun start)
          (book_submission prices run_id episode_id now f submission)
  unfolding book_submission
  book_submission-SteadyRun start prices run_id episode_id now f none = Keeps-pure tt
  book_submission-SteadyRun start prices run_id episode_id now f (some submission) =
      search (run_rules, book-SteadyRun)

  book_audited-SteadyRun :
      (start : TradeFacade World Storage) (prices : Dict String Decimal) (run_id : Option String)
      (episode_id : String) (now : ℕ) (f : Fill) (trail : Option (AuditTrail Storage))
      → Keeps {S = Run World Storage Files}
          (SteadyRun start)
          (book_audited prices run_id episode_id now f trail)
  unfolding book_audited
  book_audited-SteadyRun start prices run_id episode_id now f none = Keeps-pure tt
  book_audited-SteadyRun start prices run_id episode_id now f (some trail) =
      book_submission-SteadyRun start prices run_id episode_id now f _

  take_answer-SteadyRun :
      (start : TradeFacade World Storage) (i : Inputs) (t : Terms) (run_id : Option String) (n : ℕ)
      (answer : Option Fill)
      → Keeps {S = Run World Storage Files} (SteadyRun start) (take_answer i t run_id n answer)
  unfolding take_answer take_fill
  take_answer-SteadyRun start i t run_id n none = Keeps-pure tt
  take_answer-SteadyRun start i t run_id n (some f) = search (run_rules, book_audited-SteadyRun)

  on_facade-Steady :
      {A : Type 0} (start : TradeFacade World Storage) (call : Exec (TradeFacade World Storage) A)
      → Keeps (OnPaper start) call
      → Keeps {S = Orchestrator World Storage Files} (Steady start) (on_facade call)
  unfolding on_facade within
  on_facade-Steady start call kept = record {
    at = λ o h. record { facade = kept.at o.facade h.facade; ledger = h.ledger };
  }

  module _ (start : TradeFacade World Storage)
      (paper : is_live start.gateway.controller.mode ≡ false) where
    execute_row-SteadyRun :
        (i : Inputs) (t : Terms) (run_id : Option String) (n : ℕ) (row : Option PortfolioRow)
        → Keeps {S = Run World Storage Files} (SteadyRun start) (execute_row i t run_id n row)
    unfolding execute_row
    execute_row-SteadyRun i t run_id n none = Keeps-pure tt
    execute_row-SteadyRun i t run_id n (some row) =
        Keeps-bind _ _
          (on_desk-SteadyRun start _
            (on_facade-Steady start _ (submit_row-OnPaper start paper t _ _ row none _)))
          (λ answer. take_answer-SteadyRun start i t run_id n _)

    execute_rows-SteadyRun :
        (i : Inputs) (t : Terms) (run_id : Option String) (rows : Dict String PortfolioRow) (n : ℕ)
        (items : List PortfolioRevalidation)
        → Keeps {S = Run World Storage Files}
            (SteadyRun start)
            (execute_rows i t run_id rows n items)
    unfolding execute_rows
    execute_rows-SteadyRun i t run_id rows n [] = Keeps-pure tt
    execute_rows-SteadyRun i t run_id rows n (item ∷ items) =
        Keeps-bind _ _ (execute_row-SteadyRun i t run_id n _)
          (λ _. execute_rows-SteadyRun i t run_id rows (suc n) items)

    execute_approved-Steady :
        (i : Inputs) (t : Terms) (run_id : Option String) (rows : Dict String PortfolioRow)
        (items : List PortfolioRevalidation)
        → Keeps {S = Orchestrator World Storage Files}
            (Steady start)
            (execute_approved i t run_id rows items)
    unfolding execute_approved
    execute_approved-Steady i t run_id rows items = record {
      at = λ o h.
          ((Keeps-bind (execute_rows i t run_id rows 0 items) _
              (execute_rows-SteadyRun i t run_id rows 0 items) (λ _. Keeps-gets _)).at
            _ (record { desk = h })).desk;
    }

    conclude-Steady :
        (i : Inputs) (t : Terms) (rows : List PortfolioRow) (run_id trade_date : Option String)
        (preflight : PortfolioPreflightResult)
        → Keeps {S = Orchestrator World Storage Files}
            (Steady start)
            (conclude i t rows run_id trade_date preflight)
    unfolding conclude
    conclude-Steady i t rows run_id trade_date preflight =
        search (keeps_rules, bind_run_stage-Steady, execute_approved-Steady, persist_stage-Steady)
          depth 12

    execute-Steady :
        (i : Inputs) (t : Terms) (rows : List PortfolioRow) (run_id trade_date : Option String)
        → Keeps {S = Orchestrator World Storage Files}
            (Steady start)
            (execute i t rows run_id trade_date)
    unfolding execute
    execute-Steady i t rows run_id trade_date =
        search (keeps_rules, on_facade-Steady, preflight-OnPaper, conclude-Steady)

  -- Outside the paper modes `execute` raises at once.
  execute_live :
      (i : Inputs) (t : Terms) (rows : List PortfolioRow) (run_id trade_date : Option String)
      (o : Orchestrator World Storage Files)
      → is_live o.facade.gateway.controller.mode ≡ true
      → (execute i t rows run_id trade_date o).1 ≡ o
  unfolding execute gets lift ◌>>=◌
  execute_live i t rows run_id trade_date o live =
      rw (no_paper o.facade.gateway.controller.mode live) refl

  -- From a sound gateway and a ledger without short positions, `execute` ends with both, whether it
  -- returns or raises, and whatever the storage and the reflection worker do; the brokers' world
  -- and the controller are as they were.
  pub execute_steady :
      (i : Inputs) (t : Terms) (rows : List PortfolioRow) (run_id trade_date : Option String)
      (o : Orchestrator World Storage Files)
      → IsSound o.facade.gateway
      → AllLong o.ledger
      → Steady o.facade (execute i t rows run_id trade_date o).1
  execute_steady i t rows run_id trade_date o sound long =
      let here : Steady o.facade o = record {
        facade = record { sound = sound; controller = refl; world = refl };
        ledger = long;
      } in
      elim (Bool-cases (is_live o.facade.gateway.controller.mode)) [
        | inl live ↦
            subst (Steady o.facade) (sym (execute_live i t rows run_id trade_date o live)) here
        | inr paper ↦ (execute-Steady o.facade paper i t rows run_id trade_date).at o here
      ]
