-- ===== src/PaperExecution/AllOrNothing.antt =====
-- A portfolio with a rejected row is not executed at all, of paper_execution.py.
use paper_live.Base.{
  ◌≡◌, refl, true, false, ◌||◌, Option, none, some, List, [], String, ◌==◌, ok, Option-cases, inl,
  inr, arith,
}
use paper_live.Base.Exec.{
  Exec, gets, lift, within, follow-ok, ◌>>=◌, Keeps, Keeps-bind, Keeps-if, Keeps-within, Keeps-pure,
  keeps_rules, Yields,
}
use paper_live.Base.Yields.{Yields-bind, Yields-pure}
use paper_live.Environment.{Mode, is_live, mode_value}
use paper_live.RunManifest.{RunArtifact}
use paper_live.RunManifest.Tracker.{Tracker}
use paper_live.Audit.{AuditTrail}
use paper_live.TradeFacade.Types.{PortfolioRow, PortfolioPreflightResult, all_approved}
use paper_live.TradeFacade.Terms.{Terms}
use paper_live.TradeFacade.Revalidate.{preflight_portfolio}
use paper_live.TradeFacade.Preflight.{Agrees}
use paper_live.TradeFacade.Preflight.Fair.{preflight_portfolio-Fair}
use paper_live.PaperExecution.{
  Orchestrator, PaperExecutionResult, with_facade, with_tracker, with_active, on_active,
  bind_tracked, bind_run_stage,
}
use paper_live.PaperExecution.Execute.{Inputs, on_facade, conclude, execute}

-- What `execute` returns for a rejected portfolio.
pub record Refused (p : PortfolioPreflightResult) (result : PaperExecutionResult) : Type 0 where
  pub told : result.preflight ≡ p
  pub fills : result.fills ≡ []
  pub pnl_audits : result.pnl_audits ≡ []
  pub episodes : result.reflection_episodes ≡ []

paper_mode :
    (m : Mode)
    → is_live m ≡ false
    → (mode_value m == "PAPER_SANDBOX" || mode_value m == "VIRTUAL_BACKTEST") ≡ true
paper_mode Mode.real_live h = absurd (ground (arith, h))
paper_mode Mode.paper_sandbox h = refl
paper_mode Mode.virtual_backtest h = refl

module _ {World Storage Files : Type 0} where
  -- The gateway, the guardian, the brokers' world, the ledger and the files are those of `start`.
  pub record Intact (start o : Orchestrator World Storage Files) : Type 0 where
    pub facade : Agrees start.facade o.facade
    pub ledger : o.ledger ≡ start.ledger
    pub files : o.files ≡ start.files

  with_active-Intact :
      (start o : Orchestrator World Storage Files) (trail : AuditTrail Storage)
      → Intact start o
      → Intact start (with_active o trail)
  with_active-Intact start o trail h = elim (Option-cases o.audit_trail) [
    | inl shared ↦ rw shared (record {
      facade = record { gateway = h.facade.gateway; risk = h.facade.risk; world = h.facade.world };
      ledger = h.ledger;
      files = h.files;
    })
    | inr (own, has) ↦ rw has (record { facade = h.facade; ledger = h.ledger; files = h.files })
  ]

  on_active-Intact :
      {A : Type 0} (start : Orchestrator World Storage Files) (trail : Option (AuditTrail Storage))
      (call : Exec (AuditTrail Storage) A)
      → Keeps (Intact start) (on_active trail call)
  unfolding on_active
  on_active-Intact start none call = Keeps-pure none
  on_active-Intact start (some trail) call =
      Keeps-bind _ _ (Keeps-within _ _ with_active call (λ o t h. with_active-Intact start o t h))
        (λ answer. Keeps-pure (some answer))

  bind_tracked-Intact :
      (start : Orchestrator World Storage Files) (tracker : Option (Tracker Storage))
      (run_id : Option String) (artifact : RunArtifact)
      → Keeps (Intact start) (bind_tracked tracker run_id artifact)
  unfolding bind_tracked
  bind_tracked-Intact start none run_id artifact = search (keeps_rules, on_active-Intact)
  bind_tracked-Intact start (some tracker) none artifact = Keeps-pure tt
  bind_tracked-Intact start (some tracker) (some run_id) artifact = Keeps-if _ _ _ (Keeps-pure tt) (
      Keeps-bind _ _
        (Keeps-within _ _ with_tracker _
          (λ o t h. record { facade = h.facade; ledger = h.ledger; files = h.files }))
        (λ m. Keeps-pure tt))

  bind_run_stage-Intact :
      (start : Orchestrator World Storage Files) (run_id : Option String) (artifact : RunArtifact)
      → Keeps (Intact start) (bind_run_stage run_id artifact)
  unfolding bind_run_stage
  bind_run_stage-Intact start run_id artifact = search (keeps_rules, bind_tracked-Intact)

  conclude-Refused :
      (start : Orchestrator World Storage Files) (i : Inputs) (t : Terms) (rows : List PortfolioRow)
      (run_id trade_date : Option String) (p : PortfolioPreflightResult)
      → all_approved p ≡ false
      → Yields (Intact start) (Refused p) (conclude i t rows run_id trade_date p)
  unfolding conclude
  conclude-Refused start i t rows run_id trade_date p rejected = rw rejected (
      Yields-bind _ _ (bind_run_stage-Intact start run_id _) (λ _.
        Yields-pure _ (record { told = refl; fills = refl; pnl_audits = refl; episodes = refl })))

  -- How `execute` goes on behind a preflight that returns.
  after_preflight :
      (i : Inputs) (t : Terms) (rows : List PortfolioRow) (run_id trade_date : Option String)
      (o : Orchestrator World Storage Files) {p : PortfolioPreflightResult}
      → is_live o.facade.gateway.controller.mode ≡ false
      → (preflight_portfolio t i.preflight i.audit rows run_id run_id o.facade).0 ≡ ok p
      → execute i t rows run_id trade_date o
        ≡ conclude i t rows run_id trade_date p (
            with_facade o (preflight_portfolio t i.preflight i.audit rows run_id run_id o.facade).1)
  unfolding execute on_facade within gets lift ◌>>=◌
  after_preflight i t rows run_id trade_date o paper passed =
      rw (paper_mode o.facade.gateway.controller.mode paper)
        (follow-ok _ (conclude i t rows run_id trade_date) passed)

  -- When the preflight of a portfolio rejects a row, nothing of the portfolio is executed: the
  -- gateway with its account and orders, the guardian, the brokers' world, the ledger and the files
  -- are as they were, whether the call returns or raises; and when it returns, it returns the
  -- preflight's result with no fill, no profit and no episode.
  pub execute_rejected :
      (i : Inputs) (t : Terms) (rows : List PortfolioRow) (run_id trade_date : Option String)
      (o : Orchestrator World Storage Files) {p : PortfolioPreflightResult}
      → is_live o.facade.gateway.controller.mode ≡ false
      → (preflight_portfolio t i.preflight i.audit rows run_id run_id o.facade).0 ≡ ok p
      → all_approved p ≡ false
      → Intact o (execute i t rows run_id trade_date o).1
        × ((result : PaperExecutionResult)
            → (execute i t rows run_id trade_date o).0 ≡ ok result
            → Refused p result)
  execute_rejected i t rows run_id trade_date o {p} paper passed rejected =
      let checked = preflight_portfolio t i.preflight i.audit rows run_id run_id o.facade in
      let here : Intact o (with_facade o checked.1) = record {
        facade =
            (preflight_portfolio-Fair t i.preflight i.audit rows run_id run_id o.facade).keeps
              o.facade (record { gateway = refl; risk = refl; world = refl });
        ledger = refl;
        files = refl;
      } in
      let said = conclude-Refused o i t rows run_id trade_date p rejected in
      rw (after_preflight i t rows run_id trade_date o paper passed)
        (said.keeps _ here, λ result e. said.yields _ result here e)
