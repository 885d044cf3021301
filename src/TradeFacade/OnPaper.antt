-- ===== src/TradeFacade/OnPaper.antt =====
-- What the calls on rows of a portfolio keep while the mode is not REAL_LIVE, of trade_facade.py.
use paper_live.Base.{ℕ, ◌≡◌, refl, sym, subst, ap, ◌∙◌, false, Option, none, some, List, String}
use paper_live.Base.Exec.{Keeps, Keeps-pure, keeps_rules}
use paper_live.Environment.{is_live}
use paper_live.Execution.Gateway.Soundness.{IsSound}
use paper_live.Execution.Gateway.Steady.{Steered, execute-Steered}
use paper_live.Audit.Calls.{Origin}
use paper_live.TradeFacade.Types.{OrderIntent, PortfolioRow, PortfolioRevalidation}
use paper_live.TradeFacade.Calls.{TradeFacade}
use paper_live.TradeFacade.Submit.{Submission, submit}
use paper_live.TradeFacade.Sandbox.{submit-IsUntouched}
use paper_live.TradeFacade.Sound.{submit-Holds, submit-IsSound}
use paper_live.TradeFacade.Terms.{Terms, Fresh}
use paper_live.TradeFacade.Revalidate.{
  AuditInputs, SubmitInputs, revalidate_portfolio_row, preflight_portfolio, submit_revalidated,
  submit_portfolio_row_revalidated,
}
use paper_live.TradeFacade.Preflight.{Agrees, revalidate-Checked}
use paper_live.TradeFacade.Preflight.Fair.{preflight_portfolio-Fair}

module _ {World Storage : Type 0} where
  -- The gateway is sound, and the controller and the brokers' world are those of `start`.
  pub record OnPaper (start f : TradeFacade World Storage) : Type 0 where
    pub sound : IsSound f.gateway
    pub controller : f.gateway.controller ≡ start.gateway.controller
    pub world : f.world ≡ start.world

  -- A call that keeps the gateway and the world keeps that.
  Agrees-OnPaper :
      {start f f' : TradeFacade World Storage} → OnPaper start f → Agrees f f' → OnPaper start f'
  Agrees-OnPaper h a = record {
    sound = subst IsSound (sym a.gateway) h.sound;
    controller = ap (λ g. g.controller) a.gateway ∙ h.controller;
    world = a.world ∙ h.world;
  }

  itself : (f : TradeFacade World Storage) → Agrees f f
  itself f = record { gateway = refl; risk = refl; world = refl }

  revalidate-OnPaper :
      (start : TradeFacade World Storage) (t : Terms) (u : Fresh) (row : PortfolioRow)
      → Keeps (OnPaper start) (revalidate_portfolio_row t u row)
  revalidate-OnPaper start t u row = record {
    at = λ f h. Agrees-OnPaper h ((revalidate-Checked f t u row).keeps f (itself f));
  }

  pub preflight-OnPaper :
      (start : TradeFacade World Storage) (t : Terms) (u : ℕ → Fresh) (a : AuditInputs)
      (rows : List PortfolioRow) (recommendation_run_id run_manifest_id : Option String)
      → Keeps (OnPaper start) (preflight_portfolio t u a rows recommendation_run_id run_manifest_id)
  preflight-OnPaper start t u a rows recommendation_run_id run_manifest_id = record {
    at = λ f h. Agrees-OnPaper h (
        (preflight_portfolio-Fair t u a rows recommendation_run_id run_manifest_id f).keeps f
          (itself f));
  }

  module _ (start : TradeFacade World Storage)
      (paper : is_live start.gateway.controller.mode ≡ false) where
    submit-OnPaper :
        (i : SubmitInputs) (s : Submission)
        → Keeps (OnPaper start) (submit i.digest i.fresh i.created i.now i.later s)
    submit-OnPaper i s = record {
      at = λ f h. record {
        sound =
            ((submit-IsSound i.digest i.fresh i.created i.now i.later s).at f
              (record { held = h.sound })).held;
        controller =
            ((submit-Holds (Steered start.gateway.controller)
                (λ order price q. execute-Steered start.gateway.controller order price none)
                i.digest i.fresh i.created i.now i.later s).at
              f (record { held = record { controller = h.controller } })).held.controller;
        world =
            submit-IsUntouched i.digest i.fresh i.created i.now i.later s f
              (ap (λ c. is_live c.mode) h.controller ∙ paper)
            ∙ h.world;
      };
    }

    submit_revalidated-OnPaper :
        (t : Terms) (i : SubmitInputs) (row : PortfolioRow) (approval_id : Option String)
        (origin : Origin) (r : PortfolioRevalidation) (intent : Option OrderIntent)
        → Keeps (OnPaper start) (submit_revalidated t i row approval_id origin r intent)
    unfolding submit_revalidated
    submit_revalidated-OnPaper t i row approval_id origin r none = Keeps-pure none
    submit_revalidated-OnPaper t i row approval_id origin r (some intent) =
        search (keeps_rules, submit-OnPaper)

    pub submit_row-OnPaper :
        (t : Terms) (u : Fresh) (i : SubmitInputs) (row : PortfolioRow)
        (approval_id : Option String) (origin : Origin)
        → Keeps (OnPaper start) (submit_portfolio_row_revalidated t u i row approval_id origin)
    unfolding submit_portfolio_row_revalidated
    submit_row-OnPaper t u i row approval_id origin =
        search (keeps_rules, revalidate-OnPaper, submit_revalidated-OnPaper)
