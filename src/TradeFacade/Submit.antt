-- ===== src/TradeFacade/Submit.antt =====
-- `InternalTradeFacade.submit`, of trade_facade.py.
use paper_live.Base.{ℕ, Bool, true, false, not, Option, none, some, String, Kind}
use paper_live.Base.Dict.{string_eq}
use paper_live.Base.Exec.{Exec, pure, lift, gets, within, throw_if, ◌>>=◌, ◌>>◌}
use paper_live.Decimal.{Decimal}
use paper_live.Environment.{is_live}
use paper_live.Execution.Types.{Fill}
use paper_live.Execution.Gateway
use paper_live.Execution.Gateway.{Gateway}
use paper_live.Risk.{PortfolioRiskContext}
use paper_live.Brokers.{OrderResult}
use paper_live.Audit.{AuditRecord, AuditTrail}
use paper_live.Audit.Calls.{Payload, Origin, create_submission, record_fill, record_answer}
use paper_live.TradeFacade.Types.{OrderIntent}
use paper_live.TradeFacade.Assess.{to_paper_order, assess_risk, reason}
use paper_live.TradeFacade.Calls.{
  TradeFacade, with_gateway, with_trail, chosen_intent, with_id, submit_live,
}

-- What the caller of `submit` gives.
pub record Submission : Type 0 where
  pub intent : OrderIntent
  pub reference_price : Decimal
  pub approval_id : Option String
  pub preview_id : Option String
  pub context : Option PortfolioRiskContext
  pub origin : Origin

module _ {World Storage : Type 0} where
  -- A call of the trail, if there is one, with a record in hand.
  unfoldable pub on_trail :
      Option (AuditTrail Storage)
      → Exec (AuditTrail Storage) AuditRecord
      → Exec (TradeFacade World Storage) (Option AuditRecord)
  on_trail none call = pure none
  on_trail (some trail) call = do r ← within (λ f. trail) with_trail call; pure (some r)

  -- `if audit is not None and self.audit_trail is not None: ...`
  unfoldable pub audit_end :
      Option AuditRecord
      → (AuditRecord → Exec (AuditTrail Storage) AuditRecord)
      → Exec (TradeFacade World Storage) (Option AuditRecord)
  audit_end none call = pure none
  audit_end (some r) call = do trail ← gets (λ f. f.audit_trail); on_trail trail (call r)

-- What `submit` returns: the engine's fill or the broker's answer.
pub data Answer : Type 0 where
  filled : Fill → Answer
  answered : OrderResult → Answer

module _ {World Storage : Type 0} where
  -- The order behind the guards: to the broker in REAL_LIVE, to the gateway otherwise.
  unfoldable pub place :
      Bool
      → String
      → ℕ
      → ℕ
      → OrderIntent
      → Decimal
      → Option String
      → Option AuditRecord
      → Exec (TradeFacade World Storage) Answer
  place true fresh now later intent price approval_id audit = do
    result ← submit_live intent approval_id now later
    recorded ← audit_end audit (λ r. record_answer r result)
    pure (Answer.answered result)
  place false fresh now later intent price approval_id audit = do
    order ← lift (to_paper_order fresh intent)
    fill ← within (λ f. f.gateway) with_gateway (Gateway.execute order price none)
    recorded ← audit_end audit (λ r. record_fill r fill)
    pure (Answer.filled fill)

  -- `submit` in a mode that is REAL_LIVE or not. `digest` makes audit ids, `fresh` holds what
  -- `uuid4` gives, and `created`, `now` and `later` are readings of the clock.
  unfoldable pub submit_as :
      Bool
      → (Payload → String)
      → String
      → ℕ
      → ℕ
      → ℕ
      → Submission
      → Exec (TradeFacade World Storage) Answer
  submit_as live digest fresh created now later s = do
    f ← gets (λ f. f)
    chosen ← lift (chosen_intent s.preview_id s.intent f.previews)
    let intent = with_id fresh chosen
    risk ← lift (assess_risk fresh intent s.reference_price s.context f.gateway f.risk)
    audit ← on_trail f.audit_trail (
        create_submission digest created intent s.reference_price risk s.context
          (record s.origin { preview_id = s.preview_id }))
    throw_if (not risk.approved) Kind.permission_error (reason risk.violations)
    place live fresh now later intent s.reference_price s.approval_id audit

  unfoldable pub submit :
      (Payload → String) → String → ℕ → ℕ → ℕ → Submission → Exec (TradeFacade World Storage) Answer
  submit digest fresh created now later s f =
      submit_as (is_live f.gateway.controller.mode) digest fresh created now later s f
