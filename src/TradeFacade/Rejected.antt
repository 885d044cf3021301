-- ===== src/TradeFacade/Rejected.antt =====
-- What `InternalTradeFacade.submit` does with an order that the guardian rejects, of
-- trade_facade.py.
use paper_live.Base.{
  ℕ, ◌≡◌, refl, false, Option, none, some, String, Result, Error, ok, err, is_ok, arith,
}
use paper_live.Base.Exec.{Exec, pure, lift, gets, within, follow, ◌>>=◌}
use paper_live.Audit.{AuditRecord, AuditTrail}
use paper_live.Audit.Calls.{Payload, create_submission}
use paper_live.TradeFacade.Types.{OrderIntent, RiskAssessment}
use paper_live.TradeFacade.Assess.{assess_risk}
use paper_live.TradeFacade.Calls.{TradeFacade, chosen_intent, with_id}
use paper_live.TradeFacade.Submit.{Submission, on_trail, submit_as, submit}

module _ {World Storage : Type 0} where
  -- A call of the trail writes to nothing else.
  on_trail_frame :
      (trail : Option (AuditTrail Storage)) (call : Exec (AuditTrail Storage) AuditRecord)
      (f : TradeFacade World Storage)
      → ((on_trail trail call f).1.gateway ≡ f.gateway)
        × ((on_trail trail call f).1.world ≡ f.world)
  unfolding on_trail within pure ◌>>=◌
  on_trail_frame none call f = (refl, refl)
  on_trail_frame (some trail) call f = (ground arith, ground arith)

  refused :
      {A : Type 0} (before : Result (Option AuditRecord) × TradeFacade World Storage) (e : Error)
      (rest : Option AuditRecord → Unit {0} → Exec (TradeFacade World Storage) A)
      → (is_ok (follow before (λ a. lift (err e) >>= rest a)).0 ≡ false)
        × ((follow before (λ a. lift (err e) >>= rest a)).1 ≡ before.1)
  unfolding lift ◌>>=◌
  refused (ok a, f) e rest = (refl, refl)
  refused (err x, f) e rest = (refl, refl)

  -- An order that the guardian rejects, whether it comes with the call or from a stored preview, is
  -- submitted to nobody: the call raises, the gateway with its account and its orders is as it was,
  -- and so is the brokers' world; only the audit trail may tell of it.
  pub submit_rejected :
      (digest : Payload → String) (fresh : String) (created now later : ℕ) (s : Submission)
      (f : TradeFacade World Storage) {chosen : OrderIntent} {risk : RiskAssessment}
      → chosen_intent s.preview_id s.intent f.previews ≡ ok chosen
      → assess_risk fresh (with_id fresh chosen) s.reference_price s.context f.gateway f.risk
        ≡ ok risk
      → risk.approved ≡ false
      → (is_ok (submit digest fresh created now later s f).0 ≡ false)
        × ((submit digest fresh created now later s f).1.gateway ≡ f.gateway)
        × ((submit digest fresh created now later s f).1.world ≡ f.world)
  unfolding submit submit_as ◌>>=◌ lift gets
  submit_rejected digest fresh created now later s f {chosen} {risk} from_call assessed rejected =
      let intent = with_id fresh chosen in
      let told =
        on_trail_frame f.audit_trail
          (create_submission digest created intent s.reference_price risk s.context
            (record s.origin { preview_id = s.preview_id }))
          f in
      (
        ground (arith, from_call, assessed),
        ground (arith, from_call, assessed, told.0),
        ground (arith, from_call, assessed, told.1),
      )
