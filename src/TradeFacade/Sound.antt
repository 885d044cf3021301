-- ===== src/TradeFacade/Sound.antt =====
-- The gateway behind the facade stays sound, of trade_facade.py.
use paper_live.Base.{
  subst, sym, ℕ, ◌≡◌, refl, Bool, true, false, Option, none, some, String, Result, ok, err, arith,
  >>=-eq-ok,
}
use paper_live.Base.Int.{pos, ◌≤ℤ◌, ◌<ℤ◌}
use paper_live.Base.Exec.{
  Exec, within, Keeps, Keeps-bind, Keeps-within, Keeps-pure, Keeps-gets, Keeps-known, Keeps-lift,
  Yields-lift, keeps_rules,
}
use paper_live.Decimal.{Decimal}
use paper_live.Environment.{is_live}
use paper_live.Execution.Types.{PaperOrder}
use paper_live.Execution.Gateway
use paper_live.Execution.Gateway.{Gateway}
use paper_live.Execution.Gateway.Soundness.{IsSound, execute-IsSound}
use paper_live.Risk.{RiskGuardian, PortfolioRiskContext}
use paper_live.Risk.Order.{approve-Within}
use paper_live.Risk.Portfolio.{approve_portfolio-PortfolioWithin}
use paper_live.Audit.{AuditRecord, AuditTrail}
use paper_live.Audit.Calls.{Payload}
use paper_live.TradeFacade.Types.{
  OrderIntent, RiskAssessment, normalized_side, normalized_order_type,
}
use paper_live.TradeFacade.Assess.{to_paper_order, approve_with, assessed, assess_risk}
use paper_live.TradeFacade.Calls.{
  TradeFacade, with_gateway, with_trail, with_world, with_id, inject_credentials, cleared_after,
  submit_live,
}
use paper_live.TradeFacade.Submit.{Submission, on_trail, audit_end, place, submit_as, submit}

to_paper_order-quantity :
    (fresh : String) (intent : OrderIntent) {order : PaperOrder}
    → to_paper_order fresh intent ≡ ok order
    → order.quantity ≡ intent.quantity
unfolding to_paper_order
to_paper_order-quantity fresh intent made =
    let (side, _, made') = >>=-eq-ok (normalized_side intent) _ made in
    let (order_type, _, made'') = >>=-eq-ok (normalized_order_type intent) _ made' in
    ground (arith, made'')

approve_with-quantity :
    (order : PaperOrder) (price : Decimal) (context : Option PortfolioRiskContext) (g : Gateway)
    (risk : RiskGuardian)
    → approve_with order price context g risk ≡ ok tt
    → pos 0 <ℤ order.quantity
unfolding approve_with
approve_with-quantity order price none g risk passed =
    (approve-Within order price none g.controller g.paper.account risk passed).fits.quantity_pos
approve_with-quantity order price (some context) g risk passed =
    (approve_portfolio-PortfolioWithin order price context g.controller g.paper.account risk
      passed).order_within.fits.quantity_pos

pub assessed_ok :
    (passed : Result (Unit {0})) {risk : RiskAssessment}
    → assessed passed ≡ ok risk
    → risk.approved ≡ true
    → passed ≡ ok tt
assessed_ok (ok tt) e approved = refl
assessed_ok (err x) e approved = absurd (ground arith)

-- The guardian approves of nothing but a positive quantity.
pub assess_risk-quantity :
    (fresh : String) (intent : OrderIntent) (price : Decimal)
    (context : Option PortfolioRiskContext) (g : Gateway) (guardian : RiskGuardian)
    {risk : RiskAssessment}
    → assess_risk fresh intent price context g guardian ≡ ok risk
    → risk.approved ≡ true
    → pos 0 <ℤ intent.quantity
unfolding assess_risk
assess_risk-quantity fresh intent price context g guardian found approved =
    let (order, made, rest) = >>=-eq-ok (to_paper_order fresh intent) _ found in
    subst (λ q. pos 0 <ℤ q) (to_paper_order-quantity fresh intent made)
      (approve_with-quantity order price context g guardian
        (assessed_ok (approve_with order price context g guardian) rest approved))

-- A property of the gateway, on the facade.
pub record Holds {World Storage : Type 0} (P : Gateway → Type 0) (f : TradeFacade World Storage)
    : Type 0 where
  pub held : P f.gateway

-- What the gateway keeps for every quantity that is not negative, the facade keeps.
module _ {World Storage : Type 0} (P : Gateway → Type 0)
    (kept : (order : PaperOrder) (price : Decimal)
      → pos 0 ≤ℤ order.quantity
      → Keeps P (Gateway.execute order price none)) where
  on_trail-Holds :
      (trail : Option (AuditTrail Storage)) (call : Exec (AuditTrail Storage) AuditRecord)
      → Keeps {S = TradeFacade World Storage} (Holds P) (on_trail trail call)
  unfolding on_trail
  on_trail-Holds none call = Keeps-pure none
  on_trail-Holds (some trail) call =
      Keeps-bind _ _ (Keeps-within _ _ with_trail call (λ f t h. record { held = h.held }))
        (λ r. Keeps-pure (some r))

  audit_end-Holds :
      (audit : Option AuditRecord) (call : AuditRecord → Exec (AuditTrail Storage) AuditRecord)
      → Keeps {S = TradeFacade World Storage} (Holds P) (audit_end audit call)
  unfolding audit_end
  audit_end-Holds none call = Keeps-pure none
  audit_end-Holds (some r) call = search (keeps_rules, on_trail-Holds)

  in_world-Holds :
      {A : Type 0} (call : Exec World A)
      → Keeps {S = TradeFacade World Storage} (Holds P) (within (λ f. f.world) with_world call)
  in_world-Holds call = Keeps-within _ _ with_world call (λ f w h. record { held = h.held })

  cleared_after-Holds :
      {A : Type 0} (broker : String) (call : Exec World A)
      → Keeps {S = TradeFacade World Storage} (Holds P) (cleared_after broker call)
  unfolding cleared_after
  cleared_after-Holds broker call = record { at = λ f h. record { held = h.held } }

  inject_credentials-Holds :
      (broker capability : String)
      → Keeps {S = TradeFacade World Storage} (Holds P) (inject_credentials broker capability)
  unfolding inject_credentials
  inject_credentials-Holds broker capability = search (keeps_rules, in_world-Holds)

  submit_live-Holds :
      (intent : OrderIntent) (approval_id : Option String) (now later : ℕ)
      → Keeps {S = TradeFacade World Storage} (Holds P) (submit_live intent approval_id now later)
  unfolding submit_live
  submit_live-Holds intent approval_id now later =
      search (keeps_rules, inject_credentials-Holds, cleared_after-Holds)

  in_gateway-Holds :
      {A : Type 0} (call : Exec Gateway A)
      → Keeps P call
      → Keeps {S = TradeFacade World Storage} (Holds P) (within (λ f. f.gateway) with_gateway call)
  unfolding within
  in_gateway-Holds call kept = record { at = λ f h. record { held = kept.at f.gateway h.held } }

  place-Holds :
      (live : Bool) (fresh : String) (now later : ℕ) (intent : OrderIntent) (price : Decimal)
      (approval_id : Option String) (audit : Option AuditRecord)
      → pos 0 ≤ℤ intent.quantity
      → Keeps {S = TradeFacade World Storage}
          (Holds P)
          (place live fresh now later intent price approval_id audit)
  unfolding place
  place-Holds true fresh now later intent price approval_id audit q =
      search (keeps_rules, submit_live-Holds, audit_end-Holds)
  place-Holds false fresh now later intent price approval_id audit q =
      Keeps-known (λ order. order.quantity ≡ intent.quantity) _ _
        (Yields-lift _ (λ order made. to_paper_order-quantity fresh intent made))
        (λ order same.
          Keeps-bind _ _
            (in_gateway-Holds _ (kept order price (subst (λ x. pos 0 ≤ℤ x) (sym same) q)))
            (λ fill. search (keeps_rules, audit_end-Holds)))

  submit_as-Holds :
      (live : Bool) (digest : Payload → String) (fresh : String) (created now later : ℕ)
      (s : Submission)
      → Keeps {S = TradeFacade World Storage}
          (Holds P)
          (submit_as live digest fresh created now later s)
  unfolding submit_as
  submit_as-Holds live digest fresh created now later s = Keeps-bind _ _ (Keeps-gets _) (λ f.
      Keeps-bind _ _ (Keeps-lift _) (λ chosen.
        Keeps-known (λ (risk : RiskAssessment). risk.approved ≡ true → pos 0 <ℤ chosen.quantity) _ _
          (Yields-lift _
            (λ risk found. assess_risk-quantity fresh (with_id fresh chosen) _ _ _ _ found))
          (λ risk known. Keeps-bind _ _ (on_trail-Holds _ _) (λ audit.
            Keeps-known (λ _. risk.approved ≡ true) _ _
              (Yields-lift _ (λ _ passed. ground (arith, passed)))
              (λ _ approved.
                place-Holds live fresh now later _ _ _ audit (omega (arith, known approved)))))))

  pub submit-Holds :
      (digest : Payload → String) (fresh : String) (created now later : ℕ) (s : Submission)
      → Keeps {S = TradeFacade World Storage} (Holds P) (submit digest fresh created now later s)
  unfolding submit
  submit-Holds digest fresh created now later s = record {
    at = λ f h.
        (submit_as-Holds (is_live f.gateway.controller.mode) digest fresh created now later s).at f
          h;
  }

module _ {World Storage : Type 0} where
  -- Whatever is submitted, in whatever mode and with whatever approval, the gateway behind the
  -- facade stays sound, whether the call returns or raises: every stored order has
  -- 0 ≤ filled ≤ quantity with a status that agrees and stands under its own id, and no position
  -- is short. No hypothesis bounds the quantity: the guardian lets only positive ones through.
  pub submit-IsSound :
      (digest : Payload → String) (fresh : String) (created now later : ℕ) (s : Submission)
      → Keeps {S = TradeFacade World Storage}
          (Holds IsSound)
          (submit digest fresh created now later s)
  submit-IsSound digest fresh created now later s =
      submit-Holds IsSound (λ order price q. execute-IsSound order price none q) digest fresh
        created now later s
