-- ===== src/TradeFacade/Sandbox.antt =====
-- What `InternalTradeFacade.submit` keeps away from the engine and the brokers, of trade_facade.py.
use paper_live.Base.{ℕ, ◌≡◌, refl, false, Option, none, some, String}
use paper_live.Base.Exec.{Exec, within, Keeps, Keeps-bind, Keeps-within, Keeps-pure, keeps_rules}
use paper_live.Decimal.{Decimal}
use paper_live.Environment.{is_live}
use paper_live.Execution.Gateway.{Gateway}
use paper_live.Audit.{AuditRecord, AuditTrail}
use paper_live.Audit.Calls.{Payload}
use paper_live.TradeFacade.Types.{OrderIntent}
use paper_live.TradeFacade.Calls.{TradeFacade, with_gateway, with_trail}
use paper_live.TradeFacade.Submit.{Submission, on_trail, audit_end, place, submit_as, submit}

module _ {World Storage : Type 0} where
  -- The world outside is as it was.
  pub record IsUntouched (world : World) (f : TradeFacade World Storage) : Type 0 where
    pub same : f.world ≡ world

  on_trail-IsUntouched :
      (world : World) (trail : Option (AuditTrail Storage))
      (call : Exec (AuditTrail Storage) AuditRecord)
      → Keeps (IsUntouched world) (on_trail trail call)
  unfolding on_trail
  on_trail-IsUntouched world none call = Keeps-pure none
  on_trail-IsUntouched world (some trail) call =
      Keeps-bind _ _ (Keeps-within _ _ with_trail call (λ f t h. record { same = h.same }))
        (λ r. Keeps-pure (some r))

  audit_end-IsUntouched :
      (world : World) (audit : Option AuditRecord)
      (call : AuditRecord → Exec (AuditTrail Storage) AuditRecord)
      → Keeps (IsUntouched world) (audit_end audit call)
  unfolding audit_end
  audit_end-IsUntouched world none call = Keeps-pure none
  audit_end-IsUntouched world (some r) call = search (keeps_rules, on_trail-IsUntouched)

  in_gateway-IsUntouched :
      {A : Type 0} (world : World) (call : Exec Gateway A)
      → Keeps
          (IsUntouched world)
          (within {S = TradeFacade World Storage} (λ f. f.gateway) with_gateway call)
  in_gateway-IsUntouched world call =
      Keeps-within _ _ with_gateway call (λ f g h. record { same = h.same })

  ruleset untouched_rules =
      (keeps_rules, on_trail-IsUntouched, audit_end-IsUntouched, in_gateway-IsUntouched)

  place-IsUntouched :
      (world : World) (fresh : String) (now later : ℕ) (intent : OrderIntent) (price : Decimal)
      (approval_id : Option String) (audit : Option AuditRecord)
      → Keeps (IsUntouched world) (place false fresh now later intent price approval_id audit)
  unfolding place
  place-IsUntouched world fresh now later intent price approval_id audit = search untouched_rules

  submit_as-IsUntouched :
      (world : World) (digest : Payload → String) (fresh : String) (created now later : ℕ)
      (s : Submission)
      → Keeps (IsUntouched world) (submit_as false digest fresh created now later s)
  unfolding submit_as
  submit_as-IsUntouched world digest fresh created now later s =
      search (untouched_rules, place-IsUntouched) depth 12

  -- A submission in a mode that is not REAL_LIVE leaves the brokers' world as it was, whether it
  -- returns or raises, and whatever approval it names.
  pub submit-IsUntouched :
      (digest : Payload → String) (fresh : String) (created now later : ℕ) (s : Submission)
      (f : TradeFacade World Storage)
      → is_live f.gateway.controller.mode ≡ false
      → (submit digest fresh created now later s f).1.world ≡ f.world
  unfolding submit
  submit-IsUntouched digest fresh created now later s f paper =
      rw paper
        ((submit_as-IsUntouched f.world digest fresh created now later s).at f
          (record { same = refl })).same
