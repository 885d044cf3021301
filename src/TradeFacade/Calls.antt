-- ===== src/TradeFacade/Calls.antt =====
-- The calls of `InternalTradeFacade` that change state, of trade_facade.py.
use paper_live.Base.{
  ℕ, Bool, true, false, ◌&&◌, not, Option, none, some, [], ◌∷◌, String, ◌==◌, Result, Kind, ok, err,
  raise, or_raise, is_some, if◌then◌else◌,
}
use paper_live.Base.Int.{pos, ltb_ℤ, leb_ℤ}
use paper_live.Base.Dict.{Dict, get, put, string_eq}
use paper_live.Base.Text.{concat}
use paper_live.Base.Exec.{Exec, pure, lift, gets, modify, within, throw_if, ◌>>=◌, ◌>>◌}
use paper_live.Decimal.{Decimal}
use paper_live.Environment.{mode_value, is_live}
use paper_live.Execution.Gateway.{Gateway}
use paper_live.Risk.{RiskGuardian, PortfolioRiskContext}
use paper_live.Security.OrderApproval
use paper_live.Security.OrderApproval.{LiveApprovalGate}
use paper_live.Security.Secrets.{SecretBroker, resolve}
use paper_live.Brokers
use paper_live.Brokers.{OrderResult, BrokerRouter, BrokerAdapter}
use paper_live.Audit.{AuditTrail}
use paper_live.TradeFacade.Types.{OrderIntent, OrderPreview}
use paper_live.TradeFacade.Assess.{or_fresh, to_broker_order, estimate_notional, assess_risk}

-- `InternalTradeFacade`. The controller and the account that the guardian reads are the gateway's;
-- `world` is what the brokers' adapters act on, and `apply` and `clear` are the adapters' methods
-- `apply_secret_material` and `clear_secret_material`.
pub record TradeFacade (World Storage : Type 0) : Type 0 where
  pub gateway : Gateway
  pub risk : RiskGuardian
  pub broker_router : Option (BrokerRouter World)
  pub order_approval_gate : Option LiveApprovalGate
  pub secret_broker : Option SecretBroker
  pub broker_secret_ids : Dict String String
  pub apply : String → String → Exec World (Unit {0})
  pub clear : String → Exec World (Unit {0})
  pub currency : String
  pub audit_trail : Option (AuditTrail Storage)
  pub previews : Dict String OrderPreview
  pub world : World

-- The message of a preview.
abbrev preview_message : Bool → Bool → String
preview_message true true = "REAL_LIVE requires approval_id; call submit with order approval."
preview_message true false = "Risk passed; submit without approval_id on paper/virtual path."
preview_message false _ = "Risk rejected; submit will fail until limits are adjusted."

-- `_resolve_live_secret` with the broker of secrets and the secret's id in hand.
abbrev pub resolve_with : Option SecretBroker → Option String → String → String → Result String
resolve_with none secret_id broker capability =
    raise Kind.permission_error "SecretBroker is required for REAL_LIVE submit"
resolve_with (some _) none broker capability =
    raise Kind.permission_error (concat ("no secret mapping for broker: " ∷ broker ∷ []))
resolve_with (some secrets) (some secret_id) broker capability =
    if secret_id == ""
    then raise Kind.permission_error (concat ("no secret mapping for broker: " ∷ broker ∷ []))
    else resolve secret_id "REAL_LIVE" capability secrets

-- The intent of a stored preview, if one is named.
abbrev pub chosen_intent :
    Option String → OrderIntent → Dict String OrderPreview → Result OrderIntent
chosen_intent none intent previews = ok intent
chosen_intent (some preview_id) intent previews = elim (get preview_id previews) [
  | none ↦ raise Kind.value_error "unknown preview_id"
  | some stored ↦
      if not stored.risk.approved
      then raise Kind.permission_error "preview risk was not approved"
      else ok stored.intent
]

abbrev pub with_id : String → OrderIntent → OrderIntent
with_id fresh intent = record intent { client_order_id = or_fresh intent.client_order_id fresh }

module _ {World : Type 0} where
  -- `_adapter_for`
  abbrev pub adapter_of : Option (BrokerRouter World) → String → Result (BrokerAdapter World)
  adapter_of none broker = raise Kind.permission_error "BrokerRouter is not configured"
  adapter_of (some router) broker =
      or_raise (get broker router.adapters) Kind.permission_error
        (concat ("broker adapter is not configured: " ∷ broker ∷ []))

  abbrev pub live_gate_of :
      Option (BrokerRouter World)
      → Option LiveApprovalGate
      → Option String
      → ℕ
      → Result (BrokerRouter World)
  live_gate_of none gate approval_id now =
      raise Kind.permission_error "BrokerRouter is not configured"
  live_gate_of (some router) (some gate) (some approval_id) now =
      elim (OrderApproval.require approval_id now gate) [ ok _ ↦ ok router | err e ↦ err e ]
  live_gate_of (some router) _ _ now =
      raise Kind.permission_error "explicit live approval_id is required"

  abbrev pub broker_call :
      OrderIntent → Option String → ℕ → BrokerRouter World → Exec World OrderResult
  broker_call intent approval_id later router = do
    request ← lift (to_broker_order intent)
    Brokers.submit "REAL_LIVE" intent.broker request approval_id later router

module _ {World Storage : Type 0} where
  abbrev pub with_gateway : TradeFacade World Storage → Gateway → TradeFacade World Storage
  with_gateway f gateway = record f { gateway = gateway }

  abbrev pub with_world : TradeFacade World Storage → World → TradeFacade World Storage
  with_world f world = record f { world = world }

  abbrev pub with_trail : TradeFacade World Storage → AuditTrail Storage → TradeFacade World Storage
  with_trail f trail = record f { audit_trail = some trail }

  -- `preview`; `fresh` and `preview_id` hold what `uuid4` gives.
  unfoldable pub preview :
      String
      → String
      → OrderIntent
      → Decimal
      → Option PortfolioRiskContext
      → Exec (TradeFacade World Storage) OrderPreview
  preview fresh preview_id intent reference_price context = do
    throw_if (leb_ℤ intent.quantity (pos 0)) Kind.value_error "quantity must be positive"
    throw_if (leb_ℤ reference_price (pos 0) && not (is_some intent.price)) Kind.value_error
        "reference_price or limit price is required"
    let px =
        if ltb_ℤ (pos 0) reference_price
        then reference_price
        else elim intent.price [ none ↦ pos 0 | some price ↦ price ]
    f ← gets (λ f. f)
    risk ← lift (assess_risk fresh intent px context f.gateway f.risk)
    let live = is_live f.gateway.controller.mode
    let made : OrderPreview = record {
      intent = intent;
      estimated_notional = estimate_notional intent px;
      currency = f.currency;
      risk = risk;
      requires_approval = live;
      preview_id = preview_id;
      mode = mode_value f.gateway.controller.mode;
      message = preview_message risk.approved live;
    }
    modify (λ f. record f { previews = put preview_id made f.previews })
    pure made

  -- `_inject_credentials`
  unfoldable pub inject_credentials : String → String → Exec (TradeFacade World Storage) (Unit {0})
  inject_credentials broker capability = do
    f ← gets (λ f. f)
    material ←
        lift (resolve_with f.secret_broker (get broker f.broker_secret_ids) broker capability)
    adapter ← lift (adapter_of f.broker_router broker)
    within (λ f. f.world) with_world (f.apply broker material)

  -- `try: return call finally: clear()`; an exception of `clear` takes the place of the result.
  unfoldable pub cleared_after :
      {A : Type 0} → String → Exec World A → Exec (TradeFacade World Storage) A
  cleared_after broker call f =
      let (answer, used) = call f.world in
      let (cleaned, left) = f.clear broker used in
      (elim cleaned [ ok _ ↦ answer | err e ↦ err e ], with_world f left)

  -- The guards that `_submit_live` and `cancel` share; they give the router.
  unfoldable pub live_gate :
      Option String → ℕ → TradeFacade World Storage → Result (BrokerRouter World)
  live_gate approval_id now f = live_gate_of f.broker_router f.order_approval_gate approval_id now

  -- `_submit_live`; the clock is read in the facade's gate and again in the router's.
  unfoldable pub submit_live :
      OrderIntent → Option String → ℕ → ℕ → Exec (TradeFacade World Storage) OrderResult
  submit_live intent approval_id now later = do
    passed ← gets (live_gate approval_id now)
    router ← lift passed
    inject_credentials intent.broker "order.create"
    cleared_after intent.broker (broker_call intent approval_id later router)

  unfoldable pub cancel :
      String
      → String
      → Option String
      → Option String
      → ℕ
      → ℕ
      → Exec (TradeFacade World Storage) Bool
  cancel broker order_id approval_id symbol now later = do
    live ← gets (λ f. is_live f.gateway.controller.mode)
    throw_if (not live) Kind.permission_error "cancel via broker is only available in REAL_LIVE"
    passed ← gets (live_gate approval_id now)
    router ← lift passed
    inject_credentials broker "order.cancel"
    cleared_after broker
        (Brokers.cancel "REAL_LIVE" broker order_id approval_id symbol later router)
