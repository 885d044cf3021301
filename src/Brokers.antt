-- ===== src/Brokers.antt =====
-- paper_live/brokers/protocol.py and safe_router.py: the way of a live order to a broker's adapter.
-- An adapter is any object with `submit` and `cancel`: actions on the world outside.
pub mod Cleared
mod Tests
use paper_live.Base.{
  ℕ, Bool, true, false, not, Option, none, some, List, [], ◌∷◌, String, ◌==◌, Result, Kind, ok, err,
  raise, raise_if, or_raise, ◌>>=◌, ◌>>◌,
}
use paper_live.Base.Dict.{Dict, get, string_eq}
use paper_live.Base.Exec
use paper_live.Base.Exec.{Exec, lift}
use paper_live.Base.Text.{concat}
use paper_live.Decimal.{Decimal}
use paper_live.Security.OrderApproval.{LiveApprovalGate, require}

pub record BrokerOrderRequest : Type 0 where
  pub symbol : String
  pub side : String
  pub quantity : Decimal
  pub order_type : String
  pub price : Option Decimal

pub record OrderResult : Type 0 where
  pub broker : String
  pub order_id : String
  pub accepted : Bool
  pub message : String

pub record BrokerAdapter (World : Type 0) : Type 0 where
  pub submit : BrokerOrderRequest → Exec World OrderResult
  pub cancel : String → Option String → Exec World Bool

pub record BrokerRouter (World : Type 0) : Type 0 where
  pub adapters : Dict String (BrokerAdapter World)
  pub approval_gate : Option LiveApprovalGate

-- `self.approval_gate is None or approval_id is None`, and the gate's own test.
abbrev pub ask_gate : Option LiveApprovalGate → Option String → ℕ → Result (Unit {0})
ask_gate (some gate) (some approval_id) now = require approval_id now gate
ask_gate _ _ now = raise Kind.broker_denied "explicit live approval is required"

module _ {World : Type 0} where
  -- `_authorize`; `now` is the clock's reading in the gate.
  unfoldable pub authorize : String → Option String → ℕ → BrokerRouter World → Result (Unit {0})
  authorize mode approval_id now router = do
    raise_if (not (mode == "REAL_LIVE")) Kind.broker_denied
        "broker adapters are unavailable outside REAL_LIVE"
    ask_gate router.approval_gate approval_id now

  -- The adapter that `submit` and `cancel` find behind the guards.
  unfoldable pub adapter_for :
      String → String → Option String → ℕ → BrokerRouter World → Result (BrokerAdapter World)
  adapter_for mode broker approval_id now router = do
    authorize mode approval_id now router
    or_raise (get broker router.adapters) Kind.broker_denied
        (concat ("broker adapter is not configured: " ∷ broker ∷ []))

  unfoldable pub submit :
      String
      → String
      → BrokerOrderRequest
      → Option String
      → ℕ
      → BrokerRouter World
      → Exec World OrderResult
  submit mode broker request approval_id now router =
      Exec.◌>>=◌ (lift (adapter_for mode broker approval_id now router))
        (λ adapter. adapter.submit request)

  unfoldable pub cancel :
      String
      → String
      → String
      → Option String
      → Option String
      → ℕ
      → BrokerRouter World
      → Exec World Bool
  cancel mode broker order_id approval_id symbol now router =
      Exec.◌>>=◌ (lift (adapter_for mode broker approval_id now router))
        (λ adapter. adapter.cancel order_id symbol)
