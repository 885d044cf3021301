-- ===== src/Environment/Events.antt =====
-- What operators and callers do to a controller and to the gate that is attached to it, as a list
-- of events; a call that raises leaves the controller as it was.
use paper_live.Base.{ℕ, Bool, Option, none, some, List, [], ◌∷◌, String, Result, ok, err}
use paper_live.Base.Int.{ℤ}
use paper_live.Environment.{
  Mode, LiveApprovalGate, LiveApproval, approve, revoke, Controller, set_mode,
  register_time_trigger, register_kpi_trigger,
}

pub data Event : Type 0 where
  approve_gate : String → String → ℕ → Event
  revoke_gate : Event
  set_to : Mode → String → String → ℕ → Event
  at_time : String → Mode → Event
  at_kpi : String → ℤ → Mode → Event

-- The controller after a call that gave `r`.
abbrev pub settled : Controller → Result (Bool × Controller) → Controller
settled c (ok (_, c')) = c'
settled c (err _) = c

-- The gate after `approve`.
abbrev pub regranted :
    LiveApprovalGate → Result (LiveApproval × LiveApprovalGate) → LiveApprovalGate
regranted gate (ok (_, gate')) = gate'
regranted gate (err _) = gate

abbrev pub on_gate :
    (LiveApprovalGate → LiveApprovalGate) → Option LiveApprovalGate → Option LiveApprovalGate
on_gate f none = none
on_gate f (some gate) = some (f gate)

module _ (digest : String → String) (from_iso : String → Option ℕ) where
  unfoldable pub step : Event → Controller → Controller
  step (Event.approve_gate operator reason now) c = record c {
    live_approval_gate =
        on_gate (λ gate. regranted gate (approve operator reason now gate)) c.live_approval_gate;
  }
  step Event.revoke_gate c = record c { live_approval_gate = on_gate revoke c.live_approval_gate }
  step (Event.set_to mode token actor now) c = settled c (set_mode digest mode token actor now c)
  step (Event.at_time moment mode) c = settled c (register_time_trigger from_iso moment mode c)
  step (Event.at_kpi metric threshold mode) c =
      settled c (register_kpi_trigger metric threshold mode c)

  unfoldable pub run : List Event → Controller → Controller
  unfolding step
  run [] c = c
  run (e ∷ es) c = run es (step e c)
