-- ===== src/CycleState.antt =====
-- paper_live/state_machine.py: the states of one trading cycle.
pub mod Reach
mod Tests
use paper_live.Base.{
  Bool, true, false, Result, Kind, ok, err, raise, List, [], ◌∷◌, String, if◌then◌else◌,
}
use paper_live.Base.Text.{concat}

pub data CycleState : Type 0 where
  ingested analyzed debated risk_approved executed rejected reflected : CycleState

-- The table of `advance`: is the second state among those allowed after the first?
abbrev pub allowed : CycleState → CycleState → Bool
allowed CycleState.ingested CycleState.analyzed = true
allowed CycleState.ingested CycleState.rejected = true
allowed CycleState.analyzed CycleState.debated = true
allowed CycleState.analyzed CycleState.rejected = true
allowed CycleState.debated CycleState.risk_approved = true
allowed CycleState.debated CycleState.rejected = true
allowed CycleState.risk_approved CycleState.executed = true
allowed CycleState.risk_approved CycleState.rejected = true
allowed CycleState.executed CycleState.reflected = true
allowed CycleState.rejected CycleState.reflected = true
allowed _ _ = false

-- `str(state)` for the message.
abbrev state_name : CycleState → String
state_name CycleState.ingested = "CycleState.INGESTED"
state_name CycleState.analyzed = "CycleState.ANALYZED"
state_name CycleState.debated = "CycleState.DEBATED"
state_name CycleState.risk_approved = "CycleState.RISK_APPROVED"
state_name CycleState.executed = "CycleState.EXECUTED"
state_name CycleState.rejected = "CycleState.REJECTED"
state_name CycleState.reflected = "CycleState.REFLECTED"

-- `CycleStateMachine.advance`: the new state, or a raise and no change.
unfoldable pub advance : CycleState → CycleState → Result CycleState
advance target state =
    if allowed state target
    then ok target
    else raise Kind.value_error
        (concat ("invalid state transition: " ∷ state_name state ∷ " -> " ∷ state_name target ∷ []))

-- A machine that is asked for each target in turn; a refused one leaves it where it is.
unfoldable pub drive : CycleState → List CycleState → CycleState
drive state [] = state
drive state (target ∷ rest) =
    drive (elim (advance target state) [ ok next ↦ next | err _ ↦ state ]) rest
