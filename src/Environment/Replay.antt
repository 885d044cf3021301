-- ===== src/Environment/Replay.antt =====
-- The switch of the mode, without the times, names and triggers of a controller, of environment.py
-- and live_approval.py.
use paper_live.Base.{
  ℕ, ◌+◌, ◌≡◌, refl, Bool, true, false, ◌&&◌, ◌||◌, not, Option, none, some, List, [], ◌∷◌, String,
  ◌==◌, is_some, arith, if◌then◌else◌,
}
use paper_live.Base.Text.{strip}
use paper_live.Environment.{
  Mode, LiveApprovalGate, Controller, approve, revoke, require, authorized, set_mode,
  register_time_trigger, register_kpi_trigger,
}
use paper_live.Environment.Events.{Event, step, run}

-- The mode, how often it was changed, and whether an approval is held.
pub record Switch : Type 0 where
  pub mode : Mode
  pub version : ℕ
  pub approved : Bool

-- An approval is held by the gate, if a gate is attached.
abbrev pub holds : Option LiveApprovalGate → Bool
holds none = false
holds (some gate) = is_some gate.approval

abbrev pub switch_of : Controller → Switch
switch_of c = record { mode = c.mode; version = c.version; approved = holds c.live_approval_gate }

-- A mode for which an approval must be held.
abbrev pub needs_approval : Mode → Bool
needs_approval Mode.real_live = true
needs_approval Mode.paper_sandbox = false
needs_approval Mode.virtual_backtest = false

-- A token that is not empty is the digest of a secret that is not empty.
abbrev pub is_genuine : (String → String) → Option String → String → Bool
is_genuine digest none token = false
is_genuine digest (some secret) token =
    not (secret == "") && not (token == "") && digest secret == token

-- What each event does to the switch of a controller with that secret, to which a gate is attached
-- or is not.
abbrev pub switch_step : (String → String) → Option String → Bool → Event → Switch → Switch
switch_step digest secret gated (Event.approve_gate operator reason now) s =
    if gated && not (strip operator == "") && not (strip reason == "")
    then record s { approved = true }
    else s
switch_step digest secret gated Event.revoke_gate s = record s { approved = false }
switch_step digest secret gated (Event.set_to mode token actor now) s =
    if is_genuine digest secret token && (not (needs_approval mode) || s.approved)
    then record s { mode = mode; version = s.version + 1 }
    else s
switch_step digest secret gated (Event.at_time moment mode) s = s
switch_step digest secret gated (Event.at_kpi metric threshold mode) s = s

abbrev pub replay : (String → String) → Option String → Bool → List Event → Switch → Switch
replay digest secret gated [] s = s
replay digest secret gated (e ∷ es) s =
    replay digest secret gated es (switch_step digest secret gated e s)

module _ (digest : String → String) (from_iso : String → Option ℕ) where
  step-switch_of :
      (e : Event) (c : Controller)
      → switch_of (step digest from_iso e c)
        ≡ switch_step digest c.transition_secret (is_some c.live_approval_gate) e (switch_of c)
  unfolding step approve revoke set_mode authorized require register_time_trigger
      register_kpi_trigger
  step-switch_of (Event.approve_gate operator reason now) c = ground arith
  step-switch_of Event.revoke_gate c = ground arith
  step-switch_of (Event.set_to Mode.real_live token actor now) c = ground arith
  step-switch_of (Event.set_to Mode.paper_sandbox token actor now) c = ground arith
  step-switch_of (Event.set_to Mode.virtual_backtest token actor now) c = ground arith
  step-switch_of (Event.at_time moment mode) c = ground arith
  step-switch_of (Event.at_kpi metric threshold mode) c = ground arith

  step-fixed :
      (e : Event) (c : Controller)
      → ((step digest from_iso e c).transition_secret ≡ c.transition_secret)
        × (is_some (step digest from_iso e c).live_approval_gate ≡ is_some c.live_approval_gate)
  unfolding step approve revoke set_mode authorized require register_time_trigger
      register_kpi_trigger
  step-fixed e c = (ground arith, ground arith)

  -- Whatever events a controller goes through, its mode, its version and whether its gate holds an
  -- approval are those of the replay: a change of mode is made, and counted, exactly when its token
  -- is the digest of the secret, neither being empty, and for REAL_LIVE an approval is held; an
  -- approval is held from an `approve` of an attached gate, with an operator and a reason that are
  -- not blank, up to a `revoke`; and nothing else changes the three.
  pub run-replay :
      (es : List Event) (c : Controller)
      → switch_of (run digest from_iso es c)
        ≡ replay digest c.transition_secret (is_some c.live_approval_gate) es (switch_of c)
  unfolding run
  run-replay [] c = refl
  run-replay (e ∷ es) c =
      ground (arith, run-replay es (step digest from_iso e c), step-switch_of e c, step-fixed e c)
