-- ===== src/Environment.antt =====
-- paper_live/environment.py and paper_live/live_approval.py: the execution mode, the gate that must
-- hold an approval before the mode may become REAL_LIVE, and the triggers.
pub mod Events
pub mod Replay
pub mod Transition
pub mod Skills
mod Tests
use paper_live.Base.{
  ℕ, ◌+◌, ◌≡◌, Bool, true, false, ◌&&◌, ◌||◌, not, Option, none, some, List, [], ◌∷◌, String, ◌==◌,
  ◌++◌, is_some, Result, Kind, ok, err, raise, raise_if, or_raise, ◌>>=◌, ◌>>◌, if◌then◌else◌,
}
use paper_live.Base.Int.{ℤ, leb_ℤ}
use paper_live.Base.Dict.{Dict, get, put, string_eq}
use paper_live.Base.Text.{strip, concat}

-- `ExecutionEnvironmentMode`
pub data Mode : Type 0 where
  paper_sandbox virtual_backtest real_live : Mode

-- `mode.value`
abbrev pub mode_value : Mode → String
mode_value Mode.paper_sandbox = "PAPER_SANDBOX"
mode_value Mode.virtual_backtest = "VIRTUAL_BACKTEST"
mode_value Mode.real_live = "REAL_LIVE"

abbrev pub is_live : Mode → Bool
is_live Mode.real_live = true
is_live _ = false

-- `LiveApproval` of live_approval.py; a time is a number of microseconds.
pub record LiveApproval : Type 0 where
  pub approved_by : String
  pub approved_at : ℕ
  pub reason : String

-- `LiveApprovalGate` of live_approval.py.
pub record LiveApprovalGate : Type 0 where
  pub approval : Option LiveApproval

-- `LiveApprovalGate.approve`; `now` is what `datetime.now(UTC)` gives.
unfoldable pub approve :
    String → String → ℕ → LiveApprovalGate → Result (LiveApproval × LiveApprovalGate)
approve operator reason now gate =
    if strip operator == "" || strip reason == ""
    then raise Kind.value_error "operator and reason are required"
    else let granted : LiveApproval = record {
      approved_by = operator;
      approved_at = now;
      reason = reason;
    } in
      ok (granted, record { approval = some granted })

unfoldable pub revoke : LiveApprovalGate → LiveApprovalGate
revoke gate = record { approval = none }

unfoldable pub require : Mode → LiveApprovalGate → Result (Unit {0})
require mode gate =
    raise_if (is_live mode && not (is_some gate.approval)) Kind.transition_error
      "REAL_LIVE requires explicit live approval"

unfoldable pub approved : LiveApprovalGate → Bool
approved gate = is_some gate.approval

-- `EnvironmentController`. A finite float is its exact count of units of 2^-1074, an integer.
pub record Controller : Type 0 where
  pub mode : Mode
  pub version : ℕ
  pub changed_at : ℕ
  pub changed_by : String
  pub transition_secret : Option String
  pub live_approval_gate : Option LiveApprovalGate
  pub time_triggers : Dict String Mode
  pub kpi_triggers : Dict String (ℤ × Mode)

-- `gate is None or not gate.approved()`
abbrev pub lacks_approval : Option LiveApprovalGate → Bool
lacks_approval none = true
lacks_approval (some gate) = not (is_some gate.approval)

-- The constructor, with `__post_init__`.
unfoldable pub start : Mode → Option String → Option LiveApprovalGate → ℕ → Result Controller
start mode secret gate now =
    if is_live mode && lacks_approval gate
    then raise Kind.transition_error "REAL_LIVE requires explicit live approval at startup"
    else ok (record {
      mode = mode;
      version = 0;
      changed_at = now;
      changed_by = "system";
      transition_secret = secret;
      live_approval_gate = gate;
      time_triggers = [];
      kpi_triggers = [];
    })

-- `ALLOWED_SKILLS`
abbrev pub allowed_skills : Mode → List String
allowed_skills Mode.paper_sandbox = "skill-virtual-matching-engine" ∷ "skill-market-data" ∷ []
allowed_skills Mode.virtual_backtest =
    "skill-virtual-matching-engine" ∷ "skill-historical-data" ∷ []
allowed_skills Mode.real_live =
    "skill-toss-broker" ∷ "skill-kb-broker" ∷ "skill-market-data" ∷ "skill-risk-circuit-breaker"
    ∷ []

-- `name in names`
abbrev pub is_member : String → List String → Bool
is_member k [] = false
is_member k (j ∷ l) = k == j || is_member k l

unfoldable pub is_skill_allowed : String → Controller → Bool
is_skill_allowed skill_name c = is_member skill_name (allowed_skills c.mode)

unfoldable pub assert_skill_allowed : String → Controller → Result (Unit {0})
unfolding is_skill_allowed
assert_skill_allowed skill_name c =
    raise_if (not (is_skill_allowed skill_name c)) Kind.transition_error
      (concat ("skill '" ∷ skill_name ∷ "' is forbidden in mode " ∷ mode_value c.mode ∷ []))

-- The parts of the standard library that the controller calls: the hex HMAC-SHA256 of
-- "environment-transition" under a secret, and `datetime.fromisoformat`.
module _ (digest : String → String) where
  -- `_authorized`
  unfoldable pub authorized : String → Controller → Bool
  authorized token c = elim c.transition_secret [
    | none ↦ false
    | some secret ↦ if secret == "" || token == "" then false else digest secret == token
  ]

  abbrev gate_check : Mode → Controller → Result (Unit {0})
  gate_check mode c =
      if is_live mode
      then (do
        gate ←
            or_raise c.live_approval_gate Kind.transition_error
              "REAL_LIVE requires LiveApprovalGate"
        require mode gate)
      else ok tt

  -- `set_mode`: on success the new controller; a raise comes before any write.
  unfoldable pub set_mode : Mode → String → String → ℕ → Controller → Result (Bool × Controller)
  unfolding authorized require
  set_mode mode auth_token actor now c = do
    raise_if (not (authorized auth_token c)) Kind.transition_error
        "environment transition authorization failed"
    gate_check mode c
    ok (
      true,
      record c { mode = mode; version = c.version + 1; changed_at = now; changed_by = actor },
    )

-- `from_iso` is `datetime.fromisoformat` of the text with each `Z` replaced by `+00:00`.
unfoldable pub register_time_trigger :
    (String → Option ℕ) → String → Mode → Controller → Result (Bool × Controller)
register_time_trigger from_iso target_time mode c = do
  moment ← or_raise (from_iso target_time) Kind.value_error "Invalid isoformat string"
  ok (true, record c { time_triggers = put target_time mode c.time_triggers })

unfoldable pub register_kpi_trigger : String → ℤ → Mode → Controller → Result (Bool × Controller)
register_kpi_trigger metric threshold mode c = do
  raise_if (metric == "") Kind.value_error "invalid KPI trigger"
  ok (true, record c { kpi_triggers = put metric (threshold, mode) c.kpi_triggers })

abbrev reached : ℤ → Option (ℤ × Mode) → Option Mode
reached value none = none
reached value (some (threshold, mode)) = if leb_ℤ threshold value then some mode else none

unfoldable pub evaluate_kpi : String → ℤ → Controller → Option Mode
evaluate_kpi metric value c = reached value (get metric c.kpi_triggers)
