-- ===== src/Plugins/Policy.antt =====
-- paper_live/plugins/policy.py: the modes in which a plugin's skill may run.
use paper_live.Base.{
  Bool, false, not, Option, none, some, List, [], ◌∷◌, String, Result, Kind, ok, raise_if, ◌>>◌,
  if◌then◌else◌,
}
use paper_live.Base.Text.{concat}
use paper_live.Environment.{is_member}

-- `PluginExecutionPolicy`
pub record ExecutionPolicy : Type 0 where
  pub allowed_modes : List String

-- `SAFE_MODES`
abbrev pub safe_modes : List String
safe_modes = "PAPER_SANDBOX" ∷ "VIRTUAL_BACKTEST" ∷ []

-- `requested & set(SAFE_MODES)`
abbrev pub common : List String → List String → List String
common [] safe = []
common (mode ∷ modes) safe =
    let rest = common modes safe in if is_member mode safe then mode ∷ rest else rest

abbrev requested_modes : Option (List String) → List String
requested_modes none = safe_modes
requested_modes (some modes) = modes

unfoldable pub make_policy : Option (List String) → Result ExecutionPolicy
make_policy allowed_modes = do
  let requested = requested_modes allowed_modes
  raise_if (is_member "REAL_LIVE" requested) Kind.mode_denied
      "REAL_LIVE is not a valid plugin execution mode"
  ok (record { allowed_modes = common requested safe_modes })

unfoldable pub check : String → ExecutionPolicy → Result (Unit {0})
check mode policy =
    raise_if (not (is_member mode policy.allowed_modes)) Kind.mode_denied
      (concat ("plugin execution denied in mode: " ∷ mode ∷ []))

-- `can_live`
unfoldable pub can_live : ExecutionPolicy → Bool
can_live policy = false
