-- ===== src/Plugins/Guards.antt =====
-- The guards of paper_live/plugins/gateway.py and integration.py, which stand before a plugin's
-- handler or order.
use paper_live.Base.{
  Bool, true, false, not, Option, none, some, [], ◌∷◌, String, ◌==◌, Result, Kind, ok, raise_if,
  or_raise, ◌>>=◌, ◌>>◌,
}
use paper_live.Base.Dict.{Dict, get, string_eq}
use paper_live.Base.Text.{concat}
use paper_live.Decimal.{Decimal}
use paper_live.Environment.{Mode, Controller, is_live, mode_value}
use paper_live.Execution.Types.{PaperOrder}
use paper_live.Execution.Gateway.{Gateway}
use paper_live.Risk
use paper_live.Risk.{RiskGuardian}
use paper_live.Plugins.Lifecycle
use paper_live.Plugins.Lifecycle.{PluginState, PluginRecord, Plugins}
use paper_live.Plugins.Skills.{RegisteredSkill, Skills, resolve}
use paper_live.Plugins.Policy.{ExecutionPolicy, check}

-- `PluginCall` and `PluginExecutionRequest`; the mode of the latter is a member of the enum.
pub record PluginCall : Type 0 where
  pub plugin_id : String
  pub skill_id : String
  pub mode : String

pub record PluginExecutionRequest : Type 0 where
  pub plugin_id : String
  pub skill_id : String
  pub mode : Mode

abbrev pub is_enabled : PluginState → Bool
is_enabled PluginState.enabled = true
is_enabled _ = false

-- The plugin is enabled, and the skill is its own.
unfoldable pub own_skill : Plugins → Skills → String → String → Result RegisteredSkill
own_skill lifecycle registry plugin_id skill_id = do
  plugin ← Lifecycle.require plugin_id lifecycle
  raise_if (not (is_enabled plugin.state)) Kind.lifecycle_error
      (concat ("plugin is not enabled: " ∷ plugin_id ∷ []))
  skill ← resolve skill_id registry
  raise_if (not (skill.plugin_id == plugin_id)) Kind.execution_error
      "skill does not belong to requested plugin"
  ok skill

-- `self.environment is not None and ...`
abbrev pub mode_differs : Option Controller → String → Bool
mode_differs none mode = false
mode_differs (some environment) mode = not (mode_value environment.mode == mode)

-- `PluginExecutionGateway.execute`, up to the executor.
unfoldable pub guard_call :
    Plugins → Skills → ExecutionPolicy → Option Controller → PluginCall → Result (Unit {0})
guard_call lifecycle registry policy environment call = do
  skill ← own_skill lifecycle registry call.plugin_id call.skill_id
  check call.mode policy
  raise_if (mode_differs environment call.mode) Kind.permission_error
      "plugin requested mode does not match environment"

-- `PluginRuntime.invoke`, up to the executor.
unfoldable pub guard_request :
    Plugins → Skills → ExecutionPolicy → Controller → PluginExecutionRequest → Result (Unit {0})
guard_request lifecycle registry policy environment request = do
  skill ← own_skill lifecycle registry request.plugin_id request.skill_id
  raise_if (not (mode_value request.mode == mode_value environment.mode)) Kind.permission_error
      "plugin requested mode does not match environment"
  check (mode_value request.mode) policy

-- `PluginRuntime.submit_paper_order`, up to the gateway; the guardian's controller and account are
-- the gateway's.
unfoldable pub guard_order :
    ExecutionPolicy
    → Controller
    → RiskGuardian
    → Gateway
    → PluginExecutionRequest
    → PaperOrder
    → Decimal
    → Result (Unit {0})
guard_order policy environment risk execution request order reference_price = do
  raise_if (is_live request.mode) Kind.permission_error "plugin trading cannot execute REAL_LIVE"
  raise_if (not (mode_value environment.mode == mode_value request.mode)) Kind.permission_error
      "environment mode changed before order execution"
  check (mode_value request.mode) policy
  Risk.approve order reference_price none execution.controller execution.paper.account risk

-- What `PluginSkillExecutor.execute` finds before it calls the handler.
unfoldable pub handler_of :
    {Handler : Type 0} → Skills → Dict String Handler → String → String → Result Handler
handler_of registry handlers skill_id mode = do
  skill ← resolve skill_id registry
  handler ←
      or_raise (get skill_id handlers) Kind.execution_error
        (concat ("skill has no approved handler: " ∷ skill_id ∷ []))
  raise_if (mode == "REAL_LIVE") Kind.execution_error
      "plugin skills cannot directly execute REAL_LIVE operations"
  ok handler
