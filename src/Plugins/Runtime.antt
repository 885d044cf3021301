-- ===== src/Plugins/Runtime.antt =====
-- paper_live/plugins/executor.py, gateway.py and integration.py: how a plugin's skill is called, and
-- how an order that a plugin asks for is placed. A handler is any action on a world outside.
pub mod Permitted
mod Tests
use paper_live.Base.{
  Bool, true, false, Option, none, some, [], ◌∷◌, String, Result, Kind, ok, err, raise,
}
use paper_live.Base.Dict.{Dict, put, string_eq}
use paper_live.Base.Text.{concat}
use paper_live.Base.Exec.{Exec, lift, gets, within, attempt, ◌>>=◌, ◌>>◌}
use paper_live.Decimal.{Decimal}
use paper_live.Environment.{Mode, Controller, mode_value}
use paper_live.Execution.Types.{PaperOrder, Fill}
use paper_live.Execution.Gateway
use paper_live.Execution.Gateway.{Gateway}
use paper_live.Risk.{RiskGuardian}
use paper_live.Plugins.Lifecycle.{Plugins}
use paper_live.Plugins.Skills.{RegisteredSkill, Skills, resolve}
use paper_live.Plugins.Policy.{ExecutionPolicy}
use paper_live.Plugins.Guards.{
  PluginCall, PluginExecutionRequest, guard_call, guard_request, guard_order, handler_of,
}

-- `PluginSkillExecutor`; its sandbox is never asked.
pub record SkillExecutor (World Argument Answer : Type 0) : Type 0 where
  pub registry : Skills
  pub handlers : Dict String (Argument → Exec World Answer)

-- `except Exception`: whatever the handler raises becomes one kind of error.
abbrev pub skill_answer : {Answer : Type 0} → String → Result Answer → Result Answer
skill_answer skill_id (ok answer) = ok answer
skill_answer skill_id (err e) =
    raise Kind.execution_error (concat ("skill execution failed: " ∷ skill_id ∷ []))

module _ {World Argument Answer : Type 0} where
  -- `bind`, for a skill that is registered.
  unfoldable pub bind_handler :
      String
      → (Argument → Exec World Answer)
      → RegisteredSkill
      → SkillExecutor World Argument Answer
      → SkillExecutor World Argument Answer
  bind_handler skill_id handler registered x = record x {
    handlers = put skill_id handler x.handlers;
  }

  unfoldable pub bind :
      String
      → (Argument → Exec World Answer)
      → SkillExecutor World Argument Answer
      → Result (SkillExecutor World Argument Answer)
  bind skill_id handler x = elim (resolve skill_id x.registry) [
    | ok registered ↦ ok (bind_handler skill_id handler registered x)
    | err e ↦ err e
  ]

  unfoldable pub run_handler :
      String → Argument → (Argument → Exec World Answer) → Exec World Answer
  run_handler skill_id argument handler = do
    answer ← attempt (handler argument)
    lift (skill_answer skill_id answer)

  -- `PluginSkillExecutor.execute`
  unfoldable pub run_skill :
      SkillExecutor World Argument Answer → String → String → Argument → Exec World Answer
  run_skill x skill_id mode argument = do
    handler ← lift (handler_of x.registry x.handlers skill_id mode)
    run_handler skill_id argument handler

-- `PluginExecutionGateway`
pub record PluginGateway (World Argument Answer : Type 0) : Type 0 where
  pub lifecycle : Plugins
  pub executor : SkillExecutor World Argument Answer
  pub policy : ExecutionPolicy
  pub environment : Option Controller

-- `PluginRuntime`
pub record PluginRuntime (World Argument Answer : Type 0) : Type 0 where
  pub lifecycle : Plugins
  pub registry : Skills
  pub executor : SkillExecutor World Argument Answer
  pub environment : Controller
  pub risk : RiskGuardian
  pub execution : Gateway
  pub policy : ExecutionPolicy

module _ {World Argument Answer : Type 0} where
  unfoldable pub execute :
      PluginGateway World Argument Answer → PluginCall → Argument → Exec World Answer
  execute g call argument = do
    lift (guard_call g.lifecycle g.executor.registry g.policy g.environment call)
    run_skill g.executor call.skill_id call.mode argument

  unfoldable pub invoke :
      PluginRuntime World Argument Answer → PluginExecutionRequest → Argument → Exec World Answer
  invoke r request argument = do
    lift (guard_request r.lifecycle r.registry r.policy r.environment request)
    run_skill r.executor request.skill_id (mode_value request.mode) argument

  abbrev pub with_execution :
      PluginRuntime World Argument Answer → Gateway → PluginRuntime World Argument Answer
  with_execution r execution = record r { execution = execution }

  unfoldable pub submit_paper_order :
      PluginExecutionRequest
      → PaperOrder
      → Decimal
      → Option Decimal
      → Exec (PluginRuntime World Argument Answer) Fill
  submit_paper_order request order reference_price available_quantity = do
    passed ←
        gets
          (λ r. guard_order r.policy r.environment r.risk r.execution request order reference_price)
    lift passed
    within (λ r. r.execution) with_execution
        (Gateway.execute order reference_price available_quantity)
