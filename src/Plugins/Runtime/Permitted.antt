-- ===== src/Plugins/Runtime/Permitted.antt =====
-- What has to hold before a plugin's handler is called, or its order placed, of
-- plugins/gateway.py and integration.py.
use paper_live.Base.{
  ◌≡◌, ◌≢◌, refl, true, false, Option, none, String, Kind, ok, raise_if, or_raise, not, ◌==◌, [],
  ◌∷◌, >>=-eq-ok, arith, eq_iff,
}
use paper_live.Base.Text.{concat}
use paper_live.Base.Dict.{Dict, get, string_eq}
use paper_live.Base.Exec.{gets, within, ◌>>=◌}
use paper_live.Base.Acts.{Acts, acts_ok}
use paper_live.Decimal.{Decimal}
use paper_live.Environment.{Controller, is_live, mode_value, is_member}
use paper_live.Execution.Types.{PaperOrder}
use paper_live.Execution.Gateway
use paper_live.Execution.Gateway.{Gateway}
use paper_live.Risk.{RiskGuardian}
use paper_live.Risk.Order.{Within, approve-Within}
use paper_live.Plugins.Lifecycle
use paper_live.Plugins.Lifecycle.{PluginState, PluginRecord, Plugins}
use paper_live.Plugins.Skills.{RegisteredSkill, Skills, resolve}
use paper_live.Plugins.Policy.{ExecutionPolicy, check}
use paper_live.Plugins.Guards.{
  PluginCall, PluginExecutionRequest, is_enabled, own_skill, guard_call, guard_request, guard_order,
  handler_of, mode_differs,
}
use paper_live.Plugins.Runtime.{
  PluginGateway, PluginRuntime, run_skill, run_handler, execute, invoke, submit_paper_order,
  with_execution,
}

-- The plugin is enabled, the skill is registered as its own, and the policy has the mode, which is
-- not REAL_LIVE.
pub record IsPermitted (lifecycle : Plugins) (registry : Skills) (policy : ExecutionPolicy)
    (plugin_id skill_id mode : String) : Type 0 where
  pub plugin : PluginRecord
  pub found : Lifecycle.require plugin_id lifecycle ≡ ok plugin
  pub enabled : plugin.state ≡ PluginState.enabled
  pub skill : RegisteredSkill
  pub known : resolve skill_id registry ≡ ok skill
  pub owner : skill.plugin_id ≡ plugin_id
  pub allowed : is_member mode policy.allowed_modes ≡ true
  pub not_live : mode ≢ "REAL_LIVE"

enabled_of : (s : PluginState) → is_enabled s ≡ true → s ≡ PluginState.enabled
enabled_of PluginState.enabled h = refl
enabled_of PluginState.installed h = absurd (ground (arith, h))
enabled_of PluginState.verified h = absurd (ground (arith, h))
enabled_of PluginState.disabled h = absurd (ground (arith, h))
enabled_of PluginState.removed h = absurd (ground (arith, h))

-- The plugin and the skill that `own_skill` found.
record Owned (lifecycle : Plugins) (registry : Skills) (plugin_id skill_id : String) : Type 0 where
  plugin : PluginRecord
  found : Lifecycle.require plugin_id lifecycle ≡ ok plugin
  enabled : plugin.state ≡ PluginState.enabled
  skill : RegisteredSkill
  known : resolve skill_id registry ≡ ok skill
  owner : skill.plugin_id ≡ plugin_id

own_skill-Owned :
    (lifecycle : Plugins) (registry : Skills) (plugin_id skill_id : String) {s : RegisteredSkill}
    → own_skill lifecycle registry plugin_id skill_id ≡ ok s
    → Owned lifecycle registry plugin_id skill_id
unfolding own_skill
own_skill-Owned lifecycle registry plugin_id skill_id h =
    let (plugin, found, rest) = >>=-eq-ok (Lifecycle.require plugin_id lifecycle) _ h in
    let (_, on, rest₁) =
      >>=-eq-ok
        (raise_if (not (is_enabled plugin.state)) Kind.lifecycle_error
          (concat ("plugin is not enabled: " ∷ plugin_id ∷ [])))
        _ rest in
    let (skill, known, rest₂) = >>=-eq-ok (resolve skill_id registry) _ rest₁ in
    record {
      plugin = plugin;
      found = found;
      enabled = enabled_of plugin.state (ground (arith, on));
      skill = skill;
      known = known;
      owner = ground (arith, rest₂, eq_iff skill.plugin_id plugin_id);
    }

check-is_member :
    (mode : String) (policy : ExecutionPolicy)
    → check mode policy ≡ ok tt
    → is_member mode policy.allowed_modes ≡ true
unfolding check
check-is_member mode policy h = ground (arith, h)

handler_of-not_live :
    {Handler : Type 0} (registry : Skills) (handlers : Dict String Handler) (skill_id mode : String)
    {handler : Handler}
    → handler_of registry handlers skill_id mode ≡ ok handler
    → mode ≢ "REAL_LIVE"
unfolding handler_of
handler_of-not_live registry handlers skill_id mode h live =
    let (_, _, rest) = >>=-eq-ok (resolve skill_id registry) _ h in
    let (_, _, rest₁) =
      >>=-eq-ok
        (or_raise (get skill_id handlers) Kind.execution_error
          (concat ("skill has no approved handler: " ∷ skill_id ∷ [])))
        _ rest in
    ground (arith, rest₁, live, eq_iff mode "REAL_LIVE")

permitted :
    (lifecycle : Plugins) (registry : Skills) (policy : ExecutionPolicy)
    (plugin_id skill_id mode : String)
    → Owned lifecycle registry plugin_id skill_id
    → check mode policy ≡ ok tt
    → mode ≢ "REAL_LIVE"
    → IsPermitted lifecycle registry policy plugin_id skill_id mode
permitted lifecycle registry policy plugin_id skill_id mode o passed not_live = record {
  plugin = o.plugin;
  found = o.found;
  enabled = o.enabled;
  skill = o.skill;
  known = o.known;
  owner = o.owner;
  allowed = check-is_member mode policy passed;
  not_live = not_live;
}

module _ {World Argument Answer : Type 0} where
  -- Whenever a call of a plugin's skill through the gateway returns, or leaves the world outside
  -- other than it was, the plugin is ENABLED, the skill is registered as its own, the policy has
  -- the mode, which is not REAL_LIVE, and the environment, if one is attached, is in that mode.
  pub execute-IsPermitted :
      (g : PluginGateway World Argument Answer) (call : PluginCall) (argument : Argument)
      (world : World)
      → Acts (execute g call argument) world
      → IsPermitted g.lifecycle g.executor.registry g.policy call.plugin_id call.skill_id call.mode
        × (mode_differs g.environment call.mode ≡ false)
  unfolding execute run_skill guard_call
  execute-IsPermitted g call argument world acts =
      let (_, passed, ran) =
        acts_ok (guard_call g.lifecycle g.executor.registry g.policy g.environment call)
          (λ _. run_skill g.executor call.skill_id call.mode argument) world acts in
      let (handler, at, _) =
        acts_ok (handler_of g.executor.registry g.executor.handlers call.skill_id call.mode)
          (run_handler call.skill_id argument) world ran in
      let (_, owned, rest) =
        >>=-eq-ok (own_skill g.lifecycle g.executor.registry call.plugin_id call.skill_id) _
          passed in
      let (_, checked, same) = >>=-eq-ok (check call.mode g.policy) _ rest in
      (
        permitted _ _ _ _ _ _ (own_skill-Owned _ _ _ _ owned) checked
            (handler_of-not_live _ _ call.skill_id call.mode at),
        ground (arith, same),
      )

  -- Whenever `PluginRuntime.invoke` returns, or leaves the world outside other than it was, the
  -- plugin is ENABLED, the skill is registered as its own, the policy has the mode, which is not
  -- REAL_LIVE, and the environment is in that mode.
  pub invoke-IsPermitted :
      (r : PluginRuntime World Argument Answer) (request : PluginExecutionRequest)
      (argument : Argument) (world : World)
      → Acts (invoke r request argument) world
      → IsPermitted r.lifecycle r.registry r.policy request.plugin_id request.skill_id
          (mode_value request.mode)
        × (mode_value r.environment.mode ≡ mode_value request.mode)
  unfolding invoke run_skill guard_request
  invoke-IsPermitted r request argument world acts =
      let (_, passed, ran) =
        acts_ok (guard_request r.lifecycle r.registry r.policy r.environment request)
          (λ _. run_skill r.executor request.skill_id (mode_value request.mode) argument) world
          acts in
      let (handler, at, _) =
        acts_ok
          (handler_of r.executor.registry r.executor.handlers request.skill_id
            (mode_value request.mode))
          (run_handler request.skill_id argument) world ran in
      let (_, owned, rest) =
        >>=-eq-ok (own_skill r.lifecycle r.registry request.plugin_id request.skill_id) _ passed in
      let (_, same, checked) =
        >>=-eq-ok
          (raise_if (not (mode_value request.mode == mode_value r.environment.mode))
            Kind.permission_error "plugin requested mode does not match environment")
          _ rest in
      (
        permitted _ _ _ _ _ _ (own_skill-Owned _ _ _ _ owned) checked
            (handler_of-not_live _ _ request.skill_id (mode_value request.mode) at),
        ground (arith, same, eq_iff (mode_value request.mode) (mode_value r.environment.mode)),
      )

-- What stands behind an order that a plugin asked for.
pub record IsOrdered (environment : Controller) (policy : ExecutionPolicy) (risk : RiskGuardian)
    (execution : Gateway) (request : PluginExecutionRequest) (order : PaperOrder) (price : Decimal)
    : Type 0 where
  pub on_paper : is_live request.mode ≡ false
  pub same_mode : mode_value environment.mode ≡ mode_value request.mode
  pub allowed : is_member (mode_value request.mode) policy.allowed_modes ≡ true
  pub within : Within order price none execution.paper.account risk

guard_order-IsOrdered :
    (policy : ExecutionPolicy) (environment : Controller) (risk : RiskGuardian)
    (execution : Gateway) (request : PluginExecutionRequest) (order : PaperOrder) (price : Decimal)
    → guard_order policy environment risk execution request order price ≡ ok tt
    → IsOrdered environment policy risk execution request order price
unfolding guard_order
guard_order-IsOrdered policy environment risk execution request order price h =
    let (_, paper, rest) =
      >>=-eq-ok
        (raise_if (is_live request.mode) Kind.permission_error
          "plugin trading cannot execute REAL_LIVE")
        _ h in
    let (_, same, rest₁) =
      >>=-eq-ok
        (raise_if (not (mode_value environment.mode == mode_value request.mode))
          Kind.permission_error "environment mode changed before order execution")
        _ rest in
    let (_, checked, approved) = >>=-eq-ok (check (mode_value request.mode) policy) _ rest₁ in
    record {
      on_paper = ground (arith, paper);
      same_mode =
          ground (arith, same, eq_iff (mode_value environment.mode) (mode_value request.mode));
      allowed = check-is_member (mode_value request.mode) policy checked;
      within =
          approve-Within order price none execution.controller execution.paper.account risk
            approved;
    }

module _ {World Argument Answer : Type 0} where
  -- Whenever an order that a plugin asks for is filled, or writes anything of the runtime and its
  -- gateway, the request is not for REAL_LIVE, the environment is in the mode of the request, the
  -- policy has it, and the order keeps to every limit of the guardian's `approve`.
  pub submit_paper_order-IsOrdered :
      (request : PluginExecutionRequest) (order : PaperOrder) (price : Decimal)
      (available : Option Decimal) (r : PluginRuntime World Argument Answer)
      → Acts (submit_paper_order request order price available) r
      → IsOrdered r.environment r.policy r.risk r.execution request order price
  unfolding submit_paper_order gets ◌>>=◌
  submit_paper_order-IsOrdered request order price available r acts =
      let (_, passed, _) =
        acts_ok (guard_order r.policy r.environment r.risk r.execution request order price)
          (λ _. within (λ r. r.execution) with_execution (Gateway.execute order price available)) r
          acts in
      guard_order-IsOrdered r.policy r.environment r.risk r.execution request order price passed
