-- ===== src/Plugins/Runtime/Tests.antt =====
-- A plugin's skill is called, and its order placed, of plugins/integration.py.
use paper_live.Base.{ℕ, ◌≡◌, refl, inl, none, [], ◌∷◌, String, ok}
use paper_live.Base.Dict.{string_eq}
use paper_live.Base.Acts.{Acts}
use paper_live.Environment.{Mode, mode_value}
use paper_live.Base.Exec.{pure, lift, gets, ◌>>=◌, zoom, within, attempt}
use paper_live.Base.Dict.{get, put}
use paper_live.Base.Int.{◌+ℤ◌, ◌-ℤ◌}
use paper_live.Decimal.{
  whole, excess, round_half_even, fit, fit_ℤ, add, sub, mul, divide, neg, quantize_down, xor,
}
use paper_live.Risk.{check_reserve, check_position, check_order, check_live, approve}
use paper_live.Environment.{is_skill_allowed, assert_skill_allowed}
use paper_live.Execution.Types.{OrderSide, OrderType, PaperOrder}
use paper_live.Execution.Engine.{validate, fill_quantity, fill_price, settle, charges, trade}
use paper_live.Execution.Engine
use paper_live.Execution.Gateway.{run_paper, on_lifecycle, record_fill, run_order, begin, dispatch}
use paper_live.Execution.Gateway
use paper_live.OrderLifecycle.{fill, fill_record, cancel}
use paper_live.OrderLifecycle
use paper_live.TradeFacade.Samples.{gateway, guardian}
use paper_live.Plugins.Lifecycle.{PluginState, require}
use paper_live.Plugins.Skills.{resolve}
use paper_live.Plugins.Policy.{safe_modes, check}
use paper_live.Plugins.Guards.{
  PluginExecutionRequest, own_skill, guard_request, guard_order, handler_of,
}
use paper_live.Plugins.Runtime.{
  SkillExecutor, PluginRuntime, run_handler, run_skill, invoke, submit_paper_order,
}
use paper_live.Plugins.Runtime.Permitted.{
  IsPermitted, invoke-IsPermitted, IsOrdered, submit_paper_order-IsOrdered,
}

abbrev executor : SkillExecutor ℕ String ℕ
executor = record {
  registry =
      ("scan", record { skill_id = "scan"; plugin_id = "p"; version = "1"; entrypoint = "scan.py" })
      ∷ [];
  handlers = ("scan", λ argument calls. (ok 7, calls)) ∷ [];
}

abbrev runtime : PluginRuntime ℕ String ℕ
runtime = record {
  lifecycle =
      (
        "p",
        record {
          plugin_id = "p";
          version = "1";
          commit = "c";
          artifact_sha256 = "s";
          state = PluginState.enabled;
        },
      )
      ∷ [];
  registry = executor.registry;
  executor = executor;
  environment = gateway.controller;
  risk = guardian;
  execution = gateway;
  policy = record { allowed_modes = safe_modes };
}

abbrev request : PluginExecutionRequest
request = record { plugin_id = "p"; skill_id = "scan"; mode = Mode.paper_sandbox }

answers : Acts (invoke runtime request "AAPL") 0
unfolding invoke guard_request own_skill require resolve check get run_skill handler_of run_handler
    attempt lift ◌>>=◌
answers = inl refl

invoke-IsPermitted_example :
    IsPermitted runtime.lifecycle runtime.registry runtime.policy "p" "scan" "PAPER_SANDBOX"
    × (mode_value gateway.controller.mode ≡ "PAPER_SANDBOX")
invoke-IsPermitted_example = invoke-IsPermitted runtime request "AAPL" 0 answers

abbrev order : PaperOrder
order = record {
  symbol = "AAPL";
  side = OrderSide.buy;
  quantity = whole 10;
  order_type = OrderType.market;
  limit_price = none;
  client_order_id = "o-1";
}

fills : Acts (submit_paper_order request order (whole 100) none) runtime
unfolding submit_paper_order guard_order check approve check_order check_reserve check_position
    check_live is_skill_allowed assert_skill_allowed get put gets lift pure ◌>>=◌ zoom within
    Gateway.execute dispatch begin run_order run_paper on_lifecycle record_fill
    OrderLifecycle.submit fill Engine.execute validate fill_quantity fill_price settle charges trade
    ◌+ℤ◌ ◌-ℤ◌ excess round_half_even fit fit_ℤ add sub mul divide neg quantize_down xor
fills = inl refl

submit_paper_order-IsOrdered_example :
    IsOrdered gateway.controller runtime.policy guardian gateway request order (whole 100)
submit_paper_order-IsOrdered_example =
    submit_paper_order-IsOrdered request order (whole 100) none runtime fills
