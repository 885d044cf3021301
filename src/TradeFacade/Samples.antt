-- ===== src/TradeFacade/Samples.antt =====
-- An account of 10,000 in cash behind a facade in the paper mode, for tests.
use paper_live.Base.{ℕ, false, ok, none, some, [], ◌∷◌}
use paper_live.Base.Int.{pos}
use paper_live.Decimal.{whole, literal}
use paper_live.Environment.{Mode}
use paper_live.Execution.Gateway.{Gateway}
use paper_live.Risk.{RiskGuardian, default_limits}
use paper_live.TradeFacade.Calls.{TradeFacade}

abbrev pub gateway : Gateway
gateway = record {
  controller = record {
    mode = Mode.paper_sandbox;
    version = 0;
    changed_at = 0;
    changed_by = "system";
    transition_secret = none;
    live_approval_gate = none;
    time_triggers = [];
    kpi_triggers = [];
  };
  paper = record {
    account = record { cash = whole 10000; positions = [] };
    fee_rate = literal 15 5;
    sell_tax_rate = literal 2 3;
    slippage_bps = whole 5;
    max_fill_ratio = whole 1;
  };
  lifecycle = [];
}

abbrev pub guardian : RiskGuardian
guardian = record { limits = default_limits; tripped = false; daily_pnl = pos 0 }

abbrev pub facade : TradeFacade ℕ ℕ
facade = record {
  gateway = gateway;
  risk = guardian;
  broker_router = none;
  order_approval_gate = none;
  secret_broker = none;
  broker_secret_ids = ("toss", "toss-order") ∷ [];
  apply = λ broker material calls. (ok tt, calls);
  clear = λ broker calls. (ok tt, calls);
  currency = "KRW";
  audit_trail = some (record { records = []; manifest_tracker = none });
  previews = [];
  world = 0;
}
