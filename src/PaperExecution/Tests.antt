-- ===== src/PaperExecution/Tests.antt =====
-- The execution of two portfolios on paper, of paper_execution.py.
use paper_live.Base.{
  ℕ, ◌≡◌, refl, true, Option, none, some, List, [], ◌∷◌, String, ◌==◌, ok, length, Result, err,
  is_ok, arith, if◌then◌else◌,
}
use paper_live.Base.Dict.{string_eq}
use paper_live.Decimal.{Decimal, whole, literal}
use paper_live.TradeFacade.Types.{PortfolioRow, PortfolioPreflightResult}
use paper_live.TradeFacade.Samples.{facade}
use paper_live.TradeFacade.Terms.{Terms}
use paper_live.PaperExecution.{Orchestrator, PaperExecutionResult}
use paper_live.PaperExecution.Execute.{Inputs}
use paper_live.PaperExecution.Execute
use paper_live.PaperExecution.Counted.Returned.{Counted, execute-Counted}
use paper_live.PaperExecution.AllOrNothing.{Intact, Refused, execute_rejected}
use paper_live.Pnl.Invariant.{AllLong}
use paper_live.PaperExecution.Sound.{Steady}
use paper_live.PaperExecution.Sound.Loop.{execute_steady}
use paper_live.Execution.Gateway.Soundness.{IsSound}
use paper_live.Base.Exec.{pure, lift, gets, ◌>>=◌, modify, zoom, within, attempt}
use paper_live.Base.Dict.{get, put}
use paper_live.Base.Text.{strip, upper, reads_as, prefix}
use paper_live.Base.Int.{◌+ℤ◌, ◌-ℤ◌}
use paper_live.Decimal.{
  excess, round_half_even, fit, fit_ℤ, add, sub, mul, divide, neg, quantize_down, to_integral_down,
  xor,
}
use paper_live.PortfolioRisk.{add_position, price_of, valuate, valuate_all, build}
use paper_live.TradeFacade.Types.{normalized_side, normalized_order_type}
use paper_live.TradeFacade.Assess.{to_paper_order, to_broker_order, approve_with, assess_risk}
use paper_live.TradeFacade.Calls.{preview}
use paper_live.TradeFacade.Rows.{
  check_sizes, check_target, target_quantity, intent_from_portfolio_row,
}
use paper_live.TradeFacade.Terms.{latest_price, row_intent, revalidated, judge, target_weight}
use paper_live.TradeFacade.Revalidate.{
  open_preview, revalidate_portfolio_row, preflight_row, preflight_rows, audit_preflight,
  preflight_portfolio, submit_revalidated, submit_portfolio_row_revalidated,
}
use paper_live.TradeFacade.Submit.{on_trail, audit_end, place, submit_as}
use paper_live.TradeFacade.Submit
use paper_live.Risk.{
  check_reserve, check_position, check_order, check_live, approve, check_market, check_portfolio,
  approve_portfolio,
}
use paper_live.Environment.{is_skill_allowed, assert_skill_allowed}
use paper_live.Execution.Engine.{validate, fill_quantity, fill_price, settle, charges, trade}
use paper_live.Execution.Engine
use paper_live.Execution.Gateway.{run_paper, on_lifecycle, run_order, begin, dispatch}
use paper_live.Execution.Gateway
use paper_live.OrderLifecycle.{fill, cancel}
use paper_live.OrderLifecycle
use paper_live.Audit.{append, replace, on_records, bind_run, bind, store_updated}
use paper_live.Audit.Calls.{
  create_submission, record_filled, require, record_pnl, record_reflection,
}
use paper_live.Audit.Calls
use paper_live.Audit.Preflight.{
  approved_by_symbol, rejected_by_symbol, preflight_record, preflight_records, append_all,
  record_preflight,
}
use paper_live.Pnl.{position, updated, apply_fill, unrealized_pnl, total_pnl}
use paper_live.PaperExecution.{
  on_active, bind_of_trail, bind_tracked, bind_run_stage, persist_with, persist_stage,
}
use paper_live.PaperExecution.Booking.{
  last_submission, on_desk, collect, audited, reflect_with, book, book_submission, book_audited,
  take_fill,
}
use paper_live.PaperExecution.Execute.{
  row_by_symbol, on_facade, take_answer, execute_row, execute_rows, execute_approved, conclude,
}

abbrev parse : String → Option Decimal
parse t = if t == "0.1" then some (literal 1 1) else if t == "100" then some (whole 100) else none

abbrev terms : Terms
terms = record {
  account = λ g. g.paper.account;
  latest_prices = ("AAPL", whole 100) ∷ [];
  markets = [];
  broker = "toss";
  order_type = "MARKET";
  lot_size = whole 1;
  parse = parse;
  print = λ d. "100";
}

abbrev row : PortfolioRow
row = record {
  symbol = some "AAPL";
  target_weight = some "0.1";
  close = some "100";
  price = none;
  portfolio_selected = true;
  portfolio_rank = some 1;
  rank = none;
  market = none;
  side = none;
}

-- A row without a symbol, which is rejected.
abbrev blank : PortfolioRow
blank = record row { symbol = none }

abbrev desk : Orchestrator ℕ ℕ ℕ
desk = record {
  facade = facade;
  ledger = [];
  reflection_worker = some (λ episode written. (ok tt, written));
  audit_trail = none;
  manifest_tracker = none;
  storage = some (λ run_id stage trade_date rows schema written. (
    ok (record {
      dataset = stage;
      as_of = trade_date;
      row_count = length rows;
      schema_version = schema;
      checksum_sha256 = "c0ffee";
    }),
    written,
  ));
  files = 0;
}

abbrev inputs : Inputs
inputs = record {
  preflight = λ n. record { client_id = "paper-0"; preview_id = "preview-0" };
  audit = record { digest = λ p. p.symbol; checksum = λ l. "c0ffee"; clock = λ n. n };
  revalidation = λ n. record { client_id = "paper-1"; preview_id = "preview-1" };
  submission = λ n. record {
    digest = λ p. p.client_order_id;
    fresh = "paper-2";
    created = 5;
    now = 6;
    later = 7;
  };
  episode_id = λ n. "episode-0";
  clock = λ n. 9;
}

abbrev told : Result PaperExecutionResult → Option (ℕ × List String × List String)
told (ok r) = some (length r.fills, r.pnl_audits, r.reflection_episodes)
told _ = none

abbrev value : Result PaperExecutionResult → PaperExecutionResult
value (ok r) = r
value _ = record {
  preflight = record { rows_checked = 0; approved = []; rejected = [] };
  fills = [];
  pnl_audits = [];
  reflection_episodes = [];
}

-- A tenth of 10,000 buys ten shares at 100: one fill, booked and reflected on.
abbrev bought : PaperExecutionResult
bought = value (Execute.execute inputs terms (row ∷ []) (some "run-1") (some "2026-01-02") desk).0

buys : told (ok bought) ≡ some (1, "paper-2" ∷ [], "episode-0" ∷ [])
unfolding pure lift gets ◌>>=◌ modify zoom within attempt get put strip upper reads_as prefix ◌+ℤ◌
    ◌-ℤ◌ excess round_half_even fit fit_ℤ add sub mul divide neg quantize_down to_integral_down xor
    add_position price_of valuate valuate_all build normalized_side normalized_order_type
    to_paper_order to_broker_order approve_with assess_risk preview check_sizes check_target
    target_quantity intent_from_portfolio_row latest_price row_intent revalidated judge
    target_weight open_preview revalidate_portfolio_row preflight_row preflight_rows audit_preflight
    preflight_portfolio submit_revalidated submit_portfolio_row_revalidated on_trail audit_end place
    submit_as Submit.submit check_reserve check_position check_order check_live approve check_market
    check_portfolio approve_portfolio is_skill_allowed assert_skill_allowed validate fill_quantity
    fill_price settle charges trade Engine.execute run_paper on_lifecycle run_order begin dispatch
    Gateway.record_fill Gateway.execute fill cancel OrderLifecycle.submit append replace on_records
    bind_run bind store_updated create_submission record_filled require record_pnl record_reflection
    Calls.record_fill approved_by_symbol rejected_by_symbol preflight_record preflight_records
    append_all record_preflight position updated apply_fill unrealized_pnl total_pnl on_active
    bind_of_trail bind_tracked bind_run_stage persist_with persist_stage last_submission on_desk
    collect audited reflect_with book book_submission book_audited take_fill row_by_symbol on_facade
    take_answer execute_row execute_rows execute_approved conclude Execute.execute
buys = refl

value_ok : (r : Result PaperExecutionResult) → is_ok r ≡ true → r ≡ ok (value r)
value_ok (ok r) e = refl
value_ok (err x) e = absurd (ground (arith, e))

returns :
    is_ok (Execute.execute inputs terms (row ∷ []) (some "run-1") (some "2026-01-02") desk).0 ≡ true
unfolding pure lift gets ◌>>=◌ modify zoom within attempt get put strip upper reads_as prefix ◌+ℤ◌
    ◌-ℤ◌ excess round_half_even fit fit_ℤ add sub mul divide neg quantize_down to_integral_down xor
    add_position price_of valuate valuate_all build normalized_side normalized_order_type
    to_paper_order to_broker_order approve_with assess_risk preview check_sizes check_target
    target_quantity intent_from_portfolio_row latest_price row_intent revalidated judge
    target_weight open_preview revalidate_portfolio_row preflight_row preflight_rows audit_preflight
    preflight_portfolio submit_revalidated submit_portfolio_row_revalidated on_trail audit_end place
    submit_as Submit.submit check_reserve check_position check_order check_live approve check_market
    check_portfolio approve_portfolio is_skill_allowed assert_skill_allowed validate fill_quantity
    fill_price settle charges trade Engine.execute run_paper on_lifecycle run_order begin dispatch
    Gateway.record_fill Gateway.execute fill cancel OrderLifecycle.submit append replace on_records
    bind_run bind store_updated create_submission record_filled require record_pnl record_reflection
    Calls.record_fill approved_by_symbol rejected_by_symbol preflight_record preflight_records
    append_all record_preflight position updated apply_fill unrealized_pnl total_pnl on_active
    bind_of_trail bind_tracked bind_run_stage persist_with persist_stage last_submission on_desk
    collect audited reflect_with book book_submission book_audited take_fill row_by_symbol on_facade
    take_answer execute_row execute_rows execute_approved conclude Execute.execute
returns = refl

execute-Counted_example : Counted bought
execute-Counted_example =
    execute-Counted inputs terms (row ∷ []) (some "run-1") (some "2026-01-02") desk (
      value_ok (Execute.execute inputs terms (row ∷ []) (some "run-1") (some "2026-01-02") desk).0
        returns)

abbrev refusal : PortfolioPreflightResult
refusal = record {
  rows_checked = 1;
  approved = [];
  rejected = (blank, "portfolio row symbol is required") ∷ [];
}

refuses :
    (preflight_portfolio terms inputs.preflight inputs.audit (blank ∷ []) none none facade).0
    ≡ ok refusal
unfolding pure lift gets ◌>>=◌ modify zoom within attempt get put strip upper reads_as prefix ◌+ℤ◌
    ◌-ℤ◌ excess round_half_even fit fit_ℤ add sub mul divide neg quantize_down to_integral_down xor
    add_position price_of valuate valuate_all build normalized_side normalized_order_type
    to_paper_order to_broker_order approve_with assess_risk preview check_sizes check_target
    target_quantity intent_from_portfolio_row latest_price row_intent revalidated judge
    target_weight open_preview revalidate_portfolio_row preflight_row preflight_rows audit_preflight
    preflight_portfolio submit_revalidated submit_portfolio_row_revalidated on_trail audit_end place
    submit_as Submit.submit check_reserve check_position check_order check_live approve check_market
    check_portfolio approve_portfolio is_skill_allowed assert_skill_allowed validate fill_quantity
    fill_price settle charges trade Engine.execute run_paper on_lifecycle run_order begin dispatch
    Gateway.record_fill Gateway.execute fill cancel OrderLifecycle.submit append replace on_records
    bind_run bind store_updated create_submission record_filled require record_pnl record_reflection
    Calls.record_fill approved_by_symbol rejected_by_symbol preflight_record preflight_records
    append_all record_preflight position updated apply_fill unrealized_pnl total_pnl on_active
    bind_of_trail bind_tracked bind_run_stage persist_with persist_stage last_submission on_desk
    collect audited reflect_with book book_submission book_audited take_fill row_by_symbol on_facade
    take_answer execute_row execute_rows execute_approved conclude Execute.execute
refuses = refl

no_orders : IsSound facade.gateway
unfolding get
no_orders = record {
  orders = record { at_id = λ k r found. cc };
  positions = record { at_symbol = λ k q found. cc };
}

no_positions : AllLong []
unfolding get
no_positions = record { at_symbol = λ s p found. cc }

execute_steady_example :
    Steady facade
      (Execute.execute inputs terms (row ∷ []) (some "run-1") (some "2026-01-02") desk).1
execute_steady_example =
    execute_steady inputs terms (row ∷ []) (some "run-1") (some "2026-01-02") desk no_orders
      no_positions

execute_rejected_example :
    Intact desk (Execute.execute inputs terms (blank ∷ []) none none desk).1
    × ((result : PaperExecutionResult)
        → (Execute.execute inputs terms (blank ∷ []) none none desk).0 ≡ ok result
        → Refused refusal result)
execute_rejected_example =
    execute_rejected inputs terms (blank ∷ []) none none desk refl refuses refl
