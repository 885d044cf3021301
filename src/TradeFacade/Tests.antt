-- ===== src/TradeFacade/Tests.antt =====
-- Submissions in the paper mode, of trade_facade.py.
use paper_live.Base.{ℕ, ◌≡◌, refl, false, none, [], ◌∷◌, ok, is_ok}
use paper_live.Base.Dict.{string_eq}
use paper_live.Base.Text.{reads_as, strip, upper}
use paper_live.Decimal.{whole, xor, mul, fit, fit_ℤ, excess, round_half_even}
use paper_live.Risk.{approve, check_order}
use paper_live.TradeFacade.Types.{
  OrderIntent, RiskAssessment, normalized_side, normalized_order_type,
}
use paper_live.TradeFacade.Assess.{to_paper_order, approve_with, assess_risk}
use paper_live.TradeFacade.Samples.{gateway, guardian, facade}
use paper_live.TradeFacade.Submit.{Submission, submit}
use paper_live.TradeFacade.Sandbox.{submit-IsUntouched}
use paper_live.Base.Exec.{Keeps}
use paper_live.Execution.Gateway.Soundness.{IsSound}
use paper_live.TradeFacade.Calls.{TradeFacade}
use paper_live.TradeFacade.Sound.{Holds, submit-IsSound}
use paper_live.TradeFacade.Rejected.{submit_rejected}

-- Twenty thousand shares at 100: more than an order may be worth.
abbrev huge : OrderIntent
huge = record {
  symbol = "AAPL";
  side = " buy";
  quantity = whole 20000;
  order_type = "market";
  price = none;
  broker = "toss";
  client_order_id = "o-1";
}

abbrev submission : Submission
submission = record {
  intent = huge;
  reference_price = whole 100;
  approval_id = none;
  preview_id = none;
  context = none;
  origin = record {
    recommendation_run_id = none;
    portfolio_rank = none;
    target_weight = none;
    preview_id = none;
    run_manifest_id = none;
  };
}

abbrev rejection : RiskAssessment
rejection = record {
  approved = false;
  level = "REJECT";
  violations = "order notional exceeds risk limit" ∷ [];
}

assessed : assess_risk "paper-1" huge (whole 100) none gateway guardian ≡ ok rejection
unfolding assess_risk to_paper_order approve_with normalized_side normalized_order_type reads_as
    strip upper approve check_order mul fit fit_ℤ excess round_half_even xor
assessed = refl

submit-IsUntouched_example :
    (submit (λ p. p.client_order_id) "paper-1" 1 2 3 submission facade).1.world ≡ 0
submit-IsUntouched_example =
    submit-IsUntouched (λ p. p.client_order_id) "paper-1" 1 2 3 submission facade refl

submit_rejected_example :
    (is_ok (submit (λ p. p.client_order_id) "paper-1" 1 2 3 submission facade).0 ≡ false)
    × ((submit (λ p. p.client_order_id) "paper-1" 1 2 3 submission facade).1.gateway ≡ gateway)
    × ((submit (λ p. p.client_order_id) "paper-1" 1 2 3 submission facade).1.world ≡ 0)
submit_rejected_example =
    submit_rejected (λ p. p.client_order_id) "paper-1" 1 2 3 submission facade refl assessed refl

submit-IsSound_example :
    Keeps {S = TradeFacade ℕ ℕ}
      (Holds IsSound)
      (submit (λ p. p.client_order_id) "paper-1" 1 2 3 submission)
submit-IsSound_example = submit-IsSound (λ p. p.client_order_id) "paper-1" 1 2 3 submission
