-- ===== src/TradeFacade/Preflight/Tests.antt =====
-- A preflight of one row, of trade_facade.py.
use paper_live.Base.{true, Option, none, some, [], ◌∷◌, String, ◌==◌, if◌then◌else◌}
use paper_live.Base.Exec.{Yields}
use paper_live.Decimal.{Decimal, whole, literal}
use paper_live.TradeFacade.Types.{PortfolioRow}
use paper_live.TradeFacade.Samples.{facade}
use paper_live.TradeFacade.Terms.{Terms}
use paper_live.TradeFacade.Revalidate.{AuditInputs, preflight_portfolio}
use paper_live.TradeFacade.Preflight.{Agrees}
use paper_live.TradeFacade.Preflight.Fair.{Fair, preflight_portfolio-Fair}

abbrev parse : String → Option Decimal
parse t = if t == "0.1" then some (literal 1 1) else if t == "100" then some (whole 100) else none

abbrev terms : Terms
terms = record {
  account = λ g. g.paper.account;
  latest_prices = ("AAPL", whole 100) ∷ [];
  markets = ("AAPL", "US") ∷ [];
  broker = "toss";
  order_type = "MARKET";
  lot_size = whole 1;
  parse = parse;
  print = λ d. "100";
}

abbrev row : PortfolioRow
row = record {
  symbol = some "AAPL";
  target_weight = some "0.1";
  close = some "100";
  price = none;
  portfolio_selected = true;
  portfolio_rank = some 1;
  rank = none;
  market = none;
  side = none;
}

abbrev audit : AuditInputs
audit = record { digest = λ p. p.symbol; checksum = λ l. "c0ffee"; clock = λ n. n }

preflight_portfolio-Fair_example : Yields (Agrees facade) (Fair facade terms (row ∷ [])) (
    preflight_portfolio terms
      (λ n. record { client_id = "paper-0"; preview_id = "preview-0" })
      audit
      (row ∷ [])
      (some "run-1")
      none)
preflight_portfolio-Fair_example =
    preflight_portfolio-Fair terms (λ n. record { client_id = "paper-0"; preview_id = "preview-0" })
      audit (row ∷ []) (some "run-1") none facade
