-- ===== src/PortfolioRisk/Tests.antt =====
-- A snapshot of a small account, of portfolio_risk.py.
use paper_live.Base.{◌≡◌, refl, some, [], ◌∷◌, String, ok}
use paper_live.Base.Int.{pos, ◌+ℤ◌, ◌-ℤ◌}
use paper_live.Base.Dict.{Dict, get, put, string_eq}
use paper_live.Base.Text.{strip}
use paper_live.Decimal.{
  Decimal, whole, literal, xor, add, sub, mul, divide, fit, fit_ℤ, excess, round_half_even,
}
use paper_live.Execution.Types.{PaperAccount}
use paper_live.PortfolioRisk.{
  PortfolioRiskSnapshot, valuate, valuate_all, add_position, price_of, build,
}
use paper_live.PortfolioRisk.Priced.{Rests, build-Rests}

abbrev account : PaperAccount
account = record { cash = whole 1000; positions = ("AAPL", whole 10) ∷ ("OLD", pos 0) ∷ [] }

abbrev prices : Dict String Decimal
prices = ("AAPL", whole 300) ∷ []

abbrev markets : Dict String String
markets = ("AAPL", " NASDAQ ") ∷ []

abbrev snapshot : PortfolioRiskSnapshot
snapshot = record {
  context = record {
    account_value = whole 4000;
    portfolio_notional = whole 3000;
    market_notional = whole 3000;
    market = "NASDAQ";
  };
  cash = whole 1000;
  cash_ratio = literal 25 2;
  positions =
      record {
        symbol = "AAPL";
        quantity = whole 10;
        price = whole 300;
        market = "NASDAQ";
        notional = whole 3000;
      }
      ∷ [];
  market_notionals = ("NASDAQ", whole 3000) ∷ [];
}

built : build account prices markets (some "AAPL") ≡ ok snapshot
unfolding build valuate_all valuate add_position price_of strip get put add sub mul divide fit fit_ℤ
    excess round_half_even xor ◌+ℤ◌ ◌-ℤ◌
built = refl

build-Rests_example : Rests account prices snapshot
build-Rests_example = build-Rests account prices markets (some "AAPL") built
