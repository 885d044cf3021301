-- ===== src/PortfolioRisk.antt =====
-- paper_live/portfolio_risk.py: the exposure of an account at given prices.
pub mod Priced
mod Tests
use paper_live.Base.{
  Bool, true, false, Option, none, some, List, [], ◌∷◌, ◌++◌, String, ◌==◌, Result, Kind, ok, err,
  raise, raise_if, or_raise, ◌>>=◌, ◌>>◌, if◌then◌else◌,
}
use paper_live.Base.Int.{pos, ltb_ℤ, leb_ℤ, eqb_ℤ}
use paper_live.Base.Dict.{Dict, get, put, string_eq}
use paper_live.Base.Text.{strip, concat}
use paper_live.Decimal
use paper_live.Decimal.{Decimal}
use paper_live.Execution.Types.{PaperAccount}
use paper_live.Risk.{PortfolioRiskContext}

pub record PositionValuation : Type 0 where
  pub symbol : String
  pub quantity : Decimal
  pub price : Decimal
  pub market : String
  pub notional : Decimal

pub record PortfolioRiskSnapshot : Type 0 where
  pub context : PortfolioRiskContext
  pub cash : Decimal
  pub cash_ratio : Decimal
  pub positions : List PositionValuation
  pub market_notionals : Dict String Decimal

-- The three variables that the loop of `build` fills.
pub record Exposure : Type 0 where
  pub valuations : List PositionValuation
  pub market_notionals : Dict String Decimal
  pub portfolio_notional : Decimal

abbrev pub no_exposure : Exposure
no_exposure = record { valuations = []; market_notionals = []; portfolio_notional = pos 0 }

-- `d.get(k, default)`
abbrev pub or_default {ℓ} : {A : Type ℓ} → Option A → A → A
or_default none d = d
or_default (some a) d = a

-- `text.strip() or "UNKNOWN"`
abbrev pub market_name : Option String → String
market_name listed =
    let name = strip (or_default listed "UNKNOWN") in if name == "" then "UNKNOWN" else name

-- One position that is held, at its price.
unfoldable pub add_position : String → Decimal → Decimal → Dict String String → Exposure → Exposure
add_position symbol quantity price markets e =
    let notional = Decimal.mul quantity price in
    let market = market_name (get symbol markets) in
    record {
      valuations =
          e.valuations
          ++ (record {
            symbol = symbol;
            quantity = quantity;
            price = price;
            market = market;
            notional = notional;
          }
              ∷ []);
      market_notionals =
          put market (Decimal.add (or_default (get market e.market_notionals) (pos 0)) notional)
            e.market_notionals;
      portfolio_notional = Decimal.add e.portfolio_notional notional;
    }

unfoldable pub price_of : String → Dict String Decimal → Result Decimal
price_of symbol prices = do
  price ←
      or_raise (get symbol prices) Kind.value_error
        (concat ("missing price for held position: " ∷ symbol ∷ []))
  raise_if (leb_ℤ price (pos 0)) Kind.value_error
      (concat ("price must be positive: " ∷ symbol ∷ []))
  ok price

-- The body of the loop.
unfoldable pub valuate :
    String → Decimal → Dict String Decimal → Dict String String → Exposure → Result Exposure
valuate symbol quantity prices markets e = do
  raise_if (ltb_ℤ quantity (pos 0)) Kind.value_error
      (concat ("position quantity must be non-negative: " ∷ symbol ∷ []))
  let priced = price_of symbol prices
  if eqb_ℤ quantity (pos 0)
      then ok e
      else priced >>= λ price. ok (add_position symbol quantity price markets e)

unfoldable pub valuate_all :
    Dict String Decimal → Dict String Decimal → Dict String String → Exposure → Result Exposure
valuate_all [] prices markets e = ok e
valuate_all ((symbol, quantity) ∷ positions) prices markets e = do
  next ← valuate symbol quantity prices markets e
  valuate_all positions prices markets next

-- The market of the target, if it is named and listed; its exposure.
abbrev listed_market : Option String → String
listed_market none = ""
listed_market (some m) = strip m

abbrev pub selected_market : Option String → Dict String String → String
selected_market none markets = ""
selected_market (some target) markets =
    if target == "" then "" else listed_market (get target markets)

abbrev pub selected_notional : String → Dict String Decimal → Decimal
selected_notional market notionals =
    if market == "" then pos 0 else or_default (get market notionals) (pos 0)

-- `build`; without `markets` the dictionary is empty.
unfoldable pub build :
    PaperAccount
    → Dict String Decimal
    → Dict String String
    → Option String
    → Result PortfolioRiskSnapshot
build account prices markets target = do
  raise_if (ltb_ℤ account.cash (pos 0)) Kind.value_error "account cash must be non-negative"
  e ← valuate_all account.positions prices markets no_exposure
  let account_value = Decimal.add account.cash e.portfolio_notional
  raise_if (leb_ℤ account_value (pos 0)) Kind.value_error "account value must be positive"
  cash_ratio ← Decimal.divide account.cash account_value
  let market = selected_market target markets
  ok (record {
    context = record {
      account_value = account_value;
      portfolio_notional = e.portfolio_notional;
      market_notional = selected_notional market e.market_notionals;
      market = market;
    };
    cash = account.cash;
    cash_ratio = cash_ratio;
    positions = e.valuations;
    market_notionals = e.market_notionals;
  })
