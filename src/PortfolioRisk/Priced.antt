-- ===== src/PortfolioRisk/Priced.antt =====
-- What a snapshot of the exposure rests on, of portfolio_risk.py.
use paper_live.Base.{
  ◌≡◌, refl, inl, inr, Bool-cases, Bool, true, false, Option, none, some, [], ◌∷◌, String, Result,
  Kind, ok, err, raise_if, arith, >>=-eq-ok, Option-cases, subst,
}
use paper_live.Base.Int.{pos, ◌≤ℤ◌, ◌<ℤ◌, ltb_ℤ, leb_ℤ, eqb_ℤ}
use paper_live.Base.Dict.{Dict, get, put_all, string_eq}
use paper_live.Decimal
use paper_live.Decimal.{Decimal}
use paper_live.Decimal.Laws.{add_nonneg, mul_nonneg}
use paper_live.Execution.Types.{PaperAccount}
use paper_live.PortfolioRisk.{
  PortfolioRiskSnapshot, Exposure, no_exposure, or_default, market_name, add_position, price_of,
  valuate, valuate_all, selected_market, selected_notional, build,
}

-- The position is not short, and one that is held has a positive price.
pub record HasPrice (symbol : String) (quantity : Decimal) (prices : Dict String Decimal)
    : Type 0 where
  pub nonneg : pos 0 ≤ℤ quantity
  pub priced :
      pos 0 <ℤ quantity → (price : Decimal) × (get symbol prices ≡ some price) × (pos 0 <ℤ price)

abbrev pub AllPriced : Dict String Decimal → Dict String Decimal → Type 0
AllPriced [] prices = Unit
AllPriced ((symbol, quantity) ∷ positions) prices =
    HasPrice symbol quantity prices × AllPriced positions prices

-- No sum is negative.
pub record IsNonneg (e : Exposure) : Type 0 where
  pub portfolio : pos 0 ≤ℤ e.portfolio_notional
  pub markets : (m : String) (x : Decimal) → get m e.market_notionals ≡ some x → pos 0 ≤ℤ x

price_of_inv :
    (symbol : String) (prices : Dict String Decimal) {price : Decimal}
    → price_of symbol prices ≡ ok price
    → (get symbol prices ≡ some price) × (pos 0 <ℤ price)
unfolding price_of
price_of_inv symbol prices h = elim (Option-cases (get symbol prices)) [
  | inl missing ↦ ground arith
  | inr (p, found) ↦ (ground arith, ground arith)
]

found_nonneg :
    (o : Option Decimal) → ((x : Decimal) → o ≡ some x → pos 0 ≤ℤ x) → pos 0 ≤ℤ or_default o (pos 0)
found_nonneg none h = omega arith
found_nonneg (some x) h = h x refl

add_position-IsNonneg :
    (symbol : String) (quantity price : Decimal) (markets : Dict String String) (e : Exposure)
    → pos 0 ≤ℤ quantity
    → pos 0 ≤ℤ price
    → IsNonneg e
    → IsNonneg (add_position symbol quantity price markets e)
unfolding add_position
add_position-IsNonneg symbol quantity price markets e q p h =
    let notional = mul_nonneg quantity price q p in
    let market = market_name (get symbol markets) in
    record {
      portfolio = add_nonneg e.portfolio_notional (Decimal.mul quantity price) h.portfolio notional;
      markets =
          put_all (λ _ x. pos 0 ≤ℤ x) market _ e.market_notionals h.markets
            (add_nonneg (or_default (get market e.market_notionals) (pos 0))
              (Decimal.mul quantity price)
              (found_nonneg (get market e.market_notionals) (h.markets market)) notional);
    }

valuate_inv :
    (symbol : String) (quantity : Decimal) (prices : Dict String Decimal)
    (markets : Dict String String) (e : Exposure) {e' : Exposure}
    → IsNonneg e
    → valuate symbol quantity prices markets e ≡ ok e'
    → HasPrice symbol quantity prices × IsNonneg e'
unfolding valuate
valuate_inv symbol quantity prices markets e {e'} h ran = by_price (price_of symbol prices) refl
  where
    by_price :
        (r : Result Decimal)
        → price_of symbol prices ≡ r
        → HasPrice symbol quantity prices × IsNonneg e'
    by_price r er = elim (Bool-cases (eqb_ℤ quantity (pos 0))) [
      | inl nothing ↦
          let same : e ≡ e' = ground (arith, ran) in
          (
            record { nonneg = ground arith; priced = λ positive. ground arith },
            subst IsNonneg same h,
          )
      | inr held ↦
          elim r
              as (λ r. price_of symbol prices ≡ r → HasPrice symbol quantity prices × IsNonneg e') [
                | err x ↦ λ failed. absurd (ground (arith, ran))
                | ok price ↦ λ found.
                    let (known, positive) = price_of_inv symbol prices found in
                    let q : pos 0 ≤ℤ quantity = ground arith in
                    let made : add_position symbol quantity price markets e ≡ e' =
                      ground (arith, ran) in
                    (
                      record { nonneg = q; priced = λ _. (price, known, positive) },
                      subst IsNonneg made
                          (add_position-IsNonneg symbol quantity price markets e q (omega arith) h),
                    )
              ]
            er
    ]

valuate_all_inv :
    (positions prices : Dict String Decimal) (markets : Dict String String) (e : Exposure)
    {e' : Exposure}
    → IsNonneg e
    → valuate_all positions prices markets e ≡ ok e'
    → AllPriced positions prices × IsNonneg e'
unfolding valuate_all
valuate_all_inv [] prices markets e h ran = (tt, subst IsNonneg (ground arith) h)
valuate_all_inv ((symbol, quantity) ∷ positions) prices markets e h ran =
    let (next, first, rest) = >>=-eq-ok (valuate symbol quantity prices markets e) _ ran in
    let (priced, fine) = valuate_inv symbol quantity prices markets e h first in
    let (others, last_fine) = valuate_all_inv positions prices markets next fine rest in
    ((priced, others), last_fine)

-- What a snapshot that is built rests on.
pub record Rests (account : PaperAccount) (prices : Dict String Decimal) (s : PortfolioRiskSnapshot)
    : Type 0 where
  pub priced : AllPriced account.positions prices
  pub cash_nonneg : pos 0 ≤ℤ account.cash
  pub notional_nonneg : pos 0 ≤ℤ s.context.portfolio_notional
  pub market_nonneg : pos 0 ≤ℤ s.context.market_notional
  pub value : s.context.account_value ≡ Decimal.add account.cash s.context.portfolio_notional
  pub value_pos : pos 0 <ℤ s.context.account_value

selected_nonneg :
    (market : String) (e : Exposure)
    → IsNonneg e
    → pos 0 ≤ℤ selected_notional market e.market_notionals
selected_nonneg market e h =
    ground (arith, found_nonneg (get market e.market_notionals) (h.markets market))

no_exposure-IsNonneg : IsNonneg no_exposure
unfolding get
no_exposure-IsNonneg = record { portfolio = omega arith; markets = λ m x e. cc }

abbrev snapshot : PaperAccount → Exposure → String → Decimal → PortfolioRiskSnapshot
snapshot account e market ratio = record {
  context = record {
    account_value = Decimal.add account.cash e.portfolio_notional;
    portfolio_notional = e.portfolio_notional;
    market_notional = selected_notional market e.market_notionals;
    market = market;
  };
  cash = account.cash;
  cash_ratio = ratio;
  positions = e.valuations;
  market_notionals = e.market_notionals;
}

snapshot-Rests :
    (account : PaperAccount) (prices : Dict String Decimal) (e : Exposure) (market : String)
    (ratio : Decimal) {s : PortfolioRiskSnapshot}
    → ltb_ℤ account.cash (pos 0) ≡ false
    → AllPriced account.positions prices
    → IsNonneg e
    → leb_ℤ (Decimal.add account.cash e.portfolio_notional) (pos 0) ≡ false
    → ok (snapshot account e market ratio) ≡ ok s
    → Rests account prices s
snapshot-Rests account prices e market ratio {s} cash priced fine positive made =
    let same : snapshot account e market ratio ≡ s = ground (arith, made) in
    subst (Rests account prices) same (record {
      priced = priced;
      cash_nonneg = ground arith;
      notional_nonneg = fine.portfolio;
      market_nonneg = selected_nonneg market e fine;
      value = refl;
      value_pos = ground arith;
    })

raise_if-ok : (b : Bool) (k : Kind) (m : String) {u : Unit {0}} → raise_if b k m ≡ ok u → b ≡ false
raise_if-ok true k m h = absurd (ground arith)
raise_if-ok false k m h = refl

-- A snapshot is built only if the cash is not negative, no position is short, and every position
-- that is held has a positive price; its exposures are then not negative, and its account value,
-- the cash and the portfolio's notional together, is positive.
pub build-Rests :
    (account : PaperAccount) (prices : Dict String Decimal) (markets : Dict String String)
    (target : Option String) {s : PortfolioRiskSnapshot}
    → build account prices markets target ≡ ok s
    → Rests account prices s
unfolding build
build-Rests account prices markets target {s} ran =
    let (_, checked, rest) = >>=-eq-ok (raise_if (ltb_ℤ account.cash (pos 0)) _ _) _ ran in
    let (e, valued, rest₁) =
      >>=-eq-ok (valuate_all account.positions prices markets no_exposure) _ rest in
    let (priced, fine) =
      valuate_all_inv account.positions prices markets no_exposure no_exposure-IsNonneg valued in
    let (_, positive, rest₂) =
      >>=-eq-ok (raise_if (leb_ℤ (Decimal.add account.cash e.portfolio_notional) (pos 0)) _ _) _
        rest₁ in
    let (ratio, _, made) = >>=-eq-ok (Decimal.divide account.cash _) _ rest₂ in
    snapshot-Rests account prices e (selected_market target markets) ratio
      (raise_if-ok _ _ _ checked) priced fine (raise_if-ok _ _ _ positive) made
