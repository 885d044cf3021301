-- ===== src/TradeFacade/Preflight.antt =====
-- What a revalidation of a row leaves alone, and what it finds, of trade_facade.py.
pub mod Vetted
pub mod Fair
mod Tests
use paper_live.Base.{
  ◌+◌, if◌then◌else◌, Bool-cases, ◌∙◌, Kind, raise_if, ◌==◌, Option-cases, inl, inr, ℕ, suc, ◌≤◌,
  ◌≡◌, refl, sym, subst, ap, Bool, true, false, not, Option, none, some, List, [], ◌∷◌, String,
  length, Result, ok, err, is_ok, arith, >>=-eq-ok, ◌>>=◌,
}
use mathlib.Core.Path.{subst₂}
use paper_live.Base.Dict.{Dict, get, string_eq}
use paper_live.Base.Text.{strip}
use paper_live.Base.Int.{pos, ◌<ℤ◌, ltb_ℤ}
use paper_live.Base.Exec.{
  Exec, pure, lift, Keeps, Keeps-bind, Keeps-within, Keeps-modify, Keeps-pure, Keeps-gets,
  Keeps-lift, Keeps-known, Yields, Yields-lift, keeps_rules,
}
use paper_live.Base.Yields.{
  All, Yields-bind, Yields-known, Yields-pure, Yields-gets, Yields-attempt, Yields-if,
}
use paper_live.Decimal.{Decimal}
use paper_live.Execution.Types.{PaperOrder, PaperAccount}
use paper_live.Execution.Gateway.{Gateway}
use paper_live.Risk.{PortfolioRiskContext}
use paper_live.Risk.Portfolio.{PortfolioWithin, approve_portfolio-PortfolioWithin}
use paper_live.PortfolioRisk
use paper_live.Audit.Preflight.{row_symbol}
use paper_live.PortfolioRisk.{PortfolioRiskSnapshot, or_default}
use paper_live.Audit.{AuditRecord, AuditTrail}
use paper_live.TradeFacade.Types.{
  OrderIntent, OrderPreview, PortfolioRow, PortfolioRevalidation, PortfolioPreflightResult,
}
use paper_live.TradeFacade.Assess.{assess_risk, to_paper_order, approve_with}
use paper_live.TradeFacade.Calls.{TradeFacade, with_trail, preview}
use paper_live.TradeFacade.Sound.{assessed_ok}
use paper_live.TradeFacade.Terms.{
  Terms, Fresh, row_intent, latest_price, revalidated, Outcome, judged, judge, Verdicts,
  add_outcome,
}
use paper_live.TradeFacade.Revalidate.{
  AuditInputs, open_preview, revalidate_portfolio_row, preflight_row, preflight_rows,
  audit_preflight, preflight_portfolio,
}

latest_price-listed :
    (symbol : String) (prices : Dict String Decimal) {price : Decimal}
    → latest_price symbol prices ≡ ok price
    → (get symbol prices ≡ some price) × (ltb_ℤ (pos 0) price ≡ true)
unfolding latest_price
latest_price-listed symbol prices found = elim (Option-cases (get symbol prices)) [
  | inl missing ↦ absurd (ground (arith, missing))
  | inr (p, listed) ↦ (ground (arith, listed), ground (arith, listed))
]

-- A symbol that is not blank is there.
symbol-there :
    (symbol : Option String)
    → (strip (or_default symbol "") == "") ≡ false
    → (name : String) × (symbol ≡ some name)
unfolding strip
symbol-there none h = absurd (ground (arith, h))
symbol-there (some name) h = (name, refl)

-- What a revalidation finds for a row: its symbol's latest price, which is positive, and the intent
-- of the row at that price, if there is one.
pub record Quoted (t : Terms) (row : PortfolioRow) (account : PaperAccount) (price : Decimal)
    (snapshot : PortfolioRiskSnapshot) (intent : Option OrderIntent) : Type 0 where
  pub name : String
  pub named : row.symbol ≡ some name
  pub listed : get (strip name) t.latest_prices ≡ some price
  pub positive : ltb_ℤ (pos 0) price ≡ true
  pub sized :
      row_intent t (record row { close = some (t.print price) }) snapshot account ≡ ok intent

revalidated-Quoted :
    (t : Terms) (row : PortfolioRow) (account : PaperAccount)
    {found : Decimal × PortfolioRiskSnapshot × Option OrderIntent}
    → revalidated t row account ≡ ok found
    → Quoted t row account found.0 found.1 found.2
unfolding revalidated
revalidated-Quoted t row account {found} made =
    let (_, present, rest) =
      >>=-eq-ok
        (raise_if (row_symbol row == "") Kind.value_error "portfolio row symbol is required") _
        made in
    let (price, at, rest') = >>=-eq-ok (latest_price (row_symbol row) t.latest_prices) _ rest in
    let (snapshot, _, rest'') =
      >>=-eq-ok (PortfolioRisk.build account t.latest_prices t.markets (some (row_symbol row))) _
        rest' in
    let (intent, sized, done) =
      >>=-eq-ok (row_intent t (record row { close = some (t.print price) }) snapshot account) _
        rest'' in
    let (name, named) = symbol-there row.symbol (ground (arith, present)) in
    let (listed, positive) = latest_price-listed (row_symbol row) t.latest_prices at in
    let here : Quoted t row account price snapshot intent = record {
      name = name;
      named = named;
      listed = ground (arith, listed, named);
      positive = positive;
      sized = sized;
    } in
    subst
      (λ (x : Decimal × PortfolioRiskSnapshot × Option OrderIntent).
        Quoted t row account x.0 x.1 x.2)
      (ground (arith, done)) here

module _ {World Storage : Type 0} where
  -- The gateway, the guardian and the brokers' world are those of `start`.
  pub record Agrees (start f : TradeFacade World Storage) : Type 0 where
    pub gateway : f.gateway ≡ start.gateway
    pub risk : f.risk ≡ start.risk
    pub world : f.world ≡ start.world

  -- A preview of the intent, with the guardian's assessment of it.
  record Previewed (start : TradeFacade World Storage) (fresh : String) (intent : OrderIntent)
      (price : Decimal) (context : PortfolioRiskContext) (made : OrderPreview) : Type 0 where
    same : made.intent ≡ intent
    found : assess_risk fresh intent price (some context) start.gateway start.risk ≡ ok made.risk

  preview-Previewed :
      (start : TradeFacade World Storage) (fresh preview_id : String) (intent : OrderIntent)
      (price : Decimal) (context : PortfolioRiskContext)
      → ltb_ℤ (pos 0) price ≡ true
      → Yields
          (Agrees start)
          (Previewed start fresh intent price context)
          (preview fresh preview_id intent price (some context))
  unfolding preview
  preview-Previewed start fresh preview_id intent price context positive =
      Yields-bind _ _ (Keeps-lift _) (λ _. Yields-bind _ _ (Keeps-lift _) (λ _.
        Yields-known (Agrees start) _ _ (Yields-gets _ (λ f h. h)) (λ f here.
          Yields-known
            (λ risk.
              assess_risk fresh intent price (some context) start.gateway start.risk ≡ ok risk)
            _ _
            (Yields-lift _ (λ risk found. ground (arith, found, positive, here.gateway, here.risk)))
            (λ risk found.
              Yields-bind _ _
                (Keeps-modify _ _
                  (λ f h. record { gateway = h.gateway; risk = h.risk; world = h.world }))
                (λ _. Yields-pure _ (record { same = refl; found = found }))))))

  -- What a revalidation that has an intent and a preview holds.
  pub record Checked (start : TradeFacade World Storage) (t : Terms) (u : Fresh)
      (row : PortfolioRow) (r : PortfolioRevalidation) (intent : OrderIntent) (made : OrderPreview)
      : Type 0 where
    pub price : Decimal
    pub quoted : Quoted t row (t.account start.gateway) price r.snapshot (some intent)
    pub same : made.intent ≡ intent
    pub found :
        assess_risk u.client_id intent price (some r.snapshot.context) start.gateway start.risk
        ≡ ok made.risk

  open_preview-Previewed :
      (start : TradeFacade World Storage) (u : Fresh) (price : Decimal)
      (snapshot : PortfolioRiskSnapshot) (intent : Option OrderIntent)
      → ltb_ℤ (pos 0) price ≡ true
      → Yields
          (Agrees start)
          (λ (answer : Option OrderPreview).
            (i : OrderIntent) (made : OrderPreview)
            → intent ≡ some i
            → answer ≡ some made
            → Previewed start u.client_id i price snapshot.context made)
          (open_preview u price snapshot intent)
  unfolding open_preview
  open_preview-Previewed start u price snapshot none positive =
      Yields-pure _ (λ i made has _. absurd (ground (arith, has)))
  open_preview-Previewed start u price snapshot (some intent) positive =
      Yields-known (Previewed start u.client_id intent price snapshot.context) _ _
        (preview-Previewed start u.client_id u.preview_id intent price snapshot.context positive)
        (λ made known. Yields-pure _ (λ i m has is.
          let p : intent ≡ i = ground (arith, has) in
          let q : made ≡ m = ground (arith, is) in
          subst₂ (λ i m. Previewed start u.client_id i price snapshot.context m) p q known))

  pub revalidate-Checked :
      (start : TradeFacade World Storage) (t : Terms) (u : Fresh) (row : PortfolioRow)
      → Yields
          (Agrees start)
          (λ (r : PortfolioRevalidation).
            (i : OrderIntent) (made : OrderPreview)
            → r.intent ≡ some i
            → r.preview ≡ some made
            → Checked start t u row r i made)
          (revalidate_portfolio_row t u row)
  unfolding revalidate_portfolio_row
  revalidate-Checked start t u row =
      Yields-known (λ account. account ≡ t.account start.gateway) _ _
        (Yields-gets _ (λ f h. ap t.account h.gateway))
        (λ account own.
          Yields-known
            (λ (found : Decimal × PortfolioRiskSnapshot × Option OrderIntent).
              Quoted t row account found.0 found.1 found.2)
            _ _ (Yields-lift _ (λ found made. revalidated-Quoted t row account made))
            (λ found known.
              Yields-known
                (λ (answer : Option OrderPreview).
                  (i : OrderIntent) (made : OrderPreview)
                  → found.2 ≡ some i
                  → answer ≡ some made
                  → Previewed start u.client_id i found.0 found.1.context made)
                _ _ (open_preview-Previewed start u found.0 found.1 found.2 known.positive)
                (λ answer previewed. Yields-pure _ (λ i made has is.
                  let p = previewed i made has is in
                  record {
                    price = found.0;
                    quoted =
                        subst₂ (λ account intent. Quoted t row account found.0 found.1 intent) own
                          has known;
                    same = p.same;
                    found = p.found;
                  }))))
