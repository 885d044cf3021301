-- ===== src/TradeFacade/Preflight/Vetted.antt =====
-- What a preflight says of one row of a target portfolio, of trade_facade.py.
use paper_live.Base.{
  Bool-cases, ◌∙◌, Option-cases, inl, inr, ◌≡◌, refl, subst, ap, true, false, not, some, String,
  Result, ok, err, arith, >>=-eq-ok,
}
use paper_live.Base.Dict.{get, string_eq}
use paper_live.Base.Int.{pos, ◌<ℤ◌}
use paper_live.Base.Text.{strip}
use paper_live.Base.Exec.{Yields, Yields-lift}
use paper_live.Base.Yields.{Yields-known, Yields-pure, Yields-attempt, Yields-if}
use paper_live.Decimal.{Decimal}
use paper_live.Execution.Types.{PaperOrder, PaperAccount}
use paper_live.Execution.Engine.{held}
use paper_live.PortfolioRisk.{PortfolioRiskSnapshot, or_default}
use paper_live.TradeFacade.Rows.Sizes.{intent_from_portfolio_row-symbol}
use paper_live.Risk.Portfolio.{PortfolioWithin, approve_portfolio-PortfolioWithin}
use paper_live.Audit.Preflight.{row_symbol}
use paper_live.TradeFacade.Types.{
  normalized_side, normalized_order_type, OrderIntent, OrderPreview, PortfolioRow,
  PortfolioRevalidation,
}
use paper_live.TradeFacade.Assess.{assess_risk, to_paper_order, approve_with}
use paper_live.TradeFacade.Calls.{TradeFacade}
use paper_live.TradeFacade.Sound.{assessed_ok}
use paper_live.TradeFacade.Terms.{Terms, Fresh, row_intent, Outcome, judged, judge}
use paper_live.TradeFacade.Revalidate.{preflight_row}
use paper_live.TradeFacade.Preflight.{Agrees, Checked, revalidate-Checked}

row_intent-symbol :
    (t : Terms) (row : PortfolioRow) (snapshot : PortfolioRiskSnapshot) (account : PaperAccount)
    {intent : OrderIntent} {name : String}
    → row_intent t row snapshot account ≡ ok (some intent)
    → row.symbol ≡ some name
    → intent.symbol ≡ strip name
unfolding row_intent
row_intent-symbol t row snapshot account {intent} sized named =
    intent_from_portfolio_row-symbol t.parse row snapshot.context.account_value
      (held (row_symbol row) account) t.broker t.order_type t.lot_size {intent = intent} sized
    ∙ ap (λ s. strip (or_default s "")) named

to_paper_order-symbol :
    (fresh : String) (intent : OrderIntent) {order : PaperOrder}
    → to_paper_order fresh intent ≡ ok order
    → order.symbol ≡ intent.symbol
unfolding to_paper_order
to_paper_order-symbol fresh intent made =
    let (_, _, rest) = >>=-eq-ok (normalized_side intent) _ made in
    let (_, _, done) = >>=-eq-ok (normalized_order_type intent) _ rest in ground (arith, done)

module _ {World Storage : Type 0} where
  -- An item that a preflight approves for a row: the row is selected and has a symbol; the item's
  -- intent is the row's, sized at the latest price of that symbol, its preview is approved, and its
  -- order is for that symbol and keeps at that price to every limit of the guardian against the
  -- gateway's account.
  pub record Vetted (start : TradeFacade World Storage) (t : Terms) (row : PortfolioRow)
      (r : PortfolioRevalidation) : Type 0 where
    pub name : String
    pub fresh : String
    pub price : Decimal
    pub intent : OrderIntent
    pub made : OrderPreview
    pub order : PaperOrder
    pub selected : row.portfolio_selected ≡ true
    pub named : row.symbol ≡ some name
    pub listed : get (strip name) t.latest_prices ≡ some price
    pub positive : pos 0 <ℤ price
    pub sized :
        row_intent t
          (record row { close = some (t.print price) })
          r.snapshot
          (t.account start.gateway)
        ≡ ok (some intent)
    pub has_intent : r.intent ≡ some intent
    pub has_preview : r.preview ≡ some made
    pub same : made.intent ≡ intent
    pub approved : made.risk.approved ≡ true
    pub as_order : to_paper_order fresh intent ≡ ok order
    pub ordered : order.symbol ≡ strip name
    pub within :
        PortfolioWithin order price r.snapshot.context start.gateway.paper.account start.risk

  Checked-Vetted :
      (start : TradeFacade World Storage) (t : Terms) (u : Fresh) (row : PortfolioRow)
      (r : PortfolioRevalidation) (intent : OrderIntent) (made : OrderPreview)
      → row.portfolio_selected ≡ true
      → r.intent ≡ some intent
      → r.preview ≡ some made
      → made.risk.approved ≡ true
      → Checked start t u row r intent made
      → Vetted start t row r
  unfolding assess_risk approve_with
  Checked-Vetted start t u row r intent made selected has is approved c =
      let (order, as_order, rest) = >>=-eq-ok (to_paper_order u.client_id intent) _ c.found in
      let quoted = c.quoted in
      record {
        name = quoted.name;
        fresh = u.client_id;
        price = c.price;
        intent = intent;
        made = made;
        order = order;
        selected = selected;
        named = quoted.named;
        listed = quoted.listed;
        positive = ground (arith, quoted.positive);
        sized = quoted.sized;
        has_intent = has;
        has_preview = is;
        same = c.same;
        approved = approved;
        as_order = as_order;
        ordered =
            to_paper_order-symbol u.client_id intent as_order
            ∙ row_intent-symbol t (record row { close = some (t.print c.price) }) r.snapshot
                (t.account start.gateway) quoted.sized quoted.named;
        within =
            approve_portfolio-PortfolioWithin order c.price r.snapshot.context
              start.gateway.controller start.gateway.paper.account start.risk
              (assessed_ok
                (approve_with order c.price (some r.snapshot.context) start.gateway start.risk) rest
                approved);
      }

  judged-Vetted :
      (start : TradeFacade World Storage) (t : Terms) (u : Fresh) (row : PortfolioRow)
      (r x : PortfolioRevalidation)
      → row.portfolio_selected ≡ true
      → ((i : OrderIntent) (made : OrderPreview)
          → r.intent ≡ some i
          → r.preview ≡ some made
          → Checked start t u row r i made)
      → judged r ≡ Outcome.approve x
      → Vetted start t row x
  judged-Vetted start t u row r x selected checked e = elim (Option-cases r.intent) [
    | inl missing ↦ absurd (ground (arith, e, missing))
    | inr (i, has) ↦ elim (Option-cases r.preview) [
      | inl missing ↦ absurd (ground (arith, e, has, missing))
      | inr (made, is) ↦ elim (Bool-cases made.risk.approved) [
        | inl vetted ↦
            let same : r ≡ x = ground (arith, e, has, is, vetted) in
            subst (Vetted start t row) same
              (Checked-Vetted start t u row r i made selected has is vetted (checked i made has is))
        | inr unapproved ↦ absurd (ground (arith, e, has, is, unapproved))
      ]
    ]
  ]

  judge-Vetted :
      (start : TradeFacade World Storage) (t : Terms) (u : Fresh) (row : PortfolioRow)
      (answer : Result PortfolioRevalidation) (x : PortfolioRevalidation)
      → row.portfolio_selected ≡ true
      → ((r : PortfolioRevalidation)
          → answer ≡ ok r
          → (i : OrderIntent) (made : OrderPreview) → r.intent ≡ some i
          → r.preview ≡ some made
          → Checked start t u row r i made)
      → judge answer ≡ ok (Outcome.approve x)
      → Vetted start t row x
  unfolding judge
  judge-Vetted start t u row (ok r) x selected checked e =
      let said : judged r ≡ Outcome.approve x = ground (arith, e) in
      judged-Vetted start t u row r x selected (checked r refl) said
  judge-Vetted start t u row (err thrown) x selected checked e = absurd (ground (arith, e))

  -- What the loop's body says of one row.
  pub preflight_row-Vetted :
      (start : TradeFacade World Storage) (t : Terms) (u : Fresh) (row : PortfolioRow)
      → Yields
          (Agrees start)
          (λ outcome.
            ((x : PortfolioRevalidation) → outcome ≡ Outcome.approve x → Vetted start t row x)
            × ((row.portfolio_selected ≡ false) → outcome ≡ Outcome.passed_over))
          (preflight_row t u row)
  unfolding preflight_row
  preflight_row-Vetted start t u row =
      Yields-if (not row.portfolio_selected) _ _
        (λ skipped. Yields-pure _ (λ x e. absurd (ground (arith, e)), λ _. refl))
        (λ kept.
          Yields-known
            (λ (r : Result PortfolioRevalidation).
              (a : PortfolioRevalidation)
              → r ≡ ok a
              → (i : OrderIntent) (made : OrderPreview) → a.intent ≡ some i
              → a.preview ≡ some made
              → Checked start t u row a i made)
            _ _ (Yields-attempt _ (revalidate-Checked start t u row))
            (λ r checked. Yields-lift _ (λ outcome judged_so. (
              λ x e.
                  judge-Vetted start t u row r x (ground (arith, kept)) checked
                    (judged_so ∙ ap ok e),
              λ unselected. absurd (ground (arith, kept, unselected)),
            ))))
