-- ===== src/TradeFacade/Preflight/Fair.antt =====
-- What a preflight of a target portfolio approves, of trade_facade.py.
use paper_live.Base.{
  ◌+◌, if◌then◌else◌, ℕ, suc, ◌≤◌, ◌≡◌, refl, false, Option, none, some, List, [], ◌∷◌, String,
  length, arith,
}
use mathlib.Core.List.{Mem, mem-cons_self, mem-cons_of_mem}
use paper_live.Base.Dict.{string_eq}
use paper_live.Base.Exec.{Exec, Keeps, Keeps-within, Keeps-pure, Keeps-gets, Yields}
use paper_live.Base.Yields.{All, Yields-bind, Yields-known, Yields-pure}
use paper_live.Audit.{AuditRecord, AuditTrail}
use paper_live.TradeFacade.Types.{PortfolioRow, PortfolioRevalidation, PortfolioPreflightResult}
use paper_live.TradeFacade.Calls.{TradeFacade, with_trail}
use paper_live.TradeFacade.Terms.{Terms, Fresh, Outcome, Verdicts, add_outcome}
use paper_live.TradeFacade.Revalidate.{
  AuditInputs, preflight_rows, audit_preflight, preflight_portfolio,
}
use paper_live.TradeFacade.Preflight.{Agrees}
use paper_live.TradeFacade.Preflight.Vetted.{Vetted, preflight_row-Vetted}

-- How many rows are selected.
abbrev pub selected_rows : List PortfolioRow → ℕ
selected_rows [] = 0
selected_rows (row ∷ rows) =
    let rest = selected_rows rows in if row.portfolio_selected then suc rest else rest

module _ {World Storage : Type 0} where
  -- An item that is vetted for some row of the portfolio.
  abbrev pub VettedIn :
      TradeFacade World Storage → Terms → List PortfolioRow → PortfolioRevalidation → Type 0
  VettedIn start t rows r = (row : PortfolioRow) × Mem row rows × Vetted start t row r

  -- The verdicts on the rows: only what is vetted is approved, and no row is told of twice.
  abbrev FairVerdicts : TradeFacade World Storage → Terms → List PortfolioRow → Verdicts → Type 0
  FairVerdicts start t rows v =
      All (VettedIn start t rows) v.0 × (length v.0 + length v.1 ≤ selected_rows rows)

  later-VettedIn :
      (start : TradeFacade World Storage) (t : Terms) (row : PortfolioRow)
      (rows : List PortfolioRow) (l : List PortfolioRevalidation)
      → All (VettedIn start t rows) l
      → All (VettedIn start t (row ∷ rows)) l
  later-VettedIn start t row rows [] all = tt
  later-VettedIn start t row rows (r ∷ l) ((of, among, vetted), all) =
      ((of, mem-cons_of_mem row among, vetted), later-VettedIn start t row rows l all)

  add_outcome-FairVerdicts :
      (start : TradeFacade World Storage) (t : Terms) (row : PortfolioRow)
      (rows : List PortfolioRow) (outcome : Outcome) (rest : Verdicts)
      → ((x : PortfolioRevalidation) → outcome ≡ Outcome.approve x → Vetted start t row x)
      → (row.portfolio_selected ≡ false → outcome ≡ Outcome.passed_over)
      → FairVerdicts start t rows rest
      → FairVerdicts start t (row ∷ rows) (add_outcome row outcome rest)
  add_outcome-FairVerdicts start t row rows Outcome.passed_over (approved, rejected) vetted skips
        fair =
      (later-VettedIn start t row rows approved fair.0, ground (arith, fair.1))
  add_outcome-FairVerdicts start t row rows (Outcome.approve x) (approved, rejected) vetted skips
        fair =
      (
        ((row, mem-cons_self, vetted x refl), later-VettedIn start t row rows approved fair.0),
        ground (arith, fair.1, skips),
      )
  add_outcome-FairVerdicts start t row rows (Outcome.reject why) (approved, rejected) vetted skips
        fair =
      (later-VettedIn start t row rows approved fair.0, ground (arith, fair.1, skips))

  preflight_rows-FairVerdicts :
      (start : TradeFacade World Storage) (t : Terms) (u : ℕ → Fresh) (n : ℕ)
      (rows : List PortfolioRow)
      → Yields (Agrees start) (FairVerdicts start t rows) (preflight_rows t u n rows)
  unfolding preflight_rows
  preflight_rows-FairVerdicts start t u n [] = Yields-pure _ (tt, ground arith)
  preflight_rows-FairVerdicts start t u n (row ∷ rows) =
      Yields-known _ _ _ (preflight_row-Vetted start t (u n) row) (λ outcome said.
        Yields-known (FairVerdicts start t rows) _ _
          (preflight_rows-FairVerdicts start t u (suc n) rows)
          (λ rest fair.
            Yields-pure _
              (add_outcome-FairVerdicts start t row rows outcome rest said.0 said.1 fair)))

  audit_preflight-Agrees :
      (start : TradeFacade World Storage) (trail : Option (AuditTrail Storage))
      (call : Exec (AuditTrail Storage) (List AuditRecord))
      → Keeps (Agrees start) (audit_preflight trail call)
  unfolding audit_preflight
  audit_preflight-Agrees start none call = Keeps-pure []
  audit_preflight-Agrees start (some trail) call =
      Keeps-within _ _ with_trail call
        (λ f s h. record { gateway = h.gateway; risk = h.risk; world = h.world })

  -- What a preflight that returns tells: it checked every row, approved only what is vetted, and
  -- told of no row twice.
  pub record Fair (start : TradeFacade World Storage) (t : Terms) (rows : List PortfolioRow)
      (result : PortfolioPreflightResult) : Type 0 where
    pub checked : result.rows_checked ≡ length rows
    pub vetted : All (VettedIn start t rows) result.approved
    pub once : length result.approved + length result.rejected ≤ selected_rows rows

  -- A preflight of a portfolio submits nothing: the gateway with its account and orders, the
  -- guardian and the brokers' world are as they were, whether it returns or raises. When it
  -- returns, it counted every row, told of at most as many as are selected, and each item that it
  -- approved is that of a selected row among them: the intent is the row's, sized at the latest
  -- price of the row's own symbol, the preview of that intent is approved, and the order for it is
  -- one for that symbol and keeps at that price to every limit of the guardian against the gateway's
  -- account.
  pub preflight_portfolio-Fair :
      (t : Terms) (u : ℕ → Fresh) (a : AuditInputs) (rows : List PortfolioRow)
      (recommendation_run_id run_manifest_id : Option String) (start : TradeFacade World Storage)
      → Yields
          (Agrees start)
          (Fair start t rows)
          (preflight_portfolio t u a rows recommendation_run_id run_manifest_id)
  unfolding preflight_portfolio
  preflight_portfolio-Fair t u a rows recommendation_run_id run_manifest_id start =
      Yields-known (FairVerdicts start t rows) _ _ (preflight_rows-FairVerdicts start t u 0 rows)
        (λ verdicts fair. Yields-bind _ _ (Keeps-gets _) (λ trail.
          Yields-bind _ _ (audit_preflight-Agrees start trail _)
            (λ records. Yields-pure _ (record { checked = refl; vetted = fair.0; once = fair.1 }))))
