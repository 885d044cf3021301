-- ===== src/TradeFacade/Revalidate.antt =====
-- The calls of trade_facade.py that check the rows of a target portfolio against the latest account
-- and prices, and submit them.
use paper_live.Base.{
  ℕ, suc, not, Option, none, some, List, [], ◌∷◌, String, ◌==◌, length, Kind, or_raise, is_some,
  if◌then◌else◌,
}
use paper_live.Base.Int.{pos}
use paper_live.Base.Dict.{Dict, get, string_eq}
use paper_live.Base.Exec.{Exec, pure, lift, gets, within, attempt, ◌>>=◌}
use paper_live.Decimal.{Decimal}
use paper_live.Environment.{mode_value}
use paper_live.PortfolioRisk
use paper_live.PortfolioRisk.{PortfolioRiskSnapshot, or_default}
use paper_live.RunManifest.{Value}
use paper_live.Audit.{AuditRecord, AuditTrail}
use paper_live.Audit.Calls.{Payload, Origin}
use paper_live.Audit.Preflight.{PreflightPayload, row_symbol, record_preflight}
use paper_live.TradeFacade.Types.{
  OrderIntent, OrderPreview, PortfolioRow, PortfolioRevalidation, PortfolioPreflightResult,
}
use paper_live.TradeFacade.Calls.{TradeFacade, with_trail, preview}
use paper_live.TradeFacade.Terms.{
  Terms, Fresh, revalidated, row_intent, Outcome, judge, Verdicts, add_outcome, target_weight,
  row_submission,
}
use paper_live.TradeFacade.Submit.{Answer, submit}

module _ {World Storage : Type 0} where
  unfoldable pub open_preview :
      Fresh
      → Decimal
      → PortfolioRiskSnapshot
      → Option OrderIntent
      → Exec (TradeFacade World Storage) (Option OrderPreview)
  open_preview u price snapshot none = pure none
  open_preview u price snapshot (some intent) = do
    made ← preview u.client_id u.preview_id intent price (some snapshot.context)
    pure (some made)

  -- The reference price is 0 for a symbol without a price.
  unfoldable pub preview_portfolio_row :
      Terms → Fresh → PortfolioRow → Exec (TradeFacade World Storage) (Option OrderPreview)
  preview_portfolio_row t u row = do
    account ← gets (λ f. t.account f.gateway)
    snapshot ← lift (PortfolioRisk.build account t.latest_prices t.markets (some (row_symbol row)))
    intent ← lift (row_intent t row snapshot account)
    open_preview u (or_default (get (row_symbol row) t.latest_prices) (pos 0)) snapshot intent

  unfoldable pub revalidate_portfolio_row :
      Terms → Fresh → PortfolioRow → Exec (TradeFacade World Storage) PortfolioRevalidation
  revalidate_portfolio_row t u row = do
    account ← gets (λ f. t.account f.gateway)
    (price, snapshot, intent) ← lift (revalidated t row account)
    made ← open_preview u price snapshot intent
    pure (record { snapshot = snapshot; intent = intent; preview = made })

module _ {World Storage : Type 0} where
  unfoldable pub preflight_row :
      Terms → Fresh → PortfolioRow → Exec (TradeFacade World Storage) Outcome
  preflight_row t u row =
      if not row.portfolio_selected
      then pure Outcome.passed_over
      else (do r ← attempt (revalidate_portfolio_row t u row); lift (judge r))

  -- The loop over the rows; `u n` is what `uuid4` gives at the row of that place.
  unfoldable pub preflight_rows :
      Terms → (ℕ → Fresh) → ℕ → List PortfolioRow → Exec (TradeFacade World Storage) Verdicts
  preflight_rows t u n [] = pure ([], [])
  preflight_rows t u n (row ∷ rows) = do
    outcome ← preflight_row t (u n) row
    rest ← preflight_rows t u (suc n) rows
    pure (add_outcome row outcome rest)

  unfoldable pub audit_preflight :
      Option (AuditTrail Storage)
      → Exec (AuditTrail Storage) (List AuditRecord)
      → Exec (TradeFacade World Storage) (List AuditRecord)
  audit_preflight none call = pure []
  audit_preflight (some trail) call = within (λ f. trail) with_trail call

-- The digests and the clock of a preflight's audit.
pub record AuditInputs : Type 0 where
  pub digest : PreflightPayload → String
  pub checksum : List AuditRecord → String
  pub clock : ℕ → ℕ

-- `a or b`
abbrev pub or_else : Option String → Option String → Option String
or_else none b = b
or_else (some a) b = if a == "" then b else some a

module _ {World Storage : Type 0} where
  unfoldable pub preflight_portfolio :
      Terms
      → (ℕ → Fresh)
      → AuditInputs
      → List PortfolioRow
      → Option String
      → Option String
      → Exec (TradeFacade World Storage) PortfolioPreflightResult
  preflight_portfolio t u a rows recommendation_run_id run_manifest_id = do
    (approved, rejected) ← preflight_rows t u 0 rows
    let result : PortfolioPreflightResult = record {
      rows_checked = length rows;
      approved = approved;
      rejected = rejected;
    }
    trail ← gets (λ f. f.audit_trail)
    records ← audit_preflight trail (
        record_preflight a.digest a.checksum a.clock rows result
          (or_else run_manifest_id recommendation_run_id))
    pure result

-- What `submit` takes from outside: the digest, a fresh id and three readings of the clock.
pub record SubmitInputs : Type 0 where
  pub digest : Payload → String
  pub fresh : String
  pub created : ℕ
  pub now : ℕ
  pub later : ℕ

module _ {World Storage : Type 0} where
  unfoldable pub submit_revalidated :
      Terms
      → SubmitInputs
      → PortfolioRow
      → Option String
      → Origin
      → PortfolioRevalidation
      → Option OrderIntent
      → Exec (TradeFacade World Storage) (Option Answer)
  submit_revalidated t i row approval_id origin r none = pure none
  submit_revalidated t i row approval_id origin r (some intent) = do
    weight ← lift (target_weight t row)
    price ← lift (or_raise (get intent.symbol t.latest_prices) Kind.key_error intent.symbol)
    answer ←
        submit i.digest i.fresh i.created i.now i.later
          (row_submission r intent price approval_id origin weight)
    pure (some answer)

  unfoldable pub submit_portfolio_row_revalidated :
      Terms
      → Fresh
      → SubmitInputs
      → PortfolioRow
      → Option String
      → Origin
      → Exec (TradeFacade World Storage) (Option Answer)
  submit_portfolio_row_revalidated t u i row approval_id origin = do
    r ← revalidate_portfolio_row t u row
    submit_revalidated t i row approval_id origin r r.intent

  -- `snapshot`, with the values of its dictionary.
  unfoldable pub snapshot : TradeFacade World Storage → Dict String Value
  snapshot f =
      ("mode", Value.text (mode_value f.gateway.controller.mode))
      ∷ ("has_broker_router", Value.flag (is_some f.broker_router))
      ∷ ("has_secret_broker", Value.flag (is_some f.secret_broker))
      ∷ ("has_order_approval_gate", Value.flag (is_some f.order_approval_gate))
      ∷ ("has_audit_trail", Value.flag (is_some f.audit_trail))
      ∷ ("open_previews", Value.count (length f.previews))
      ∷ []
