-- ===== src/PaperExecution/Booking.antt =====
-- What paper_execution.py does with one fill: the ledger, the audit trail and the episode.
use paper_live.Base.{
  ℕ, Bool, ◌||◌, ◌&&◌, not, Option, none, some, List, [], ◌∷◌, ◌++◌, String, ◌==◌, Result, Kind, ok,
  err, or_raise, if◌then◌else◌,
}
use paper_live.Base.Int.{pos, ltb_ℤ, leb_ℤ}
use paper_live.Base.Dict.{Dict, get, string_eq}
use paper_live.Base.Text.{concat}
use paper_live.Base.Exec.{Exec, pure, lift, gets, modify, zoom, within, attempt, ◌>>=◌, ◌>>◌}
use paper_live.Decimal.{Decimal}
use paper_live.Execution.Types.{OrderSide, side_value, Fill}
use paper_live.Pnl
use paper_live.Pnl.{Side}
use paper_live.RunManifest.{Value}
use paper_live.Audit.{AuditRecord, AuditTrail}
use paper_live.Audit.Calls.{optional_text, record_pnl, record_reflection}
use paper_live.PaperExecution.{
  TradeEpisode, StageRow, Orchestrator, with_ledger, with_files, active_trail, on_active,
}

-- The lists that the loop of `execute` fills.
pub record Collected : Type 0 where
  pub fills : List Fill
  pub pnl_audits : List String
  pub episodes : List String
  pub fill_rows : List StageRow
  pub pnl_rows : List StageRow
  pub reflection_rows : List StageRow

abbrev pub nothing_collected : Collected
nothing_collected = record {
  fills = [];
  pnl_audits = [];
  episodes = [];
  fill_rows = [];
  pnl_rows = [];
  reflection_rows = [];
}

-- The orchestrator and the variables of a call of `execute`.
pub record Run (World Storage Files : Type 0) : Type 0 where
  pub desk : Orchestrator World Storage Files
  pub collected : Collected

-- `f"{run_manifest_id}"`, in an event's key.
abbrev shown : Option String → String
shown none = "None"
shown (some run_id) = run_id

-- `str(run_manifest_id or "")`
abbrev pub or_empty : Option String → String
or_empty none = ""
or_empty (some run_id) = run_id

abbrev pub fill_row : Option String → Fill → StageRow
fill_row run_id f =
    (
      "event_key",
      Value.text (concat (shown run_id ∷ ":" ∷ f.symbol ∷ ":" ∷ f.order_id ∷ ":fill" ∷ [])),
    )
    ∷ ("run_id", Value.text (or_empty run_id))
    ∷ ("symbol", Value.text f.symbol)
    ∷ ("order_id", Value.text f.order_id)
    ∷ ("side", Value.text (side_value f.side))
    ∷ ("quantity", Value.figure f.quantity)
    ∷ ("price", Value.figure f.price)
    ∷ ("fee", Value.figure f.fee)
    ∷ ("tax", Value.figure f.tax)
    ∷ ("status", Value.text f.status)
    ∷ []

abbrev pub pnl_row : Option String → String → String → Decimal → Decimal → StageRow
pnl_row run_id audit_id symbol pnl mark =
    ("event_key", Value.text (concat (shown run_id ∷ ":" ∷ audit_id ∷ ":pnl" ∷ [])))
    ∷ ("run_id", Value.text (or_empty run_id))
    ∷ ("audit_id", Value.text audit_id)
    ∷ ("symbol", Value.text symbol)
    ∷ ("pnl", Value.figure pnl)
    ∷ ("mark", Value.figure mark)
    ∷ ("pnl_reference", Value.text (concat ("ledger:" ∷ symbol ∷ [])))
    ∷ []

abbrev pub reflection_row : Option String → String → String → String → Decimal → StageRow
reflection_row run_id audit_id episode_id symbol pnl =
    (
      "event_key",
      Value.text (concat (shown run_id ∷ ":" ∷ audit_id ∷ ":" ∷ episode_id ∷ ":reflection" ∷ [])),
    )
    ∷ ("run_id", Value.text (or_empty run_id))
    ∷ ("audit_id", Value.text audit_id)
    ∷ ("episode_id", Value.text episode_id)
    ∷ ("symbol", Value.text symbol)
    ∷ ("pnl", Value.figure pnl)
    ∷ []

abbrev outcome_of : Decimal → String
outcome_of pnl =
    if ltb_ℤ (pos 0) pnl then "POSITIVE" else if ltb_ℤ pnl (pos 0) then "NEGATIVE" else "NEUTRAL"

abbrev pub episode_of : Option String → String → ℕ → Fill → Decimal → Decimal → TradeEpisode
episode_of run_id episode_id now f mark pnl = record {
  episode_id = episode_id;
  symbol = f.symbol;
  action = side_value f.side;
  entry_price = f.price;
  exit_price = mark;
  pnl = pnl;
  decision_context =
      ("run_manifest_id", optional_text run_id)
      ∷ ("client_order_id", Value.text f.order_id)
      ∷ ("quantity", Value.figure f.quantity)
      ∷ [];
  outcome = outcome_of pnl;
  created_at = now;
}

-- `Side(result.side.value)`
abbrev pub ledger_side : OrderSide → Side
ledger_side OrderSide.buy = Side.buy
ledger_side OrderSide.sell = Side.sell

-- The last record of an order: `next(record for record in reversed(audit.records) if ...)`.
unfoldable pub last_submission : String → String → List AuditRecord → Option AuditRecord
last_submission order_id symbol [] = none
last_submission order_id symbol (r ∷ l) = elim (last_submission order_id symbol l) [
  | some later ↦ some later
  | none ↦ if r.client_order_id == order_id && r.symbol == symbol then some r else none
]

module _ {World Storage Files : Type 0} where
  abbrev pub with_desk :
      Run World Storage Files → Orchestrator World Storage Files → Run World Storage Files
  with_desk r desk = record r { desk = desk }

  -- A call of the orchestrator's, and a write to the lists.
  unfoldable pub on_desk :
      {A : Type 0} → Exec (Orchestrator World Storage Files) A → Exec (Run World Storage Files) A
  on_desk = within (λ r. r.desk) with_desk

  unfoldable pub collect : (Collected → Collected) → Exec (Run World Storage Files) (Unit {0})
  collect f = modify (λ r. record r { collected = f r.collected })

  -- A call of the active trail, between the others.
  unfoldable pub audited :
      {A : Type 0}
      → Exec (AuditTrail Storage) A
      → Exec (Orchestrator World Storage Files) (Option A)
  audited call = do trail ← gets active_trail; on_active trail call

  -- The part of the `try` behind `if self.reflection_worker is not None`.
  unfoldable pub reflect_with :
      Option (TradeEpisode → Exec Files (Unit {0}))
      → Option String
      → String
      → TradeEpisode
      → Exec (Run World Storage Files) (Unit {0})
  reflect_with none run_id audit_id episode = pure tt
  reflect_with (some reflect) run_id audit_id episode = do
    on_desk (within (λ o. o.files) with_files (reflect episode))
    updated ← on_desk (audited (record_reflection audit_id episode.episode_id))
    collect (λ c. record c {
      episodes = c.episodes ++ (episode.episode_id ∷ []);
      reflection_rows =
          c.reflection_rows
          ++ (reflection_row run_id audit_id episode.episode_id episode.symbol episode.pnl ∷ []);
    })

  -- The `try` of the loop. `episode_id` and `now` are a fresh id and a reading of the clock.
  unfoldable pub book :
      Dict String Decimal
      → Option String
      → String
      → ℕ
      → String
      → Fill
      → Exec (Run World Storage Files) (Unit {0})
  book prices run_id episode_id now audit_id f = do
    position ← on_desk (
        zoom (λ o. o.ledger) with_ledger
          (Pnl.apply_fill f.symbol (ledger_side f.side) f.quantity f.price))
    mark ← lift (or_raise (get f.symbol prices) Kind.key_error f.symbol)
    ledger ← gets (λ r. r.desk.ledger)
    pnl ← lift (Pnl.total_pnl f.symbol mark ledger)
    updated ← on_desk (audited (record_pnl audit_id pnl (concat ("ledger:" ∷ f.symbol ∷ []))))
    collect (λ c. record c {
      pnl_audits = c.pnl_audits ++ (audit_id ∷ []);
      pnl_rows = c.pnl_rows ++ (pnl_row run_id audit_id f.symbol pnl mark ∷ []);
    })
    worker ← gets (λ r. r.desk.reflection_worker)
    reflect_with worker run_id audit_id (episode_of run_id episode_id now f mark pnl)

-- `except (KeyError, ValueError): continue`
abbrev pub caught : Result (Unit {0}) → Result (Unit {0})
caught (ok _) = ok tt
caught (err e) = elim e.kind [ Kind.key_error ↦ ok tt | Kind.value_error ↦ ok tt | _ ↦ err e ]

module _ {World Storage Files : Type 0} where
  unfoldable pub book_submission :
      Dict String Decimal
      → Option String
      → String
      → ℕ
      → Fill
      → Option AuditRecord
      → Exec (Run World Storage Files) (Unit {0})
  book_submission prices run_id episode_id now f none = pure tt
  book_submission prices run_id episode_id now f (some submission) = do
    r ← attempt (book prices run_id episode_id now submission.audit_id f)
    lift (caught r)

  unfoldable pub book_audited :
      Dict String Decimal
      → Option String
      → String
      → ℕ
      → Fill
      → Option (AuditTrail Storage)
      → Exec (Run World Storage Files) (Unit {0})
  book_audited prices run_id episode_id now f none = pure tt
  book_audited prices run_id episode_id now f (some trail) =
      book_submission prices run_id episode_id now f
        (last_submission f.order_id f.symbol trail.records)

-- `isinstance(result, Fill)` with something filled.
abbrev pub is_filled : Fill → Bool
is_filled f =
    not (leb_ℤ f.quantity (pos 0) || not (f.status == "FILLED" || f.status == "PARTIALLY_FILLED"))

module _ {World Storage Files : Type 0} where
  -- The loop's body behind the submission's answer.
  unfoldable pub take_fill :
      Dict String Decimal
      → Option String
      → String
      → ℕ
      → Fill
      → Exec (Run World Storage Files) (Unit {0})
  take_fill prices run_id episode_id now f = if not (is_filled f) then pure tt else (do
    collect (λ c. record c {
      fills = c.fills ++ (f ∷ []);
      fill_rows = c.fill_rows ++ (fill_row run_id f ∷ []);
    })
    trail ← gets (λ r. active_trail r.desk)
    book_audited prices run_id episode_id now f trail)
