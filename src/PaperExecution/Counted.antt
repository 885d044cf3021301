-- ===== src/PaperExecution/Counted.antt =====
-- What the lists of a call of `execute` hold, of paper_execution.py.
pub mod Returned
use paper_live.Base.{
  ℕ, zero, suc, ◌+◌, ◌≤◌, ◌<◌, ◌≡◌, refl, subst, Bool, true, false, not, Option, none, some, List,
  [], ◌∷◌, ◌++◌, String, length, length-snoc, Bool-cases, inl, inr, Result, ok, err, arith,
}
use paper_live.Base.Dict.{Dict}
use paper_live.Base.Exec.{
  Exec, follow, gets, within, modify, lift, attempt, Keeps, Keeps-within, Keeps-pure, Keeps-lift,
  Keeps-gets, keeps_rules, ◌>>=◌, Yields,
}
use paper_live.Base.Yields.{All, All-snoc, Yields-bind, Yields-known, Yields-pure, Yields-if}
use paper_live.Base.Leads.{Leads, Leads-keep, Leads-write, Leads-Keeps, Leads-modify, Leads-then}
use paper_live.Decimal.{Decimal}
use paper_live.Execution.Types.{Fill}
use paper_live.Audit.{AuditRecord, AuditTrail}
use paper_live.TradeFacade.Types.{
  PortfolioRow, PortfolioRevalidation, PortfolioPreflightResult, all_approved,
}
use paper_live.TradeFacade.Terms.{Terms}
use paper_live.PaperExecution.{TradeEpisode, Orchestrator, PaperExecutionResult}
use paper_live.PaperExecution.Booking.{
  Collected, nothing_collected, Run, with_desk, on_desk, collect, reflect_with, book, caught,
  book_submission, book_audited, is_filled, take_fill, last_submission,
}
use paper_live.PaperExecution.Execute.{
  Inputs, take_answer, execute_row, execute_rows, execute_approved, conclude, execute,
}

-- Every fill is one; no fill is booked twice, and no booking is told of twice. At most `k` fills.
pub record Tally (k : ℕ) (c : Collected) : Type 0 where
  pub filled : All (λ f. is_filled f ≡ true) c.fills
  pub most : length c.fills ≤ k
  pub booked : length c.pnl_audits ≤ length c.fills
  pub told : length c.episodes ≤ length c.pnl_audits

module _ {World Storage Files : Type 0} where
  pub record Tallied (k : ℕ) (r : Run World Storage Files) : Type 0 where
    pub all : Tally k r.collected

  -- The last fill is not booked yet.
  record Unbooked (k : ℕ) (r : Run World Storage Files) : Type 0 where
    all : Tally k r.collected
    slack : length r.collected.pnl_audits < length r.collected.fills

  -- The last booking is not told of yet.
  record Untold (k : ℕ) (r : Run World Storage Files) : Type 0 where
    all : Tally k r.collected
    slack : length r.collected.episodes < length r.collected.pnl_audits

  pub on_desk-Tallied :
      {A : Type 0} (k : ℕ) (call : Exec (Orchestrator World Storage Files) A)
      → Keeps (Tallied k) (on_desk call)
  unfolding on_desk
  on_desk-Tallied k call = Keeps-within _ _ with_desk call (λ r o h. record { all = h.all })

  on_desk-Unbooked :
      {A : Type 0} (k : ℕ) (call : Exec (Orchestrator World Storage Files) A)
      → Keeps (Unbooked k) (on_desk call)
  unfolding on_desk
  on_desk-Unbooked k call =
      Keeps-within _ _ with_desk call (λ r o h. record { all = h.all; slack = h.slack })

  on_desk-Untold :
      {A : Type 0} (k : ℕ) (call : Exec (Orchestrator World Storage Files) A)
      → Keeps (Untold k) (on_desk call)
  unfolding on_desk
  on_desk-Untold k call =
      Keeps-within _ _ with_desk call (λ r o h. record { all = h.all; slack = h.slack })

  Unbooked-Tallied : (k : ℕ) (r : Run World Storage Files) → Unbooked k r → Tallied k r
  Unbooked-Tallied k r h = record { all = h.all }

  Untold-Tallied : (k : ℕ) (r : Run World Storage Files) → Untold k r → Tallied k r
  Untold-Tallied k r h = record { all = h.all }

  reflect_with-Tallied :
      (k : ℕ) (worker : Option (TradeEpisode → Exec Files (Unit {0}))) (run_id : Option String)
      (audit_id : String) (episode : TradeEpisode)
      → Leads {S = Run World Storage Files}
          (Untold k)
          (Tallied k)
          (reflect_with worker run_id audit_id episode)
  unfolding reflect_with collect
  reflect_with-Tallied k none run_id audit_id episode =
      Leads-Keeps _ (Untold-Tallied k) (Keeps-pure tt)
  reflect_with-Tallied k (some reflect) run_id audit_id episode =
      Leads-keep _ _ (Untold-Tallied k) (on_desk-Untold k _) (λ _.
        Leads-keep _ _ (Untold-Tallied k) (on_desk-Untold k _) (λ _. Leads-modify _ _ _ (λ r h.
          record {
            all = record {
              filled = h.all.filled;
              most = h.all.most;
              booked = h.all.booked;
              told = omega (arith, h.slack, length-snoc r.collected.episodes episode.episode_id);
            };
          })))

  book-Tallied :
      (k : ℕ) (prices : Dict String Decimal) (run_id : Option String) (episode_id : String)
      (now : ℕ) (audit_id : String) (f : Fill)
      → Leads {S = Run World Storage Files}
          (Unbooked k)
          (Tallied k)
          (book prices run_id episode_id now audit_id f)
  unfolding book collect
  book-Tallied k prices run_id episode_id now audit_id f =
      Leads-keep _ _ (Unbooked-Tallied k) (on_desk-Unbooked k _) (λ _.
        Leads-keep _ _ (Unbooked-Tallied k) (Keeps-lift _) (λ mark.
          Leads-keep _ _ (Unbooked-Tallied k) (Keeps-gets _) (λ ledger.
            Leads-keep _ _ (Unbooked-Tallied k) (Keeps-lift _) (λ pnl.
              Leads-keep _ _ (Unbooked-Tallied k) (on_desk-Unbooked k _) (λ _.
                Leads-write (Untold k) _ _
                  (λ r h. record {
                    all = record {
                      filled = h.all.filled;
                      most = h.all.most;
                      booked = omega (arith, h.slack, length-snoc r.collected.pnl_audits audit_id);
                      told = omega (arith, h.all.told, length-snoc r.collected.pnl_audits audit_id);
                    };
                    slack = omega (arith, h.all.told, length-snoc r.collected.pnl_audits audit_id);
                  })
                  (Leads-keep _ _ (Untold-Tallied k) (Keeps-gets _)
                    (λ worker. reflect_with-Tallied k worker run_id audit_id _)))))))

  attempted :
      (k : ℕ) (call : Exec (Run World Storage Files) (Unit {0}))
      → Leads (Unbooked k) (Tallied k) call
      → Leads (Unbooked k) (Tallied k) (attempt call >>= λ r. lift (caught r))
  unfolding attempt lift ◌>>=◌
  attempted k call led = record { at = λ s h. led.at s h }

  book_audited-Tallied :
      (k : ℕ) (prices : Dict String Decimal) (run_id : Option String) (episode_id : String)
      (now : ℕ) (f : Fill) (trail : Option (AuditTrail Storage))
      → Leads {S = Run World Storage Files}
          (Unbooked k)
          (Tallied k)
          (book_audited prices run_id episode_id now f trail)
  unfolding book_audited
  book_audited-Tallied k prices run_id episode_id now f none =
      Leads-Keeps _ (Unbooked-Tallied k) (Keeps-pure tt)
  book_audited-Tallied k prices run_id episode_id now f (some trail) =
      submitted (last_submission f.order_id f.symbol trail.records)
    where
      submitted :
          (found : Option AuditRecord)
          → Leads {S = Run World Storage Files}
              (Unbooked k)
              (Tallied k)
              (book_submission prices run_id episode_id now f found)
      submitted none = unfold book_submission in Leads-Keeps _ (Unbooked-Tallied k) (Keeps-pure tt)
      submitted (some r) =
          unfold book_submission in
          attempted k _ (book-Tallied k prices run_id episode_id now r.audit_id f)

  pub weaken : (k : ℕ) (r : Run World Storage Files) → Tallied k r → Tallied (suc k) r
  weaken k r h = record {
    all = record {
      filled = h.all.filled;
      most = omega (arith, h.all.most);
      booked = h.all.booked;
      told = h.all.told;
    };
  }

  pub take_answer-Tallied :
      (k : ℕ) (i : Inputs) (t : Terms) (run_id : Option String) (n : ℕ) (answer : Option Fill)
      → Leads {S = Run World Storage Files}
          (Tallied k)
          (Tallied (suc k))
          (take_answer i t run_id n answer)
  unfolding take_answer take_fill collect
  take_answer-Tallied k i t run_id n none = Leads-Keeps _ (weaken k) (Keeps-pure tt)
  take_answer-Tallied k i t run_id n (some f) = elim (Bool-cases (is_filled f)) [
    | inl filled ↦ rw filled (
        Leads-write (Unbooked (suc k)) _ _
          (λ r h. record {
            all = record {
              filled = All-snoc (λ f. is_filled f ≡ true) r.collected.fills f h.all.filled filled;
              most = omega (arith, h.all.most, length-snoc r.collected.fills f);
              booked = omega (arith, h.all.booked, length-snoc r.collected.fills f);
              told = h.all.told;
            };
            slack = omega (arith, h.all.booked, length-snoc r.collected.fills f);
          })
          (Leads-keep _ _ (Unbooked-Tallied (suc k)) (Keeps-gets _)
            (λ trail. book_audited-Tallied (suc k) t.latest_prices run_id _ _ f trail)))
    | inr unfilled ↦ rw unfilled (Leads-Keeps _ (weaken k) (Keeps-pure tt))
  ]
