-- ===== src/PaperExecution/Counted/Returned.antt =====
-- What a call of `execute` that returns tells, of paper_execution.py.
use paper_live.Base.{
  ℕ, suc, ◌+◌, ◌≤◌, ◌≡◌, subst, true, not, Option, none, some, List, [], ◌∷◌, String, length,
  Result, ok, err, arith,
}
use paper_live.Base.Dict.{Dict}
use paper_live.Base.Exec.{Exec, follow, gets, Keeps, Keeps-pure, ◌>>=◌, Yields}
use paper_live.Base.Yields.{All, Yields-bind, Yields-known, Yields-pure, Yields-if}
use paper_live.Base.Leads.{Leads, Leads-keep, Leads-Keeps, Leads-then}
use paper_live.TradeFacade.Types.{
  PortfolioRow, PortfolioRevalidation, PortfolioPreflightResult, all_approved,
}
use paper_live.TradeFacade.Terms.{Terms}
use paper_live.PaperExecution.{Orchestrator, PaperExecutionResult}
use paper_live.PaperExecution.Booking.{Collected, nothing_collected, Run, is_filled}
use paper_live.PaperExecution.Execute.{
  Inputs, execute_row, execute_rows, execute_approved, conclude, execute,
}
use paper_live.PaperExecution.Counted.{Tally, Tallied, on_desk-Tallied, weaken, take_answer-Tallied}

bare : (k : ℕ) → k ≡ 0 + k
bare k = omega arith

moved : (j k : ℕ) → j + suc k ≡ suc j + k
moved j k = omega arith

module _ {World Storage Files : Type 0} where
  execute_row-Tallied :
      (k : ℕ) (i : Inputs) (t : Terms) (run_id : Option String) (n : ℕ) (row : Option PortfolioRow)
      → Leads {S = Run World Storage Files}
          (Tallied k)
          (Tallied (suc k))
          (execute_row i t run_id n row)
  unfolding execute_row
  execute_row-Tallied k i t run_id n none = Leads-Keeps _ (weaken k) (Keeps-pure tt)
  execute_row-Tallied k i t run_id n (some row) =
      Leads-keep _ _ (weaken k) (on_desk-Tallied k _)
        (λ answer. take_answer-Tallied k i t run_id n _)

  grown : (k j : ℕ) (r : Run World Storage Files) → Tallied (suc k) r → Tallied (suc j + k) r
  grown k j r h = record {
    all = record {
      filled = h.all.filled;
      most = omega (arith, h.all.most);
      booked = h.all.booked;
      told = h.all.told;
    };
  }

  execute_rows-Tallied :
      (k : ℕ) (i : Inputs) (t : Terms) (run_id : Option String) (rows : Dict String PortfolioRow)
      (n : ℕ) (items : List PortfolioRevalidation)
      → Leads {S = Run World Storage Files}
          (Tallied k)
          (Tallied (length items + k))
          (execute_rows i t run_id rows n items)
  unfolding execute_rows
  execute_rows-Tallied k i t run_id rows n [] =
      Leads-Keeps _ (λ r h. subst (λ m. Tallied m r) (bare k) h) (Keeps-pure tt)
  execute_rows-Tallied k i t run_id rows n (item ∷ items) =
      Leads-then (Tallied (suc k)) _ _ (λ r h. grown k (length items) r h)
        (execute_row-Tallied k i t run_id n _)
        (λ _.
          subst
            (λ m.
              Leads {S = Run World Storage Files} (Tallied (suc k)) (Tallied m)
                (execute_rows i t run_id rows (suc n) items))
            (moved (length items) k) (execute_rows-Tallied (suc k) i t run_id rows (suc n) items))

  collected-Tally :
      {k : ℕ} {c : Collected} (p : Result (Unit {0}) × Run World Storage Files)
      → Tallied k p.1
      → (follow p (λ _ r. (ok r.collected, r))).0 ≡ ok c
      → Tally k c
  collected-Tally {k} {c} (ok _, r) h e =
      let same : r.collected ≡ c = ground (arith, e) in subst (Tally k) same h.all
  collected-Tally (err x, r) h e = absurd (ground (arith, e))

  execute_approved-Tally :
      (i : Inputs) (t : Terms) (run_id : Option String) (rows : Dict String PortfolioRow)
      (items : List PortfolioRevalidation)
      → Yields {S = Orchestrator World Storage Files}
          (λ _. Unit {0})
          (Tally (length items + 0))
          (execute_approved i t run_id rows items)
  unfolding execute_approved gets ◌>>=◌
  execute_approved-Tally i t run_id rows items = record {
    keeps = λ o h. tt;
    yields = λ o c h e.
        let start : Run World Storage Files = record { desk = o; collected = nothing_collected } in
        let left = (execute_rows-Tallied 0 i t run_id rows 0 items).at start (record {
          all = record {
            filled = tt;
            most = ground arith;
            booked = ground arith;
            told = ground arith;
          };
        }) in
        collected-Tally (execute_rows i t run_id rows 0 items start) left e;
  }

-- What a call of `execute` that returns tells: each fill is one that filled something, at most one
-- for each row that the preflight approved, and no fill is booked, and no booking reflected on,
-- twice.
pub record Counted (result : PaperExecutionResult) : Type 0 where
  pub filled : All (λ f. is_filled f ≡ true) result.fills
  pub most : length result.fills ≤ length result.preflight.approved
  pub booked : length result.pnl_audits ≤ length result.fills
  pub told : length result.reflection_episodes ≤ length result.pnl_audits

module _ {World Storage Files : Type 0} where
  anything :
      {A : Type 0} (call : Exec (Orchestrator World Storage Files) A) → Keeps (λ _. Unit {0}) call
  anything call = record { at = λ o h. tt }

  conclude-Counted :
      (i : Inputs) (t : Terms) (rows : List PortfolioRow) (run_id trade_date : Option String)
      (p : PortfolioPreflightResult)
      → Yields {S = Orchestrator World Storage Files}
          (λ _. Unit {0})
          Counted
          (conclude i t rows run_id trade_date p)
  unfolding conclude
  conclude-Counted i t rows run_id trade_date p =
      Yields-if (not (all_approved p)) _ _
        (λ _. Yields-bind _ _ (anything _) (λ _. Yields-pure _ (record {
          filled = tt;
          most = ground arith;
          booked = ground arith;
          told = ground arith;
        })))
        (λ _.
          Yields-known (Tally (length p.approved + 0)) _ _
            (execute_approved-Tally i t run_id _ p.approved)
            (λ c tally. Yields-bind _ _ (anything _) (λ _. Yields-bind _ _ (anything _) (λ _.
              Yields-bind _ _ (anything _) (λ _. Yields-pure _ (record {
                filled = tally.filled;
                most = omega (arith, tally.most);
                booked = tally.booked;
                told = tally.told;
              }))))))

  execute-Yields :
      (i : Inputs) (t : Terms) (rows : List PortfolioRow) (run_id trade_date : Option String)
      → Yields {S = Orchestrator World Storage Files}
          (λ _. Unit {0})
          Counted
          (execute i t rows run_id trade_date)
  unfolding execute
  execute-Yields i t rows run_id trade_date = Yields-bind _ _ (anything _) (λ mode.
      Yields-bind _ _ (anything _)
        (λ _. Yields-bind _ _ (anything _) (λ p. conclude-Counted i t rows run_id trade_date p)))

  -- When `execute` returns, each fill it tells of has a positive quantity and the status FILLED or
  -- PARTIALLY_FILLED, there is at most one for each row that the preflight approved, at most one
  -- booked profit for each fill, and at most one episode for each booked profit; it holds also
  -- when a booking raises half way and is passed over.
  pub execute-Counted :
      (i : Inputs) (t : Terms) (rows : List PortfolioRow) (run_id trade_date : Option String)
      (o : Orchestrator World Storage Files) {result : PaperExecutionResult}
      → (execute i t rows run_id trade_date o).0 ≡ ok result
      → Counted result
  execute-Counted i t rows run_id trade_date o {result} returned =
      (execute-Yields i t rows run_id trade_date).yields o result tt returned
