-- ===== src/Audit/Grown.antt =====
-- The calls of execution_audit.py that create records only add to the trail.
use paper_live.Base.{ℕ, ◌≡◌, true, Option, none, some, List, [], ◌∷◌, ◌++◌, String, arith}
use paper_live.Base.Dict.{Dict}
use paper_live.Base.Exec.{
  Keeps, Keeps-bind, Keeps-modify, Keeps-within, Keeps-pure, Keeps-if, keeps_rules,
}
use paper_live.Decimal.{Decimal}
use paper_live.Risk.{PortfolioRiskContext}
use paper_live.RunManifest.{RunArtifact, Value}
use paper_live.RunManifest.Tracker.{Tracker}
use paper_live.TradeFacade.Types.{
  OrderIntent, RiskAssessment, PortfolioRow, PortfolioPreflightResult,
}
use paper_live.Audit.{AuditRecord, AuditTrail, append, find_record, on_records, bind_run, bind}
use paper_live.Audit.Calls.{Payload, Origin, create_submission}
use paper_live.Audit.Preflight.{PreflightPayload, append_all, record_preflight}
use paper_live.Audit.Distinct.{is_distinct, append-is_distinct}

find_record-++ :
    (k : String) (l m : List AuditRecord) {r : AuditRecord}
    → find_record k l ≡ some r
    → find_record k (l ++ m) ≡ some r
find_record-++ k [] m found = absurd (ground (arith, found))
find_record-++ k (x ∷ l) m {r} found =
    let later : find_record k l ≡ some r → find_record k (l ++ m) ≡ some r = find_record-++ k l m in
    ground (arith, found, later)

find_record-append :
    (k : String) (x : AuditRecord) (l : List AuditRecord) {r : AuditRecord}
    → find_record k l ≡ some r
    → find_record k (append x l) ≡ some r
unfolding append
find_record-append k x l found = ground (arith, found, find_record-++ k l (x ∷ []) found)

-- The ids are distinct, and every record of `start` is found as it was.
pub record Extends (start l : List AuditRecord) : Type 0 where
  pub distinct : is_distinct l ≡ true
  pub kept :
      (k : String) (r : AuditRecord) → find_record k start ≡ some r → find_record k l ≡ some r

append-Extends :
    (start : List AuditRecord) (x : AuditRecord) (l : List AuditRecord)
    → Extends start l
    → Extends start (append x l)
append-Extends start x l h = record {
  distinct = append-is_distinct x l h.distinct;
  kept = λ k r found. find_record-append k x l (h.kept k r found);
}

append_all-Extends :
    (start xs l : List AuditRecord) → Extends start l → Extends start (append_all xs l)
unfolding append_all
append_all-Extends start [] l h = h
append_all-Extends start (x ∷ xs) l h =
    append_all-Extends start xs (append x l) (append-Extends start x l h)

module _ {Storage : Type 0} where
  pub record Grown (start : List AuditRecord) (t : AuditTrail Storage) : Type 0 where
    pub records : Extends start t.records

  on_records-Grown :
      (start : List AuditRecord) (f : List AuditRecord → List AuditRecord)
      → ((l : List AuditRecord) → Extends start l → Extends start (f l))
      → Keeps {S = AuditTrail Storage} (Grown start) (on_records f)
  unfolding on_records
  on_records-Grown start f kept =
      Keeps-modify (Grown start) _ (λ t h. record { records = kept t.records h.records })

  bind_run-Grown :
      (start : List AuditRecord) (tracker : Option (Tracker Storage)) (run_id : Option String)
      (artifact : RunArtifact)
      → Keeps {S = AuditTrail Storage} (Grown start) (bind_run tracker run_id artifact)
  unfolding bind_run
  bind_run-Grown start none run_id artifact = Keeps-pure tt
  bind_run-Grown start (some tracker) none artifact = Keeps-pure tt
  bind_run-Grown start (some tracker) (some run_id) artifact = Keeps-if _ _ _ (Keeps-pure tt) (
      Keeps-bind _ _ (Keeps-within (Grown start) _ _ _ (λ t s h. record { records = h.records }))
        (λ _. Keeps-pure tt))

  bind-Grown :
      (start : List AuditRecord) (r : AuditRecord) (stage status : String)
      (artifact_id : Option String) (metadata : Dict String Value)
      → Keeps {S = AuditTrail Storage} (Grown start) (bind r stage status artifact_id metadata)
  unfolding bind
  bind-Grown start r stage status artifact_id metadata = search (keeps_rules, bind_run-Grown)

  -- `create_submission` and `record_preflight` only add to a trail whose ids are distinct, whatever
  -- the digests are: the ids stay distinct and every record that was there is found as it was,
  -- whether the call returns or raises.
  pub creations-Grown :
      (start : List AuditRecord) (digest : Payload → String) (now : ℕ) (intent : OrderIntent)
      (price : Decimal) (risk : RiskAssessment) (context : Option PortfolioRiskContext)
      (origin : Origin) (preflight_digest : PreflightPayload → String)
      (checksum : List AuditRecord → String) (clock : ℕ → ℕ) (rows : List PortfolioRow)
      (result : PortfolioPreflightResult) (run_manifest_id : Option String)
      → Keeps {S = AuditTrail Storage}
          (Grown start)
          (create_submission digest now intent price risk context origin)
        × Keeps {S = AuditTrail Storage}
            (Grown start)
            (record_preflight preflight_digest checksum clock rows result run_manifest_id)
  unfolding create_submission record_preflight
  creations-Grown start digest now intent price risk context origin preflight_digest checksum clock
        rows result run_manifest_id =
      (
        Keeps-bind _ _ (on_records-Grown start _ (append-Extends start _))
            (λ _. search (keeps_rules, bind-Grown)),
        Keeps-bind _ _ (on_records-Grown start _ (append_all-Extends start _))
            (λ _. search (keeps_rules, bind_run-Grown)),
      )
