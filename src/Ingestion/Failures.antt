-- ===== src/Ingestion/Failures.antt =====
-- paper_live/ingestion_run.py: the failures of a run, one for each range, and the run's manifest.
pub mod Counts
use paper_live.Base.{
  ℕ, zero, suc, ◌-◌, Bool, true, false, ◌&&◌, not, Option, none, some, List, [], ◌∷◌, String, ltb,
  leb, eqb, length, if◌then◌else◌,
}
use paper_live.Base.Dict.{Dict, get, put}
use paper_live.Ingestion.Range.{RangeKey, range_eq, sort_items, values}

pub record IngestionFailure : Type 0 where
  pub market : String
  pub symbol : String
  pub start_date : String
  pub end_date : String
  pub error_type : String
  pub error_message : String
  pub attempts : ℕ
  pub retryable : Bool

-- `FailureQueue`: its `_items`.
abbrev pub FailureQueue : Type 0
FailureQueue = Dict RangeKey IngestionFailure

abbrev pub range_of : IngestionFailure → RangeKey
range_of f = record {
  market = f.market;
  symbol = f.symbol;
  start_date = f.start_date;
  end_date = f.end_date;
}

-- `previous is None or failure.attempts >= previous.attempts`
abbrev pub replaces : IngestionFailure → Option IngestionFailure → Bool
replaces f none = true
replaces f (some previous) = leb previous.attempts f.attempts

unfoldable pub add : IngestionFailure → FailureQueue → FailureQueue
add f q = if replaces f (get (range_of f) q) then put (range_of f) f q else q

unfoldable pub extend : List IngestionFailure → FailureQueue → FailureQueue
extend [] q = q
extend (f ∷ fs) q = extend fs (add f q)

-- `all`, and `retryable`: the retryable ones of them, in the same order.
unfoldable pub all_failures : FailureQueue → List IngestionFailure
all_failures q = values (sort_items q)

abbrev pub only_retryable : List IngestionFailure → List IngestionFailure
only_retryable [] = []
only_retryable (f ∷ fs) = let rest = only_retryable fs in if f.retryable then f ∷ rest else rest

unfoldable pub retryable : FailureQueue → List IngestionFailure
retryable q = only_retryable (all_failures q)

pub record IngestionRunManifest : Type 0 where
  pub run_id : String
  pub started_at : String
  pub finished_at : String
  pub status : String
  pub market : String
  pub start_date : String
  pub end_date : String
  pub requested_symbols : ℕ
  pub succeeded_symbols : ℕ
  pub failed_symbols : ℕ
  pub rows_collected : ℕ
  pub retryable_failures : ℕ
  pub non_retryable_failures : ℕ
  pub dataset : Option String
  pub dataset_checksum_sha256 : Option String
  pub schema_version : String

-- The arguments of `build_manifest` but the failures; a day is its text.
pub record RunFacts : Type 0 where
  pub run_id : String
  pub started_at : String
  pub finished_at : String
  pub market : String
  pub start_date : String
  pub end_date : String
  pub requested_symbols : ℕ
  pub succeeded_symbols : ℕ
  pub rows_collected : ℕ
  pub dataset : Option String
  pub dataset_checksum_sha256 : Option String

-- `sum(item.retryable for item in all_failures)`
abbrev pub count_retryable : List IngestionFailure → ℕ
count_retryable [] = 0
count_retryable (f ∷ fs) = let rest = count_retryable fs in if f.retryable then suc rest else rest

abbrev pub run_status : RunFacts → List IngestionFailure → String
run_status run failures =
    if eqb run.succeeded_symbols 0 && ltb 0 run.requested_symbols
    then "failed"
    else elim failures [ [] ↦ "completed" | _ ∷ _ ↦ "completed_with_failures" ]

unfoldable pub build_manifest : RunFacts → FailureQueue → IngestionRunManifest
build_manifest run q =
    let failures = all_failures q in
    let retryable_count = count_retryable failures in
    record {
      run_id = run.run_id;
      started_at = run.started_at;
      finished_at = run.finished_at;
      status = run_status run failures;
      market = run.market;
      start_date = run.start_date;
      end_date = run.end_date;
      requested_symbols = run.requested_symbols;
      succeeded_symbols = run.succeeded_symbols;
      failed_symbols = length failures;
      rows_collected = run.rows_collected;
      retryable_failures = retryable_count;
      non_retryable_failures = length failures - retryable_count;
      dataset = run.dataset;
      dataset_checksum_sha256 = run.dataset_checksum_sha256;
      schema_version = "ingestion-run-v1";
    }
