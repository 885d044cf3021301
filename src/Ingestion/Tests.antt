-- ===== src/Ingestion/Tests.antt =====
-- One failed range, of retry_queue.py and ingestion_run.py.
use paper_live.Base.{◌≡◌, ◌≤◌, ◌-◌, true, none, [], ◌∷◌}
use paper_live.Ingestion.Retry.{RetryItem, RetryQueue, enqueue, pop_all, queue_length}
use mathlib.Core.List.{Mem, Perm}
use paper_live.Ingestion.Retry.Bounded.{
  Enqueued, enqueue-Enqueued, put_back, put_back_bound, pop_all_round,
}
use paper_live.Ingestion.Failures.{IngestionFailure, RunFacts, range_of, extend, build_manifest}
use paper_live.Ingestion.Failures.Counts.{
  tries, peak, most, extend-tries, Counted, build_manifest-Counted,
}

abbrev item : RetryItem
item = record {
  market = "KR";
  symbol = "005930";
  start_date = "2026-01-01";
  end_date = "2026-01-31";
  attempts = 0;
  last_error = "";
}

abbrev queue : RetryQueue
queue = record { max_attempts = 3; items = [] }

enqueue-Enqueued_example : Enqueued item queue (enqueue item queue)
enqueue-Enqueued_example = enqueue-Enqueued item queue

put_back_bound_example : put_back 9 item "timeout" queue ≤ 3 - 1 - 0
put_back_bound_example = put_back_bound 9 item "timeout" queue

abbrev first : IngestionFailure
first = record {
  market = "KR";
  symbol = "005930";
  start_date = "2026-01-01";
  end_date = "2026-01-31";
  error_type = "TimeoutError";
  error_message = "timed out";
  attempts = 1;
  retryable = true;
}

abbrev second : IngestionFailure
second = record first { attempts = 2 }

extend-tries_example :
    tries (range_of first) (extend (second ∷ first ∷ []) [])
    ≡ most (tries (range_of first) []) (peak (range_of first) (second ∷ first ∷ []))
extend-tries_example = extend-tries (range_of first) (second ∷ first ∷ []) []

abbrev run : RunFacts
run = record {
  run_id = "r-1";
  started_at = "2026-02-01T00:00:00";
  finished_at = "2026-02-01T01:00:00";
  market = "KR";
  start_date = "2026-01-01";
  end_date = "2026-01-31";
  requested_symbols = 2;
  succeeded_symbols = 1;
  rows_collected = 20;
  dataset = none;
  dataset_checksum_sha256 = none;
}

build_manifest-Counted_example :
    Counted run ((range_of first, first) ∷ []) (build_manifest run ((range_of first, first) ∷ []))
build_manifest-Counted_example = build_manifest-Counted run ((range_of first, first) ∷ [])

pop_all_round_example :
    Perm (pop_all queue).0 []
    × (queue_length (pop_all queue).1 ≡ 0)
    × ((enqueue item queue).0 ≡ true → Mem item (pop_all (enqueue item queue).1).0)
pop_all_round_example = pop_all_round item queue
