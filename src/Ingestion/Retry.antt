-- ===== src/Ingestion/Retry.antt =====
-- paper_live/retry_queue.py: the bounded queue of ranges to be collected again.
pub mod Bounded
use paper_live.Base.{
  ℕ, suc, Bool, true, false, Option, none, some, List, [], String, ltb, leb, eqb, Result, Kind, ok,
  raise, length, if◌then◌else◌,
}
use paper_live.Base.Dict.{Dict, get, put}
use paper_live.Ingestion.Range.{RangeKey, range_eq, sort_items, values}

pub record RetryItem : Type 0 where
  pub market : String
  pub symbol : String
  pub start_date : String
  pub end_date : String
  pub attempts : ℕ
  pub last_error : String

pub record RetryQueue : Type 0 where
  pub max_attempts : ℕ
  pub items : Dict RangeKey RetryItem

abbrev pub key_of : RetryItem → RangeKey
key_of item = record {
  market = item.market;
  symbol = item.symbol;
  start_date = item.start_date;
  end_date = item.end_date;
}

unfoldable pub make_queue : ℕ → Result RetryQueue
make_queue max_attempts =
    if ltb max_attempts 1
    then raise Kind.value_error "max_attempts must be >= 1"
    else ok (record { max_attempts = max_attempts; items = [] })

-- `current is None or item.attempts > current.attempts`
abbrev pub is_newer : RetryItem → Option RetryItem → Bool
is_newer item none = true
is_newer item (some current) = ltb current.attempts item.attempts

unfoldable pub enqueue : RetryItem → RetryQueue → Bool × RetryQueue
enqueue item q =
    if leb q.max_attempts item.attempts
    then (false, q)
    else if is_newer item (get (key_of item) q.items)
    then (true, record q { items = put (key_of item) item q.items })
    else (false, q)

abbrev pub failed_again : RetryItem → String → RetryItem
failed_again item error = record item { attempts = suc item.attempts; last_error = error }

-- `error` is the exception's class name, or the text that was given.
unfoldable pub record_failure : RetryItem → String → RetryQueue → Bool × RetryQueue
record_failure item error q = enqueue (failed_again item error) q

unfoldable pub pop_all : RetryQueue → List RetryItem × RetryQueue
pop_all q = (values (sort_items q.items), record q { items = [] })

unfoldable pub queue_length : RetryQueue → ℕ
queue_length q = length q.items
