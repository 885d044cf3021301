-- ===== src/Ingestion/Retry/Bounded.antt =====
-- How often a range is tried again, of retry_queue.py.
use paper_live.Base.{
  ℕ, zero, suc, ◌-◌, ◌≤◌, ◌<◌, ◌≡◌, refl, ◌⊎◌, inl, inr, Bool, true, false, some, String,
  Bool-cases, arith, leb, if◌then◌else◌,
}
use paper_live.Base.Dict.{get, get-put_self, put_all}
use mathlib.Core.List.{Mem, Perm}
use mathlib.Core.List.Perm
use paper_live.Ingestion.Range.Sorted.{sort_items-Perm, get-Mem}
use paper_live.Ingestion.Range.{values, RangeKey, range_eq}
use paper_live.Ingestion.Retry.{
  RetryItem, RetryQueue, key_of, is_newer, enqueue, pop_all, queue_length, failed_again,
  record_failure,
}

-- Every item stands under its own key, with fewer attempts than the queue allows.
pub record IsBounded (q : RetryQueue) : Type 0 where
  pub at_key :
      (k : RangeKey) (item : RetryItem)
      → get k q.items ≡ some item
      → (key_of item ≡ k) × (item.attempts < q.max_attempts)

-- What `enqueue` does: it keeps the bound; it takes an item exactly when the item may be tried once
-- more and is newer than what stands under its key, which it then replaces; and it leaves the queue
-- as it was otherwise.
pub record Enqueued (item : RetryItem) (q : RetryQueue) (answer : Bool × RetryQueue) : Type 0 where
  pub bounded : IsBounded q → IsBounded answer.1
  pub taken :
      answer.0 ≡ true
      → (item.attempts < q.max_attempts)
        × (is_newer item (get (key_of item) q.items) ≡ true)
        × (get (key_of item) answer.1.items ≡ some item)
  pub refused :
      answer.0 ≡ false
      → (answer.1 ≡ q)
        × ((q.max_attempts ≤ item.attempts) ⊎ (is_newer item (get (key_of item) q.items) ≡ false))

pub enqueue-Enqueued : (item : RetryItem) (q : RetryQueue) → Enqueued item q (enqueue item q)
unfolding enqueue
enqueue-Enqueued item q = elim (Bool-cases (leb q.max_attempts item.attempts)) [
  | inl spent ↦ rw spent (record {
    bounded = λ h. h;
    taken = λ e. absurd (ground (arith, e));
    refused = λ e. (refl, inl (ground (arith, spent)));
  })
  | inr left ↦ elim (Bool-cases (is_newer item (get (key_of item) q.items))) [
    | inl newer ↦ rw left (
        rw newer (record {
          bounded = λ h. record {
            at_key =
                put_all (λ k i. (key_of i ≡ k) × (i.attempts < q.max_attempts)) (key_of item) item
                  q.items h.at_key (refl, ground (arith, left));
          };
          taken = λ e. (ground (arith, left), newer, get-put_self (key_of item) item q.items);
          refused = λ e. absurd (ground (arith, e));
        }))
    | inr older ↦ rw left (
        rw older (record {
          bounded = λ h. h;
          taken = λ e. absurd (ground (arith, e));
          refused = λ e. (refl, inr older);
        }))
  ]
]

-- How many of `n` failures of an item, one after the other, are put back into the queue.
abbrev pub put_back : ℕ → RetryItem → String → RetryQueue → ℕ
put_back zero item error q = 0
put_back (suc n) item error q =
    let rest = put_back n (failed_again item error) error (record_failure item error q).1 in
    if (record_failure item error q).0 then suc rest else rest

record_failure-max :
    (item : RetryItem) (error : String) (q : RetryQueue)
    → (record_failure item error q).1.max_attempts ≡ q.max_attempts
unfolding record_failure enqueue
record_failure-max item error q = ground arith

record_failure_bound :
    (item : RetryItem) (error : String) (q : RetryQueue)
    → (record_failure item error q).0 ≡ true
    → suc item.attempts < q.max_attempts
unfolding record_failure enqueue
record_failure_bound item error q taken = ground (arith, taken)

-- However often the collection of a range fails, it is put back at most as often as attempts are
-- left, less one: an item that failed `a` times goes back at most `max_attempts - 1 - a` times.
pub put_back_bound :
    (n : ℕ) (item : RetryItem) (error : String) (q : RetryQueue)
    → put_back n item error q ≤ q.max_attempts - 1 - item.attempts
put_back_bound zero item error q = omega arith
put_back_bound (suc n) item error q =
    let later = put_back_bound n (failed_again item error) error (record_failure item error q).1 in
    let same = record_failure-max item error q in
    elim (Bool-cases (record_failure item error q).0) [
      | inl taken ↦ rw taken (omega (arith, later, same, record_failure_bound item error q taken))
      | inr refused ↦ rw refused (omega (arith, later, same))
    ]

-- What the queue hands out and what it then is: `pop_all` gives the items of the queue, each as
-- often as it stands there, and empties the queue; an item that `enqueue` took is among them.
pub pop_all_round :
    (item : RetryItem) (q : RetryQueue)
    → Perm (pop_all q).0 (values q.items)
      × (queue_length (pop_all q).1 ≡ 0)
      × ((enqueue item q).0 ≡ true → Mem item (pop_all (enqueue item q).1).0)
unfolding pop_all queue_length
pop_all_round item q = (
  sort_items-Perm q.items,
  refl,
  λ taken.
      (Perm.mem_iff (sort_items-Perm (enqueue item q).1.items)).1
        (get-Mem (key_of item) (enqueue item q).1.items ((enqueue-Enqueued item q).taken taken).2),
)
