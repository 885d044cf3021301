-- ===== src/Ingestion/Failures/Counts.antt =====
-- What the queue and the manifest of a run tell of its failures, of ingestion_run.py.
use paper_live.Base.{
  ℕ, suc, ◌+◌, ◌≡◌, refl, sym, subst, ap, ◌∙◌, Bool, not, Option, none, some, List, [], ◌∷◌, length,
  eq_iff, Bool-cases, inl, inr, arith, leb, if◌then◌else◌,
}
use paper_live.Base.Dict.{Dict, get, get-put}
use paper_live.Ingestion.Range.{
  RangeKey, same_range, same_range_iff, range_eq, insert, sort_items, values, before,
}
use paper_live.Ingestion.Failures.{
  IngestionFailure, FailureQueue, range_of, add, extend, all_failures, count_retryable,
  only_retryable, retryable, RunFacts, IngestionRunManifest, build_manifest, run_status,
}

-- The larger of two counts.
abbrev pub most : ℕ → ℕ → ℕ
most a b = if leb a b then b else a

-- How often a range was tried: 0 if it did not fail, and one more than the attempts of its failure.
abbrev tries_of : Option IngestionFailure → ℕ
tries_of none = 0
tries_of (some f) = suc f.attempts

abbrev pub tries : RangeKey → FailureQueue → ℕ
tries k q = tries_of (get k q)

-- The most that failures of a range were tried, whatever their order.
abbrev pub peak : RangeKey → List IngestionFailure → ℕ
peak k [] = 0
peak k (f ∷ fs) =
    let rest = peak k fs in if same_range (range_of f) k then most (suc f.attempts) rest else rest

tries-add :
    (k : RangeKey) (f : IngestionFailure) (q : FailureQueue)
    → tries k (add f q)
      ≡ (if same_range (range_of f) k then most (tries k q) (suc f.attempts) else tries k q)
unfolding add
tries-add k f q =
    let e = same_range_iff (range_of f) k in
    elim (Bool-cases (same_range (range_of f) k)) [
      | inl same ↦ rw same (
          subst (λ j. tries j (add f q) ≡ most (tries j q) (suc f.attempts)) (e.0 same)
            (ground (
              arith,
              get-put (range_of f) (range_of f) f q,
              (same_range_iff (range_of f) (range_of f)).1 refl,
            )))
      | inr other ↦ ground (arith, other, get-put (range_of f) k f q)
    ]

most_assoc : (a b c : ℕ) → most (most a b) c ≡ most a (most b c)
most_assoc a b c = ground arith

-- Whatever the order in which failures are added to a queue, a range was tried as often as the most
-- that any of its failures was, or as it was before if that is more.
pub extend-tries :
    (k : RangeKey) (fs : List IngestionFailure) (q : FailureQueue)
    → tries k (extend fs q) ≡ most (tries k q) (peak k fs)
unfolding extend
extend-tries k [] q = ground arith
extend-tries k (f ∷ fs) q = ground (
  arith,
  extend-tries k fs (add f q),
  tries-add k f q,
  most_assoc (tries k q) (suc f.attempts) (peak k fs),
)

insert-length :
    {A : Type 0} (k : RangeKey) (a : A) (d : Dict RangeKey A)
    → length (values (insert k a d)) ≡ suc (length (values d))
insert-length k a [] = refl
insert-length k a ((j, b) ∷ d) = elim (Bool-cases (before k j)) [
  | inl first ↦ rw first refl
  | inr later ↦ rw later (ap suc (insert-length k a d))
]

all_failures-length : (q : FailureQueue) → length (all_failures q) ≡ length q
unfolding all_failures
all_failures-length [] = refl
all_failures-length ((k, f) ∷ q) = insert-length k f (sort_items q) ∙ ap suc (all_failures-length q)

-- How many ranges of a queue have a failure that passes the test.
abbrev pub ranges_with : (IngestionFailure → Bool) → FailureQueue → ℕ
ranges_with passes [] = 0
ranges_with passes ((k, f) ∷ q) =
    let rest = ranges_with passes q in if passes f then suc rest else rest

insert-count_retryable :
    (k : RangeKey) (f : IngestionFailure) (d : FailureQueue)
    → count_retryable (values (insert k f d)) ≡ count_retryable (f ∷ values d)
insert-count_retryable k f [] = refl
insert-count_retryable k f ((j, g) ∷ d) = elim (Bool-cases (before k j)) [
  | inl first ↦ rw first refl
  | inr later ↦ rw later (ground (arith, insert-count_retryable k f d))
]

count_retryable-all_failures :
    (q : FailureQueue) → count_retryable (all_failures q) ≡ ranges_with (λ f. f.retryable) q
unfolding all_failures
count_retryable-all_failures [] = refl
count_retryable-all_failures ((k, f) ∷ q) =
    ground (arith, insert-count_retryable k f (sort_items q), count_retryable-all_failures q)

-- The tests split the ranges.
ranges_with-length :
    (q : FailureQueue)
    → ranges_with (λ f. f.retryable) q + ranges_with (λ f. not f.retryable) q ≡ length q
ranges_with-length [] = refl
ranges_with-length ((k, f) ∷ q) = ground (arith, ranges_with-length q)

length-only_retryable :
    (fs : List IngestionFailure) → length (only_retryable fs) ≡ count_retryable fs
length-only_retryable [] = refl
length-only_retryable (f ∷ fs) = ground (arith, length-only_retryable fs)

-- What the manifest of a run counts.
pub record Counted (run : RunFacts) (q : FailureQueue) (m : IngestionRunManifest) : Type 0 where
  pub failed : m.failed_symbols ≡ length q
  pub retried : m.retryable_failures ≡ ranges_with (λ f. f.retryable) q
  pub listed : m.retryable_failures ≡ length (retryable q)
  pub given_up : m.non_retryable_failures ≡ ranges_with (λ f. not f.retryable) q
  pub completed :
      m.status ≡ "completed"
      → (m.failed_symbols ≡ 0) × ((run.succeeded_symbols ≡ 0) → run.requested_symbols ≡ 0)

status_completed :
    (run : RunFacts) (fs : List IngestionFailure)
    → run_status run fs ≡ "completed"
    → (length fs ≡ 0) × ((run.succeeded_symbols ≡ 0) → run.requested_symbols ≡ 0)
status_completed run fs h = (
  ground (arith, h, eq_iff "completed_with_failures" "completed", eq_iff "failed" "completed"),
  λ none_done. ground (
    arith,
    h,
    none_done,
    eq_iff "completed_with_failures" "completed",
    eq_iff "failed" "completed",
  ),
)

-- The manifest of a run counts one failure for each range of the queue; its retryable failures are
-- the ranges whose failure is marked retryable, as many as `retryable` lists, and the others are the
-- ranges whose failure is not; it says completed only when no range failed, and some symbol
-- succeeded or none was asked for.
pub build_manifest-Counted :
    (run : RunFacts) (q : FailureQueue) → Counted run q (build_manifest run q)
unfolding build_manifest retryable
build_manifest-Counted run q =
    let retried = count_retryable-all_failures q in
    let all = all_failures-length q in
    record {
      failed = all;
      retried = retried;
      listed = sym (length-only_retryable (all_failures q));
      given_up = ground (arith, retried, all, ranges_with-length q);
      completed = status_completed run (all_failures q);
    }
