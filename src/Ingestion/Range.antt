-- ===== src/Ingestion/Range.antt =====
-- The key of a failed range, of retry_queue.py and ingestion_run.py, and Python's order on it.
pub mod Sorted
use Prim.Native.Nat.{Ordering}
use Prim.Native.String.{compare}
use paper_live.Base.{
  ◌≡◌, ◌↔◌, Bool, true, false, ◌&&◌, List, [], ◌∷◌, String, ◌==◌, eq_iff, arith, if◌then◌else◌,
}
use paper_live.Base.Dict.{Dict, Eq}

pub record RangeKey : Type 0 where
  pub market : String
  pub symbol : String
  pub start_date : String
  pub end_date : String

abbrev pub same_range : RangeKey → RangeKey → Bool
same_range a b =
    a.market == b.market
    && a.symbol == b.symbol
    && a.start_date == b.start_date
    && a.end_date == b.end_date

pub same_range_iff : (a b : RangeKey) → (same_range a b ≡ true) ↔ (a ≡ b)
same_range_iff a b = (
  λ h. ground (
    arith,
    h,
    eq_iff a.market b.market,
    eq_iff a.symbol b.symbol,
    eq_iff a.start_date b.start_date,
    eq_iff a.end_date b.end_date,
  ),
  λ h. ground (
    arith,
    h,
    eq_iff a.market b.market,
    eq_iff a.symbol b.symbol,
    eq_iff a.start_date b.start_date,
    eq_iff a.end_date b.end_date,
  ),
)

instance abbrev pub range_eq : Eq RangeKey
range_eq = record { beq = same_range; beq_iff = same_range_iff }

-- Python's order on tuples of texts: the first difference decides.
abbrev then_by : Ordering → Bool → Bool
then_by Ordering.lt rest = true
then_by Ordering.gt rest = false
then_by Ordering.eq rest = rest

abbrev pub before : RangeKey → RangeKey → Bool
before a b = then_by (compare a.market b.market) (
    then_by (compare a.symbol b.symbol)
      (then_by (compare a.start_date b.start_date) (then_by (compare a.end_date b.end_date) true)))

-- The values of a dictionary, in the order of their keys: `sorted(items.values(), key=...)`, where
-- an item stands under its own key.
abbrev pub insert : {A : Type 0} → RangeKey → A → Dict RangeKey A → Dict RangeKey A
insert k a [] = (k, a) ∷ []
insert k a ((j, b) ∷ d) =
    let rest = insert k a d in if before k j then (k, a) ∷ (j, b) ∷ d else (j, b) ∷ rest

abbrev pub sort_items : {A : Type 0} → Dict RangeKey A → Dict RangeKey A
sort_items [] = []
sort_items ((k, a) ∷ d) = insert k a (sort_items d)

abbrev pub values : {A : Type 0} → Dict RangeKey A → List A
values [] = []
values ((k, a) ∷ d) = a ∷ values d
