-- ===== src/Ingestion/Range/Sorted.antt =====
-- The values that `sorted` gives are those of the dictionary, of retry_queue.py and
-- ingestion_run.py.
use mathlib.Core.List.{Mem, Perm, mem-cons_self, mem-cons_of_mem}
use mathlib.Core.List.Perm
use paper_live.Base.{◌≡◌, subst, some, arith, [], ◌∷◌, Bool-cases, inl, inr}
use paper_live.Base.Dict.{Dict, get}
use paper_live.Ingestion.Range.{RangeKey, range_eq, same_range, before, insert, sort_items, values}

insert-Perm :
    {A : Type 0} (k : RangeKey) (a : A) (d : Dict RangeKey A)
    → Perm (values (insert k a d)) (a ∷ values d)
insert-Perm k a [] = Perm.refl (a ∷ [])
insert-Perm k a ((j, b) ∷ d) = elim (Bool-cases (before k j)) [
  | inl first ↦ rw first (Perm.refl (a ∷ b ∷ values d))
  | inr later ↦ rw later (Perm.trans (Perm.cons b (insert-Perm k a d)) (Perm.swap a b (values d)))
]

pub sort_items-Perm : {A : Type 0} (d : Dict RangeKey A) → Perm (values (sort_items d)) (values d)
sort_items-Perm [] = Perm.refl []
sort_items-Perm ((k, a) ∷ d) =
    Perm.trans (insert-Perm k a (sort_items d)) (Perm.cons a (sort_items-Perm d))

-- What is found in the dictionary is among its values.
pub get-Mem :
    {A : Type 0} (k : RangeKey) (d : Dict RangeKey A) {a : A} → get k d ≡ some a → Mem a (values d)
unfolding get
get-Mem k [] found = absurd (ground (arith, found))
get-Mem k ((j, b) ∷ d) {a} found = elim (Bool-cases (same_range j k)) [
  | inl here ↦
      let same : b ≡ a = ground (arith, found, here) in
      subst (λ x. Mem x (b ∷ values d)) same mem-cons_self
  | inr there ↦
      let later : get k d ≡ some a = ground (arith, found, there) in
      mem-cons_of_mem b (get-Mem k d later)
]
