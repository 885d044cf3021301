-- ===== src/Audit/Distinct.antt =====
-- No id stands twice in a trail, of execution_audit.py.
use paper_live.Base.{
  ◌≡◌, refl, Bool, true, false, ◌||◌, ◌&&◌, not, Option, none, some, List, [], ◌∷◌, ◌++◌, String,
  arith, eq_iff, Bool-cases, inl, inr,
}
use paper_live.Base.Dict.{Dict}
use paper_live.Base.Exec.{
  Keeps, Keeps-bind, Keeps-modify, Keeps-within, Keeps-pure, Keeps-if, keeps_rules,
}
use paper_live.Decimal.{Decimal}
use paper_live.Execution.Types.{Fill}
use paper_live.RunManifest.{RunArtifact, Value}
use paper_live.RunManifest.Tracker.{Tracker}
use paper_live.Brokers.{OrderResult}
use paper_live.Audit.{
  AuditRecord, AuditTrail, has_id, without_id, append, replace, on_records, bind_run, bind,
  store_updated,
}
use paper_live.Audit.Calls.{
  record_filled, record_answer, record_fill, require, record_pnl, record_reflection,
}

abbrev pub is_distinct : List AuditRecord → Bool
is_distinct [] = true
is_distinct (r ∷ l) = not (has_id r.audit_id l) && is_distinct l

has_id-++ : (k : String) (l m : List AuditRecord) → has_id k (l ++ m) ≡ (has_id k l || has_id k m)
has_id-++ k [] m = refl
has_id-++ k (r ∷ l) m = ground (arith, has_id-++ k l m)

is_distinct-snoc :
    (r : AuditRecord) (l : List AuditRecord)
    → has_id r.audit_id l ≡ false
    → is_distinct l ≡ true
    → is_distinct (l ++ (r ∷ [])) ≡ true
is_distinct-snoc r [] fresh d = refl
is_distinct-snoc r (a ∷ l) fresh d = ground (
  arith,
  has_id-++ a.audit_id l (r ∷ []),
  is_distinct-snoc r l,
  eq_iff a.audit_id r.audit_id,
  eq_iff r.audit_id a.audit_id,
)

pub append-is_distinct :
    (r : AuditRecord) (l : List AuditRecord)
    → is_distinct l ≡ true
    → is_distinct (append r l) ≡ true
unfolding append
append-is_distinct r l d = elim (Bool-cases (has_id r.audit_id l)) [
  | inl known ↦ rw known d
  | inr fresh ↦ rw fresh (is_distinct-snoc r l fresh d)
]

has_id-without_id :
    (j k : String) (l : List AuditRecord) → has_id k l ≡ false → has_id k (without_id j l) ≡ false
has_id-without_id j k [] h = refl
has_id-without_id j k (r ∷ l) h = ground (arith, has_id-without_id j k l)

pub without_id-is_distinct :
    (j : String) (l : List AuditRecord) → is_distinct l ≡ true → is_distinct (without_id j l) ≡ true
without_id-is_distinct j [] d = refl
without_id-is_distinct j (r ∷ l) d =
    ground (arith, without_id-is_distinct j l, has_id-without_id j r.audit_id l)

replace-is_distinct :
    (audit_id : String) (updated : AuditRecord) (l : List AuditRecord)
    → is_distinct l ≡ true
    → is_distinct (replace audit_id updated l) ≡ true
unfolding replace
replace-is_distinct audit_id updated l d =
    append-is_distinct updated (without_id audit_id l) (without_id-is_distinct audit_id l d)

-- No audit id stands twice among the records.
pub record IsDistinct {Storage : Type 0} (t : AuditTrail Storage) : Type 0 where
  pub distinct : is_distinct t.records ≡ true

module _ {Storage : Type 0} where
  on_records-IsDistinct :
      (f : List AuditRecord → List AuditRecord)
      → ((l : List AuditRecord) → is_distinct l ≡ true → is_distinct (f l) ≡ true)
      → Keeps (IsDistinct {Storage = Storage}) (on_records f)
  unfolding on_records
  on_records-IsDistinct f kept =
      Keeps-modify IsDistinct _ (λ t h. record { distinct = kept t.records h.distinct })

  bind_run-IsDistinct :
      (tracker : Option (Tracker Storage)) (run_id : Option String) (artifact : RunArtifact)
      → Keeps (IsDistinct {Storage = Storage}) (bind_run tracker run_id artifact)
  unfolding bind_run
  bind_run-IsDistinct none run_id artifact = Keeps-pure tt
  bind_run-IsDistinct (some tracker) none artifact = Keeps-pure tt
  bind_run-IsDistinct (some tracker) (some run_id) artifact = Keeps-if _ _ _ (Keeps-pure tt) (
      Keeps-bind _ _ (Keeps-within IsDistinct _ _ _ (λ t s h. record { distinct = h.distinct }))
        (λ _. Keeps-pure tt))

  bind-IsDistinct :
      (r : AuditRecord) (stage status : String) (artifact_id : Option String)
      (metadata : Dict String Value)
      → Keeps (IsDistinct {Storage = Storage}) (bind r stage status artifact_id metadata)
  unfolding bind
  bind-IsDistinct r stage status artifact_id metadata = search (keeps_rules, bind_run-IsDistinct)

  store_updated-IsDistinct :
      (audit_id : String) (updated : AuditRecord) (stage status : String)
      (artifact_id : Option String) (metadata : Dict String Value)
      → Keeps
          (IsDistinct {Storage = Storage})
          (store_updated audit_id updated stage status artifact_id metadata)
  unfolding store_updated
  store_updated-IsDistinct audit_id updated stage status artifact_id metadata =
      Keeps-bind _ _ (on_records-IsDistinct _ (replace-is_distinct audit_id updated))
        (λ _. search (keeps_rules, bind-IsDistinct))

  require-IsDistinct :
      (audit_id : String) → Keeps (IsDistinct {Storage = Storage}) (require audit_id)
  unfolding require
  require-IsDistinct audit_id = search keeps_rules

  ruleset trail_rules = (keeps_rules, store_updated-IsDistinct, require-IsDistinct)

  -- The record of a fill, of a broker's answer, of a profit and of a reflection keeps the audit ids of
  -- the trail distinct, whether the call returns or raises.
  pub records-IsDistinct :
      (r : AuditRecord) (fill : Fill) (answer : OrderResult) (audit_id text : String)
      (pnl : Decimal)
      → Keeps (IsDistinct {Storage = Storage}) (record_fill r fill)
        × Keeps (IsDistinct {Storage = Storage}) (record_answer r answer)
        × Keeps (IsDistinct {Storage = Storage}) (record_pnl audit_id pnl text)
        × Keeps (IsDistinct {Storage = Storage}) (record_reflection audit_id text)
  unfolding record_fill record_filled record_answer record_pnl record_reflection
  records-IsDistinct r fill answer audit_id text pnl =
      (search trail_rules, search trail_rules, search trail_rules, search trail_rules)
