-- ===== src/Audit/Linked.antt =====
-- What a record that is replaced leaves in the trail, of execution_audit.py.
use paper_live.Base.{
  ◌≡◌, ◌≢◌, refl, ◌∙◌, false, Option, none, some, List, [], ◌∷◌, ◌++◌, String, arith, eq_iff,
  eq_refl, if◌then◌else◌, Bool-cases, inl, inr,
}
use paper_live.Base.Dict.{Dict}
use paper_live.Base.Exec.{pure, gets, within, modify, ◌>>=◌}
use paper_live.RunManifest.{RunArtifact, Value}
use paper_live.RunManifest.Tracker.{Tracker}
use paper_live.Execution.Types.{Fill}
use paper_live.Audit.{
  AuditRecord, AuditTrail, has_id, without_id, append, replace, find_record, on_records, bind_run,
  bind, stage_artifact, store_updated,
}
use paper_live.Audit.Calls.{
  filled_record, acknowledged_record, is_acknowledgement, record_filled, record_fill,
}

find-snoc :
    (r : AuditRecord) (l : List AuditRecord)
    → has_id r.audit_id l ≡ false
    → find_record r.audit_id (l ++ (r ∷ [])) ≡ some r
find-snoc r [] fresh = ground (arith, eq_refl r.audit_id)
find-snoc r (a ∷ l) fresh = ground (arith, find-snoc r l)

find-snoc_ne :
    (r : AuditRecord) (k : String) (l : List AuditRecord)
    → r.audit_id ≢ k
    → find_record k (l ++ (r ∷ [])) ≡ find_record k l
find-snoc_ne r k [] other = ground (arith, eq_iff r.audit_id k)
find-snoc_ne r k (a ∷ l) other = ground (arith, find-snoc_ne r k l other)

has_id-without_id_same : (k : String) (l : List AuditRecord) → has_id k (without_id k l) ≡ false
has_id-without_id_same k [] = refl
has_id-without_id_same k (a ∷ l) = ground (arith, has_id-without_id_same k l)

find-without_id :
    (j k : String) (l : List AuditRecord) → j ≢ k → find_record k (without_id j l) ≡ find_record k l
find-without_id j k [] other = refl
find-without_id j k (a ∷ l) other =
    ground
      (arith, find-without_id j k l other, eq_iff a.audit_id j, eq_iff a.audit_id k, eq_iff j k)

-- A record that is replaced under its own id is found as it was written, and every other id finds
-- what it found before.
pub replace_lem :
    (updated : AuditRecord) (l : List AuditRecord)
    → (find_record updated.audit_id (replace updated.audit_id updated l) ≡ some updated)
      × ((k : String)
          → updated.audit_id ≢ k
          → find_record k (replace updated.audit_id updated l) ≡ find_record k l)
unfolding replace append
replace_lem u l =
    let fresh = has_id-without_id_same u.audit_id l in
    rw fresh (
      find-snoc u (without_id u.audit_id l) fresh,
      λ k other.
          find-snoc_ne u k (without_id u.audit_id l) other ∙ find-without_id u.audit_id k l other,
    )

-- What the trail tells of an order after `record_fill`.
pub record Told (r : AuditRecord) (fill : Fill) (before now : List AuditRecord) : Type 0 where
  pub updated : AuditRecord
  pub found : find_record r.audit_id now ≡ some updated
  pub status : updated.status ≡ fill.status
  pub quantity :
      updated.fill_quantity ≡ (if is_acknowledgement fill then none else some fill.quantity)
  pub price : updated.fill_price ≡ (if is_acknowledgement fill then none else some fill.price)
  pub same_order : updated.client_order_id ≡ r.client_order_id
  pub others : (k : String) → r.audit_id ≢ k → find_record k now ≡ find_record k before

module _ {Storage : Type 0} where
  bind_run_frame :
      (tracker : Option (Tracker Storage)) (run_id : Option String) (artifact : RunArtifact)
      (t : AuditTrail Storage)
      → (bind_run tracker run_id artifact t).1.records ≡ t.records
  unfolding bind_run within pure ◌>>=◌
  bind_run_frame none run_id artifact t = refl
  bind_run_frame (some tracker) none artifact t = refl
  bind_run_frame (some tracker) (some run_id) artifact t = ground arith

  store_updated_frame :
      (audit_id : String) (updated : AuditRecord) (stage status : String)
      (artifact_id : Option String) (metadata : Dict String Value) (t : AuditTrail Storage)
      → (store_updated audit_id updated stage status artifact_id metadata t).1.records
        ≡ replace audit_id updated t.records
  unfolding store_updated on_records modify bind gets pure ◌>>=◌
  store_updated_frame audit_id updated stage status artifact_id metadata t = ground (
    arith,
    bind_run_frame t.manifest_tracker updated.run_manifest_id
        (stage_artifact updated stage status artifact_id metadata)
        (record t { records = replace audit_id updated t.records }),
  )

  -- After `record_fill` the trail holds, under the record's id, the fill's status, and its quantity
  -- and price unless it is an acknowledgement of quantity 0; every other record is as it was. This
  -- holds also when the binding to the run's manifest raises.
  pub record_fill-Told :
      (r : AuditRecord) (fill : Fill) (t : AuditTrail Storage)
      → Told r fill t.records (record_fill r fill t).1.records
  unfolding record_fill record_filled
  record_fill-Told r fill t = elim (Bool-cases (is_acknowledgement fill)) [
    | inl empty ↦
        let u = acknowledged_record r fill in
        let (found, others) = replace_lem u t.records in
        rw (empty, store_updated_frame r.audit_id u "execution_audit" fill.status none _ t)
          (record {
            updated = u;
            found = found;
            status = refl;
            quantity = rw empty refl;
            price = rw empty refl;
            same_order = refl;
            others = others;
          })
    | inr traded ↦
        let u = filled_record r fill in
        let (found, others) = replace_lem u t.records in
        rw (traded, store_updated_frame r.audit_id u "fill" fill.status (some fill.order_id) _ t)
          (record {
            updated = u;
            found = found;
            status = refl;
            quantity = rw traded refl;
            price = rw traded refl;
            same_order = refl;
            others = others;
          })
  ]
