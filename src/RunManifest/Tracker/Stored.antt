-- ===== src/RunManifest/Tracker/Stored.antt =====
-- What every call of the tracker keeps of the manifests it stores, of run_manifest.py.
use paper_live.Base.{◌≡◌, refl, sym, Bool, Option, none, some, String, Result, ok, arith}
use paper_live.Base.Dict.{get, put_all, string_eq}
use paper_live.Base.Exec.{
  Exec, pure, lift, gets, ◌>>=◌, Keeps, Keeps-bind, Keeps-known, Keeps-modify, Keeps-within,
  Keeps-pure, Yields, keeps_rules,
}
use paper_live.RunManifest.{RunArtifact, RunManifest, with_stage, with_status}
use paper_live.RunManifest.Stages.{IsUnique, with_stage_inv, with_status_lem}
use paper_live.RunManifest.Tracker.{
  Tracker, with_storage, store, write_with, persist, register, require, replace_manifest,
  bind_stage, transition, finalize,
}

-- A manifest that stands under its own run's id, with no stage twice.
pub record IsOf (run_id : String) (m : RunManifest) : Type 0 where
  pub own : m.run_id ≡ run_id
  pub unique : IsUnique m

pub record AllStored {Storage : Type 0} (t : Tracker Storage) : Type 0 where
  pub at_run : (k : String) (m : RunManifest) → get k t.manifests ≡ some m → IsOf k m

with_stage-IsOf :
    (run_id : String) (a : RunArtifact) (m u : RunManifest)
    → IsOf run_id m
    → with_stage a m ≡ ok u
    → IsOf run_id u
with_stage-IsOf run_id a m u h e =
    let (_, rest, unique) = with_stage_inv a m h.unique e in
    record { own = rw rest h.own; unique = unique }

with_status-IsOf :
    (run_id status : String) (m u : RunManifest)
    → IsOf run_id m
    → with_status status m ≡ ok u
    → IsOf run_id u
with_status-IsOf run_id status m u h e =
    let same : record m { status = status } ≡ u =
      ground (arith, with_status_lem status m h.unique) in
    rw (sym same) (record { own = h.own; unique = record { unique = h.unique.unique } })

module _ {Storage : Type 0} where
  store-AllStored :
      (run_id : String) (m : RunManifest)
      → IsOf run_id m
      → (t : Tracker Storage) → AllStored t
      → AllStored (store run_id m t)
  store-AllStored run_id m mine t h = record {
    at_run = put_all IsOf run_id m t.manifests h.at_run mine;
  }

  write_with-AllStored :
      (w : Option (RunManifest → Exec Storage String)) (m : RunManifest)
      → Keeps AllStored (write_with w m)
  unfolding write_with
  write_with-AllStored none m = Keeps-pure none
  write_with-AllStored (some write) m =
      Keeps-bind _ _
        (Keeps-within AllStored _ with_storage _ (λ t s h. record { at_run = h.at_run }))
        (λ uri. Keeps-pure (some uri))

  persist-AllStored : (m : RunManifest) → Keeps (AllStored {Storage = Storage}) (persist m)
  unfolding persist
  persist-AllStored m = search (keeps_rules, write_with-AllStored)

  replace_manifest-AllStored :
      (run_id : String) (persisted : Bool) (m : RunManifest)
      → IsOf run_id m
      → Keeps (AllStored {Storage = Storage}) (replace_manifest run_id persisted m)
  unfolding replace_manifest
  replace_manifest-AllStored run_id persisted m mine =
      Keeps-bind _ _ (Keeps-modify AllStored _ (store-AllStored run_id m mine))
        (λ _. search (keeps_rules, persist-AllStored))

  require-Yields :
      (run_id : String) → Yields (AllStored {Storage = Storage}) (IsOf run_id) (require run_id)
  unfolding require ◌>>=◌ gets lift
  require-Yields run_id = record {
    keeps = λ t h. h;
    yields = λ t m h e. h.at_run run_id m (ground arith);
  }

  lift-Yields :
      {A : Type 0} (Q : A → Type 0) (r : Result A)
      → ((a : A) → r ≡ ok a → Q a)
      → Yields (AllStored {Storage = Storage}) Q (lift r)
  unfolding lift
  lift-Yields Q r q = record { keeps = λ t h. h; yields = λ t a h e. q a e }

  -- A run's manifest is looked up, updated, and stored again.
  update-AllStored :
      {A : Type 0} (run_id : String) (persisted : Bool) (f : RunManifest → Result RunManifest)
      (answer : RunManifest → Option String → A)
      → ((m u : RunManifest) → IsOf run_id m → f m ≡ ok u → IsOf run_id u)
      → Keeps (AllStored {Storage = Storage}) (
          require run_id >>= λ m.
          lift (f m) >>= λ u. replace_manifest run_id persisted u >>= λ uri. pure (answer u uri))
  update-AllStored run_id persisted f answer kept =
      Keeps-known (IsOf run_id) _ _ (require-Yields run_id) (λ m mine.
        Keeps-known (IsOf run_id) _ _ (lift-Yields (IsOf run_id) (f m) (λ u e. kept m u mine e))
          (λ u its.
            Keeps-bind _ _ (replace_manifest-AllStored run_id persisted u its)
              (λ uri. Keeps-pure (answer u uri))))

  -- Every call keeps each stored manifest under its run's id with no stage twice, whether the call
  -- returns or raises, and also when the writer raises: `register` of a manifest with no stage
  -- twice, `bind_stage`, `transition` and `finalize`.
  pub tracker-AllStored :
      (manifest : RunManifest) (run_id status : String) (artifact : RunArtifact) (persisted : Bool)
      (checksum : RunManifest → String) (audit_uri : Option String)
      → IsUnique manifest
      → Keeps (AllStored {Storage = Storage}) (register manifest persisted)
        × Keeps (AllStored {Storage = Storage}) (bind_stage run_id artifact persisted)
        × Keeps (AllStored {Storage = Storage}) (transition run_id status persisted)
        × Keeps
            (AllStored {Storage = Storage})
            (finalize checksum run_id status audit_uri persisted)
  unfolding register bind_stage transition finalize
  tracker-AllStored manifest run_id status artifact persisted checksum audit_uri u = (
    Keeps-bind _ _
        (Keeps-modify AllStored _
          (store-AllStored manifest.run_id manifest (record { own = refl; unique = u })))
        (λ _. search (keeps_rules, persist-AllStored)),
    update-AllStored run_id persisted (with_stage artifact) (λ u uri. u)
        (with_stage-IsOf run_id artifact),
    update-AllStored run_id persisted (with_status status) (λ u uri. u)
        (with_status-IsOf run_id status),
    update-AllStored run_id persisted (with_status status) _ (with_status-IsOf run_id status),
  )
