-- ===== src/RunManifest/Tracker.antt =====
-- `RunManifestTracker` of run_manifest.py: the manifests of the runs, and the writer that persists
-- them. The writer is any object with `write_run_manifest`: an action on a storage of its own.
pub mod Stored
pub mod Writes
use paper_live.Base.{
  Bool, true, false, Option, none, some, String, Result, Kind, ok, err, or_raise, if◌then◌else◌,
}
use paper_live.Base.Dict.{Dict, get, put, string_eq}
use paper_live.Base.Exec.{Exec, pure, lift, gets, modify, within, ◌>>=◌, ◌>>◌}
use paper_live.RunManifest.{RunArtifact, RunManifest, with_stage, with_status}

pub record Tracker (Storage : Type 0) : Type 0 where
  pub writer : Option (RunManifest → Exec Storage String)
  pub manifests : Dict String RunManifest
  pub storage : Storage

pub record RunFinalization : Type 0 where
  pub run_id : String
  pub status : String
  pub manifest_checksum_sha256 : String
  pub manifest_uri : Option String
  pub audit_uri : Option String

module _ {Storage : Type 0} where
  abbrev pub with_storage : Tracker Storage → Storage → Tracker Storage
  with_storage t storage = record t { storage = storage }

  -- `self.manifests[run_id] = manifest`
  abbrev pub store : String → RunManifest → Tracker Storage → Tracker Storage
  store run_id manifest t = record t { manifests = put run_id manifest t.manifests }

  unfoldable pub write_with :
      Option (RunManifest → Exec Storage String)
      → RunManifest
      → Exec (Tracker Storage) (Option String)
  write_with none manifest = pure none
  write_with (some write) manifest = do
    uri ← within (λ t. t.storage) with_storage (write manifest)
    pure (some uri)

  -- `_persist`
  unfoldable pub persist : RunManifest → Exec (Tracker Storage) (Option String)
  persist manifest = do writer ← gets (λ t. t.writer); write_with writer manifest

  -- `self._persist(manifest) if persist else None`
  abbrev pub persist_if : Bool → RunManifest → Exec (Tracker Storage) (Option String)
  persist_if persisted manifest = if persisted then persist manifest else pure none

  unfoldable pub register : RunManifest → Bool → Exec (Tracker Storage) RunManifest
  register manifest persisted = do
    modify (store manifest.run_id manifest)
    uri ← persist_if persisted manifest
    pure manifest

  -- `self.manifests.get(run_id)`, which must be there.
  unfoldable pub require : String → Exec (Tracker Storage) RunManifest
  require run_id = do
    manifests ← gets (λ t. t.manifests)
    lift (or_raise (get run_id manifests) Kind.key_error run_id)

  -- The writes of `bind_stage` and `transition`.
  unfoldable pub replace_manifest :
      String → Bool → RunManifest → Exec (Tracker Storage) (Option String)
  replace_manifest run_id persisted updated = do
    modify (store run_id updated)
    persist_if persisted updated

  unfoldable pub bind_stage : String → RunArtifact → Bool → Exec (Tracker Storage) RunManifest
  bind_stage run_id artifact persisted = do
    manifest ← require run_id
    updated ← lift (with_stage artifact manifest)
    uri ← replace_manifest run_id persisted updated
    pure updated

  unfoldable pub transition : String → String → Bool → Exec (Tracker Storage) RunManifest
  transition run_id status persisted = do
    manifest ← require run_id
    updated ← lift (with_status status manifest)
    uri ← replace_manifest run_id persisted updated
    pure updated

  -- `finalize`; `checksum` is the property of that name, a SHA-256 of the manifest as JSON.
  unfoldable pub finalize :
      (RunManifest → String)
      → String
      → String
      → Option String
      → Bool
      → Exec (Tracker Storage) RunFinalization
  finalize checksum run_id status audit_uri persisted = do
    manifest ← require run_id
    updated ← lift (with_status status manifest)
    uri ← replace_manifest run_id persisted updated
    pure (record {
      run_id = run_id;
      status = status;
      manifest_checksum_sha256 = checksum updated;
      manifest_uri = uri;
      audit_uri = audit_uri;
    })
