-- ===== src/RunManifest/Tracker/Writes.antt =====
-- What `bind_stage` writes, of run_manifest.py.
use paper_live.Base.{◌≡◌, ◌≢◌, refl, Bool, true, false, Option, none, some, String, ok, arith}
use paper_live.Base.Dict.{get, put, get-put_ne, get-put_self, string_eq}
use paper_live.Base.Exec.{Exec, pure, lift, gets, modify, within, ◌>>=◌}
use paper_live.RunManifest.{RunArtifact, RunManifest, with_stage}
use paper_live.RunManifest.Tracker.{
  Tracker, write_with, persist, require, replace_manifest, bind_stage,
}

module _ {Storage : Type 0} where
  write_with_frame :
      (w : Option (RunManifest → Exec Storage String)) (m : RunManifest) (t : Tracker Storage)
      → (write_with w m t).1.manifests ≡ t.manifests
  unfolding write_with within pure ◌>>=◌
  write_with_frame none m t = refl
  write_with_frame (some write) m t = ground arith

  replace_manifest_frame :
      (run_id : String) (persisted : Bool) (m : RunManifest) (t : Tracker Storage)
      → (replace_manifest run_id persisted m t).1.manifests ≡ put run_id m t.manifests
  unfolding replace_manifest persist modify pure gets ◌>>=◌
  replace_manifest_frame run_id false m t = refl
  replace_manifest_frame run_id true m t = write_with_frame t.writer m _

  -- `bind_stage` for a run that is known and an artifact that `with_stage` takes stores the new
  -- manifest under the run and leaves every other run as it was, also when the writer raises.
  pub bind_stage_writes :
      (run_id : String) (a : RunArtifact) (persisted : Bool) (t : Tracker Storage)
      {m u : RunManifest}
      → get run_id t.manifests ≡ some m
      → with_stage a m ≡ ok u
      → (get run_id (bind_stage run_id a persisted t).1.manifests ≡ some u)
        × ((j : String)
            → run_id ≢ j
            → get j (bind_stage run_id a persisted t).1.manifests ≡ get j t.manifests)
  unfolding bind_stage require gets lift ◌>>=◌ pure
  bind_stage_writes run_id a persisted t {m} {u} known e =
      let stored : (bind_stage run_id a persisted t).1.manifests ≡ put run_id u t.manifests =
        ground (arith, replace_manifest_frame run_id persisted u t) in
      rw stored
        (get-put_self run_id u t.manifests, λ j other. get-put_ne run_id j u t.manifests other)
