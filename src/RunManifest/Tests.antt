-- ===== src/RunManifest/Tests.antt =====
-- Runs of a tracker, of run_manifest.py.
use paper_live.Base.{◌≡◌, ◌≢◌, refl, ℕ, suc, true, none, some, [], ◌∷◌, String, ok, is_some}
use paper_live.Base.Dict.{get, string_eq}
use paper_live.Base.Exec.{Keeps}
use paper_live.RunManifest.{RunArtifact, RunManifest, stage, check_stages, with_stage}
use paper_live.RunManifest.Stages.{IsUnique, with_stage_lem}
use paper_live.RunManifest.Tracker.{Tracker, register, bind_stage, transition, finalize}
use paper_live.RunManifest.Tracker.Stored.{AllStored, tracker-AllStored}

abbrev artifact : String → String → RunArtifact
artifact name status = record {
  stage = name;
  artifact_id = none;
  dataset = none;
  row_count = none;
  checksum_sha256 = none;
  status = status;
  metadata = [];
}

abbrev manifest : RunManifest
manifest = record {
  run_id = "r-1";
  status = "running";
  decision_time = "09:00";
  stages = artifact "risk" "not_run" ∷ artifact "fill" "not_run" ∷ [];
  schema_version = "paper-live-run-v3";
}

-- A tracker whose writer counts its calls.
abbrev tracker : Tracker ℕ
tracker = record {
  writer = some (λ m calls. (ok m.run_id, suc calls));
  manifests = ("r-1", manifest) ∷ [];
  storage = 0;
}

manifest-IsUnique : IsUnique manifest
manifest-IsUnique = record { unique = refl }

fill_known : is_some (stage "fill" manifest) ≡ true
unfolding stage
fill_known = refl

with_stage_lem_example :
    (m' : RunManifest) × (with_stage (artifact "fill" "FILLED") manifest ≡ ok m')
    × (stage "fill" m' ≡ some (artifact "fill" "FILLED"))
    × ((name : String)
        → (artifact "fill" "FILLED").stage ≢ name
        → stage name m' ≡ stage name manifest)
    × (m' ≡ record manifest { stages = m'.stages })
    × IsUnique m'
with_stage_lem_example =
    with_stage_lem (artifact "fill" "FILLED") manifest manifest-IsUnique fill_known

tracker-AllStored_example :
    Keeps (AllStored {Storage = ℕ}) (register manifest true)
    × Keeps (AllStored {Storage = ℕ}) (bind_stage "r-1" (artifact "fill" "FILLED") true)
    × Keeps (AllStored {Storage = ℕ}) (transition "r-1" "completed" true)
    × Keeps (AllStored {Storage = ℕ}) (finalize (λ m. "sum") "r-1" "completed" none true)
tracker-AllStored_example =
    tracker-AllStored manifest "r-1" "completed" (artifact "fill" "FILLED") true (λ m. "sum") none
      manifest-IsUnique

run_known : get "r-1" tracker.manifests ≡ some manifest
unfolding get
run_known = refl

abbrev filled : RunManifest
filled = record manifest { stages = artifact "risk" "not_run" ∷ artifact "fill" "FILLED" ∷ [] }

stage_known : with_stage (artifact "fill" "FILLED") manifest ≡ ok filled
unfolding with_stage check_stages stage
stage_known = refl
