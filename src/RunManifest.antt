-- ===== src/RunManifest.antt =====
-- paper_live/run_manifest.py: the manifest of a run, with one artifact for each stage.
pub mod Stages
pub mod Tracker
mod Tests
use paper_live.Base.{
  ℕ, Bool, true, false, not, Option, none, some, List, [], ◌∷◌, String, ◌==◌, length, eqb, Result,
  Kind, ok, err, raise, raise_if, is_some, ◌>>=◌, ◌>>◌, if◌then◌else◌,
}
use paper_live.Base.Dict.{Dict}
use paper_live.Base.Text.{concat}
use paper_live.Decimal.{Decimal}
use paper_live.Environment.{is_member}

-- A value of an artifact's metadata.
pub data Value : Type 0 where
  null : Value
  text : String → Value
  figure : Decimal → Value
  count : ℕ → Value
  flag : Bool → Value

pub record RunArtifact : Type 0 where
  pub stage : String
  pub artifact_id : Option String
  pub dataset : Option String
  pub row_count : Option ℕ
  pub checksum_sha256 : Option String
  pub status : String
  pub metadata : Dict String Value

-- `RunManifestV3`
pub record RunManifest : Type 0 where
  pub run_id : String
  pub status : String
  pub decision_time : String
  pub stages : List RunArtifact
  pub schema_version : String

abbrev pub names : List RunArtifact → List String
names [] = []
names (a ∷ l) = a.stage ∷ names l

-- `set(names)`, in some order.
abbrev pub to_set : List String → List String
to_set [] = []
to_set (k ∷ l) = let s = to_set l in if is_member k s then s else k ∷ s

-- `len({item.stage for item in stages}) == len(stages)`
abbrev pub is_unique : List String → Bool
is_unique l = eqb (length (to_set l)) (length l)

-- `__post_init__`, which `replace` runs as well.
unfoldable pub check_stages : RunManifest → Result RunManifest
check_stages m = do
  raise_if (not (is_unique (names m.stages))) Kind.value_error "run manifest stages must be unique"
  ok m

abbrev pub find_stage : String → List RunArtifact → Option RunArtifact
find_stage name [] = none
find_stage name (a ∷ l) = let rest = find_stage name l in if a.stage == name then some a else rest

-- `RunManifestV3.stage`
unfoldable pub stage : String → RunManifest → Option RunArtifact
stage name m = find_stage name m.stages

abbrev pub replace_stage : RunArtifact → List RunArtifact → List RunArtifact
replace_stage artifact [] = []
replace_stage artifact (a ∷ l) =
    (if a.stage == artifact.stage then artifact else a) ∷ replace_stage artifact l

unfoldable pub with_stage : RunArtifact → RunManifest → Result RunManifest
with_stage artifact m = do
  raise_if (not (is_some (stage artifact.stage m))) Kind.key_error
      (concat ("unknown run manifest stage: " ∷ artifact.stage ∷ []))
  check_stages (record m { stages = replace_stage artifact m.stages })

unfoldable pub with_status : String → RunManifest → Result RunManifest
with_status status m = check_stages (record m { status = status })

-- `build_run_manifest_v3`, with the nine artifacts in the order of its parameters.
unfoldable pub build_run_manifest :
    String
    → String
    → String
    → RunArtifact
    → RunArtifact
    → RunArtifact
    → RunArtifact
    → RunArtifact
    → RunArtifact
    → RunArtifact
    → RunArtifact
    → RunArtifact
    → Result RunManifest
build_run_manifest run_id status decision_time ingestion features recommendations portfolio risk
      execution_audit fill pnl reflection =
    do
      let stages =
          ingestion ∷ features ∷ recommendations ∷ portfolio ∷ risk ∷ execution_audit ∷ fill ∷ pnl
          ∷ reflection ∷ []
      raise_if (not (is_unique (names stages))) Kind.value_error
          "run manifest stages must be unique"
      check_stages (record {
        run_id = run_id;
        status = status;
        decision_time = decision_time;
        stages = stages;
        schema_version = "paper-live-run-v3";
      })
