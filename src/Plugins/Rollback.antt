-- ===== src/Plugins/Rollback.antt =====
-- paper_live/plugins/rollback.py: the versions of a plugin, and the way back to the one before.
pub mod Previous
use paper_live.Base.{
  Bool, true, false, ◌&&◌, Option, none, some, List, [], ◌∷◌, ◌++◌, String, ◌==◌, Result, Kind, ok,
  err, raise, ◌>>=◌, if◌then◌else◌,
}
use paper_live.Base.Dict.{Dict, get, put, string_eq}
use paper_live.Plugins.Lifecycle.{PluginState, PluginRecord, Plugins, require, disable}

pub record PluginVersion : Type 0 where
  pub version : String
  pub commit : String
  pub artifact_sha256 : String

-- `PluginRollbackManager`, with the lifecycle that it writes to.
pub record RollbackManager : Type 0 where
  pub lifecycle : Plugins
  pub versions : Dict String (List PluginVersion)

abbrev pub same_version : PluginVersion → PluginVersion → Bool
same_version a b =
    a.version == b.version && a.commit == b.commit && a.artifact_sha256 == b.artifact_sha256

-- `versions[-1]` and `versions[-2]`, if they are there.
abbrev pub last : List PluginVersion → Option PluginVersion
last [] = none
last (v ∷ []) = some v
last (v ∷ w ∷ l) = last (w ∷ l)

abbrev pub last_but_one : List PluginVersion → Option PluginVersion
last_but_one [] = none
last_but_one (v ∷ []) = none
last_but_one (v ∷ w ∷ []) = some v
last_but_one (v ∷ w ∷ x ∷ l) = last_but_one (w ∷ x ∷ l)

abbrev pub versions_of : Option (List PluginVersion) → List PluginVersion
versions_of none = []
versions_of (some l) = l

-- `versions and versions[-1] == version`
abbrev pub is_last : PluginVersion → Option PluginVersion → Bool
is_last v none = false
is_last v (some w) = same_version w v

unfoldable pub record_version : String → PluginVersion → RollbackManager → RollbackManager
record_version plugin_id v m =
    let versions = versions_of (get plugin_id m.versions) in
    record m {
      versions =
          put plugin_id (if is_last v (last versions) then versions else versions ++ (v ∷ []))
            m.versions;
    }

abbrev or_none_before : Option PluginVersion → Result PluginVersion
or_none_before none = raise Kind.rollback_error "no previous verified version"
or_none_before (some v) = ok v

unfoldable pub previous : String → RollbackManager → Result PluginVersion
previous plugin_id m = or_none_before (last_but_one (versions_of (get plugin_id m.versions)))

abbrev pub replacement : String → PluginVersion → PluginRecord
replacement plugin_id target = record {
  plugin_id = plugin_id;
  version = target.version;
  commit = target.commit;
  artifact_sha256 = target.artifact_sha256;
  state = PluginState.verified;
}

unfoldable pub rollback : String → RollbackManager → Result (PluginRecord × RollbackManager)
rollback plugin_id m = do
  target ← previous plugin_id m
  current ← require plugin_id m.lifecycle
  (_, disabled) ← disable plugin_id m.lifecycle
  let restored = replacement plugin_id target
  ok (restored, record m { lifecycle = put plugin_id restored disabled })
