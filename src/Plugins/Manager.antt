-- ===== src/Plugins/Manager.antt =====
-- paper_live/plugins/manager.py: the installation of a plugin, from its package to its skills.
pub mod Clean
mod Tests
use paper_live.Base.{
  Bool, true, false, Option, none, some, List, [], ◌∷◌, String, ◌==◌, Result, Error, Kind, ok, err,
  if◌then◌else◌,
}
use paper_live.Base.Exec.{Exec, pure, lift, gets, modify, zoom, attempt, ◌>>=◌, ◌>>◌}
use paper_live.Plugins.Lifecycle
use paper_live.Plugins.Lifecycle.{PluginState, PluginRecord, Plugins}
use paper_live.Plugins.Skills
use paper_live.Plugins.Skills.{RegisteredSkill, Skills}
use paper_live.Plugins.Manifest.{PluginManifest, SecurityPolicy, validate, validate_manifest}

-- `InstalledPlugin` of plugins/installer.py, as far as it is read.
pub record InstalledPlugin : Type 0 where
  pub plugin_id : String
  pub version : String
  pub commit : String
  pub artifact_sha256 : String

-- `PluginManager`, with the policy of its validator. The installer and the file that it reads are
-- arguments of the calls.
pub record PluginManager : Type 0 where
  pub registry : Skills
  pub lifecycle : Plugins
  pub policy : SecurityPolicy

abbrev pub with_lifecycle : PluginManager → Plugins → PluginManager
with_lifecycle m lifecycle = record m { lifecycle = lifecycle }

abbrev with_registry : PluginManager → Skills → PluginManager
with_registry m registry = record m { registry = registry }

unfoldable pub on_lifecycle : {A : Type 0} → (Plugins → Result (A × Plugins)) → Exec PluginManager A
on_lifecycle = zoom (λ m. m.lifecycle) with_lifecycle

-- `text or "untracked"`
abbrev or_untracked : Option String → String
or_untracked none = "untracked"
or_untracked (some t) = if t == "" then "untracked" else t

abbrev pub untracked_record : PluginManifest → PluginRecord
untracked_record m = record {
  plugin_id = m.id;
  version = m.version;
  commit = or_untracked m.source_commit;
  artifact_sha256 = or_untracked m.sha256;
  state = PluginState.installed;
}

-- `except PluginLifecycleError: self.lifecycle.add(...)`
unfoldable pub add_unknown : PluginManifest → Result PluginRecord → Exec PluginManager (Unit {0})
add_unknown m (ok known) = pure tt
add_unknown m (err e) = elim e.kind [
  | Kind.lifecycle_error ↦ on_lifecycle (Lifecycle.add (untracked_record m))
  | _ ↦ lift (err e)
]

unfoldable pub register_skills : PluginManifest → List String → Exec PluginManager (Unit {0})
register_skills m [] = pure tt
register_skills m (skill_id ∷ skills) = do
  zoom (λ s. s.registry) with_registry
      (Skills.register (record {
        skill_id = skill_id;
        plugin_id = m.id;
        version = m.version;
        entrypoint = m.entrypoint;
      }))
  register_skills m skills

unfoldable pub register_verified : (String → Bool) → PluginManifest → Exec PluginManager (Unit {0})
register_verified leaves m = do
  lift (validate leaves m)
  policy ← gets (λ s. s.policy)
  lift (validate_manifest m policy)
  known ← gets (λ s. Lifecycle.require m.id s.lifecycle)
  add_unknown m known
  register_skills m m.skills

abbrev pub installed_record : InstalledPlugin → PluginRecord
installed_record i = record {
  plugin_id = i.plugin_id;
  version = i.version;
  commit = i.commit;
  artifact_sha256 = i.artifact_sha256;
  state = PluginState.installed;
}

unfoldable pub unregister : String → Exec PluginManager (Unit {0})
unregister plugin_id =
    modify (λ s. record s { registry = Skills.unregister_plugin plugin_id s.registry })

-- The `try` of `install_and_enable`, and what its `except` clause does.
unfoldable pub bring_up :
    (String → Bool) → String → PluginManifest → Exec PluginManager PluginRecord
bring_up leaves plugin_id m = do
  verified ← on_lifecycle (Lifecycle.verify plugin_id)
  register_verified leaves m
  on_lifecycle (Lifecycle.enable plugin_id)

unfoldable pub settle :
    String → InstalledPlugin → Result PluginRecord → Exec PluginManager InstalledPlugin
settle plugin_id installed (ok enabled) = pure installed
settle plugin_id installed (err e) = do
  unregister plugin_id
  removed ← on_lifecycle (Lifecycle.remove plugin_id)
  lift (err e)

-- `installed` is what the installer gives, `load` what `load_manifest` gives of the installed file.
unfoldable pub install_and_enable :
    (String → Bool)
    → Result InstalledPlugin
    → (InstalledPlugin → Result PluginManifest)
    → String
    → Exec PluginManager InstalledPlugin
install_and_enable leaves installed load plugin_id = do
  i ← lift installed
  m ← lift (load i)
  on_lifecycle (Lifecycle.add (installed_record i))
  enabled ← attempt (bring_up leaves plugin_id m)
  settle plugin_id i enabled

-- `disable` of the manager
unfoldable pub disable_plugin : String → Exec PluginManager (Unit {0})
disable_plugin plugin_id = do
  disabled ← on_lifecycle (Lifecycle.disable plugin_id)
  unregister plugin_id
