-- ===== src/Plugins/Tests.antt =====
-- A plugin that is verified, enabled and rolled back.
use paper_live.Base.{◌≡◌, refl, true, false, some, List, [], ◌∷◌, ◌++◌}
use paper_live.Base.Dict.{get, put, string_eq}
use paper_live.Plugins.Lifecycle.{PluginState, PluginRecord, Plugins, add, require, verify, enable}
use paper_live.Plugins.Lifecycle.Verified.{
  Call, step, run, enabled_in, verified_in, enabled_needs_verify,
}
use paper_live.Plugins.Rollback.{PluginVersion, RollbackManager}
use paper_live.Plugins.Skills.{RegisteredSkill, Skills, unregister_plugin}

abbrev fresh : PluginRecord
fresh = record {
  plugin_id = "p";
  version = "1";
  commit = "c";
  artifact_sha256 = "s";
  state = PluginState.installed;
}

abbrev no_plugins : Plugins
no_plugins = []

abbrev calls : List Call
calls = Call.adding fresh ∷ Call.enabling "p" ∷ Call.verifying "p" ∷ Call.enabling "p" ∷ []

ends_enabled : enabled_in (get "p" (run calls no_plugins)) ≡ true
unfolding run step add require verify enable get put
ends_enabled = refl

begins_unknown : enabled_in (get "p" no_plugins) ≡ false
unfolding get
begins_unknown = refl

enabled_needs_verify_example :
    (first : List Call) × (rest : List Call) × (calls ≡ first ++ rest)
    × (verified_in (get "p" (run first no_plugins)) ≡ true)
enabled_needs_verify_example =
    enabled_needs_verify "p" calls no_plugins (refl, tt) begins_unknown ends_enabled

abbrev first_version : PluginVersion
first_version = record { version = "1"; commit = "c"; artifact_sha256 = "s" }

abbrev second_version : PluginVersion
second_version = record { version = "2"; commit = "d"; artifact_sha256 = "t" }

abbrev manager : RollbackManager
manager = record { lifecycle = ("p", fresh) ∷ []; versions = [] }

abbrev skill : RegisteredSkill
skill = record { skill_id = "s"; plugin_id = "p"; version = "1"; entrypoint = "run" }

abbrev rival : RegisteredSkill
rival = record { skill_id = "s"; plugin_id = "q"; version = "1"; entrypoint = "run" }

abbrev skills : Skills
skills = ("s", skill) ∷ []

skill_known : get "s" skills ≡ some skill
unfolding get
skill_known = refl

skill_left : get "s" (unregister_plugin "q" skills) ≡ some skill
unfolding get unregister_plugin
skill_left = refl
