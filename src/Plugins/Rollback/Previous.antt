-- ===== src/Plugins/Rollback/Previous.antt =====
-- What `rollback` restores, of plugins/rollback.py.
use paper_live.Base.{String}
use paper_live.Base.Dict.{put, string_eq}
use paper_live.Plugins.Lifecycle.{PluginState, PluginRecord, Plugins}
use paper_live.Plugins.Rollback.{PluginVersion, RollbackManager, replacement}

abbrev restored : String → PluginVersion → PluginRecord → RollbackManager → RollbackManager
restored p v r n = record n {
  lifecycle =
      put p (replacement p v) (put p (record r { state = PluginState.disabled }) n.lifecycle);
}
