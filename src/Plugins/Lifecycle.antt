-- ===== src/Plugins/Lifecycle.antt =====
-- paper_live/plugins/lifecycle.py: the states of the installed plugins.
pub mod Verified
use paper_live.Base.{
  Bool, true, false, not, Option, none, some, List, [], ◌∷◌, String, Result, Kind, ok, err, raise,
  raise_if, ◌>>=◌, ◌>>◌, if◌then◌else◌,
}
use paper_live.Base.Dict.{Dict, get, put, string_eq}
use paper_live.Base.Text.{concat}

pub data PluginState : Type 0 where
  installed verified enabled disabled removed : PluginState

pub record PluginRecord : Type 0 where
  pub plugin_id : String
  pub version : String
  pub commit : String
  pub artifact_sha256 : String
  pub state : PluginState

-- `PluginLifecycle`: its `_records`.
abbrev pub Plugins : Type 0
Plugins = Dict String PluginRecord

abbrev is_removed : PluginState → Bool
is_removed PluginState.removed = true
is_removed _ = false

abbrev pub is_verified : PluginState → Bool
is_verified PluginState.verified = true
is_verified _ = false

abbrev is_present : Option PluginRecord → Bool
is_present none = false
is_present (some r) = not (is_removed r.state)

unfoldable pub add : PluginRecord → Plugins → Result (Unit {0} × Plugins)
add r plugins = do
  raise_if (is_present (get r.plugin_id plugins)) Kind.lifecycle_error "plugin already installed"
  ok (tt, put r.plugin_id r plugins)

abbrev require_present : String → Option PluginRecord → Result PluginRecord
require_present plugin_id none =
    raise Kind.lifecycle_error (concat ("unknown plugin: " ∷ plugin_id ∷ []))
require_present plugin_id (some r) =
    if is_removed r.state then raise Kind.lifecycle_error "plugin is removed" else ok r

-- `_get`, and `get`
unfoldable pub require : String → Plugins → Result PluginRecord
require plugin_id plugins = require_present plugin_id (get plugin_id plugins)

-- The write of a state into a record that is stored.
abbrev pub set_state : PluginState → String → PluginRecord → Plugins → PluginRecord × Plugins
set_state state plugin_id r plugins =
    let changed : PluginRecord = record r { state = state } in
    (changed, put plugin_id changed plugins)

unfoldable pub verify : String → Plugins → Result (PluginRecord × Plugins)
verify plugin_id plugins = do
  r ← require plugin_id plugins
  ok (set_state PluginState.verified plugin_id r plugins)

unfoldable pub enable : String → Plugins → Result (PluginRecord × Plugins)
enable plugin_id plugins = do
  r ← require plugin_id plugins
  raise_if (not (is_verified r.state)) Kind.lifecycle_error
      "plugin must be verified before enabling"
  ok (set_state PluginState.enabled plugin_id r plugins)

unfoldable pub disable : String → Plugins → Result (PluginRecord × Plugins)
disable plugin_id plugins = do
  r ← require plugin_id plugins
  ok (set_state PluginState.disabled plugin_id r plugins)

unfoldable pub remove : String → Plugins → Result (PluginRecord × Plugins)
remove plugin_id plugins = do
  r ← require plugin_id plugins
  ok (set_state PluginState.removed plugin_id r plugins)
