-- ===== src/Plugins/Catalog.antt =====
-- paper_live/plugins/registry.py: the catalogue of known plugins, which are trusted once verified.
pub mod Trusted
mod Tests
use paper_live.Base.{
  Bool, true, false, ◌||◌, ◌&&◌, not, Option, none, some, [], ◌∷◌, String, ◌==◌, Result, Kind, ok,
  err, raise_if, or_raise, ◌>>=◌, ◌>>◌, if◌then◌else◌,
}
use paper_live.Base.Dict.{Dict, get, put, string_eq}
use paper_live.Base.Text.{prefix}
use paper_live.Plugins.Manifest.{PluginManifest, validate}

pub record RegisteredPlugin : Type 0 where
  pub manifest : PluginManifest
  pub repository_url : String
  pub trusted : Bool
  pub enabled : Bool

-- `PluginRegistry`: its `_plugins`.
abbrev pub Catalog : Type 0
Catalog = Dict String RegisteredPlugin

-- `repository_url.startswith("https://github.com/")`
abbrev is_github : String → Bool
is_github url = prefix 19 url == "https://github.com/"

-- `add`; `leaves` is the test of a path, `trimmed` the url without the slashes at its end.
unfoldable pub add :
    (String → Bool)
    → (String → String)
    → String
    → PluginManifest
    → Catalog
    → Result (RegisteredPlugin × Catalog)
add leaves trimmed url m catalog = do
  raise_if (not (is_github url)) Kind.value_error "only HTTPS GitHub repositories are supported"
  validate leaves m
  let plugin : RegisteredPlugin = record {
    manifest = m;
    repository_url = trimmed url;
    trusted = false;
    enabled = false;
  }
  ok (plugin, put m.id plugin catalog)

-- `_get`
unfoldable pub find : String → Catalog → Result RegisteredPlugin
find plugin_id catalog = or_raise (get plugin_id catalog) Kind.key_error plugin_id

unfoldable pub enable : String → Catalog → Result (RegisteredPlugin × Catalog)
enable plugin_id catalog = do
  plugin ← find plugin_id catalog
  raise_if (not plugin.trusted) Kind.permission_error "plugin must be verified before enable"
  let updated : RegisteredPlugin = record plugin { enabled = true }
  ok (updated, put plugin_id updated catalog)

-- `pinned and pinned != given`
abbrev pub mismatch : Option String → String → Bool
mismatch none given = false
mismatch (some pinned) given = not (pinned == "") && not (pinned == given)

unfoldable pub verify : String → String → String → Catalog → Result (RegisteredPlugin × Catalog)
verify plugin_id commit sha256 catalog = do
  plugin ← find plugin_id catalog
  raise_if (commit == "" || sha256 == "") Kind.value_error
      "immutable commit and artifact hash are required"
  raise_if (mismatch plugin.manifest.source_commit commit) Kind.value_error
      "commit does not match manifest"
  raise_if (mismatch plugin.manifest.sha256 sha256) Kind.value_error
      "artifact hash does not match manifest"
  let updated : RegisteredPlugin = record plugin { trusted = true; enabled = false }
  ok (updated, put plugin_id updated catalog)
