-- ===== src/Plugins/Manager/Tests.antt =====
-- The installation of one plugin, of plugins/manager.py.
use paper_live.Base.{false, none, [], ◌∷◌, ok}
use paper_live.Plugins.Manifest.{PluginManifest}
use paper_live.Plugins.Manager.{InstalledPlugin, PluginManager, install_and_enable}
use paper_live.Plugins.Manager.Clean.{Ends, install_and_enable-Ends}

abbrev installed : InstalledPlugin
installed = record {
  plugin_id = "news-scan";
  version = "1.0";
  commit = "abc";
  artifact_sha256 = "c0ffee";
}

abbrev manifest : PluginManifest
manifest = record {
  id = "news-scan";
  version = "1.0";
  name = "News";
  entrypoint = "src/main.py";
  skills = "scan" ∷ [];
  permissions = record {
    network_allow = "github.com" ∷ [];
    secret_allow = [];
    filesystem_read = [];
    shell = false;
    allowed_modes = "PAPER_SANDBOX" ∷ [];
  };
  source_commit = none;
  sha256 = none;
}

abbrev empty : PluginManager
empty = record {
  registry = [];
  lifecycle = [];
  policy = record { allowed_hosts = []; allow_shell = false; allow_live = false };
}

install_and_enable-Ends_example :
    Ends "news-scan" empty
      (install_and_enable (λ path. false) (ok installed) (λ i. ok manifest) "news-scan" empty)
install_and_enable-Ends_example =
    install_and_enable-Ends (λ path. false) (ok installed) (λ i. ok manifest) "news-scan" empty
