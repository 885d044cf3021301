-- ===== src/Plugins/Catalog/Tests.antt =====
-- A plugin is added to the catalogue, verified and enabled, of plugins/registry.py.
use paper_live.Base.{◌≡◌, refl, true, false, none, some, List, [], ◌∷◌}
use paper_live.Base.Dict.{get, put, string_eq}
use paper_live.Base.Text.{prefix, strip}
use paper_live.Plugins.Manifest.{PluginManifest, validate}
use paper_live.Plugins.Catalog.{RegisteredPlugin, add, find, verify, enable}
use paper_live.Plugins.Catalog.Trusted.{Call, step, run, Verified, enabled-Verified}

abbrev manifest : PluginManifest
manifest = record {
  id = "news-scan";
  version = "1.0";
  name = "News";
  entrypoint = "src/main.py";
  skills = [];
  permissions = record {
    network_allow = [];
    secret_allow = [];
    filesystem_read = [];
    shell = false;
    allowed_modes = [];
  };
  source_commit = some "abc";
  sha256 = none;
}

abbrev calls : List Call
calls =
    Call.adding "https://github.com/a/b" manifest
    ∷ Call.verifying "news-scan" "abc" "c0ffee"
    ∷ Call.enabling "news-scan"
    ∷ []

abbrev installed : RegisteredPlugin
installed = record {
  manifest = manifest;
  repository_url = "https://github.com/a/b";
  trusted = true;
  enabled = true;
}

calls_enable : get "news-scan" (run (λ path. false) (λ url. url) calls []) ≡ some installed
unfolding run step add verify enable find validate get put prefix strip
calls_enable = refl

enabled-Verified_example : Verified calls "news-scan" manifest
enabled-Verified_example =
    enabled-Verified (λ path. false) (λ url. url) calls "news-scan" installed calls_enable refl

-- Another commit than the pinned one.
abbrev mistaken : List Call
mistaken =
    Call.adding "https://github.com/a/b" manifest ∷ Call.verifying "news-scan" "abd" "c0ffee" ∷ []

mistaken_untrusted :
    get "news-scan" (run (λ path. false) (λ url. url) mistaken [])
    ≡ some (record installed { trusted = false; enabled = false })
unfolding run step add verify find validate get put prefix strip
mistaken_untrusted = refl
